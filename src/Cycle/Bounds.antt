-- ===== src/Cycle/Bounds.antt =====
-- No run of the hardware module steps out of range, whatever the messages and the commands.
use mathlib.Core.Path.{subst}
use icon_hwm_controller.Prelude.{◌≡◌, ◌≢◌, ◌∙◌, ℕ, Bool, List, arith, length, not}
use icon_hwm_controller.Status.{Status, undefined, done, Expected}
use icon_hwm_controller.OperationalStatus.{OperationalStatus}
use icon_hwm_controller.Hwm.Params.{Hwm, on_operational_status}
use icon_hwm_controller.Hwm.Interfaces.{Loans, Joints}
use icon_hwm_controller.Hwm.Read.{read_status}
use icon_hwm_controller.Hwm.Read.Copies.{IsReady, read_status-defined, read_status_lengths}
use icon_hwm_controller.Hwm.Apply.{Command, apply_command}
use icon_hwm_controller.Hwm.Apply.Bounds.{IsArmed, apply_command-defined}
use icon_hwm_controller.Cycle.{
  System, Label, Step, lock, store, unlock, read, apply, Run, here, next,
}

module _ (loans : Loans) where
  open loans use {Double, StateInterface, CommandInterface}

  -- The module can write, and can read whatever vector of as many state interfaces it is lent.
  pub record IsSound (n : ℕ) (s : System loans) : Type 0 where
    pub armed : IsArmed loans s.hwm s.interfaces
    pub ready :
        (states : List StateInterface) → length states ≡ n → IsReady loans s.hwm states s.joints

  pub status_IsArmed :
      (h : Hwm) (msg : OperationalStatus) (is : List CommandInterface)
      → IsArmed loans h is
      → IsArmed loans (on_operational_status h msg) is
  unfolding on_operational_status
  status_IsArmed h msg is v = record {
    connected = v.connected;
    strided = v.strided;
    velocity_strided = v.velocity_strided;
    loaned = v.loaned;
    counted = v.counted;
  }

  status_IsReady :
      (h : Hwm) (msg : OperationalStatus) (states : List StateInterface) (j : Joints Double)
      → IsReady loans h states j
      → IsReady loans (on_operational_status h msg) states j
  unfolding on_operational_status
  status_IsReady h msg states j v = record {
    connected = v.connected;
    strided = v.strided;
    velocity_strided = v.velocity_strided;
    loaned = v.loaned;
    counted = v.counted;
    position_room = v.position_room;
    velocity_room = v.velocity_room;
  }

  read_IsReady :
      (h : Hwm) (states states' : List StateInterface) (now : ℕ) (j j' : Joints Double) (r : Status)
      → read_status loans h states now j ≡ done (r, j')
      → IsReady loans h states' j
      → IsReady loans h states' j'
  read_IsReady h states states' now j j' r e v =
      let (p, w) = read_status_lengths loans h states now j j' r e in
      record {
        connected = v.connected;
        strided = v.strided;
        velocity_strided = v.velocity_strided;
        loaned = v.loaned;
        counted = v.counted;
        position_room = p ∙ v.position_room;
        velocity_room = w ∙ v.velocity_room;
      }

  apply_IsArmed :
      (h : Hwm) (acquired : Bool) (command : Expected (Command Double))
      (is is' : List CommandInterface) (r : Status)
      → apply_command loans h acquired command is ≡ done (r, is')
      → IsArmed loans h is
      → IsArmed loans h is'
  apply_IsArmed h acquired command is is' r e v =
      let (r', is'', run, armed) = apply_command-defined loans h acquired command is v in
      subst (IsArmed loans h) (cc (run, e)) armed

  pub Step-IsSound :
      {n : ℕ} {s t : System loans} {l : Label} → Step loans s l t → IsSound n s → IsSound n t
  Step-IsSound (lock free) v = record { armed = v.armed; ready = v.ready }
  Step-IsSound {s} (store msg mine) v = record {
    armed = status_IsArmed s.hwm msg s.interfaces v.armed;
    ready = λ states len. status_IsReady s.hwm msg states s.joints (v.ready states len);
  }
  Step-IsSound (unlock mine) v = record { armed = v.armed; ready = v.ready }
  Step-IsSound {s} (read states now e) v = record {
    armed = v.armed;
    ready =
        λ states' len. read_IsReady s.hwm states states' now s.joints _ _ e (v.ready states' len);
  }
  Step-IsSound {s} (apply command e) v = record {
    armed = apply_IsArmed s.hwm (not s.held) command s.interfaces _ _ e v.armed;
    ready = v.ready;
  }

  Run-IsSound :
      {n : ℕ} {s t : System loans} {ls : List Label} → Run loans s ls t → IsSound n s → IsSound n t
  Run-IsSound here v = v
  Run-IsSound (next st r) v = Run-IsSound r (Step-IsSound st v)

  -- From a state that can write, and read any vector of `n` state interfaces, no run leads to a state in
  -- which a cycle steps out of range: every command and every read of `n` state interfaces returns.
  pub cycles_stay_defined :
      {n : ℕ} {s t : System loans} {ls : List Label}
      → IsSound n s
      → Run loans s ls t
      → (acquired : Bool) (command : Expected (Command Double)) (states : List StateInterface)
        (now : ℕ)
      → length states ≡ n
      → (apply_command loans t.hwm acquired command t.interfaces ≢ undefined)
        × (read_status loans t.hwm states now t.joints ≢ undefined)
  cycles_stay_defined {t} v r acquired command states now len =
      let w = Run-IsSound r v in
      let (s, is, run, _) =
        apply_command-defined loans t.hwm acquired command t.interfaces w.armed in
      let (s', j, run', _) =
        read_status-defined loans t.hwm states now t.joints (w.ready states len) in
      (λ e. ground (arith, e, run), λ e. ground (arith, e, run'))
