-- ===== src/Plant/Verdict.antt =====
-- What a node says decides what its module does with a command.
use mathlib.Core.Path.{subst}
use icon_hwm_controller.Prelude.{◌↔◌, ◌≡◌, ◌≢◌, sym, ap, ◌∙◌, true, List, [], arith}
use icon_hwm_controller.Status.{ok_status, done, value}
use icon_hwm_controller.OperationalStatus.{OperationalStatus}
use icon_hwm_controller.Hwm.Params.{Hwm, Params}
use icon_hwm_controller.Hwm.Interfaces.{Loans}
use icon_hwm_controller.Hwm.Apply.{Command, apply_command}
use icon_hwm_controller.Hwm.Apply.Bounds.{IsArmed}
use icon_hwm_controller.Hwm.Apply.Guards.{Forbids, Fits, apply_command_blocked}
use icon_hwm_controller.Hwm.Apply.Accepts.{Accepts, command_succeeds}
use icon_hwm_controller.Threads.{Publisher, Reach}
use icon_hwm_controller.Threads.Settled.{Vendor}
use icon_hwm_controller.Plant.{State}
use icon_hwm_controller.Plant.Settles.{Settles, plant_settles}
use icon_hwm_controller.Cycle.{System as Module}

module _ (loans : Loans) where
  open loans use {Double, CommandInterface}

  -- The next command, whose call can read the status box, is written in full.
  abbrev pub Takes : Module loans → Command Double → Type 0
  Takes m c =
      (is : List CommandInterface) × (apply_command loans m.hwm true (value c) m.interfaces
        ≡ done (ok_status, is))

  other_IsArmed :
      (h h' : Hwm) (is : List CommandInterface)
      → h'.params ≡ h.params
      → IsArmed loans h is
      → IsArmed loans h' is
  other_IsArmed h h' is same v = record {
    connected = ap (λ (q : Params). q.command_interfaces) same ∙ v.connected;
    strided = rw same v.strided;
    velocity_strided = rw same v.velocity_strided;
    loaned = rw same v.loaned;
    counted = v.counted;
  }

  other_Fits :
      (h h' : Hwm) (c : Command Double) → h'.params ≡ h.params → Fits loans h c → Fits loans h' c
  other_Fits h h' c same v = record {
    positions = rw same v.positions;
    velocities = rw same v.velocities;
    connected = ap (λ (q : Params). q.command_interfaces) same ∙ v.connected;
  }

  verdict_iff :
      (m : Module loans) (c : Command Double)
      → IsArmed loans m.hwm m.interfaces
      → m.interfaces ≢ []
      → Accepts loans
      → Fits loans m.hwm c
      → Takes m c ↔ (¬ Forbids m.hwm.latest_operational_status)
  verdict_iff m c armed some_lent law fits = (
    λ (is, went) stop.
        let (s, run, code) = apply_command_blocked loans m.hwm (value c) m.interfaces stop in
        ground (arith, went, run, code),
    λ free. command_succeeds loans m.hwm true c m.interfaces law armed free fits some_lent,
  )

-- From every state of a robot whose vendor node has been reached by its steps and whose module can write,
-- and for every further message to the node, a run leads to a state in which the node has taken that
-- message, both threads have finished, nothing is on its way and the lock of the status is free: on
-- hardware that refuses no value, a command with a position and a velocity for each joint is then written
-- exactly when the node's status is neither disabled nor faulted.
pub plant_verdict :
    {p : Publisher} (vendor : Vendor p) (loans : Loans) (s : State p loans) (m : p.Message)
    (c : Command loans.Double)
    → Reach p s.node
    → IsArmed loans s.hwm.hwm s.hwm.interfaces
    → s.hwm.interfaces ≢ []
    → Accepts loans
    → Fits loans s.hwm.hwm c
    → (v : Settles p loans s m) × (Takes loans v.after.hwm c
        ↔ (¬ Forbids (p.status v.after.node.node)))
plant_verdict {p} vendor loans s m c reached armed some_lent law fits =
    let v = plant_settles vendor loans s m reached in
    let (params, interfaces) = v.kept in
    let armed' =
      subst (IsArmed loans v.after.hwm.hwm) (sym interfaces)
        (other_IsArmed loans s.hwm.hwm v.after.hwm.hwm s.hwm.interfaces params armed) in
    (
      v,
      subst (λ (o : OperationalStatus). Takes loans v.after.hwm c ↔ (¬ Forbids o)) v.agrees
          (verdict_iff loans v.after.hwm c armed' (λ e. some_lent (sym interfaces ∙ e)) law
            (other_Fits loans s.hwm.hwm v.after.hwm.hwm c params fits)),
    )
