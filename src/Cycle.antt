-- ===== src/Cycle.antt =====
-- The hardware module at work: realtime cycles and topic messages, interleaved in any order, over the
-- box that holds the latest status.
pub mod Halted
pub mod Released
pub mod Bounds
pub mod Configured
use icon_hwm_controller.Prelude.{ℕ, ◌≡◌, Bool, true, false, not, List, [], ◌∷◌}
use icon_hwm_controller.Status.{Status, Checked, done, Expected}
use icon_hwm_controller.OperationalStatus.{OperationalStatus}
use icon_hwm_controller.Hwm.Params.{Hwm, on_operational_status}
use icon_hwm_controller.Hwm.Interfaces.{Loans, Joints}
use icon_hwm_controller.Hwm.Read.{read_status}
use icon_hwm_controller.Hwm.Apply.{Command, apply_command}

-- `held` says whether a thread other than the realtime thread has the lock of the box.
pub record System (loans : Loans) : Type 0 where
  pub hwm : Hwm
  pub held : Bool
  pub interfaces : List loans.CommandInterface
  pub joints : Joints loans.Double

-- What a step shows to the outside: a message that was stored, or a cycle with the lock held or free.
pub data Label : Type 0 where
  stored : OperationalStatus → Label
  commanded : (held : Bool) → Label
  internal : Label

module _ (loans : Loans) where
  open loans use {Double, StateInterface}

  -- `OnOperationalStatus` takes the lock, stores, and gives the lock back; so does, without the store,
  -- a copy of the status (`EnableMotion`, `DisableMotion`). `try_get` fails exactly while the lock is
  -- held. A cycle may read other state interfaces each time.
  pub data Step (s : System loans) : Label → System loans → Type 0 where
    lock : s.held ≡ false → Step s internal (record s { held = true })
    store :
        (msg : OperationalStatus)
        → s.held ≡ true
        → Step s (stored msg) (record s { hwm = on_operational_status s.hwm msg })
    unlock : s.held ≡ true → Step s internal (record s { held = false })
    read :
        (states : List StateInterface) (now : ℕ) {r : Status} {j : Joints Double}
        → read_status loans s.hwm states now s.joints ≡ done (r, j)
        → Step s internal (record s { joints = j })
    apply :
        (command : Expected (Command Double)) {r : Status} {is : List loans.CommandInterface}
        → apply_command loans s.hwm (not s.held) command s.interfaces ≡ done (r, is)
        → Step s (commanded s.held) (record s { interfaces = is })

  -- Runs, with their labels, the oldest first.
  pub data Run : System loans → List Label → System loans → Type 0 where
    here : {s : System loans} → Run s [] s
    next :
        {s t u : System loans} {l : Label} {ls : List Label}
        → Step s l t
        → Run t ls u
        → Run s (l ∷ ls) u
