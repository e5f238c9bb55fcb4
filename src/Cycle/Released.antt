-- ===== src/Cycle/Released.antt =====
-- The other side of a halt: once a status that does not forbid motion is stored, commands go through.
use icon_hwm_controller.Prelude.{ℕ, ◌≡◌, ◌≢◌, refl, true, false, [], ◌∷◌}
use icon_hwm_controller.Status.{ok_status, done, value}
use icon_hwm_controller.OperationalStatus.{OperationalStatus}
use icon_hwm_controller.Hwm.Params.{Hwm, on_operational_status}
use icon_hwm_controller.Hwm.Interfaces.{Loans}
use icon_hwm_controller.Hwm.Apply.{Command, apply_command}
use icon_hwm_controller.Hwm.Apply.Guards.{Forbids, Fits}
use icon_hwm_controller.Hwm.Apply.Accepts.{Accepts, command_succeeds}
use icon_hwm_controller.Cycle.{
  System, stored, commanded, internal, lock, store, unlock, apply, Run, here, next,
}
use icon_hwm_controller.Cycle.Bounds.{IsSound, status_IsArmed}

module _ (loans : Loans) where
  open loans use {Double, CommandInterface}

  received-Fits :
      (h : Hwm) (msg : OperationalStatus) (c : Command Double)
      → Fits loans h c
      → Fits loans (on_operational_status h msg) c
  unfolding on_operational_status
  received-Fits h msg c v = record {
    positions = v.positions;
    velocities = v.velocities;
    connected = v.connected;
  }

  received-free :
      (h : Hwm) (msg : OperationalStatus)
      → ¬ Forbids msg
      → ¬ Forbids (on_operational_status h msg).latest_operational_status
  unfolding on_operational_status
  received-free h msg free = free

  -- A state that a run of four steps leads to, the last of which is a command that succeeded.
  pub record Moves (s : System loans) (msg : OperationalStatus) (c : Command Double) : Type 0 where
    pub after : System loans
    pub run : Run loans s (internal ∷ stored msg ∷ internal ∷ commanded false ∷ []) after
    pub succeeded :
        apply_command loans (on_operational_status s.hwm msg) true (value c) s.interfaces
        ≡ done (ok_status, after.interfaces)

  -- From every state in which the lock of the status is free, the module can write and the hardware
  -- refuses no value, whatever the status was: when a status that does not forbid motion is stored, the
  -- next command with a position and a velocity for each joint succeeds.
  pub released-Moves :
      {n : ℕ} (s : System loans) (msg : OperationalStatus) (c : Command Double)
      → IsSound loans n s
      → s.held ≡ false
      → s.interfaces ≢ []
      → Accepts loans
      → ¬ Forbids msg
      → Fits loans s.hwm c
      → Moves s msg c
  released-Moves s msg c sound idle some_lent law free fits =
      let h = on_operational_status s.hwm msg in
      let (is, went) =
        command_succeeds loans h true c s.interfaces law
          (status_IsArmed loans s.hwm msg s.interfaces sound.armed) (received-free s.hwm msg free)
          (received-Fits s.hwm msg c fits) some_lent in
      record {
        after = record s { hwm = h; held = false; interfaces = is };
        run =
            next (lock idle)
              (next (store msg refl) (next (unlock refl) (next (apply (value c) went) here)));
        succeeded = went;
      }
