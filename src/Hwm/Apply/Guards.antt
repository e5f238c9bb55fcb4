-- ===== src/Hwm/Apply/Guards.antt =====
-- When `ApplyCommand` may write at all: the operational status, the lock of its box, and the sizes
-- of the command.
use icon_hwm_controller.Prelude.{
  ◌≡◌, refl, ◌≢◌, ◌⊎◌, inl, inr, Bool, true, false, List, arith, length,
}
use icon_hwm_controller.Status.{Status, StatusCode, done, Expected, value, error}
use icon_hwm_controller.OperationalStatus.{OperationalStatus, disabled, faulted, enabled}
use icon_hwm_controller.Hwm.Params.{Hwm, to_controller, on_operational_status}
use icon_hwm_controller.Hwm.Interfaces.{Loans}
use icon_hwm_controller.Hwm.Apply.{Command, check_current_status, apply_command}

-- The latest status forbids motion.
abbrev pub Forbids : OperationalStatus → Type 0
Forbids s = (s.state ≡ disabled) ⊎ (s.state ≡ faulted)

module _ (loans : Loans) where
  open loans use {Double, CommandInterface}

  -- When the latest status is disabled or faulted and its box can be read, every command is refused
  -- as a failed precondition, with every command interface as it was.
  pub apply_command_blocked :
      (h : Hwm) (command : Expected (Command Double)) (is : List CommandInterface)
      → Forbids h.latest_operational_status
      → (s : Status) × (apply_command loans h true command is ≡ done (s, is))
        × (s.code ≡ StatusCode.failed_precondition)
  unfolding apply_command check_current_status
  apply_command_blocked h command is (inl d) =
      (check_current_status h.latest_operational_status, ground arith, ground arith)
  apply_command_blocked h command is (inr f) =
      (check_current_status h.latest_operational_status, ground arith, ground arith)

  -- While the status box is locked by its writer, a call does what it would do with the box free and
  -- an enabled status in it: the latest status does not stop it.
  pub apply_command_contended :
      (h : Hwm) (msg : OperationalStatus) (command : Expected (Command Double))
      (is : List CommandInterface)
      → msg.state ≡ enabled
      → apply_command loans h false command is
        ≡ apply_command loans (on_operational_status h msg) true command is
  unfolding apply_command on_operational_status
  apply_command_contended h msg command is e = ground arith

  -- The command fits the module.
  pub record Fits (h : Hwm) (c : Command Double) : Type 0 where
    pub positions : length c.position ≡ h.params.num_dofs
    pub velocities : length c.velocity_feedforward ≡ h.params.num_dofs
    pub connected : h.params.command_interfaces ≡ to_controller

  -- When a call changes a command interface, its status box was locked by the writer or its status
  -- does not forbid motion; the command could be read, it has a position and a velocity for each
  -- joint, and the module is connected.
  pub apply_command_guarded :
      (h : Hwm) (acquired : Bool) (command : Expected (Command Double))
      (is is' : List CommandInterface) (s : Status)
      → apply_command loans h acquired command is ≡ done (s, is')
      → is' ≢ is
      → ((acquired ≡ false) ⊎ (¬ Forbids h.latest_operational_status))
        × (c : Command Double) × (command ≡ value c)
        × Fits h c
  unfolding apply_command check_current_status
  apply_command_guarded h acquired (error x) is is' s e n = absurd (ground arith)
  apply_command_guarded h acquired (value c) is is' s e n = (ground arith, c, refl, ground arith)
