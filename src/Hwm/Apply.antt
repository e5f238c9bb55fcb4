-- ===== src/Hwm/Apply.antt =====
-- `Ros2HwmImpl::ApplyCommand`: copies the ICON command into the loaned command interfaces.
pub mod Loop
pub mod Accepts
pub mod Targets
pub mod Bounds
pub mod Writes
pub mod Guards
use icon_hwm_controller.Prelude.{
  ℕ, suc, ◌+◌, ◌*◌, String, Bool, List, [], ◌∷◌, Option, none, some, ◌==◌, if◌then◌else◌, not,
  length, get_elem?, set, concat, decimal,
}
use icon_hwm_controller.Status.{
  Status, ok_status, is_ok, status, unavailable, internal, failed_precondition, Checked, undefined,
  done, Expected, value, error,
}
use icon_hwm_controller.OperationalStatus.{OperationalStatus, disabled, faulted}
use icon_hwm_controller.Hwm.Params.{Hwm}
use icon_hwm_controller.Hwm.Strides.{slot}
use icon_hwm_controller.Hwm.Interfaces.{Loans, deref}

-- The command message: target positions and velocity feedforwards.
pub record Command (D : Type 0) : Type 0 where
  pub position : List D
  pub velocity_feedforward : List D

-- The function that `ApplyCommand` runs on the latest status.
unfoldable pub check_current_status : OperationalStatus → Status
check_current_status current =
    if current.state == disabled
    then status failed_precondition "Cannot ApplyCommand while disabled"
    else if current.state == faulted
    then status failed_precondition
        (concat ("Cannot ApplyCommand while faulted (" ∷ current.message ∷ ")" ∷ []))
    else ok_status

abbrev pub write_error : String → ℕ → Status
write_error what i =
    status internal (concat ("Failed to set " ∷ what ∷ " command for joint " ∷ decimal i ∷ []))

abbrev pub size_error : String → ℕ → ℕ → Status
size_error what expected got = status internal (
    concat (
      what
      ∷ " command vector size mismatch (expected "
      ∷ decimal expected
      ∷ ", got"
      ∷ decimal got
      ∷ ")"
      ∷ []))

module _ (loans : Loans) where
  open loans use {Double, CommandInterface, set_value}

  -- `interfaces[index].set_value(v)`: whether it was accepted, and the interfaces after it.
  unfoldable pub write_at :
      List CommandInterface → ℕ → Double → Checked (Bool × List CommandInterface)
  write_at interfaces index v = elim (get_elem? interfaces index) [
    | none ↦ undefined
    | some c ↦ done ((set_value c v).1, set interfaces index (set_value c v).0)
  ]

  -- The velocity part of one round of the loop, for joint `i`: a write of element `i` of `vel` at
  -- the index `1 + i * stride` in the arithmetic of `size_t`.
  unfoldable pub write_velocity :
      Bool → ℕ → ℕ → List Double → List CommandInterface → Checked (Bool × List CommandInterface)
  unfolding write_at
  write_velocity has_velocity stride i vel interfaces =
      if has_velocity
      then (elim (get_elem? vel i) [
        | none ↦ undefined
        | some v ↦ write_at interfaces (slot 1 i stride) v
      ])
      else done (Bool.true, interfaces)

  -- The loop, from joint `i` on with the positions that are left.
  unfoldable pub write_loop :
      Bool
      → ℕ
      → ℕ
      → List Double
      → List Double
      → List CommandInterface
      → Checked (Status × List CommandInterface)
  unfolding write_velocity
  write_loop has_velocity stride i [] vel interfaces = done (ok_status, interfaces)
  write_loop has_velocity stride i (p ∷ ps) vel interfaces =
      elim (write_at interfaces (slot 0 i stride) p) [
        | undefined ↦ undefined
        | done (Bool.false, is1) ↦ done (write_error "position" i, is1)
        | done (Bool.true, is1) ↦ elim (write_velocity has_velocity stride i vel is1) [
          | undefined ↦ undefined
          | done (Bool.false, is2) ↦ done (write_error "velocity" i, is2)
          | done (Bool.true, is2) ↦ write_loop has_velocity stride (suc i) ps vel is2
        ]
      ]

  abbrev no_command_interfaces : Status
  no_command_interfaces = status unavailable "Command interfaces not available"

  -- From the guard on the vector of command interfaces on.
  write_guarded :
      Hwm
      → Command Double
      → List CommandInterface
      → Option (List CommandInterface)
      → Checked (Status × List CommandInterface)
  unfolding write_loop
  write_guarded h c all none = done (no_command_interfaces, all)
  write_guarded h c all (some []) = done (no_command_interfaces, all)
  write_guarded h c all (some (x ∷ xs)) =
      write_loop h.params.has_velocity_command h.params.command_stride 0 c.position
        c.velocity_feedforward (x ∷ xs)

  -- From the command on: its sizes are compared before anything is written.
  unfoldable pub write_command :
      Hwm
      → Expected (Command Double)
      → List CommandInterface
      → Checked (Status × List CommandInterface)
  unfolding write_guarded
  write_command h (error s) interfaces = done (s, interfaces)
  write_command h (value c) interfaces =
      if not (length c.position == h.params.num_dofs)
      then done (size_error "Position" h.params.num_dofs (length c.position), interfaces)
      else if not (length c.velocity_feedforward == h.params.num_dofs)
      then done
          (size_error "Velocity" h.params.num_dofs (length c.velocity_feedforward), interfaces)
      else write_guarded h c interfaces (deref h.params.command_interfaces interfaces)

  -- `acquired` says whether `try_get` got the lock of the box that holds the latest status.
  unfoldable pub apply_command :
      Hwm
      → Bool
      → Expected (Command Double)
      → List CommandInterface
      → Checked (Status × List CommandInterface)
  unfolding check_current_status write_command
  apply_command h acquired command interfaces =
      let s = check_current_status h.latest_operational_status in
      if acquired
      then (if is_ok s then write_command h command interfaces else done (s, interfaces))
      else write_command h command interfaces
