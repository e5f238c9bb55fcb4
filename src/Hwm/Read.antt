-- ===== src/Hwm/Read.antt =====
-- `Ros2HwmImpl::ReadStatus`: copies the loaned state interfaces into the ICON buffers.
pub mod Loop
pub mod Answers
pub mod Copies
use icon_hwm_controller.Prelude.{
  ℕ, zero, suc, ◌+◌, ◌*◌, String, List, [], ◌∷◌, Option, none, some, if◌then◌else◌, get_elem?,
  concat, decimal,
}
use icon_hwm_controller.Status.{
  Status, ok_status, status, unavailable, internal, Checked, undefined, done,
}
use icon_hwm_controller.Hwm.Params.{Hwm}
use icon_hwm_controller.Hwm.Strides.{slot}
use icon_hwm_controller.Hwm.Interfaces.{Loans, deref, Buffer, Joints, mutate}

module _ (loans : Loans) where
  open loans use {Double, StateInterface, get_optional}

  -- The two loops of `ReadStatus`, from joint `i` on with `k` joints left: joint `i` is read at the
  -- index `offset + i * stride` in the arithmetic of `size_t`. The result names the first joint whose
  -- reading was refused.
  unfoldable pub read_loop :
      ℕ → ℕ → List StateInterface → ℕ → ℕ → List Double → Checked (Option ℕ × List Double)
  read_loop zero i interfaces stride offset buffer = done (none, buffer)
  read_loop (suc k) i interfaces stride offset buffer =
      elim (get_elem? interfaces (slot offset i stride)) [
        | none ↦ undefined
        | some s ↦ elim (get_optional s) [
          | none ↦ done (some i, buffer)
          | some v ↦ elim (mutate buffer i v) [
            | undefined ↦ undefined
            | done b ↦ read_loop k (suc i) interfaces stride offset b
          ]
        ]
      ]

  abbrev pub read_error : String → ℕ → Status
  read_error what i =
      status internal (concat ("Failed to read " ∷ what ∷ " for joint " ∷ decimal i ∷ []))

  abbrev stored : {D : Type 0} → Buffer D → List D → Buffer D
  stored b xs = record b { values = xs }

  abbrev stamped : {D : Type 0} → Buffer D → ℕ → Buffer D
  stamped b now = record b { updated_at = some now }

  -- `UpdatedAt(now)` on both handles.
  finish : ℕ → Joints Double → Status × Joints Double
  finish now j =
      (ok_status, record j { position = stamped j.position now; velocity = stamped j.velocity now })

  -- The velocities, after the positions went well, and the timestamps of both buffers.
  read_velocities : Hwm → List StateInterface → ℕ → Joints Double → Checked (Status × Joints Double)
  unfolding finish
  read_velocities h interfaces now j =
      if h.params.has_velocity_state
      then (elim (read_loop h.params.num_dofs 0 interfaces h.params.state_stride 1
          j.velocity.values) [
            | undefined ↦ undefined
            | done (some i, vs) ↦
                done (read_error "velocity" i, record j { velocity = stored j.velocity vs })
            | done (none, vs) ↦ done (finish now (record j { velocity = stored j.velocity vs }))
          ])
      else done (finish now j)

  read_positions : Hwm → List StateInterface → ℕ → Joints Double → Checked (Status × Joints Double)
  unfolding read_velocities
  read_positions h interfaces now j =
      elim (read_loop h.params.num_dofs 0 interfaces h.params.state_stride 0 j.position.values) [
        | undefined ↦ undefined
        | done (some i, ps) ↦
            done (read_error "position" i, record j { position = stored j.position ps })
        | done (none, ps) ↦
            read_velocities h interfaces now (record j { position = stored j.position ps })
      ]

  abbrev no_state_interfaces : Status
  no_state_interfaces = status unavailable "State interfaces not available"

  -- The guard of `ReadStatus`, on what the pointer leads to.
  read_guarded :
      Hwm → Option (List StateInterface) → ℕ → Joints Double → Checked (Status × Joints Double)
  unfolding read_positions
  read_guarded h none now j = done (no_state_interfaces, j)
  read_guarded h (some []) now j = done (no_state_interfaces, j)
  read_guarded h (some (s ∷ ss)) now j = read_positions h (s ∷ ss) now j

  unfoldable pub read_status :
      Hwm → List StateInterface → ℕ → Joints Double → Checked (Status × Joints Double)
  unfolding read_guarded
  read_status h interfaces now j = read_guarded h (deref h.params.state_interfaces interfaces) now j
