-- ===== src/Hwm/Interfaces.antt =====
-- The interfaces of one realtime cycle: those that ros2_control lends, and the ICON buffers that
-- `Ros2HwmImpl::Init` advertises.
use icon_hwm_controller.Prelude.{
  ℕ, String, Bool, true, false, List, [], Option, none, some, ltb, if◌then◌else◌, length, set,
}
use icon_hwm_controller.Status.{Status, ok_status, Checked, undefined, done, Expected, value, error}
use icon_hwm_controller.Hwm.Params.{Hwm, Pointer, null, to_controller}

-- ros2_control's loaned interfaces, which the program only calls. A read or a write may be refused;
-- `set_value` returns the interface after the call and whether the write was accepted.
pub record Loans : Type 1 where
  pub Double : Type 0
  pub StateInterface : Type 0
  pub get_optional : StateInterface → Option Double
  pub CommandInterface : Type 0
  pub set_value : CommandInterface → Double → CommandInterface × Bool

-- What a pointer of `Params` points to: `none` is the null pointer.
abbrev pub deref : {A : Type 0} → Pointer → List A → Option (List A)
deref null xs = none
deref to_controller xs = some xs

-- The ICON buffers: a vector with a timestamp, which `UpdatedAt` sets.
pub record Buffer (D : Type 0) : Type 0 where
  pub values : List D
  pub updated_at : Option ℕ

pub record Joints (D : Type 0) : Type 0 where
  pub position : Buffer D
  pub velocity : Buffer D
  pub command_advertised : Bool

-- A vector of the flatbuffer does not grow: a write past its end is undefined.
unfoldable pub mutate : {D : Type 0} → List D → ℕ → D → Checked (List D)
mutate xs i v = if ltb i (length xs) then done (set xs i v) else undefined

abbrev pub no_joints : {D : Type 0} → Joints D
no_joints = record {
  position = record { values = []; updated_at = none };
  velocity = record { values = []; updated_at = none };
  command_advertised = false;
}

-- The registry of the runtime: it builds a buffer for so many joints, or reports an error.
pub record Registry (D : Type 0) : Type 0 where
  pub advertise_mutable : String → ℕ → Expected (List D)
  pub advertise : String → ℕ → Expected (Unit {0})

abbrev pub fresh_buffer : {D : Type 0} → List D → Buffer D
fresh_buffer xs = record { values = xs; updated_at = none }

-- `Init`. The handles that were assigned before an error stay assigned.
unfoldable pub init : {D : Type 0} → Registry D → Hwm → Joints D → Status × Joints D
init r h j = elim (r.advertise_mutable "joint_position_state" h.params.num_dofs) [
  | error s ↦ (s, j)
  | value ps ↦
      let j1 = record j { position = fresh_buffer ps } in
      elim (r.advertise_mutable "joint_velocity_state" h.params.num_dofs) [
        | error s ↦ (s, j1)
        | value vs ↦
            let j2 = record j1 { velocity = fresh_buffer vs } in
            elim (r.advertise "joint_position_command" h.params.num_dofs) [
              | error s ↦ (s, j2)
              | value u ↦ (ok_status, record j2 { command_advertised = true })
            ]
      ]
]
