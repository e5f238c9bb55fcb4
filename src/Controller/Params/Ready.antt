-- ===== src/Controller/Params/Ready.antt =====
-- After `Init` a hardware module that was created from the settings is ready to be read.
use icon_hwm_controller.Prelude.{
  inl, inr, ℕ, ◌≡◌, ◌≢◌, ◌<◌, ap, String, true, List, [], arith, length, ltb,
}
use icon_hwm_controller.Status.{Expected-cases, value}
use icon_hwm_controller.Hwm.Params.{Hwm, create}
use icon_hwm_controller.Hwm.Interfaces.{Loans, Registry, no_joints, init}
use icon_hwm_controller.Hwm.Strides.{size_limit}
use icon_hwm_controller.Hwm.Read.Copies.{IsReady}
use icon_hwm_controller.Controller.Params.{Settings, hwm_params, state_interface_configuration}
use icon_hwm_controller.Controller.Params.Names.{create_params, length_pos, length-interface_names}

-- The registry builds its buffers with an element for each joint that it was asked for.
abbrev pub BuildsFull : {D : Type 0} → Registry D → Type 0
BuildsFull {D} r =
    (name : String) (n : ℕ) (xs : List D) → r.advertise_mutable name n ≡ value xs → length xs ≡ n

init_room :
    {D : Type 0} (r : Registry D) (h : Hwm)
    → BuildsFull r
    → (init r h no_joints).1.command_advertised ≡ true
    → (length (init r h no_joints).1.position.values ≡ h.params.num_dofs)
      × (length (init r h no_joints).1.velocity.values ≡ h.params.num_dofs)
unfolding init
init_room r h full e =
    elim (Expected-cases (r.advertise_mutable "joint_position_state" h.params.num_dofs)) [
      | inl (s, refused) ↦ absurd (ground arith)
      | inr (ps, built) ↦
          elim (Expected-cases (r.advertise_mutable "joint_velocity_state" h.params.num_dofs)) [
            | inl (s, refused) ↦ absurd (ground arith)
            | inr (vs, built') ↦
                let first = full "joint_position_state" h.params.num_dofs ps built in
                let second = full "joint_velocity_state" h.params.num_dofs vs built' in
                (ground arith, ground arith)
          ]
    ]

-- When a hardware module is created from the settings with at least one type of state interface, has as
-- many loaned state interfaces as the controller claims, which a `size_t` can count, and has advertised
-- all three of its interfaces at a registry that builds full buffers, it is ready: its reads stay in
-- range.
pub configured-IsReady :
    (loans : Loans) (r : Registry loans.Double) (p : Settings) (h : Hwm)
    (interfaces : List loans.StateInterface)
    → BuildsFull r
    → create (hwm_params p) ≡ value h
    → p.reference_and_state_interfaces ≢ []
    → length interfaces ≡ length (state_interface_configuration p)
    → length interfaces < size_limit
    → (init r h no_joints).1.command_advertised ≡ true
    → IsReady loans h interfaces (init r h no_joints).1
unfolding hwm_params state_interface_configuration
configured-IsReady loans r p h interfaces full e n l small advertised =
    let same = create_params (hwm_params p) h e in
    let stride : h.params.state_stride ≡ length p.reference_and_state_interfaces =
      ap (λ q. q.state_stride) same in
    let dofs : h.params.num_dofs ≡ length p.dof_names = ap (λ q. q.num_dofs) same in
    let has : h.params.has_velocity_state ≡ ltb 1 (length p.reference_and_state_interfaces) =
      ap (λ q. q.has_velocity_state) same in
    let size = length-interface_names p.dof_names p.reference_and_state_interfaces in
    let (positions, velocities) = init_room r h full advertised in
    record {
      connected = ap (λ q. q.state_interfaces) same;
      strided = omega (arith, stride, length_pos p.reference_and_state_interfaces n);
      velocity_strided = λ v. ground (arith, stride, has, v);
      loaned = rw (stride, dofs) (omega (arith, l, size));
      counted = small;
      position_room = positions;
      velocity_room = velocities;
    }
