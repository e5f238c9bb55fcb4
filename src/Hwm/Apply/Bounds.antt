-- ===== src/Hwm/Apply/Bounds.antt =====
-- `ApplyCommand` stays in bounds: a module whose interfaces come in full groups has no access out
-- of range, whatever the command and the status, and keeps its interfaces' number.
use icon_hwm_controller.Prelude.{
  ℕ, suc, ◌+◌, ◌*◌, ◌≤◌, ◌<◌, ◌≡◌, ◌≢◌, inl, inr, ◌⊎◌, refl, sym, ◌∙◌, ap, Bool, true, List, [],
  ◌∷◌, arith, length, get_elem?-total, set, Bool-cases,
}
use icon_hwm_controller.Status.{
  Status, Checked, undefined, done, Expected, value, error, Checked-total,
}
use icon_hwm_controller.Hwm.Params.{Hwm, to_controller}
use icon_hwm_controller.Hwm.Interfaces.{Loans}
use icon_hwm_controller.Hwm.Strides.{size_limit, slot, slot_below}
use icon_hwm_controller.Hwm.Apply.{
  Command, write_at, write_velocity, write_loop, write_command, apply_command, check_current_status,
}
use icon_hwm_controller.Hwm.Apply.Loop.{write_at_keeps, velocity_keeps, loop_keeps}

module _ (loans : Loans) where
  open loans use {Double, CommandInterface, set_value}

  write_at-defined :
      (is : List CommandInterface) (index : ℕ) (v : Double)
      → index < length is
      → (b : Bool) × (is' : List CommandInterface) × (write_at loans is index v ≡ done (b, is'))
  unfolding write_at
  write_at-defined is index v h =
      let (c, found) = get_elem?-total is index h in
      ((set_value c v).1, set is index (set_value c v).0, ground arith)

  module _ (has_velocity : Bool) (stride : ℕ) (vel : List Double) where
    write_velocity-defined :
        (i : ℕ) (is : List CommandInterface)
        → (has_velocity ≡ true → i < length vel)
        → (has_velocity ≡ true → slot 1 i stride < length is)
        → (b : Bool) × (is' : List CommandInterface) × (write_velocity loans has_velocity stride i
              vel is
            ≡ done (b, is'))
    unfolding write_velocity
    write_velocity-defined i is room inside = elim (Bool-cases has_velocity) [
      | inl has ↦
          let (v, found) = get_elem?-total vel i (room has) in
          let (b, is', e) = write_at-defined is (slot 1 i stride) v (inside has) in
          (b, is', ground arith)
      | inr hasnt ↦ (true, is, ground arith)
    ]

    write_loop-defined :
        (i : ℕ) (ps : List Double) (is : List CommandInterface)
        → 0 < stride
        → (has_velocity ≡ true → 1 < stride)
        → (has_velocity ≡ true → i + length ps ≤ length vel)
        → (i + length ps) * stride ≤ length is
        → length is ≤ size_limit
        → write_loop loans has_velocity stride i ps vel is ≢ undefined
    unfolding write_loop
    write_loop-defined i [] is pos wide room inside small = λ e. ground arith
    write_loop-defined i (p ∷ ps) is pos wide room inside small =
        let below = λ (o : ℕ) (w : o < stride).
          slot_below (i + suc (length ps)) stride (omega arith) o i (i + suc (length ps))
            (omega arith) (omega arith) w in
        let (b, is1, w) = write_at-defined is (slot 0 i stride) p (omega (arith, below 0 pos)) in
        let (len, _) =
          write_at_keeps loans has_velocity stride vel is is1 (slot 0 i stride) p b w in
        let (b2, is2, w2) =
          write_velocity-defined i is1 (λ has. omega (arith, room has))
            (λ has. omega (arith, len, below 1 (wide has))) in
        let (len2, _) = velocity_keeps loans has_velocity stride vel i is1 is2 b2 w2 in
        let same : (suc i + length ps) * stride ≡ (i + suc (length ps)) * stride =
          ap (λ (n : ℕ). n * stride) (omega arith) in
        let rest =
          write_loop-defined (suc i) ps is2 pos wide (λ has. omega (arith, room has))
            (omega (arith, len, len2, inside, same)) (omega (arith, len, len2, small)) in
        ground arith

  -- The module is connected, and its interfaces come in full groups, in a vector that a `size_t` can
  -- count.
  pub record IsArmed (h : Hwm) (is : List CommandInterface) : Type 0 where
    pub connected : h.params.command_interfaces ≡ to_controller
    pub strided : 0 < h.params.command_stride
    pub velocity_strided : h.params.has_velocity_command ≡ true → 1 < h.params.command_stride
    pub loaned : h.params.num_dofs * h.params.command_stride ≤ length is
    pub counted : length is < size_limit

  pub IsArmed-countable :
      (h : Hwm) (is : List CommandInterface)
      → IsArmed h is
      → h.params.num_dofs * h.params.command_stride ≤ size_limit
  IsArmed-countable h is v = omega (arith, v.loaned, v.counted)

  ready_loop-defined :
      (h : Hwm) (c : Command Double) (is : List CommandInterface)
      → IsArmed h is
      → length c.position ≡ h.params.num_dofs
      → length c.velocity_feedforward ≡ h.params.num_dofs
      → write_loop loans h.params.has_velocity_command h.params.command_stride 0 c.position
          c.velocity_feedforward is
        ≢ undefined
  ready_loop-defined h c is v p w =
      let same : (0 + length c.position) * h.params.command_stride
          ≡ h.params.num_dofs * h.params.command_stride =
        ap (λ (n : ℕ). n * h.params.command_stride) (omega arith) in
      write_loop-defined h.params.has_velocity_command h.params.command_stride
        c.velocity_feedforward 0 c.position is v.strided v.velocity_strided (λ has. omega arith)
        (omega (arith, same, v.loaned)) (omega (arith, v.counted))

  write_command-defined :
      (h : Hwm) (command : Expected (Command Double)) (is : List CommandInterface)
      → IsArmed h is
      → write_command loans h command is ≢ undefined
  unfolding write_command
  write_command-defined h (error s) is v = λ e. ground arith
  write_command-defined h (value c) is v = λ e. ground (arith, ready_loop-defined h c is v)

  abbrev interfaces_or :
      Checked (Status × List CommandInterface) → List CommandInterface → List CommandInterface
  interfaces_or undefined is = is
  interfaces_or (done (s, is')) is = is'

  loop_length :
      (has : Bool) (stride : ℕ) (ps vel : List Double) (is : List CommandInterface)
      (c : Checked (Status × List CommandInterface))
      → write_loop loans has stride 0 ps vel is ≡ c
      → length (interfaces_or c is) ≡ length is
  loop_length has stride ps vel is undefined e = refl
  loop_length has stride ps vel is (done (s, is')) e =
      (loop_keeps loans has stride vel 0 ps is is' s e).0

  write_command-length :
      (h : Hwm) (command : Expected (Command Double)) (is is' : List CommandInterface) (s : Status)
      → write_command loans h command is ≡ done (s, is')
      → length is' ≡ length is
  unfolding write_command
  write_command-length h (error x) is is' s e = ground arith
  write_command-length h (value c) is is' s e = ground (
    arith,
    loop_length h.params.has_velocity_command h.params.command_stride c.position
        c.velocity_feedforward is _ refl,
  )

  -- The gate of `ApplyCommand` either stops it, or lets the rest run.
  pub apply_command_gate :
      (h : Hwm) (acquired : Bool) (command : Expected (Command Double)) (is : List CommandInterface)
      → (apply_command loans h acquired command is
          ≡ done (check_current_status h.latest_operational_status, is))
        ⊎ (apply_command loans h acquired command is ≡ write_command loans h command is)
  unfolding apply_command
  apply_command_gate h acquired command is = ground arith

  -- A call keeps the number of command interfaces.
  pub apply_command-length :
      (h : Hwm) (acquired : Bool) (command : Expected (Command Double))
      (is is' : List CommandInterface) (s : Status)
      → apply_command loans h acquired command is ≡ done (s, is')
      → length is' ≡ length is
  apply_command-length h acquired command is is' s e =
      elim (apply_command_gate h acquired command is) [
        | inl stopped ↦ ground (arith, e, stopped)
        | inr runs ↦ write_command-length h command is is' s (sym runs ∙ e)
      ]

  IsArmed-kept :
      (h : Hwm) (is is' : List CommandInterface)
      → length is' ≡ length is
      → IsArmed h is
      → IsArmed h is'
  IsArmed-kept h is is' same v = record {
    connected = v.connected;
    strided = v.strided;
    velocity_strided = v.velocity_strided;
    loaned = omega (arith, v.loaned, same);
    counted = omega (arith, v.counted, same);
  }

  -- A module that is connected and whose command interfaces come in full groups has no access out of
  -- range, whatever the status, the lock and the command: the call returns, and the module stays
  -- that way.
  pub apply_command-defined :
      (h : Hwm) (acquired : Bool) (command : Expected (Command Double)) (is : List CommandInterface)
      → IsArmed h is
      → (s : Status) × (is' : List CommandInterface) × (apply_command loans h acquired command is
          ≡ done (s, is'))
        × IsArmed h is'
  apply_command-defined h acquired command is v = elim (apply_command_gate h acquired command is) [
    | inl e ↦ (check_current_status h.latest_operational_status, is, e, v)
    | inr e ↦
        let ((s, is'), w) =
          Checked-total (write_command loans h command is) (write_command-defined h command is v) in
        (s, is', e ∙ w, IsArmed-kept h is is' (write_command-length h command is is' s w) v)
  ]
