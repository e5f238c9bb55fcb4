-- ===== src/Hwm/Apply/Writes.antt =====
-- What `ApplyCommand` has written when it succeeds, and when an interface refuses a value.
use icon_hwm_controller.Prelude.{
  ℕ, suc, ◌+◌, ◌*◌, ◌≤◌, ◌<◌, ◌≡◌, ap, ◌∙◌, ◌≢◌, ◌⊎◌, inl, inr, Bool, true, false, List, [], ◌∷◌,
  some, arith, Bool-cases, length, get_elem?, lt_of_get_elem?,
}
use icon_hwm_controller.Status.{Status, is_ok, done, value}
use icon_hwm_controller.Hwm.Params.{Hwm}
use icon_hwm_controller.Hwm.Interfaces.{Loans}
use icon_hwm_controller.Hwm.Strides.{size_limit, slot, slot-eq, slot_below}
use icon_hwm_controller.Hwm.Apply.{Command, write_error, write_loop, apply_command}
use icon_hwm_controller.Hwm.Apply.Loop.{Wrote, round, write_at_keeps, velocity_keeps}
use icon_hwm_controller.Hwm.Apply.Targets.{loop_writes}
use icon_hwm_controller.Hwm.Apply.Bounds.{IsArmed, IsArmed-countable}

module _ (loans : Loans) where
  open loans use {Double, CommandInterface}

  -- The loop that a success has run.
  apply_command-ok :
      (h : Hwm) (acquired : Bool) (c : Command Double) (is is' : List CommandInterface) (s : Status)
      → apply_command loans h acquired (value c) is ≡ done (s, is')
      → is_ok s ≡ true
      → (length c.position ≡ h.params.num_dofs)
        × (write_loop loans h.params.has_velocity_command h.params.command_stride 0 c.position
              c.velocity_feedforward is
            ≡ done (s, is'))
  unfolding apply_command
  apply_command-ok h acquired c is is' s e o = ground arith

  -- When a connected module with full groups of interfaces accepts a command, the position interface
  -- of each joint has taken that joint's target, and so has its velocity interface where the module
  -- commands velocities.
  pub apply_command_writes :
      (h : Hwm) (acquired : Bool) (c : Command Double) (is is' : List CommandInterface) (s : Status)
      → IsArmed loans h is
      → apply_command loans h acquired (value c) is ≡ done (s, is')
      → is_ok s ≡ true
      → (i : ℕ) (p : Double) → get_elem? c.position i ≡ some p
      → Wrote loans h.params.has_velocity_command h.params.command_stride c.velocity_feedforward is
          is'
          (i * h.params.command_stride)
          p
        × ((h.params.has_velocity_command ≡ false)
            ⊎ ((v : Double) × (get_elem? c.velocity_feedforward i ≡ some v)
                × Wrote loans h.params.has_velocity_command h.params.command_stride
                    c.velocity_feedforward is is'
                    (1 + i * h.params.command_stride)
                    v))
  apply_command_writes h acquired c is is' s v e o i p found =
      let (size, run) = apply_command-ok h acquired c is is' s e o in
      let countable = IsArmed-countable loans h is v in
      let inside = lt_of_get_elem? c.position i found in
      let at = λ (offset : ℕ) (b : offset < h.params.command_stride).
        slot-eq h.params.num_dofs h.params.command_stride countable offset i (omega arith) b in
      let first : slot 0 i h.params.command_stride ≡ i * h.params.command_stride =
        omega (arith, at 0 v.strided) in
      let (position, velocity) =
        loop_writes loans h.params.has_velocity_command h.params.command_stride
          c.velocity_feedforward h.params.num_dofs countable v.strided v.velocity_strided 0
          c.position is is' s (omega arith) run o i i p (omega arith) found in
      elim (Bool-cases h.params.has_velocity_command) [
        | inl has ↦
            let (w, given, wrote) = velocity has in
            (rw (← first) position, inr (w, given, rw (← at 1 (v.velocity_strided has)) wrote))
        | inr hasnt ↦ (rw (← first) position, inl hasnt)
      ]

  module _ (has_velocity : Bool) (stride : ℕ) (vel : List Double) (n : ℕ)
      (countable : n * stride ≤ size_limit) (pos : 0 < stride)
      (wide : has_velocity ≡ true → 1 < stride) where
    -- A refusal names a joint of the loop, and no interface of a later joint has changed.
    abbrev Refused : ℕ → ℕ → List CommandInterface → List CommandInterface → Status → ℕ → Type 0
    Refused i k is is' s m =
        (i ≤ m)
        × (m < i + k)
        × ((s ≡ write_error "position" m) ⊎ (s ≡ write_error "velocity" m))
        × ((x : ℕ) → suc m * stride ≤ x → get_elem? is' x ≡ get_elem? is x)

    loop_refuses :
        (i : ℕ) (ps : List Double) (is is' : List CommandInterface) (s : Status)
        → i + length ps ≤ n
        → write_loop loans has_velocity stride i ps vel is ≡ done (s, is')
        → is_ok s ≡ false
        → (m : ℕ) × Refused i (length ps) is is' s m
    unfolding write_loop
    loop_refuses i [] is is' s room e o = absurd (ground arith)
    loop_refuses i (p ∷ ps) is is' s room e o =
        let (b, is1, w, next) = round loans has_velocity stride vel i p ps is is' s e in
        let (len, kept) =
          write_at_keeps loans has_velocity stride vel is is1 (slot 0 i stride) p b w in
        let below = λ (m o : ℕ) (h : i < m) (b : m ≤ n) (w : o < stride).
          slot_below n stride countable o i m h b w in
        let at = below (suc i) 0 (omega arith) (omega arith) pos in
        let second =
          λ (has : has_velocity ≡ true). below (suc i) 1 (omega arith) (omega arith) (wide has) in
        elim next [
          | inl (refused, same, err) ↦ (
            i,
            (
              omega arith,
              omega arith,
              inl err,
              λ x far.
                  ap (λ (l : List CommandInterface). get_elem? l x) same
                  ∙ kept x (omega (arith, at, far)),
            ),
          )
          | inr (b2, is2, w2, more) ↦
              let (len2, kept2) = velocity_keeps loans has_velocity stride vel i is1 is2 b2 w2 in
              elim more [
                | inl (refused, same, err) ↦ (
                  i,
                  (
                    omega arith,
                    omega arith,
                    inr err,
                    λ x far.
                        ap (λ (l : List CommandInterface). get_elem? l x) same
                        ∙ kept2 x (λ has. omega (arith, second has, far))
                        ∙ kept x (omega (arith, at, far)),
                  ),
                )
                | inr rest ↦
                    let (m, (above, under, err, later)) =
                      loop_refuses (suc i) ps is2 is' s (omega arith) rest o in
                    let grows = below (suc m) 0 (omega arith) (omega arith) pos in
                    (
                      m,
                      (
                        omega arith,
                        omega arith,
                        err,
                        λ x far.
                            later x far
                            ∙ kept2 x (λ has.
                              omega (
                                arith,
                                below (suc m) 1 (omega arith) (omega arith) (wide has),
                                far,
                              ))
                            ∙ kept x (omega (arith, grows, far)),
                      ),
                    )
              ]
        ]

  -- The loop behind a change of the interfaces.
  apply_command_changed :
      (h : Hwm) (acquired : Bool) (c : Command Double) (is is' : List CommandInterface) (s : Status)
      → apply_command loans h acquired (value c) is ≡ done (s, is')
      → is' ≢ is
      → (length c.position ≡ h.params.num_dofs)
        × (write_loop loans h.params.has_velocity_command h.params.command_stride 0 c.position
              c.velocity_feedforward is
            ≡ done (s, is'))
  unfolding apply_command
  apply_command_changed h acquired c is is' s e n = ground arith

  -- When a connected module with full groups of interfaces returns an error after an interface has
  -- changed, the error names a joint, and no interface of a later joint has changed.
  pub apply_command_refused :
      (h : Hwm) (acquired : Bool) (c : Command Double) (is is' : List CommandInterface) (s : Status)
      → IsArmed loans h is
      → apply_command loans h acquired (value c) is ≡ done (s, is')
      → is_ok s ≡ false
      → is' ≢ is
      → (m : ℕ) × (m < h.params.num_dofs)
        × ((s ≡ write_error "position" m) ⊎ (s ≡ write_error "velocity" m))
        × ((x : ℕ) → suc m * h.params.command_stride ≤ x → get_elem? is' x ≡ get_elem? is x)
  apply_command_refused h acquired c is is' s v e o n =
      let (size, run) = apply_command_changed h acquired c is is' s e n in
      let (m, (above, below, err, later)) =
        loop_refuses h.params.has_velocity_command h.params.command_stride c.velocity_feedforward
          h.params.num_dofs (IsArmed-countable loans h is v) v.strided v.velocity_strided 0
          c.position is is' s (omega arith) run o in
      (m, omega arith, err, later)
