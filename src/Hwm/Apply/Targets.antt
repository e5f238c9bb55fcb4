-- ===== src/Hwm/Apply/Targets.antt =====
-- What a loop of `ApplyCommand` that succeeds has done for each joint.
use mathlib.Core.Path.{subst₂}
use icon_hwm_controller.Hwm.Strides.{size_limit, slot, slot-eq, slots_apart}
use icon_hwm_controller.Prelude.{
  ℕ, zero, suc, ◌+◌, ◌*◌, ◌<◌, ◌≡◌, sym, ◌∙◌, Bool, true, List, [], ◌∷◌, some, arith, length,
  get_elem?, lt_of_get_elem?, ◌≤◌, ◌≢◌,
}
use icon_hwm_controller.Status.{Status, is_ok, Checked, done}
use icon_hwm_controller.Hwm.Interfaces.{Loans}
use icon_hwm_controller.Hwm.Apply.{write_at, write_velocity, write_loop}
use icon_hwm_controller.Hwm.Apply.Loop.{
  Wrote, write_at_keeps, velocity_keeps, loop_keeps, write_at-Wrote, velocity_round, round_ok,
  Unused,
}

module _ (loans : Loans) (has_velocity : Bool) (stride : ℕ) (vel : List loans.Double) where
  open loans use {Double, CommandInterface, set_value}

  abbrev Interfaces : Type 0
  Interfaces = List CommandInterface

  abbrev loop : ℕ → List Double → Interfaces → Checked (Status × Interfaces)
  loop i ps is = write_loop loans has_velocity stride i ps vel is

  -- The same write, seen from earlier on, and from later on.
  Wrote-earlier :
      (before first after : Interfaces) (index : ℕ) (v : Double)
      → get_elem? first index ≡ get_elem? before index
      → Wrote loans has_velocity stride vel first after index v
      → Wrote loans has_velocity stride vel before after index v
  Wrote-earlier before first after index v same w = record {
    interface = w.interface;
    found = sym same ∙ w.found;
    accepted = w.accepted;
    written = w.written;
  }

  Wrote-later :
      (before last after : Interfaces) (index : ℕ) (v : Double)
      → get_elem? after index ≡ get_elem? last index
      → Wrote loans has_velocity stride vel before last index v
      → Wrote loans has_velocity stride vel before after index v
  Wrote-later before last after index v same w = record {
    interface = w.interface;
    found = w.found;
    accepted = w.accepted;
    written = same ∙ w.written;
  }

  -- What a success has done for joint `j`, whose target is `p`.
  abbrev Commanded : Interfaces → Interfaces → ℕ → Double → Type 0
  Commanded is is' j p =
      Wrote loans has_velocity stride vel is is' (slot 0 j stride) p
      × (has_velocity ≡ true
          → (v : Double) × (get_elem? vel j ≡ some v)
            × Wrote loans has_velocity stride vel is is' (slot 1 j stride) v)

  module _ (n : ℕ) (countable : n * stride ≤ size_limit) (pos : 0 < stride)
      (wide : has_velocity ≡ true → 1 < stride) where
    -- Neither index of joint `i` is used by the joints after it.
    position-Unused :
        (i k : ℕ) → suc i + k ≤ n → Unused loans has_velocity stride vel (suc i) k (slot 0 i stride)
    position-Unused i k room j a b =
        let before = λ (o : ℕ) (w : o < stride).
          slots_apart n stride countable 0 o i j (omega arith) (omega arith) pos w in
        (omega (arith, before 0 pos), λ has. omega (arith, before 1 (wide has)))

    velocity-Unused :
        (i k : ℕ)
        → suc i + k ≤ n
        → has_velocity ≡ true
        → Unused loans has_velocity stride vel (suc i) k (slot 1 i stride)
    velocity-Unused i k room has j a b =
        let before = λ (o : ℕ) (w : o < stride).
          slots_apart n stride countable 1 o i j (omega arith) (omega arith) (wide has) w in
        (omega (arith, before 0 pos), λ _. omega (arith, before 1 (wide has)))

    -- The two indices of one joint.
    slots-ne : (i : ℕ) → i < n → has_velocity ≡ true → slot 0 i stride ≢ slot 1 i stride
    slots-ne i h has e = omega (
      arith,
      e,
      slot-eq n stride countable 0 i h pos,
      slot-eq n stride countable 1 i h (wide has),
    )

    head_Commanded :
        (i : ℕ) (p : Double) (ps : List Double) (is is' : Interfaces) (s : Status)
        → suc i + length ps ≤ n
        → loop i (p ∷ ps) is ≡ done (s, is')
        → is_ok s ≡ true
        → Commanded is is' i p
    head_Commanded i p ps is is' s room e o =
        let (is1, w1, is2, w2, rest) = round_ok loans has_velocity stride vel i p ps is is' s e o in
        let (len1, kept1) =
          write_at_keeps loans has_velocity stride vel is is1 (slot 0 i stride) p true w1 in
        let (len2, kept2) = velocity_keeps loans has_velocity stride vel i is1 is2 true w2 in
        let (len3, kept3) = loop_keeps loans has_velocity stride vel (suc i) ps is2 is' s rest in
        (
          Wrote-later is is1 is' (slot 0 i stride) p
              (kept3 (slot 0 i stride) (position-Unused i (length ps) room)
                ∙ kept2 (slot 0 i stride) (slots-ne i (omega arith)))
              (write_at-Wrote loans has_velocity stride vel is is1 (slot 0 i stride) p w1),
          λ has.
              let (v, found, w) =
                velocity_round loans has_velocity stride vel i is1 is2 true has w2 in
              (
                v,
                found,
                Wrote-earlier is is1 is' (slot 1 i stride) v
                    (kept1 (slot 1 i stride) (λ q. slots-ne i (omega arith) has (sym q)))
                    (Wrote-later is1 is2 is' (slot 1 i stride) v
                      (kept3 (slot 1 i stride) (velocity-Unused i (length ps) room has))
                      (write_at-Wrote loans has_velocity stride vel is1 is2 (slot 1 i stride) v w)),
              ),
        )

    -- The indices of a later joint are untouched by the round of joint `i`.
    round_keeps :
        (i j o : ℕ) (q : Double) (is is1 is2 : Interfaces)
        → i < j
        → j < n
        → o < stride
        → write_at loans is (slot 0 i stride) q ≡ done (true, is1)
        → write_velocity loans has_velocity stride i vel is1 ≡ done (true, is2)
        → get_elem? is2 (slot o j stride) ≡ get_elem? is (slot o j stride)
    round_keeps i j o q is is1 is2 h b w w1 w2 =
        let (len1, kept1) =
          write_at_keeps loans has_velocity stride vel is is1 (slot 0 i stride) q true w1 in
        let (len2, kept2) = velocity_keeps loans has_velocity stride vel i is1 is2 true w2 in
        kept2 (slot o j stride)
          (λ has. omega (arith, slots_apart n stride countable 1 o i j h b (wide has) w))
        ∙ kept1 (slot o j stride) (omega (arith, slots_apart n stride countable 0 o i j h b pos w))

    -- A success has commanded each joint: element `t` of the positions left goes to joint `i + t`.
    pub loop_writes :
        (i : ℕ) (ps : List Double) (is is' : Interfaces) (s : Status)
        → i + length ps ≤ n
        → loop i ps is ≡ done (s, is')
        → is_ok s ≡ true
        → (t j : ℕ) (p : Double) → j ≡ i + t
        → get_elem? ps t ≡ some p
        → Commanded is is' j p
    unfolding get_elem?
    loop_writes i [] is is' s room e o t j p at found = absurd (ground arith)
    loop_writes i (q ∷ ps) is is' s room e o zero j p at found =
        let same : i ≡ j = omega arith in
        let eq : q ≡ p = cc in
        subst₂ (λ n r. Commanded is is' n r) same eq
          (head_Commanded i q ps is is' s (omega arith) e o)
    loop_writes i (q ∷ ps) is is' s room e o (suc t) j p at found =
        let (is1, w1, is2, w2, rest) = round_ok loans has_velocity stride vel i q ps is is' s e o in
        let inside = lt_of_get_elem? ps t found in
        let (wrote, more) =
          loop_writes (suc i) ps is2 is' s (omega arith) rest o t j p (omega arith) found in
        (
          Wrote-earlier is is2 is' (slot 0 j stride) p
              (round_keeps i j 0 q is is1 is2 (omega arith) (omega arith) pos w1 w2) wrote,
          λ has.
              let (v, at_j, w) = more has in
              (
                v,
                at_j,
                Wrote-earlier is is2 is' (slot 1 j stride) v
                    (round_keeps i j 1 q is is1 is2 (omega arith) (omega arith) (wide has) w1 w2) w,
              ),
        )
