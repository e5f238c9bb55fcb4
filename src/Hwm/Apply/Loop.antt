-- ===== src/Hwm/Apply/Loop.antt =====
-- The loop of `ApplyCommand`: one round taken apart, what it writes, and what it leaves alone.
use icon_hwm_controller.Prelude.{
  ℕ, suc, ◌+◌, ◌≤◌, ◌<◌, ◌≡◌, sym, ap, ◌∙◌, ◌⊎◌, inl, inr, ◌≢◌, Bool, true, false, List, [], ◌∷◌,
  some, arith, length, get_elem?, set, length-set, lt_of_get_elem?, get_elem?-set_self,
  get_elem?-set_ne, Bool-cases,
}
use icon_hwm_controller.Status.{Status, is_ok, Checked, done}
use icon_hwm_controller.Hwm.Strides.{slot}
use icon_hwm_controller.Hwm.Interfaces.{Loans}
use icon_hwm_controller.Hwm.Apply.{write_at, write_velocity, write_loop, write_error}

module _ (loans : Loans) (has_velocity : Bool) (stride : ℕ) (vel : List loans.Double) where
  open loans use {Double, CommandInterface, set_value}

  abbrev pub Interfaces : Type 0
  Interfaces = List CommandInterface

  abbrev pub loop : ℕ → List Double → Interfaces → Checked (Status × Interfaces)
  loop i ps is = write_loop loans has_velocity stride i ps vel is

  -- The write of `v` at `index` was accepted: `after` holds there what the call made of the interface.
  pub record Wrote (before after : Interfaces) (index : ℕ) (v : Double) : Type 0 where
    pub interface : CommandInterface
    pub found : get_elem? before index ≡ some interface
    pub accepted : (set_value interface v).1 ≡ true
    pub written : get_elem? after index ≡ some (set_value interface v).0

  pub write_at_done :
      (is is' : Interfaces) (index : ℕ) (v : Double) (b : Bool)
      → write_at loans is index v ≡ done (b, is')
      → (c : CommandInterface) × (get_elem? is index ≡ some c)
        × (b ≡ (set_value c v).1)
        × (is' ≡ set is index (set_value c v).0)
  unfolding write_at
  write_at_done is is' index v b e = ground arith

  pub write_at-Wrote :
      (is is' : Interfaces) (index : ℕ) (v : Double)
      → write_at loans is index v ≡ done (true, is')
      → Wrote is is' index v
  write_at-Wrote is is' index v e =
      let (c, found, accepted, written) = write_at_done is is' index v true e in
      record {
        interface = c;
        found = found;
        accepted = sym accepted;
        written =
            ap (λ (l : Interfaces). get_elem? l index) written
            ∙ get_elem?-set_self is index (set_value c v).0 (lt_of_get_elem? is index found);
      }

  -- A write keeps the number of interfaces and every one but its own.
  abbrev pub Keeps : Interfaces → Interfaces → (ℕ → Type 0) → Type 0
  Keeps before after Free =
      (length after ≡ length before) × ((m : ℕ) → Free m → get_elem? after m ≡ get_elem? before m)

  pub write_at_keeps :
      (is is' : Interfaces) (index : ℕ) (v : Double) (b : Bool)
      → write_at loans is index v ≡ done (b, is')
      → Keeps is is' (λ m. m ≢ index)
  write_at_keeps is is' index v b e =
      let (c, found, accepted, written) = write_at_done is is' index v b e in
      (
        ap length written ∙ length-set is index (set_value c v).0,
        λ m ne.
            ap (λ (l : Interfaces). get_elem? l m) written
            ∙ get_elem?-set_ne is index m (set_value c v).0 (λ q. ne (sym q)),
      )

  -- A successful loop went on after an accepted position, and an accepted velocity if there is one.
  pub round_ok :
      (i : ℕ) (p : Double) (ps : List Double) (is is' : Interfaces) (s : Status)
      → loop i (p ∷ ps) is ≡ done (s, is')
      → is_ok s ≡ true
      → (is1 : Interfaces) × (write_at loans is (slot 0 i stride) p ≡ done (true, is1))
        × (is2 : Interfaces) × (write_velocity loans has_velocity stride i vel is1
            ≡ done (true, is2))
        × (loop (suc i) ps is2 ≡ done (s, is'))
  unfolding write_loop
  round_ok i p ps is is' s e o = ground arith

  pub velocity_round :
      (i : ℕ) (is is' : Interfaces) (b : Bool)
      → has_velocity ≡ true
      → write_velocity loans has_velocity stride i vel is ≡ done (b, is')
      → (v : Double) × (get_elem? vel i ≡ some v)
        × (write_at loans is (slot 1 i stride) v ≡ done (b, is'))
  unfolding write_velocity
  velocity_round i is is' b h e = ground arith

  pub velocity_round_unused :
      (i : ℕ) (is is' : Interfaces) (b : Bool)
      → has_velocity ≡ false
      → write_velocity loans has_velocity stride i vel is ≡ done (b, is')
      → (b ≡ true) × (is' ≡ is)
  unfolding write_velocity
  velocity_round_unused i is is' b h e = ground arith

  pub velocity_keeps :
      (i : ℕ) (is is' : Interfaces) (b : Bool)
      → write_velocity loans has_velocity stride i vel is ≡ done (b, is')
      → Keeps is is' (λ m. has_velocity ≡ true → m ≢ slot 1 i stride)
  velocity_keeps i is is' b e = elim (Bool-cases has_velocity) [
    | inl has ↦
        let (v, found, w) = velocity_round i is is' b has e in
        let (len, kept) = write_at_keeps is is' (slot 1 i stride) v b w in
        (len, λ m free. kept m (free has))
    | inr hasnt ↦
        let (accepted, same) = velocity_round_unused i is is' b hasnt e in
        (ap length same, λ m free. ap (λ (l : Interfaces). get_elem? l m) same)
  ]

  -- The indices that the joints from `i` to `i + k` do not use.
  abbrev pub Unused : ℕ → ℕ → ℕ → Type 0
  Unused i k m =
      (j : ℕ)
      → i ≤ j
      → j < i + k
      → (m ≢ slot 0 j stride) × (has_velocity ≡ true → m ≢ slot 1 j stride)

  -- One round, whatever its outcome.
  pub round :
      (i : ℕ) (p : Double) (ps : List Double) (is is' : Interfaces) (s : Status)
      → loop i (p ∷ ps) is ≡ done (s, is')
      → (b : Bool) × (is1 : Interfaces) × (write_at loans is (slot 0 i stride) p ≡ done (b, is1))
        × (((b ≡ false) × (is' ≡ is1) × (s ≡ write_error "position" i))
            ⊎ ((b2 : Bool) × (is2 : Interfaces) × (write_velocity loans has_velocity stride i vel
                    is1
                  ≡ done (b2, is2))
                × (((b2 ≡ false) × (is' ≡ is2) × (s ≡ write_error "velocity" i))
                    ⊎ (loop (suc i) ps is2 ≡ done (s, is')))))
  unfolding write_loop
  round i p ps is is' s e = ground arith

  -- Whatever its outcome the loop keeps the interfaces that its joints do not use.
  pub loop_keeps :
      (i : ℕ) (ps : List Double) (is is' : Interfaces) (s : Status)
      → loop i ps is ≡ done (s, is')
      → Keeps is is' (Unused i (length ps))
  unfolding write_loop
  loop_keeps i [] is is' s e = (ground arith, λ m free. ground arith)
  loop_keeps i (p ∷ ps) is is' s e =
      let (b, is1, w, next) = round i p ps is is' s e in
      let (len, kept) = write_at_keeps is is1 (slot 0 i stride) p b w in
      elim next [
        | inl (refused, same, at) ↦ (
          ap length same ∙ len,
          λ m free.
              ap (λ (l : Interfaces). get_elem? l m) same
              ∙ kept m (free i (omega arith) (omega arith)).0,
        )
        | inr (b2, is2, w2, more) ↦
            let (len2, kept2) = velocity_keeps i is1 is2 b2 w2 in
            elim more [
              | inl (refused, same, at) ↦ (
                ap length same ∙ len2 ∙ len,
                λ m free.
                    ap (λ (l : Interfaces). get_elem? l m) same
                    ∙ kept2 m (free i (omega arith) (omega arith)).1
                    ∙ kept m (free i (omega arith) (omega arith)).0,
              )
              | inr rest ↦
                  let (len3, kept3) = loop_keeps (suc i) ps is2 is' s rest in
                  (
                    len3 ∙ len2 ∙ len,
                    λ m free.
                        kept3 m (λ j a b. free j (omega arith) (omega arith))
                        ∙ kept2 m (free i (omega arith) (omega arith)).1
                        ∙ kept m (free i (omega arith) (omega arith)).0,
                  )
            ]
      ]
