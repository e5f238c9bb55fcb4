-- ===== src/Hwm/Read/Loop.antt =====
-- What one loop of `ReadStatus` does: one round taken apart, its bounds, and the buffer it leaves.
use mathlib.Core.Path.{subst}
use icon_hwm_controller.Prelude.{
  ℕ, zero, suc, ◌+◌, ◌*◌, ◌≤◌, ◌<◌, ◌≡◌, refl, sym, ◌∙◌, ◌⊎◌, inl, inr, List, Option, none, some,
  arith, length, get_elem?, set, length-set, get_elem?-total, get_elem?-set_self, get_elem?-set_ne,
  Option-cases, ℕ_discrete,
}
use icon_hwm_controller.Status.{Checked, done}
use icon_hwm_controller.Hwm.Interfaces.{Loans, mutate}
use icon_hwm_controller.Hwm.Strides.{slot}
use icon_hwm_controller.Hwm.Read.{read_loop}

module _ (loans : Loans) (interfaces : List loans.StateInterface) (stride offset : ℕ) where
  open loans use {Double, StateInterface, get_optional}

  -- Joint `j` has the reading `v`.
  pub record Reads (j : ℕ) (v : Double) : Type 0 where
    pub interface : StateInterface
    pub found : get_elem? interfaces (offset + j * stride) ≡ some interface
    pub reading : get_optional interface ≡ some v

  abbrev loop : ℕ → ℕ → List Double → Checked (Option ℕ × List Double)
  loop k i buffer = read_loop loans k i interfaces stride offset buffer

  round :
      (k i : ℕ) (buffer buffer' : List Double) (r : Option ℕ)
      → loop (suc k) i buffer ≡ done (r, buffer')
      → (s : StateInterface) × (get_elem? interfaces (slot offset i stride) ≡ some s)
        × (((get_optional s ≡ none) × (r ≡ some i) × (buffer' ≡ buffer))
            ⊎ ((v : Double) × (get_optional s ≡ some v)
                × (i < length buffer)
                × (loop k (suc i) (set buffer i v) ≡ done (r, buffer'))))
  unfolding read_loop mutate
  round k i buffer buffer' r e = ground arith

  -- The buffer keeps its length, and its elements below joint `i`.
  pub loop_frame :
      (k i : ℕ) (buffer buffer' : List Double) (r : Option ℕ)
      → loop k i buffer ≡ done (r, buffer')
      → (length buffer' ≡ length buffer)
        × ((j : ℕ) → j < i → get_elem? buffer' j ≡ get_elem? buffer j)
  unfolding read_loop
  loop_frame zero i buffer buffer' r e = (ground arith, λ j h. ground arith)
  loop_frame (suc k) i buffer buffer' r e =
      let (s, found, next) = round k i buffer buffer' r e in
      elim next [
        | inl (refused, at, same) ↦ (ground arith, λ j h. ground arith)
        | inr (v, reading, room, rest) ↦
            let (same, kept) = loop_frame k (suc i) (set buffer i v) buffer' r rest in
            (
              same ∙ length-set buffer i v,
              λ j h. kept j (omega arith) ∙ get_elem?-set_ne buffer i j v (omega arith),
            )
      ]

  -- A loop whose indices do not wrap around and that ends without a refusal has stored every reading at
  -- its joint.
  pub loop-Reads :
      (k i : ℕ) (buffer buffer' : List Double)
      → ((j : ℕ) → j < i + k → slot offset j stride ≡ offset + j * stride)
      → loop k i buffer ≡ done (none, buffer')
      → (j : ℕ) → i ≤ j
      → j < i + k
      → (v : Double) × Reads j v × (get_elem? buffer' j ≡ some v)
  loop-Reads zero i buffer buffer' exact e j above below = absurd (omega arith)
  loop-Reads (suc k) i buffer buffer' exact e j above below =
      let (s, found, next) = round k i buffer buffer' none e in
      elim next [
        | inl (refused, at, same) ↦ absurd (ground arith)
        | inr (v, reading, room, rest) ↦ elim (ℕ_discrete i j) [
          | yes here ↦ (
            v,
            record {
              interface = s;
              found = rw (← here, ← exact i (omega arith)) found;
              reading = reading;
            },
            rw (← here) (
                (loop_frame k (suc i) (set buffer i v) buffer' none rest).1 i (omega arith)
                ∙ get_elem?-set_self buffer i v room),
          )
          | no there ↦
              loop-Reads k (suc i) (set buffer i v) buffer' (λ x b. exact x (omega arith)) rest j
                (omega arith) (omega arith)
        ]
      ]

  -- A loop that is refused names the joint, and stays within its joints.
  pub loop_refused :
      (k i m : ℕ) (buffer buffer' : List Double)
      → loop k i buffer ≡ done (some m, buffer')
      → (i ≤ m)
        × (m < i + k)
        × (s : StateInterface) × (get_elem? interfaces (slot offset m stride) ≡ some s)
        × (get_optional s ≡ none)
  unfolding read_loop
  loop_refused zero i m buffer buffer' e = absurd (ground arith)
  loop_refused (suc k) i m buffer buffer' e =
      let (s, found, next) = round k i buffer buffer' (some m) e in
      elim next [
        | inl (refused, at, same) ↦
            let here : m ≡ i = ground arith in
            (
              omega arith,
              omega arith,
              s,
              subst (λ (n : ℕ). get_elem? interfaces (slot offset n stride) ≡ some s) (sym here)
                  found,
              refused,
            )
        | inr (v, reading, room, rest) ↦
            let (above, below, s', found', refused) =
              loop_refused k (suc i) m (set buffer i v) buffer' rest in
            (omega arith, omega arith, s', found', refused)
      ]

  -- With every index in range and room for every joint the loop is defined.
  pub loop-defined :
      (k i : ℕ) (buffer : List Double)
      → ((j : ℕ) → j < i + k → slot offset j stride < length interfaces)
      → i + k ≤ length buffer
      → (r : Option ℕ) × (buffer' : List Double) × (loop k i buffer ≡ done (r, buffer'))
  unfolding read_loop mutate
  loop-defined zero i buffer inside room = (none, buffer, refl)
  loop-defined (suc k) i buffer inside room =
      let (s, found) = get_elem?-total interfaces (slot offset i stride) (inside i (omega arith)) in
      elim (Option-cases (get_optional s)) [
        | inl refused ↦ (some i, buffer, ground arith)
        | inr (v, reading) ↦
            let (r, buffer', e) =
              loop-defined k (suc i) (set buffer i v) (λ j h. inside j (omega arith))
                (omega (arith, length-set buffer i v)) in
            (r, buffer', ground arith)
      ]
