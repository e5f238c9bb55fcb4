-- ===== src/Hwm/Read/Answers.antt =====
-- `ReadStatus` goes through when every interface has a reading.
use icon_hwm_controller.Prelude.{
  ℕ, ◌≡◌, ◌≢◌, refl, inl, inr, List, [], ◌∷◌, Option, none, some, arith, Bool-cases,
}
use icon_hwm_controller.Status.{ok_status, done}
use icon_hwm_controller.Hwm.Params.{Hwm}
use icon_hwm_controller.Hwm.Interfaces.{Loans, Joints}
use icon_hwm_controller.Hwm.Read.{read_loop, read_status}
use icon_hwm_controller.Hwm.Read.Loop.{loop_refused}
use icon_hwm_controller.Hwm.Read.Copies.{
  IsReady, read_status-defined, position_loop-defined, velocity_loop-defined,
}

module _ (loans : Loans) where
  open loans use {Double, StateInterface, get_optional}

  -- Every state interface has a reading.
  abbrev pub Answering : Type 0
  Answering = (s : StateInterface) → (v : Double) × (get_optional s ≡ some v)

  loop_answered :
      (law : Answering) (is : List StateInterface) (stride offset k i : ℕ)
      (buffer buffer' : List Double) (r : Option ℕ)
      → read_loop loans k i is stride offset buffer ≡ done (r, buffer')
      → r ≡ none
  loop_answered law is stride offset k i buffer buffer' none e = refl
  loop_answered law is stride offset k i buffer buffer' (some m) e =
      let (_, _, s, _, missing) = loop_refused loans is stride offset k i m buffer buffer' e in
      let (v, reading) = law s in absurd (ground (arith, missing, reading))

  -- When the module is connected, with full groups of state interfaces that all have a reading and with
  -- buffers of an element for each joint, the call succeeds.
  pub read_succeeds :
      (h : Hwm) (is : List StateInterface) (now : ℕ) (j : Joints Double)
      → Answering
      → IsReady loans h is j
      → is ≢ []
      → (j' : Joints Double) × (read_status loans h is now j ≡ done (ok_status, j'))
  unfolding read_status
  read_succeeds h [] now j law v some_lent = absurd (some_lent refl)
  read_succeeds h (x ∷ xs) now j law v some_lent =
      let (r, ps, e) = position_loop-defined loans h (x ∷ xs) j v in
      let all = loop_answered law (x ∷ xs) h.params.state_stride 0 h.params.num_dofs 0 _ ps r e in
      let (s, j', run, _) = read_status-defined loans h (x ∷ xs) now j v in
      let ok : s ≡ ok_status = elim (Bool-cases h.params.has_velocity_state) [
        | inl has ↦
            let (r', vs, e') = velocity_loop-defined loans h (x ∷ xs) j v has in
            let all' =
              loop_answered law (x ∷ xs) h.params.state_stride 1 h.params.num_dofs 0 _ vs r' e' in
            ground (arith, run, v.connected, has, e, all, e', all')
        | inr hasnt ↦ ground (arith, run, v.connected, hasnt, e, all)
      ] in
      (j', rw (← ok) run)
