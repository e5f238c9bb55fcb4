-- ===== src/Session/Bounds.antt =====
-- No session steps out of range.
use mathlib.Core.Path.{subst}
use icon_hwm_controller.Prelude.{
  ℕ, ◌≡◌, ◌≢◌, refl, sym, inl, inr, not, List, [], ◌∷◌, length, arith,
}
use icon_hwm_controller.Status.{Status, Checked, undefined, done, Expected-cases}
use icon_hwm_controller.Hwm.Params.{Hwm}
use icon_hwm_controller.Hwm.Interfaces.{Loans, Registry, Joints, init}
use icon_hwm_controller.Hwm.Services.{Services}
use icon_hwm_controller.Hwm.Read.Copies.{read_status-defined}
use icon_hwm_controller.Hwm.Apply.Bounds.{apply_command-defined}
use icon_hwm_controller.Controller.Params.Ready.{BuildsFull}
use icon_hwm_controller.Cycle.{System as Module, read, apply}
use icon_hwm_controller.Cycle.Bounds.{IsSound, Step-IsSound}
use icon_hwm_controller.Session.{
  State, Call, init_call, prepare_call, activate_call, deactivate_call, enable_motion_call,
  disable_motion_call, clear_faults_call, shutdown_call, read_status_call, apply_command_call,
  checked, keep_joints, keep_interfaces, answer, Event, answered, Step, calls, hears, locks, Run,
  here, next,
}

-- `Init`, run again, keeps the size of the buffers.
init_again :
    {D : Type 0} (r : Registry D) (h : Hwm) (j : Joints D)
    → BuildsFull r
    → length j.position.values ≡ h.params.num_dofs
    → length j.velocity.values ≡ h.params.num_dofs
    → (length (init r h j).1.position.values ≡ h.params.num_dofs)
      × (length (init r h j).1.velocity.values ≡ h.params.num_dofs)
unfolding init
init_again r h j full p v =
    elim (Expected-cases (r.advertise_mutable "joint_position_state" h.params.num_dofs)) [
      | inl (s, refused) ↦ ground (arith, refused, p, v)
      | inr (ps, built) ↦
          let first = full "joint_position_state" h.params.num_dofs ps built in
          elim (Expected-cases (r.advertise_mutable "joint_velocity_state" h.params.num_dofs)) [
            | inl (s, refused) ↦ ground (arith, refused, built, first, v)
            | inr (vs, built') ↦
                let second = full "joint_velocity_state" h.params.num_dofs vs built' in
                ground (arith, built, built', first, second)
          ]
    ]

checked_done :
    {A B : Type 0} (f : A → B) (m : Checked A) (b : B)
    → checked f m ≡ done b
    → (a : A) × (m ≡ done a) × (f a ≡ b)
unfolding checked
checked_done f undefined b e = absurd (ground (arith, e))
checked_done f (done a) b e = (a, refl, ground (arith, e))

module _ (loans : Loans) (services : Services) where
  open loans use {Double, StateInterface}

  -- A registry builds full buffers, and a read is lent `n` state interfaces.
  abbrev pub IsFair : ℕ → Call loans → Type 0
  IsFair n (init_call r) = BuildsFull r
  IsFair n (read_status_call states now) = length states ≡ n
  IsFair n _ = Unit

  abbrev pub FairEvent : ℕ → Event loans services → Type 0
  FairEvent n (answered x held r) = IsFair n x
  FairEvent n _ = Unit

  abbrev pub AllFair : ℕ → List (Event loans services) → Type 0
  AllFair n [] = Unit
  AllFair n (e ∷ es) = FairEvent n e × AllFair n es

  same-IsSound : {n : ℕ} {a b : Module loans} → IsSound loans n a → b ≡ a → IsSound loans n b
  same-IsSound v e = subst (IsSound loans _) (sym e) v

  init-IsSound :
      {n : ℕ} (r : Registry Double) (m : Module loans)
      → BuildsFull r
      → IsSound loans n m
      → IsSound loans n (record m { joints = (init r m.hwm m.joints).1 })
  init-IsSound r m full v = record {
    armed = v.armed;
    ready = λ states len.
        let w = v.ready states len in
        let (positions, velocities) =
          init_again r m.hwm m.joints full w.position_room w.velocity_room in
        record {
          connected = w.connected;
          strided = w.strided;
          velocity_strided = w.velocity_strided;
          loaned = w.loaned;
          counted = w.counted;
          position_room = positions;
          velocity_room = velocities;
        };
  }

  answer-IsSound :
      {n : ℕ} (x : Call loans) (s s' : State loans) (r : Status)
      → answer loans services x s ≡ done (r, s')
      → IsFair n x
      → IsSound loans n s.module_state
      → IsSound loans n s'.module_state
  unfolding answer
  answer-IsSound (init_call reg) s s' r e fair v =
      same-IsSound (init-IsSound reg s.module_state fair v) (ground (arith, e))
  answer-IsSound prepare_call s s' r e fair v = same-IsSound v (ground (arith, e))
  answer-IsSound activate_call s s' r e fair v = same-IsSound v (ground (arith, e))
  answer-IsSound deactivate_call s s' r e fair v = same-IsSound v (ground (arith, e))
  answer-IsSound enable_motion_call s s' r e fair v = same-IsSound v (ground (arith, e))
  answer-IsSound disable_motion_call s s' r e fair v = same-IsSound v (ground (arith, e))
  answer-IsSound clear_faults_call s s' r e fair v = same-IsSound v (ground (arith, e))
  answer-IsSound shutdown_call s s' r e fair v = same-IsSound v (ground (arith, e))
  answer-IsSound (read_status_call states now) s s' r e fair v =
      let ((q, j), ran, same) = checked_done (keep_joints loans services s) _ _ e in
      same-IsSound (Step-IsSound loans (read states now ran) v) (ground (arith, same))
  answer-IsSound (apply_command_call command) s s' r e fair v =
      let ((q, is), ran, same) = checked_done (keep_interfaces loans services s) _ _ e in
      same-IsSound (Step-IsSound loans (apply command ran) v) (ground (arith, same))

  event-IsSound :
      {n : ℕ} {s t : State loans} {e : Event loans services}
      → Step loans services s e t
      → FairEvent n e
      → IsSound loans n s.module_state
      → IsSound loans n t.module_state
  event-IsSound (calls x w e) fair v = answer-IsSound x _ _ _ e fair v
  event-IsSound (hears _ st) fair v = Step-IsSound loans st v
  event-IsSound (locks st) fair v = Step-IsSound loans st v

  pub Run-IsSound :
      {n : ℕ} {s t : State loans} {es : List (Event loans services)}
      → Run loans services s es t
      → AllFair n es
      → IsSound loans n s.module_state
      → IsSound loans n t.module_state
  Run-IsSound here fair v = v
  Run-IsSound (next st r) (fair, rest) v = Run-IsSound r rest (event-IsSound st fair v)

  -- A module that can write, and read `n` state interfaces, answers every call.
  pub answer-ne-undefined :
      {n : ℕ} (x : Call loans) (s : State loans)
      → IsFair n x
      → IsSound loans n s.module_state
      → answer loans services x s ≢ undefined
  unfolding answer checked
  answer-ne-undefined (init_call reg) s fair v e = ground (arith, e)
  answer-ne-undefined prepare_call s fair v e = ground (arith, e)
  answer-ne-undefined activate_call s fair v e = ground (arith, e)
  answer-ne-undefined deactivate_call s fair v e = ground (arith, e)
  answer-ne-undefined enable_motion_call s fair v e = ground (arith, e)
  answer-ne-undefined disable_motion_call s fair v e = ground (arith, e)
  answer-ne-undefined clear_faults_call s fair v e = ground (arith, e)
  answer-ne-undefined shutdown_call s fair v e = ground (arith, e)
  answer-ne-undefined (read_status_call states now) s fair v e =
      let (r, j, ran, _) =
        read_status-defined loans s.module_state.hwm states now s.module_state.joints
          (v.ready states fair) in
      ground (arith, e, ran)
  answer-ne-undefined (apply_command_call command) s fair v e =
      let (r, is, ran, _) =
        apply_command-defined loans s.module_state.hwm (not s.module_state.held) command
          s.module_state.interfaces v.armed in
      ground (arith, e, ran)
