-- ===== src/Hwm/Apply/Accepts.antt =====
-- `ApplyCommand` goes through when nothing stands against it.
use icon_hwm_controller.Prelude.{
  ℕ, suc, ◌≡◌, refl, sym, ◌∙◌, ◌≢◌, inl, inr, Bool, true, List, [], ◌∷◌, arith, Bool-cases,
}
use icon_hwm_controller.Status.{Status, ok_status, done, value}
use icon_hwm_controller.OperationalStatus.{disabled, faulted}
use icon_hwm_controller.Hwm.Params.{Hwm}
use icon_hwm_controller.Hwm.Strides.{slot}
use icon_hwm_controller.Hwm.Interfaces.{Loans}
use icon_hwm_controller.Hwm.Apply.{
  Command, write_at, write_velocity, write_loop, check_current_status, apply_command,
}
use icon_hwm_controller.Hwm.Apply.Loop.{write_at_done, velocity_round, velocity_round_unused, round}
use icon_hwm_controller.Hwm.Apply.Guards.{Forbids, Fits}
use icon_hwm_controller.Hwm.Apply.Bounds.{IsArmed, apply_command-defined}

module _ (loans : Loans) where
  open loans use {Double, CommandInterface, set_value}

  -- The hardware refuses no value.
  abbrev pub Accepts : Type 0
  Accepts = (c : CommandInterface) (v : Double) → (set_value c v).1 ≡ true

  module _ (law : Accepts) (has : Bool) (stride : ℕ) (vel : List Double) where
    write_at-accepted :
        (is is' : List CommandInterface) (index : ℕ) (v : Double) (b : Bool)
        → write_at loans is index v ≡ done (b, is')
        → b ≡ true
    write_at-accepted is is' index v b e =
        let (c, _, accepted, _) = write_at_done loans has stride vel is is' index v b e in
        accepted ∙ law c v

    write_velocity-accepted :
        (i : ℕ) (is is' : List CommandInterface) (b : Bool)
        → write_velocity loans has stride i vel is ≡ done (b, is')
        → b ≡ true
    write_velocity-accepted i is is' b e = elim (Bool-cases has) [
      | inl with_velocity ↦
          let (v, _, w) = velocity_round loans has stride vel i is is' b with_velocity e in
          write_at-accepted is is' (slot 1 i stride) v b w
      | inr without ↦ (velocity_round_unused loans has stride vel i is is' b without e).0
    ]

    write_loop-accepted :
        (i : ℕ) (ps : List Double) (is is' : List CommandInterface) (s : Status)
        → write_loop loans has stride i ps vel is ≡ done (s, is')
        → s ≡ ok_status
    unfolding write_loop
    write_loop-accepted i [] is is' s e = ground arith
    write_loop-accepted i (p ∷ ps) is is' s e =
        let (b, is1, w, next) = round loans has stride vel i p ps is is' s e in
        elim next [
          | inl (refused, _, _) ↦
              absurd (ground (arith, refused, write_at-accepted is is1 (slot 0 i stride) p b w))
          | inr (b2, is2, w2, more) ↦ elim more [
            | inl (refused, _, _) ↦
                absurd (ground (arith, refused, write_velocity-accepted i is1 is2 b2 w2))
            | inr rest ↦ write_loop-accepted (suc i) ps is2 is' s rest
          ]
        ]

  -- The loop is all of the call, when no guard stops it.
  apply_command-loop :
      (h : Hwm) (acquired : Bool) (c : Command Double) (is : List CommandInterface)
      → ¬ Forbids h.latest_operational_status
      → Fits loans h c
      → is ≢ []
      → apply_command loans h acquired (value c) is
        ≡ write_loop loans h.params.has_velocity_command h.params.command_stride 0 c.position
            c.velocity_feedforward is
  unfolding apply_command check_current_status
  apply_command-loop h acquired c [] free fits some_lent = absurd (some_lent refl)
  apply_command-loop h acquired c (x ∷ xs) free fits some_lent =
      let enabled : h.latest_operational_status.state ≢ disabled = λ e. free (inl e) in
      let fine : h.latest_operational_status.state ≢ faulted = λ e. free (inr e) in
      ground (arith, enabled, fine, fits.positions, fits.velocities, fits.connected)

  -- When the latest status does not forbid motion, the command has a position and a velocity for each
  -- joint, the module has command interfaces in full groups and the hardware refuses no value, the call
  -- succeeds, whether or not the status box can be read.
  pub command_succeeds :
      (h : Hwm) (acquired : Bool) (c : Command Double) (is : List CommandInterface)
      → Accepts
      → IsArmed loans h is
      → ¬ Forbids h.latest_operational_status
      → Fits loans h c
      → is ≢ []
      → (is' : List CommandInterface) × (apply_command loans h acquired (value c) is
          ≡ done (ok_status, is'))
  command_succeeds h acquired c is law armed free fits some_lent =
      let (s, is', run, _) = apply_command-defined loans h acquired (value c) is armed in
      let ok =
        write_loop-accepted law h.params.has_velocity_command h.params.command_stride
          c.velocity_feedforward 0 c.position is is' s
          (sym (apply_command-loop h acquired c is free fits some_lent) ∙ run) in
      (is', rw (← ok) run)
