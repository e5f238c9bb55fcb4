-- ===== src/SharedClock.antt =====
-- The realtime clock is one object: the plugin owns it and ticks it in `update`, and the hardware
-- module that it configures resets it in `Prepare` and `Shutdown`.
use icon_hwm_controller.Prelude.{
  ◌*◌, ◌≡◌, refl, ap, ◌∙◌, inl, inr, true, false, List, [], ◌∷◌, ◌++◌, none, some, arith,
  Bool-cases, empty_str, Option, String,
}
use icon_hwm_controller.Status.{Status, is_ok, ok_status, value}
use icon_hwm_controller.Hwm.Params.{Hwm, create}
use icon_hwm_controller.Hwm.Services.{
  Event, Services, Trace, PrimaryState, primary_state_active, primary_state_inactive, clock_reset,
  clear_faults_request, set_hw_state_request, switch_controller_request,
}
use icon_hwm_controller.Hwm.Transitions.{return_if_error, prepare, clear_faults, shutdown}
use icon_hwm_controller.Hwm.Transitions.Steps.{
  sendable, request, perform, activating, clearing, deactivating, component_steps, vendor_steps,
  start_steps, stop_steps, clear_faults_steps,
}
use icon_hwm_controller.Hwm.Transitions.Sequence.{transitions_in_sequence}
use icon_hwm_controller.Controller.Params.{hwm_params}
use icon_hwm_controller.Controller.Params.Names.{create_params}
use icon_hwm_controller.Controller.Lifecycle.{Icon, Controller}

module _ (icon : Icon) where
  open icon use {Clock}

  -- The answer to the latest reset of a trace, and the clock after all of them. The clock takes
  -- milliseconds, and the module writes seconds.
  abbrev pub replay : Clock → Trace → Status × Clock
  replay k [] = (ok_status, k)
  replay k (clock_reset seconds ∷ t) = icon.reset (replay k t).1 (seconds * 1000)
  replay k (clear_faults_request s ∷ t) = replay k t
  replay k (set_hw_state_request n s ∷ t) = replay k t
  replay k (switch_controller_request a d s ∷ t) = replay k t

  -- The module's clock answers as the plugin's clock `k` does.
  abbrev pub sharing : Clock → Services → Services
  sharing k services = record services { clock_response = λ t. (replay k t).0 }

  -- The clock is as one reset leaves it, and a reset that fails is all that was sent.
  abbrev pub ResetsOnce : Clock → Status × Trace → Type 0
  ResetsOnce k r =
      ((replay k r.1).1 ≡ (icon.reset k 20000).1)
      × (is_ok (icon.reset k 20000).0 ≡ false
          → (r.0 ≡ (icon.reset k 20000).0) × (r.1 ≡ clock_reset 20 ∷ []))

  module _ (services : Services) (what : String) (k : Clock) where
    -- A step that does not touch the clock.
    abbrev IsQuiet : Event → Type 0
    IsQuiet (clock_reset seconds) = ⊥
    IsQuiet _ = Unit

    abbrev AllQuiet : List Event → Type 0
    AllQuiet [] = Unit
    AllQuiet (e ∷ es) = IsQuiet e × AllQuiet es

    replay-quiet : (e : Event) (t : Trace) → IsQuiet e → replay k (e ∷ t) ≡ replay k t
    replay-quiet (clock_reset seconds) t q = absurd q
    replay-quiet (clear_faults_request s) t q = refl
    replay-quiet (set_hw_state_request n s) t q = refl
    replay-quiet (switch_controller_request a d s) t q = refl

    abbrev shared : Services
    shared = sharing k services

    request-quiet :
        (e : Event) (t : Trace) → IsQuiet e → replay k (request shared what e t).1 ≡ replay k t
    request-quiet e t q = elim (Bool-cases (sendable shared what e t)) [
      | inl up ↦ rw up (replay-quiet e t q)
      | inr down ↦ rw down
    ]

    perform-quiet :
        (es : List Event) (t : Trace)
        → AllQuiet es
        → replay k (perform shared what es t).1 ≡ replay k t
    unfolding perform
    perform-quiet [] t q = refl
    perform-quiet (e ∷ es) t (q, qs) = elim (Bool-cases (is_ok (request shared what e t).0)) [
      | inl fine ↦ rw fine (perform-quiet es (request shared what e t).1 qs ∙ request-quiet e t q)
      | inr bad ↦ rw bad (request-quiet e t q)
    ]

    started :
        (es : List Event)
        → perform shared what (clock_reset 20 ∷ es) []
          ≡ return_if_error ((icon.reset k 20000).0, clock_reset 20 ∷ []) (perform shared what es)
    unfolding perform
    started es = refl

    reset_first-ResetsOnce :
        (r : Status × Trace) (es : List Event)
        → AllQuiet es
        → r ≡ perform shared what (clock_reset 20 ∷ es) []
        → ResetsOnce k r
    reset_first-ResetsOnce (s, t) es q e = elim (Bool-cases (is_ok (icon.reset k 20000).0)) [
      | inl fine ↦
          let run : (s, t) ≡ perform shared what es (clock_reset 20 ∷ []) =
            e ∙ started es ∙ rw fine in
          (
            ap (λ (r : Status × Trace). (replay k r.1).1) run
                ∙ ap (λ (r : Status × Clock). r.1) (perform-quiet es (clock_reset 20 ∷ []) q),
            λ bad. absurd (ground (arith, fine, bad)),
          )
      | inr failed ↦
          let stop : (s, t) ≡ ((icon.reset k 20000).0, clock_reset 20 ∷ []) =
            e ∙ started es ∙ rw failed in
          (
            ap (λ (r : Status × Trace). (replay k r.1).1) stop,
            λ _. (ap (λ (r : Status × Trace). r.0) stop, ap (λ (r : Status × Trace). r.1) stop),
          )
    ]

    AllQuiet-append : (ds es : List Event) → AllQuiet ds → AllQuiet es → AllQuiet (ds ++ es)
    AllQuiet-append [] es v w = w
    AllQuiet-append (d ∷ ds) es (v, vs) w = (v, AllQuiet-append ds es vs w)

    component-AllQuiet : (state : PrimaryState) (h : Hwm) → AllQuiet (component_steps state h)
    component-AllQuiet state h = elim (Bool-cases (empty_str h.params.hardware_component_name)) [
      | inl unset ↦ rw unset tt
      | inr set ↦ rw set (tt, tt)
    ]

    vendor-AllQuiet : (client : Option String) → AllQuiet (vendor_steps client)
    vendor-AllQuiet none = tt
    vendor-AllQuiet (some service) = (tt, tt)

  module _ (services : Services) (c : Controller icon) (h : Hwm) (k : Clock) where
    clock-set : create (hwm_params c.settings) ≡ value h → h.params.clock ≡ true
    unfolding hwm_params
    clock-set made = ap (λ p. p.clock) (create_params (hwm_params c.settings) h made)

    -- In a hardware module that is made from the plugin's settings and shares its clock, `Prepare` and
    -- `Shutdown` leave the clock as one reset within 20 seconds leaves it, and when that reset fails
    -- they return its status and send nothing else; `ClearFaults` leaves the clock as it is.
    pub transitions_share_clock :
        create (hwm_params c.settings) ≡ value h
        → ResetsOnce k (prepare (sharing k services) h [])
          × ResetsOnce k (shutdown (sharing k services) h [])
          × ((replay k (clear_faults (sharing k services) h []).1).1 ≡ k)
    transitions_share_clock made =
        let set = clock-set made in
        let (prepares, clears, shuts) = transitions_in_sequence (sharing k services) h [] in
        (
          reset_first-ResetsOnce services activating k (prepare (sharing k services) h [])
              (component_steps primary_state_active h ++ start_steps h)
              (AllQuiet-append services activating k _ _
                (component-AllQuiet services activating k primary_state_active h) (tt, tt))
              (prepares ∙ rw set),
          reset_first-ResetsOnce services deactivating k (shutdown (sharing k services) h [])
              (stop_steps h ++ component_steps primary_state_inactive h)
              (tt, component-AllQuiet services deactivating k primary_state_inactive h)
              (shuts ∙ rw set),
          ap (λ (r : Status × Trace). (replay k r.1).1) clears
              ∙ ap (λ (r : Status × Clock). r.1)
                  (perform-quiet services clearing k (clear_faults_steps h) [] (
                    AllQuiet-append services clearing k _ _
                      (vendor-AllQuiet services clearing k h.clear_faults_client)
                      (AllQuiet-append services clearing k _ _
                        (component-AllQuiet services clearing k primary_state_active h) (tt, tt)))),
        )
