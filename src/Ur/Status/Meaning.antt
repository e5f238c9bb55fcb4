-- ===== src/Ur/Status/Meaning.antt =====
-- What each operational state says of the robot, and which states carry a message.
use icon_hwm_controller.Prelude.{
  ℕ, ℤ, String, ◌≡◌, ◌≢◌, ◌⊎◌, ◌↔◌, refl, Bool, true, false, [], ◌∷◌, Option, none, some, arith,
  empty_str, eqb_ℤ_iff, ◌==◌, ◌||◌, not, if◌then◌else◌, eqb_ℤ_ne, empty_str-concat, decimal,
  decimal_ℤ,
}
use icon_hwm_controller.OperationalStatus.{OperationalStatus, unknown, disabled, faulted, enabled}
use icon_hwm_controller.Ur.Status.{
  RobotStatus, SafetyMode, RobotMode, to_operational_status, evaluate, robot_mode_status,
  is_idle_mode, safety_message,
}

-- `RUNNING` differs from the other robot modes, as the labels of one `switch` do.
pub record IsDistinct (rm : RobotMode) : Type 0 where
  pub not_no_controller : rm.running ≢ rm.no_controller
  pub not_disconnected : rm.running ≢ rm.disconnected
  pub not_confirm_safety : rm.running ≢ rm.confirm_safety
  pub not_booting : rm.running ≢ rm.booting
  pub not_power_off : rm.running ≢ rm.power_off
  pub not_power_on : rm.running ≢ rm.power_on
  pub not_idle : rm.running ≢ rm.idle
  pub not_backdrive : rm.running ≢ rm.backdrive
  pub not_updating_firmware : rm.running ≢ rm.updating_firmware

module _ (sm : SafetyMode) (rm : RobotMode) where
  -- Both the safety system and the program allow motion.
  pub record Moves (s : RobotStatus) : Type 0 where
    pub safe : (s.safety_mode ≡ some sm.normal) ⊎ (s.safety_mode ≡ some sm.reduced)
    pub runs : s.robot_mode ≡ some rm.running
    pub plays : s.program_running ≡ some true

  -- The second `switch` reports an enabled robot only in the mode `RUNNING`, with the program.
  enabled_mode :
      (m : ℤ) (b : Bool)
      → (robot_mode_status rm m b).state ≡ enabled
      → (m ≡ rm.running) × (b ≡ true)
  unfolding robot_mode_status
  enabled_mode m b e = ground (arith, eqb_ℤ_iff m rm.running)

  running_mode :
      IsDistinct rm
      → robot_mode_status rm rm.running true ≡ record { state = enabled; message = "" }
  unfolding robot_mode_status is_idle_mode
  running_mode d = rw (
    eqb_ℤ_ne _ _ d.not_no_controller,
    eqb_ℤ_ne _ _ d.not_disconnected,
    eqb_ℤ_ne _ _ d.not_confirm_safety,
    eqb_ℤ_ne _ _ d.not_booting,
    eqb_ℤ_ne _ _ d.not_power_off,
    eqb_ℤ_ne _ _ d.not_power_on,
    eqb_ℤ_ne _ _ d.not_idle,
    eqb_ℤ_ne _ _ d.not_backdrive,
    eqb_ℤ_ne _ _ d.not_updating_firmware,
    (eqb_ℤ_iff rm.running rm.running).1 refl,
  )

  enabled_of_Moves :
      (s : RobotStatus)
      → IsDistinct rm
      → Moves s
      → (evaluate sm rm s.safety_mode s.robot_mode s.program_running).state ≡ enabled
  unfolding evaluate
  enabled_of_Moves s d v = ground (arith, running_mode d)

  evaluate-enabled :
      (a : Option ℕ) (b : Option ℤ) (c : Option Bool)
      → (evaluate sm rm a b c).state ≡ enabled
      → ((a ≡ some sm.normal) ⊎ (a ≡ some sm.reduced)) × (b ≡ some rm.running) × (c ≡ some true)
  unfolding evaluate
  evaluate-enabled (some a) (some b) (some c) e = ground (arith, enabled_mode b c)
  evaluate-enabled _ _ _ e = ground arith

  Moves_of_enabled :
      (s : RobotStatus)
      → (evaluate sm rm s.safety_mode s.robot_mode s.program_running).state ≡ enabled
      → Moves s
  Moves_of_enabled s e =
      let (safe, runs, plays) = evaluate-enabled s.safety_mode s.robot_mode s.program_running e in
      record { safe = safe; runs = runs; plays = plays }

  -- Where the code of `RUNNING` differs from the codes of the other robot modes, the state is `enabled`
  -- exactly when the safety mode is `NORMAL` or `REDUCED`, the robot is `RUNNING` and the program
  -- runs.
  pub enabled_iff :
      (s : RobotStatus)
      → IsDistinct rm
      → ((to_operational_status sm rm s).state ≡ enabled) ↔ Moves s
  unfolding to_operational_status
  enabled_iff s d = (Moves_of_enabled s, enabled_of_Moves s d)

  -- The state is `unknown` exactly while the value of one of the three topics is missing.
  pub unknown_iff :
      (s : RobotStatus)
      → ((to_operational_status sm rm s).state ≡ unknown)
        ↔ ((s.safety_mode ≡ none) ⊎ (s.robot_mode ≡ none) ⊎ (s.program_running ≡ none))
  unfolding to_operational_status
  unknown_iff s = ground arith

  -- Once all three topics have a value, a safety mode other than `NORMAL` and `REDUCED` is a fault,
  -- whatever the robot mode and the program.
  pub unsafe_faulted :
      (s : RobotStatus) (m : ℕ) (r : ℤ) (b : Bool)
      → s.safety_mode ≡ some m
      → m ≢ sm.normal
      → m ≢ sm.reduced
      → s.robot_mode ≡ some r
      → s.program_running ≡ some b
      → (to_operational_status sm rm s).state ≡ faulted
  unfolding to_operational_status
  unsafe_faulted s m r b e n u f g = ground arith

empty_str-if :
    (b : Bool) (x y : String)
    → empty_str (if b then x else y) ≡ (if b then empty_str x else empty_str y)
empty_str-if true x y = refl
empty_str-if false x y = refl

if_same {ℓ} : {A : Type ℓ} (b : Bool) (x : A) → (if b then x else x) ≡ x
if_same true x = refl
if_same false x = refl

-- The message is empty exactly when the state is `disabled` or `enabled`.
abbrev pub IsQuiet : OperationalStatus → Type 0
IsQuiet o = (empty_str o.message ≡ true) ↔ ((o.state ≡ disabled) ⊎ (o.state ≡ enabled))

-- The same as a test, which goes through a conditional.
is_quiet : OperationalStatus → Bool
is_quiet o =
    let silent = o.state == disabled || o.state == enabled in
    if empty_str o.message then silent else not silent

IsQuiet-of_is_quiet : (o : OperationalStatus) → is_quiet o ≡ true → IsQuiet o
unfolding is_quiet
IsQuiet-of_is_quiet o e = ground arith

is_quiet-if :
    (b : Bool) (x y : OperationalStatus)
    → is_quiet (if b then x else y) ≡ (if b then is_quiet x else is_quiet y)
is_quiet-if true x y = refl
is_quiet-if false x y = refl

is_quiet-fault :
    (m : String) → empty_str m ≡ false → is_quiet (record { state = faulted; message = m }) ≡ true
unfolding is_quiet
is_quiet-fault m h = rw h

is_quiet-disabled : is_quiet (record { state = disabled; message = "" }) ≡ true
unfolding is_quiet
is_quiet-disabled = refl

is_quiet-enabled : is_quiet (record { state = enabled; message = "" }) ≡ true
unfolding is_quiet
is_quiet-enabled = refl

module _ (sm : SafetyMode) (rm : RobotMode) where
  safety_message-ne-empty : (m : ℕ) → empty_str (safety_message sm m) ≡ false
  unfolding safety_message
  safety_message-ne-empty m =
      simp (empty_str-if, if_same, empty_str-concat "Unknown safety mode: " (decimal m ∷ []) refl)

  robot_mode_message : (m : ℤ) (b : Bool) → is_quiet (robot_mode_status rm m b) ≡ true
  unfolding robot_mode_status
  robot_mode_message m b = simp (
    is_quiet-if,
    is_quiet-disabled,
    is_quiet-enabled,
    is_quiet-fault "No controller connected to robot." refl,
    is_quiet-fault "Robot is disconnected." refl,
    is_quiet-fault "Robot requires safety confirmation." refl,
    is_quiet-fault _ (empty_str-concat "Unknown robot mode: " (decimal_ℤ m ∷ []) refl),
    if_same,
  )

  evaluate_message :
      (a : Option ℕ) (b : Option ℤ) (c : Option Bool) → is_quiet (evaluate sm rm a b c) ≡ true
  unfolding evaluate
  evaluate_message (some a) (some b) (some c) = simp (
    is_quiet-if,
    is_quiet-fault (safety_message sm a) (safety_message-ne-empty a),
    robot_mode_message b c,
    if_same,
  )
  evaluate_message _ _ _ = unfold is_quiet in refl

  -- The message is empty exactly when the state is `disabled` or `enabled`.
  pub message_iff : (s : RobotStatus) → IsQuiet (to_operational_status sm rm s)
  unfolding to_operational_status
  message_iff s =
      IsQuiet-of_is_quiet _ (evaluate_message s.safety_mode s.robot_mode s.program_running)
