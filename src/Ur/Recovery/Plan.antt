-- ===== src/Ur/Recovery/Plan.antt =====
-- The recovery that the Universal Robots node should make: what each safety mode calls for, as a
-- table over the named modes, and the requests that follow from it.
use icon_hwm_controller.Prelude.{
  ℕ, ℤ, ◌≡◌, ◌≢◌, ◌⊎◌, true, ◌||◌, [], ◌∷◌, ◌++◌, Option, none, some, if◌then◌else◌, value_or,
  eqb_ℤ,
}
use icon_hwm_controller.Ur.Status.{RobotStatus, SafetyMode, RobotMode}
use icon_hwm_controller.Ur.Recovery.Processes.{
  trigger_request, set_mode_goal, get_result_request, slept, Trace,
}

-- The safety modes that ur_dashboard_msgs names.
pub data Mode : Type 0 where
  normal reduced protective_stop recovery safeguard_stop system_emergency_stop : Mode
  robot_emergency_stop violation fault validate_joint_id undefined_safety_mode : Mode
  automatic_mode_safeguard_stop system_three_position_enabling_stop : Mode

pub data Handling : Type 0 where
  leave unlock restart : Handling

-- What a recovery does about a mode; `none` is a code that has no name.
abbrev pub handling : Option Mode → Handling
handling none = leave
handling (some normal) = leave
handling (some reduced) = leave
handling (some protective_stop) = unlock
handling (some recovery) = leave
handling (some safeguard_stop) = restart
handling (some system_emergency_stop) = restart
handling (some robot_emergency_stop) = restart
handling (some violation) = restart
handling (some fault) = restart
handling (some validate_joint_id) = leave
handling (some undefined_safety_mode) = leave
handling (some automatic_mode_safeguard_stop) = restart
handling (some system_three_position_enabling_stop) = leave

abbrev pub code_of : SafetyMode → Mode → ℕ
code_of sm normal = sm.normal
code_of sm reduced = sm.reduced
code_of sm protective_stop = sm.protective_stop
code_of sm recovery = sm.recovery
code_of sm safeguard_stop = sm.safeguard_stop
code_of sm system_emergency_stop = sm.system_emergency_stop
code_of sm robot_emergency_stop = sm.robot_emergency_stop
code_of sm violation = sm.violation
code_of sm fault = sm.fault
code_of sm validate_joint_id = sm.validate_joint_id
code_of sm undefined_safety_mode = sm.undefined_safety_mode
code_of sm automatic_mode_safeguard_stop = sm.automatic_mode_safeguard_stop
code_of sm system_three_position_enabling_stop = sm.system_three_position_enabling_stop

-- The codes that call for a restart of the safety system.
abbrev pub NeedsRestart : SafetyMode → ℕ → Type 0
NeedsRestart sm m =
    (m ≡ sm.violation)
    ⊎ (m ≡ sm.fault)
    ⊎ (m ≡ sm.safeguard_stop)
    ⊎ (m ≡ sm.automatic_mode_safeguard_stop)
    ⊎ (m ≡ sm.system_emergency_stop)
    ⊎ (m ≡ sm.robot_emergency_stop)

-- No two modes have the same code.
abbrev pub HasDistinctCodes : SafetyMode → Type 0
HasDistinctCodes sm = (a b : Mode) → code_of sm a ≡ code_of sm b → a ≡ b

-- The mode that a code stands for.
abbrev pub Reads : SafetyMode → ℕ → Option Mode → Type 0
Reads sm m none = (mode : Mode) → m ≢ code_of sm mode
Reads sm m (some mode) = m ≡ code_of sm mode

-- What each step sends, the newest first.
abbrev pub safety_plan : Handling → Trace
safety_plan leave = []
safety_plan unlock = trigger_request "dashboard_client/unlock_protective_stop" ∷ []
safety_plan restart =
    slept 500
    ∷ trigger_request "dashboard_client/restart_safety"
    ∷ trigger_request "dashboard_client/close_safety_popup"
    ∷ []

abbrev pub connect_plan : RobotMode → ℤ → Trace
connect_plan rm robot =
    if eqb_ℤ robot rm.disconnected || eqb_ℤ robot rm.no_controller
    then trigger_request "dashboard_client/connect" ∷ []
    else []

abbrev pub recovery_plan : RobotMode → Option Mode → RobotStatus → Trace
recovery_plan rm mode r =
    get_result_request
    ∷ set_mode_goal rm.running true true
    ∷ trigger_request "dashboard_client/close_popup"
    ∷ trigger_request "dashboard_client/close_safety_popup"
    ∷ (safety_plan (handling mode) ++ connect_plan rm (value_or r.robot_mode rm.disconnected))
