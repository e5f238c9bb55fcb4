-- ===== src/Ur/Setup.antt =====
-- The constructor of `UrOperationalStateNode`, and the `main` function that spins it.
use icon_hwm_controller.Prelude.{ℤ, pos, List, [], ◌∷◌, Option, some}
use icon_hwm_controller.Ros.{
  Ros, ◌>>=◌, mutually_exclusive, reentrant, topic_cb_group, clear_faults_service_cb_group,
  client_cb_group, Entity, callback_group, subscription, publisher, wall_timer, service, client,
  action_client, Built, declare_publish_rate, declare_timeout, timer_period, create_entities,
  Process, multi_threaded,
}
use icon_hwm_controller.Ur.Node.{Node, start}

pub data Handler : Type 0 where
  robot_mode_callback safety_mode_callback program_running_callback : Handler
  publish_operational_status clear_faults_callback : Handler

-- The callback groups and what is created in them, by the timer's period.
unfoldable pub entities : ℤ → List (Entity Handler)
entities period =
    callback_group topic_cb_group mutually_exclusive
    ∷ callback_group clear_faults_service_cb_group mutually_exclusive
    ∷ callback_group client_cb_group reentrant
    ∷ subscription "io_and_status_controller/robot_mode" robot_mode_callback topic_cb_group
    ∷ subscription "io_and_status_controller/safety_mode" safety_mode_callback topic_cb_group
    ∷ subscription "io_and_status_controller/robot_program_running" program_running_callback
        topic_cb_group
    ∷ publisher "operational_status"
    ∷ wall_timer period publish_operational_status topic_cb_group
    ∷ service "clear_faults" clear_faults_callback clear_faults_service_cb_group
    ∷ action_client "ur_robot_state_helper/set_mode" client_cb_group
    ∷ client "io_and_status_controller/resend_robot_program" client_cb_group
    ∷ client "dashboard_client/unlock_protective_stop" client_cb_group
    ∷ client "dashboard_client/restart_safety" client_cb_group
    ∷ client "dashboard_client/close_safety_popup" client_cb_group
    ∷ client "dashboard_client/close_popup" client_cb_group
    ∷ client "dashboard_client/brake_release" client_cb_group
    ∷ client "dashboard_client/power_on" client_cb_group
    ∷ client "dashboard_client/connect" client_cb_group
    ∷ []

-- What the constructor leaves, by the timeouts and what was created.
unfoldable pub built : ℤ → ℤ → List (Entity Handler) → Built Node Handler
built service_timeout_sec action_timeout_sec created = record {
  node = start;
  service_timeout = service_timeout_sec;
  action_timeout = some action_timeout_sec;
  entities = created;
}

unfoldable pub construct : Ros → Option (Built Node Handler)
unfolding built entities declare_publish_rate declare_timeout timer_period create_entities
construct ros = do
  publish_rate_hz ← declare_publish_rate ros
  service_timeout_sec ←
      declare_timeout ros "service_timeout_sec" (pos 5) "Service timeout in seconds."
  action_timeout_sec ←
      declare_timeout ros "action_timeout_sec" (pos 15) "Action timeout in seconds."
  created ← create_entities ros (entities (timer_period ros publish_rate_hz))
  some (built service_timeout_sec action_timeout_sec created)

unfoldable pub main_process : Ros → Option (Process Node Handler)
unfolding construct
main_process ros = do node ← construct ros; some (record { node = node; executor = multi_threaded })
