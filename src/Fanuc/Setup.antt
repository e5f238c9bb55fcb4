-- ===== src/Fanuc/Setup.antt =====
-- The constructor of `FanucOperationalStateNode`, and the `main` function that spins it.
use icon_hwm_controller.Prelude.{ℤ, pos, List, [], ◌∷◌, Option, none, some}
use icon_hwm_controller.Ros.{
  Ros, ◌>>=◌, mutually_exclusive, reentrant, topic_cb_group, clear_faults_service_cb_group,
  client_cb_group, Entity, callback_group, subscription, publisher, wall_timer, service, client,
  Built, declare_publish_rate, declare_timeout, timer_period, create_entities, Process,
  multi_threaded,
}
use icon_hwm_controller.Fanuc.Node.{Node, start}

pub data Handler : Type 0 where
  robot_status_callback publish_operational_status clear_faults_callback : Handler

-- The callback groups and what is created in them, by the timer's period.
unfoldable pub entities : ℤ → List (Entity Handler)
entities period =
    callback_group topic_cb_group mutually_exclusive
    ∷ callback_group clear_faults_service_cb_group mutually_exclusive
    ∷ callback_group client_cb_group reentrant
    ∷ subscription "/fanuc_gpio_controller/robot_status" robot_status_callback topic_cb_group
    ∷ publisher "operational_status"
    ∷ wall_timer period publish_operational_status topic_cb_group
    ∷ service "clear_faults" clear_faults_callback clear_faults_service_cb_group
    ∷ client "/fanuc_gpio_controller/reset" client_cb_group
    ∷ client "/fanuc_gpio_controller/switch_control_state" client_cb_group
    ∷ client "/fanuc_gpio_controller/read_error" client_cb_group
    ∷ []

-- What the constructor leaves, by the timeouts and what was created.
unfoldable pub built : ℤ → List (Entity Handler) → Built Node Handler
built service_timeout_sec created = record {
  node = start;
  service_timeout = service_timeout_sec;
  action_timeout = none;
  entities = created;
}

unfoldable pub construct : Ros → Option (Built Node Handler)
unfolding built entities declare_publish_rate declare_timeout timer_period create_entities
construct ros = do
  publish_rate_hz ← declare_publish_rate ros
  service_timeout_sec ←
      declare_timeout ros "service_timeout_sec" (pos 5) "Service timeout in seconds."
  created ← create_entities ros (entities (timer_period ros publish_rate_hz))
  some (built service_timeout_sec created)

unfoldable pub main_process : Ros → Option (Process Node Handler)
unfolding construct
main_process ros = do node ← construct ros; some (record { node = node; executor = multi_threaded })
