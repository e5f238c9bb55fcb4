-- ===== src/Khi/Setup.antt =====
-- The constructor of `KhiOperationalStateNode`, and the `main` function that spins it.
use icon_hwm_controller.Prelude.{
  ℤ, pos, String, List, [], ◌∷◌, Option, none, some, concat, decimal_ℤ,
}
use icon_hwm_controller.Ros.{
  Ros, ◌>>=◌, mutually_exclusive, reentrant, topic_cb_group, clear_faults_service_cb_group,
  client_cb_group, Entity, callback_group, subscription, publisher, wall_timer, service, client,
  Built, declare_publish_rate, declare_timeout, timer_period, create_entities, Process,
  multi_threaded,
}
use icon_hwm_controller.Khi.Node.{Node, start}

pub data Handler : Type 0 where
  error_info_callback publish_operational_status clear_faults_callback : Handler

unfoldable pub declare_controller_no : Ros → Option ℤ
declare_controller_no ros = ros.declare_integer "controller_no" (pos 0) (record {
  description = "Controller number if connecting multiple controllers from a single PC.";
  range = record { from_value = pos 0; to_value = pos 15 };
})

-- The names of the driver's service and topic, unless the user gives others.
unfoldable pub default_service : ℤ → String
default_service controller_no =
    concat ("/khi_controller" ∷ decimal_ℤ controller_no ∷ "/khi_service/reset_error" ∷ [])

unfoldable pub default_topic : ℤ → String
default_topic controller_no =
    concat ("/khi_controller" ∷ decimal_ℤ controller_no ∷ "/khi_publisher/error_info" ∷ [])

-- The callback groups and what is created in them, by the timer's period and the names of the
-- driver's topic and service.
unfoldable pub entities : ℤ → String → String → List (Entity Handler)
entities period error_info_topic reset_error_service =
    callback_group topic_cb_group mutually_exclusive
    ∷ callback_group clear_faults_service_cb_group mutually_exclusive
    ∷ callback_group client_cb_group reentrant
    ∷ subscription error_info_topic error_info_callback topic_cb_group
    ∷ publisher "operational_status"
    ∷ wall_timer period publish_operational_status topic_cb_group
    ∷ service "clear_faults" clear_faults_callback clear_faults_service_cb_group
    ∷ client reset_error_service client_cb_group
    ∷ []

-- What the constructor leaves, by the timeouts and what was created.
unfoldable pub built : ℤ → List (Entity Handler) → Built Node Handler
built service_timeout_sec created = record {
  node = start;
  service_timeout = service_timeout_sec;
  action_timeout = none;
  entities = created;
}

unfoldable pub construct : Ros → Option (Built Node Handler)
unfolding built entities declare_controller_no default_service default_topic declare_publish_rate
    declare_timeout timer_period create_entities
construct ros = do
  publish_rate_hz ← declare_publish_rate ros
  service_timeout_sec ←
      declare_timeout ros "service_timeout_sec" (pos 5) "Service timeout in seconds."
  controller_no ← declare_controller_no ros
  reset_error_service ← ros.declare_string "reset_error_service" (default_service controller_no)
  error_info_topic ← ros.declare_string "error_info_topic" (default_topic controller_no)
  created ←
      create_entities ros
        (entities (timer_period ros publish_rate_hz) error_info_topic reset_error_service)
  some (built service_timeout_sec created)

unfoldable pub main_process : Ros → Option (Process Node Handler)
unfolding construct
main_process ros = do node ← construct ros; some (record { node = node; executor = multi_threaded })
