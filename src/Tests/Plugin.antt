-- ===== src/Tests/Plugin.antt =====
-- The controller with a library that cannot create its shared memory, and with one that works.
use icon_hwm_controller.Prelude.{
  ℕ, Option, ◌≡◌, ◌≢◌, ◌⊎◌, refl, pos, negsuc, true, false, List, [], ◌∷◌, none, some, arith,
  length, replicate, length-replicate, take, codes,
}
use icon_hwm_controller.Status.{StatusCode, ok_status, status, Expected, value, done}
use icon_hwm_controller.Hwm.Params.{Hwm, create}
use icon_hwm_controller.Controller.Casts.{to_int}
use icon_hwm_controller.Controller.Params.{
  Settings, CallbackReturn, interface_names, command_interface_configuration, hwm_params,
  state_interface_configuration,
}
use icon_hwm_controller.Controller.Params.Ready.{BuildsFull}
use icon_hwm_controller.Hwm.Interfaces.{Registry, no_joints, init}
use icon_hwm_controller.Controller.Message.{init_error, state_message, message_size}
use icon_hwm_controller.Controller.Lifecycle.{
  Icon, Host, Controller, on_configure, check_settings, on_cleanup,
}
use icon_hwm_controller.Controller.Lifecycle.Outcome.{Runs, Fails, configure_outcome}
use icon_hwm_controller.Controller.Message.Text.{c_text, messages_read_back}

abbrev pub settings : Settings
settings = record {
  name = "arm";
  shm_namespace = "";
  cpu_affinity = pos 0 ∷ [];
  drives_realtime_clock = true;
  dof_names = "base" ∷ "elbow" ∷ [];
  command_interfaces = "position" ∷ "velocity" ∷ [];
  reference_and_state_interfaces = "position" ∷ "velocity" ∷ [];
  hardware_component_name = "arm";
  controllers_to_activate = "other" ∷ [];
  controllers_to_deactivate = [];
  operational_status_topic = "status";
  clear_faults_trigger_service = "clear";
  control_frequency_hz = negsuc 0;
}

abbrev pub arm : Hwm
arm = record {
  params = hwm_params settings;
  latest_operational_status = record { state = 0; message = "" };
  operational_status_subscription = some "status";
  clear_faults_client = some "clear";
}

pub arm_run : create (hwm_params settings) ≡ value arm
unfolding create hwm_params
arm_run = refl

abbrev pub interfaces : List ℕ
interfaces = 10 ∷ 20 ∷ 30 ∷ 40 ∷ []

pub claimed : length interfaces ≡ length (command_interface_configuration settings)
unfolding command_interface_configuration interface_names
claimed = refl

settings_ne : settings.command_interfaces ≢ []
settings_ne e = ground (arith, e)

abbrev pub full : Registry ℕ
full = record {
  advertise_mutable = λ name n. value (replicate n 0);
  advertise = λ name n. value tt;
}

pub full-BuildsFull : BuildsFull full
full-BuildsFull name n xs e = ground (arith, length-replicate {A = ℕ} n 0)

pub advertised : (init full arm no_joints).1.command_advertised ≡ true
unfolding init
advertised = refl

abbrev pub readings : List (Option ℕ)
readings = some 5 ∷ some 6 ∷ some 7 ∷ some 8 ∷ []

pub claimed_states : length readings ≡ length (state_interface_configuration settings)
unfolding state_interface_configuration interface_names
claimed_states = refl

state_settings_ne : settings.reference_and_state_interfaces ≢ []
state_settings_ne e = ground (arith, e)

-- A library whose objects are numbers.
abbrev pub working : Icon
working = record {
  SharedMemory = ℕ;
  Clock = ℕ;
  Runtime = ℕ;
  to_string = λ s. s.message;
  create_shared_memory = λ n m. value 1;
  create_clock = λ m. value 2;
  tick = λ k now deadline. (ok_status, k);
  reset = λ k timeout. (ok_status, k);
  create_runtime = λ n period m h. value 3;
  run = λ realtime affinity r. (ok_status, r);
  stop = λ r. (ok_status, r);
  get_state = λ r. value (2, []);
}

-- The shared memory cannot be created.
abbrev broken : Icon
broken = record {
  SharedMemory = ℕ;
  Clock = ℕ;
  Runtime = ℕ;
  to_string = λ s. s.message;
  create_shared_memory = λ n m. Expected.error (status StatusCode.internal "no memory");
  create_clock = λ m. value 2;
  tick = λ k now deadline. (ok_status, k);
  reset = λ k timeout. (ok_status, k);
  create_runtime = λ n period m h. value 3;
  run = λ realtime affinity r. (ok_status, r);
  stop = λ r. (ok_status, r);
  get_state = λ r. value (2, []);
}

abbrev pub host : Host
host = record { update_rate = 500; has_realtime_kernel = true }

abbrev pub unconfigured : (icon : Icon) → Controller icon
unconfigured icon = record {
  settings = settings;
  publisher = false;
  timer = false;
  clock = none;
  runtime = none;
  init_error_state = none;
}

abbrev pub configured : Controller working
configured = record (unconfigured working) {
  publisher = true;
  timer = true;
  clock = some 2;
  runtime = some 3;
}

abbrev pub cleaned : Controller working
cleaned = record configured { timer = false; clock = none; runtime = none }

pub working_run :
    on_configure working host (unconfigured working) ≡ done (CallbackReturn.success, configured)
unfolding on_configure create hwm_params to_int check_settings
working_run = refl

pub cleanup_run : on_cleanup working configured ≡ done (CallbackReturn.success, cleaned)
unfolding on_cleanup
cleanup_run = refl

configure_outcome_example :
    (c' : Controller broken) × (((on_configure broken host (unconfigured broken)
          ≡ done (CallbackReturn.success, c'))
        × Runs broken host settings c')
      ⊎ ((on_configure broken host (unconfigured broken) ≡ done (CallbackReturn.error, c'))
          × Fails broken host settings c'))
configure_outcome_example =
    configure_outcome broken host (unconfigured broken) refl (λ e. ground (arith, e))

messages_read_back_example :
    (c_text (init_error "no name").message ≡ take 255 (c_text (codes "no name")))
    × (c_text (state_message 2 (97 ∷ 0 ∷ 98 ∷ [])).message
        ≡ take message_size (c_text (97 ∷ 0 ∷ 98 ∷ [])))
messages_read_back_example = messages_read_back "no name" 2 (97 ∷ 0 ∷ 98 ∷ [])
