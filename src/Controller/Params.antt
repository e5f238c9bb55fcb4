-- ===== src/Controller/Params.antt =====
-- The parameters of the controller, the interfaces that it claims, `on_init`, and the parameters that
-- it passes on to the hardware module.
pub mod Names
pub mod Ready
use icon_hwm_controller.Prelude.{
  ℕ, ℤ, String, Bool, List, [], ◌∷◌, ◌++◌, map, Option, none, some, ltb, length, if◌then◌else◌,
  ◌||◌, true, false, str_eq, concat,
}
use icon_hwm_controller.Hwm.Params
use icon_hwm_controller.Hwm.Params.{to_controller}

-- The parameters that the callbacks read, which the build generates from the YAML file.
pub record Settings : Type 0 where
  pub name : String
  pub shm_namespace : String
  pub cpu_affinity : List ℤ
  pub drives_realtime_clock : Bool
  pub dof_names : List String
  pub command_interfaces : List String
  pub reference_and_state_interfaces : List String
  pub hardware_component_name : String
  pub controllers_to_activate : List String
  pub controllers_to_deactivate : List String
  pub operational_status_topic : String
  pub clear_faults_trigger_service : String
  pub control_frequency_hz : ℤ

pub data CallbackReturn : Type 0 where
  success error : CallbackReturn

-- The loops of the two functions below: the outer one over the axes, the inner one over the types.
unfoldable pub interface_names : List String → List String → List String
interface_names [] types = []
interface_names (dof ∷ dofs) types =
    map (λ t. concat (dof ∷ "/" ∷ t ∷ [])) types ++ interface_names dofs types

unfoldable pub command_interface_configuration : Settings → List String
command_interface_configuration p = interface_names p.dof_names p.command_interfaces

unfoldable pub state_interface_configuration : Settings → List String
state_interface_configuration p = interface_names p.dof_names p.reference_and_state_interfaces

-- `std::find(...) != end()`.
unfoldable pub contains : String → List String → Bool
contains s [] = false
contains s (x ∷ xs) = str_eq x s || contains s xs

-- The controller adds itself to the controllers to activate. The parameters are `none` when reading
-- them threw; `before` are then kept.
unfoldable pub on_init : String → Settings → Option Settings → CallbackReturn × Settings
on_init node_name before none = (error, before)
on_init node_name before (some p) = (
  success,
  if contains node_name p.controllers_to_activate
      then p
      else record p { controllers_to_activate = p.controllers_to_activate ++ (node_name ∷ []) },
)

-- The parameters of the hardware module, as `on_configure` builds them once the clock exists.
unfoldable pub hwm_params : Settings → icon_hwm_controller.Hwm.Params.Params
hwm_params p = record {
  hardware_component_name = p.hardware_component_name;
  num_dofs = length p.dof_names;
  state_interfaces = to_controller;
  command_interfaces = to_controller;
  state_stride = length p.reference_and_state_interfaces;
  command_stride = length p.command_interfaces;
  has_velocity_state = ltb 1 (length p.reference_and_state_interfaces);
  has_velocity_command = ltb 1 (length p.command_interfaces);
  operational_status_topic = p.operational_status_topic;
  clear_faults_service = p.clear_faults_trigger_service;
  controllers_to_activate = p.controllers_to_activate;
  controllers_to_deactivate = p.controllers_to_deactivate;
  clock = true;
}
