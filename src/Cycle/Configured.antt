-- ===== src/Cycle/Configured.antt =====
-- From the configuration of the plugin to the cycles of its hardware module.
use icon_hwm_controller.Prelude.{◌≡◌, ◌≢◌, ◌<◌, ℕ, Bool, false, true, List, length, arith}
use icon_hwm_controller.Status.{undefined, done, Expected, value}
use icon_hwm_controller.Hwm.Params.{Hwm, create}
use icon_hwm_controller.Hwm.Interfaces.{Loans, Registry, no_joints, init}
use icon_hwm_controller.Hwm.Strides.{size_limit}
use icon_hwm_controller.Hwm.Read.{read_status}
use icon_hwm_controller.Hwm.Apply.{Command, apply_command}
use icon_hwm_controller.Controller.Params.{
  CallbackReturn, hwm_params, command_interface_configuration, state_interface_configuration,
}
use icon_hwm_controller.Controller.Params.Names.{configured-IsArmed}
use icon_hwm_controller.Controller.Params.Ready.{BuildsFull, configured-IsReady}
use icon_hwm_controller.Controller.Lifecycle.{Icon, Host, Controller, on_configure}
use icon_hwm_controller.Controller.Lifecycle.Outcome.{configure_success}
use icon_hwm_controller.Cycle.{System, Label, Run}
use icon_hwm_controller.Cycle.Bounds.{IsSound, cycles_stay_defined}

-- The hardware module as the runtime gets it: over the loaned command interfaces, with what `Init` has
-- advertised, and nobody holds the lock.
abbrev pub initial :
    (loans : Loans) → Registry loans.Double → Hwm → List loans.CommandInterface → System loans
initial loans r h is = record {
  hwm = h;
  held = false;
  interfaces = is;
  joints = (init r h no_joints).1;
}

module _ (icon : Icon) (host : Host) (loans : Loans) (r : Registry loans.Double) where
  open loans use {Double, StateInterface, CommandInterface}

  -- The module that the plugin's settings make can write, and read the interfaces that the plugin claims.
  pub initial-IsSound :
      (c c' : Controller icon) (h : Hwm) (is : List CommandInterface)
      → on_configure icon host c ≡ done (CallbackReturn.success, c')
      → create (hwm_params c.settings) ≡ value h
      → BuildsFull r
      → (init r h no_joints).1.command_advertised ≡ true
      → length is ≡ length (command_interface_configuration c.settings)
      → length is < size_limit
      → length (state_interface_configuration c.settings) < size_limit
      → IsSound loans (length (state_interface_configuration c.settings)) (initial loans r h is)
  initial-IsSound c c' h is configured created full advertised lent small small' =
      let ((_, commands, reads, _), _) = configure_success icon host c c' configured in
      record {
        armed = configured-IsArmed loans c.settings h is created commands lent small;
        ready = λ states' len'.
            configured-IsReady loans r c.settings h states' full created reads len'
              (omega (arith, len', small')) advertised;
      }

  -- When `on_configure` succeeds, a `size_t` can count the interfaces that the plugin claims, and the
  -- hardware module that its settings make is lent as many command interfaces as the plugin claims and
  -- has advertised its interfaces at a registry that builds full buffers, then after any run of
  -- messages and cycles every command returns, and so does every read of as many state interfaces as
  -- the plugin claims: nothing steps out of range.
  pub configured_cycles :
      (c c' : Controller icon) (h : Hwm) (is : List CommandInterface) {t : System loans}
      {ls : List Label}
      → on_configure icon host c ≡ done (CallbackReturn.success, c')
      → create (hwm_params c.settings) ≡ value h
      → BuildsFull r
      → (init r h no_joints).1.command_advertised ≡ true
      → length is ≡ length (command_interface_configuration c.settings)
      → length is < size_limit
      → length (state_interface_configuration c.settings) < size_limit
      → Run loans (initial loans r h is) ls t
      → (acquired : Bool) (command : Expected (Command Double)) (states : List StateInterface)
        (now : ℕ)
      → length states ≡ length (state_interface_configuration c.settings)
      → (apply_command loans t.hwm acquired command t.interfaces ≢ undefined)
        × (read_status loans t.hwm states now t.joints ≢ undefined)
  configured_cycles c c' h is configured created full advertised lent small small' run acquired
        command states now len =
      cycles_stay_defined loans
        (initial-IsSound c c' h is configured created full advertised lent small small') run
        acquired command states now len
