-- ===== src/Session/Configured.antt =====
-- From the configuration of the plugin to any session of its hardware module.
use icon_hwm_controller.Prelude.{◌≡◌, ◌≢◌, ◌<◌, true, List, length}
use icon_hwm_controller.Status.{undefined, done, value}
use icon_hwm_controller.Hwm.Params.{Hwm, create}
use icon_hwm_controller.Hwm.Interfaces.{Loans, Registry, no_joints, init}
use icon_hwm_controller.Hwm.Strides.{size_limit}
use icon_hwm_controller.Hwm.Services.{Services, Trace}
use icon_hwm_controller.Controller.Params.{
  CallbackReturn, hwm_params, command_interface_configuration, state_interface_configuration,
}
use icon_hwm_controller.Controller.Params.Ready.{BuildsFull}
use icon_hwm_controller.Controller.Lifecycle.{Icon, Host, Controller, on_configure}
use icon_hwm_controller.Cycle.Configured.{initial, initial-IsSound}
use icon_hwm_controller.Session.{State, Call, answer, Event, Run}
use icon_hwm_controller.Session.Bounds.{IsFair, AllFair, Run-IsSound, answer-ne-undefined}

module _ (icon : Icon) (host : Host) (loans : Loans) (services : Services)
    (r : Registry loans.Double) where
  open loans use {CommandInterface}

  -- What the runtime gets.
  abbrev pub begun : Hwm → List CommandInterface → Trace → State loans
  begun h is t = record { module_state = initial loans r h is; trace = t }

  -- When `on_configure` succeeds, a `size_t` can count the interfaces that the plugin claims, and the
  -- hardware module that its settings make is lent as many command interfaces as the plugin claims and
  -- has advertised its interfaces, then after any session, whatever the runtime calls, whatever the other
  -- processes answer and whatever messages come in, every further call returns: nothing steps out of
  -- range. Registries are taken to build full buffers, and reads to be lent as many state interfaces as
  -- the plugin claims.
  pub configured_session :
      (c c' : Controller icon) (h : Hwm) (is : List CommandInterface) (t : Trace) {s : State loans}
      {es : List (Event loans services)} (x : Call loans)
      → on_configure icon host c ≡ done (CallbackReturn.success, c')
      → create (hwm_params c.settings) ≡ value h
      → BuildsFull r
      → (init r h no_joints).1.command_advertised ≡ true
      → length is ≡ length (command_interface_configuration c.settings)
      → length is < size_limit
      → length (state_interface_configuration c.settings) < size_limit
      → Run loans services (begun h is t) es s
      → AllFair loans services (length (state_interface_configuration c.settings)) es
      → IsFair loans services (length (state_interface_configuration c.settings)) x
      → answer loans services x s ≢ undefined
  configured_session c c' h is t {s} x configured created full advertised lent small small' run fair
        fair' =
      answer-ne-undefined loans services x s fair' (
        Run-IsSound loans services run fair (
          initial-IsSound icon host loans r c c' h is configured created full advertised lent small
            small'))
