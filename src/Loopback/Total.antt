-- ===== src/Loopback/Total.antt =====
-- A command that goes through and comes back: nothing is assumed of the two calls but what they start
-- from.
use icon_hwm_controller.Prelude.{
  ℕ, ◌≡◌, ◌≢◌, refl, ◌∙◌, ◌⊎◌, Bool, false, List, [], ◌∷◌, map, arith, length, length-map,
}
use icon_hwm_controller.Status.{ok_status, done, value}
use icon_hwm_controller.Hwm.Params.{Hwm}
use icon_hwm_controller.Hwm.Interfaces.{Loans, Joints}
use icon_hwm_controller.Hwm.Read.{read_status}
use icon_hwm_controller.Hwm.Read.Copies.{IsReady}
use icon_hwm_controller.Hwm.Read.Answers.{Answering, read_succeeds}
use icon_hwm_controller.Hwm.Apply.{Command, apply_command}
use icon_hwm_controller.Hwm.Apply.Bounds.{IsArmed, apply_command-length}
use icon_hwm_controller.Hwm.Apply.Guards.{Forbids, Fits}
use icon_hwm_controller.Hwm.Apply.Accepts.{Accepts, command_succeeds}
use icon_hwm_controller.Loopback.{Mirrors, loopback}

module _ (loans : Loans) (mirror : loans.CommandInterface → loans.StateInterface) where
  open loans use {Double, StateInterface, CommandInterface}

  -- Hardware that accepts every value, shows it in the mirrored state interface, and has a reading in
  -- each state interface.
  pub record IsFaithful : Type 0 where
    pub mirrors : Mirrors loans mirror
    pub accepts : Accepts loans
    pub answers : Answering loans

  -- The two calls, and what the second one reads.
  pub record Returns (h : Hwm) (acquired : Bool) (c : Command Double) (is : List CommandInterface)
      (now : ℕ) (j : Joints Double) : Type 0 where
    pub interfaces : List CommandInterface
    pub wrote : apply_command loans h acquired (value c) is ≡ done (ok_status, interfaces)
    pub joints : Joints Double
    pub read : read_status loans h (map mirror interfaces) now j ≡ done (ok_status, joints)
    pub positions : joints.position.values ≡ c.position
    pub velocities :
        (h.params.has_velocity_command ≡ false)
        ⊎ (h.params.has_velocity_state ≡ false)
        ⊎ (joints.velocity.values ≡ c.velocity_feedforward)

  map-ne : (is : List CommandInterface) → is ≢ [] → map mirror is ≢ []
  map-ne [] n = absurd (n refl)
  map-ne (x ∷ xs) n = λ e. ground (arith, e)

  same_length-ne : (is is' : List CommandInterface) → length is' ≡ length is → is ≢ [] → is' ≢ []
  same_length-ne [] is' len n = absurd (n refl)
  same_length-ne (x ∷ xs) is' len n = λ e. ground (arith, e, len)

  -- Over faithful hardware, a module in full groups of as many command as state interfaces, whose latest
  -- status does not forbid motion, takes every command with a position and a velocity for each joint;
  -- the read after it succeeds, and the position buffer is then the position command, and so is the
  -- velocity buffer the velocity command where the module both commands and reads velocities.
  pub command_comes_back :
      (h : Hwm) (acquired : Bool) (c : Command Double) (is : List CommandInterface) (now : ℕ)
      (j : Joints Double)
      → IsFaithful
      → h.params.state_stride ≡ h.params.command_stride
      → IsArmed loans h is
      → ((states : List StateInterface) → length states ≡ length is → IsReady loans h states j)
      → ¬ Forbids h.latest_operational_status
      → Fits loans h c
      → is ≢ []
      → Returns h acquired c is now j
  command_comes_back h acquired c is now j v strides armed ready free fits some_lent =
      let (is', wrote) =
        command_succeeds loans h acquired c is v.accepts armed free fits some_lent in
      let len = apply_command-length loans h acquired (value c) is is' ok_status wrote in
      let shown = ready (map mirror is') (length-map mirror is' ∙ len) in
      let (j', read) =
        read_succeeds loans h (map mirror is') now j v.answers shown
          (map-ne is' (same_length-ne is is' len some_lent)) in
      let (positions, velocities) =
        loopback loans mirror h acquired c is is' ok_status ok_status now j j' v.mirrors strides
          armed shown wrote refl read refl in
      record {
        interfaces = is';
        wrote = wrote;
        joints = j';
        read = read;
        positions = positions;
        velocities = velocities;
      }
