-- ===== src/Controller/Lifecycle/Complaints.antt =====
-- What a configuration asks of the settings: when it accepts them, and the first complaint otherwise.
use icon_hwm_controller.Prelude.{
  ℕ, ◌==◌, ℤ, pos, negsuc, ◌≡◌, ◌≢◌, refl, String, Bool, true, false, List, [], ◌∷◌, Option, none,
  some, arith, if◌then◌else◌, ◌&&◌, not, is_empty, empty_str, concat, decimal,
}
use icon_hwm_controller.Controller.Casts.{to_unsigned}
use icon_hwm_controller.Controller.Params.{Settings}
use icon_hwm_controller.Controller.Lifecycle.{check_frequency, check_settings}

-- The settings that a configuration accepts at an update rate. A frequency that is not positive stands
-- for any.
pub record IsAccepted (p : Settings) (rate : ℕ) : Type 0 where
  pub named : empty_str p.name ≡ false
  pub commands : p.command_interfaces ≢ []
  pub states : p.reference_and_state_interfaces ≢ []
  pub dofs : p.dof_names ≢ []
  pub frequency : (n : ℕ) → p.control_frequency_hz ≡ pos n → n ≢ 0 → to_unsigned n ≡ rate

-- The first thing that is wrong with some settings, and its text.
pub data Complaint (p : Settings) (rate : ℕ) : String → Type 0 where
  unnamed :
      empty_str p.name ≡ true → Complaint p rate "Parameter 'name' (ICON module name) is empty."
  no_commands :
      empty_str p.name ≡ false
      → p.command_interfaces ≡ []
      → Complaint p rate "Parameter 'command_interfaces' is empty."
  no_states :
      empty_str p.name ≡ false
      → p.command_interfaces ≢ []
      → p.reference_and_state_interfaces ≡ []
      → Complaint p rate "Parameter 'reference_and_state_interfaces' is empty."
  no_dofs :
      empty_str p.name ≡ false
      → p.command_interfaces ≢ []
      → p.reference_and_state_interfaces ≢ []
      → p.dof_names ≡ []
      → Complaint p rate "Parameter 'dof_names' is empty."
  other_rate :
      empty_str p.name ≡ false
      → p.command_interfaces ≢ []
      → p.reference_and_state_interfaces ≢ []
      → p.dof_names ≢ []
      → (n : ℕ) → p.control_frequency_hz ≡ pos n
      → n ≢ 0
      → to_unsigned n ≢ rate
      → Complaint p rate (
          concat (
            "Parameter 'control_frequency_hz' ("
            ∷ decimal n
            ∷ ") does not match update_rate ("
            ∷ decimal rate
            ∷ ")."
            ∷ []))

abbrev pub Verdict : Settings → ℕ → Option String → Type 0
Verdict p rate none = IsAccepted p rate
Verdict p rate (some text) = Complaint p rate text

-- A property of both branches, each under its test.
pub if-rule {ℓ κ} :
    {A : Type ℓ} (P : A → Type κ) (b : Bool) (x y : A)
    → (b ≡ true → P x)
    → (b ≡ false → P y)
    → P (if b then x else y)
if-rule P true x y v w = v refl
if-rule P false x y v w = w refl

eq_nil : (xs : List String) → is_empty xs ≡ true → xs ≡ []
eq_nil xs e = ground arith

ne_nil : (xs : List String) → is_empty xs ≡ false → xs ≢ []
ne_nil xs e n = ground arith

module _ (p : Settings) (rate : ℕ) where
  check_frequency-Verdict :
      (frequency : ℤ)
      → p.control_frequency_hz ≡ frequency
      → empty_str p.name ≡ false
      → p.command_interfaces ≢ []
      → p.reference_and_state_interfaces ≢ []
      → p.dof_names ≢ []
      → Verdict p rate (check_frequency frequency rate)
  unfolding check_frequency
  check_frequency-Verdict (negsuc k) at a b c d = record {
    named = a;
    commands = b;
    states = c;
    dofs = d;
    frequency = λ n e. absurd (ground arith);
  }
  check_frequency-Verdict (pos k) at a b c d =
      if-rule (Verdict p rate) (not (k == 0) && not (to_unsigned k == rate)) _ _
        (λ bad. other_rate a b c d k at (λ e. ground arith) (λ e. ground arith))
        (λ fine. record {
          named = a;
          commands = b;
          states = c;
          dofs = d;
          frequency = λ n e positive. ground arith;
        })

  pub check_settings-Verdict : Verdict p rate (check_settings p rate)
  unfolding check_settings
  check_settings-Verdict =
      if-rule (Verdict p rate) _ _ _ (λ e. unnamed e)
        (λ a.
          if-rule (Verdict p rate) _ _ _ (λ e. no_commands a (eq_nil p.command_interfaces e))
            (λ b.
              if-rule (Verdict p rate) _ _ _
                (λ e.
                  no_states a (ne_nil p.command_interfaces b)
                    (eq_nil p.reference_and_state_interfaces e))
                (λ c.
                  if-rule (Verdict p rate) _ _ _
                    (λ e.
                      no_dofs a (ne_nil p.command_interfaces b)
                        (ne_nil p.reference_and_state_interfaces c) (eq_nil p.dof_names e))
                    (λ d.
                      check_frequency-Verdict p.control_frequency_hz refl a
                        (ne_nil p.command_interfaces b) (ne_nil p.reference_and_state_interfaces c)
                        (ne_nil p.dof_names d)))))
