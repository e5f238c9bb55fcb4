-- ===== src/Tests/Starts.antt =====
-- The constructors of the vendor nodes over a middleware whose user sets no parameter, and an entry of
-- the log.
use icon_hwm_controller.Prelude.{
  ℕ, pos, ◌≡◌, ◌⊎◌, refl, true, false, [], ◌∷◌, none, some, arith, ltb_ℤ, ◌||◌, if◌then◌else◌, take,
}
use icon_hwm_controller.Ros.{
  Ros, Built, declare_publish_rate, declare_timeout, timer_period, create_entities,
}
use icon_hwm_controller.Serving.{IsRanged, IsServing, spun}
use icon_hwm_controller.Serving.Fanuc
use icon_hwm_controller.Serving.Khi
use icon_hwm_controller.Serving.Ur
use icon_hwm_controller.Serving.Vendors.{vendors_serve}
use icon_hwm_controller.Ur.Setup as UrSetup
use icon_hwm_controller.Fanuc.Setup as FanucSetup
use icon_hwm_controller.Khi.Setup as KhiSetup
use icon_hwm_controller.Ur.Node as UrNode
use icon_hwm_controller.Fanuc.Node as FanucNode
use icon_hwm_controller.Khi.Node as KhiNode
use icon_hwm_controller.Controller.Logger.{
  LoggerSeverity, RcutilsSeverity, LogEntry, LogCall, convert_severity, write_entry, int_max,
}
use icon_hwm_controller.Controller.Logger.Printed.{printed, logged_text}
use icon_hwm_controller.Controller.Message.Text.{c_text}

-- Numbers as doubles, and every default in its range.
abbrev untouched : Ros
untouched = record {
  Double = ℕ;
  literal = λ m d. m;
  divide = λ a b. a;
  to_nanoseconds = λ a. pos a;
  declare_double = λ name v d. some v;
  declare_integer =
      λ name v d. if ltb_ℤ v d.range.from_value || ltb_ℤ d.range.to_value v then none else some v;
  declare_string = λ name v. some v;
  is_valid_name = λ name. true;
}

untouched-IsRanged : IsRanged untouched
untouched-IsRanged name v d w e = ground (arith, e)

abbrev ur : Built UrNode.Node UrSetup.Handler
ur = UrSetup.built (pos 5) (pos 15) (UrSetup.entities (pos 1))

abbrev fanuc : Built FanucNode.Node FanucSetup.Handler
fanuc = FanucSetup.built (pos 5) (FanucSetup.entities (pos 1))

abbrev khi : Built KhiNode.Node KhiSetup.Handler
khi =
    KhiSetup.built (pos 5) (
      KhiSetup.entities (pos 1) (KhiSetup.default_topic (pos 0)) (KhiSetup.default_service (pos 0)))

ur_run : UrSetup.main_process untouched ≡ some (spun ur)
unfolding UrSetup.main_process declare_publish_rate declare_timeout timer_period create_entities
    UrSetup.entities
ur_run = refl

fanuc_run : FanucSetup.main_process untouched ≡ some (spun fanuc)
unfolding FanucSetup.main_process declare_publish_rate declare_timeout timer_period create_entities
    FanucSetup.entities
fanuc_run = refl

khi_built : KhiSetup.construct untouched ≡ some khi
unfolding KhiSetup.construct declare_publish_rate declare_timeout timer_period create_entities
    KhiSetup.entities KhiSetup.declare_controller_no
khi_built = refl

khi_run : KhiSetup.main_process untouched ≡ some (spun khi)
unfolding KhiSetup.main_process declare_publish_rate declare_timeout timer_period create_entities
    KhiSetup.entities KhiSetup.declare_controller_no
khi_run = refl

vendors_serve_example :
    Ur.IsUrServing (spun ur)
    × IsServing FanucNode.start Fanuc.publishing FanucSetup.clear_faults_callback (spun fanuc)
    × IsServing KhiNode.start Khi.publishing KhiSetup.clear_faults_callback (spun khi)
vendors_serve_example = vendors_serve untouched untouched-IsRanged ur_run fanuc_run khi_run

abbrev levels : LoggerSeverity
levels = record { debug = 0; info = 1; warning = 2; error = 3; fatal = 4 }

abbrev rcutils : RcutilsSeverity
rcutils = record { unset = 0; debug = 10; info = 20; warn = 30; error = 40; fatal = 50 }

abbrev entry : LogEntry
entry = record {
  severity = 3;
  loc = record { function_name = "run"; file_name = "runtime.cc"; line_number = 12 };
  msg = 104 ∷ 105 ∷ [];
  beyond = 120 ∷ [];
}

logged_text_example :
    let severity = convert_severity levels rcutils 3 in
    ((true ≡ false) × (write_entry levels rcutils (λ name s. true) "icon" entry ≡ none))
    ⊎ ((true ≡ true)
        × (c : LogCall) × (write_entry levels rcutils (λ name s. true) "icon" entry ≡ some c)
        × (c.location ≡ entry.loc)
        × (c.severity ≡ severity)
        × (printed c ≡ c_text (take int_max entry.msg)))
logged_text_example = logged_text levels rcutils (λ name s. true) "icon" entry
