-- ===== src/Controller/Logger.antt =====
-- The logger that the constructor of `IconHwmController` builds: entries of the ICON library become
-- calls of `rcutils_log`.
pub mod Printed
use icon_hwm_controller.Prelude.{
  ℕ, ◌-◌, ◌^◌, ℤ, pos, negsuc, String, Bool, List, ◌++◌, Option, none, some, not, ◌==◌,
  if◌then◌else◌, length,
}
use icon_hwm_controller.Controller.Casts.{clamp_cast}

-- The enumerators of `intrinsic::log::Logger::Severity`.
pub record LoggerSeverity : Type 0 where
  pub debug : ℕ
  pub info : ℕ
  pub warning : ℕ
  pub error : ℕ
  pub fatal : ℕ

-- The enumerators of `RCUTILS_LOG_SEVERITY`.
pub record RcutilsSeverity : Type 0 where
  pub unset : ℕ
  pub debug : ℕ
  pub info : ℕ
  pub warn : ℕ
  pub error : ℕ
  pub fatal : ℕ

unfoldable pub convert_severity : LoggerSeverity → RcutilsSeverity → ℕ → ℕ
convert_severity l r severity =
    if severity == l.debug
    then r.debug
    else if severity == l.info
    then r.info
    else if severity == l.warning
    then r.warn
    else if severity == l.error
    then r.error
    else if severity == l.fatal
    then r.fatal
    else r.unset

pub record SourceLocation : Type 0 where
  pub function_name : String
  pub file_name : String
  pub line_number : ℕ

-- The message is a view of bytes that no zero ends: `beyond` is what the memory holds behind it.
pub record LogEntry : Type 0 where
  pub severity : ℕ
  pub loc : SourceLocation
  pub msg : List ℕ
  pub beyond : List ℕ

-- The arguments of `rcutils_log`, whose format "%.*s" takes a precision and the bytes that a pointer
-- leads to.
pub record LogCall : Type 0 where
  pub location : SourceLocation
  pub severity : ℕ
  pub name : String
  pub precision : ℤ
  pub bytes : List ℕ

abbrev pub int_max : ℕ
int_max = 2 ^ 31 - 1

-- The constructor's lambda: the call that it makes, if the logger of that name is enabled.
unfoldable pub write_entry :
    LoggerSeverity
    → RcutilsSeverity
    → (is_enabled : String → ℕ → Bool) (name : String) → LogEntry
    → Option LogCall
write_entry l r is_enabled name entry =
    let severity = convert_severity l r entry.severity in
    if not (is_enabled name severity)
    then none
    else some (record {
      location = entry.loc;
      severity = severity;
      name = name;
      precision = clamp_cast (negsuc int_max) (pos int_max) (pos (length entry.msg));
      bytes = entry.msg ++ entry.beyond;
    })
