-- ===== src/Telemetry.antt =====
-- telemetry/handler.go and classify of telemetry/telemetry.go: records and their levels.
pub mod Limiter
pub mod Handler
pub mod Line
mod Tests
use lattice_runner.Base.{
  ℕ, zero, suc, ◌≡◌, refl, Bool, true, false, ℤ, pos, negsuc, ltb_ℤ, Text, if◌then◌else◌,
}

-- slog.Value: a string, another kind with its String(), the zero Value, or a group.
mutual
  pub data Value : Type 0 where
    str : Text → Value
    other : Text → Value
    nothing : Value
    group : Attrs → Value

  pub data Attrs : Type 0 where
    nil : Attrs
    attr : Text → Value → Attrs → Attrs

pub record Record : Type 0 where
  pub level : ℤ
  pub message : Text
  pub attrs : Attrs

unfoldable pub append : Attrs → Attrs → Attrs
append nil b = b
append (attr k v a) b = attr k v (append a b)

-- The levels of slog, four apart.
abbrev pub level_debug : ℤ
level_debug = negsuc 3

abbrev pub level_info : ℤ
level_info = pos 0

abbrev pub level_warn : ℤ
level_warn = pos 4

abbrev pub level_error : ℤ
level_error = pos 8

abbrev pub level_fatal : ℤ
level_fatal = pos 12

unfoldable pub is_info : ℤ → Bool
is_info (pos zero) = true
is_info _ = false

-- The levels of Monitor.
pub data MonitorLevel : Type 0 where
  debug info warn error fatal : MonitorLevel

unfoldable pub monitor_level : ℤ → MonitorLevel
monitor_level l =
    if ltb_ℤ l level_info
    then debug
    else if ltb_ℤ l level_warn
    then info
    else if ltb_ℤ l level_error
    then warn
    else if ltb_ℤ l level_fatal
    then error
    else fatal

unfoldable pub slog_level : MonitorLevel → ℤ
slog_level debug = level_debug
slog_level info = level_info
slog_level warn = level_warn
slog_level error = level_error
slog_level fatal = level_fatal

-- A level that Monitor has survives the way through slog, so a line that classify gave a level
-- reaches Monitor with that level.
pub monitor_level-slog_level : (l : MonitorLevel) → monitor_level (slog_level l) ≡ l
unfolding monitor_level slog_level
monitor_level-slog_level debug = refl
monitor_level-slog_level info = refl
monitor_level-slog_level warn = refl
monitor_level-slog_level error = refl
monitor_level-slog_level fatal = refl
