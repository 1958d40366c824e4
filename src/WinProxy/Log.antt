-- ===== src/WinProxy/Log.antt =====
-- cmd/win-sshproxy/event-hook.go and setupLogging of main.go: how a message becomes an event of Windows.
use gvisor_tap_vsock.Base.{
  ℕ, ◌-◌, Bool, true, false, List, [], ◌∷◌, ◌++◌, Text, codes, length, replicate, GoMap, leb,
  if◌then◌else◌,
}

-- The levels of logrus, from the gravest on
pub data Level : Type 0 where
  panic_level fatal_level error_level warn_level info_level debug_level trace_level : Level

pub record LogEntry : Type 0 where
  pub level : Level
  pub message : Text
  pub fields : GoMap Text Text

-- What is written to the event log: the kind of the event, its number and its text
pub data Event : Type 0 where
  error_event warning_event info_event : ℕ → Text → Event

abbrev pub level_string : Level → Text
level_string panic_level = codes "panic"
level_string fatal_level = codes "fatal"
level_string error_level = codes "error"
level_string warn_level = codes "warning"
level_string info_level = codes "info"
level_string debug_level = codes "debug"
level_string trace_level = codes "trace"

-- The verb %-5s
abbrev pub padded : Text → Text
padded s = s ++ replicate (5 - length s) 32

-- for key, value := range entry.Data
unfoldable pub format_fields : GoMap Text Text → Text
format_fields [] = []
format_fields ((key, value) ∷ fields) =
    codes " {" ++ (key ++ (codes " = " ++ (value ++ (codes "}" ++ format_fields fields))))

-- LogFormat.Format
unfoldable pub format : Text → LogEntry → Text
unfolding format_fields
format name entry =
    codes "["
    ++ (padded (level_string entry.level)
        ++ (codes "] "
            ++ (name
                ++ (codes ": " ++ (entry.message ++ (format_fields entry.fields ++ 10 ∷ []))))))

-- EventLogHook.Fire
unfoldable pub fire_level : Level → Text → Event
fire_level panic_level line = error_event 1002 line
fire_level fatal_level line = error_event 1001 line
fire_level error_level line = error_event 1000 line
fire_level warn_level line = warning_event 1000 line
fire_level info_level line = info_event 1000 line
fire_level debug_level line = info_event 1001 line
fire_level trace_level line = info_event 1001 line

unfoldable pub fire : Text → LogEntry → Event
unfolding format fire_level
fire name entry = fire_level entry.level (format name entry)

-- The rank of a level in logrus; a logger passes on what is not above its level.
abbrev pub rank : Level → ℕ
rank panic_level = 0
rank fatal_level = 1
rank error_level = 2
rank warn_level = 3
rank info_level = 4
rank debug_level = 5
rank trace_level = 6

-- The level that setupLogging sets
abbrev pub level_of : Bool → Level
level_of true = debug_level
level_of false = info_level

-- The events of a sequence of messages
unfoldable pub events : Bool → Text → List LogEntry → List Event
unfolding fire
events debug name [] = []
events debug name (entry ∷ entries) =
    let rest = events debug name entries in
    if leb (rank entry.level) (rank (level_of debug)) then fire name entry ∷ rest else rest
