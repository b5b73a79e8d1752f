-- ===== src/Logger/Filter.antt =====
-- Which messages reach the console.
use mathlib.Core.List.{append_assoc, append-nil}
use task_sched_x.Prelude.{
  ◌≡◌, sym, ◌∙◌, Bool, ◌&&◌, Option, some, List, [], ◌∷◌, ◌++◌, leb, if◌then◌else◌, Bytes, arith,
}
use task_sched_x.Prelude.Int.{ℤ}
use task_sched_x.Logger.{
  Logger, Level, debug, info, warn, error, level_rank, LogCall, debugs, infos, warns, errors,
  sets_level, enables_console, log, log_call, log_calls, log_message, Zone, set_level,
  enable_console_output,
}

-- The level and the text of a message.
abbrev pub message_of : LogCall → Option (Level × Bytes)
message_of (debugs m) = some (debug, m)
message_of (infos m) = some (info, m)
message_of (warns m) = some (warn, m)
message_of (errors m) = some (error, m)
message_of (sets_level level) = Option.none
message_of (enables_console enable) = Option.none

-- The level in force after some calls: that of the last `setLevel`.
abbrev pub level_after : Level → List (ℤ × LogCall) → Level
level_after level [] = level
level_after level ((now, sets_level new) ∷ cs) = level_after new cs
level_after level ((now, c) ∷ cs) = level_after level cs

abbrev pub console_after : Bool → List (ℤ × LogCall) → Bool
console_after on [] = on
console_after on ((now, enables_console enable) ∷ cs) = console_after enable cs
console_after on ((now, c) ∷ cs) = console_after on cs

-- The line that one call adds, under the settings in force.
abbrev pub line_of : Zone → Level → Bool → ℤ → Option (Level × Bytes) → List Bytes
line_of zone level on now Option.none = []
line_of zone level on now (some (l, m)) =
    if on && leb (level_rank level) (level_rank l) then log_message zone now l m ∷ [] else []

-- The lines of a sequence of calls, each under the settings of the calls before it.
abbrev pub lines_of : Zone → Level → Bool → List (ℤ × LogCall) → List Bytes
lines_of zone level on [] = []
lines_of zone level on ((now, c) ∷ cs) =
    line_of zone level on now (message_of c)
    ++ lines_of zone (level_after level ((now, c) ∷ [])) (console_after on ((now, c) ∷ [])) cs

log_call_lem :
    (zone : Zone) (now : ℤ) (c : LogCall) (l : Logger)
    → log_call zone now c l ≡ record {
      current_level = level_after l.current_level ((now, c) ∷ []);
      console_output = console_after l.console_output ((now, c) ∷ []);
      console = l.console ++ line_of zone l.current_level l.console_output now (message_of c);
    }
unfolding log_call log set_level enable_console_output
log_call_lem zone now (debugs m) l = ground (arith, append-nil l.console)
log_call_lem zone now (infos m) l = ground (arith, append-nil l.console)
log_call_lem zone now (warns m) l = ground (arith, append-nil l.console)
log_call_lem zone now (errors m) l = ground (arith, append-nil l.console)
log_call_lem zone now (sets_level level) l = ground (arith, append-nil l.console)
log_call_lem zone now (enables_console enable) l = ground (arith, append-nil l.console)

-- Whatever is called in whatever order, the console shows exactly the messages whose level was at
-- least the level in force at their call, and only those made while console output was enabled,
-- in the order of the calls, each as one whole line.
pub log_calls_console :
    (zone : Zone) (cs : List (ℤ × LogCall)) (l : Logger)
    → (log_calls zone cs l).console ≡ l.console ++ lines_of zone l.current_level l.console_output cs
unfolding log_calls
log_calls_console zone [] l = sym (append-nil l.console)
log_calls_console zone ((now, c) ∷ cs) l =
    log_calls_console zone cs (log_call zone now c l)
    ∙ rw (log_call_lem zone now c l) (
        append_assoc l.console (line_of zone l.current_level l.console_output now (message_of c)) _)
