-- ===== src/Logger.antt =====
-- include/Logger.h and src/Logger.cpp: the logger with its level, its console switch and its lines.
--
-- The singleton is a value, and each method returns the next one; a method is one step, since it
-- holds `logMutex`. The system clock is an argument, in nanoseconds since 1970, a
-- signed count. `localtime_r` with
-- the time zone of the machine is a parameter, `none` where it fails.
pub mod Filter
pub mod Digits
pub mod Timestamp
mod Examples
use task_sched_x.Prelude.{
  ℕ, ◌+◌, ◌/◌, ◌%◌, ◌≡◌, refl, Bool, true, false, Option, some, List, [], ◌∷◌, ◌++◌, ltb,
  if◌then◌else◌, Bytes, codes,
}
use task_sched_x.Prelude.Int.{ℤ, quot_int, rem_int}
use task_sched_x.Decimal.{decimal, signed_text, zero_pad}

-- `Logger::Level`
pub data Level : Type 0 where
  debug info warn error none : Level

-- The value of the enumerator, by which levels are compared.
abbrev pub level_rank : Level → ℕ
level_rank debug = 0
level_rank info = 1
level_rank warn = 2
level_rank error = 3
level_rank none = 4

pub record Logger : Type 0 where
  pub current_level : Level
  pub console_output : Bool
  -- what was written to `std::cout`, a line each, the first line first
  pub console : List Bytes

-- The constructor, of the only instance.
abbrev pub new_logger : Logger
new_logger = record { current_level = none; console_output = false; console = [] }

-- The fields of `std::tm` that are read.
pub record Tm : Type 0 where
  pub tm_year : ℕ
  pub tm_mon : ℕ
  pub tm_mday : ℕ
  pub tm_hour : ℕ
  pub tm_min : ℕ
  pub tm_sec : ℕ

-- `Logger::levelToString`
unfoldable pub level_to_string : Level → Bytes
level_to_string debug = codes "DEBUG"
level_to_string info = codes "INFO"
level_to_string warn = codes "WARN"
level_to_string error = codes "ERROR"
level_to_string none = codes "NONE"

-- `Logger::setLevel`
unfoldable pub set_level : Level → Logger → Logger
set_level level l = record l { current_level = level }

-- `Logger::enableConsoleOutput`
unfoldable pub enable_console_output : Bool → Logger → Logger
enable_console_output enable l = record l { console_output = enable }

-- `std::put_time` with "%Y-%m-%d %H:%M:%S"
unfoldable pub put_time : Tm → Bytes
put_time tm =
    decimal (tm.tm_year + 1900)
    ++ (b'-'
        ∷ (zero_pad 2 (decimal (tm.tm_mon + 1))
            ++ (b'-'
                ∷ (zero_pad 2 (decimal tm.tm_mday)
                    ++ (b' '
                        ∷ (zero_pad 2 (decimal tm.tm_hour)
                            ++ (b':'
                                ∷ (zero_pad 2 (decimal tm.tm_min)
                                    ++ (b':' ∷ zero_pad 2 (decimal tm.tm_sec))))))))))

-- The time zone of the machine: `to_localtime_tm` on a `time_t`.
abbrev pub Zone : Type 0
Zone = ℤ → Option Tm

abbrev pub ns_per_ms : ℕ
ns_per_ms = 1_000_000

-- The milliseconds within the second; they are negative at a negative count.
abbrev pub millis : ℤ → ℤ
millis now = rem_int 1000 (quot_int ns_per_ms now)

-- `Logger::getCurrentTimestamp`
unfoldable pub get_current_timestamp : Zone → ℤ → Bytes
get_current_timestamp zone now =
    let time_t = quot_int 1_000_000_000 now in
    elim (zone time_t) [
      | Option.none ↦ signed_text time_t ++ (b'.' ∷ zero_pad 3 (signed_text (millis now)))
      | some tm ↦ put_time tm ++ (b'.' ∷ zero_pad 3 (signed_text (millis now)))
    ]

-- The line of a message.
unfoldable pub log_message : Zone → ℤ → Level → Bytes → Bytes
log_message zone now level message =
    codes "[TaskSchedX]["
    ++ (get_current_timestamp zone now
        ++ (codes "][" ++ (level_to_string level ++ (codes "] " ++ message))))

-- `Logger::log`, at the moment `now`
unfoldable pub log : Zone → ℤ → Level → Bytes → Logger → Logger
log zone now level message l =
    if ltb (level_rank level) (level_rank l.current_level)
    then l
    else if l.console_output
    then record l { console = l.console ++ log_message zone now level message ∷ [] }
    else l

-- A call of the logger: `debug`, `info`, `warn` and `error`, and the two settings.
pub data LogCall : Type 0 where
  debugs infos warns errors : Bytes → LogCall
  sets_level : Level → LogCall
  enables_console : Bool → LogCall

unfoldable pub log_call : Zone → ℤ → LogCall → Logger → Logger
log_call zone now (debugs message) l = log zone now debug message l
log_call zone now (infos message) l = log zone now info message l
log_call zone now (warns message) l = log zone now warn message l
log_call zone now (errors message) l = log zone now error message l
log_call zone now (sets_level level) l = set_level level l
log_call zone now (enables_console enable) l = enable_console_output enable l

-- Calls with their moments, one after another.
unfoldable pub log_calls : Zone → List (ℤ × LogCall) → Logger → Logger
log_calls zone [] l = l
log_calls zone ((now, c) ∷ cs) l = log_calls zone cs (log_call zone now c l)
