-- ===== src/Logger/Examples.antt =====
-- Tests of the logger, and its theorems at concrete inputs.
use task_sched_x.Prelude.{◌≡◌, refl, List, [], ◌∷◌, ◌++◌, some, true, false, codes, arith}
use task_sched_x.Prelude.Int.{ℤ, pos, negsuc}
use task_sched_x.Decimal.{decimal, signed_text, zero_pad}
use task_sched_x.Logger.{
  Tm, Zone, new_logger, get_current_timestamp, put_time, log_calls, LogCall, infos, warns,
  sets_level, enables_console, warn,
}
use task_sched_x.Logger.Timestamp.{InRange, ReadsBack, get_current_timestamp-ReadsBack}
use task_sched_x.Logger.Filter.{log_calls_console, lines_of}

abbrev new_year : Tm
new_year = record { tm_year = 126; tm_mon = 0; tm_mday = 1; tm_hour = 9; tm_min = 5; tm_sec = 7 }

abbrev fixed_zone : Zone
fixed_zone t = some new_year

timestamp_text :
    get_current_timestamp fixed_zone (pos 12_034_567_890) ≡ codes "2026-01-01 09:05:07.034"
unfolding get_current_timestamp put_time decimal signed_text zero_pad
timestamp_text = refl

-- Half a second before 1970.
early_text :
    get_current_timestamp fixed_zone (negsuc 499_999_999) ≡ codes "2026-01-01 09:05:07.-500"
unfolding get_current_timestamp put_time decimal signed_text zero_pad
early_text = refl

new_year-InRange : InRange new_year
new_year-InRange = omega arith

get_current_timestamp-ReadsBack_example :
    ReadsBack new_year 12_034_567_890 (get_current_timestamp fixed_zone (pos 12_034_567_890))
get_current_timestamp-ReadsBack_example =
    get_current_timestamp-ReadsBack fixed_zone 12_034_567_890 new_year refl new_year-InRange

-- One message below the level, one at it, one after the console is switched off.
abbrev session : List (ℤ × LogCall)
session =
    (pos 1, sets_level warn)
    ∷ (pos 2, enables_console true)
    ∷ (pos 3, infos (codes "a"))
    ∷ (pos 4, warns (codes "b"))
    ∷ (pos 5, enables_console false)
    ∷ (pos 6, warns (codes "c"))
    ∷ []

log_calls_console_example :
    (log_calls fixed_zone session new_logger).console
    ≡ new_logger.console
      ++ lines_of fixed_zone new_logger.current_level new_logger.console_output session
log_calls_console_example = log_calls_console fixed_zone session new_logger
