-- ===== src/Logger/Timestamp.antt =====
-- The timestamp of a line.
use task_sched_x.Logger.Digits.{
  number_at, take-append, number_at-pad, number_at-behind, two_digits, length-two_digits, behind,
  here,
}
use mathlib.Core.List.{append_assoc, append-nil}
use task_sched_x.Prelude.{
  ℕ, suc, ◌+◌, ◌/◌, ◌%◌, ◌≤◌, ◌<◌, ◌≡◌, sym, ap, ◌∙◌, some, [], ◌∷◌, ◌++◌, length, length-append,
  Bytes, arith,
}
use task_sched_x.Prelude.Int.{pos}
use task_sched_x.Decimal.{
  signed_text, decimal, zero_pad, value_from, value_from-decimal, length-zero_pad_exact,
  length-decimal-le, length-decimal-ge,
}
use task_sched_x.Logger.{Tm, Zone, get_current_timestamp, put_time}

-- The milliseconds of a count of nanoseconds.
abbrev pub ms_of : ℕ → ℕ
ms_of now = now / 1_000_000 % 1000

-- What the C standard says of the fields of a `tm`, for a year from 1900, where `tm_year`
-- begins, to 9999.
pub record InRange (tm : Tm) : Type 0 where
  pub year : tm.tm_year < 8100
  pub mon : tm.tm_mon < 12
  pub mday : tm.tm_mday ≤ 31
  pub hour : tm.tm_hour < 24
  pub min : tm.tm_min < 60
  pub sec : tm.tm_sec ≤ 60

-- The fields of a timestamp, read at their places.
pub record ReadsBack (tm : Tm) (now : ℕ) (s : Bytes) : Type 0 where
  pub total : length s ≡ 23
  pub year : number_at 0 4 s ≡ tm.tm_year + 1900
  pub mon : number_at 5 2 s ≡ tm.tm_mon + 1
  pub mday : number_at 8 2 s ≡ tm.tm_mday
  pub hour : number_at 11 2 s ≡ tm.tm_hour
  pub min : number_at 14 2 s ≡ tm.tm_min
  pub sec : number_at 17 2 s ≡ tm.tm_sec
  pub ms : number_at 20 3 s ≡ ms_of now

module _ (tm : Tm) (now : ℕ) (fits : InRange tm) where
  abbrev year_text : Bytes
  year_text = decimal (tm.tm_year + 1900)

  length-year_text : length year_text ≡ 4
  length-year_text = omega (
    arith,
    fits.year,
    length-decimal-le (tm.tm_year + 1900) 3 (omega (arith, fits.year)),
    length-decimal-ge (tm.tm_year + 1900) 3 (omega arith),
  )

  length-ms_text : length (zero_pad 3 (decimal (ms_of now))) ≡ 3
  length-ms_text =
      length-zero_pad_exact 3 (decimal (ms_of now)) (length-decimal-le (ms_of now) 2 (omega arith))

  abbrev sec_text : Bytes
  sec_text = two_digits tm.tm_sec ++ b'.' ∷ zero_pad 3 (decimal (ms_of now))

  abbrev min_text : Bytes
  min_text = two_digits tm.tm_min ++ b':' ∷ sec_text

  abbrev hour_text : Bytes
  hour_text = two_digits tm.tm_hour ++ b':' ∷ min_text

  abbrev mday_text : Bytes
  mday_text = two_digits tm.tm_mday ++ b' ' ∷ hour_text

  abbrev mon_text : Bytes
  mon_text = two_digits (tm.tm_mon + 1) ++ b'-' ∷ mday_text

  behind_year :
      (k v : ℕ) → number_at (4 + suc k) v (year_text ++ b'-' ∷ mon_text) ≡ number_at k v mon_text
  behind_year k v = number_at-behind year_text 4 k v b'-' mon_text length-year_text

  behind_mon : (k v : ℕ) → number_at (2 + suc k) v mon_text ≡ number_at k v mday_text
  behind_mon k v = behind (tm.tm_mon + 1) k v b'-' mday_text (omega (arith, fits.mon))

  behind_mday : (k v : ℕ) → number_at (2 + suc k) v mday_text ≡ number_at k v hour_text
  behind_mday k v = behind tm.tm_mday k v b' ' hour_text (omega (arith, fits.mday))

  behind_hour : (k v : ℕ) → number_at (2 + suc k) v hour_text ≡ number_at k v min_text
  behind_hour k v = behind tm.tm_hour k v b':' min_text (omega (arith, fits.hour))

  behind_min : (k v : ℕ) → number_at (2 + suc k) v min_text ≡ number_at k v sec_text
  behind_min k v = behind tm.tm_min k v b':' sec_text (omega (arith, fits.min))

  behind_sec :
      (v : ℕ) → number_at (2 + suc 0) v sec_text ≡ number_at 0 v (zero_pad 3 (decimal (ms_of now)))
  behind_sec v =
      behind tm.tm_sec 0 v b'.' (zero_pad 3 (decimal (ms_of now))) (omega (arith, fits.sec))

  at_year : number_at 0 4 (year_text ++ b'-' ∷ mon_text) ≡ tm.tm_year + 1900
  at_year =
      ap (value_from 0) (take-append year_text 4 (b'-' ∷ mon_text) length-year_text)
      ∙ value_from-decimal (tm.tm_year + 1900)

  at_ms : number_at 0 3 (zero_pad 3 (decimal (ms_of now))) ≡ ms_of now
  at_ms =
      ap (number_at 0 3) (sym (append-nil (zero_pad 3 (decimal (ms_of now)))))
      ∙ number_at-pad 3 (ms_of now) [] (length-decimal-le (ms_of now) 2 (omega arith))

  total_length : length (year_text ++ b'-' ∷ mon_text) ≡ 23
  total_length = omega (
    arith,
    length-year_text,
    length-ms_text,
    length-append year_text (b'-' ∷ mon_text),
    length-append (two_digits (tm.tm_mon + 1)) (b'-' ∷ mday_text),
    length-append (two_digits tm.tm_mday) (b' ' ∷ hour_text),
    length-append (two_digits tm.tm_hour) (b':' ∷ min_text),
    length-append (two_digits tm.tm_min) (b':' ∷ sec_text),
    length-append (two_digits tm.tm_sec) (b'.' ∷ zero_pad 3 (decimal (ms_of now))),
    length-two_digits (tm.tm_mon + 1) (omega (arith, fits.mon)),
    length-two_digits tm.tm_mday (omega (arith, fits.mday)),
    length-two_digits tm.tm_hour (omega (arith, fits.hour)),
    length-two_digits tm.tm_min (omega (arith, fits.min)),
    length-two_digits tm.tm_sec (omega (arith, fits.sec)),
  )

  fields_read_back : ReadsBack tm now (year_text ++ b'-' ∷ mon_text)
  fields_read_back = record {
    total = total_length;
    year = at_year;
    mon = behind_year 0 2 ∙ here (tm.tm_mon + 1) _ (omega (arith, fits.mon));
    mday = behind_year 3 2 ∙ behind_mon 0 2 ∙ here tm.tm_mday _ (omega (arith, fits.mday));
    hour =
        behind_year 6 2
        ∙ behind_mon 3 2
        ∙ behind_mday 0 2
        ∙ here tm.tm_hour _ (omega (arith, fits.hour));
    min =
        behind_year 9 2
        ∙ behind_mon 6 2
        ∙ behind_mday 3 2
        ∙ behind_hour 0 2
        ∙ here tm.tm_min _ (omega (arith, fits.min));
    sec =
        behind_year 12 2
        ∙ behind_mon 9 2
        ∙ behind_mday 6 2
        ∙ behind_hour 3 2
        ∙ behind_min 0 2
        ∙ here tm.tm_sec _ (omega (arith, fits.sec));
    ms =
        behind_year 15 3
        ∙ behind_mon 12 3
        ∙ behind_mday 9 3
        ∙ behind_hour 6 3
        ∙ behind_min 3 3
        ∙ behind_sec 3
        ∙ at_ms;
  }

-- The timestamp as its seven fields in a row.
timestamp_fields :
    (zone : Zone) (now : ℕ) (tm : Tm)
    → zone (pos (now / 1_000_000_000)) ≡ some tm
    → get_current_timestamp zone (pos now)
      ≡ decimal (tm.tm_year + 1900)
        ++ (b'-'
            ∷ (two_digits (tm.tm_mon + 1)
                ++ (b'-'
                    ∷ (two_digits tm.tm_mday
                        ++ (b' '
                            ∷ (two_digits tm.tm_hour
                                ++ (b':'
                                    ∷ (two_digits tm.tm_min
                                        ++ (b':'
                                            ∷ (two_digits tm.tm_sec
                                                ++ (b'.'
                                                    ∷ zero_pad 3 (decimal (ms_of now)))))))))))))
unfolding get_current_timestamp put_time two_digits signed_text
timestamp_fields zone now tm e = rw (e, get_current_timestamp) (simp append_assoc)

-- When the clock stands at 1970 or later and the local time is in a year up to 9999, a timestamp has 23
-- characters, "YYYY-MM-DD HH:MM:SS.mmm", and the local time and the milliseconds of the clock are read
-- back from their places in it.
pub get_current_timestamp-ReadsBack :
    (zone : Zone) (now : ℕ) (tm : Tm)
    → zone (pos (now / 1_000_000_000)) ≡ some tm
    → InRange tm
    → ReadsBack tm now (get_current_timestamp zone (pos now))
get_current_timestamp-ReadsBack zone now tm e fits =
    rw (timestamp_fields zone now tm e) (fields_read_back tm now fits)
