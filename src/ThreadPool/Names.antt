-- ===== src/ThreadPool/Names.antt =====
-- The names of the worker threads.
use task_sched_x.Prelude.{
  ℕ, zero, suc, ◌+◌, ◌≤◌, ◌<◌, ◌≡◌, refl, ap, ◌∙◌, [], ◌∷◌, arith, length, Bytes, codes,
}
use task_sched_x.Decimal.{decimal, value_from, value_from-decimal, length-decimal-le}
use task_sched_x.ThreadPool.{thread_name, take}

-- A text of at most `n` characters is not cut.
take_all : (n : ℕ) (s : Bytes) → length s ≤ n → take n s ≡ s
take_all zero [] h = refl
take_all zero (c ∷ s) h = absurd (omega arith)
take_all (suc n) [] h = refl
take_all (suc n) (c ∷ s) h = ap (λ (l : Bytes). c ∷ l) (take_all n s (omega arith))

-- The name that `ThreadPool` gives by default.
abbrev pub default_prefix : Bytes
default_prefix = codes "Thread"

thread_number : Bytes → ℕ
thread_number (_ ∷ _ ∷ _ ∷ _ ∷ _ ∷ _ ∷ _ ∷ rest) = value_from 0 rest
thread_number _ = 0

thread_number-thread_name :
    (i : ℕ) → i < 99_999_999 → thread_number (thread_name default_prefix i) ≡ i + 1
unfolding thread_number thread_name
thread_number-thread_name i h =
    ap (value_from 0) (take_all 8 (decimal (i + 1)) (length-decimal-le (i + 1) 7 (omega arith)))
    ∙ value_from-decimal (i + 1)

-- Under the default prefix the cut to 15 characters does no harm: two of the first 99,999,999
-- worker threads never have the same name.
pub thread_name_distinct :
    (i j : ℕ)
    → i < 99_999_999
    → j < 99_999_999
    → thread_name default_prefix i ≡ thread_name default_prefix j
    → i ≡ j
thread_name_distinct i j hi hj e =
    omega
      (arith, thread_number-thread_name i hi, thread_number-thread_name j hj, ap thread_number e)
