-- ===== src/Task/Id.antt =====
-- `Task::generateTaskId`: identifiers are distinct, and have at least eleven characters.
use task_sched_x.Prelude.{
  ℕ, zero, suc, ◌+◌, ◌%◌, ◌<◌, ◌≤◌, ◌≡◌, ◌≢◌, sym, ap, ◌∙◌, ◌∷◌, arith, Bytes, length,
}
use task_sched_x.Decimal.{
  value_from, decimal, value_from-decimal, value_from-zero_pad, length-zero_pad,
  length-zero_pad_exact, length-decimal-le,
}
use task_sched_x.Task.{format_id, generate_task_id, size_mod}

-- Reads the number back: the text behind the five characters of "task_".
unfoldable pub number_of : Bytes → ℕ
number_of (_ ∷ _ ∷ _ ∷ _ ∷ _ ∷ rest) = value_from 0 rest
number_of _ = 0

-- The number can be read back from an identifier, whatever its width.
pub number_of-format_id : (n : ℕ) → number_of (format_id n) ≡ n
unfolding number_of format_id
number_of-format_id n = value_from-zero_pad 6 (decimal n) ∙ value_from-decimal n

pub format_id-injective : (m n : ℕ) → format_id m ≡ format_id n → m ≡ n
format_id-injective m n e = sym (number_of-format_id m) ∙ ap number_of e ∙ number_of-format_id n

-- Identifiers have at least eleven characters, and exactly eleven for the numbers of six digits.
pub length-format_id :
    (n : ℕ) → (11 ≤ length (format_id n)) × (n < 1_000_000 → length (format_id n) ≡ 11)
unfolding format_id
length-format_id n = (
  omega (arith, length-zero_pad 6 (decimal n)),
  λ h. omega (arith, length-zero_pad_exact 6 (decimal n) (length-decimal-le n 5 h)),
)

-- The counter after `k` calls.
unfoldable pub counter_after : ℕ → ℕ → ℕ
unfolding generate_task_id
counter_after start zero = start
counter_after start (suc k) = (generate_task_id (counter_after start k)).1

counter_after_eq : (start k : ℕ) → start < size_mod → counter_after start k ≡ (start + k) % size_mod
unfolding counter_after
counter_after_eq start zero h = omega arith
counter_after_eq start (suc k) h = omega (arith, counter_after_eq start k h)

-- The identifiers drawn from the counter by two different calls differ, as long as fewer than 2 ^
-- 64 calls lie between them.
pub generate_task_id_distinct :
    (start i j : ℕ)
    → start < size_mod
    → i < j
    → j < i + size_mod
    → (generate_task_id (counter_after start i)).0 ≢ (generate_task_id (counter_after start j)).0
unfolding generate_task_id
generate_task_id_distinct start i j h lt few e = absurd (
    omega (
      arith,
      counter_after_eq start i h,
      counter_after_eq start j h,
      format_id-injective (counter_after start i) (counter_after start j) e,
    ))
