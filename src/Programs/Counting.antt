-- ===== src/Programs/Counting.antt =====
-- The lambdas that count their calls.
use task_sched_x.Prelude.{ℕ, zero, suc, ◌+◌, ◌≡◌, refl, List, [], ◌∷◌, ◌++◌, Bytes, arith, codes}
use task_sched_x.Decimal.{decimal}
use task_sched_x.Programs.{Deed, counts, counts_aloud}
use task_sched_x.Programs.Deeds.{uttered}
use task_sched_x.Programs.PerformanceBenchmark.{cpu_task, io_task, mixed_task}
use task_sched_x.Programs.RepeatableTasks
use task_sched_x.Programs.TaskCancellation
use task_sched_x.Programs.StatisticsMonitoring

-- The counters after so many calls of a lambda, from those of the program's beginning.
unfoldable pub after_calls : ℕ → List Deed → ℕ → ℕ
after_calls zero ds = λ i. 0
after_calls (suc n) ds = (uttered ds (after_calls n ds)).1

after_calls_eq :
    (ds : List Deed) (i : ℕ)
    → ((cs : ℕ → ℕ) → (uttered ds cs).1 i ≡ cs i + 1)
    → (n : ℕ) → after_calls n ds i ≡ n
unfolding after_calls
after_calls_eq ds i once zero = refl
after_calls_eq ds i once (suc n) =
    omega (arith, once (after_calls n ds), after_calls_eq ds i once n)

-- A lambda that only prints its number.
counts_aloud_text :
    (i : ℕ) (before after : Bytes) (n : ℕ)
    → (uttered
        (counts_aloud i before after ∷ [])
        (after_calls n (counts_aloud i before after ∷ []))).0
      ≡ before ++ (decimal (n + 1) ++ (after ++ []))
unfolding uttered
counts_aloud_text i before after n =
    rw (after_calls_eq (counts_aloud i before after ∷ []) i (λ cs. ground arith) n) refl

-- What the call prints that comes after `n` others.
abbrev pub text_of_call : ℕ → List Deed → Bytes
text_of_call n ds = (uttered ds (after_calls n ds)).0

-- The `n + 1`-th call of a task of RepeatableTasks prints that number, and so does that of the repeated task
-- of TaskCancellation and of StatisticsMonitoring; and `n` calls of a task of PerformanceBenchmark
-- leave its counter at `n`, for each of its three bodies.
pub calls_numbered :
    (n : ℕ)
    → (text_of_call n RepeatableTasks.high_priority_deeds
        ≡ codes "HIGH PRIORITY Task executed (execution #" ++ (decimal (n + 1) ++ codes ")\n"))
      × (text_of_call n RepeatableTasks.medium_priority_deeds
          ≡ codes "MEDIUM PRIORITY Task executed (execution #" ++ (decimal (n + 1) ++ codes ")\n"))
      × (text_of_call n RepeatableTasks.low_priority_deeds
          ≡ codes "LOW PRIORITY Task executed (execution #" ++ (decimal (n + 1) ++ codes ")\n"))
      × (text_of_call n TaskCancellation.repeat_task_deeds
          ≡ codes "🔁 Repeat #" ++ (decimal (n + 1) ++ codes "\n"))
      × (text_of_call n StatisticsMonitoring.repeatable_deeds
          ≡ codes "🔁 Repeatable task run #" ++ (decimal (n + 1) ++ codes "\n"))
      × (after_calls n (cpu_task ++ counts 0 ∷ []) 0 ≡ n)
      × (after_calls n (io_task ++ counts 0 ∷ []) 0 ≡ n)
      × (after_calls n (mixed_task ++ counts 0 ∷ []) 0 ≡ n)
unfolding uttered
calls_numbered n = (
  counts_aloud_text 0 (codes "HIGH PRIORITY Task executed (execution #") (codes ")\n") n,
  counts_aloud_text 1 (codes "MEDIUM PRIORITY Task executed (execution #") (codes ")\n") n,
  counts_aloud_text 2 (codes "LOW PRIORITY Task executed (execution #") (codes ")\n") n,
  counts_aloud_text 1 (codes "🔁 Repeat #") (codes "\n") n,
  counts_aloud_text 0 (codes "🔁 Repeatable task run #") (codes "\n") n,
  after_calls_eq (cpu_task ++ counts 0 ∷ []) 0 (λ cs. ground arith) n,
  after_calls_eq (io_task ++ counts 0 ∷ []) 0 (λ cs. ground arith) n,
  after_calls_eq (mixed_task ++ counts 0 ∷ []) 0 (λ cs. ground arith) n,
)
