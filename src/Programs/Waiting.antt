-- ===== src/Programs/Waiting.antt =====
-- The loops in which the example programs wait: of PerformanceBenchmark, for its last task, and of
-- CustomSchedulingPolicies, second by second.
use task_sched_x.Prelude.{
  ℕ, zero, suc, ◌+◌, ◌*◌, ◌≤◌, ◌<◌, ◌≡◌, refl, ap, ◌∙◌, true, List, [], ◌∷◌, ◌++◌, Bytes, codes,
  arith, ltb, false,
}
use task_sched_x.Decimal.{decimal}
use task_sched_x.Scheduler.State.{Statistics}
use task_sched_x.Programs.{Command, sleeps, reads_counter, reads_statistics, Script, done}
use task_sched_x.Programs.Calls.{◌<<◌, endl, up_from, for_each}
use task_sched_x.Programs.Asked.{Oracle, asked, printed_at}
use task_sched_x.Programs.PerformanceBenchmark.{await_completed}
use task_sched_x.Programs.CustomSchedulingPolicies.{monitor_second}

-- So many rounds of the loop.
unfoldable pub polls : ℕ → List Command
polls zero = []
polls (suc j) = reads_counter 0 ∷ sleeps 10 ∷ polls j

-- The counter at the `i`-th look of a loop that begins after `n` commands.
abbrev pub seen : Oracle → ℕ → ℕ → ℕ
seen o n i = o (n + 2 * i) (reads_counter 0)

seen-later : (o : Oracle) (n i : ℕ) → seen o (n + 1 + 1) i ≡ seen o n (suc i)
seen-later o n i = ap (λ m. o m (reads_counter 0)) (omega arith)

seen-first : (o : Oracle) (n : ℕ) → seen o n 0 ≡ o n (reads_counter 0)
seen-first o n = ap (λ m. o m (reads_counter 0)) (omega arith)

-- The loop of `Benchmark::run` that waits for the tasks, when the counter is seen below their number at
-- the first `j` looks and not below at the next: it sleeps 10 milliseconds after each of those looks,
-- and then goes on with what follows. Any bound on its rounds above `j` is enough.
pub await_completed_ends :
    (o : Oracle) (n fuel num_tasks j : ℕ) (k : Unit {0} → Script)
    → ((i : ℕ) → i < j → seen o n i < num_tasks)
    → num_tasks ≤ seen o n j
    → j < fuel
    → asked o n (await_completed fuel num_tasks k)
      ≡ polls j ++ reads_counter 0 ∷ asked o (n + 2 * j + 1) (k tt)
unfolding await_completed asked polls
await_completed_ends o n zero num_tasks j k below reached enough = absurd (omega arith)
await_completed_ends o n (suc fuel) num_tasks zero k below reached enough =
    let look : ltb (o n (reads_counter 0)) num_tasks ≡ false =
      ground (arith, reached, seen-first o n) in
    rw look (ap (λ m. reads_counter 0 ∷ asked o m (k tt)) (omega arith))
await_completed_ends o n (suc fuel) num_tasks (suc j) k below reached enough =
    let look : ltb (o n (reads_counter 0)) num_tasks ≡ true =
      ground (arith, below 0 (omega arith), seen-first o n) in
    let following =
      await_completed_ends o (n + 1 + 1) fuel num_tasks j k
        (λ i lt. rw (seen-later o n i) (below (suc i) (omega arith)))
        (rw (seen-later o n j) reached) (omega arith) in
    rw look (
      ap (λ cs. reads_counter 0 ∷ sleeps 10 ∷ cs)
        (following ∙ ap (λ m. polls j ++ reads_counter 0 ∷ asked o m (k tt)) (omega arith)))

-- What the loop of CustomSchedulingPolicies says of a moment.
abbrev pub monitor_text : ℕ → Statistics → Bytes
monitor_text t stats =
    codes "[👀 MONITOR 👀] Time: "
    << decimal t
    << codes "s - Completed: "
    << decimal stats.tasks_completed
    << codes ", Total scheduled: "
    << decimal stats.total_tasks_scheduled
    << endl

-- The number `k` after `n`.
abbrev pub later : ℕ → ℕ → ℕ
later n zero = n
later n (suc k) = later n k + 1

-- The loop of CustomSchedulingPolicies prints four times, and each time a second late: it prints the
-- statistics under the times of 5, 10, 15 and 20 seconds when it has slept for 6, 11, 16 and 21.
pub monitor_late :
    (o : Oracle) (n : ℕ)
    → printed_at 0 (asked o n (for_each (up_from 0 21) monitor_second (λ _. done)))
      ≡ (6000, monitor_text 5 (o (later n 6) reads_statistics))
        ∷ (11000, monitor_text 10 (o (later n 13) reads_statistics))
        ∷ (16000, monitor_text 15 (o (later n 20) reads_statistics))
        ∷ (21000, monitor_text 20 (o (later n 27) reads_statistics))
        ∷ []
unfolding asked printed_at monitor_second
monitor_late o n = refl
