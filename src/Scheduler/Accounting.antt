-- ===== src/Scheduler/Accounting.antt =====
-- The statistics against the calls of the completion callback.
pub mod Rules
pub mod Counting
pub mod Runs
mod Examples
use task_sched_x.Prelude.{
  ℕ, ◌+◌, ◌%◌, ◌≡◌, ◌≢◌, refl, sym, inl, inr, Bool, Option, none, some, List, [], ◌∷◌, ◌++◌, Bytes,
  if◌then◌else◌, ◌==◌, arith, Option-cases, length, ◌≤◌,
}
use task_sched_x.Task.{Status, pending, running, completed, failed, cancelled, Exception, size_mod}
use task_sched_x.Scheduler.State.{
  Scheduler, invoke_callback, count_status, update_statistics, notify_task_completion, M, Outcome,
  returns, throws, continue, Statistics, increment,
}
use task_sched_x.Scheduler.State

-- The numbers of the states of a task, in the order of the `enum`.
abbrev pub number : Status → ℕ
number pending = 0
number running = 1
number completed = 2
number failed = 3
number cancelled = 4
number Status.timeout = 5

-- How often the callback was called with the status.
abbrev pub announced : Status → List (Bytes × Status) → ℕ
announced status [] = 0
announced status ((id, x) ∷ rest) =
    (if number x == number status then 1 else 0) + announced status rest

announced-append :
    (status : Status) (front back : List (Bytes × Status))
    → announced status (front ++ back) ≡ announced status front + announced status back
announced-append status [] back = omega arith
announced-append status ((id, x) ∷ rest) back = omega (arith, announced-append status rest back)

-- The counter of a final status.
abbrev pub counter : Status → Statistics → ℕ
counter completed st = st.tasks_completed
counter failed st = st.tasks_failed
counter cancelled st = st.tasks_cancelled
counter Status.timeout st = st.tasks_timeout
counter pending st = 0
counter running st = 0

abbrev pub IsFinal : Status → Type 0
IsFinal status = 2 ≤ number status

-- Each counter is the number of the announcements, as a `size_t`, and there is a callback.
pub record Counted (s : Scheduler) : Type 0 where
  pub counts :
      (status : Status)
      → IsFinal status
      → counter status s.stats ≡ announced status s.notified % size_mod
  pub heard : s.completion_callback ≢ none

-- An announcement that is counted.
abbrev pub told : Bytes → Status → Scheduler → Scheduler
told id status s = record s {
  stats = count_status status s.stats;
  notified = s.notified ++ (id, status) ∷ [];
}

counter-count_status :
    (status x : Status) (st : Statistics)
    → IsFinal status
    → counter status (count_status x st)
      ≡ (if number x == number status then increment (counter status st) else counter status st)
unfolding count_status
counter-count_status completed x st final = ground arith
counter-count_status failed x st final = ground arith
counter-count_status cancelled x st final = ground arith
counter-count_status Status.timeout x st final = ground arith
counter-count_status pending x st final = absurd (omega arith)
counter-count_status running x st final = absurd (omega arith)

pub told-Counted :
    (id : Bytes) (status : Status) (s : Scheduler) → Counted s → Counted (told id status s)
told-Counted id status s h = record {
  counts = λ x final. ground (
    arith,
    counter-count_status x status s.stats final,
    announced-append x s.notified ((id, status) ∷ []),
    h.counts x final,
  );
  heard = h.heard;
}
