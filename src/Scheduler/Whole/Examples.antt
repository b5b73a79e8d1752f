-- ===== src/Scheduler/Whole/Examples.antt =====
-- The theorems on the scheduler together with its pool, at concrete runs.
use task_sched_x.Prelude.{refl, none, codes, arith, update}
use task_sched_x.ThreadPool.{ready, new_pool, move_to}
use task_sched_x.ThreadPool.Steps.{start}
use task_sched_x.Scheduler.State.{new_scheduler}
use task_sched_x.Scheduler.Examples.{blank, slow}
use task_sched_x.Scheduler.Threads.{ended}
use task_sched_x.Scheduler.Threads.Steps.{program_of, schedules, begins}
use task_sched_x.Scheduler.Whole.{Whole, Reach, in_pool, in_threads, here, next}
use task_sched_x.Scheduler.Whole.Kept.{Agrees, whole-Agrees}

-- One worker, which has started.
abbrev worker_started : Whole
worker_started = record {
  threads = record {
    shared = new_scheduler (λ _. blank) 1 (codes "1");
    program = λ i. ended;
    carried = λ i. none;
  };
  pool = record (move_to 0 ready new_pool) { thread_counter = 1 };
}

has_started : Reach 1 (λ _. blank) 1 (codes "1") worker_started
unfolding new_pool
has_started = next here (in_pool _ (start 0 (omega arith) refl) refl)

-- A caller has come to the first action of `scheduleTask`.
abbrev caller_began : Whole
caller_began = record worker_started {
  threads = record (worker_started.threads) {
    program = update (λ i. ended) 1 (program_of (schedules slow));
  };
}

whole-Agrees_example : Agrees 1 (λ _. blank) 1 (codes "1") caller_began
whole-Agrees_example =
    whole-Agrees 1 (λ _. blank) 1 (codes "1")
      (next has_started (in_threads _ (begins 1 (schedules slow) (omega arith) refl refl) refl))
