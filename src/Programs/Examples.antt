-- ===== src/Programs/Examples.antt =====
-- Tests of the example programs, and their theorems at concrete inputs.
use task_sched_x.Scheduler.Ordering.Follows.{line}
use task_sched_x.Decimal.{decimal, zero_pad}
use task_sched_x.Scheduler.Loop.{fetch, hold_or_put_back, look_up, dispatch}
use task_sched_x.Scheduler.System.{fetches, looks_up, dispatches}
use task_sched_x.Scheduler.Ordering.Kept.{taken_in_order}
use task_sched_x.Scheduler.Ordering.{Runs, taken, plain, no_steps}
use task_sched_x.Prelude.{
  zero, suc, sym, ap, Bool, ◌≡◌, ◌≢◌, refl, true, false, none, some, [], ◌∷◌, ◌++◌, codes, find,
  update, arith, put, str_eq,
}
use task_sched_x.Prelude.Int.{pos, ◌+ℤ◌, scale}
use task_sched_x.Task.{Status, pending, completed, failed, format_id, Objects, runs_after, new_task}
use task_sched_x.Logger.{warns}
use task_sched_x.TaskQueue
use task_sched_x.TaskQueue.Order.{pops, IsSorted}
use task_sched_x.Scheduler.State.{Scheduler, Statistics, Outcome, returns, new_scheduler}
use task_sched_x.Scheduler.Client.{
  cancel_task, start, schedule_task, set_console_logging_enabled, set_log_level,
}
use task_sched_x.Scheduler.Threads.Steps.{
  Threads, Steps, queries as asks, begins, here, next, program_of,
}
use task_sched_x.Programs.{
  Runtime, prints, sleeps, reads_clock, reads_steady_clock, reads_usage, reads_leftover,
  reads_counter, constructs, sets_log_level, enables_console, sets_callback, schedules, cancels,
  reads_statistics, starts, stops, destroys, script_of, queries,
}
use task_sched_x.Programs.Calls.{in_seconds, new_config, create_scheduler, start_scheduler}
use task_sched_x.Programs.Prepare.{World, prepare}
use task_sched_x.Programs.Lifecycle.{Obeys, absent}
use task_sched_x.Programs.Ordered.{examples-Obey}
use task_sched_x.Programs.Started.{begun}
use task_sched_x.Programs.Cancelled.{cancelled_before_start, starts_now}
use task_sched_x.Programs.Cancelled
use task_sched_x.Programs.Fake.{invalid_id_missing, invalid_id_unknown}
use task_sched_x.Programs.Priorities.{
  priority_order, keys, launched-WellFormed, launched_empty, launched-single,
}
use task_sched_x.Programs.Priorities
use task_sched_x.Programs.Outcomes.{
  tasks_end_as_told, reported, timeout_stage, error_stage, statistics_stage, as_run,
}
use task_sched_x.Programs.Asked.{Oracle, asked, Then}
use task_sched_x.Programs.PerformanceBenchmark.{await_completed}
use task_sched_x.Programs.BasicUsage
use task_sched_x.Programs.CallbackMechanism
use task_sched_x.Programs.CustomSchedulingPolicies
use task_sched_x.Programs.ErrorHandling
use task_sched_x.Programs.PriorityScheduling
use task_sched_x.Programs.ProgressUpdates
use task_sched_x.Programs.RepeatableTasks
use task_sched_x.Programs.StatisticsMonitoring
use task_sched_x.Programs.TaskCancellation
use task_sched_x.Programs.TimeoutHandling
use task_sched_x.Programs.PerformanceBenchmark

abbrev swift : Runtime
swift = record {
  overhead = λ ds moment. 1000;
  rate = λ part whole. codes "0.0";
  throughput = λ tasks ms. codes "100.00";
}

abbrev still : World
still = record {
  clock = λ n. pos n;
  steady_clock = λ n. n;
  usage = λ n. record {
    user_seconds = 0;
    user_microseconds = 0;
    system_seconds = 0;
    system_microseconds = 0;
  };
  leftover = λ n. pos 7;
  counter = λ n i. 0;
}

abbrev memory : Objects
memory r = record {
  task_fn = none;
  start_time = pos 0;
  priority = pos 0;
  status = pending;
  is_repeatable = false;
  repeat_every = pos 0;
  timeout = pos 0;
  task_id = [];
}

examples-Obey_example :
    Obeys absent (script_of (BasicUsage.main swift))
    × Obeys absent (script_of (CallbackMechanism.main swift))
    × Obeys absent (script_of (CustomSchedulingPolicies.main swift))
    × Obeys absent (script_of (ErrorHandling.main swift))
    × Obeys absent (script_of (PriorityScheduling.main swift))
    × Obeys absent (script_of (ProgressUpdates.main swift))
    × Obeys absent (script_of (RepeatableTasks.main swift))
    × Obeys absent (script_of (StatisticsMonitoring.main swift))
    × Obeys absent (script_of (TaskCancellation.main swift))
    × Obeys absent (script_of (TimeoutHandling.main swift))
    × Obeys absent (script_of (PerformanceBenchmark.main swift 5))
examples-Obey_example = examples-Obey swift 5

-- Three tasks are made, from the identifier 1 on, and then `main` begins a query.
abbrev cancelled_threads : Threads
cancelled_threads = begun (Cancelled.stage swift still memory 1).shared

abbrev asking : Threads
asking = record cancelled_threads {
  program = update cancelled_threads.program 3 (program_of (asks (format_id 2)));
}

asking_reached : Steps 3 cancelled_threads asking
unfolding begun
asking_reached = next here (begins 3 (asks (format_id 2)) (omega arith) refl refl)

cancelled_before_start_example :
    (starts_now (Cancelled.stage swift still memory 1).rest ≡ true)
    × (((Cancelled.stage swift still memory 1).shared.objects 0).task_id ≡ format_id 1)
    × (asking.carried 2 ≢ some 0)
    × (find (format_id 1) asking.shared.active_tasks ≡ none)
cancelled_before_start_example =
    cancelled_before_start swift still memory 1 3 2 (omega arith) asking_reached

abbrev prioritised : Scheduler
prioritised = (Priorities.stage swift still memory 1).shared

-- A scheduler with one task of each kind in the hands of a worker.
abbrev at_work : Objects
at_work zero = as_run (timeout_stage swift still memory 1) 0
at_work (suc zero) = as_run (timeout_stage swift still memory 1) 1
at_work (suc (suc zero)) = as_run (timeout_stage swift still memory 1) 2
at_work (suc (suc (suc zero))) = as_run (error_stage swift still memory 1) 0
at_work (suc (suc (suc (suc zero)))) = as_run (statistics_stage swift still memory 1) 0
at_work (suc (suc (suc (suc (suc zero))))) = as_run (statistics_stage swift still memory 1) 1
at_work (suc (suc (suc (suc (suc (suc r)))))) = as_run (statistics_stage swift still memory 1) 2

abbrev working : Scheduler
working = record prioritised { objects = at_work; completion_callback = none }

tasks_end_as_told_example :
    (reported 0 (codes "1") 5 (pos 9) working ≡ completed)
    × (reported 1 (codes "1") 5 (pos 9) working ≡ Status.timeout)
    × (reported 2 (codes "1") 5 (pos 9) working ≡ completed)
    × (reported 3 (codes "1") 5 (pos 9) working ≡ failed)
    × (reported 4 (codes "1") 5 (pos 9) working ≡ completed)
    × (reported 5 (codes "1") 5 (pos 9) working ≡ failed)
    × (reported 6 (codes "1") 5 (pos 9) working ≡ Status.timeout)
tasks_end_as_told_example =
    tasks_end_as_told swift still memory 1 0 1 2 3 4 5 6 (codes "1") 5 (pos 9) working tt refl refl
      refl refl refl refl refl (omega arith) (omega arith)

-- A counter that is seen at as many as there were commands before, and other answers.
abbrev no_statistics : Statistics
no_statistics = record {
  total_tasks_scheduled = 0;
  tasks_completed = 0;
  tasks_failed = 0;
  tasks_cancelled = 0;
  tasks_timeout = 0;
}

abbrev growing : Oracle
growing n (prints text) = tt
growing n (sleeps ms) = tt
growing n reads_clock = pos n
growing n reads_steady_clock = n
growing n reads_usage = still.usage n
growing n reads_leftover = pos 7
growing n (reads_counter i) = n
growing n (constructs workers) = tt
growing n (sets_log_level level) = tt
growing n (enables_console enable) = tt
growing n (sets_callback callback) = tt
growing n (schedules c) = []
growing n (cancels id) = false
growing n (queries id) = completed
growing n reads_statistics = no_statistics
growing n starts = tt
growing n stops = tt
growing n destroys = tt

invalid_id_missing_example :
    (cancel_task (codes "invalid_id") asking.shared ≡ (
      returns false,
      record (asking.shared) {
        logged =
            asking.shared.logged
            ++ warns (codes "Attempted to cancel non-existent task: invalid_id") ∷ [];
      },
    ))
    × Then
        (cancels (codes "invalid_id"))
        (prints (codes "[⚠\u{fe0f}] Non-existent task could not be cancelled.\n"))
        (asked growing 0 (script_of (TaskCancellation.main swift)))
invalid_id_missing_example =
    invalid_id_missing swift still memory 1 3 growing (omega arith) asking_reached (λ n. sym (
      ap (λ (x : Outcome Bool × Scheduler). x.0)
        (invalid_id_unknown swift still memory 1 3 (omega arith) asking_reached)))

-- PriorityScheduling at work: the most urgent task is fetched, found, dispatched and taken by a worker.
abbrev launched : Scheduler
launched = start prioritised

abbrev first_taken : (s : Scheduler) × Runs launched (6 ∷ []) s
unfolding fetch start prepare PriorityScheduling.main new_config create_scheduler start_scheduler
    schedule_task set_console_logging_enabled set_log_level new_scheduler TaskQueue.pop
    TaskQueue.push TaskQueue.pq_push TaskQueue.priority_cmp runs_after new_task look_up dispatch
    decimal zero_pad ◌+ℤ◌ scale find str_eq format_id hold_or_put_back put
first_taken = (
  _,
  taken 6 []
      (plain (plain (plain no_steps (fetches (pos 100) _ refl refl) refl) (looks_up 6 refl) refl)
        (dispatches 6 refl) refl)
      refl refl,
)

priority_order_example :
    (keys prioritised.objects (pops (TaskQueue.size prioritised.task_queue) prioritised.task_queue)
      ≡ ((pos 0, pos 27)
          ∷ (pos 1, in_seconds 2 (pos 9))
          ∷ (pos 3, in_seconds 2 (pos 9))
          ∷ (pos 3, in_seconds 2 (pos 9))
          ∷ (pos 5, in_seconds 2 (pos 9))
          ∷ (pos 10, in_seconds 2 (pos 9))
          ∷ (pos 15, in_seconds 2 (pos 9))
          ∷ []))
    × IsSorted launched.objects (6 ∷ [] ++ line first_taken.0)
priority_order_example = priority_order swift still memory 1 (omega arith) first_taken.1

taken_in_order_example : IsSorted launched.objects (6 ∷ [] ++ line first_taken.0)
taken_in_order_example =
    taken_in_order (launched-WellFormed swift still memory 1 (omega arith))
      (launched_empty swift still memory 1).0 (launched_empty swift still memory 1).1
      (launched-single swift still memory 1) first_taken.1
