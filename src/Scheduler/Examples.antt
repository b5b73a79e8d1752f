-- ===== src/Scheduler/Examples.antt =====
-- Tests of the scheduler, and its theorems at concrete inputs.
mod Races
use task_sched_x.TaskQueue.Order.{IsSorted}
use task_sched_x.Scheduler.Throwing.{CompletedThenFailed, throwing_callback}
use task_sched_x.Scheduler.Races.{EndedTwice, cancelled_then_failed, cancelled_then_completed}
use task_sched_x.Scheduler.Dispatching.{Taken, fetch-Taken, head_of_line}
use task_sched_x.Scheduler.Loop.{fetch, wake, hold_or_put_back, dispatch, look_up}
use task_sched_x.TaskQueue.Cancel.{mem}
use task_sched_x.Logger.{warns}
use task_sched_x.Scheduler.Frames.Execution.{execute-Settled, Settled}
use task_sched_x.Scheduler.System.{schedule, here, next, Step, starts, fetches, looks_up}
use task_sched_x.Scheduler.Invariant.{
  new_scheduler-WellFormed, schedule-WellFormed, Step-WellFormed, Reach-WellFormed,
}
use task_sched_x.Prelude.{
  ◌≡◌, refl, true, false, none, some, [], ◌∷◌, ◌++◌, Bytes, codes, find, put, str_eq, arith, ◌+◌,
  ◌<◌, ℕ, count, List, inl, inr,
}
use task_sched_x.Prelude.Int.{pos, ◌<ℤ◌, ◌≤ℤ◌, ℤ, negsuc}
use task_sched_x.Decimal.{decimal, signed_text, zero_pad}
use task_sched_x.Task.{
  Task, pending, format_id, new_task, execute, size_mod, other_exception, completed, failed,
}
use task_sched_x.TaskQueue
use task_sched_x.Scheduler.State.{
  Scheduler, new_scheduler, returns, at_head, popped, checked, sleeping, Callback,
}
use task_sched_x.Scheduler.Client.{
  TaskConfig, schedule_task, cancel_task, set_task_completion_callback, start, to_string,
}
use task_sched_x.Scheduler.WellFormed.{WellFormed}
use task_sched_x.Scheduler.Callbacks.{Quiet}
use task_sched_x.Scheduler.Scheduling.{Scheduled, schedule_task_lem}
use task_sched_x.Scheduler.Cancelling.{ActiveCancelled, cancel_task_active}
use task_sched_x.Scheduler.Cancelling.Again.{CancelledAgain, cancel_task_twice, cancel_task_unknown}
use task_sched_x.Scheduler.Execute.{execute_and_finalize_task, is_cancelled}
use task_sched_x.Scheduler.Outcomes.Defs.{Ends, verdict, times_out, is_late}
use task_sched_x.Scheduler.Outcomes.Theorem.{execute_and_finalize_task-Ends}

-- An object that no scheduler has made.
abbrev pub blank : Task
blank = record {
  task_fn = none;
  start_time = pos 0;
  priority = pos 0;
  status = pending;
  is_repeatable = false;
  repeat_every = pos 10;
  timeout = pos 60;
  task_id = [];
}

abbrev pub fresh : Scheduler
fresh = new_scheduler (λ _. blank) 1 (codes "2")

-- A task that takes three seconds.
abbrev pub slow : TaskConfig
slow = record {
  task_fn = some (λ moment. record { thrown = none; elapsed = 3_000_000_000 });
  start_time = pos 5;
  priority = pos 1;
  is_repeatable = false;
  repeat_every = pos 10;
  timeout = pos 2;
}

fresh-WellFormed : WellFormed fresh
fresh-WellFormed = new_scheduler-WellFormed (λ _. blank) 1 (codes "2")

schedule_task_lem_example :
    Scheduled slow fresh (schedule_task slow fresh).0 (schedule_task slow fresh).1
schedule_task_lem_example = schedule_task_lem slow fresh fresh-WellFormed

abbrev pub first_id : Bytes
first_id = format_id 1

abbrev one_task : Scheduler
one_task = (schedule_task slow fresh).1

pub fresh-room : fresh.next_id + 1 < size_mod
unfolding new_scheduler
fresh-room = omega arith

one_task-WellFormed : WellFormed one_task
one_task-WellFormed = schedule-WellFormed slow fresh fresh-room fresh-WellFormed

one_task-Quiet : Quiet one_task.completion_callback
unfolding schedule_task new_scheduler
one_task-Quiet = tt

one_task-active : find first_id one_task.active_tasks ≡ some 0
unfolding schedule_task new_scheduler new_task TaskQueue.push find put str_eq format_id zero_pad
    decimal
one_task-active = refl

one_task-queue : mem 0 one_task.task_queue.pq ≡ true
unfolding schedule_task new_scheduler new_task TaskQueue.push TaskQueue.pq_push
one_task-queue = refl

cancel_task_active_example :
    ((cancel_task first_id one_task).0 ≡ returns true)
    × ActiveCancelled first_id 0 one_task (cancel_task first_id one_task).1
cancel_task_active_example =
    cancel_task_active first_id 0 one_task one_task-WellFormed one_task-Quiet one_task-active

cancel_task_twice_example : CancelledAgain first_id one_task
cancel_task_twice_example =
    cancel_task_twice first_id 0 one_task one_task-WellFormed one_task-Quiet one_task-active
      one_task-queue

execute_and_finalize_task-Ends_example :
    ((execute_and_finalize_task 0 (codes "Thread-1") 0 (pos 8) one_task).0 ≡ returns tt)
    × Ends
        (verdict (one_task.objects 0) (execute (one_task.objects 0) 0))
        0
        (pos 8)
        one_task
        (execute_and_finalize_task 0 (codes "Thread-1") 0 (pos 8) one_task).1
execute_and_finalize_task-Ends_example =
    execute_and_finalize_task-Ends 0 (codes "Thread-1") 0 (pos 8) one_task one_task-Quiet

slow-late : verdict (one_task.objects 0) (execute (one_task.objects 0) 0) ≡ times_out
unfolding schedule_task new_scheduler new_task TaskQueue.push execute
slow-late = refl

Reach-WellFormed_example : WellFormed one_task
Reach-WellFormed_example =
    Reach-WellFormed (λ _. blank) 1 (codes "2") (next here (schedule slow fresh-room))

-- The scheduler runs, and its thread stands at the head of its loop.
abbrev started : Scheduler
started = record one_task { is_running = true; loop = at_head }

abbrev picked : Scheduler
picked = record started { task_queue = record { pq = [] }; loop = popped 0 }

one_task_picked : fetch (pos 8) started ≡ some picked
unfolding fetch hold_or_put_back TaskQueue.pop schedule_task new_scheduler new_task TaskQueue.push
    TaskQueue.pq_push
one_task_picked = refl

one_task-IsSorted : IsSorted one_task.objects one_task.task_queue.pq
one_task-IsSorted = one_task-WellFormed.sorted

fetch-Taken_example : Taken (pos 8) 0 started picked
fetch-Taken_example =
    fetch-Taken (pos 8) 0 started picked one_task-IsSorted refl one_task_picked refl

started_queue : started.task_queue.pq ≡ 0 ∷ []
unfolding schedule_task new_scheduler new_task TaskQueue.push TaskQueue.pq_push
started_queue = refl

started_early : pos 4 <ℤ (started.objects 0).start_time
unfolding schedule_task new_scheduler new_task TaskQueue.push
started_early = omega arith

head_of_line_example :
    (t : Scheduler) × (fetch (pos 4) started ≡ some t)
    × (t.loop ≡ sleeping (started.objects 0).start_time)
    × ((x : ℕ) → count x t.task_queue.pq ≡ count x started.task_queue.pq)
    × ((later : ℤ)
        → later <ℤ (started.objects 0).start_time
        → wake later (started.objects 0).start_time t ≡ none)
    × ((later : ℤ)
        → (started.objects 0).start_time ≤ℤ later
        → wake later (started.objects 0).start_time t ≡ some (record t { loop = at_head }))
head_of_line_example = head_of_line (pos 4) 0 [] started refl started_queue started_early

slow_text :
    to_string (record slow { start_time = negsuc 1_500_000_000; priority = negsuc 2 })
    ≡ codes
        "TaskConfig(taskFn=set, startTime=-1, priority=-3, isRepeatable=false, repeatEvery=10s, timeout=2s)"
unfolding to_string decimal signed_text
slow_text = refl
