-- ===== src/Scheduler/Threads/Examples.antt =====
-- The theorems on threads that interleave, at concrete inputs.
use task_sched_x.Scheduler.Threads.Ending.{loop_ends, loop_steps, EndsOrGoes}
use task_sched_x.Scheduler.System.{starts, stops, fetches}
use task_sched_x.Scheduler.Loop.{leave_loop, fetch}
use task_sched_x.Prelude.{
  ◌≡◌, ◌≢◌, refl, none, some, codes, find, put, str_eq, arith, ◌≤◌, update, inl, inr,
}
use task_sched_x.Prelude.Int.{pos}
use task_sched_x.Decimal.{decimal, zero_pad}
use task_sched_x.Task.{format_id, new_task}
use task_sched_x.Scheduler.State.{new_scheduler}
use task_sched_x.Scheduler.Client.{request_stop, start}
use task_sched_x.Scheduler.Examples.{blank, slow, first_id}
use task_sched_x.Scheduler.Threads.{ended, cancel_code, schedule_code, register}
use task_sched_x.Scheduler.Threads.Steps.{
  Threads, program_of, schedules, cancels, made, moved, advance, Steps, Reach, begins, moves, makes,
  queues, here, next, own,
}
use task_sched_x.Scheduler.Threads.Looping.{handed}
use task_sched_x.Scheduler.Threads.Exclusive.Kept.{Apart, threads-Apart}
use task_sched_x.Scheduler.Threads.Cancelled.{cancel_code-last}
use task_sched_x.Scheduler.Threads.Lost.Crossing.{crossed, crossing_loses_task}
use task_sched_x.Scheduler.WellFormed.{places}

-- Two workers, and a caller with the number 2, who is at the first action of `scheduleTask`.
abbrev calling : Threads
calling = record {
  shared = new_scheduler (λ _. blank) 1 (codes "2");
  program = update (λ i. ended) 2 (program_of (schedules slow));
  carried = λ i. none;
}

begun : Reach 2 (λ _. blank) 1 (codes "2") calling
begun = next here (begins 2 (schedules slow) (omega arith) refl refl)

-- The task is registered, and not queued yet.
abbrev registered : Threads
registered = advance 2 calling

has_registered : Reach 2 (λ _. blank) 1 (codes "2") registered
unfolding advance program_of schedule_code new_scheduler
has_registered = next begun (makes 2 slow _ refl (omega arith))

threads-Apart_example : Apart registered
threads-Apart_example = threads-Apart 2 (λ _. blank) 1 (codes "2") has_registered

-- Another thread, with the number 3, cancels the task at this moment.
abbrev cancelling : Threads
cancelling = record registered {
  program = update registered.program 3 (program_of (cancels first_id));
}

has_begun_cancelling : Reach 2 (λ _. blank) 1 (codes "2") cancelling
unfolding advance program_of schedule_code new_scheduler made
has_begun_cancelling = next has_registered (begins 3 (cancels first_id) (omega arith) refl refl)

abbrev cancelled_now : Threads
cancelled_now = advance 3 cancelling

-- The first thread reads the identifier, and puts the cancelled task in the queue.
abbrev queued_late : Threads
queued_late = advance 2 (advance 2 cancelled_now)

goes_on : Steps 2 cancelled_now queued_late
unfolding advance program_of schedule_code cancel_code new_scheduler moved made
goes_on = next (next here (moves 2 _ _ refl)) (queues 2 0 _ refl)

in_registry : find first_id cancelling.shared.active_tasks ≡ some 0
unfolding advance program_of schedule_code new_scheduler register new_task format_id find made put
    str_eq zero_pad decimal
in_registry = refl

cancel_code-last_example :
    (find first_id queued_late.shared.active_tasks ≡ none)
    × (handed 0 queued_late.shared ≤ handed 0 cancelling.shared)
    × (handed 0 cancelling.shared ≤ 1)
unfolding program_of advance schedule_code new_scheduler
cancel_code-last_example =
    cancel_code-last 2 (λ _. blank) 1 (codes "2") first_id 3 0 (λ _. ended) (λ _. ended)
      has_begun_cancelling refl in_registry goes_on

-- A scheduler that was started and stopped, before its thread took a step.
abbrev stopped_early : Threads
stopped_early = record {
  shared = request_stop (start (new_scheduler (λ _. blank) 1 (codes "2")));
  program = λ i. ended;
  carried = λ i. none;
}

has_stopped : Reach 2 (λ _. blank) 1 (codes "2") stopped_early
unfolding new_scheduler
has_stopped = next (next here (own _ (starts (inr (inl refl))) refl)) (own _ stops refl)

abbrev loop_left_now : Threads
loop_left_now = record stopped_early { shared = leave_loop stopped_early.shared }

unfoldable leaving : Steps 2 stopped_early loop_left_now
unfolding request_stop start new_scheduler fetch leave_loop
leaving = next here (own _ (fetches (pos 8) (leave_loop stopped_early.shared) refl refl) refl)

loop_ends_example : (loop_steps leaving ≤ 3) × EndsOrGoes loop_left_now.shared
unfolding request_stop leaving
loop_ends_example = loop_ends 2 (λ _. blank) 1 (codes "2") has_stopped refl leaving refl

-- Thread 3 is about to cancel the identifier that the task of thread 2 will get.
abbrev crossing_calls : Threads
crossing_calls = record calling {
  program = update calling.program 3 (program_of (cancels first_id));
}

crossing_calls_reached : Reach 2 (λ _. blank) 1 (codes "2") crossing_calls
crossing_calls_reached = next begun (begins 3 (cancels first_id) (omega arith) refl refl)

crossing_loses_task_example :
    Steps 2 crossing_calls (crossed 3 2 crossing_calls)
    × (find (format_id 1) (crossed 3 2 crossing_calls).shared.active_tasks ≡ some 0)
    × (places 0 (crossed 3 2 crossing_calls).shared ≡ 0)
    × ((crossed 3 2 crossing_calls).carried 1 ≢ some 0)
unfolding program_of new_scheduler
crossing_loses_task_example =
    crossing_loses_task 2 (λ _. blank) 1 (codes "2") 3 2 1 (λ _. ended) (λ _. ended) slow
      (λ _. ended) (λ _. ended) crossing_calls_reached (omega arith) refl refl (omega arith) here
