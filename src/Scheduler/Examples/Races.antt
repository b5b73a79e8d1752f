-- ===== src/Scheduler/Examples/Races.antt =====
-- The theorems on races and on a callback that throws, at concrete inputs.
use task_sched_x.Scheduler.Stopping.{StaysStopped, Steps-StaysStopped}
use task_sched_x.Scheduler.Tracking.Runs.{
  IsCalm, CalmSteps, nothing, and_then, registered_task_placed,
}
use task_sched_x.Scheduler.Examples.{blank, fresh, slow, fresh-room, first_id}
use task_sched_x.Scheduler.Throwing.{CompletedThenFailed, throwing_callback}
use task_sched_x.Scheduler.Races.{EndedTwice, cancelled_then_failed, cancelled_then_completed}
use task_sched_x.Scheduler.Loop.{fetch, hold_or_put_back, dispatch, look_up}
use task_sched_x.Scheduler.System.{schedule, here, next, Step, starts, fetches, looks_up, Steps}
use task_sched_x.Scheduler.Invariant.{Reach-WellFormed}
use task_sched_x.Prelude.{
  ◌≡◌, refl, true, false, none, some, [], ◌∷◌, ◌++◌, codes, find, put, str_eq, inl, inr,
}
use task_sched_x.Prelude.Int.{pos}
use task_sched_x.Decimal.{decimal, zero_pad}
use task_sched_x.Task.{format_id, new_task, execute, other_exception, completed, failed}
use task_sched_x.TaskQueue
use task_sched_x.Scheduler.State.{Scheduler, new_scheduler, returns, popped, checked, Callback}
use task_sched_x.Scheduler.Client.{
  TaskConfig, schedule_task, cancel_task, set_task_completion_callback, start,
}
use task_sched_x.Scheduler.WellFormed.{WellFormed, places}
use task_sched_x.Scheduler.Callbacks.{Quiet}
use task_sched_x.Scheduler.Execute.{execute_and_finalize_task, is_cancelled}
use task_sched_x.Scheduler.Outcomes.Defs.{is_late}

-- Tasks that fail, and that return at once.
abbrev failing : TaskConfig
failing = record slow {
  task_fn = some (λ moment. record { thrown = some other_exception; elapsed = 0 });
}

abbrev quick : TaskConfig
quick = record slow { task_fn = some (λ moment. record { thrown = none; elapsed = 0 }) }

abbrev under_way : TaskConfig → Scheduler
under_way c = start (schedule_task c fresh).1

abbrev taken_out : TaskConfig → Scheduler
taken_out c = record (under_way c) { task_queue = record { pq = [] }; loop = popped 0 }

-- The scheduler's thread has tested the only task.
abbrev with_one : TaskConfig → Scheduler
with_one c = look_up 0 (taken_out c)

with_one-WellFormed :
    (c : TaskConfig) → fetch (pos 8) (under_way c) ≡ some (taken_out c) → WellFormed (with_one c)
unfolding start schedule_task new_scheduler
with_one-WellFormed c e =
    Reach-WellFormed (λ _. blank) 1 (codes "2")
      (next
        (next (next (next here (schedule c fresh-room)) (starts (inr (inl refl))))
          (fetches (pos 8) (taken_out c) refl e))
        (looks_up 0 refl))

quick_fetched : fetch (pos 8) (under_way quick) ≡ some (taken_out quick)
unfolding fetch hold_or_put_back TaskQueue.pop schedule_task new_scheduler new_task TaskQueue.push
    TaskQueue.pq_push start
quick_fetched = refl

failing_fetched : fetch (pos 8) (under_way failing) ≡ some (taken_out failing)
unfolding fetch hold_or_put_back TaskQueue.pop schedule_task new_scheduler new_task TaskQueue.push
    TaskQueue.pq_push start
failing_fetched = refl

with_one_active : (c : TaskConfig) → find first_id (with_one c).active_tasks ≡ some 0
unfolding look_up start schedule_task new_scheduler new_task TaskQueue.push find put str_eq
    format_id zero_pad decimal
with_one_active c = refl

with_one-Quiet : (c : TaskConfig) → Quiet (with_one c).completion_callback
unfolding look_up start schedule_task new_scheduler new_task TaskQueue.push find put str_eq
    format_id zero_pad decimal
with_one-Quiet c = tt

failing_throws : (execute ((with_one failing).objects 0) 0).thrown ≡ some other_exception
unfolding execute look_up start schedule_task new_scheduler new_task TaskQueue.push find put str_eq
    format_id zero_pad decimal
failing_throws = refl

cancelled_then_failed_example :
    ((cancel_task first_id (with_one failing)).0 ≡ returns true)
    × EndedTwice failed first_id 0
        (with_one failing)
        (cancel_task first_id (with_one failing)).1
        (execute_and_finalize_task 0
          (codes "Thread-1")
          0
          (pos 9)
          (cancel_task first_id (with_one failing)).1).1
cancelled_then_failed_example =
    cancelled_then_failed first_id 0 (codes "Thread-1") 0 (pos 9) (with_one failing)
      (with_one-WellFormed failing failing_fetched) (with_one-Quiet failing)
      (with_one_active failing) other_exception failing_throws

quick_checked : (with_one quick).loop ≡ checked 0
unfolding look_up start schedule_task new_scheduler new_task TaskQueue.push find put str_eq
    format_id zero_pad decimal
quick_checked = refl

quick_returns :
    ((execute ((with_one quick).objects 0) 0).thrown ≡ none)
    × (is_late ((with_one quick).objects 0).timeout (execute ((with_one quick).objects 0) 0).elapsed
        ≡ false)
    × (((with_one quick).objects 0).is_repeatable ≡ false)
unfolding execute look_up start schedule_task new_scheduler new_task TaskQueue.push find put str_eq
    format_id zero_pad decimal
quick_returns = (refl, refl, refl)

cancelled_then_completed_example :
    ((cancel_task first_id (with_one quick)).0 ≡ returns true)
    × Step
        (cancel_task first_id (with_one quick)).1
        (dispatch 0 (cancel_task first_id (with_one quick)).1)
    × ((dispatch 0 (cancel_task first_id (with_one quick)).1).pending
        ≡ (with_one quick).pending ++ 0 ∷ [])
    × EndedTwice completed first_id 0
        (with_one quick)
        (cancel_task first_id (with_one quick)).1
        (execute_and_finalize_task 0
          (codes "Thread-1")
          0
          (pos 9)
          (dispatch 0 (cancel_task first_id (with_one quick)).1)).1
cancelled_then_completed_example =
    cancelled_then_completed first_id 0 (codes "Thread-1") 0 (pos 9) (with_one quick)
      (with_one-WellFormed quick quick_fetched) (with_one-Quiet quick) (with_one_active quick)
      quick_checked quick_returns.0 quick_returns.1 quick_returns.2

-- A callback that throws when it is told of a completion.
abbrev picky : Callback
picky n id completed = some other_exception
picky n id status = none

abbrev watched : Scheduler
watched = set_task_completion_callback (some picky) (with_one quick)

watched_callback : watched.completion_callback ≡ some picky
unfolding set_task_completion_callback
watched_callback = refl

watched_returns :
    ((execute (watched.objects 0) 0).thrown ≡ none)
    × (is_late (watched.objects 0).timeout (execute (watched.objects 0) 0).elapsed ≡ false)
    × (is_cancelled (watched.objects 0).status ≡ false)
unfolding set_task_completion_callback execute look_up start schedule_task new_scheduler new_task
    TaskQueue.push find put str_eq format_id zero_pad decimal
watched_returns = (refl, refl, refl)

throwing_callback_example :
    ((execute_and_finalize_task 0 (codes "Thread-1") 0 (pos 9) watched).0 ≡ returns tt)
    × CompletedThenFailed 0 watched
        (execute_and_finalize_task 0 (codes "Thread-1") 0 (pos 9) watched).1
throwing_callback_example =
    throwing_callback 0 (codes "Thread-1") 0 (pos 9) watched picky other_exception watched_callback
      watched_returns.0 watched_returns.1 watched_returns.2 refl refl

-- A scheduler whose thread is under way, without a callback.
quick-IsCalm : IsCalm (schedule_task quick fresh).1
unfolding schedule_task new_scheduler
quick-IsCalm = (tt, refl)

under_way-IsCalm : IsCalm (under_way quick)
unfolding start schedule_task new_scheduler
under_way-IsCalm = (tt, refl)

under_way_run : CalmSteps fresh (under_way quick)
unfolding start schedule_task new_scheduler
under_way_run =
    and_then (and_then nothing (schedule quick fresh-room) quick-IsCalm) (starts (inr (inl refl)))
      under_way-IsCalm

under_way_active : find first_id (under_way quick).active_tasks ≡ some 0
unfolding start schedule_task new_scheduler new_task TaskQueue.push find put str_eq format_id
    zero_pad decimal
under_way_active = refl

registered_task_placed_example : places 0 (under_way quick) ≡ 1
registered_task_placed_example =
    registered_task_placed (λ _. blank) 1 (codes "2") (under_way quick) first_id 0 under_way_run
      under_way_active

-- A scheduler that was stopped, is given a task and is started again.
abbrev halted : Scheduler
halted = record fresh { pool_stopped = true }

abbrev restarted : Scheduler
restarted = start (schedule_task quick halted).1

restart-Steps : Steps halted restarted
unfolding schedule_task new_scheduler
restart-Steps = next (next here (schedule quick fresh-room)) (starts (inr (inl refl)))

restart_runs : restarted.is_running ≡ true
unfolding start schedule_task new_scheduler
restart_runs = refl

Steps-StaysStopped_example : StaysStopped halted restarted
Steps-StaysStopped_example = Steps-StaysStopped restart-Steps refl
