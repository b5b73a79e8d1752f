-- ===== src/Scheduler/Invariant/Steps.antt =====
-- Each action keeps `WellFormed`.
use task_sched_x.Scheduler.Invariant.Loop.{
  fetch-WellFormed, wake-WellFormed, look_up-WellFormed, dispatch-WellFormed,
}
use task_sched_x.Scheduler.Invariant.Cancel.{cancel-WellFormed}
use task_sched_x.Scheduler.Invariant.Schedule.{schedule-WellFormed, new_scheduler-WellFormed}
use task_sched_x.Prelude.{ℕ, refl, inl, inr, Bytes, find, arith, Bool-cases, Option-cases}
use task_sched_x.Task.{Objects}
use task_sched_x.Scheduler.State.{Scheduler}
use task_sched_x.Scheduler.WellFormed.{WellFormed}
use task_sched_x.Scheduler.Client.{
  get_task_status, start, request_stop, set_task_completion_callback,
}
use task_sched_x.Scheduler.Execute.{execute_and_finalize_task}
use task_sched_x.Scheduler.Frames.Execution.{execute-Settled}
use task_sched_x.Scheduler.System.{
  Step, Steps, Reach, schedule, cancel, query, set_callback, starts, stops, stops_pool, discards,
  fetches, wakes, looks_up, dispatches, takes, executes, here, next,
}
use task_sched_x.Scheduler.Invariant.Shrinking.{
  Shrinks-WellFormed, worked-Shrinks, Calm, Calm-WellFormed,
}

pub query-Calm : (id : Bytes) (s : Scheduler) → Calm s (get_task_status id s).1
unfolding get_task_status
query-Calm id s = elim (Option-cases (find id s.active_tasks)) [
  | inr (r, e) ↦ rw (e, get_task_status) (refl, refl, refl, refl, refl, λ x. omega arith)
  | inl e ↦ elim (Option-cases (find id s.completed_tasks)) [
    | inr (status, k) ↦ rw (e, get_task_status, k) (refl, refl, refl, refl, refl, λ x. omega arith)
    | inl k ↦ rw (e, get_task_status, k) (refl, refl, refl, refl, refl, λ x. omega arith)
  ]
]

start-Calm : (s : Scheduler) → Calm s (start s)
unfolding start
start-Calm s = elim (Bool-cases s.is_running) [
  | inl run ↦ rw (run, start) (refl, refl, refl, refl, refl, λ x. omega arith)
  | inr off ↦ rw (off, start) (refl, refl, refl, refl, refl, λ x. omega arith)
]

-- Every action of every thread keeps the invariant, whatever the tasks and the callback throw,
-- while fewer than 2 ^ 64 tasks are made.
pub Step-WellFormed : {s t : Scheduler} → Step s t → WellFormed s → WellFormed t
unfolding request_stop set_task_completion_callback
Step-WellFormed {s} (schedule c room) v = schedule-WellFormed c s room v
Step-WellFormed {s} (cancel id) v = cancel-WellFormed id s v
Step-WellFormed {s} (query id) v = Calm-WellFormed (query-Calm id s) v
Step-WellFormed (set_callback callback) v =
    Calm-WellFormed (refl, refl, refl, refl, refl, λ x. omega arith) v
Step-WellFormed {s} (starts ready) v = Calm-WellFormed (start-Calm s) v
Step-WellFormed stops v = Calm-WellFormed (refl, refl, refl, refl, refl, λ x. omega arith) v
Step-WellFormed (stops_pool off idle) v =
    Calm-WellFormed (refl, refl, refl, refl, refl, λ x. omega arith) v
Step-WellFormed (discards off none_left) v =
    Calm-WellFormed (refl, refl, refl, refl, refl, λ x. omega arith) v
Step-WellFormed {s} (fetches now t l f) v = fetch-WellFormed now s t l f v
Step-WellFormed {s} (wakes now due t l f) v = wake-WellFormed now due s t f v
Step-WellFormed {s} (looks_up r l) v = look_up-WellFormed r s l v
Step-WellFormed {s} (dispatches r l) v = dispatch-WellFormed r s l v
Step-WellFormed (takes r rest e run) v =
    Calm-WellFormed (refl, refl, refl, refl, refl, λ x. rw e (omega arith)) v
Step-WellFormed {s} (executes r thread moment now some_there) v =
    Shrinks-WellFormed
      (worked-Shrinks r s (execute_and_finalize_task r thread moment now s) some_there v
        (execute-Settled r thread moment now s))
      v

pub Steps-WellFormed : {s t : Scheduler} → Steps s t → WellFormed s → WellFormed t
Steps-WellFormed here v = v
Steps-WellFormed (next r step) v = Step-WellFormed step (Steps-WellFormed r v)

-- In every state that a scheduler reaches while fewer than 2 ^ 64 tasks are made, whatever tasks
-- and callback throw, the registry maps identifiers to the tasks that have them, no two tasks share
-- an identifier, the queue is in the order of `operator>`, and each task is at most once in the
-- queue, with the scheduler's thread, in the pool's queue or with a worker. So no task is run by
-- two workers, or run and queued, at one time.
pub Reach-WellFormed :
    (objects : Objects) (next_id : ℕ) (num_threads : Bytes) {s : Scheduler}
    → Reach objects next_id num_threads s
    → WellFormed s
Reach-WellFormed objects next_id num_threads r =
    Steps-WellFormed r (new_scheduler-WellFormed objects next_id num_threads)
