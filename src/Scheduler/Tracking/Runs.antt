-- ===== src/Scheduler/Tracking/Runs.antt =====
-- No registered task is lost, in a run of the whole system.
use task_sched_x.Prelude.{
  ℕ, ◌≡◌, refl, ◌⊎◌, inl, inr, true, false, some, Bytes, find, arith, Bool-cases, Option-cases,
}
use task_sched_x.Task.{Objects}
use task_sched_x.Scheduler.State.{Scheduler, LoopPhase, new_scheduler}
use task_sched_x.Scheduler.WellFormed.{WellFormed, places, held}
use task_sched_x.Scheduler.Callbacks.{Quiet}
use task_sched_x.Scheduler.Client.{
  get_task_status, start, request_stop, set_task_completion_callback,
}
use task_sched_x.Scheduler.System.{
  Step, Steps, Idle, schedule, cancel, query, set_callback, starts, stops, stops_pool, discards,
  fetches, wakes, looks_up, dispatches, takes, executes, here, next,
}
use task_sched_x.Scheduler.Invariant.{Steps-WellFormed, new_scheduler-WellFormed}
use task_sched_x.Scheduler.Tracking.{Tracked, schedule-Tracked, cancel-Tracked}
use task_sched_x.Scheduler.Tracking.Threads.{
  Keeps, Keeps-Tracked, fetch-Tracked, wake-Tracked, look_up-Tracked, dispatch-Tracked,
}
use task_sched_x.Scheduler.Tracking.Workers.{take-Tracked, work-Tracked}

-- In this state the callback throws nothing, and the pool was not stopped.
abbrev pub IsCalm : Scheduler → Type 0
IsCalm s = Quiet s.completion_callback × (s.pool_stopped ≡ false)

-- A run through calm states.
pub data CalmSteps (s : Scheduler) : Scheduler → Type 0 where
  nothing : CalmSteps s s
  and_then : {t u : Scheduler} → CalmSteps s t → Step t u → IsCalm u → CalmSteps s u

pub all-Steps : {s t : Scheduler} → CalmSteps s t → Steps s t
all-Steps nothing = here
all-Steps (and_then r step calm) = next (all-Steps r) step

query-Keeps : (id : Bytes) (s : Scheduler) → Keeps s (get_task_status id s).1
unfolding get_task_status
query-Keeps id s = elim (Option-cases (find id s.active_tasks)) [
  | inr (r, e) ↦
      rw (e, get_task_status) (record { objects = refl; active = refl; more = λ x. omega arith })
  | inl e ↦ elim (Option-cases (find id s.completed_tasks)) [
    | inr (status, k) ↦
        rw (e, get_task_status, k)
          (record { objects = refl; active = refl; more = λ x. omega arith })
    | inl k ↦
        rw (e, get_task_status, k)
          (record { objects = refl; active = refl; more = λ x. omega arith })
  ]
]

Idle-free : (r : ℕ) (loop : LoopPhase) → Idle loop → held r loop ≡ 0
Idle-free r loop (inl e) = rw e refl
Idle-free r loop (inr e) = rw e refl

start-Keeps : (s : Scheduler) → (s.is_running ≡ true) ⊎ Idle s.loop → Keeps s (start s)
unfolding start
start-Keeps s (inl run) =
    rw (run, start) (record { objects = refl; active = refl; more = λ x. omega arith })
start-Keeps s (inr idle) = elim (Bool-cases s.is_running) [
  | inl run ↦ rw (run, start) (record { objects = refl; active = refl; more = λ x. omega arith })
  | inr off ↦
      rw (off, start)
        (record {
          objects = refl;
          active = refl;
          more = λ x. omega (arith, Idle-free x s.loop idle);
        })
]

Step-Tracked :
    {s t : Scheduler} → Step s t → IsCalm s → IsCalm t → WellFormed s → Tracked s → Tracked t
unfolding request_stop set_task_completion_callback
Step-Tracked {s} (schedule c room) calm after v k = schedule-Tracked c s v k
Step-Tracked {s} (cancel id) calm after v k = cancel-Tracked id s v calm.0 k
Step-Tracked {s} (query id) calm after v k =
    Keeps-Tracked s (get_task_status id s).1 (query-Keeps id s) k
Step-Tracked (set_callback callback) calm after v k = k
Step-Tracked {s} (starts ready) calm after v k = Keeps-Tracked s (start s) (start-Keeps s ready) k
Step-Tracked stops calm after v k = k
Step-Tracked (stops_pool off idle) calm after v k = k
Step-Tracked (discards off none_left) calm after v k = cc (off, after.1)
Step-Tracked {s} (fetches now t l f) calm after v k = fetch-Tracked now s t l f k
Step-Tracked {s} (wakes now due t l f) calm after v k = wake-Tracked now due s t l f k
Step-Tracked {s} (looks_up r l) calm after v k = look_up-Tracked r s l v k
Step-Tracked {s} (dispatches r l) calm after v k = dispatch-Tracked r s l k
Step-Tracked {s} (takes r rest e run) calm after v k = take-Tracked r rest s e k
Step-Tracked {s} (executes r thread moment now there) calm after v k =
    work-Tracked r thread moment now s calm.0 v there k

CalmSteps-Tracked :
    {s t : Scheduler} → CalmSteps s t → IsCalm s → WellFormed s → Tracked s → IsCalm t × Tracked t
CalmSteps-Tracked nothing calm v k = (calm, k)
CalmSteps-Tracked (and_then r step after) calm v k =
    let (before, placed) = CalmSteps-Tracked r calm v k in
    (after, Step-Tracked step before after (Steps-WellFormed (all-Steps r) v) placed)

-- No task is lost while the calls of `scheduleTask` and `cancelTask` do not overlap with other actions,
-- that is, while no thread acts between the locks that such a call takes: in every run of methods as
-- wholes in which no callback throws, the pool is not stopped and fewer than 2 ^ 64 tasks are made, a
-- task that is registered at its end is in exactly one place, which is the
-- queue, the hands of the scheduler's thread, the queue of the pool, or the hands of a worker.
pub registered_task_placed :
    (objects : Objects) (next_id : ℕ) (num_threads : Bytes) (s : Scheduler) (id : Bytes) (r : ℕ)
    → CalmSteps (new_scheduler objects next_id num_threads) s
    → find id s.active_tasks ≡ some r
    → places r s ≡ 1
unfolding new_scheduler find
registered_task_placed objects next_id num_threads s id r run e =
    let v =
      Steps-WellFormed (all-Steps run) (new_scheduler-WellFormed objects next_id num_threads) in
    let (calm, k) =
      CalmSteps-Tracked run (tt, refl) (new_scheduler-WellFormed objects next_id num_threads)
        (λ j x f. cc) in
    omega (arith, v.once r, (k id r e).1)
