-- ===== src/Scheduler/Accounting/Runs.antt =====
-- The counters and the announcements, whatever the threads do.
use task_sched_x.Scheduler.Loop.Cases.{fetch_cases, wake_cases, look_up_cases}
use task_sched_x.Prelude.{
  ℕ, ◌+◌, ◌≡◌, refl, inl, inr, Bool, true, false, none, some, Bytes, find, if◌then◌else◌, arith,
  Option-cases,
}
use task_sched_x.Scheduler.State.{Scheduler}
use task_sched_x.Scheduler.Client
use task_sched_x.Scheduler.Client.{get_task_status, request_stop, set_task_completion_callback}
use task_sched_x.Scheduler.Loop.{dispatch, leave_loop}
use task_sched_x.Scheduler.System.{
  Step, Steps, schedule, cancel, query, set_callback, starts, stops, stops_pool, discards, fetches,
  wakes, looks_up, dispatches, takes, executes, here, next,
}
use task_sched_x.Scheduler.Accounting.{Counted}
use task_sched_x.Scheduler.Accounting.Counting.{execute-Keeps, cancel-Keeps, schedule-Keeps}
use task_sched_x.Scheduler.Accounting.Rules.{Unheard, Unheard-Counted}

query-Unheard : (id : Bytes) (s : Scheduler) → Unheard s (get_task_status id s).1
unfolding get_task_status
query-Unheard id s = elim (Option-cases (find id s.active_tasks)) [
  | inr (r, e) ↦ rw (e, get_task_status) (refl, refl, refl)
  | inl e ↦ elim (Option-cases (find id s.completed_tasks)) [
    | inr (status, k) ↦ rw (e, get_task_status, k) (refl, refl, refl)
    | inl k ↦ rw (e, get_task_status, k) (refl, refl, refl)
  ]
]

-- The callback is taken away.
abbrev pub silences : {s t : Scheduler} → Step s t → Bool
silences (set_callback none) = true
silences step = false

abbrev pub silencings : {s t : Scheduler} → Steps s t → ℕ
silencings here = 0
silencings (next r step) = (if silences step then 1 else 0) + silencings r

Step-Counted : {s t : Scheduler} (step : Step s t) → silences step ≡ false → Counted s → Counted t
unfolding set_task_completion_callback Client.start request_stop dispatch leave_loop
Step-Counted {s} (schedule c room) loud h = schedule-Keeps c s h
Step-Counted {s} (cancel id) loud h = cancel-Keeps id s h
Step-Counted {s} (query id) loud h = Unheard-Counted (query-Unheard id s) h
Step-Counted (set_callback none) loud h = cc
Step-Counted (set_callback (some callback)) loud h = record { counts = h.counts; heard = λ e. cc }
Step-Counted {s} (starts ready) loud h = Unheard-Counted (ground arith) h
Step-Counted stops loud h = Unheard-Counted (refl, refl, refl) h
Step-Counted (stops_pool off idle) loud h = Unheard-Counted (refl, refl, refl) h
Step-Counted (discards off none_left) loud h = Unheard-Counted (refl, refl, refl) h
Step-Counted {s} (fetches now t at f) loud h =
    Unheard-Counted
      (fetch_cases (Unheard s) now s t f (refl, refl, refl)
        (λ x rest e. ((refl, refl, refl), (refl, refl, refl))))
      h
Step-Counted {s} (wakes now due t at f) loud h =
    Unheard-Counted (wake_cases (Unheard s) now due s t f (refl, refl, refl) (refl, refl, refl)) h
Step-Counted {s} (looks_up r at) loud h =
    Unheard-Counted
      (look_up_cases (Unheard s) r s (refl, refl, refl) (λ y e live. (refl, refl, refl))) h
Step-Counted (dispatches r at) loud h = Unheard-Counted (refl, refl, refl) h
Step-Counted (takes r rest e run) loud h = Unheard-Counted (refl, refl, refl) h
Step-Counted {s} (executes r thread moment now some_there) loud h =
    Unheard-Counted (refl, refl, refl) (execute-Keeps r thread moment now s h)

-- From a state in which a callback is set and the counters agree with its calls, such as that of a
-- new scheduler whose callback has been set, and as long as the callback is not taken away: whatever
-- is scheduled, cancelled and executed, and whatever tasks and callback throw, each of the counters
-- `tasksCompleted`, `tasksFailed`, `tasksCancelled` and `tasksTimeout` is the number of calls of the
-- callback with that status, modulo 2 ^ 64.
pub Steps-Counted : {s t : Scheduler} → Counted s → (r : Steps s t) → silencings r ≡ 0 → Counted t
Steps-Counted h here loud = h
Steps-Counted h (next r step) loud =
    Step-Counted step (ground (arith, loud)) (Steps-Counted h r (omega arith))
