-- ===== src/Programs/Before.antt =====
-- What holds of a scheduler that was not started yet, whatever the program has done with it.
use task_sched_x.Scheduler.Invariant.Steps.{query-Calm}
use task_sched_x.Decimal.{decimal}
use task_sched_x.Prelude.{
  ℕ, ◌+◌, ◌<◌, ◌≡◌, refl, ap, ◌∙◌, inl, inr, Bool, true, false, none, some, List, [], Bytes, find,
  if◌then◌else◌, arith, Bool-cases, Option-cases, Option,
}
use task_sched_x.Task.{cancelled, size_mod, new_task, Objects}
use task_sched_x.TaskQueue
use task_sched_x.Scheduler.State.{
  Scheduler, LoopPhase, not_started, Outcome, returns, throws, update_statistics, continue,
  count_status, new_scheduler,
}
use task_sched_x.Scheduler.Client.{
  schedule_task, cancel_task, cancel_active, cancel_queued, report_cancel, get_task_status,
  set_task_completion_callback, set_log_level, set_console_logging_enabled, TaskConfig,
}
use task_sched_x.Scheduler.Frames.{Notified-cases, notice}
use task_sched_x.Scheduler.WellFormed.{WellFormed}
use task_sched_x.Scheduler.Invariant.{schedule-WellFormed, new_scheduler-WellFormed}
use task_sched_x.Scheduler.Invariant.Shrinking.{Calm-WellFormed, Calm}
use task_sched_x.Scheduler.Invariant.Cancel.{cancel-WellFormed}
use task_sched_x.Programs.{
  Command, prints, sleeps, reads_clock, reads_steady_clock, reads_usage, reads_leftover,
  reads_counter, constructs, sets_log_level, enables_console, sets_callback, schedules, cancels,
  queries, reads_statistics, starts, stops, destroys, Script, done, spent, calls,
}
use task_sched_x.Programs.Prepare.{World, answer, prepare, made_by, unless_thrown, unborn}

-- What a cancellation leaves as it is.
abbrev pub rests : Scheduler → ℕ × LoopPhase × List ℕ × List ℕ × Bool
rests s = (s.next_id, s.loop, s.pending, s.executing, s.is_running)

rests-continue :
    {A B : Type 0} (s : Scheduler) (o : Outcome A × Scheduler)
    (f : A → Scheduler → Outcome B × Scheduler)
    → rests o.1 ≡ rests s
    → ((a : A) (t : Scheduler) → rests (f a t).1 ≡ rests t)
    → rests (continue o f).1 ≡ rests s
rests-continue s (returns a, t) f h k = k a t ∙ h
rests-continue s (throws e, t) f h k = h

rests-report_cancel :
    (id : Bytes) (found : Bool) (s : Scheduler) → rests (report_cancel id found s).1 ≡ rests s
unfolding report_cancel update_statistics notice
rests-report_cancel id true s =
    let (ns, how) =
      Notified-cases id cancelled (record s { stats = count_status cancelled s.stats }) in
    elim how [ inl e ↦ rw e refl | inr (x, e) ↦ rw e refl ]
rests-report_cancel id false s = refl

rests-cancel_active : (id : Bytes) (s : Scheduler) → rests (cancel_active id s).1 ≡ rests s
unfolding cancel_active
rests-cancel_active id s = elim (Option-cases (find id s.active_tasks)) [
  | inl e ↦ rw (e, cancel_active) refl
  | inr (r, e) ↦ rw (e, cancel_active) refl
]

rests-cancel_queued :
    (id : Bytes) (active : Bool) (s : Scheduler)
    → rests ((if active then (λ t. (returns true, t)) else cancel_queued id) s).1 ≡ rests s
unfolding cancel_queued
rests-cancel_queued id true s = refl
rests-cancel_queued id false s =
    elim (Bool-cases (TaskQueue.cancel_task id s.objects s.task_queue).2) [
      | inl some_there ↦ rw some_there refl
      | inr none_there ↦ rw none_there refl
    ]

rests-cancel_task : (id : Bytes) (s : Scheduler) → rests (cancel_task id s).1 ≡ rests s
unfolding cancel_task
rests-cancel_task id s =
    rests-continue s (cancel_active id s) _ (rests-cancel_active id s) λ active t.
      rests-continue t ((if active then (λ u. (returns true, u)) else cancel_queued id) t) _
        (rests-cancel_queued id active t) (λ found u. rests-report_cancel id found u)

-- No task has left the queue.
pub record Before (s : Scheduler) : Type 0 where
  pub well_formed : WellFormed s
  pub loop : s.loop ≡ not_started
  pub none_pending : s.pending ≡ []
  pub none_executing : s.executing ≡ []
  pub not_running : s.is_running ≡ false

Before-rests : (s t : Scheduler) → rests t ≡ rests s → WellFormed t → Before s → Before t
Before-rests s t e v h = record {
  well_formed = v;
  loop = ap (λ p. p.1) e ∙ h.loop;
  none_pending = ap (λ p. p.2) e ∙ h.none_pending;
  none_executing = ap (λ p. p.3) e ∙ h.none_executing;
  not_running = ap (λ p. p.4) e ∙ h.not_running;
}

-- One command, if it is answered.
abbrev Answered : {A : Type 0} → Scheduler → ℕ → Option (A × Scheduler) → Type 0
Answered s made none = Unit
Answered s made (some (a, t)) = Before t × (t.next_id ≡ s.next_id + made)

unchanged : (s : Scheduler) → Before s → Before s × (s.next_id ≡ s.next_id + 0)
unchanged s h = (h, omega arith)

Before-Calm :
    (s t : Scheduler)
    → rests t ≡ rests s
    → Calm s t
    → Before s
    → Before t × (t.next_id ≡ s.next_id + 0)
Before-Calm s t e calm h =
    (Before-rests s t e (Calm-WellFormed calm h.well_formed) h, ap (λ p. p.0) e ∙ omega arith)

Before-schedule :
    (c : TaskConfig) (s : Scheduler)
    → Before s
    → s.next_id + 1 < size_mod
    → Before (schedule_task c s).1 × ((schedule_task c s).1.next_id ≡ s.next_id + 1)
unfolding schedule_task new_task
Before-schedule c s h room = (
  record {
    well_formed = schedule-WellFormed c s room h.well_formed;
    loop = h.loop;
    none_pending = h.none_pending;
    none_executing = h.none_executing;
    not_running = h.not_running;
  },
  omega arith,
)

Before-cancel :
    (id : Bytes) (s : Scheduler) (o : Outcome Bool × Scheduler)
    → rests o.1 ≡ rests s
    → WellFormed o.1
    → Before s
    → Answered s 0 (unless_thrown o)
Before-cancel id s (returns a, t) e v h = (Before-rests s t e v h, ap (λ p. p.0) e ∙ omega arith)
Before-cancel id s (throws x, t) e v h = tt

answer-Before :
    (w : World) (n : ℕ) (c : Command) (s : Scheduler)
    → Before s
    → s.next_id + made_by c < size_mod
    → Answered s (made_by c) (answer w n c s)
unfolding answer new_scheduler set_log_level set_console_logging_enabled
    set_task_completion_callback get_task_status
answer-Before w n (prints text) s h room = unchanged s h
answer-Before w n (sleeps ms) s h room = unchanged s h
answer-Before w n reads_clock s h room = unchanged s h
answer-Before w n reads_steady_clock s h room = unchanged s h
answer-Before w n reads_usage s h room = unchanged s h
answer-Before w n reads_leftover s h room = unchanged s h
answer-Before w n (reads_counter i) s h room = unchanged s h
answer-Before w n (constructs workers) s h room = (
  record {
    well_formed = new_scheduler-WellFormed s.objects s.next_id (decimal workers);
    loop = refl;
    none_pending = refl;
    none_executing = refl;
    not_running = refl;
  },
  omega arith,
)
answer-Before w n (sets_log_level level) s h room =
    Before-Calm s (set_log_level level s) refl (refl, refl, refl, refl, refl, λ x. omega arith) h
answer-Before w n (enables_console enable) s h room =
    Before-Calm s (set_console_logging_enabled enable s) refl
      (refl, refl, refl, refl, refl, λ x. omega arith) h
answer-Before w n (sets_callback callback) s h room =
    Before-Calm s (set_task_completion_callback callback s) refl
      (refl, refl, refl, refl, refl, λ x. omega arith) h
answer-Before w n (schedules c) s h room = Before-schedule c s h room
answer-Before w n (cancels id) s h room =
    Before-cancel id s (cancel_task id s) (rests-cancel_task id s)
      (cancel-WellFormed id s h.well_formed) h
answer-Before w n (queries id) s h room =
    Before-Calm s (get_task_status id s).1 (ground arith) (query-Calm id s) h
answer-Before w n reads_statistics s h room = unchanged s h
answer-Before w n starts s h room = tt
answer-Before w n stops s h room = tt
answer-Before w n destroys s h room = tt

pub unborn-Before : (objects : Objects) (next_id : ℕ) → Before (unborn objects next_id)
unfolding new_scheduler
unborn-Before objects next_id = record {
  well_formed = new_scheduler-WellFormed objects next_id [];
  loop = refl;
  none_pending = refl;
  none_executing = refl;
  not_running = refl;
}

-- Whatever a program does with its scheduler before it starts it, the scheduler stays well-formed and
-- not running, and no task is with the pool.
pub prepare-Before :
    (w : World) (n : ℕ) (script : Script) (s : Scheduler)
    → Before s
    → s.next_id + (prepare w n script s).made < size_mod
    → Before (prepare w n script s).shared
unfolding prepare
prepare-Before w n done s h room = h
prepare-Before w n spent s h room = h
prepare-Before w n (calls c k) s h room = elim (Option-cases (answer w n c s)) [
  | inl e ↦ rw (e, prepare) h
  | inr ((a, t), e) ↦
      let room' = rw (e, prepare) at room in
      let ok = answer-Before w n c s h (omega arith) in
      let (h', next) = rw e at ok in
      rw (e, prepare) (prepare-Before w (n + 1) (k a) t h' (omega (arith, next)))
]
