-- ===== src/Scheduler/Stopping.antt =====
-- A scheduler whose pool was stopped.
use task_sched_x.Scheduler.Loop.Cases.{fetch_cases, wake_cases}
use task_sched_x.TaskQueue.{TaskQueue}
use task_sched_x.Prelude.Int.{ℤ}
use task_sched_x.Prelude.{
  ℕ, ◌≤◌, ◌≡◌, refl, ap, ◌∙◌, inl, inr, Bool, true, false, some, Bytes, find, count, if◌then◌else◌,
  arith, Bool-cases, Option-cases,
}
use task_sched_x.Task.{cancelled}
use task_sched_x.TaskQueue
use task_sched_x.Scheduler.State.{
  Scheduler, Outcome, returns, throws, update_statistics, continue, count_status,
}
use task_sched_x.Scheduler.Client.{
  schedule_task, make_task, cancel_task, cancel_active, cancel_queued, report_cancel,
  get_task_status, start, request_stop, set_task_completion_callback,
}
use task_sched_x.Scheduler.Execute.{execute_and_finalize_task}
use task_sched_x.Scheduler.Loop.{fetch, wake, look_up, dispatch, leave_loop}
use task_sched_x.Scheduler.Frames.{Notified-cases, notice}
use task_sched_x.Scheduler.Frames.Execution.{execute-Settled, Settled}
use task_sched_x.Scheduler.Invariant.{count-remove}
use task_sched_x.Scheduler.System.{
  Step, Steps, schedule, cancel, query, set_callback, starts, stops, stops_pool, discards, fetches,
  wakes, looks_up, dispatches, takes, executes, here, next,
}

-- Neither the pool nor its running jobs are touched.
pub record SamePool (s t : Scheduler) : Type 0 where
  pub flag : t.pool_stopped ≡ s.pool_stopped
  pub executing : t.executing ≡ s.executing

SamePool-refl : (s : Scheduler) → SamePool s s
SamePool-refl s = record { flag = refl; executing = refl }

SamePool-continue :
    {A B : Type 0} (s : Scheduler) (o : Outcome A × Scheduler)
    (f : A → Scheduler → Outcome B × Scheduler)
    → SamePool s o.1
    → ((a : A) (t : Scheduler) → SamePool t (f a t).1)
    → SamePool s (continue o f).1
SamePool-continue s (returns a, t) f h k = record {
  flag = (k a t).flag ∙ h.flag;
  executing = (k a t).executing ∙ h.executing;
}
SamePool-continue s (throws e, t) f h k = h

report-SamePool :
    (id : Bytes) (found : Bool) (s : Scheduler) → SamePool s (report_cancel id found s).1
unfolding report_cancel update_statistics notice
report-SamePool id true s =
    let (ns, how) =
      Notified-cases id cancelled (record s { stats = count_status cancelled s.stats }) in
    elim how [
      | inl e ↦ rw e (record { flag = refl; executing = refl })
      | inr (x, e) ↦ rw e (record { flag = refl; executing = refl })
    ]
report-SamePool id false s = record { flag = refl; executing = refl }

cancel_active-SamePool : (id : Bytes) (s : Scheduler) → SamePool s (cancel_active id s).1
unfolding cancel_active
cancel_active-SamePool id s = elim (Option-cases (find id s.active_tasks)) [
  | inl e ↦ rw (e, cancel_active) (SamePool-refl s)
  | inr (r, e) ↦ rw (e, cancel_active) (record { flag = refl; executing = refl })
]

cancel_queued-SamePool : (id : Bytes) (s : Scheduler) → SamePool s (cancel_queued id s).1
unfolding cancel_queued
cancel_queued-SamePool id s =
    elim (Bool-cases (TaskQueue.cancel_task id s.objects s.task_queue).2) [
      | inl some_there ↦ rw some_there (record { flag = refl; executing = refl })
      | inr none_there ↦ rw none_there (record { flag = refl; executing = refl })
    ]

queued_if-SamePool :
    (id : Bytes) (active : Bool) (s : Scheduler)
    → SamePool s ((if active then (λ t. (returns true, t)) else cancel_queued id) s).1
queued_if-SamePool id true s = SamePool-refl s
queued_if-SamePool id false s = cancel_queued-SamePool id s

cancel-SamePool : (id : Bytes) (s : Scheduler) → SamePool s (cancel_task id s).1
unfolding cancel_task
cancel-SamePool id s =
    SamePool-continue s (cancel_active id s) _ (cancel_active-SamePool id s) λ active t.
      SamePool-continue t ((if active then (λ u. (returns true, u)) else cancel_queued id) t) _
        (queued_if-SamePool id active t) (λ found u. report-SamePool id found u)

query-SamePool : (id : Bytes) (s : Scheduler) → SamePool s (get_task_status id s).1
unfolding get_task_status
query-SamePool id s = ground arith

start-SamePool : (s : Scheduler) → SamePool s (start s)
unfolding start
start-SamePool s = elim (Bool-cases s.is_running) [
  | inl run ↦ rw (run, start) (record { flag = refl; executing = refl })
  | inr off ↦ rw (off, start) (record { flag = refl; executing = refl })
]

execute-SamePool :
    (r : ℕ) (s : Scheduler) (o : Outcome (Unit {0}) × Scheduler) → Settled r s o → SamePool s o.1
execute-SamePool r s o (inl h) = record { flag = h.same_pool; executing = h.executing }
execute-SamePool r s o (inr (e, q)) = record {
  flag = ap (λ (t : Scheduler). t.pool_stopped) q.shape ∙ q.touched.same_pool;
  executing = ap (λ (t : Scheduler). t.executing) q.shape ∙ q.touched.executing;
}

look_up-SamePool : (r : ℕ) (s : Scheduler) → SamePool s (look_up r s)
unfolding look_up
look_up-SamePool r s = ground arith

left-SamePool : (s : Scheduler) → SamePool s (leave_loop s)
unfolding leave_loop
left-SamePool s = record { flag = refl; executing = refl }

fetch-SamePool : (now : ℤ) (s t : Scheduler) → fetch now s ≡ some t → SamePool s t
fetch-SamePool now s t f = fetch_cases (SamePool s) now s t f (left-SamePool s) (λ x rest e.
    (record { flag = refl; executing = refl }, record { flag = refl; executing = refl }))

wake-SamePool : (now due : ℤ) (s t : Scheduler) → wake now due s ≡ some t → SamePool s t
wake-SamePool now due s t f =
    wake_cases (SamePool s) now due s t f (left-SamePool s)
      (record { flag = refl; executing = refl })

-- The pool is still stopped, and no worker has begun with a job.
pub record StaysStopped (s t : Scheduler) : Type 0 where
  pub stopped : t.pool_stopped ≡ true
  pub nothing_begun : (r : ℕ) → count r t.executing ≤ count r s.executing

SamePool-StaysStopped : (s t : Scheduler) → s.pool_stopped ≡ true → SamePool s t → StaysStopped s t
SamePool-StaysStopped s t h p = record {
  stopped = p.flag ∙ h;
  nothing_begun = λ r. rw p.executing (omega arith);
}

Step-StaysStopped : {s t : Scheduler} → Step s t → s.pool_stopped ≡ true → StaysStopped s t
unfolding schedule_task make_task request_stop set_task_completion_callback dispatch
Step-StaysStopped {s} {t} (schedule c room) h = record {
  stopped = h;
  nothing_begun = λ r. omega arith;
}
Step-StaysStopped {s} (cancel id) h =
    SamePool-StaysStopped s (cancel_task id s).1 h (cancel-SamePool id s)
Step-StaysStopped {s} (query id) h =
    SamePool-StaysStopped s (get_task_status id s).1 h (query-SamePool id s)
Step-StaysStopped (set_callback callback) h = record {
  stopped = h;
  nothing_begun = λ r. omega arith;
}
Step-StaysStopped {s} (starts ready) h = SamePool-StaysStopped s (start s) h (start-SamePool s)
Step-StaysStopped stops h = record { stopped = h; nothing_begun = λ r. omega arith }
Step-StaysStopped (stops_pool off idle) h = record {
  stopped = refl;
  nothing_begun = λ r. omega arith;
}
Step-StaysStopped (discards off none_left) h = record {
  stopped = h;
  nothing_begun = λ r. omega arith;
}
Step-StaysStopped {s} (fetches now t l f) h = SamePool-StaysStopped s t h (fetch-SamePool now s t f)
Step-StaysStopped {s} (wakes now due t l f) h =
    SamePool-StaysStopped s t h (wake-SamePool now due s t f)
Step-StaysStopped {s} (looks_up r l) h =
    SamePool-StaysStopped s (look_up r s) h (look_up-SamePool r s)
Step-StaysStopped (dispatches r l) h = record { stopped = h; nothing_begun = λ x. omega arith }
Step-StaysStopped (takes r rest e run) h = cc (run, h)
Step-StaysStopped {s} (executes r thread moment now there) h =
    let p =
      execute-SamePool r s (execute_and_finalize_task r thread moment now s)
        (execute-Settled r thread moment now s) in
    record {
      stopped = p.flag ∙ h;
      nothing_begun = λ x. omega (arith, count-remove r x s.executing there);
    }

-- A scheduler whose pool was stopped never executes another task, whatever is called afterwards, `start`
-- included: the pool stays stopped, and no worker begins with a job.
pub Steps-StaysStopped : {s t : Scheduler} → Steps s t → s.pool_stopped ≡ true → StaysStopped s t
Steps-StaysStopped {s} here h = record { stopped = h; nothing_begun = λ r. omega arith }
Steps-StaysStopped (next r step) h =
    let before = Steps-StaysStopped r h in
    let after = Step-StaysStopped step before.stopped in
    record {
      stopped = after.stopped;
      nothing_begun = λ x. omega (arith, before.nothing_begun x, after.nothing_begun x);
    }
