-- ===== src/Scheduler/Frames.antt =====
-- What the actions leave alone, whatever the callback throws.
pub mod Running
pub mod Execution
use task_sched_x.Prelude.{
  ℕ, ◌+◌, ◌≤◌, ◌<◌, ◌≡◌, ◌≢◌, refl, sym, ap, ◌∙◌, ◌⊎◌, inl, inr, Bool, true, false, Option, none,
  some, List, [], ◌∷◌, ◌++◌, Bytes, codes, find, erase, put, update, count, if◌then◌else◌, ◌==◌,
  arith, find-erase, Bool-cases, Option-cases, str_eq, str_eq_iff, length,
}
use task_sched_x.Prelude.Int.{ℤ, pos, le_int}
use task_sched_x.Task.{
  Task, Status, pending, completed, failed, cancelled, Exception, Objects, set_status, reschedule,
  execute,
}
use task_sched_x.TaskQueue
use task_sched_x.TaskQueue.{TaskQueue}
use task_sched_x.Logger.{LogCall, debugs, infos, warns, errors}
use task_sched_x.Scheduler.State.{
  Scheduler, Callback, Outcome, returns, throws, notify_task_completion, invoke_callback,
  update_statistics, count_status,
}
use task_sched_x.Scheduler.Execute.{
  close_task, end_call, timed_out, run_task_with_timeout, repeat_or_remove, finalize_completed_task,
  fail_task, failure_text, try_task, execute_and_finalize_task, is_cancelled,
}

-- The task at `r` may have another status and may be gone from the registry; beyond that the two differ
-- in statistics, the log, and what was announced and recorded.
pub record Touched (r : ℕ) (s s' : Scheduler) : Type 0 where
  pub others : (x : ℕ) → x ≢ r → s'.objects x ≡ s.objects x
  pub same_id : (s'.objects r).task_id ≡ (s.objects r).task_id
  pub same_priority : (s'.objects r).priority ≡ (s.objects r).priority
  pub same_start : (s'.objects r).start_time ≡ (s.objects r).start_time
  pub same_repeatable : (s'.objects r).is_repeatable ≡ (s.objects r).is_repeatable
  pub next_object : s'.next_object ≡ s.next_object
  pub next_id : s'.next_id ≡ s.next_id
  pub loop : s'.loop ≡ s.loop
  pub task_queue : s'.task_queue ≡ s.task_queue
  pub pending : s'.pending ≡ s.pending
  pub executing : s'.executing ≡ s.executing
  pub same_pool : s'.pool_stopped ≡ s.pool_stopped
  pub active :
      (id : Bytes) (x : ℕ) → find id s'.active_tasks ≡ some x → find id s.active_tasks ≡ some x

pub Touched-refl : (r : ℕ) (s : Scheduler) → Touched r s s
Touched-refl r s = record {
  others = λ x ne. refl;
  same_id = refl;
  same_priority = refl;
  same_start = refl;
  same_repeatable = refl;
  next_object = refl;
  next_id = refl;
  loop = refl;
  task_queue = refl;
  pending = refl;
  executing = refl;
  same_pool = refl;
  active = λ id x e. e;
}

pub Touched-trans : {r : ℕ} {s t u : Scheduler} → Touched r s t → Touched r t u → Touched r s u
Touched-trans a b = record {
  others = λ x ne. b.others x ne ∙ a.others x ne;
  same_id = b.same_id ∙ a.same_id;
  same_priority = b.same_priority ∙ a.same_priority;
  same_start = b.same_start ∙ a.same_start;
  same_repeatable = b.same_repeatable ∙ a.same_repeatable;
  next_object = b.next_object ∙ a.next_object;
  next_id = b.next_id ∙ a.next_id;
  loop = b.loop ∙ a.loop;
  task_queue = b.task_queue ∙ a.task_queue;
  pending = b.pending ∙ a.pending;
  executing = b.executing ∙ a.executing;
  same_pool = b.same_pool ∙ a.same_pool;
  active = λ id x e. a.active id x (b.active id x e);
}

-- The two ways in which a notification can end.
unfoldable pub notice : Bytes → Status → List (Bytes × Status) → Scheduler → Scheduler
notice id status ns s = record s {
  notified = ns;
  completed_tasks = put id status s.completed_tasks;
}

abbrev pub Notified : Bytes → Status → Scheduler → Type 0
Notified id status s =
    (ns : List (Bytes × Status)) × ((notify_task_completion id status s
        ≡ (returns tt, notice id status ns s))
      ⊎ ((e : Exception) × (notify_task_completion id status s
            ≡ (throws e, record s { notified = ns }))))

notified_called :
    (callback : Callback) (id : Bytes) (status : Status) (s : Scheduler) (thrown : Option Exception)
    → s.completion_callback ≡ some callback
    → callback (length s.notified) id status ≡ thrown
    → Notified id status s
unfolding notify_task_completion notice
notified_called callback id status s none e h =
    (s.notified ++ (id, status) ∷ [], inl (ground arith))
notified_called callback id status s (some x) e h =
    (s.notified ++ (id, status) ∷ [], inr (x, ground arith))

pub Notified-cases : (id : Bytes) (status : Status) (s : Scheduler) → Notified id status s
unfolding notify_task_completion notice
Notified-cases id status s = elim (Option-cases s.completion_callback) [
  | inl e ↦ (s.notified, inl (ground arith))
  | inr (callback, e) ↦
      notified_called callback id status s (callback (length s.notified) id status) e refl
]

-- Marked and counted, before the notification.
abbrev pub noted : ℕ → Status → Scheduler → Scheduler
noted r status s = record s {
  objects = update s.objects r (set_status status (s.objects r));
  stats = count_status status s.stats;
}

pub close_task-Touched :
    (r : ℕ) (id : Bytes) (status : Status) (s : Scheduler)
    → Touched r s (close_task r id status s).1
unfolding close_task update_statistics set_status notice
close_task-Touched r id status s =
    let (ns, how) = Notified-cases id status (noted r status s) in
    elim how [
      | inl e ↦ rw e (record {
        others = λ x ne. ground arith;
        same_id = ground arith;
        same_priority = ground arith;
        same_start = ground arith;
        same_repeatable = ground arith;
        next_object = refl;
        next_id = refl;
        loop = refl;
        task_queue = refl;
        pending = refl;
        executing = refl;
        same_pool = refl;
        active = λ j x h. ground (arith, find-erase id j s.active_tasks);
      })
      | inr (x, e) ↦ rw e (record {
        others = λ x ne. ground arith;
        same_id = ground arith;
        same_priority = ground arith;
        same_start = ground arith;
        same_repeatable = ground arith;
        next_object = refl;
        next_id = refl;
        loop = refl;
        task_queue = refl;
        pending = refl;
        executing = refl;
        same_pool = refl;
        active = λ j x h. h;
      })
    ]
