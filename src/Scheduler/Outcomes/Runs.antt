-- ===== src/Scheduler/Outcomes/Runs.antt =====
-- The parts of an execution, computed under a callback that throws nothing.
use task_sched_x.Prelude.{
  ℕ, ◌≡◌, refl, true, false, none, some, [], ◌∷◌, ◌++◌, Bytes, codes, erase, update, arith,
  Bool-cases, inl, inr,
}
use task_sched_x.Prelude.Int.{ℤ, pos, negsuc, le_int}
use task_sched_x.Task.{
  Status, pending, completed, failed, Exception, execute, set_status, reschedule, Objects,
}
use task_sched_x.TaskQueue
use task_sched_x.Logger.{LogCall, infos, warns, debugs, errors}
use task_sched_x.Scheduler.State.{Scheduler, count_status, returns, throws, update_statistics}
use task_sched_x.Scheduler.Callbacks.{Quiet, after_notice, notify_task_completion-Quiet}
use task_sched_x.Scheduler.Execute.{
  is_cancelled, close_task, timed_out, run_task_with_timeout, repeat_or_remove,
  finalize_completed_task, fail_task, failure_text, check_timeout,
}
use task_sched_x.Scheduler.Outcomes.Defs.{is_late}

abbrev pub with_log : LogCall → Scheduler → Scheduler
with_log entry s = record s { logged = s.logged ++ entry ∷ [] }

-- Marked and counted, before the notification.
abbrev pub noted : ℕ → Status → Scheduler → Scheduler
noted r status s = record s {
  objects = update s.objects r (record (s.objects r) { status = status });
  stats = count_status status s.stats;
}

abbrev pub closed : ℕ → Bytes → Status → Scheduler → Scheduler
closed r id status s = record (after_notice id status (noted r status s)) {
  active_tasks = erase id s.active_tasks;
}

pub close_task-Quiet :
    (r : ℕ) (id : Bytes) (status : Status) (s : Scheduler)
    → Quiet s.completion_callback
    → close_task r id status s ≡ (returns tt, closed r id status s)
unfolding close_task set_status update_statistics
close_task-Quiet r id status s quiet =
    rw (notify_task_completion-Quiet id status (noted r status s) quiet)

-- The test of the code is the bound of the description.
pub late_test :
    (limit : ℤ) (elapsed : ℕ)
    → le_int limit (pos 0) ≡ false
    → timed_out limit elapsed ≡ is_late limit elapsed
late_test (pos n) elapsed h = ground arith
late_test (negsuc n) elapsed h = ground arith

pub not_late :
    (limit : ℤ) (elapsed : ℕ) → le_int limit (pos 0) ≡ true → is_late limit elapsed ≡ false
not_late (pos n) elapsed h = ground arith
not_late (negsuc n) elapsed h = refl

pub late_line : ℕ → Scheduler → LogCall
late_line r s = warns (codes "Task timed out: " ++ (s.objects r).task_id)

-- `runTaskWithTimeout` when the function throws, comes back late, and comes back in time.
pub run-throwing :
    (r moment : ℕ) (e : Exception) (s : Scheduler)
    → (execute (s.objects r) moment).thrown ≡ some e
    → run_task_with_timeout r moment s ≡ (throws e, s)
unfolding run_task_with_timeout
run-throwing r moment e s h = elim (Bool-cases (le_int (s.objects r).timeout (pos 0))) [
  | inl free ↦ rw (free, h)
  | inr limited ↦ rw (limited, h)
]

pub run-late :
    (r moment : ℕ) (s : Scheduler)
    → Quiet s.completion_callback
    → (execute (s.objects r) moment).thrown ≡ none
    → is_late (s.objects r).timeout (execute (s.objects r) moment).elapsed ≡ true
    → run_task_with_timeout r moment s
      ≡ (returns true, closed r (s.objects r).task_id Status.timeout (with_log (late_line r s) s))
unfolding run_task_with_timeout check_timeout late_line
run-late r moment s quiet h late =
    let t = s.objects r in
    let elapsed = (execute t moment).elapsed in
    elim (Bool-cases (le_int t.timeout (pos 0))) [
      | inl free ↦ cc (late, not_late t.timeout elapsed free)
      | inr limited ↦
          rw (limited, h, late_test t.timeout elapsed limited, late)
            (rw (close_task-Quiet r t.task_id Status.timeout (with_log (late_line r s) s) quiet))
    ]

pub run-in_time :
    (r moment : ℕ) (s : Scheduler)
    → (execute (s.objects r) moment).thrown ≡ none
    → is_late (s.objects r).timeout (execute (s.objects r) moment).elapsed ≡ false
    → run_task_with_timeout r moment s ≡ (returns false, s)
unfolding run_task_with_timeout check_timeout
run-in_time r moment s h early =
    let t = s.objects r in
    let elapsed = (execute t moment).elapsed in
    elim (Bool-cases (le_int t.timeout (pos 0))) [
      | inl free ↦ rw (free, h)
      | inr limited ↦ rw (limited, h, late_test t.timeout elapsed limited, early)
    ]

-- `finalizeCompletedTask` for a task that goes on to be completed.
unfoldable pub completed_entry : ℕ → Scheduler → LogCall
completed_entry r s = infos (codes "Task completed: " ++ (s.objects r).task_id)

unfoldable pub announced : ℕ → Scheduler → Scheduler
announced r s =
    after_notice (s.objects r).task_id completed
      (noted r completed (with_log (completed_entry r s) s))

pub finalize-late :
    (r : ℕ) (now : ℤ) (s : Scheduler) → finalize_completed_task r true now s ≡ (returns tt, s)
unfolding finalize_completed_task
finalize-late r now s = refl

pub finalize-cancelled :
    (r : ℕ) (now : ℤ) (s : Scheduler)
    → is_cancelled (s.objects r).status ≡ true
    → finalize_completed_task r false now s ≡ (returns tt, s)
unfolding finalize_completed_task
finalize-cancelled r now s c = rw c

pub finalize-completed :
    (r : ℕ) (now : ℤ) (s : Scheduler)
    → Quiet s.completion_callback
    → is_cancelled (s.objects r).status ≡ false
    → finalize_completed_task r false now s ≡ repeat_or_remove r now (announced r s)
unfolding finalize_completed_task announced completed_entry update_statistics set_status
finalize-completed r now s quiet c = rw c (
    rw (
      notify_task_completion-Quiet (s.objects r).task_id completed
        (noted r completed (with_log (completed_entry r s) s)) quiet))

pub repeat_entry : ℕ → Scheduler → LogCall
repeat_entry r s = debugs (codes "Rescheduling repeatable task: " ++ (s.objects r).task_id)

unfoldable pub renewed : ℕ → ℤ → Scheduler → Objects
renewed r now s =
    update (update s.objects r (reschedule now (s.objects r))) r
      (set_status pending (update s.objects r (reschedule now (s.objects r)) r))

unfoldable pub requeued : ℕ → ℤ → Scheduler → Scheduler
requeued r now s = record (with_log (repeat_entry r s) s) {
  objects = renewed r now s;
  task_queue = TaskQueue.push (renewed r now s) r s.task_queue;
}

pub repeat-repeatable :
    (r : ℕ) (now : ℤ) (s : Scheduler)
    → (s.objects r).is_repeatable ≡ true
    → repeat_or_remove r now s ≡ (returns tt, requeued r now s)
unfolding repeat_or_remove requeued renewed repeat_entry
repeat-repeatable r now s h = rw h

unfoldable pub removed : ℕ → Scheduler → Scheduler
removed r s = record s { active_tasks = erase (s.objects r).task_id s.active_tasks }

pub repeat-single :
    (r : ℕ) (now : ℤ) (s : Scheduler)
    → (s.objects r).is_repeatable ≡ false
    → repeat_or_remove r now s ≡ (returns tt, removed r s)
unfolding repeat_or_remove removed
repeat-single r now s h = rw h

pub failed_entry : ℕ → Exception → Scheduler → LogCall
failed_entry r e s = errors (failure_text (s.objects r).task_id e)

pub fail-Quiet :
    (r : ℕ) (e : Exception) (s : Scheduler)
    → Quiet s.completion_callback
    → fail_task r e s
      ≡ (returns tt, closed r (s.objects r).task_id failed (with_log (failed_entry r e s) s))
unfolding fail_task failed_entry
fail-Quiet r e s quiet =
    rw (close_task-Quiet r (s.objects r).task_id failed (with_log (failed_entry r e s) s) quiet)

pub announced-repeatable :
    (r : ℕ) (s : Scheduler)
    → ((announced r s).objects r).is_repeatable ≡ (s.objects r).is_repeatable
unfolding announced
announced-repeatable r s = ground arith
