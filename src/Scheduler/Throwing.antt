-- ===== src/Scheduler/Throwing.antt =====
-- A completion callback that throws.
use task_sched_x.Prelude.{
  ℕ, ◌+◌, ◌≡◌, refl, false, none, some, [], ◌∷◌, ◌++◌, Bytes, codes, find, put, erase, length,
  length-append, arith, find-put, find-erase, str_eq_iff,
}
use mathlib.Core.List.{append_assoc}
use task_sched_x.Prelude.Int.{ℤ}
use task_sched_x.Task.{Status, completed, failed, Exception, execute, set_status}
use task_sched_x.Logger.{errors, infos}
use task_sched_x.Scheduler.State.{
  Scheduler, Callback, returns, throws, invoke_callback, notify_task_completion, update_statistics,
  count_status,
}
use task_sched_x.Scheduler.Client.{get_task_status}
use task_sched_x.Scheduler.Execute.{
  execute_and_finalize_task, try_task, finalize_completed_task, fail_task, failure_text,
  is_cancelled, close_task,
}
use task_sched_x.Scheduler.Outcomes.Defs.{is_late, counted}
use task_sched_x.Scheduler.Outcomes.Runs.{run-in_time, with_log, noted, completed_entry}

-- The callback was told of the end of a task.
told_of : Bytes → Status → Scheduler → Scheduler
told_of id status s = record s { notified = s.notified ++ (id, status) ∷ [] }

notify-throwing :
    (callback : Callback) (id : Bytes) (status : Status) (x : Exception) (s : Scheduler)
    → s.completion_callback ≡ some callback
    → callback (length s.notified) id status ≡ some x
    → notify_task_completion id status s ≡ (throws x, told_of id status s)
unfolding notify_task_completion invoke_callback told_of
notify-throwing callback id status x s e h = rw e (rw h)

notify-calm :
    (callback : Callback) (id : Bytes) (status : Status) (s : Scheduler)
    → s.completion_callback ≡ some callback
    → callback (length s.notified) id status ≡ none
    → notify_task_completion id status s ≡ (
      returns tt,
      record (told_of id status s) { completed_tasks = put id status s.completed_tasks },
    )
unfolding notify_task_completion invoke_callback told_of
notify-calm callback id status s e h = rw e (rw h)

-- The task at `r` completed, and was then treated as failed.
pub record CompletedThenFailed (r : ℕ) (s s' : Scheduler) : Type 0 where
  pub marked : (s'.objects r).status ≡ failed
  pub counted_twice : s'.stats ≡ counted failed (counted completed s.stats)
  pub announced_twice :
      s'.notified
      ≡ s.notified ++ ((s.objects r).task_id, completed) ∷ ((s.objects r).task_id, failed) ∷ []
  pub unregistered : find (s.objects r).task_id s'.active_tasks ≡ none
  pub answers : (get_task_status (s.objects r).task_id s').0 ≡ failed
  pub same_queue : s'.task_queue ≡ s.task_queue

module _ (r : ℕ) (thread : Bytes) (moment : ℕ) (now : ℤ) (s : Scheduler) (callback : Callback)
    (x : Exception) (e : s.completion_callback ≡ some callback) where
  finalize-throwing :
      is_cancelled (s.objects r).status ≡ false
      → callback (length s.notified) (s.objects r).task_id completed ≡ some x
      → finalize_completed_task r false now s ≡ (
        throws x,
        told_of
            (s.objects r).task_id
            completed
            (noted r completed (with_log (completed_entry r s) s)),
      )
  unfolding finalize_completed_task update_statistics set_status completed_entry
  finalize-throwing c h = rw c (
      rw (
        notify-throwing callback (s.objects r).task_id completed x
          (noted r completed (with_log (completed_entry r s) s)) e h))

-- The state in which the task's end as failed is announced.
before_failed : ℕ → Exception → Scheduler → Scheduler
before_failed r x s = noted r failed (with_log (errors (failure_text (s.objects r).task_id x)) s)

fail-calm :
    (r : ℕ) (x : Exception) (s : Scheduler) (callback : Callback)
    → s.completion_callback ≡ some callback
    → callback (length s.notified) (s.objects r).task_id failed ≡ none
    → fail_task r x s ≡ (
      returns tt,
      record (told_of (s.objects r).task_id failed (before_failed r x s)) {
        completed_tasks = put (s.objects r).task_id failed s.completed_tasks;
        active_tasks = erase (s.objects r).task_id s.active_tasks;
      },
    )
unfolding fail_task close_task update_statistics set_status before_failed told_of
fail-calm r x s callback e h =
    rw (notify-calm callback (s.objects r).task_id failed (before_failed r x s) e h)

begun : ℕ → Bytes → Scheduler → Scheduler
begun r thread s =
    with_log
      (infos
        (codes "Task started: " ++ ((s.objects r).task_id ++ (codes " | Thread ID: " ++ thread))))
      s

-- When the callback has thrown.
half_done : ℕ → Bytes → Scheduler → Scheduler
half_done r thread s =
    told_of (s.objects r).task_id completed
      (noted r completed (with_log (completed_entry r s) (begun r thread s)))

exec-throwing :
    (r : ℕ) (thread : Bytes) (moment : ℕ) (now : ℤ) (s : Scheduler) (callback : Callback)
    (x : Exception)
    → s.completion_callback ≡ some callback
    → (execute (s.objects r) moment).thrown ≡ none
    → is_late (s.objects r).timeout (execute (s.objects r) moment).elapsed ≡ false
    → is_cancelled (s.objects r).status ≡ false
    → callback (length s.notified) (s.objects r).task_id completed ≡ some x
    → execute_and_finalize_task r thread moment now s ≡ fail_task r x (half_done r thread s)
unfolding execute_and_finalize_task try_task begun half_done completed_entry told_of
exec-throwing r thread moment now s callback x e h early c throws_it =
    rw (run-in_time r moment (begun r thread s) h early)
      (rw (finalize-throwing r thread moment now (begun r thread s) callback x e c throws_it))

failing_end :
    (r : ℕ) (thread : Bytes) (s : Scheduler) (callback : Callback) (x : Exception)
    → s.completion_callback ≡ some callback
    → callback (length s.notified + 1) (s.objects r).task_id failed ≡ none
    → ((fail_task r x (half_done r thread s)).0 ≡ returns tt)
      × CompletedThenFailed r s (fail_task r x (half_done r thread s)).1
unfolding half_done begun told_of before_failed count_status get_task_status
failing_end r thread s callback x e calm =
    let id = (s.objects r).task_id in
    let later : callback (length (half_done r thread s).notified)
          ((half_done r thread s).objects r).task_id failed
        ≡ none =
      ground (arith, length-append s.notified ((id, completed) ∷ [])) in
    rw (fail-calm r x (half_done r thread s) callback e later) (
      refl,
      record {
        marked = ground arith;
        counted_twice = refl;
        announced_twice =
            ground (arith, append_assoc s.notified ((id, completed) ∷ []) ((id, failed) ∷ []));
        unregistered = ground (arith, find-erase id id s.active_tasks, str_eq_iff id id);
        answers = ground (
          arith,
          find-erase id id s.active_tasks,
          find-put id id failed (half_done r thread s).completed_tasks,
          str_eq_iff id id,
        );
        same_queue = refl;
      },
    )

-- A callback that throws when it is told that a task completed, and not when it is told that it
-- failed, turns a task whose function returned in time and that was not cancelled into a failed
-- one: it is counted and announced as completed and then as failed, says FAILED, and is no longer
-- registered; a repeatable task is not queued again.
pub throwing_callback :
    (r : ℕ) (thread : Bytes) (moment : ℕ) (now : ℤ) (s : Scheduler) (callback : Callback)
    (x : Exception)
    → s.completion_callback ≡ some callback
    → (execute (s.objects r) moment).thrown ≡ none
    → is_late (s.objects r).timeout (execute (s.objects r) moment).elapsed ≡ false
    → is_cancelled (s.objects r).status ≡ false
    → callback (length s.notified) (s.objects r).task_id completed ≡ some x
    → callback (length s.notified + 1) (s.objects r).task_id failed ≡ none
    → ((execute_and_finalize_task r thread moment now s).0 ≡ returns tt)
      × CompletedThenFailed r s (execute_and_finalize_task r thread moment now s).1
throwing_callback r thread moment now s callback x e h early c throws_it calm =
    rw (exec-throwing r thread moment now s callback x e h early c throws_it)
      (failing_end r thread s callback x e calm)
