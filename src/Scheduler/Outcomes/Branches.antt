-- ===== src/Scheduler/Outcomes/Branches.antt =====
-- The state that an execution leaves, on each of its branches.
use task_sched_x.Prelude.{ℕ, ◌≡◌, ◌∙◌, true, false, none, some, ◌++◌, Bytes, codes}
use task_sched_x.Prelude.Int.{ℤ}
use task_sched_x.Task.{Status, failed, Exception, execute}
use task_sched_x.Logger.{LogCall, infos}
use task_sched_x.Scheduler.State.{Scheduler, Outcome, returns}
use task_sched_x.Scheduler.Callbacks.{Quiet}
use task_sched_x.Scheduler.Execute.{is_cancelled, try_task, execute_and_finalize_task}
use task_sched_x.Scheduler.Outcomes.Defs.{is_late}
use task_sched_x.Scheduler.Outcomes.Runs.{
  with_log, closed, run-throwing, run-late, run-in_time, finalize-late, finalize-cancelled,
  finalize-completed, announced, late_line, repeat-repeatable, repeat-single, requeued, removed,
  fail-Quiet, failed_entry, announced-repeatable,
}

unfoldable pub start_entry : ℕ → Bytes → Scheduler → LogCall
start_entry r thread s =
    infos (codes "Task started: " ++ ((s.objects r).task_id ++ (codes " | Thread ID: " ++ thread)))

unfoldable pub finish_entry : ℕ → Bytes → Scheduler → LogCall
finish_entry r thread s =
    infos (codes "Task finished: " ++ ((s.objects r).task_id ++ (codes " | Thread ID: " ++ thread)))

module _ (r : ℕ) (thread : Bytes) (moment : ℕ) (now : ℤ) (s : Scheduler)
    (quiet : Quiet s.completion_callback) where
  abbrev pub begun : Scheduler
  begun = with_log (start_entry r thread s) s

  abbrev pub exec : Outcome (Unit {0}) × Scheduler
  exec = execute_and_finalize_task r thread moment now s

  pub exec-failing :
      (e : Exception)
      → (execute (s.objects r) moment).thrown ≡ some e
      → exec ≡ (
        returns tt,
        closed r (s.objects r).task_id failed (with_log (failed_entry r e begun) begun),
      )
  unfolding execute_and_finalize_task try_task start_entry
  exec-failing e h =
      rw (run-throwing r moment e (with_log (start_entry r thread s) s) h)
        (fail-Quiet r e (with_log (start_entry r thread s) s) quiet)

  pub exec-late :
      (execute (s.objects r) moment).thrown ≡ none
      → is_late (s.objects r).timeout (execute (s.objects r) moment).elapsed ≡ true
      → exec ≡ (
        returns tt,
        with_log
            (finish_entry r thread s)
            (closed r (s.objects r).task_id Status.timeout (with_log (late_line r begun) begun)),
      )
  unfolding execute_and_finalize_task try_task start_entry finish_entry
  exec-late h late = rw (run-late r moment (with_log (start_entry r thread s) s) quiet h late) (
      rw (
        finalize-late r now (
          closed r (s.objects r).task_id Status.timeout
            (with_log (late_line r begun) (with_log (start_entry r thread s) s)))))

  pub exec-cancelled :
      (execute (s.objects r) moment).thrown ≡ none
      → is_late (s.objects r).timeout (execute (s.objects r) moment).elapsed ≡ false
      → is_cancelled (s.objects r).status ≡ true
      → exec ≡ (returns tt, with_log (finish_entry r thread s) begun)
  unfolding execute_and_finalize_task try_task start_entry finish_entry
  exec-cancelled h early c =
      rw (run-in_time r moment (with_log (start_entry r thread s) s) h early)
        (rw (finalize-cancelled r now (with_log (start_entry r thread s) s) c))

  pub exec-repeats :
      (execute (s.objects r) moment).thrown ≡ none
      → is_late (s.objects r).timeout (execute (s.objects r) moment).elapsed ≡ false
      → is_cancelled (s.objects r).status ≡ false
      → (s.objects r).is_repeatable ≡ true
      → exec ≡ (returns tt, with_log (finish_entry r thread s) (requeued r now (announced r begun)))
  unfolding execute_and_finalize_task try_task start_entry finish_entry
  exec-repeats h early c again =
      rw (run-in_time r moment (with_log (start_entry r thread s) s) h early) (
        rw (finalize-completed r now (with_log (start_entry r thread s) s) quiet c) (
          rw (
            repeat-repeatable r now (announced r (with_log (start_entry r thread s) s))
              repeatable)))
    where
      repeatable :
          ((announced r (with_log (start_entry r thread s) s)).objects r).is_repeatable ≡ true
      repeatable = announced-repeatable r (with_log (start_entry r thread s) s) ∙ again

  pub exec-completes :
      (execute (s.objects r) moment).thrown ≡ none
      → is_late (s.objects r).timeout (execute (s.objects r) moment).elapsed ≡ false
      → is_cancelled (s.objects r).status ≡ false
      → (s.objects r).is_repeatable ≡ false
      → exec ≡ (returns tt, with_log (finish_entry r thread s) (removed r (announced r begun)))
  unfolding execute_and_finalize_task try_task start_entry finish_entry
  exec-completes h early c once =
      rw (run-in_time r moment (with_log (start_entry r thread s) s) h early) (
        rw (finalize-completed r now (with_log (start_entry r thread s) s) quiet c)
          (rw (repeat-single r now (announced r (with_log (start_entry r thread s) s)) single)))
    where
      single : ((announced r (with_log (start_entry r thread s) s)).objects r).is_repeatable ≡ false
      single = announced-repeatable r (with_log (start_entry r thread s) s) ∙ once
