-- ===== src/Scheduler/Races.antt =====
-- Cancellations that come while a task is on its way to a worker, or with one.
use task_sched_x.Scheduler.System.{Step, dispatches}
use task_sched_x.Prelude.{
  ℕ, ◌≡◌, refl, true, false, none, some, List, [], ◌∷◌, ◌++◌, Bytes, find, arith, ap, sym, ◌∙◌,
}
use mathlib.Core.List.{append_assoc}
use task_sched_x.Prelude.Int.{ℤ}
use task_sched_x.Task.{Task, Status, completed, failed, cancelled, Exception, execute, set_status}
use task_sched_x.Scheduler.State.{Scheduler, increment, returns, checked}
use task_sched_x.Scheduler.WellFormed.{WellFormed}
use task_sched_x.Scheduler.Callbacks.{Quiet, told}
use task_sched_x.Scheduler.Client.{cancel_task, get_task_status}
use task_sched_x.Scheduler.Cancelling.{ActiveCancelled, cancel_task_active}
use task_sched_x.Scheduler.Execute.{execute_and_finalize_task}
use task_sched_x.Scheduler.Loop.{dispatch}
use task_sched_x.Scheduler.Outcomes.Defs.{verdict, fails, completes, is_late, Closed, counted}
use task_sched_x.Scheduler.Outcomes.Theorem.{execute_and_finalize_task-Ends}

-- The task `id`, at `r`, was cancelled, which leads from `s` to `c`, and then ended with `status` all
-- the same, which leads to `e`.
pub record EndedTwice (status : Status) (id : Bytes) (r : ℕ) (s c e : Scheduler) : Type 0 where
  pub said_cancelled : (get_task_status id c).0 ≡ cancelled
  pub says : (get_task_status id e).0 ≡ status
  pub marked : (e.objects r).status ≡ status
  pub statistics :
      e.stats
      ≡ counted status (record (s.stats) { tasks_cancelled = increment s.stats.tasks_cancelled })
  pub announced :
      e.notified
      ≡ s.notified
        ++ (told s.completion_callback id cancelled ++ told s.completion_callback id status)

-- An execution that closes the task after its cancellation.
ended_twice :
    (status : Status) (id : Bytes) (r : ℕ) (s c d e : Scheduler)
    → ActiveCancelled id r s c
    → (d.objects r).task_id ≡ id
    → d.stats ≡ c.stats
    → d.notified ≡ c.notified
    → d.completion_callback ≡ c.completion_callback
    → Closed status r d e
    → EndedTwice status id r s c e
ended_twice status id r s c d e a same_id stats notified callback k = record {
  said_cancelled = a.answers_cancelled;
  says = ap (λ i. (get_task_status i e).0) (sym same_id) ∙ k.answers;
  marked = ap (λ (t : Task). t.status) k.marked;
  statistics = k.statistics ∙ ap (counted status) (stats ∙ a.statistics);
  announced =
      k.announced
      ∙ rw (notified, a.announced, callback, a.same_callback, same_id)
          (append_assoc s.notified _ _);
}

module _ (id : Bytes) (r : ℕ) (thread : Bytes) (moment : ℕ) (now : ℤ) (s : Scheduler)
    (v : WellFormed s) (quiet : Quiet s.completion_callback)
    (e : find id s.active_tasks ≡ some r) where
  -- The state after the cancellation.
  abbrev cut : Scheduler
  cut = (cancel_task id s).1

  cut-ActiveCancelled : ActiveCancelled id r s cut
  cut-ActiveCancelled = (cancel_task_active id r s v quiet e).1

  cut-Quiet : Quiet cut.completion_callback
  cut-Quiet = rw cut-ActiveCancelled.same_callback quiet

  cut_id : (cut.objects r).task_id ≡ id
  cut_id = ap (λ (t : Task). t.task_id) cut-ActiveCancelled.marked ∙ (v.registered id r e).1

  failing_verdict :
      (x : Exception)
      → (execute (s.objects r) moment).thrown ≡ some x
      → verdict (cut.objects r) (execute (cut.objects r) moment) ≡ fails x
  unfolding execute
  failing_verdict x h = rw cut-ActiveCancelled.marked (rw h)

  completing_verdict :
      (execute (s.objects r) moment).thrown ≡ none
      → is_late (s.objects r).timeout (execute (s.objects r) moment).elapsed ≡ false
      → (s.objects r).is_repeatable ≡ false
      → verdict ((dispatch r cut).objects r) (execute ((dispatch r cut).objects r) moment)
        ≡ completes
  unfolding execute dispatch set_status
  completing_verdict h early single = ground (arith, cut-ActiveCancelled.marked)

  -- In a well-formed scheduler with a callback that throws nothing, a registered task is cancelled
  -- while its function runs, which then throws: the cancellation was answered with true, counted
  -- and announced, and then the task is counted and announced as failed as well, and says FAILED
  -- from there on.
  pub cancelled_then_failed :
      (x : Exception)
      → (execute (s.objects r) moment).thrown ≡ some x
      → ((cancel_task id s).0 ≡ returns true)
        × EndedTwice failed id r s
            (cancel_task id s).1
            (execute_and_finalize_task r thread moment now (cancel_task id s).1).1
  cancelled_then_failed x h =
      let ends = (execute_and_finalize_task-Ends r thread moment now cut cut-Quiet).1 in
      let closed : Closed failed r cut (execute_and_finalize_task r thread moment now cut).1 =
        rw (failing_verdict x h) at ends in
      (
        (cancel_task_active id r s v quiet e).0,
        ended_twice failed id r s cut cut _ cut-ActiveCancelled cut_id refl refl refl closed,
      )

  -- In a well-formed scheduler with a callback that throws nothing, a registered task is cancelled
  -- after the scheduler's thread has tested its status and before it marks it as running: the
  -- cancellation is lost. The thread hands the task to the pool, and when its function returns in
  -- time the task, not being repeatable, is counted and announced as completed, after it was
  -- counted and announced as cancelled.
  pub cancelled_then_completed :
      s.loop ≡ checked r
      → (execute (s.objects r) moment).thrown ≡ none
      → is_late (s.objects r).timeout (execute (s.objects r) moment).elapsed ≡ false
      → (s.objects r).is_repeatable ≡ false
      → ((cancel_task id s).0 ≡ returns true)
        × Step (cancel_task id s).1 (dispatch r (cancel_task id s).1)
        × ((dispatch r (cancel_task id s).1).pending ≡ s.pending ++ r ∷ [])
        × EndedTwice completed id r s
            (cancel_task id s).1
            (execute_and_finalize_task r thread moment now (dispatch r (cancel_task id s).1)).1
  unfolding dispatch set_status
  cancelled_then_completed l h early single =
      let d = dispatch r cut in
      let ends = (execute_and_finalize_task-Ends r thread moment now d cut-Quiet).1 in
      let closed : Closed completed r d (execute_and_finalize_task r thread moment now d).1 =
        rw (completing_verdict h early single) at ends in
      (
        (cancel_task_active id r s v quiet e).0,
        dispatches r (cut-ActiveCancelled.same_loop.0 ∙ l),
        ap (λ (p : List ℕ). p ++ r ∷ []) cut-ActiveCancelled.same_jobs.0,
        ended_twice completed id r s cut d _ cut-ActiveCancelled (ground (arith, cut_id)) refl refl
            refl closed,
      )
