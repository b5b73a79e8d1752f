-- ===== src/Scheduler/Outcomes/Theorem.antt =====
-- The theorem on executions.
use task_sched_x.Scheduler.Outcomes.Branches.{
  exec-failing, exec-late, exec-cancelled, exec-repeats, exec-completes,
}
use task_sched_x.Prelude.{
  ℕ, ◌≡◌, refl, List, Bytes, arith, find-put, find-erase, str_eq_iff, Bool-cases, Option-cases, inl,
  inr,
}
use task_sched_x.Prelude.Int.{ℤ}
use task_sched_x.Task.{Status, completed, failed, execute, set_status, reschedule}
use task_sched_x.TaskQueue
use task_sched_x.TaskQueue.Order.{count-pq_push}
use task_sched_x.Logger.{LogCall}
use task_sched_x.Scheduler.State.{Scheduler, count_status, returns}
use task_sched_x.Scheduler.Callbacks.{Quiet}
use task_sched_x.Scheduler.Client.{get_task_status}
use task_sched_x.Scheduler.Execute.{is_cancelled, execute_and_finalize_task}
use task_sched_x.Scheduler.Outcomes.Defs.{verdict, is_late, Closed, Repeated, Ends, counted}
use task_sched_x.Scheduler.Outcomes.Runs.{closed, announced, requeued, removed, renewed}

-- The states of the branches are as described; the log plays no part in it.
closed-Closed :
    (r : ℕ) (status : Status) (s : Scheduler) (entries : List LogCall)
    → count_status status s.stats ≡ counted status s.stats
    → Closed status r s (record (closed r (s.objects r).task_id status s) { logged = entries })
unfolding get_task_status
closed-Closed r status s entries same =
    let id = (s.objects r).task_id in
    record {
      marked = ground arith;
      statistics = same;
      announced = refl;
      unregistered = ground (arith, find-erase id id s.active_tasks, str_eq_iff id id);
      answers = ground (
        arith,
        find-erase id id s.active_tasks,
        find-put id id status s.completed_tasks,
        str_eq_iff id id,
      );
      same_queue = refl;
    }

removed-Closed :
    (r : ℕ) (s : Scheduler) (entries more : List LogCall)
    → Closed completed r s
        (record (removed r (announced r (record s { logged = entries }))) { logged = more })
unfolding get_task_status removed announced count_status
removed-Closed r s entries more =
    let id = (s.objects r).task_id in
    record {
      marked = ground arith;
      statistics = refl;
      announced = refl;
      unregistered = ground (arith, find-erase id id s.active_tasks, str_eq_iff id id);
      answers = ground (
        arith,
        find-erase id id s.active_tasks,
        find-put id id completed s.completed_tasks,
        str_eq_iff id id,
      );
      same_queue = refl;
    }

requeued-Repeated :
    (r : ℕ) (now : ℤ) (s : Scheduler) (entries more : List LogCall)
    → Repeated r now s
        (record (requeued r now (announced r (record s { logged = entries }))) { logged = more })
unfolding requeued announced count_status renewed set_status reschedule TaskQueue.push
requeued-Repeated r now s entries more = record {
  renewed = ground arith;
  statistics = refl;
  announced = refl;
  same_active = refl;
  requeued = λ x.
      count-pq_push (renewed r now (announced r (record s { logged = entries }))) r x
        s.task_queue.pq;
}

-- One execution of the task at `r` by a worker thread, under a callback that throws nothing: nothing
-- is thrown back to the pool, and what is left is what the outcome of the call of the task's function asks
-- for. A call that throws fails the task; one that comes back a whole second or more after a positive
-- timeout times it out; else a task that was cancelled meanwhile is left alone, a repeatable one is
-- queued again, and any other is completed.
pub execute_and_finalize_task-Ends :
    (r : ℕ) (thread : Bytes) (moment : ℕ) (now : ℤ) (s : Scheduler)
    → Quiet s.completion_callback
    → ((execute_and_finalize_task r thread moment now s).0 ≡ returns tt)
      × Ends
          (verdict (s.objects r) (execute (s.objects r) moment))
          r
          now
          s
          (execute_and_finalize_task r thread moment now s).1
unfolding count_status
execute_and_finalize_task-Ends r thread moment now s quiet =
    let t = s.objects r in
    let call = execute t moment in
    elim (Option-cases call.thrown) [
      | inr (e, h) ↦
          rw (h, exec-failing r thread moment now s quiet e h)
            (refl, closed-Closed r failed s _ refl)
      | inl h ↦ elim (Bool-cases (is_late t.timeout call.elapsed)) [
        | inl late ↦
            rw (h, late, exec-late r thread moment now s quiet h late)
              (refl, closed-Closed r Status.timeout s _ refl)
        | inr early ↦ elim (Bool-cases (is_cancelled t.status)) [
          | inl c ↦
              rw (h, early, c, exec-cancelled r thread moment now s quiet h early c)
                (
                  refl,
                  record {
                    same_objects = refl;
                    same_statistics = refl;
                    same_notified = refl;
                    same_active = refl;
                    same_completed = refl;
                    same_queue = refl;
                  },
                )
          | inr live ↦ elim (Bool-cases t.is_repeatable) [
            | inl again ↦
                rw
                  (
                    h,
                    early,
                    live,
                    again,
                    exec-repeats r thread moment now s quiet h early live again,
                  )
                  (refl, requeued-Repeated r now s _ _)
            | inr once ↦
                rw
                  (
                    h,
                    early,
                    live,
                    once,
                    exec-completes r thread moment now s quiet h early live once,
                  )
                  (refl, removed-Closed r s _ _)
          ]
        ]
      ]
    ]
