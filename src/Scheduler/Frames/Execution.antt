-- ===== src/Scheduler/Frames/Execution.antt =====
-- What an execution of a task leaves alone, whatever the task and the callback throw.
use task_sched_x.Scheduler.Frames.Running.{with_log, Touched-log, run-Touched, fail-Touched}
use task_sched_x.Prelude.{
  ℕ, ◌≡◌, ◌≢◌, refl, ap, ◌⊎◌, inl, inr, Bool, List, ◌++◌, Bytes, codes, put, arith, find-erase,
  Bool-cases, ◌||◌, true,
}
use task_sched_x.Prelude.Int.{ℤ}
use task_sched_x.Task.{Status, completed, set_status, reschedule}
use task_sched_x.TaskQueue
use task_sched_x.TaskQueue.{TaskQueue}
use task_sched_x.Logger.{LogCall, infos}
use task_sched_x.Scheduler.State.{
  Scheduler, Outcome, returns, throws, continue, update_statistics, handle,
}
use task_sched_x.Scheduler.Execute.{
  run_task_with_timeout, repeat_or_remove, finalize_completed_task, fail_task, try_task,
  execute_and_finalize_task, is_cancelled,
}
use task_sched_x.Scheduler.Frames.{
  Touched, Touched-refl, Touched-trans, Notified-cases, notice, noted,
}

-- The task at `r` was queued again, by an execution that touched nothing else.
pub record Requeued (r : ℕ) (s s' : Scheduler) : Type 0 where
  pub before : Scheduler
  pub touched : Touched r s before
  pub was_repeatable : (before.objects r).is_repeatable ≡ true
  pub others : (x : ℕ) → x ≢ r → s'.objects x ≡ before.objects x
  pub same_id : (s'.objects r).task_id ≡ (before.objects r).task_id
  pub shape : s' ≡ record before {
    objects = s'.objects;
    task_queue = TaskQueue.push s'.objects r before.task_queue;
    logged = s'.logged;
  }

abbrev pub Settled : ℕ → Scheduler → Outcome (Unit {0}) × Scheduler → Type 0
Settled r s o = Touched r s o.1 ⊎ ((o.0 ≡ returns tt) × Requeued r s o.1)

repeat-Settled :
    (r : ℕ) (now : ℤ) (s t : Scheduler) → Touched r s t → Settled r s (repeat_or_remove r now t)
unfolding repeat_or_remove set_status reschedule
repeat-Settled r now s t h = elim (Bool-cases (t.objects r).is_repeatable) [
  | inl again ↦ rw again (
      inr (
        refl,
        record {
          before = t;
          touched = h;
          was_repeatable = again;
          others = λ x ne. ground arith;
          same_id = ground arith;
          shape = refl;
        },
      ))
  | inr once ↦ rw once (
      inl (
        Touched-trans h (record {
          others = λ x ne. refl;
          same_id = refl;
          same_priority = refl;
          same_start = refl;
          same_repeatable = refl;
          next_object = refl;
          next_id = refl;
          loop = refl;
          task_queue = refl;
          pending = refl;
          executing = refl;
          same_pool = refl;
          active = λ j x e. ground (arith, find-erase (t.objects r).task_id j t.active_tasks);
        })))
]

announced-Touched :
    (r : ℕ) (id : Bytes) (ns : List (Bytes × Status)) (cs : List (Bytes × Status)) (s : Scheduler)
    → Touched r s (record (noted r completed s) { notified = ns; completed_tasks = cs })
unfolding set_status
announced-Touched r id ns cs s = record {
  others = λ x ne. ground arith;
  same_id = ground arith;
  same_priority = ground arith;
  same_start = ground arith;
  same_repeatable = ground arith;
  next_object = refl;
  next_id = refl;
  loop = refl;
  task_queue = refl;
  pending = refl;
  executing = refl;
  same_pool = refl;
  active = λ j x e. e;
}

finalize-Settled :
    (r : ℕ) (late : Bool) (now : ℤ) (s : Scheduler)
    → Settled r s (finalize_completed_task r late now s)
unfolding finalize_completed_task update_statistics notice
finalize-Settled r late now s =
    let id = (s.objects r).task_id in
    let s₁ = with_log (infos (codes "Task completed: " ++ id)) s in
    elim (Bool-cases (late || is_cancelled (s.objects r).status)) [
      | inl skip ↦ rw skip (inl (Touched-refl r s))
      | inr go ↦
          let (ns, how) = Notified-cases id completed (noted r completed s₁) in
          elim how [
            | inl e ↦
                rw (go, e)
                  (repeat-Settled r now s _ (
                    Touched-trans (Touched-log r s _)
                      (announced-Touched r id ns (put id completed s.completed_tasks) s₁)))
            | inr (x, e) ↦
                rw (go, e)
                  (inl (
                    Touched-trans (Touched-log r s _)
                      (announced-Touched r id ns s.completed_tasks s₁)))
          ]
    ]

Settled-from :
    {r : ℕ} {s t : Scheduler} (o : Outcome (Unit {0}) × Scheduler)
    → Touched r s t
    → Settled r t o
    → Settled r s o
Settled-from o h (inl k) = inl (Touched-trans h k)
Settled-from o h (inr (e, q)) = inr (
  e,
  record {
    before = q.before;
    touched = Touched-trans h q.touched;
    was_repeatable = q.was_repeatable;
    others = q.others;
    same_id = q.same_id;
    shape = q.shape;
  },
)

-- One more entry in the log.
Settled-log :
    (r : ℕ) (s : Scheduler) (o : Outcome (Unit {0}) × Scheduler) (entry : LogCall)
    → Settled r s o
    → Settled r s (continue o (λ _ t. (returns tt, with_log entry t)))
Settled-log r s (throws e, t) entry h = h
Settled-log r s (returns a, t) entry (inl h) = inl (Touched-trans h (Touched-log r t _))
Settled-log r s (returns a, t) entry (inr (e, q)) = inr (
  refl,
  record {
    before = q.before;
    touched = q.touched;
    was_repeatable = q.was_repeatable;
    others = q.others;
    same_id = q.same_id;
    shape = ap (with_log entry) q.shape;
  },
)

-- The body of the `try` block behind its first log line.
Settled-run :
    (r : ℕ) (now : ℤ) (entry : LogCall) (s : Scheduler) (o : Outcome Bool × Scheduler)
    → Touched r s o.1
    → Settled r s (
        continue o (λ late t.
          continue (finalize_completed_task r late now t) (λ _ u. (returns tt, with_log entry u))))
Settled-run r now entry s (throws e, t) h = inl h
Settled-run r now entry s (returns late, t) h =
    Settled-from _ h
      (Settled-log r t (finalize_completed_task r late now t) entry (finalize-Settled r late now t))

Settled-handle :
    (r : ℕ) (s : Scheduler) (o : Outcome (Unit {0}) × Scheduler)
    → Settled r s o
    → Settled r s (handle o (fail_task r))
Settled-handle r s (returns a, t) h = h
Settled-handle r s (throws e, t) (inl h) = inl (Touched-trans h (fail-Touched r e t))
Settled-handle r s (throws e, t) (inr (bad, q)) = cc

-- Whatever the task's function and the callback throw, an execution either queues its task again, as the
-- last thing that it does, or leaves the queue alone; it changes no other task.
pub execute-Settled :
    (r : ℕ) (thread : Bytes) (moment : ℕ) (now : ℤ) (s : Scheduler)
    → Settled r s (execute_and_finalize_task r thread moment now s)
unfolding execute_and_finalize_task try_task
execute-Settled r thread moment now s =
    let id = (s.objects r).task_id in
    let s₁ =
      with_log (infos (codes "Task started: " ++ (id ++ (codes " | Thread ID: " ++ thread)))) s in
    Settled-handle r s _ (
      Settled-run r now
        (infos (codes "Task finished: " ++ (id ++ (codes " | Thread ID: " ++ thread)))) s
        (run_task_with_timeout r moment s₁)
        (Touched-trans (Touched-log r s _) (run-Touched r moment s₁)))
