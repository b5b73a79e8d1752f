-- ===== src/Scheduler/Threads/Neutral/Codes.antt =====
-- The methods take neutral actions only.
use task_sched_x.Scheduler.Threads.Neutral.Steady.{
  IsProper, IsSteady, log-IsSteady, notify-IsSteady, run-IsSteady, fail-IsSteady, atomic-IsSteady,
  pure-IsSteady, ask-IsSteady,
}
use task_sched_x.Prelude.{
  ℕ, refl, Bool, true, false, ◌||◌, Option, none, some, ◌++◌, Bytes, codes, update, if◌then◌else◌,
}
use task_sched_x.Prelude.Int.{ℤ}
use task_sched_x.Task.{Exception, reschedule, completed, pending}
use task_sched_x.Logger.{LogCall, debugs, infos}
use task_sched_x.Scheduler.State.{log, modify, update_statistics, assign_status, erase_active}
use task_sched_x.Scheduler.Client.{TaskConfig}
use task_sched_x.Scheduler.Execute.{is_cancelled}
use task_sched_x.Scheduler.Threads
use task_sched_x.Scheduler.Threads.{
  Program, ended, act, create, enqueue, Code, resume, atomic, ask, notify_code, close_code,
  end_code, timeout_code, run_code, repeat_code, finalize_code, fail_code, try_code, execute_code,
  report_code, cancel_code, schedule_code, push_task,
}
use task_sched_x.Scheduler.Threads.Neutral.{
  Outside-Safe, statistics-Safe, status-Safe, erase-Safe, reschedule-Safe,
}

-- What follows is proper, whether the thread still carries the task or not.
abbrev EitherWay : {A : Type 0} → (A → Program) → Type 0
EitherWay {A} k = (o : Option ℕ) (a : A) → IsProper o (k a)

-- A part of a method that may put the task in the queue that the thread carries.
module _ (task : ℕ) where
  pub record GivesUp {A : Type 0} (p : Code A) : Type 0 where
    pub gives_up :
        (k : A → Program) (h : Exception → Program)
        → EitherWay k
        → EitherWay h
        → IsProper (some task) (p k h)

  steady-GivesUp : {A : Type 0} (p : Code A) → IsSteady (some task) p → GivesUp p
  steady-GivesUp p i = record { gives_up = λ k h u v. i.proper k h (u (some task)) (v (some task)) }

  bind-GivesUp :
      {A B : Type 0} (p : Code A) (q : A → Code B)
      → IsSteady (some task) p
      → ((a : A) → GivesUp (q a))
      → GivesUp (Threads.◌>>=◌ p q)
  bind-GivesUp p q i j = record {
    gives_up = λ k h u v. i.proper (λ a. q a k h) h (λ a. (j a).gives_up k h u v) (v (some task));
  }

  then-GivesUp :
      {B : Type 0} (p : Code (Unit {0})) (q : Code B)
      → IsSteady (some task) p
      → GivesUp q
      → GivesUp (Threads.◌>>◌ p q)
  then-GivesUp p q i j = bind-GivesUp p (λ _. q) i (λ _. j)

  branch-GivesUp :
      {A : Type 0} (b : Bool) (p q : Code A) → GivesUp p → GivesUp q → GivesUp (if b then p else q)
  branch-GivesUp true p q i j = i
  branch-GivesUp false p q i j = j

  push-GivesUp : GivesUp (push_task task)
  push-GivesUp = record { gives_up = λ k h u v. (refl, u none tt) }

  repeat-GivesUp : (now : ℤ) → GivesUp (repeat_code task now)
  unfolding repeat_code
  repeat-GivesUp now = bind-GivesUp (ask λ s. s.objects task) _ (ask-IsSteady _ _) (λ t.
      branch-GivesUp t.is_repeatable _ _
        (then-GivesUp _ _
          (log-IsSteady _ (debugs (codes "Rescheduling repeatable task: " ++ t.task_id)))
          (then-GivesUp _ _
            (atomic-IsSteady (some task)
              (modify
                λ s. record s { objects = update s.objects task (reschedule now (s.objects task)) })
              (reschedule-Safe task now))
            (then-GivesUp (atomic (assign_status task pending)) _
              (atomic-IsSteady _ (assign_status task pending) (status-Safe _ task pending))
              push-GivesUp)))
        (steady-GivesUp _ (atomic-IsSteady _ (erase_active t.task_id) (erase-Safe _ t.task_id))))

  finalize-GivesUp : (late : Bool) (now : ℤ) → GivesUp (finalize_code task late now)
  unfolding finalize_code
  finalize-GivesUp late now = bind-GivesUp (ask λ s. s.objects task) _ (ask-IsSteady _ _) (λ t.
      branch-GivesUp (late || is_cancelled t.status) _ _ (steady-GivesUp _ (pure-IsSteady _ tt)) (
        then-GivesUp _ _ (log-IsSteady _ (infos (codes "Task completed: " ++ t.task_id))) (
          then-GivesUp (atomic (assign_status task completed)) _
            (atomic-IsSteady _ (assign_status task completed) (status-Safe _ task completed))
            (then-GivesUp (atomic (update_statistics completed)) _
              (atomic-IsSteady _ (update_statistics completed) (statistics-Safe _ completed))
              (then-GivesUp _ _ (notify-IsSteady _ t.task_id completed) (repeat-GivesUp now))))))

  log_after-GivesUp :
      (p : Code (Unit {0})) (c : LogCall) → GivesUp p → GivesUp (Threads.◌>>◌ p (atomic (log c)))
  log_after-GivesUp p c i = record {
    gives_up = λ k h u v.
        i.gives_up (λ _. atomic (log c) k h) h (λ o _. (log-IsSteady o c).proper k h (u o) (v o)) v;
  }

  try-GivesUp : (thread : Bytes) (moment : ℕ) (now : ℤ) → GivesUp (try_code task thread moment now)
  unfolding try_code
  try-GivesUp thread moment now =
      let name = λ (id : Bytes). id ++ (codes " | Thread ID: " ++ thread) in
      bind-GivesUp (ask λ s. (s.objects task).task_id) _ (ask-IsSteady _ _) (λ id.
        then-GivesUp _ _ (log-IsSteady _ (infos (codes "Task started: " ++ name id))) (
          bind-GivesUp (run_code task moment)
            (λ late.
              Threads.◌>>◌ (finalize_code task late now)
                (atomic (log (infos (codes "Task finished: " ++ name id)))))
            (run-IsSteady _ task moment)
            (λ late.
              log_after-GivesUp (finalize_code task late now)
                (infos (codes "Task finished: " ++ name id)) (finalize-GivesUp late now))))

  pub execute-IsProper :
      (thread : Bytes) (moment : ℕ) (now : ℤ)
      → IsProper (some task) (execute_code task thread moment now (λ _. ended) (λ _. ended))
  unfolding execute_code
  execute-IsProper thread moment now =
      (try-GivesUp thread moment now).gives_up (λ _. ended)
        (λ e. fail_code task e (λ _. ended) (λ _. ended)) (λ o _. tt)
        (λ o e. (fail-IsSteady o task e).proper (λ _. ended) (λ _. ended) (λ _. tt) (λ _. tt))

pub schedule-IsProper : (c : TaskConfig) → IsProper none (schedule_code c (λ _. ended) (λ _. ended))
unfolding schedule_code
schedule-IsProper c r = (
  Outside-Safe (some r) (λ s. s)
      (λ s. (refl, refl, refl, refl, refl, refl, refl, refl, refl, refl)),
  λ s. (
    refl,
    (
      Outside-Safe none _ (λ s'. (refl, refl, refl, refl, refl, refl, refl, refl, refl, refl)),
      λ s'. (
        Outside-Safe none _ (λ s''. (refl, refl, refl, refl, refl, refl, refl, refl, refl, refl)),
        λ s''. tt,
      ),
    ),
  ),
)
