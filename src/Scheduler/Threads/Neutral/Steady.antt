-- ===== src/Scheduler/Threads/Neutral/Steady.antt =====
-- Programs that take neutral actions only, and the methods in which a thread keeps what it carries.
use task_sched_x.Prelude.{
  ℕ, ◌≡◌, refl, Bool, true, false, Option, none, some, Bytes, put, if◌then◌else◌,
}
use task_sched_x.Prelude.Int.{ℤ, pos, le_int}
use task_sched_x.Task.{Status, Exception, execute, failed, cancelled}
use task_sched_x.Logger.{LogCall, errors}
use task_sched_x.Scheduler.State.{
  Scheduler, M, Outcome, returns, throws, log, modify, invoke_callback, update_statistics,
  assign_status, erase_active,
}
use task_sched_x.Scheduler.Client.{cancel_active, cancel_queued, missing_entry}
use task_sched_x.Scheduler.Execute.{timed_out, failure_text, late_entry}
use task_sched_x.Scheduler.Threads
use task_sched_x.Scheduler.Threads.{
  Program, ended, act, create, enqueue, Code, resume, atomic, ask, notify_code, close_code,
  end_code, timeout_code, run_code, repeat_code, finalize_code, fail_code, try_code, execute_code,
  report_code, cancel_code, schedule_code, push_task,
}
use task_sched_x.Scheduler.Threads.Neutral.{
  Safe, Outside-Safe, callback-Safe, statistics-Safe, status-Safe, erase-Safe, cancel_active-Safe,
  cancel_queued-Safe,
}

-- The program of a thread that carries the task: its actions are neutral, it registers a task only
-- when it carries none, and it puts a task in the queue only when it carries that one.
abbrev pub IsProper : Option ℕ → Program → Type 0
IsProper o ended = Unit {0}
IsProper o (act f g) = Safe o f × ((s : Scheduler) → IsProper o (g s))
IsProper none (create c k) = (r : ℕ) → IsProper (some r) (k r)
IsProper (some x) (create c k) = ⊥
IsProper none (enqueue r k) = ⊥
IsProper (some x) (enqueue r k) = (r ≡ x) × IsProper none k

-- A thread that carries this.
module _ (o : Option ℕ) where
  -- A part of a method in which the thread carries what it carried.
  pub record IsSteady {A : Type 0} (p : Code A) : Type 0 where
    pub proper :
        (k : A → Program) (h : Exception → Program)
        → ((a : A) → IsProper o (k a))
        → ((e : Exception) → IsProper o (h e))
        → IsProper o (p k h)

  module _ {A : Type 0} where
    resumed :
        (r : Outcome A) (k : A → Program) (h : Exception → Program)
        → ((a : A) → IsProper o (k a))
        → ((e : Exception) → IsProper o (h e))
        → IsProper o (resume r k h)
    resumed (returns a) k h i j = i a
    resumed (throws e) k h i j = j e

    pub atomic-IsSteady : (m : M A) → Safe o (λ s. (m s).1) → IsSteady (atomic m)
    atomic-IsSteady m safe = record { proper = λ k h i j. (safe, λ s. resumed (m s).0 k h i j) }

    pub pure-IsSteady : (a : A) → IsSteady (Threads.pure a)
    pure-IsSteady a = record { proper = λ k h i j. i a }

    pub branch-IsSteady :
        (b : Bool) (p q : Code A) → IsSteady p → IsSteady q → IsSteady (if b then p else q)
    branch-IsSteady true p q i j = i
    branch-IsSteady false p q i j = j

    pub ask-IsSteady : (f : Scheduler → A) → IsSteady (ask f)
    ask-IsSteady f =
        atomic-IsSteady (λ s. (returns (f s), s))
          (Outside-Safe o (λ s. s)
            (λ s. (refl, refl, refl, refl, refl, refl, refl, refl, refl, refl)))

  pub bind-IsSteady :
      {A B : Type 0} (p : Code A) (q : A → Code B)
      → IsSteady p
      → ((a : A) → IsSteady (q a))
      → IsSteady (Threads.◌>>=◌ p q)
  bind-IsSteady p q i j = record {
    proper = λ k h u v. i.proper (λ a. q a k h) h (λ a. (j a).proper k h u v) v;
  }

  pub then-IsSteady :
      {B : Type 0} (p : Code (Unit {0})) (q : Code B)
      → IsSteady p
      → IsSteady q
      → IsSteady (Threads.◌>>◌ p q)
  then-IsSteady p q i j = bind-IsSteady p (λ _. q) i (λ _. j)

  pub log-IsSteady : (c : LogCall) → IsSteady (atomic (log c))
  log-IsSteady c =
      atomic-IsSteady (log c)
        (Outside-Safe o _ (λ s. (refl, refl, refl, refl, refl, refl, refl, refl, refl, refl)))

  pub notify-IsSteady : (id : Bytes) (status : Status) → IsSteady (notify_code id status)
  unfolding notify_code
  notify-IsSteady id status =
      then-IsSteady (atomic (invoke_callback id status)) _
        (atomic-IsSteady (invoke_callback id status) (callback-Safe o id status))
        (atomic-IsSteady
          (modify λ s. record s { completed_tasks = put id status s.completed_tasks })
          (Outside-Safe o _ (λ s. (refl, refl, refl, refl, refl, refl, refl, refl, refl, refl))))

  pub close-IsSteady :
      (task : ℕ) (id : Bytes) (status : Status) → IsSteady (close_code task id status)
  unfolding close_code
  close-IsSteady task id status =
      then-IsSteady (atomic (assign_status task status)) _
        (atomic-IsSteady (assign_status task status) (status-Safe o task status))
        (then-IsSteady (atomic (update_statistics status)) _
          (atomic-IsSteady (update_statistics status) (statistics-Safe o status))
          (then-IsSteady (notify_code id status) _ (notify-IsSteady id status)
            (atomic-IsSteady (erase_active id) (erase-Safe o id))))

  pub end-IsSteady : (thrown : Option Exception) → IsSteady (end_code thrown)
  end-IsSteady none = pure-IsSteady tt
  end-IsSteady (some e) = record { proper = λ k h i j. j e }

  pub timeout-IsSteady :
      (task : ℕ) (limit : ℤ) (elapsed : ℕ) → IsSteady (timeout_code task limit elapsed)
  unfolding timeout_code
  timeout-IsSteady task limit elapsed =
      bind-IsSteady (ask λ s. (s.objects task).task_id) _ (ask-IsSteady _) (λ id.
        branch-IsSteady (timed_out limit elapsed) _ _
          (then-IsSteady _ _ (log-IsSteady (late_entry id))
            (then-IsSteady _ _ (close-IsSteady task id Status.timeout) (pure-IsSteady true)))
          (pure-IsSteady false))

  pub run-IsSteady : (task moment : ℕ) → IsSteady (run_code task moment)
  unfolding run_code
  run-IsSteady task moment = bind-IsSteady (ask λ s. s.objects task) _ (ask-IsSteady _) (λ t.
      branch-IsSteady (le_int t.timeout (pos 0)) _ _
        (then-IsSteady _ _ (end-IsSteady (execute t moment).thrown) (pure-IsSteady false))
        (then-IsSteady _ _ (end-IsSteady (execute t moment).thrown)
          (timeout-IsSteady task t.timeout (execute t moment).elapsed)))

  pub fail-IsSteady : (task : ℕ) (e : Exception) → IsSteady (fail_code task e)
  unfolding fail_code
  fail-IsSteady task e = bind-IsSteady (ask λ s. (s.objects task).task_id) _ (ask-IsSteady _) (λ id.
      then-IsSteady _ _ (log-IsSteady (errors (failure_text id e))) (close-IsSteady task id failed))

  pub report-IsSteady : (id : Bytes) (found : Bool) → IsSteady (report_code id found)
  unfolding report_code
  report-IsSteady id true =
      then-IsSteady (atomic (update_statistics cancelled)) _
        (atomic-IsSteady (update_statistics cancelled) (statistics-Safe o cancelled))
        (then-IsSteady _ _ (notify-IsSteady id cancelled) (pure-IsSteady true))
  report-IsSteady id false =
      then-IsSteady _ _ (log-IsSteady (missing_entry id)) (pure-IsSteady false)

  pub cancel-IsSteady : (id : Bytes) → IsSteady (cancel_code id)
  unfolding cancel_code
  cancel-IsSteady id =
      bind-IsSteady (atomic (cancel_active id)) _
        (atomic-IsSteady (cancel_active id) (cancel_active-Safe o id))
        (λ active.
          bind-IsSteady _ _
            (branch-IsSteady active (Threads.pure true) (atomic (cancel_queued id))
              (pure-IsSteady true) (atomic-IsSteady (cancel_queued id) (cancel_queued-Safe o id)))
            (report-IsSteady id))
