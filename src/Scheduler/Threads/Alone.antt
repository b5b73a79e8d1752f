-- ===== src/Scheduler/Threads/Alone.antt =====
-- A method whose thread runs alone: its actions, one after another, do what the method does as a whole
-- in `Client` and `Execute`.
pub mod Methods
use task_sched_x.Prelude.{
  ℕ, ◌+◌, ◌≡◌, refl, sym, ap, ◌∙◌, Bool, true, false, Option, none, some, List, [], ◌∷◌, ◌++◌,
  Bytes, codes, put, update, if◌then◌else◌, inl, inr, Bool-cases, Option-cases, arith, ◌||◌,
}
use task_sched_x.Prelude.Int.{ℤ, pos, le_int}
use task_sched_x.Task.{Task, Status, Exception, execute, failed, completed, cancelled, new_task}
use task_sched_x.TaskQueue
use task_sched_x.Scheduler.State.{
  Scheduler, M, Outcome, returns, throws, continue, invoke_callback, notify_task_completion,
  update_statistics, assign_status, erase_active,
}
use task_sched_x.Scheduler.State
use task_sched_x.Scheduler.Client.{
  TaskConfig, make_task, schedule_task, cancel_task, cancel_active, cancel_queued, report_cancel,
}
use task_sched_x.Scheduler.Execute.{
  close_task, end_call, check_timeout, run_task_with_timeout, repeat_or_remove,
  finalize_completed_task, fail_task, try_task, execute_and_finalize_task, timed_out, is_cancelled,
}
use task_sched_x.Scheduler.Threads
use task_sched_x.Scheduler.Threads.{
  Program, ended, act, create, enqueue, Code, resume, atomic, ask, notify_code, close_code,
  end_code, timeout_code, run_code, repeat_code, finalize_code, fail_code, try_code, execute_code,
  report_code, cancel_code, schedule_code, register, put_in_queue,
}

unfoldable pub run : Program → Scheduler → Scheduler
run ended s = s
run (act f g) s = run (g s) (f s)
run (create c k) s = run (k s.next_object) (register c s)
run (enqueue task k) s = run k (put_in_queue task s)

-- What follows a method, from where it ends.
abbrev pub run_on :
    {A : Type 0} → Outcome A × Scheduler → (A → Program) → (Exception → Program) → Scheduler
run_on (returns a, s) k h = run (k a) s
run_on (throws e, s) k h = run (h e) s

-- The program does what the method does: it leaves its state, and goes on with its value or exception.
pub record Implements {A : Type 0} (p : Code A) (m : M A) : Type 0 where
  pub runs :
      (k : A → Program) (h : Exception → Program) (s : Scheduler) → run (p k h) s ≡ run_on (m s) k h

module _ {A : Type 0} where
  run-resume :
      (o : Outcome A × Scheduler) (k : A → Program) (h : Exception → Program)
      → run (resume o.0 k h) o.1 ≡ run_on o k h
  run-resume (returns a, s) k h = refl
  run-resume (throws e, s) k h = refl

  atomic-Implements : (m : M A) → Implements (atomic m) m
  unfolding run
  atomic-Implements m = record { runs = λ k h s. run-resume (m s) k h }

  pure-Implements : (a : A) → Implements (Threads.pure a) (State.pure a)
  pure-Implements a = record { runs = λ k h s. refl }

  handle-Implements :
      (p : Code A) (m : M A) (q : Exception → Code A) (n : Exception → M A)
      → Implements p m
      → ((e : Exception) → Implements (q e) (n e))
      → Implements (Threads.handle p q) (λ s. State.handle (m s) n)
  handle-Implements p m q n i j = record {
    runs = λ k h s. i.runs k (λ e. q e k h) s ∙ handled k h (m s);
  }
    where
      handled :
          (k : A → Program) (h : Exception → Program) (o : Outcome A × Scheduler)
          → run_on o k (λ e. q e k h) ≡ run_on (State.handle o n) k h
      handled k h (returns a, t) = refl
      handled k h (throws e, t) = (j e).runs k h t

module _ {A B : Type 0} where
  bind-Implements :
      (p : Code A) (m : M A) (q : A → Code B) (n : A → M B)
      → Implements p m
      → ((a : A) → Implements (q a) (n a))
      → Implements (Threads.◌>>=◌ p q) (State.◌>>=◌ m n)
  bind-Implements p m q n i j = record {
    runs = λ k h s. i.runs (λ a. q a k h) h s ∙ bound k h (m s);
  }
    where
      bound :
          (k : B → Program) (h : Exception → Program) (o : Outcome A × Scheduler)
          → run_on o (λ a. q a k h) h ≡ run_on (continue o n) k h
      bound k h (returns a, t) = (j a).runs k h t
      bound k h (throws e, t) = refl

  -- What follows a read, as a method that reads for itself.
  ask-Implements :
      (f : Scheduler → A) (q : A → Code B) (n : A → M B)
      → ((a : A) → Implements (q a) (n a))
      → Implements (Threads.◌>>=◌ (ask f) q) (λ s. n (f s) s)
  unfolding run
  ask-Implements f q n j = record { runs = λ k h s. (j (f s)).runs k h s }

-- A branch, in the form in which the methods have it.
branch-Implements :
    {A : Type 0} (b : Bool) (p q : Code A) (m n : M A)
    → Implements p m
    → Implements q n
    → Implements (if b then p else q) (λ s. if b then m s else n s)
branch-Implements true p q m n i j = i
branch-Implements false p q m n i j = j

-- A branch on what was read.
choose-Implements :
    {A B : Type 0} (f : Scheduler → A) (b : A → Bool) (p q : A → Code B) (m n : A → M B)
    → ((a : A) → Implements (p a) (m a))
    → ((a : A) → Implements (q a) (n a))
    → Implements
        (Threads.◌>>=◌ (ask f) (λ a. if b a then p a else q a))
        (λ s. if b (f s) then m (f s) s else n (f s) s)
choose-Implements f b p q m n i j =
    ask-Implements f (λ a. if b a then p a else q a) (λ a s. if b a then m a s else n a s)
      (λ a. branch-Implements (b a) (p a) (q a) (m a) (n a) (i a) (j a))
