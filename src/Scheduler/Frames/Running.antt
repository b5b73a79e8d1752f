-- ===== src/Scheduler/Frames/Running.antt =====
-- What the call of a task's function, its timeout and its failure leave alone.
use task_sched_x.Prelude.{
  ℕ, refl, inl, inr, true, false, Option, none, some, List, [], ◌∷◌, ◌++◌, codes, Bool-cases,
}
use task_sched_x.Prelude.Int.{ℤ, pos, le_int}
use task_sched_x.Task.{Status, failed, Exception, execute}
use task_sched_x.Logger.{LogCall, warns}
use task_sched_x.Scheduler.State.{Scheduler, Outcome, returns, throws, continue, M}
use task_sched_x.Scheduler.Execute.{
  close_task, end_call, timed_out, run_task_with_timeout, fail_task, check_timeout,
}
use task_sched_x.Scheduler.Frames.{Touched, Touched-refl, Touched-trans, close_task-Touched}

abbrev pub with_log : LogCall → Scheduler → Scheduler
with_log entry s = record s { logged = s.logged ++ entry ∷ [] }

pub Touched-log : (r : ℕ) (s : Scheduler) (l : List LogCall) → Touched r s (record s { logged = l })
Touched-log r s l = record {
  others = λ x ne. refl;
  same_id = refl;
  same_priority = refl;
  same_start = refl;
  same_repeatable = refl;
  next_object = refl;
  next_id = refl;
  loop = refl;
  task_queue = refl;
  pending = refl;
  executing = refl;
  same_pool = refl;
  active = λ id x e. e;
}

-- The rule for `>>=`.
pub Touched-continue :
    {A B : Type 0} (r : ℕ) (s : Scheduler) (o : Outcome A × Scheduler) (f : A → M B)
    → Touched r s o.1
    → ((a : A) (t : Scheduler) → Touched r t (f a t).1)
    → Touched r s (continue o f).1
Touched-continue r s (returns a, t) f h k = Touched-trans h (k a t)
Touched-continue r s (throws e, t) f h k = h

pub Touched-end_call :
    (r : ℕ) (thrown : Option Exception) (s : Scheduler) → Touched r s (end_call thrown s).1
Touched-end_call r none s = Touched-refl r s
Touched-end_call r (some e) s = Touched-refl r s

pub check_timeout-Touched :
    (r : ℕ) (limit : ℤ) (elapsed : ℕ) (s : Scheduler)
    → Touched r s (check_timeout r limit elapsed s).1
unfolding check_timeout
check_timeout-Touched r limit elapsed s =
    let id = (s.objects r).task_id in
    elim (Bool-cases (timed_out limit elapsed)) [
      | inl late ↦ rw late (
          Touched-continue r s
            (close_task r id Status.timeout (with_log (warns (codes "Task timed out: " ++ id)) s))
            (λ _ u. (returns true, u))
            (Touched-trans (Touched-log r s _) (close_task-Touched r id Status.timeout _))
            (λ a u. Touched-refl r u))
      | inr early ↦ rw early (Touched-refl r s)
    ]

pub run-Touched : (r moment : ℕ) (s : Scheduler) → Touched r s (run_task_with_timeout r moment s).1
unfolding run_task_with_timeout
run-Touched r moment s =
    let t = s.objects r in
    let call = execute t moment in
    elim (Bool-cases (le_int t.timeout (pos 0))) [
      | inl free ↦ rw free (
          Touched-continue r s (end_call call.thrown s) (λ _ u. (returns false, u))
            (Touched-end_call r call.thrown s) (λ a u. Touched-refl r u))
      | inr limited ↦ rw limited (
          Touched-continue r s (end_call call.thrown s)
            (λ _. check_timeout r t.timeout call.elapsed) (Touched-end_call r call.thrown s)
            (λ a u. check_timeout-Touched r t.timeout call.elapsed u))
    ]

pub fail-Touched : (r : ℕ) (e : Exception) (s : Scheduler) → Touched r s (fail_task r e s).1
unfolding fail_task
fail-Touched r e s =
    Touched-trans (Touched-log r s _) (close_task-Touched r (s.objects r).task_id failed _)
