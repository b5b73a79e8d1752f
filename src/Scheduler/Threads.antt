-- ===== src/Scheduler/Threads.antt =====
-- The methods of src/TaskScheduler.cpp as programs of atomic actions, for threads that interleave.
--
-- An action is what a method does under one lock, one access of an atomic field, or one call of the
-- callback. Between two actions of a thread the others may do any number of theirs. A method is
-- written as in `Execute` and `Client`, with its actions marked by `atomic`.
pub mod Alone
pub mod Steps
pub mod Neutral
pub mod Looping
pub mod Exclusive
pub mod Cancelled
pub mod Ending
pub mod Places
pub mod Lost
mod Examples
use task_sched_x.Prelude.{
  ℕ, ◌+◌, ◌≡◌, Bool, true, false, ◌||◌, Option, none, some, List, [], ◌∷◌, ◌++◌, Bytes, codes, put,
  update, if◌then◌else◌,
}
use task_sched_x.Prelude.Int.{ℤ, pos, le_int}
use task_sched_x.Task.{
  Task, Status, pending, completed, failed, cancelled, Exception, execute, reschedule,
}
use task_sched_x.TaskQueue
use task_sched_x.Logger.{LogCall, infos, warns, errors, debugs}
use task_sched_x.Scheduler.State.{
  Scheduler, M, Outcome, returns, throws, modify, log, assign_status, erase_active, increment,
  update_statistics, invoke_callback,
}
use task_sched_x.Scheduler.Client.{
  TaskConfig, make_task, cancel_active, cancel_queued, scheduled_entry, missing_entry,
}
use task_sched_x.Scheduler.Execute.{timed_out, is_cancelled, failure_text, late_entry}

-- What a thread has still to do. An action and what follows it depend on the state in which the action
-- is made.
pub data Program : Type 0 where
  ended : Program
  act : (Scheduler → Scheduler) → (Scheduler → Program) → Program
  -- a new task is made and registered; what follows is given its address
  create : TaskConfig → (ℕ → Program) → Program
  -- a task is put in the queue
  enqueue : ℕ → Program → Program

-- What `create` and `enqueue` do: the object, its identifier and its registration.
unfoldable pub register : TaskConfig → Scheduler → Scheduler
unfolding make_task
register c s =
    let (task, s₁) = make_task c s in
    record s₁ { active_tasks = put (s₁.objects task).task_id task s₁.active_tasks }

abbrev pub put_in_queue : ℕ → Scheduler → Scheduler
put_in_queue task s = record s { task_queue = TaskQueue.push s.objects task s.task_queue }

-- A part of a method: what follows when it returns a value, and when it throws.
abbrev pub Code : Type 0 → Type 0
Code A = (A → Program) → (Exception → Program) → Program

infixl 5 ◌>>=◌ ◌>>◌
abbrev pub ◌>>=◌ : {A B : Type 0} → Code A → (A → Code B) → Code B
◌>>=◌ m f k h = m (λ a. f a k h) h

abbrev pub ◌>>◌ : {B : Type 0} → Code (Unit {0}) → Code B → Code B
◌>>◌ m n k h = m (λ _. n k h) h

abbrev pub pure : {A : Type 0} → A → Code A
pure a k h = k a

abbrev pub throw : {A : Type 0} → Exception → Code A
throw e k h = h e

-- `try { m } catch`
abbrev pub handle : {A : Type 0} → Code A → (Exception → Code A) → Code A
handle m f k h = m k (λ e. f e k h)

abbrev pub resume : {A : Type 0} → Outcome A → Code A
resume (returns a) k h = k a
resume (throws e) k h = h e

-- A method of the state as one action.
abbrev pub atomic : {A : Type 0} → M A → Code A
atomic m k h = act (λ s. (m s).1) (λ s. resume (m s).0 k h)

-- A read of the state.
abbrev pub ask : {A : Type 0} → (Scheduler → A) → Code A
ask f = atomic (λ s. (returns (f s), s))

abbrev pub make_registered : TaskConfig → Code ℕ
make_registered c k h = create c k

abbrev pub push_task : ℕ → Code (Unit {0})
push_task task k h = enqueue task (k tt)

-- `notifyTaskCompletion`: the callback is called under no lock.
unfoldable pub notify_code : Bytes → Status → Code (Unit {0})
notify_code id status = do
  atomic (invoke_callback id status)
  atomic (modify λ s. record s { completed_tasks = put id status s.completed_tasks })

unfoldable pub close_code : ℕ → Bytes → Status → Code (Unit {0})
unfolding notify_code
close_code task id status = do
  atomic (assign_status task status)
  atomic (update_statistics status)
  notify_code id status
  atomic (erase_active id)

abbrev pub end_code : Option Exception → Code (Unit {0})
end_code none = pure tt
end_code (some e) = throw e

-- `runTaskWithTimeout`
unfoldable pub timeout_code : ℕ → ℤ → ℕ → Code Bool
unfolding close_code
timeout_code task limit elapsed = do
  id ← ask λ s. (s.objects task).task_id
  (if timed_out limit elapsed
      then (do atomic (log (late_entry id)); close_code task id Status.timeout; pure true)
      else pure false)

unfoldable pub run_code : ℕ → ℕ → Code Bool
unfolding timeout_code
run_code task moment = do
  t ← ask λ s. s.objects task
  (if le_int t.timeout (pos 0) then (do end_code (execute t moment).thrown; pure false) else (do
    end_code (execute t moment).thrown
    timeout_code task t.timeout (execute t moment).elapsed))

-- `finalizeCompletedTask`
unfoldable pub repeat_code : ℕ → ℤ → Code (Unit {0})
repeat_code task now = do
  t ← ask λ s. s.objects task
  (if t.is_repeatable
      then (do
        atomic (log (debugs (codes "Rescheduling repeatable task: " ++ t.task_id)))
        atomic (
            modify
              λ s. record s { objects = update s.objects task (reschedule now (s.objects task)) })
        atomic (assign_status task pending)
        push_task task)
      else atomic (erase_active t.task_id))

unfoldable pub finalize_code : ℕ → Bool → ℤ → Code (Unit {0})
unfolding notify_code repeat_code
finalize_code task late now = do
  t ← ask λ s. s.objects task
  (if late || is_cancelled t.status then pure tt else (do
    atomic (log (infos (codes "Task completed: " ++ t.task_id)))
    atomic (assign_status task completed)
    atomic (update_statistics completed)
    notify_code t.task_id completed
    repeat_code task now))

-- `executeAndFinalizeTask`
unfoldable pub fail_code : ℕ → Exception → Code (Unit {0})
unfolding close_code failure_text
fail_code task e = do
  id ← ask λ s. (s.objects task).task_id
  atomic (log (errors (failure_text id e)))
  close_code task id failed

unfoldable pub try_code : ℕ → Bytes → ℕ → ℤ → Code (Unit {0})
unfolding run_code finalize_code
try_code task thread moment now = do
  id ← ask λ s. (s.objects task).task_id
  atomic (log (infos (codes "Task started: " ++ (id ++ (codes " | Thread ID: " ++ thread)))))
  late ← run_code task moment
  finalize_code task late now
  atomic (log (infos (codes "Task finished: " ++ (id ++ (codes " | Thread ID: " ++ thread)))))

unfoldable pub execute_code : ℕ → Bytes → ℕ → ℤ → Code (Unit {0})
unfolding try_code fail_code
execute_code task thread moment now = handle (try_code task thread moment now) (fail_code task)

-- `cancelTask`: its two searches are under two locks.
unfoldable pub report_code : Bytes → Bool → Code Bool
unfolding notify_code
report_code id true = do atomic (update_statistics cancelled); notify_code id cancelled; pure true
report_code id false = do atomic (log (missing_entry id)); pure false

unfoldable pub cancel_code : Bytes → Code Bool
unfolding report_code
cancel_code id = do
  active ← atomic (cancel_active id)
  found ← (if active then pure true else atomic (cancel_queued id))
  report_code id found

-- `scheduleTask`: the new object is the caller's own until it is registered, so that the draw of its
-- identifier and its registration make one action.
unfoldable pub schedule_code : TaskConfig → Code Bytes
schedule_code c = do
  task ← make_registered c
  id ← ask λ s. (s.objects task).task_id
  push_task task
  atomic (
      modify λ s. record s {
        stats = record (s.stats) {
          total_tasks_scheduled = increment s.stats.total_tasks_scheduled;
        };
      })
  atomic (log (scheduled_entry id c))
  pure id
