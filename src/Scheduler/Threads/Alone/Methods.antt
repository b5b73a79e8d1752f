-- ===== src/Scheduler/Threads/Alone/Methods.antt =====
-- The programs of the methods, against the methods.
use task_sched_x.Logger.{debugs, infos, errors}
use task_sched_x.Prelude.{
  ℕ, refl, Bool, true, false, Option, none, some, ◌++◌, Bytes, codes, update, if◌then◌else◌, ◌||◌,
}
use task_sched_x.Prelude.Int.{ℤ, pos, le_int}
use task_sched_x.Task.{
  Task, Status, Exception, execute, failed, completed, cancelled, pending, reschedule,
}
use task_sched_x.Scheduler.State
use task_sched_x.Scheduler.State.{
  Scheduler, M, Outcome, returns, throws, continue, invoke_callback, notify_task_completion,
  update_statistics, assign_status, erase_active, modify, log,
}
use task_sched_x.Scheduler.Client.{
  TaskConfig, schedule_task, cancel_task, cancel_active, cancel_queued, report_cancel,
  missing_entry,
}
use task_sched_x.Scheduler.Execute.{
  close_task, end_call, check_timeout, run_task_with_timeout, repeat_or_remove,
  finalize_completed_task, fail_task, try_task, execute_and_finalize_task, timed_out, is_cancelled,
  late_entry, failure_text,
}
use task_sched_x.Scheduler.Threads
use task_sched_x.Scheduler.Threads.{
  Program, ended, act, create, enqueue, Code, resume, atomic, ask, notify_code, close_code,
  end_code, timeout_code, run_code, repeat_code, finalize_code, fail_code, try_code, execute_code,
  report_code, cancel_code, schedule_code, register, put_in_queue, push_task,
}
use task_sched_x.Scheduler.Threads.Alone.{
  run, Implements, atomic-Implements, pure-Implements, handle-Implements, bind-Implements,
  ask-Implements, choose-Implements,
}

-- The rule for a method after one that returns nothing.
then-Implements :
    {B : Type 0} (p : Code (Unit {0})) (m : M (Unit {0})) (q : Code B) (n : M B)
    → Implements p m
    → Implements q n
    → Implements (Threads.◌>>◌ p q) (State.◌>>◌ m n)
then-Implements p m q n i j = bind-Implements p m (λ _. q) (λ _. n) i (λ _. j)

do_atomic :
    {B : Type 0} (m : M (Unit {0})) (q : Code B) (n : M B)
    → Implements q n
    → Implements (Threads.◌>>◌ (atomic m) q) (State.◌>>◌ m n)
do_atomic m q n j = then-Implements (atomic m) m q n (atomic-Implements m) j

notify-Implements :
    (id : Bytes) (status : Status)
    → Implements (notify_code id status) (notify_task_completion id status)
unfolding notify_code notify_task_completion
notify-Implements id status = do_atomic (invoke_callback id status) _ _ (atomic-Implements _)

close-Implements :
    (task : ℕ) (id : Bytes) (status : Status)
    → Implements (close_code task id status) (close_task task id status)
unfolding close_code close_task
close-Implements task id status = do_atomic (assign_status task status) _ _ (
    do_atomic (update_statistics status) _ _ (
      then-Implements (notify_code id status) _ _ _ (notify-Implements id status)
        (atomic-Implements _)))

end-Implements : (thrown : Option Exception) → Implements (end_code thrown) (end_call thrown)
end-Implements none = pure-Implements tt
end-Implements (some e) = record { runs = λ k h s. refl }

timeout-Implements :
    (task : ℕ) (limit : ℤ) (elapsed : ℕ)
    → Implements (timeout_code task limit elapsed) (check_timeout task limit elapsed)
unfolding timeout_code check_timeout
timeout-Implements task limit elapsed =
    choose-Implements (λ s. (s.objects task).task_id) (λ _. timed_out limit elapsed) _ _ _ _
      (λ id. do_atomic (log (late_entry id)) _ _ (
        then-Implements (close_code task id Status.timeout) _ _ _
          (close-Implements task id Status.timeout) (pure-Implements true)))
      (λ _. pure-Implements false)

run-Implements :
    (task moment : ℕ) → Implements (run_code task moment) (run_task_with_timeout task moment)
unfolding run_code run_task_with_timeout
run-Implements task moment =
    choose-Implements (λ s. s.objects task) (λ t. le_int t.timeout (pos 0)) _ _ _ _
      (λ t.
        then-Implements _ _ _ _ (end-Implements (execute t moment).thrown) (pure-Implements false))
      (λ t.
        then-Implements _ _ _ _ (end-Implements (execute t moment).thrown)
          (timeout-Implements task t.timeout (execute t moment).elapsed))

push-Implements : (task : ℕ) → Implements (push_task task) (modify (put_in_queue task))
unfolding run
push-Implements task = record { runs = λ k h s. refl }

repeat-Implements :
    (task : ℕ) (now : ℤ) → Implements (repeat_code task now) (repeat_or_remove task now)
unfolding repeat_code repeat_or_remove
repeat-Implements task now =
    choose-Implements (λ s. s.objects task) Task.is_repeatable _ _ _ _
      (λ t. do_atomic (log (debugs (codes "Rescheduling repeatable task: " ++ t.task_id))) _ _ (
        do_atomic
          (modify
            λ s. record s { objects = update s.objects task (reschedule now (s.objects task)) })
          _ _ (do_atomic (assign_status task pending) _ _ (push-Implements task))))
      (λ t. atomic-Implements (erase_active t.task_id))

finalize-Implements :
    (task : ℕ) (late : Bool) (now : ℤ)
    → Implements (finalize_code task late now) (finalize_completed_task task late now)
unfolding finalize_code finalize_completed_task
finalize-Implements task late now =
    choose-Implements (λ s. s.objects task) (λ t. late || is_cancelled t.status) _ _ _ _
      (λ t. pure-Implements tt)
      (λ t. do_atomic (log (infos (codes "Task completed: " ++ t.task_id))) _ _ (
        do_atomic (assign_status task completed) _ _ (
          do_atomic (update_statistics completed) _ _ (
            then-Implements _ _ _ _ (notify-Implements t.task_id completed)
              (repeat-Implements task now)))))

fail-Implements : (task : ℕ) (e : Exception) → Implements (fail_code task e) (fail_task task e)
unfolding fail_code fail_task
fail-Implements task e =
    ask-Implements (λ s. (s.objects task).task_id) _ _
      (λ id. do_atomic (log (errors (failure_text id e))) _ _ (close-Implements task id failed))

try-Implements :
    (task : ℕ) (thread : Bytes) (moment : ℕ) (now : ℤ)
    → Implements (try_code task thread moment now) (try_task task thread moment now)
unfolding try_code try_task
try-Implements task thread moment now =
    ask-Implements (λ s. (s.objects task).task_id) _ _
      (λ id.
        do_atomic
          (log (infos (codes "Task started: " ++ (id ++ (codes " | Thread ID: " ++ thread))))) _ _
          (bind-Implements _ _ _ _ (run-Implements task moment) (λ late.
            then-Implements _ _ _ _ (finalize-Implements task late now) (
              atomic-Implements (
                log (
                  infos
                    (codes "Task finished: " ++ (id ++ (codes " | Thread ID: " ++ thread)))))))))

execute_code-Implements :
    (task : ℕ) (thread : Bytes) (moment : ℕ) (now : ℤ)
    → Implements
        (execute_code task thread moment now)
        (execute_and_finalize_task task thread moment now)
unfolding execute_code execute_and_finalize_task
execute_code-Implements task thread moment now =
    handle-Implements _ _ _ _ (try-Implements task thread moment now) (fail-Implements task)

report-Implements :
    (id : Bytes) (found : Bool) → Implements (report_code id found) (report_cancel id found)
unfolding report_code report_cancel
report-Implements id true =
    do_atomic (update_statistics cancelled) _ _
      (then-Implements _ _ _ _ (notify-Implements id cancelled) (pure-Implements true))
report-Implements id false = do_atomic (log (missing_entry id)) _ _ (pure-Implements false)

cancel_code-Implements : (id : Bytes) → Implements (cancel_code id) (cancel_task id)
unfolding cancel_code cancel_task
cancel_code-Implements id =
    bind-Implements _ _ _ _ (atomic-Implements (cancel_active id))
      (λ active. bind-Implements _ _ _ _ (search_queue active) (report-Implements id))
  where
    search_queue :
        (active : Bool)
        → Implements
            (if active then Threads.pure true else atomic (cancel_queued id))
            (if active then State.pure true else cancel_queued id)
    search_queue true = pure-Implements true
    search_queue false = atomic-Implements (cancel_queued id)

schedule_code-Implements :
    (c : TaskConfig)
    → Implements (schedule_code c) (λ s. (returns (schedule_task c s).0, (schedule_task c s).1))
unfolding schedule_code schedule_task register run
schedule_code-Implements c = record { runs = λ k h s. refl }

-- A thread that is not interrupted: the atomic actions of `executeAndFinalizeTask`, of `cancelTask`
-- and of `scheduleTask`, one after another, leave the state that the method leaves as a whole, and end
-- with the same value or exception, from every state and whatever the thread does afterwards.
pub code-Implements :
    (task : ℕ) (thread : Bytes) (moment : ℕ) (now : ℤ) (id : Bytes) (c : TaskConfig)
    → Implements
        (execute_code task thread moment now)
        (execute_and_finalize_task task thread moment now)
      × Implements (cancel_code id) (cancel_task id)
      × Implements (schedule_code c) (λ s. (returns (schedule_task c s).0, (schedule_task c s).1))
code-Implements task thread moment now id c = (
  execute_code-Implements task thread moment now,
  cancel_code-Implements id,
  schedule_code-Implements c,
)
