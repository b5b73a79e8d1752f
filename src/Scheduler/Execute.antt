-- ===== src/Scheduler/Execute.antt =====
-- What a worker thread does with a task: `executeAndFinalizeTask` and the functions that it calls.
--
-- `moment` is when the task's function is called, `now` the reading of the system clock when a task
-- is rescheduled, `thread` the name of the worker.
use task_sched_x.Prelude.{
  ℕ, ◌/◌, Bool, true, false, ◌||◌, Option, none, some, ◌++◌, Bytes, codes, update, if◌then◌else◌,
}
use task_sched_x.Prelude.Int.{ℤ, pos, le_int, lt_int}
use task_sched_x.Task.{
  Status, pending, completed, failed, cancelled, Exception, std_exception, other_exception, execute,
  reschedule, ns_per_second,
}
use task_sched_x.TaskQueue
use task_sched_x.Logger.{infos, warns, errors, debugs, LogCall}
use task_sched_x.Scheduler.State.{
  M, returns, ◌>>=◌, ◌>>◌, pure, modify, throw, handle, log, assign_status, erase_active,
  update_statistics, notify_task_completion,
}

-- `updateStatistics`, `notifyTaskCompletion` and the removal from the registry, for a task that
-- ends here; the status is set before.
unfoldable pub close_task : ℕ → Bytes → Status → M (Unit {0})
close_task task id status = do
  assign_status task status
  update_statistics status
  notify_task_completion id status
  erase_active id

-- `elapsed > task.timeout`, in whole seconds.
abbrev pub timed_out : ℤ → ℕ → Bool
timed_out limit elapsed_ns = lt_int limit (pos (elapsed_ns / ns_per_second))

-- `task.execute()`: what the function throws is passed on.
abbrev pub end_call : Option Exception → M (Unit {0})
end_call none = pure tt
end_call (some e) = throw e

abbrev pub late_entry : Bytes → LogCall
late_entry id = warns (codes "Task timed out: " ++ id)

-- The end of `runTaskWithTimeout`, when the function has returned: whether it was late.
unfoldable pub check_timeout : ℕ → ℤ → ℕ → M Bool
check_timeout task limit elapsed s =
    let id = (s.objects task).task_id in
    if timed_out limit elapsed
    then (do log (late_entry id); close_task task id Status.timeout; pure true) s
    else (returns false, s)

-- `TaskScheduler::runTaskWithTimeout`
unfoldable pub run_task_with_timeout : ℕ → ℕ → M Bool
run_task_with_timeout task moment s =
    let t = s.objects task in
    let call = execute t moment in
    if le_int t.timeout (pos 0)
    then (do end_call call.thrown; pure false) s
    else (do end_call call.thrown; check_timeout task t.timeout call.elapsed) s

abbrev pub is_cancelled : Status → Bool
is_cancelled cancelled = true
is_cancelled status = false

-- The end of `finalizeCompletedTask`: the next round of a repeatable task, or its removal.
unfoldable pub repeat_or_remove : ℕ → ℤ → M (Unit {0})
repeat_or_remove task now s =
    let t = s.objects task in
    if t.is_repeatable
    then (do
      log (debugs (codes "Rescheduling repeatable task: " ++ t.task_id))
      modify
          (λ s'. record s' { objects = update s'.objects task (reschedule now (s'.objects task)) })
      assign_status task pending
      modify (λ s'. record s' { task_queue = TaskQueue.push s'.objects task s'.task_queue }))
        s
    else erase_active t.task_id s

-- `TaskScheduler::finalizeCompletedTask`
unfoldable pub finalize_completed_task : ℕ → Bool → ℤ → M (Unit {0})
finalize_completed_task task timed_out now s =
    let t = s.objects task in
    if timed_out || is_cancelled t.status
    then (returns tt, s)
    else (do
      log (infos (codes "Task completed: " ++ t.task_id))
      assign_status task completed
      update_statistics completed
      notify_task_completion t.task_id completed
      repeat_or_remove task now)
        s

-- The text of the log line for an exception.
unfoldable pub failure_text : Bytes → Exception → Bytes
failure_text id (std_exception what) = codes "Task failed: " ++ (id ++ (codes " - " ++ what))
failure_text id other_exception = codes "Task failed: " ++ (id ++ codes " - unknown exception")

-- The two `catch` blocks, which differ in their log line only.
unfoldable pub fail_task : ℕ → Exception → M (Unit {0})
fail_task task e s =
    let id = (s.objects task).task_id in
    (do log (errors (failure_text id e)); close_task task id failed) s

-- The body of the `try` block.
unfoldable pub try_task : ℕ → Bytes → ℕ → ℤ → M (Unit {0})
try_task task thread moment now s =
    let id = (s.objects task).task_id in
    (do
      log (infos (codes "Task started: " ++ (id ++ (codes " | Thread ID: " ++ thread))))
      late ← run_task_with_timeout task moment
      finalize_completed_task task late now
      log (infos (codes "Task finished: " ++ (id ++ (codes " | Thread ID: " ++ thread)))))
      s

-- `TaskScheduler::executeAndFinalizeTask`. What a handler throws reaches the worker thread of the pool.
unfoldable pub execute_and_finalize_task : ℕ → Bytes → ℕ → ℤ → M (Unit {0})
execute_and_finalize_task task thread moment now s =
    handle (try_task task thread moment now s) (fail_task task)
