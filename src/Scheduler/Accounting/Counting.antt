-- ===== src/Scheduler/Accounting/Counting.antt =====
-- Each method and each step keeps the counters right.
use task_sched_x.Scheduler.Accounting.Rules.{
  Keeps, Unheard, Unheard-Keeps, pure-Keeps, bind-Keeps, then-Keeps, branch-Keeps, tell_then-Keeps,
}
use task_sched_x.Prelude.{
  ℕ, ◌≡◌, refl, inl, inr, Bool, true, false, ◌||◌, Option, none, some, ◌++◌, Bytes, codes, find,
  update, if◌then◌else◌, arith, Bool-cases, Option-cases, ◌%◌,
}
use task_sched_x.Prelude.Int.{ℤ, pos, le_int}
use task_sched_x.Task.{
  Status, pending, completed, failed, cancelled, Exception, execute, new_task, reschedule, running,
  size_mod,
}
use task_sched_x.TaskQueue
use task_sched_x.TaskQueue.{TaskQueue}
use task_sched_x.Logger.{LogCall, debugs, infos, errors}
use task_sched_x.Scheduler.State.{
  Scheduler, Callback, M, Outcome, returns, throws, continue, modify, log, assign_status,
  erase_active, update_statistics, invoke_callback, notify_task_completion, count_status,
}
use task_sched_x.Scheduler.State
use task_sched_x.Scheduler.Client.{
  TaskConfig, schedule_task, cancel_task, cancel_active, cancel_queued, report_cancel,
  missing_entry,
}
use task_sched_x.Scheduler.Execute.{
  close_task, end_call, check_timeout, run_task_with_timeout, repeat_or_remove,
  finalize_completed_task, fail_task, try_task, execute_and_finalize_task, is_cancelled, timed_out,
  late_entry, failure_text,
}
use task_sched_x.Scheduler.Accounting.{Counted, IsFinal, counter, announced}

log-Keeps : (entry : LogCall) → Keeps (log entry)
log-Keeps entry = Unheard-Keeps (log entry) (λ s. (refl, refl, refl))

assign-Keeps : (task : ℕ) (status : Status) → Keeps (assign_status task status)
assign-Keeps task status = Unheard-Keeps (assign_status task status) (λ s. (refl, refl, refl))

erase-Keeps : (id : Bytes) → Keeps (erase_active id)
erase-Keeps id = Unheard-Keeps (erase_active id) (λ s. (refl, refl, refl))

close-Keeps : (task : ℕ) (id : Bytes) (status : Status) → Keeps (close_task task id status)
unfolding close_task
close-Keeps task id status =
    then-Keeps (assign_status task status) _ (assign-Keeps task status)
      (tell_then-Keeps id status (erase_active id) (erase-Keeps id))

end-Keeps : (thrown : Option Exception) → Keeps (end_call thrown)
end-Keeps none = pure-Keeps tt
end-Keeps (some e) = Unheard-Keeps (end_call (some e)) (λ s. (refl, refl, refl))

timeout-Keeps : (task : ℕ) (limit : ℤ) (elapsed : ℕ) → Keeps (check_timeout task limit elapsed)
unfolding check_timeout
timeout-Keeps task limit elapsed =
    branch-Keeps (λ _. timed_out limit elapsed) _ (λ _. State.pure false)
      (λ s. then-Keeps (log (late_entry (s.objects task).task_id)) _ (log-Keeps _) (
        then-Keeps (close_task task (s.objects task).task_id Status.timeout) _
          (close-Keeps task (s.objects task).task_id Status.timeout) (pure-Keeps true)))
      (λ _. pure-Keeps false)

run-Keeps : (task moment : ℕ) → Keeps (run_task_with_timeout task moment)
unfolding run_task_with_timeout
run-Keeps task moment =
    branch-Keeps (λ s. le_int (s.objects task).timeout (pos 0)) _ _
      (λ s.
        then-Keeps (end_call (execute (s.objects task) moment).thrown) _ (end-Keeps _)
          (pure-Keeps false))
      (λ s.
        then-Keeps (end_call (execute (s.objects task) moment).thrown) _ (end-Keeps _)
          (timeout-Keeps task (s.objects task).timeout (execute (s.objects task) moment).elapsed))

repeat-Keeps : (task : ℕ) (now : ℤ) → Keeps (repeat_or_remove task now)
unfolding repeat_or_remove
repeat-Keeps task now =
    branch-Keeps (λ s. (s.objects task).is_repeatable) _
      (λ s. erase_active (s.objects task).task_id)
      (λ s.
        then-Keeps
          (log (debugs (codes "Rescheduling repeatable task: " ++ (s.objects task).task_id))) _
          (log-Keeps _)
          (then-Keeps
            (modify λ s'. record s' {
              objects = update s'.objects task (reschedule now (s'.objects task));
            })
            _ (Unheard-Keeps _ (λ s'. (refl, refl, refl)))
            (then-Keeps (assign_status task pending) _ (assign-Keeps task pending) (
              Unheard-Keeps
                (modify
                  λ s'. record s' { task_queue = TaskQueue.push s'.objects task s'.task_queue })
                (λ s'. (refl, refl, refl))))))
      (λ s. erase-Keeps (s.objects task).task_id)

finalize-Keeps : (task : ℕ) (late : Bool) (now : ℤ) → Keeps (finalize_completed_task task late now)
unfolding finalize_completed_task
finalize-Keeps task late now =
    branch-Keeps (λ s. late || is_cancelled (s.objects task).status) (λ _. State.pure tt) _
      (λ s. pure-Keeps tt)
      (λ s.
        then-Keeps (log (infos (codes "Task completed: " ++ (s.objects task).task_id))) _
          (log-Keeps _)
          (then-Keeps (assign_status task completed) _ (assign-Keeps task completed) (
            tell_then-Keeps (s.objects task).task_id completed (repeat_or_remove task now)
              (repeat-Keeps task now))))

fail-Keeps : (task : ℕ) (e : Exception) → Keeps (fail_task task e)
unfolding fail_task
fail-Keeps task e = record {
  keeps = λ s c.
      (then-Keeps (log (errors (failure_text (s.objects task).task_id e))) _ (log-Keeps _)
          (close-Keeps task (s.objects task).task_id failed)).keeps
        s c;
}

try-Keeps :
    (task : ℕ) (thread : Bytes) (moment : ℕ) (now : ℤ) → Keeps (try_task task thread moment now)
unfolding try_task
try-Keeps task thread moment now = record {
  keeps = λ s c.
      let name = (s.objects task).task_id ++ (codes " | Thread ID: " ++ thread) in
      (then-Keeps (log (infos (codes "Task started: " ++ name))) _ (log-Keeps _) (
          bind-Keeps (run_task_with_timeout task moment) _ (run-Keeps task moment) (λ late.
            then-Keeps (finalize_completed_task task late now) _ (finalize-Keeps task late now)
              (log-Keeps (infos (codes "Task finished: " ++ name)))))).keeps
        s c;
}

pub execute-Keeps :
    (task : ℕ) (thread : Bytes) (moment : ℕ) (now : ℤ) (s : Scheduler)
    → Counted s
    → Counted (execute_and_finalize_task task thread moment now s).1
unfolding execute_and_finalize_task
execute-Keeps task thread moment now s c =
    handled (try_task task thread moment now s) ((try-Keeps task thread moment now).keeps s c)
  where
    handled :
        (o : Outcome (Unit {0}) × Scheduler)
        → Counted o.1
        → Counted (State.handle o (fail_task task)).1
    handled (returns a, t) d = d
    handled (throws e, t) d = (fail-Keeps task e).keeps t d

report-Keeps : (id : Bytes) (found : Bool) → Keeps (report_cancel id found)
unfolding report_cancel
report-Keeps id true = tell_then-Keeps id cancelled (State.pure true) (pure-Keeps true)
report-Keeps id false =
    then-Keeps (log (missing_entry id)) (State.pure false) (log-Keeps _) (pure-Keeps false)

cancel_active-Keeps : (id : Bytes) → Keeps (cancel_active id)
unfolding cancel_active
cancel_active-Keeps id = Unheard-Keeps (cancel_active id) untouched
  where
    untouched : (s : Scheduler) → Unheard s (cancel_active id s).1
    untouched s = elim (Option-cases (find id s.active_tasks)) [
      | inl e ↦ rw (e, cancel_active) (refl, refl, refl)
      | inr (r, e) ↦ rw (e, cancel_active) (refl, refl, refl)
    ]

cancel_queued-Keeps : (id : Bytes) → Keeps (cancel_queued id)
unfolding cancel_queued
cancel_queued-Keeps id = Unheard-Keeps (cancel_queued id) untouched
  where
    untouched : (s : Scheduler) → Unheard s (cancel_queued id s).1
    untouched s = elim (Bool-cases (TaskQueue.cancel_task id s.objects s.task_queue).2) [
      | inl e ↦ rw (e, cancel_queued) (refl, refl, refl)
      | inr e ↦ rw (e, cancel_queued) (refl, refl, refl)
    ]

pub cancel-Keeps : (id : Bytes) (s : Scheduler) → Counted s → Counted (cancel_task id s).1
unfolding cancel_task
cancel-Keeps id s c =
    (bind-Keeps (cancel_active id) _ (cancel_active-Keeps id)
        (λ active. bind-Keeps _ _ (search_queue active) (report-Keeps id))).keeps
      s c
  where
    search_queue : (active : Bool) → Keeps (if active then State.pure true else cancel_queued id)
    search_queue true = pure-Keeps true
    search_queue false = cancel_queued-Keeps id

pub schedule-Keeps : (c : TaskConfig) (s : Scheduler) → Counted s → Counted (schedule_task c s).1
unfolding schedule_task new_task
schedule-Keeps c s h = record { counts = λ status final. one status final; heard = h.heard }
  where
    one :
        (status : Status)
        → IsFinal status
        → counter status (schedule_task c s).1.stats ≡ announced status s.notified % size_mod
    one pending final = absurd (omega arith)
    one running final = absurd (omega arith)
    one completed final = h.counts completed final
    one failed final = h.counts failed final
    one cancelled final = h.counts cancelled final
    one Status.timeout final = h.counts Status.timeout final
