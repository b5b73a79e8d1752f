-- ===== src/Scheduler/Scheduling.antt =====
-- What `scheduleTask` does.
use task_sched_x.Prelude.{
  ℕ, ◌+◌, ◌≡◌, ◌≢◌, Bytes, find, if◌then◌else◌, find-put, str_eq_iff, arith, count, ◌==◌,
  Option-cases, inl, inr,
}
use task_sched_x.Task.{pending, format_id, new_task}
use task_sched_x.TaskQueue
use task_sched_x.TaskQueue.Order.{count-pq_push}
use task_sched_x.Scheduler.State.{Scheduler, increment}
use task_sched_x.Scheduler.WellFormed.{WellFormed}
use task_sched_x.Scheduler.Client.{TaskConfig, schedule_task, get_task_status, make_task}

-- What a call of `scheduleTask` leaves, `id` being its answer.
pub record Scheduled (c : TaskConfig) (s : Scheduler) (id : Bytes) (s' : Scheduler) : Type 0 where
  pub fresh_id : id ≡ format_id s.next_id
  pub answers_pending : (get_task_status id s').0 ≡ pending
  pub task : s'.objects s.next_object ≡ record {
    task_fn = c.task_fn;
    start_time = c.start_time;
    priority = c.priority;
    status = pending;
    is_repeatable = c.is_repeatable;
    repeat_every = c.repeat_every;
    timeout = c.timeout;
    task_id = id;
  }
  pub queued :
      (r : ℕ)
      → count r s'.task_queue.pq ≡ (if s.next_object == r then 1 else 0) + count r s.task_queue.pq
  pub other_objects : (r : ℕ) → r ≢ s.next_object → s'.objects r ≡ s.objects r
  pub other_tasks : (j : Bytes) → j ≢ id → (get_task_status j s').0 ≡ (get_task_status j s).0
  pub statistics :
      s'.stats
      ≡ record (s.stats) { total_tasks_scheduled = increment s.stats.total_tasks_scheduled }

other_status :
    (c : TaskConfig) (s : Scheduler) (j : Bytes)
    → WellFormed s
    → j ≢ (schedule_task c s).0
    → (get_task_status j (schedule_task c s).1).0 ≡ (get_task_status j s).0
unfolding schedule_task get_task_status new_task TaskQueue.push
other_status c s j v ne =
    let other : find j (schedule_task c s).1.active_tasks ≡ find j s.active_tasks = ground (
      arith,
      find-put (format_id s.next_id) j s.next_object s.active_tasks,
      str_eq_iff (format_id s.next_id) j,
    ) in
    elim (Option-cases (find j s.active_tasks)) [
      | inl e ↦ ground (arith, other)
      | inr (r, e) ↦ ground (arith, other, v.registered j r e)
    ]

-- In a well-formed scheduler, `scheduleTask` answers the next identifier, under which the new task
-- is registered with the given settings and found pending; it is queued once, no other task's count
-- in the queue, object or status changes, and only the total of the statistics grows.
pub schedule_task_lem :
    (c : TaskConfig) (s : Scheduler)
    → WellFormed s
    → Scheduled c s (schedule_task c s).0 (schedule_task c s).1
unfolding schedule_task get_task_status new_task TaskQueue.push
schedule_task_lem c s v = record {
  fresh_id = ground arith;
  answers_pending = ground (
    arith,
    find-put (format_id s.next_id) (format_id s.next_id) s.next_object s.active_tasks,
    str_eq_iff (format_id s.next_id) (format_id s.next_id),
  );
  task = ground arith;
  queued = λ r. queued_once r;
  other_objects = λ r ne. ground arith;
  other_tasks = λ j ne. other_status c s j v ne;
  statistics = ground arith;
}
  where
    queued_once :
        (r : ℕ)
        → count r (schedule_task c s).1.task_queue.pq
          ≡ (if s.next_object == r then 1 else 0) + count r s.task_queue.pq
    queued_once r = count-pq_push (make_task c s).1.objects s.next_object r s.task_queue.pq
