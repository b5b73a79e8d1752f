-- ===== src/Scheduler/Outcomes/Defs.antt =====
-- The ways in which an execution ends, and what each leaves, described apart from the code.
use task_sched_x.Prelude.{
  ℕ, ◌+◌, ◌*◌, ◌≡◌, Bool, ◌&&◌, none, some, ◌++◌, find, if◌then◌else◌, leb, ltb, count, ◌==◌,
}
use task_sched_x.Prelude.Int.{ℤ, pos_part, ◌+ℤ◌, scale}
use task_sched_x.Task.{Task, Status, pending, completed, failed, Exception, Call, ns_per_second}
use task_sched_x.Scheduler.State.{Scheduler, Statistics, increment}
use task_sched_x.Scheduler.Callbacks.{told}
use task_sched_x.Scheduler.Client.{get_task_status}
use task_sched_x.Scheduler.Execute.{is_cancelled}

pub data Verdict : Type 0 where
  fails : Exception → Verdict
  times_out was_cancelled repeats completes : Verdict

-- A task with a positive timeout of `n` seconds is late from n + 1 seconds on.
abbrev pub is_late : ℤ → ℕ → Bool
is_late limit elapsed = ltb 0 (pos_part limit) && leb ((pos_part limit + 1) * ns_per_second) elapsed

abbrev pub verdict : Task → Call → Verdict
verdict t c = elim c.thrown [
  | some e ↦ fails e
  | none ↦
      if is_late t.timeout c.elapsed
      then times_out
      else if is_cancelled t.status
      then was_cancelled
      else if t.is_repeatable
      then repeats
      else completes
]

abbrev pub counted : Status → Statistics → Statistics
counted completed st = record st { tasks_completed = increment st.tasks_completed }
counted failed st = record st { tasks_failed = increment st.tasks_failed }
counted Status.timeout st = record st { tasks_timeout = increment st.tasks_timeout }
counted status st = st

-- The task at `r` ended for good with `status`: it is marked, counted, announced and recorded with it,
-- and no longer registered, so that a query of its status gives it.
pub record Closed (status : Status) (r : ℕ) (s s' : Scheduler) : Type 0 where
  pub marked : s'.objects r ≡ record (s.objects r) { status = status }
  pub statistics : s'.stats ≡ counted status s.stats
  pub announced :
      s'.notified ≡ s.notified ++ told s.completion_callback (s.objects r).task_id status
  pub unregistered : find (s.objects r).task_id s'.active_tasks ≡ none
  pub answers : (get_task_status (s.objects r).task_id s').0 ≡ status
  pub same_queue : s'.task_queue ≡ s.task_queue

-- The task was cancelled while it ran: nothing is done.
pub record Dropped (s s' : Scheduler) : Type 0 where
  pub same_objects : s'.objects ≡ s.objects
  pub same_statistics : s'.stats ≡ s.stats
  pub same_notified : s'.notified ≡ s.notified
  pub same_active : s'.active_tasks ≡ s.active_tasks
  pub same_completed : s'.completed_tasks ≡ s.completed_tasks
  pub same_queue : s'.task_queue ≡ s.task_queue

-- A repeatable task completed: it is counted and announced as completed, and queued once more, pending,
-- to start one interval after `now`; it stays registered.
pub record Repeated (r : ℕ) (now : ℤ) (s s' : Scheduler) : Type 0 where
  pub renewed : s'.objects r ≡ record (s.objects r) {
    status = pending;
    start_time = now +ℤ scale ns_per_second (s.objects r).repeat_every;
  }
  pub statistics : s'.stats ≡ counted completed s.stats
  pub announced :
      s'.notified ≡ s.notified ++ told s.completion_callback (s.objects r).task_id completed
  pub same_active : s'.active_tasks ≡ s.active_tasks
  pub requeued :
      (x : ℕ) → count x s'.task_queue.pq ≡ (if r == x then 1 else 0) + count x s.task_queue.pq

abbrev pub Ends : Verdict → ℕ → ℤ → Scheduler → Scheduler → Type 0
Ends (fails e) r now s s' = Closed failed r s s'
Ends times_out r now s s' = Closed Status.timeout r s s'
Ends was_cancelled r now s s' = Dropped s s'
Ends repeats r now s s' = Repeated r now s s'
Ends completes r now s s' = Closed completed r s s'
