-- ===== src/Scheduler/System.antt =====
-- The actions of all threads on a scheduler, interleaved in any order.
--
-- A method that a program calls is one action here, and so is an execution of a task by a worker; the
-- scheduler's thread takes the steps of `Loop`. A wait on a condition variable is an action that is
-- possible when its predicate holds. The callback does not call the scheduler. What other threads may
-- do between the locks of one method is in Threads.
use task_sched_x.Prelude.{
  ℕ, ◌+◌, ◌<◌, ◌≡◌, ◌⊎◌, true, false, Option, some, List, [], ◌∷◌, Bytes, count, if◌then◌else◌,
  ◌==◌, inl, inr, refl, Bool-cases,
}
use task_sched_x.Prelude.Int.{ℤ}
use task_sched_x.Task.{Objects, size_mod}
use task_sched_x.Scheduler.State.{
  Scheduler, Callback, LoopPhase, not_started, at_head, popped, checked, sleeping, finished,
  new_scheduler,
}
use task_sched_x.Scheduler.Client.{
  TaskConfig, schedule_task, cancel_task, get_task_status, start, request_stop,
  set_task_completion_callback, destroy,
}
use task_sched_x.Scheduler.Execute.{execute_and_finalize_task}
use task_sched_x.Scheduler.Loop.{fetch, wake, look_up, dispatch}

-- The list without its first occurrence of the number.
abbrev pub remove : ℕ → List ℕ → List ℕ
remove r [] = []
remove r (x ∷ xs) = if x == r then xs else x ∷ remove r xs

-- The scheduler's thread does not run.
abbrev pub Idle : LoopPhase → Type 0
Idle loop = (loop ≡ not_started) ⊎ (loop ≡ finished)

pub data Step (s : Scheduler) : Scheduler → Type 0 where
  -- Fewer than 2 ^ 64 tasks are made.
  schedule : (c : TaskConfig) → s.next_id + 1 < size_mod → Step s (schedule_task c s).1
  cancel : (id : Bytes) → Step s (cancel_task id s).1
  query : (id : Bytes) → Step s (get_task_status id s).1
  set_callback : (callback : Option Callback) → Step s (set_task_completion_callback callback s)
  -- `start` on a scheduler whose thread was not joined yet would end the program.
  starts : (s.is_running ≡ true) ⊎ Idle s.loop → Step s (start s)
  -- `stop`, and its wait for the scheduler's thread, before it stops the pool.
  stops : Step s (request_stop s)
  stops_pool : s.is_running ≡ false → Idle s.loop → Step s (record s { pool_stopped = true })
  discards : s.pool_stopped ≡ true → s.executing ≡ [] → Step s (record s { pending = [] })
  fetches : (now : ℤ) (t : Scheduler) → s.loop ≡ at_head → fetch now s ≡ some t → Step s t
  wakes : (now due : ℤ) (t : Scheduler) → s.loop ≡ sleeping due → wake now due s ≡ some t → Step s t
  looks_up : (r : ℕ) → s.loop ≡ popped r → Step s (look_up r s)
  dispatches : (r : ℕ) → s.loop ≡ checked r → Step s (dispatch r s)
  -- A worker of the pool takes a job, and later has done it.
  takes :
      (r : ℕ) (rest : List ℕ)
      → s.pending ≡ r ∷ rest
      → s.pool_stopped ≡ false
      → Step s (record s { pending = rest; executing = r ∷ s.executing })
  executes :
      (r : ℕ) (thread : Bytes) (moment : ℕ) (now : ℤ)
      → 0 < count r s.executing
      → Step s (record (execute_and_finalize_task r thread moment now s).1 {
        executing = remove r s.executing;
      })

pub data Steps (s : Scheduler) : Scheduler → Type 0 where
  here : Steps s s
  next : {t u : Scheduler} → Steps s t → Step t u → Steps s u

-- The states after the constructor; `objects` is what memory held, `next_id` the counter of tasks.
abbrev pub Reach : Objects → ℕ → Bytes → Scheduler → Type 0
Reach objects next_id num_threads = Steps (new_scheduler objects next_id num_threads)

-- The destructor is a call of `stop`, or does nothing.
destroy-Step : (s : Scheduler) → Step s (destroy s) ⊎ (destroy s ≡ s)
unfolding destroy
destroy-Step s = elim (Bool-cases s.is_running) [
  | inl run ↦ rw (run, destroy) (inl stops)
  | inr off ↦ rw (off, destroy) (inr refl)
]
