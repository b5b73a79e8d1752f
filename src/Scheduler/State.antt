-- ===== src/Scheduler/State.antt =====
-- The fields of `TaskScheduler`, its helpers `updateStatistics` and `notifyTaskCompletion`, and the
-- exceptions that its methods pass on.
--
-- A method takes the scheduler and returns the next one with a value or an exception. What happens
-- under one lock is one action. The worker threads are seen here through their jobs: `pending` is the
-- queue of the pool, `executing` the jobs that its workers run. A job is the address of its task,
-- since the closure that is enqueued holds nothing else.
use task_sched_x.Prelude.{
  ℕ, ◌+◌, ◌%◌, Bool, false, Option, none, some, List, [], ◌∷◌, ◌++◌, Bytes, codes, put, erase,
  update, length,
}
use task_sched_x.Prelude.Int.{ℤ}
use task_sched_x.Task.{
  Status, pending, running, completed, failed, cancelled, Objects, Exception, size_mod, set_status,
}
use task_sched_x.TaskQueue.{TaskQueue, empty_queue}
use task_sched_x.Logger.{LogCall, infos}

-- `TaskScheduler::Statistics`; the fields are of type `size_t`.
pub record Statistics : Type 0 where
  pub total_tasks_scheduled : ℕ
  pub tasks_completed : ℕ
  pub tasks_failed : ℕ
  pub tasks_cancelled : ℕ
  pub tasks_timeout : ℕ

-- Where the scheduler's own thread stands.
pub data LoopPhase : Type 0 where
  not_started : LoopPhase
  at_head : LoopPhase  -- before the first wait of `runSchedulerLoop`
  popped : ℕ → LoopPhase  -- has taken a task that is due, and released the queue
  checked : ℕ → LoopPhase  -- has found the task active and not cancelled
  sleeping : ℤ → LoopPhase  -- waits for a start time, or for `stop`
  finished : LoopPhase

-- The completion callback. How its calls end may differ from one to the next: the number counts
-- the calls before.
abbrev pub Callback : Type 0
Callback = ℕ → Bytes → Status → Option Exception

pub record Scheduler : Type 0 where
  pub objects : Objects
  pub next_object : ℕ
  pub next_id : ℕ
  pub is_running : Bool
  pub loop : LoopPhase
  pub task_queue : TaskQueue
  pub pending : List ℕ
  pub executing : List ℕ
  pub pool_stopped : Bool
  pub completion_callback : Option Callback
  pub active_tasks : List (Bytes × ℕ)
  pub completed_tasks : List (Bytes × Status)
  pub stats : Statistics
  -- the calls of the logger, and those of the callback, in order
  pub logged : List LogCall
  pub notified : List (Bytes × Status)

pub data Outcome (A : Type 0) : Type 0 where
  returns : A → Outcome A
  throws : Exception → Outcome A

abbrev pub M : Type 0 → Type 0
M A = Scheduler → Outcome A × Scheduler

abbrev pub continue : {A B : Type 0} → Outcome A × Scheduler → (A → M B) → Outcome B × Scheduler
continue (returns a, s) f = f a s
continue (throws e, s) f = (throws e, s)

infixl 5 ◌>>=◌ ◌>>◌
abbrev pub ◌>>=◌ : {A B : Type 0} → M A → (A → M B) → M B
◌>>=◌ m f s = continue (m s) f

abbrev pub ◌>>◌ : {B : Type 0} → M (Unit {0}) → M B → M B
◌>>◌ m k s = continue (m s) (λ _. k)

abbrev pub pure : {A : Type 0} → A → M A
pure a s = (returns a, s)

abbrev pub modify : (Scheduler → Scheduler) → M (Unit {0})
modify f s = (returns tt, f s)

abbrev pub throw : {A : Type 0} → Exception → M A
throw e s = (throws e, s)

-- `try { m } catch`: the handler is given the exception.
abbrev pub handle : {A : Type 0} → Outcome A × Scheduler → (Exception → M A) → Outcome A × Scheduler
handle (returns a, s) h = (returns a, s)
handle (throws e, s) h = h e s

-- `LOGGER.info(...)` and the like.
abbrev pub log : LogCall → M (Unit {0})
log c = modify λ s. record s { logged = s.logged ++ c ∷ [] }

-- `task->setStatus(...)`
abbrev pub assign_status : ℕ → Status → M (Unit {0})
assign_status task status =
    modify λ s. record s { objects = update s.objects task (set_status status (s.objects task)) }

abbrev pub erase_active : Bytes → M (Unit {0})
erase_active id = modify λ s. record s { active_tasks = erase id s.active_tasks }

abbrev pub increment : ℕ → ℕ
increment n = (n + 1) % size_mod

unfoldable pub count_status : Status → Statistics → Statistics
count_status completed st = record st { tasks_completed = increment st.tasks_completed }
count_status failed st = record st { tasks_failed = increment st.tasks_failed }
count_status cancelled st = record st { tasks_cancelled = increment st.tasks_cancelled }
count_status Status.timeout st = record st { tasks_timeout = increment st.tasks_timeout }
count_status pending st = st
count_status running st = st

-- `TaskScheduler::updateStatistics`
unfoldable pub update_statistics : Status → M (Unit {0})
unfolding count_status
update_statistics status = modify λ s. record s { stats = count_status status s.stats }

-- The call of the callback: an empty `std::function` is not called.
unfoldable pub invoke_callback : Bytes → Status → M (Unit {0})
invoke_callback id status s = elim s.completion_callback [
  | none ↦ (returns tt, s)
  | some callback ↦
      let s' = record s { notified = s.notified ++ (id, status) ∷ [] } in
      elim (callback (length s.notified) id status) [
        | none ↦ (returns tt, s')
        | some e ↦ (throws e, s')
      ]
]

-- `TaskScheduler::notifyTaskCompletion`
unfoldable pub notify_task_completion : Bytes → Status → M (Unit {0})
unfolding invoke_callback
notify_task_completion id status = do
  invoke_callback id status
  modify λ s. record s { completed_tasks = put id status s.completed_tasks }

-- The constructor, with `numThreads` printed in the log; `next_id` is the counter of all tasks.
unfoldable pub new_scheduler : Objects → ℕ → Bytes → Scheduler
new_scheduler objects next_id num_threads = record {
  objects = objects;
  next_object = 0;
  next_id = next_id;
  is_running = false;
  loop = not_started;
  task_queue = empty_queue;
  pending = [];
  executing = [];
  pool_stopped = false;
  completion_callback = none;
  active_tasks = [];
  completed_tasks = [];
  stats = record {
    total_tasks_scheduled = 0;
    tasks_completed = 0;
    tasks_failed = 0;
    tasks_cancelled = 0;
    tasks_timeout = 0;
  };
  logged =
      infos (codes "TaskScheduler initialized with " ++ (num_threads ++ codes " threads")) ∷ [];
  notified = [];
}
