-- ===== src/Scheduler/Ordering.antt =====
-- The order in which the workers take the tasks that were queued before.
pub mod Lists
pub mod Follows
pub mod Kept
use task_sched_x.Prelude.{ℕ, ◌≡◌, Bool, true, false, List, [], ◌∷◌, ◌++◌}
use task_sched_x.Scheduler.State.{
  Scheduler, LoopPhase, not_started, at_head, popped, checked, sleeping, finished,
}
use task_sched_x.Scheduler.System.{
  Step, schedule, cancel, query, set_callback, starts, stops, stops_pool, discards, fetches, wakes,
  looks_up, dispatches, takes, executes,
}

-- The task that the scheduler's thread holds.
abbrev pub held_tasks : LoopPhase → List ℕ
held_tasks not_started = []
held_tasks at_head = []
held_tasks (popped r) = r ∷ []
held_tasks (checked r) = r ∷ []
held_tasks (sleeping due) = []
held_tasks finished = []

-- The steps that neither bring new tasks nor cancel any; those that take one are told apart.
abbrev pub is_plain : {s t : Scheduler} → Step s t → Bool
is_plain (schedule c room) = false
is_plain (cancel id) = false
is_plain (takes r rest e run) = false
is_plain (query id) = true
is_plain (set_callback callback) = true
is_plain (starts ready) = true
is_plain stops = true
is_plain (stops_pool off idle) = true
is_plain (discards off none_left) = true
is_plain (fetches now t at f) = true
is_plain (wakes now due t at f) = true
is_plain (looks_up r at) = true
is_plain (dispatches r at) = true
is_plain (executes r thread moment now some_there) = true

-- The runs from a state on, with the tasks that workers have taken, in order.
pub data Runs (start : Scheduler) : List ℕ → Scheduler → Type 0 where
  no_steps : Runs start [] start
  plain :
      {rs : List ℕ} {s t : Scheduler}
      → Runs start rs s
      → (step : Step s t) → is_plain step ≡ true
      → Runs start rs t
  taken :
      {rs : List ℕ} {s : Scheduler} (r : ℕ) (rest : List ℕ)
      → Runs start rs s
      → s.pending ≡ r ∷ rest
      → s.pool_stopped ≡ false
      → Runs start (rs ++ r ∷ []) (record s { pending = rest; executing = r ∷ s.executing })
