-- ===== src/TaskQueue.antt =====
-- include/TaskQueue.h and src/TaskQueue.cpp: the queue of tasks that wait to be started.
--
-- The queue holds addresses of tasks (`std::shared_ptr<Task>`), and its comparator reads the tasks
-- there. `std::priority_queue` is the list of its elements in the order in which it gives them up:
-- `push` inserts by the comparator as the objects are at that moment, `top` is the head. Elements
-- that the comparator does not tell apart leave in the order of insertion; the standard leaves
-- that open, and no property of the header's list rests on it.
pub mod Order
pub mod Cancel
pub mod Urgent
mod Examples
use task_sched_x.Prelude.{
  ℕ, zero, suc, ◌≡◌, refl, Bool, true, false, ◌||◌, Option, none, some, List, [], ◌∷◌, ◌++◌,
  if◌then◌else◌, Bytes, str_eq, update, length,
}
use task_sched_x.Task.{Objects, Task, runs_after, set_status, cancelled}

pub record TaskQueue : Type 0 where
  pub pq : List ℕ

-- `TaskPriorityCmp`
unfoldable pub priority_cmp : Objects → ℕ → ℕ → Bool
priority_cmp objects a b = runs_after (objects a) (objects b)

-- `std::priority_queue::push`
unfoldable pub pq_push : Objects → ℕ → List ℕ → List ℕ
pq_push objects r [] = r ∷ []
pq_push objects r (x ∷ xs) =
    let rest = x ∷ pq_push objects r xs in if priority_cmp objects x r then r ∷ x ∷ xs else rest

abbrev pub empty_queue : TaskQueue
empty_queue = record { pq = [] }

-- `TaskQueue::push`
unfoldable pub push : Objects → ℕ → TaskQueue → TaskQueue
push objects task q = record { pq = pq_push objects task q.pq }

pop_list : List ℕ → Option (ℕ × TaskQueue)
pop_list [] = none
pop_list (task ∷ rest) = some (task, record { pq = rest })

-- `TaskQueue::pop`; `none` is the undefined behaviour of a call on the empty queue.
unfoldable pub pop : TaskQueue → Option (ℕ × TaskQueue)
unfolding pop_list
pop q = pop_list q.pq

-- `TaskQueue::size`
unfoldable pub size : TaskQueue → ℕ
size q = length q.pq

empty_list : List ℕ → Bool
empty_list [] = true
empty_list (x ∷ xs) = false

-- `TaskQueue::isEmpty`
unfoldable pub is_empty : TaskQueue → Bool
unfolding empty_list
is_empty q = empty_list q.pq

-- The loop of `cancelTask` that empties the queue: the objects, the tasks to keep, and whether a
-- task with this identifier was met.
unfoldable pub cancel_loop : Bytes → Objects → List ℕ → List ℕ → Bool → Objects × List ℕ × Bool
cancel_loop task_id objects [] temp_tasks found = (objects, temp_tasks, found)
cancel_loop task_id objects (task ∷ rest) temp_tasks found =
    let hit = str_eq (objects task).task_id task_id in
    cancel_loop task_id
      (if hit then update objects task (set_status cancelled (objects task)) else objects) rest
      (if hit then temp_tasks else (temp_tasks ++ task ∷ [])) (hit || found)

-- The loop that inserts the kept tasks again.
unfoldable pub reinsert : Objects → List ℕ → List ℕ → List ℕ
reinsert objects [] pq = pq
reinsert objects (task ∷ tasks) pq = reinsert objects tasks (pq_push objects task pq)

-- `TaskQueue::cancelTask`
unfoldable pub cancel_task : Bytes → Objects → TaskQueue → Objects × TaskQueue × Bool
cancel_task task_id objects q =
    let (objects', temp_tasks, found) = cancel_loop task_id objects q.pq [] false in
    (objects', record { pq = reinsert objects' temp_tasks [] }, found)

clear_list : List ℕ → List ℕ
clear_list [] = []
clear_list (task ∷ rest) = clear_list rest

-- `TaskQueue::clear`: it pops until the queue is empty.
unfoldable pub clear : TaskQueue → TaskQueue
unfolding clear_list
clear q = record { pq = clear_list q.pq }
