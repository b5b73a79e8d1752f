-- ===== src/TaskQueue/Examples.antt =====
-- Tests of the queue, and its theorems at concrete inputs.
use task_sched_x.TaskQueue.Urgent.{
  Use, new, pushed as push_one, popped, cancelled, Served, pop-Served,
}
use task_sched_x.Prelude.{
  if◌then◌else◌, ◌==◌, ◌-◌, ◌+◌, ℕ, str_eq, ◌%◌, ◌≡◌, refl, none, false, ◌∷◌, [],
}
use task_sched_x.Prelude.Int.{pos}
use task_sched_x.Task.{Objects, pending, runs_after, set_status}
use task_sched_x.TaskQueue.{
  TaskQueue, empty_queue, push, cancel_task, pop, cancel_loop, reinsert, pq_push, priority_cmp,
}
use task_sched_x.TaskQueue.Order.{pops}

-- Task `n` has priority `n % 3` and the one-byte identifier `n`.
abbrev sample : Objects
sample n = record {
  task_fn = none;
  start_time = pos n;
  priority = pos (n % 3);
  status = pending;
  is_repeatable = false;
  repeat_every = pos 10;
  timeout = pos 60;
  task_id = n ∷ [];
}

abbrev four : TaskQueue
four = push sample 3 (push sample 4 (push sample 2 (push sample 5 empty_queue)))

popped_in_order : pops 4 four ≡ 3 ∷ 4 ∷ 2 ∷ 5 ∷ []
unfolding pops push pop pq_push priority_cmp runs_after
popped_in_order = refl

abbrev three : TaskQueue
three = record { pq = 3 ∷ 4 ∷ 2 ∷ [] }

cancel_four : (cancel_task (4 ∷ []) sample three).1 ≡ record { pq = 3 ∷ 2 ∷ [] }
unfolding cancel_task cancel_loop reinsert pq_push priority_cmp runs_after set_status str_eq
cancel_four = refl

-- Three tasks are pushed, one is cancelled, and one is popped.
abbrev used : TaskQueue
used = record { pq = 2 ∷ [] }

abbrev held_after : ℕ → ℕ
held_after x =
    (if str_eq (sample x).task_id (4 ∷ [])
      then 0
      else (if 3 == x then 1 else 0)
        + ((if 4 == x then 1 else 0) + ((if 2 == x then 1 else 0) + 0)))
    - (if 3 == x then 1 else 0)

used-Use : Use (cancel_task (4 ∷ []) sample three).0 held_after used
unfolding cancel_task cancel_loop reinsert push pq_push pop priority_cmp runs_after set_status
    str_eq
used-Use =
    popped 3 used (cancelled (4 ∷ []) (push_one 3 (push_one 4 (push_one 2 (new sample))))) refl

pop-Served_example : Served (cancel_task (4 ∷ []) sample three).0 held_after (pop used)
pop-Served_example = pop-Served used-Use
