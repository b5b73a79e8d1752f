-- ===== src/Scheduler/Cancelling/Queued.antt =====
-- `cancelTask` on a task that is not registered: the queue has it, or nothing has.
use task_sched_x.Prelude.{
  ℕ, ◌≡◌, refl, true, false, none, List, [], ◌∷◌, ◌++◌, Bytes, put, find, str_eq_iff, arith, count,
  codes,
}
use task_sched_x.Task.{Objects, cancelled}
use task_sched_x.TaskQueue.Order.{IsSorted}
use task_sched_x.TaskQueue.Cancel.{cancel_task_lem, mark, without, has_id, mem}
use task_sched_x.Logger.{LogCall, infos, warns}
use task_sched_x.Scheduler.State.{Scheduler, increment, returns}
use task_sched_x.Scheduler.Callbacks.{Quiet, told}
use task_sched_x.Scheduler.Client.{cancel_task, cancel_active, cancel_queued, report_cancel}
use task_sched_x.Scheduler.Cancelling.{report_found}

pub has_id_of_mem :
    (id : Bytes) (o : Objects) (r : ℕ) (xs : List ℕ)
    → mem r xs ≡ true
    → (o r).task_id ≡ id
    → has_id id o xs ≡ true
has_id_of_mem id o r [] m e = cc
has_id_of_mem id o r (x ∷ xs) m e =
    ground (arith, has_id_of_mem id o r xs, str_eq_iff (o x).task_id id)

-- No task of the list is left with the identifier.
pub has_id-without :
    (id : Bytes) (o o' : Objects) (xs : List ℕ)
    → ((r : ℕ) → (o' r).task_id ≡ (o r).task_id)
    → has_id id o' (without id o xs) ≡ false
has_id-without id o o' [] same = refl
has_id-without id o o' (x ∷ xs) same = ground (arith, has_id-without id o o' xs same, same x)

pub count-without :
    (id : Bytes) (o : Objects) (r : ℕ) (xs : List ℕ)
    → (o r).task_id ≡ id
    → count r (without id o xs) ≡ 0
count-without id o r [] e = refl
count-without id o r (x ∷ xs) e =
    ground (arith, count-without id o r xs e, str_eq_iff (o x).task_id id)

abbrev pub queue_entry : Bytes → LogCall
queue_entry id = infos (codes "Task " ++ (id ++ codes " cancelled from task queue"))

unfoldable pub after_queue_cancel : Bytes → Scheduler → Scheduler
after_queue_cancel id s = record s {
  objects = mark id s.objects s.task_queue.pq;
  task_queue = record { pq = without id s.objects s.task_queue.pq };
  stats = record (s.stats) { tasks_cancelled = increment s.stats.tasks_cancelled };
  completed_tasks = put id cancelled s.completed_tasks;
  notified = s.notified ++ told s.completion_callback id cancelled;
  logged = s.logged ++ queue_entry id ∷ [];
}

unfoldable pub after_unknown : Bytes → Scheduler → Scheduler
after_unknown id s = record s {
  objects = mark id s.objects s.task_queue.pq;
  task_queue = record { pq = without id s.objects s.task_queue.pq };
  logged = s.logged ++ warns (codes "Attempted to cancel non-existent task: " ++ id) ∷ [];
}

pub cancel_active-none :
    (id : Bytes) (s : Scheduler)
    → find id s.active_tasks ≡ none
    → cancel_active id s ≡ (returns false, s)
unfolding cancel_active
cancel_active-none id s e = rw (e, cancel_active)

unfoldable pub marked : Bytes → Scheduler → List LogCall → Scheduler
marked id s entries = record s {
  objects = mark id s.objects s.task_queue.pq;
  task_queue = record { pq = without id s.objects s.task_queue.pq };
  logged = s.logged ++ entries;
}

pub cancel_queued-found :
    (id : Bytes) (s : Scheduler)
    → IsSorted s.objects s.task_queue.pq
    → has_id id s.objects s.task_queue.pq ≡ true
    → cancel_queued id s ≡ (returns true, marked id s (queue_entry id ∷ []))
unfolding cancel_queued marked
cancel_queued-found id s sorted h = rw (cancel_task_lem id s.objects s.task_queue sorted) (rw h)

pub cancel_queued-missing :
    (id : Bytes) (s : Scheduler)
    → IsSorted s.objects s.task_queue.pq
    → has_id id s.objects s.task_queue.pq ≡ false
    → cancel_queued id s ≡ (
      returns false,
      record s {
        objects = mark id s.objects s.task_queue.pq;
        task_queue = record { pq = without id s.objects s.task_queue.pq };
      },
    )
unfolding cancel_queued
cancel_queued-missing id s sorted h = rw (cancel_task_lem id s.objects s.task_queue sorted) (rw h)

pub cancel_task-queued :
    (id : Bytes) (s : Scheduler)
    → Quiet s.completion_callback
    → IsSorted s.objects s.task_queue.pq
    → find id s.active_tasks ≡ none
    → has_id id s.objects s.task_queue.pq ≡ true
    → cancel_task id s ≡ (returns true, after_queue_cancel id s)
unfolding cancel_task after_queue_cancel marked
cancel_task-queued id s quiet sorted e h = rw (cancel_active-none id s e) (
    rw (cancel_queued-found id s sorted h)
      (report_found id (marked id s (queue_entry id ∷ [])) quiet))

pub cancel_task-missing :
    (id : Bytes) (s : Scheduler)
    → IsSorted s.objects s.task_queue.pq
    → find id s.active_tasks ≡ none
    → has_id id s.objects s.task_queue.pq ≡ false
    → cancel_task id s ≡ (returns false, after_unknown id s)
unfolding cancel_task after_unknown report_cancel
cancel_task-missing id s sorted e h =
    rw (cancel_active-none id s e) (rw (cancel_queued-missing id s sorted h) refl)
