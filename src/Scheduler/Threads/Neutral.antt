-- ===== src/Scheduler/Threads/Neutral.antt =====
-- What the actions of the methods owe to the invariant, and which programs take such actions only.
pub mod Steady
pub mod Codes
use task_sched_x.Prelude.{
  ℕ, ◌+◌, ◌≤◌, ◌≡◌, refl, sym, ap, ◌∙◌, inl, inr, Bool, true, false, Option, none, some, List, [],
  ◌∷◌, ◌++◌, Bytes, find, put, count, if◌then◌else◌, update, arith, Bool-cases, Option-cases,
  find-erase, length,
}
use task_sched_x.Prelude.Int.{ℤ}
use task_sched_x.Task.{Task, Status, Objects, set_status, reschedule, cancelled}
use task_sched_x.TaskQueue.{TaskQueue}
use task_sched_x.TaskQueue.Order.{IsSorted, IsSorted-others}
use task_sched_x.TaskQueue.Cancel.{
  SameKeys, IsSorted-SameKeys, cancel_task_lem, mark, without, has_id, mark-SameKeys,
  IsSorted-without,
}
use task_sched_x.Scheduler.State.{
  Scheduler, Callback, invoke_callback, update_statistics, count_status, assign_status,
  erase_active,
}
use task_sched_x.Scheduler.Client.{cancel_active, cancel_queued, get_task_status}
use task_sched_x.Scheduler.WellFormed.{WellFormed}
use task_sched_x.Scheduler.Invariant.Shrinking.{Shrinks}
use task_sched_x.Scheduler.Invariant.Cancel.{count-without-le}

-- Tasks are not moved from place to place, only removed from the queue and from the registry; the
-- queue stays in order.
pub record Neutral (s s' : Scheduler) : Type 0 where
  pub next_object : s'.next_object ≡ s.next_object
  pub next_id : s'.next_id ≡ s.next_id
  pub ids : (x : ℕ) → (s'.objects x).task_id ≡ (s.objects x).task_id
  pub active :
      (id : Bytes) (x : ℕ) → find id s'.active_tasks ≡ some x → find id s.active_tasks ≡ some x
  pub loop : s'.loop ≡ s.loop
  pub running : s'.is_running ≡ s.is_running
  pub same_pool : s'.pool_stopped ≡ s.pool_stopped
  pub pending : s'.pending ≡ s.pending
  pub executing : s'.executing ≡ s.executing
  pub queue : (x : ℕ) → count x s'.task_queue.pq ≤ count x s.task_queue.pq
  pub sorted : IsSorted s'.objects s'.task_queue.pq

pub Neutral-Shrinks : {s s' : Scheduler} → Neutral s s' → Shrinks s s'
Neutral-Shrinks n = record {
  next_object = n.next_object;
  next_id = n.next_id;
  ids = n.ids;
  active = n.active;
  fewer = λ x. rw (n.loop, n.pending, n.executing) (omega (arith, n.queue x));
  sorted = n.sorted;
}

-- The task that a thread carries is not in the queue.
abbrev pub Free : Option ℕ → Scheduler → Type 0
Free none s = Unit {0}
Free (some r) s = count r s.task_queue.pq ≡ 0

-- An action that is neutral for a thread that carries the task.
pub record Safe (o : Option ℕ) (f : Scheduler → Scheduler) : Type 0 where
  pub safe : (s : Scheduler) → WellFormed s → Free o s → Neutral s (f s)

-- Nothing changes that the invariant speaks of.
abbrev Outside : Scheduler → Scheduler → Type 0
Outside s s' =
    (s'.objects ≡ s.objects)
    × (s'.next_object ≡ s.next_object)
    × (s'.next_id ≡ s.next_id)
    × (s'.active_tasks ≡ s.active_tasks)
    × (s'.loop ≡ s.loop)
    × (s'.is_running ≡ s.is_running)
    × (s'.pool_stopped ≡ s.pool_stopped)
    × (s'.pending ≡ s.pending)
    × (s'.executing ≡ s.executing)
    × (s'.task_queue ≡ s.task_queue)

Outside-Neutral : (s s' : Scheduler) → Outside s s' → WellFormed s → Neutral s s'
Outside-Neutral s s' (o, n, i, a, l, ru, sp, p, e, q) v = record {
  next_object = n;
  next_id = i;
  ids = λ x. ap (λ (f : Objects). (f x).task_id) o;
  active = λ id x f. rw a at f;
  loop = l;
  running = ru;
  same_pool = sp;
  pending = p;
  executing = e;
  queue = λ x. rw q (omega arith);
  sorted = rw (o, q) v.sorted;
}

pub Outside-Safe :
    (o : Option ℕ) (f : Scheduler → Scheduler) → ((s : Scheduler) → Outside s (f s)) → Safe o f
Outside-Safe o f h = record { safe = λ s v _. Outside-Neutral s (f s) (h s) v }

pub callback-Safe :
    (o : Option ℕ) (id : Bytes) (status : Status) → Safe o (λ s. (invoke_callback id status s).1)
unfolding invoke_callback
callback-Safe o id status = Outside-Safe o (λ s. (invoke_callback id status s).1) called
  where
    called : (s : Scheduler) → Outside s (invoke_callback id status s).1
    called s = elim (Option-cases s.completion_callback) [
      | inl e ↦ rw (e, invoke_callback) (refl, refl, refl, refl, refl, refl, refl, refl, refl, refl)
      | inr (callback, e) ↦ elim (Option-cases (callback (length s.notified) id status)) [
        | inl f ↦
            rw (e, invoke_callback, f) (refl, refl, refl, refl, refl, refl, refl, refl, refl, refl)
        | inr (x, f) ↦
            rw (e, invoke_callback, f) (refl, refl, refl, refl, refl, refl, refl, refl, refl, refl)
      ]
    ]

pub statistics-Safe :
    (o : Option ℕ) (status : Status) → Safe o (λ s. (update_statistics status s).1)
unfolding update_statistics
statistics-Safe o status =
    Outside-Safe o (λ s. record s { stats = count_status status s.stats })
      (λ s. (refl, refl, refl, refl, refl, refl, refl, refl, refl, refl))

-- A status is assigned.
pub status-Safe :
    (o : Option ℕ) (task : ℕ) (status : Status) → Safe o (λ s. (assign_status task status s).1)
unfolding set_status
status-Safe o task status = record {
  safe = λ s v _. record {
    next_object = refl;
    next_id = refl;
    ids = λ x. ground arith;
    active = λ id x e. e;
    loop = refl;
    running = refl;
    same_pool = refl;
    pending = refl;
    executing = refl;
    queue = λ x. omega arith;
    sorted = IsSorted-SameKeys s.objects _ s.task_queue.pq (λ x. ground arith) v.sorted;
  };
}

pub erase-Safe : (o : Option ℕ) (id : Bytes) → Safe o (λ s. (erase_active id s).1)
erase-Safe o id = record {
  safe = λ s v _. record {
    next_object = refl;
    next_id = refl;
    ids = λ x. refl;
    active = λ j x e. ground (arith, find-erase id j s.active_tasks);
    loop = refl;
    running = refl;
    same_pool = refl;
    pending = refl;
    executing = refl;
    queue = λ x. omega arith;
    sorted = v.sorted;
  };
}

-- A task is given its next start time, by the thread that carries it.
pub reschedule-Safe :
    (task : ℕ) (now : ℤ)
    → Safe
        (some task)
        (λ s. record s { objects = update s.objects task (reschedule now (s.objects task)) })
unfolding reschedule
reschedule-Safe task now = record {
  safe = λ s v free. record {
    next_object = refl;
    next_id = refl;
    ids = λ x. ground arith;
    active = λ id x e. e;
    loop = refl;
    running = refl;
    same_pool = refl;
    pending = refl;
    executing = refl;
    queue = λ x. omega arith;
    sorted = IsSorted-others s.objects _ task s.task_queue.pq free (λ y ne. ground arith) v.sorted;
  };
}

pub cancel_active-Safe : (o : Option ℕ) (id : Bytes) → Safe o (λ s. (cancel_active id s).1)
unfolding cancel_active set_status
cancel_active-Safe o id = record { safe = λ s v _. cancels s v }
  where
    cancels : (s : Scheduler) → WellFormed s → Neutral s (cancel_active id s).1
    cancels s v = elim (Option-cases (find id s.active_tasks)) [
      | inl e ↦
          rw (e, cancel_active)
            (Outside-Neutral s s (refl, refl, refl, refl, refl, refl, refl, refl, refl, refl) v)
      | inr (r, e) ↦
          rw (e, cancel_active)
            (record {
              next_object = refl;
              next_id = refl;
              ids = λ x. ground arith;
              active = λ j x h. ground (arith, find-erase id j s.active_tasks);
              loop = refl;
              running = refl;
              same_pool = refl;
              pending = refl;
              executing = refl;
              queue = λ x. omega arith;
              sorted = IsSorted-SameKeys s.objects _ s.task_queue.pq (λ x. ground arith) v.sorted;
            })
    ]

pub cancel_queued-Safe : (o : Option ℕ) (id : Bytes) → Safe o (λ s. (cancel_queued id s).1)
unfolding cancel_queued
cancel_queued-Safe o id = record { safe = λ s v _. cancels s v }
  where
    cancels : (s : Scheduler) → WellFormed s → Neutral s (cancel_queued id s).1
    cancels s v =
        let ob = s.objects in
        let xs = s.task_queue.pq in
        let w =
          IsSorted-SameKeys ob (mark id ob xs) (without id ob xs) (mark-SameKeys id ob xs)
            (IsSorted-without id ob xs v.sorted) in
        rw (cancel_task_lem id ob s.task_queue v.sorted) (elim (Bool-cases (has_id id ob xs)) [
          | inl there ↦ rw there (record {
            next_object = refl;
            next_id = refl;
            ids = λ x. ground arith;
            active = λ j x h. h;
            loop = refl;
            running = refl;
            same_pool = refl;
            pending = refl;
            executing = refl;
            queue = λ x. count-without-le id ob x xs;
            sorted = w;
          })
          | inr missing ↦ rw missing (record {
            next_object = refl;
            next_id = refl;
            ids = λ x. ground arith;
            active = λ j x h. h;
            loop = refl;
            running = refl;
            same_pool = refl;
            pending = refl;
            executing = refl;
            queue = λ x. count-without-le id ob x xs;
            sorted = w;
          })
        ])

pub query-Safe : (o : Option ℕ) (id : Bytes) → Safe o (λ s. (get_task_status id s).1)
unfolding get_task_status
query-Safe o id = Outside-Safe o (λ s. (get_task_status id s).1) answered
  where
    answered : (s : Scheduler) → Outside s (get_task_status id s).1
    answered s = elim (Option-cases (find id s.active_tasks)) [
      | inr (r, e) ↦
          rw (e, get_task_status) (refl, refl, refl, refl, refl, refl, refl, refl, refl, refl)
      | inl e ↦ elim (Option-cases (find id s.completed_tasks)) [
        | inr (status, k) ↦
            rw (e, get_task_status, k) (refl, refl, refl, refl, refl, refl, refl, refl, refl, refl)
        | inl k ↦
            rw (e, get_task_status, k) (refl, refl, refl, refl, refl, refl, refl, refl, refl, refl)
      ]
    ]
