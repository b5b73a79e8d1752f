-- ===== src/Scheduler/Wakeup.antt =====
-- `workAvailable_cv`: the first wait of `runSchedulerLoop`, and who notifies it. `Threads.Steps` lets the
-- thread go on as soon as the predicate of this wait holds; here it must be awake.
pub mod Heeding
pub mod Notices
mod Examples
use task_sched_x.Prelude.{
  ℕ, ◌+◌, ◌≤◌, ◌<◌, ◌≡◌, ◌≢◌, refl, sym, ap, ◌∙◌, inl, inr, Bool, true, false, Option, none, some,
  List, [], ◌∷◌, ◌++◌, Bytes, find, count, if◌then◌else◌, ◌==◌, arith, Bool-cases, Option-cases,
  subst,
}
use task_sched_x.Prelude.Int.{ℤ}
use task_sched_x.Task.{Objects}
use task_sched_x.TaskQueue
use task_sched_x.TaskQueue.{TaskQueue}
use task_sched_x.Scheduler.State.{Scheduler, at_head, finished, new_scheduler}
use task_sched_x.Scheduler.Client
use task_sched_x.Scheduler.Client.{request_stop}
use task_sched_x.Scheduler.Execute.{is_cancelled}
use task_sched_x.Scheduler.Loop.{fetch, wake, look_up, dispatch, leave_loop}
use task_sched_x.Scheduler.System
use task_sched_x.Scheduler.System.{
  Idle, schedule, cancel, query, set_callback, starts, stops, stops_pool, fetches, wakes, looks_up,
  dispatches, executes,
}
use task_sched_x.Scheduler.Threads.{Program, ended, enqueue, register}
use task_sched_x.Scheduler.Threads.Steps.{
  Threads, of_loop, Step as ThreadStep, Steps as ThreadSteps, Reach as ThreadReach, begins, takes,
  moves, makes, queues, lays_down, own, discards, taken, moved, made, queued, laid_down,
}
use task_sched_x.Scheduler.Threads.Exclusive.{Exclusive, moved-Neutral}
use task_sched_x.Scheduler.Threads.Exclusive.Kept.{Step-Exclusive, Reach-Exclusive}

-- The scheduler's thread, as to the wait.
pub data Waiter : Type 0 where
  awake : Waiter
  deciding : Waiter  -- holds `queueMutex`, the predicate was false, and it is about to block
  blocked : Waiter

pub record Signals : Type 0 where
  pub threads : Threads
  pub waiter : Waiter
  -- tasks that were put in the queue and whose `notify_one` is still to come
  pub owed : ℕ
  -- `stop` has cleared `isRunning`, and its `notify_all` is still to come
  pub broadcast : Bool

-- A notification.
abbrev pub roused : Waiter → Waiter
roused awake = awake
roused deciding = deciding
roused blocked = awake

-- Steps that neither wait nor notify.
abbrev pub apart : {s s' : Scheduler} → System.Step s s' → Bool
apart (starts ready) = true
apart (stops_pool off idle) = true
apart (wakes now due t at f) = true
apart (looks_up r at) = true
apart (dispatches r at) = true
apart step = false

abbrev pub unsignalled : {n : ℕ} {t u : Threads} → ThreadStep n t u → Bool
unsignalled (queues i r k e) = false
unsignalled (own s step of_it) = apart step
unsignalled step = true

pub data Step (n : ℕ) (w : Signals) : Signals → Type 0 where
  others :
      (t : Threads) (step : ThreadStep n w.threads t)
      → unsignalled step ≡ true
      → Step n w (record w { threads = t })
  -- The predicate holds, so that the thread does not wait, or no longer.
  goes_on :
      (now : ℤ) (t : Scheduler)
      → w.waiter ≡ awake
      → w.threads.shared.loop ≡ at_head
      → fetch now w.threads.shared ≡ some t
      → Step n w (record w { threads = record (w.threads) { shared = t } })
  -- It does not hold.
  decides :
      (now : ℤ)
      → w.waiter ≡ awake
      → w.threads.shared.loop ≡ at_head
      → fetch now w.threads.shared ≡ none
      → Step n w (record w { waiter = deciding })
  -- `wait` releases the mutex and blocks, at once.
  blocks : w.waiter ≡ deciding → Step n w (record w { waiter = blocked })
  -- `taskQueue.push`, under the mutex.
  pushes :
      (i r : ℕ) (k : Program)
      → w.threads.program i ≡ enqueue r k
      → w.waiter ≢ deciding
      → Step n w (record w { threads = queued i r k w.threads; owed = w.owed + 1 })
  notifies : (k : ℕ) → w.owed ≡ k + 1 → Step n w (record w { waiter = roused w.waiter; owed = k })
  -- `stop` sets `isRunning` without the mutex, and then notifies.
  clears : Step n w (record w {
    threads = record (w.threads) { shared = request_stop w.threads.shared };
    broadcast = true;
  })
  notifies_all :
      w.broadcast ≡ true → Step n w (record w { waiter = roused w.waiter; broadcast = false })

pub data Steps (n : ℕ) (w : Signals) : Signals → Type 0 where
  here : Steps n w w
  next : {u v : Signals} → Steps n w u → Step n u v → Steps n w v

-- The states after the constructor.
abbrev pub Reach : ℕ → Objects → ℕ → Bytes → Signals → Type 0
Reach n objects next_id num_threads = Steps n (record {
  threads = record {
    shared = new_scheduler objects next_id num_threads;
    program = λ i. ended;
    carried = λ i. none;
  };
  waiter = awake;
  owed = 0;
  broadcast = false;
})

-- A thread that waits stands at the head of the loop; and while the scheduler runs, the queue is empty
-- or a notification is still to come.
pub record Heeded (w : Signals) : Type 0 where
  pub at_wait : w.waiter ≢ awake → w.threads.shared.loop ≡ at_head
  pub empty_when_deciding :
      w.waiter ≡ deciding → w.threads.shared.is_running ≡ true → w.threads.shared.task_queue.pq ≡ []
  pub empty_or_owed :
      w.waiter ≡ blocked
      → w.threads.shared.is_running ≡ true
      → w.owed ≡ 0
      → w.threads.shared.task_queue.pq ≡ []

empty_if_no_more : (xs ys : List ℕ) → ((x : ℕ) → count x xs ≤ count x ys) → ys ≡ [] → xs ≡ []
empty_if_no_more [] ys h e = refl
empty_if_no_more (x ∷ xs) ys h e = absurd (ground (arith, h x, ap (count x) e))

start-running : (s : Scheduler) → s.is_running ≡ true → Client.start s ≡ s
unfolding Client.start
start-running s run = ground arith

-- A thread at the head of the loop is left there, and its queue is left empty if it was.
pub record Waits (s s' : Scheduler) : Type 0 where
  pub at_head_still : s'.loop ≡ at_head
  pub same_running : s'.is_running ≡ s.is_running
  pub empty_still : s.task_queue.pq ≡ [] → s'.task_queue.pq ≡ []

Waits-refl : (s : Scheduler) → s.loop ≡ at_head → Waits s s
Waits-refl s at = record { at_head_still = at; same_running = refl; empty_still = λ e. e }

apart-Waits :
    {s s' : Scheduler} (step : System.Step s s') → apart step ≡ true → s.loop ≡ at_head → Waits s s'
apart-Waits {s} (starts (inl run)) alone at = rw (start-running s run) (Waits-refl s at)
apart-Waits {s} (starts (inr (inl idle))) alone at = cc
apart-Waits {s} (starts (inr (inr over))) alone at = cc
apart-Waits (stops_pool off idle) alone at = record {
  at_head_still = at;
  same_running = refl;
  empty_still = λ e. e;
}
apart-Waits (wakes now due t sleeps f) alone at = cc
apart-Waits (looks_up r holds) alone at = cc
apart-Waits (dispatches r holds) alone at = cc
apart-Waits stops alone at = cc
apart-Waits (fetches now t f g) alone at = cc
apart-Waits (schedule c room) alone at = cc
apart-Waits (cancel id) alone at = cc
apart-Waits (query id) alone at = cc
apart-Waits (set_callback callback) alone at = cc
apart-Waits (System.discards off none_left) alone at = cc
apart-Waits (System.takes r rest e run) alone at = cc
apart-Waits (executes r thread moment now some_there) alone at = cc

pub others-Waits :
    (n : ℕ) (t : Threads) {u : Threads} (step : ThreadStep n t u)
    → unsignalled step ≡ true
    → Exclusive t
    → t.shared.loop ≡ at_head
    → Waits t.shared u.shared
unfolding taken moved made laid_down register
others-Waits n t (begins i request out e c) alone v at = Waits-refl t.shared at
others-Waits n t (takes i r rest thread moment now lt e c p run) alone v at = record {
  at_head_still = at;
  same_running = refl;
  empty_still = λ h. h;
}
others-Waits n t (moves i f g e) alone v at =
    let k = moved-Neutral t i f g v e in
    record {
      at_head_still = k.loop ∙ at;
      same_running = k.running;
      empty_still = empty_if_no_more (f t.shared).task_queue.pq t.shared.task_queue.pq k.queue;
    }
others-Waits n t (makes i c k e room) alone v at = record {
  at_head_still = at;
  same_running = refl;
  empty_still = λ h. h;
}
others-Waits n t (queues i r k e) alone v at = cc
others-Waits n t (lays_down i r e c) alone v at = record {
  at_head_still = at;
  same_running = refl;
  empty_still = λ h. h;
}
others-Waits n t (own s step of_it) alone v at = apart-Waits step alone at
others-Waits n t (discards off done) alone v at = record {
  at_head_still = at;
  same_running = refl;
  empty_still = λ h. h;
}
