-- ===== src/ThreadPool/Wakeup.antt =====
-- Notifications: `enqueueTask` loses none, `stop` may lose one.
use task_sched_x.Prelude.{
  ℕ, ◌≤◌, ◌<◌, ◌≡◌, ◌≢◌, refl, ap, true, false, [], ◌∷◌, arith, ◌⊎◌, inl, inr, length,
  length-append,
}
use task_sched_x.ThreadPool.{
  Pool, Worker, starting, ready, deciding, blocked, busy, exited, not_called, flagged, joining,
  new_pool, move_to, enqueue_task, take_job, notify_all, discard, woken,
}
use task_sched_x.ThreadPool.Steps.{
  Step, Steps, Reach, start, take, leave, decide, block, finish, finish_throwing, enqueue, notify,
  notify_nobody, set_flag, wake_all, empty_queue, here, next,
}
use task_sched_x.ThreadPool.Invariant.{Inv, Reach-Inv}

module _ {A : Type 0} where
  -- A thread that will test the predicate of `wait` by itself.
  abbrev pub IsAwake : Worker A → Type 0
  IsAwake starting = Unit
  IsAwake ready = Unit
  IsAwake (busy task) = Unit
  IsAwake w = ⊥

  -- Someone will look at the queue: an awake worker, or a notification that is still owed.
  abbrev pub Attended : ℕ → Pool A → Type 0
  Attended n p = ((i : ℕ) × (i < n) × IsAwake (p.worker i)) ⊎ (0 < p.owed)

  -- The state in which `stop` has notified everybody and thread `i` is blocked all the same.
  record Stuck (i : ℕ) (p : Pool A) : Type 0 where
    asleep : p.worker i ≡ blocked
    phase : p.stop_phase ≡ joining
    nothing_owed : p.owed ≡ 0

  Step-enqueued : {n : ℕ} {p q : Pool A} → Step n p q → length p.enqueued ≤ length q.enqueued
  unfolding enqueue_task take_job notify_all discard
  Step-enqueued (start i lt e) = omega arith
  Step-enqueued {p} (enqueue task free) = omega (arith, length-append p.enqueued (task ∷ []))
  Step-enqueued step = omega arith

  Steps-enqueued : {n : ℕ} {p q : Pool A} → Steps n p q → length p.enqueued ≤ length q.enqueued
  Steps-enqueued here = omega arith
  Steps-enqueued (next r step) = omega (arith, Steps-enqueued r, Step-enqueued step)

  Step-Stuck :
      {n : ℕ} {p q : Pool A} (i : ℕ)
      → i < n
      → Step n p q
      → length q.enqueued ≡ length p.enqueued
      → Stuck i p
      → Stuck i q
  unfolding enqueue_task take_job notify_all discard
  Step-Stuck i lt (start j lt' e) same s = ground arith
  Step-Stuck {p} i lt (enqueue task free) same s =
      absurd (omega (arith, length-append p.enqueued (task ∷ [])))
  Step-Stuck i lt (notify j k lt' owed e) same s = absurd (omega (arith, s.nothing_owed))
  Step-Stuck i lt (notify_nobody k owed e) same s = absurd (omega (arith, s.nothing_owed))
  Step-Stuck i lt (set_flag e) same s = cc (s.phase)
  Step-Stuck i lt (wake_all e) same s = cc (s.phase)
  Step-Stuck i lt (empty_queue e all) same s = cc (s.asleep, all i lt)
  Step-Stuck i lt (take j task rest lt' e free q run) same s = ground arith
  Step-Stuck i lt (leave j lt' e free run) same s = ground arith
  Step-Stuck i lt (decide j lt' e free q run) same s = ground arith
  Step-Stuck i lt (block j lt' e) same s = ground arith
  Step-Stuck i lt (finish j task lt' e) same s = ground arith
  Step-Stuck i lt (finish_throwing j task x lt' e) same s = ground arith

  Steps-Stuck :
      {n : ℕ} {p q : Pool A} (i : ℕ)
      → i < n
      → Steps n p q
      → length q.enqueued ≡ length p.enqueued
      → Stuck i p
      → Stuck i q
  Steps-Stuck i lt here same s = s
  Steps-Stuck i lt (next r step) same s =
      Step-Stuck i lt step (omega (arith, Steps-enqueued r, Step-enqueued step))
        (Steps-Stuck i lt r (omega (arith, Steps-enqueued r, Step-enqueued step)) s)

  -- The state after `stop` has set the flag and notified everybody, and thread `i` has blocked.
  abbrev pub hung : ℕ → Pool A → Pool A
  hung i p = move_to i blocked (notify_all (record p { stop_flag = true; stop_phase = flagged }))

  -- The flag is set without the mutex. So wherever a worker has found the predicate of `wait` false
  -- and has not blocked yet, with no notification owed, a call of `stop` can pass it by: the worker
  -- then blocks, and until somebody enqueues a job it stays blocked, and `stop` stays in its join.
  pub stop_may_hang :
      {n : ℕ} {p : Pool A} (i : ℕ)
      → i < n
      → p.worker i ≡ deciding
      → p.stop_phase ≡ not_called
      → p.owed ≡ 0
      → Steps n p (hung i p)
        × ((q : Pool A)
            → Steps n (hung i p) q
            → length q.enqueued ≡ length p.enqueued
            → (q.worker i ≡ blocked) × (q.stop_phase ≡ joining))
  unfolding notify_all
  stop_may_hang {p} i lt at phase owed = (
    next (next (next here (set_flag phase)) (wake_all refl)) (block i lt (ap woken at)),
    λ q r same.
        let s =
          Steps-Stuck i lt r same
            (record { asleep = ground arith; phase = refl; nothing_owed = owed }) in
        (s.asleep, s.phase),
  )

  IsAwake-if : (w : Worker A) → w ≢ blocked → w ≢ deciding → w ≢ exited → IsAwake w
  IsAwake-if starting a b c = tt
  IsAwake-if ready a b c = tt
  IsAwake-if deciding a b c = absurd (b refl)
  IsAwake-if blocked a b c = absurd (a refl)
  IsAwake-if (busy task) a b c = tt
  IsAwake-if exited a b c = absurd (c refl)

  Step-Attended :
      {n : ℕ} {p q : Pool A}
      → Step n p q
      → 0 < n
      → Inv n p
      → (p.task_queue ≢ [] → Attended n p)
      → q.stop_flag ≡ false
      → q.task_queue ≢ []
      → Attended n q
  unfolding enqueue_task take_job notify_all discard
  Step-Attended (start i lt e) pos v h run some_job = inl (i, lt, ground arith)
  Step-Attended (take i task rest lt e free q r) pos v h run some_job = inl (i, lt, ground arith)
  Step-Attended (leave i lt e free r) pos v h run some_job = cc
  Step-Attended (decide i lt e free q r) pos v h run some_job = absurd (some_job q)
  Step-Attended (block i lt e) pos v h run some_job = absurd (some_job (v.saw_empty i lt e))
  Step-Attended (finish i task lt e) pos v h run some_job = inl (i, lt, ground arith)
  Step-Attended (finish_throwing i task x lt e) pos v h run some_job = inl (i, lt, ground arith)
  Step-Attended (enqueue task free) pos v h run some_job = inr (omega arith)
  Step-Attended (notify i k lt owed e) pos v h run some_job = inl (i, lt, ground arith)
  Step-Attended (notify_nobody k owed e) pos v h run some_job = inl (
    0,
    pos,
    IsAwake-if _ (e 0 pos) (λ d. some_job (v.saw_empty 0 pos d)) (λ x. cc (v.nobody_left 0 pos x)),
  )
  Step-Attended (set_flag e) pos v h run some_job = cc
  Step-Attended (wake_all e) pos v h run some_job = cc (v.flag run)
  Step-Attended (empty_queue e all) pos v h run some_job = absurd (some_job refl)

  Step-flag : {n : ℕ} {p q : Pool A} → Step n p q → q.stop_flag ≡ false → p.stop_flag ≡ false
  unfolding enqueue_task take_job notify_all discard
  Step-flag (start i lt e) h = h
  Step-flag (set_flag e) h = cc
  Step-flag step h = h

  -- No notification of `enqueueTask` is lost: while jobs are queued in a pool with workers and `stop`
  -- was not called, some worker will test the queue by itself, or a notification is still owed. So
  -- queued jobs never wait on workers that are all blocked.
  pub queued_job-Attended :
      {n : ℕ} {p : Pool A}
      → 0 < n
      → Reach n p
      → p.stop_flag ≡ false
      → p.task_queue ≢ []
      → Attended n p
  unfolding new_pool
  queued_job-Attended pos here run some_job = absurd (some_job refl)
  queued_job-Attended pos (next r step) run some_job =
      Step-Attended step pos (Reach-Inv r) (queued_job-Attended pos r (Step-flag step run)) run
        some_job
