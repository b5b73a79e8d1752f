-- ===== src/ThreadPool/Shutdown.antt =====
-- `stop` comes to an end: how many steps the workers still take when it has notified them.
use task_sched_x.Prelude.{
  ℕ, zero, suc, ◌+◌, ◌*◌, ◌≤◌, ◌<◌, ◌≡◌, ◌≢◌, refl, sym, inl, inr, ◌⊎◌, Bool, true, false,
  if◌then◌else◌, ◌==◌, update, arith, Bool-cases, ==_iff, ◌∙◌,
}
use task_sched_x.ThreadPool.{
  Pool, Worker, starting, ready, deciding, blocked, busy, exited, flagged, joining, stopped,
  enqueue_task, take_job, notify_all, discard, woken,
}
use task_sched_x.ThreadPool.Steps.{
  Step, Steps, Reach, Unlocked, start, take, leave, decide, block, finish, finish_throwing, enqueue,
  notify, notify_nobody, set_flag, wake_all, empty_queue, here, next,
}
use task_sched_x.ThreadPool.Invariant.{Inv, Reach-Inv}

module _ {ℓ} {A : Type ℓ} where
  -- How many steps a worker takes at most, when the flag is set.
  abbrev steps_left : Worker A → ℕ
  steps_left starting = 3
  steps_left (busy task) = 2
  steps_left ready = 1
  steps_left deciding = 0
  steps_left blocked = 0
  steps_left exited = 0

  abbrev all_left : ℕ → (ℕ → Worker A) → ℕ
  all_left zero w = 0
  all_left (suc n) w = steps_left (w n) + all_left n w

  -- The steps of the workers' own.
  abbrev pub of_worker : {n : ℕ} {p q : Pool A} → Step n p q → Bool
  of_worker (start i lt e) = true
  of_worker (take i task rest lt e free q run) = true
  of_worker (leave i lt e free run) = true
  of_worker (decide i lt e free q run) = true
  of_worker (block i lt e) = true
  of_worker (finish i task lt e) = true
  of_worker (finish_throwing i task x lt e) = true
  of_worker step = false

  abbrev pub worker_steps : {n : ℕ} {p q : Pool A} → Steps n p q → ℕ
  worker_steps here = 0
  worker_steps (next r step) = (if of_worker step then 1 else 0) + worker_steps r

  -- `stop` has notified the workers, and none is blocked or about to be.
  record Leaving (n : ℕ) (p : Pool A) : Type ℓ where
    flag : p.stop_flag ≡ true
    phase : (p.stop_phase ≡ joining) ⊎ (p.stop_phase ≡ stopped)
    undecided : (i : ℕ) → i < n → p.worker i ≢ deciding
    awake : (i : ℕ) → i < n → p.worker i ≢ blocked

  all_left-bound : (n : ℕ) (w : ℕ → Worker A) → all_left n w ≤ 3 * n
  all_left-bound zero w = omega arith
  all_left-bound (suc n) w = omega (arith, all_left-bound n w, one (w n))
    where
      one : (x : Worker A) → steps_left x ≤ 3
      one starting = omega arith
      one (busy task) = omega arith
      one ready = omega arith
      one deciding = omega arith
      one blocked = omega arith
      one exited = omega arith

  all_left-beyond :
      (n i : ℕ) (w : ℕ → Worker A) (x : Worker A) → n ≤ i → all_left n (update w i x) ≡ all_left n w
  all_left-beyond zero i w x le = refl
  all_left-beyond (suc n) i w x le = ground (arith, all_left-beyond n i w x (omega arith))

  all_left-update :
      (n i : ℕ) (w : ℕ → Worker A) (x : Worker A)
      → i < n
      → all_left n (update w i x) + steps_left (w i) ≡ all_left n w + steps_left x
  all_left-update zero i w x lt = absurd (omega arith)
  all_left-update (suc n) i w x lt = elim (Bool-cases (i == n)) [
    | inl same ↦
        let e = (==_iff i n).0 same in
        rw (same, sym e) (omega (arith, all_left-beyond i i w x (omega arith)))
    | inr other ↦ rw other (omega (arith, all_left-update n i w x (ground (arith, ==_iff i n))))
  ]

  -- A worker goes on to a state that is neither `deciding` nor `blocked`.
  moved-Leaving :
      (n i : ℕ) (p q : Pool A) (x : Worker A)
      → Leaving n p
      → q.worker ≡ update p.worker i x
      → q.stop_flag ≡ p.stop_flag
      → q.stop_phase ≡ p.stop_phase
      → x ≢ deciding
      → x ≢ blocked
      → Leaving n q
  moved-Leaving n i p q x h w f s nd nb = record {
    flag = f ∙ h.flag;
    phase = rw s h.phase;
    undecided = λ j lt. rw w (elim (Bool-cases (i == j)) [
      | inl same ↦ rw same nd
      | inr other ↦ rw other (h.undecided j lt)
    ]);
    awake = λ j lt. rw w (elim (Bool-cases (i == j)) [
      | inl same ↦ rw same nb
      | inr other ↦ rw other (h.awake j lt)
    ]);
  }

  -- A step of a worker uses up one of those that are left, the others use up none.
  abbrev UsesUp : {n : ℕ} {p q : Pool A} → Step n p q → Type 0
  UsesUp {n} {p} {q} step =
      (if of_worker step then 1 else 0) + all_left n q.worker ≤ all_left n p.worker

  Step-Leaving :
      {n : ℕ} {p q : Pool A} (step : Step n p q) → Leaving n p → Leaving n q × UsesUp step
  unfolding enqueue_task take_job notify_all discard
  Step-Leaving {n} {p} {q} (start i lt e) h = (
    moved-Leaving n i p q ready h refl refl refl (λ x. cc) (λ x. cc),
    omega (arith, rw e at (all_left-update n i p.worker ready lt)),
  )
  Step-Leaving (take i task rest lt e free q run) h = cc
  Step-Leaving {n} {p} {q} (leave i lt e free run) h = (
    moved-Leaving n i p q exited h refl refl refl (λ x. cc) (λ x. cc),
    omega (arith, rw e at (all_left-update n i p.worker exited lt)),
  )
  Step-Leaving (decide i lt e free q run) h = cc
  Step-Leaving (block i lt e) h = absurd (h.undecided i lt e)
  Step-Leaving {n} {p} {q} (finish i task lt e) h = (
    moved-Leaving n i p q ready h refl refl refl (λ x. cc) (λ x. cc),
    omega (arith, rw e at (all_left-update n i p.worker ready lt)),
  )
  Step-Leaving {n} {p} {q} (finish_throwing i task x lt e) h = (
    moved-Leaving n i p q ready h refl refl refl (λ y. cc) (λ y. cc),
    omega (arith, rw e at (all_left-update n i p.worker ready lt)),
  )
  Step-Leaving (enqueue task free) h = (
    record { flag = h.flag; phase = h.phase; undecided = h.undecided; awake = h.awake },
    omega arith,
  )
  Step-Leaving (notify i k lt owed e) h = absurd (h.awake i lt e)
  Step-Leaving (notify_nobody k owed e) h = (
    record { flag = h.flag; phase = h.phase; undecided = h.undecided; awake = h.awake },
    omega arith,
  )
  Step-Leaving (set_flag e) h = elim h.phase [ inl j ↦ cc | inr s ↦ cc ]
  Step-Leaving (wake_all e) h = elim h.phase [ inl j ↦ cc | inr s ↦ cc ]
  Step-Leaving (empty_queue e all) h = (
    record { flag = h.flag; phase = inr refl; undecided = h.undecided; awake = h.awake },
    omega arith,
  )

  Steps-Leaving :
      {n : ℕ} {p q : Pool A} (r : Steps n p q)
      → Leaving n p
      → Leaving n q × (worker_steps r + all_left n q.worker ≤ all_left n p.worker)
  Steps-Leaving here h = (h, omega arith)
  Steps-Leaving (next r step) h =
      let (h', used) = Steps-Leaving r h in
      let (h'', used') = Step-Leaving step h' in (h'', omega arith)

  -- All have left, or one can go on.
  abbrev Goes : ℕ → Pool A → Type ℓ
  Goes n p = (q : Pool A) × (step : Step n p q) × (of_worker step ≡ true)

  worker-Goes :
      (n i : ℕ) (p : Pool A) (w : Worker A)
      → Leaving n p
      → i < n
      → p.worker i ≡ w
      → (w ≡ exited) ⊎ Goes n p
  worker-Goes n i p starting h lt e = inr (_, start i lt e, refl)
  worker-Goes n i p ready h lt e = inr (_, leave i lt e h.undecided h.flag, refl)
  worker-Goes n i p deciding h lt e = absurd (h.undecided i lt e)
  worker-Goes n i p blocked h lt e = absurd (h.awake i lt e)
  worker-Goes n i p (busy task) h lt e = inr (_, finish i task lt e, refl)
  worker-Goes n i p exited h lt e = inl refl

  workers-Goes :
      (n k : ℕ) (p : Pool A)
      → Leaving n p
      → k ≤ n
      → ((i : ℕ) → i < k → p.worker i ≡ exited) ⊎ Goes n p
  workers-Goes n zero p h le = inl (λ i lt. absurd (omega arith))
  workers-Goes n (suc k) p h le = elim (worker-Goes n k p (p.worker k) h (omega arith) refl) [
    | inr goes ↦ inr goes
    | inl e ↦ elim (workers-Goes n k p h (omega arith)) [
      | inr goes ↦ inr goes
      | inl all ↦ inl (λ i lt. elim (Bool-cases (i == k)) [
        | inl same ↦ rw ((==_iff i k).0 same) e
        | inr other ↦ all i (ground (arith, ==_iff i k))
      ])
    ]
  ]

  -- `stop` returns, where no worker stands between its test of the predicate and its wait when all are
  -- notified. Of the steps that follow, in any order and with whatever is enqueued, at most three for
  -- each worker are the workers' own; and as long as not all workers have left their loop, one of
  -- them can take a step. When all have left, the last part of `stop` can be done, if it is not yet.
  -- A job that runs is taken to end.
  pub shutdown :
      {n : ℕ} {p q : Pool A}
      → Reach n p
      → p.stop_phase ≡ flagged
      → Unlocked n p
      → (r : Steps n (notify_all p) q)
      → (worker_steps r ≤ 3 * n)
        × ((((i : ℕ) → i < n → q.worker i ≡ exited)
              × ((q.stop_phase ≡ stopped) ⊎ Step n q (discard q)))
            ⊎ Goes n q)
  unfolding notify_all
  shutdown {n} {p} {q} reach phase free r =
      let v = Reach-Inv reach in
      let (h, used) = Steps-Leaving r (record {
        flag = flag_set v;
        phase = inl refl;
        undecided = λ i lt e. free i lt (woken-deciding (p.worker i) e);
        awake = λ i lt. woken-blocked (p.worker i);
      }) in
      (
        omega (arith, all_left-bound n (λ i. woken (p.worker i))),
        elim (workers-Goes n n q h (omega arith)) [
          | inr goes ↦ inr goes
          | inl all ↦ inl (all, elim h.phase [ inl j ↦ inr (empty_queue j all) | inr s ↦ inl s ])
        ],
      )
    where
      flag_set : Inv n p → p.stop_flag ≡ true
      flag_set v = elim (Bool-cases p.stop_flag) [ inl e ↦ e | inr e ↦ cc (v.flag e) ]

      woken-deciding : (w : Worker A) → woken w ≡ deciding → w ≡ deciding
      woken-deciding deciding e = refl
      woken-deciding blocked e = cc
      woken-deciding starting e = cc
      woken-deciding ready e = cc
      woken-deciding (busy task) e = cc
      woken-deciding exited e = cc

      woken-blocked : (w : Worker A) → woken w ≢ blocked
      woken-blocked deciding e = cc
      woken-blocked blocked e = cc
      woken-blocked starting e = cc
      woken-blocked ready e = cc
      woken-blocked (busy task) e = cc
      woken-blocked exited e = cc
