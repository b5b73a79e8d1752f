-- ===== src/ThreadPool/Jobs.antt =====
-- The pool as its clients see it: jobs that wait, and for each worker the job that it runs. The actions
-- of the threads refine this view.
use mathlib.Core.Path.{fun_ext}
use task_sched_x.Prelude.{
  ℕ, ◌<◌, ◌≡◌, refl, sym, ap, ap, subst, Bool, true, false, Option, none, some, List, [], ◌∷◌, ◌++◌,
  arith, update, Bool-cases, inl, inr,
}
use task_sched_x.ThreadPool.{
  Pool, Worker, starting, ready, deciding, blocked, busy, exited, joining, enqueue_task, take_job,
  notify_all, discard, woken,
}
use task_sched_x.ThreadPool.Steps.{
  Step, Reach, start, take, leave, decide, block, finish, finish_throwing, enqueue, notify,
  notify_nobody, set_flag, wake_all, empty_queue,
}
use task_sched_x.ThreadPool.Invariant.{Inv, Reach-Inv}

pub record Jobs {ℓ} (A : Type ℓ) : Type ℓ where
  pub waiting : List A
  pub running : ℕ → Option A
  pub halted : Bool

module _ {ℓ} {A : Type ℓ} where
  -- The job that a worker runs.
  abbrev pub job_of : Worker A → Option A
  job_of (busy task) = some task
  job_of w = none

  abbrev pub view : Pool A → Jobs A
  view p = record {
    waiting = p.task_queue;
    running = λ i. job_of (p.worker i);
    halted = p.stop_flag;
  }

  -- What may happen to the jobs of a pool of `n` workers.
  pub data Action (n : ℕ) (j : Jobs A) : Jobs A → Type ℓ where
    nothing : Action n j j
    submit : (task : A) → Action n j (record j { waiting = j.waiting ++ task ∷ [] })
    begin :
        (i : ℕ) (task : A) (rest : List A)
        → i < n
        → j.halted ≡ false
        → j.waiting ≡ task ∷ rest
        → j.running i ≡ none
        → Action n j (record j { waiting = rest; running = update j.running i (some task) })
    end :
        (i : ℕ) (task : A)
        → i < n
        → j.running i ≡ some task
        → Action n j (record j { running = update j.running i none })
    halt : Action n j (record j { halted = true })
    drop :
        j.halted ≡ true
        → ((i : ℕ) → i < n → j.running i ≡ none)
        → Action n j (record j { waiting = [] })

  equal_jobs :
      {j k : Jobs A} → j.waiting ≡ k.waiting → j.running ≡ k.running → j.halted ≡ k.halted → j ≡ k
  equal_jobs w r h = cc (w, r, h)

  -- An action that leads to the same view.
  reaches :
      {n : ℕ} {j k : Jobs A} (l : Jobs A)
      → Action n j k
      → k.waiting ≡ l.waiting
      → ((i : ℕ) → k.running i ≡ l.running i)
      → k.halted ≡ l.halted
      → Action n j l
  reaches {n} {j} {k} l a w r h = subst (Action n j) (equal_jobs w (fun_ext r) h) a

  -- A worker moves, without a change of job.
  moves :
      {n : ℕ} (p q : Pool A) (i : ℕ) (w : Worker A)
      → job_of w ≡ none
      → job_of (p.worker i) ≡ none
      → q.worker ≡ update p.worker i w
      → q.task_queue ≡ p.task_queue
      → q.stop_flag ≡ p.stop_flag
      → Action n (view p) (view q)
  moves p q i w idle was e same flag =
      reaches (view q) nothing (sym same) (λ k. rw e (ground (arith, idle, was))) (sym flag)

  -- A worker is done with its job.
  ends :
      {n : ℕ} (p q : Pool A) (i : ℕ) (task : A)
      → i < n
      → p.worker i ≡ busy task
      → q.worker ≡ update p.worker i ready
      → q.task_queue ≡ p.task_queue
      → q.stop_flag ≡ p.stop_flag
      → Action n (view p) (view q)
  ends p q i task lt was e same flag =
      reaches (view q) (end i task lt (ap job_of was)) (sym same) (λ k. rw e (ground arith))
        (sym flag)

  woken_job : (w : Worker A) → job_of (woken w) ≡ job_of w
  woken_job starting = refl
  woken_job ready = refl
  woken_job deciding = refl
  woken_job blocked = refl
  woken_job (busy task) = refl
  woken_job exited = refl

  joining_flag : {n : ℕ} {p : Pool A} → Inv n p → p.stop_phase ≡ joining → p.stop_flag ≡ true
  joining_flag {p} v e = elim (Bool-cases p.stop_flag) [
    | inl on ↦ on
    | inr off ↦ cc (v.flag off, e)
  ]

  -- Every atomic action of a thread, in a state that a pool of `n` workers can reach, is one action on the
  -- jobs as the pool's clients see them, or none: a job is added behind the others, the first job goes
  -- to an idle worker unless the pool was halted, a worker is done with its job, the pool is halted,
  -- or, halted and with no job running, it drops the jobs that wait.
  pub Step-Action : {n : ℕ} {p q : Pool A} → Reach n p → Step n p q → Action n (view p) (view q)
  unfolding enqueue_task take_job notify_all discard
  Step-Action {p} {q} r (start i lt e) = moves p q i ready refl (ap job_of e) refl refl refl
  Step-Action {p} {q} r (take i task rest lt e free l run) =
      reaches (view q) (begin i task rest lt run l (ap job_of e)) refl (λ k. ground arith) refl
  Step-Action {p} {q} r (leave i lt e free run) =
      moves p q i exited refl (ap job_of e) refl refl refl
  Step-Action {p} {q} r (decide i lt e free l run) =
      moves p q i deciding refl (ap job_of e) refl refl refl
  Step-Action {p} {q} r (block i lt e) = moves p q i blocked refl (ap job_of e) refl refl refl
  Step-Action {p} {q} r (finish i task lt e) = ends p q i task lt e refl refl refl
  Step-Action {p} {q} r (finish_throwing i task x lt e) = ends p q i task lt e refl refl refl
  Step-Action {p} {q} r (enqueue task free) = submit task
  Step-Action {p} {q} r (notify i k lt o e) = moves p q i ready refl (ap job_of e) refl refl refl
  Step-Action {p} {q} r (notify_nobody k o all) = nothing
  Step-Action {p} {q} r (set_flag phase) = halt
  Step-Action {p} {q} r (wake_all phase) =
      reaches (view q) nothing refl (λ k. sym (woken_job (p.worker k))) refl
  Step-Action {p} {q} r (empty_queue phase left) =
      drop (joining_flag (Reach-Inv r) phase) (λ i lt. ap job_of (left i lt))
