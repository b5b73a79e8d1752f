-- ===== src/Scheduler/Accounting/Rules.antt =====
-- Rules for methods that keep the counters right.
use task_sched_x.Prelude.{
  ◌≡◌, refl, inl, inr, Bool, true, false, Bytes, put, if◌then◌else◌, Option-cases, length,
}
use task_sched_x.Task.{Status}
use task_sched_x.Scheduler.State.{
  Scheduler, Callback, M, Outcome, returns, throws, continue, modify, log, assign_status,
  erase_active, update_statistics, invoke_callback, notify_task_completion, count_status,
}
use task_sched_x.Scheduler.State
use task_sched_x.Scheduler.Accounting.{Counted, told-Counted}

-- The method keeps the counters right, whether it returns or throws.
pub record Keeps {A : Type 0} (m : M A) : Type 0 where
  pub keeps : (s : Scheduler) → Counted s → Counted (m s).1

-- What the counters are about is not touched.
abbrev pub Unheard : Scheduler → Scheduler → Type 0
Unheard s s' =
    (s'.stats ≡ s.stats)
    × (s'.notified ≡ s.notified)
    × (s'.completion_callback ≡ s.completion_callback)

pub Unheard-Counted : {s s' : Scheduler} → Unheard s s' → Counted s → Counted s'
Unheard-Counted (st, ns, cb) h = record {
  counts = λ status final. rw (st, ns) (h.counts status final);
  heard = rw cb h.heard;
}

pub Unheard-Keeps : {A : Type 0} (m : M A) → ((s : Scheduler) → Unheard s (m s).1) → Keeps m
Unheard-Keeps m h = record { keeps = λ s c. Unheard-Counted (h s) c }

pub pure-Keeps : {A : Type 0} (a : A) → Keeps (State.pure a)
pure-Keeps a = Unheard-Keeps (State.pure a) (λ s. (refl, refl, refl))

pub bind-Keeps :
    {A B : Type 0} (m : M A) (f : A → M B)
    → Keeps m
    → ((a : A) → Keeps (f a))
    → Keeps (State.◌>>=◌ m f)
bind-Keeps {A} m f i j = record { keeps = λ s c. continued (m s) (i.keeps s c) }
  where
    continued : (o : Outcome A × Scheduler) → Counted o.1 → Counted (continue o f).1
    continued (returns a, t) c = (j a).keeps t c
    continued (throws e, t) c = c

pub then-Keeps :
    {B : Type 0} (m : M (Unit {0})) (n : M B) → Keeps m → Keeps n → Keeps (State.◌>>◌ m n)
then-Keeps m n i j = bind-Keeps m (λ _. n) i (λ _. j)

pub branch-Keeps :
    {A : Type 0} (b : Scheduler → Bool) (m n : Scheduler → M A)
    → ((s : Scheduler) → Keeps (m s))
    → ((s : Scheduler) → Keeps (n s))
    → Keeps (λ s. if b s then m s s else n s s)
branch-Keeps b m n i j = record { keeps = λ s c. chosen s (b s) c }
  where
    chosen : (s : Scheduler) (x : Bool) → Counted s → Counted (if x then m s s else n s s).1
    chosen s true c = (i s).keeps s c
    chosen s false c = (j s).keeps s c

-- A status is counted, and then announced; what follows is left out if the callback throws.
pub invoked-Counted :
    (id : Bytes) (status : Status) (s : Scheduler)
    → Counted s
    → Counted (invoke_callback id status (update_statistics status s).1).1
unfolding invoke_callback update_statistics
invoked-Counted id status s c = elim (Option-cases s.completion_callback) [
  | inl e ↦ absurd (c.heard e)
  | inr (callback, e) ↦ elim (Option-cases (callback (length s.notified) id status)) [
    | inl f ↦ rw (e, invoke_callback, f) (told-Counted id status s c)
    | inr (x, f) ↦ rw (e, invoke_callback, f) (told-Counted id status s c)
  ]
]

pub tell_then-Keeps :
    {B : Type 0} (id : Bytes) (status : Status) (n : M B)
    → Keeps n
    → Keeps
        (State.◌>>◌ (update_statistics status) (State.◌>>◌ (notify_task_completion id status) n))
unfolding update_statistics notify_task_completion
tell_then-Keeps id status n i = record {
  keeps = λ s c.
      rest (invoke_callback id status (update_statistics status s).1)
        (invoked-Counted id status s c);
}
  where
    rest :
        (o : Outcome (Unit {0}) × Scheduler)
        → Counted o.1
        → Counted
            (continue
              (continue o
                (λ _. modify λ s. record s { completed_tasks = put id status s.completed_tasks }))
              (λ _. n)).1
    rest (returns a, t) c = i.keeps _ (Unheard-Counted (refl, refl, refl) c)
    rest (throws e, t) c = c
