-- ===== src/TaskQueue/Urgent.antt =====
-- What the queue serves: `pop` after any use of it, against the tasks that it holds by its calls.
use task_sched_x.Prelude.{
  ℕ, ◌+◌, ◌-◌, ◌<◌, ◌≡◌, ◌⊎◌, refl, ◌∙◌, inl, inr, false, Option, none, some, List, [], ◌∷◌, Bytes,
  str_eq, count, if◌then◌else◌, ◌==◌, arith, ap, subst, sym, Bool-cases, Option-cases,
}
use task_sched_x.Prelude.Int.{◌<ℤ◌, ◌≤ℤ◌, eq_of_parts}
use task_sched_x.Task.{Task, Objects, runs_after}
use task_sched_x.Task.Order.{runs_after-StrictWeakOrder}
use task_sched_x.TaskQueue.{
  TaskQueue, empty_queue, push, pop, clear, clear_list, cancel_task, priority_cmp,
}
use task_sched_x.TaskQueue.Order.{IsSorted, First, pq_push-IsSorted, count-pq_push}
use task_sched_x.TaskQueue.Cancel.{
  cancel_task_lem, without, mark-SameKeys, IsSorted-without, IsSorted-SameKeys,
}

-- `a` is to be served no later than `b`: its priority number is less, or it is the same and `a` starts
-- no later.
abbrev pub NoLater : Task → Task → Type 0
NoLater a b =
    (a.priority <ℤ b.priority) ⊎ ((a.priority ≡ b.priority) × (a.start_time ≤ℤ b.start_time))

-- Tasks of one priority and one start time.
abbrev pub SameKey : Task → Task → Type 0
SameKey a b = (b.priority ≡ a.priority) × (b.start_time ≡ a.start_time)

-- The uses of a queue, with the objects and how often each task is held after them.
pub data Use : Objects → (ℕ → ℕ) → TaskQueue → Type 0 where
  new : (o : Objects) → Use o (λ x. 0) empty_queue
  pushed :
      {o : Objects} {held : ℕ → ℕ} {q : TaskQueue} (r : ℕ)
      → Use o held q
      → Use o (λ x. (if r == x then 1 else 0) + held x) (push o r q)
  popped :
      {o : Objects} {held : ℕ → ℕ} {q : TaskQueue} (r : ℕ) (rest : TaskQueue)
      → Use o held q
      → pop q ≡ some (r, rest)
      → Use o (λ x. held x - (if r == x then 1 else 0)) rest
  cancelled :
      {o : Objects} {held : ℕ → ℕ} {q : TaskQueue} (id : Bytes)
      → Use o held q
      → Use
          (cancel_task id o q).0
          (λ x. if str_eq (o x).task_id id then 0 else held x)
          (cancel_task id o q).1
  cleared : {o : Objects} {held : ℕ → ℕ} {q : TaskQueue} → Use o held q → Use o (λ x. 0) (clear q)
  -- the other parts change objects; of a task that is held, neither priority nor start time
  elsewhere :
      {o : Objects} {held : ℕ → ℕ} {q : TaskQueue} (o' : Objects)
      → Use o held q
      → ((x : ℕ) → 0 < held x → SameKey (o x) (o' x))
      → Use o' held q

-- `pop` takes a task that is held and that no other is to be served before; it fails only when no
-- task is held.
abbrev pub Served : Objects → (ℕ → ℕ) → Option (ℕ × TaskQueue) → Type 0
Served o held none = (x : ℕ) → held x ≡ 0
Served o held (some (r, rest)) = (0 < held r) × ((x : ℕ) → 0 < held x → NoLater (o r) (o x))

runs_after-NoLater : (a b : Task) → runs_after a b ≡ false → NoLater a b
unfolding runs_after
runs_after-NoLater a b h = ground (arith, eq_of_parts a.priority b.priority)

-- The list is in order and holds each task as often as told.
Holds : Objects → (ℕ → ℕ) → List ℕ → Type 0
Holds o held xs = IsSorted o xs × ((x : ℕ) → count x xs ≡ held x)

count-without :
    (id : Bytes) (o : Objects) (x : ℕ) (xs : List ℕ)
    → count x (without id o xs) ≡ (if str_eq (o x).task_id id then 0 else count x xs)
count-without id o x [] = ground arith
count-without id o x (y ∷ ys) =
    let alike : y ≡ x → (o y).task_id ≡ (o x).task_id = λ e. ap (λ n. (o n).task_id) e in
    ground (arith, alike, count-without id o x ys)

First-keys :
    (o o' : Objects) (r : ℕ) (xs : List ℕ)
    → ((x : ℕ) → 0 < count x (r ∷ xs) → SameKey (o x) (o' x))
    → First o r xs
    → First o' r xs
unfolding priority_cmp runs_after
First-keys o o' r [] same f = tt
First-keys o o' r (x ∷ xs) same f =
    let (p, t) = same r (ground arith) in
    let (p', t') = same x (ground arith) in
    (rw (p, t, p', t') f.0, First-keys o o' r xs (λ y h. same y (ground arith)) f.1)

IsSorted-keys :
    (o o' : Objects) (xs : List ℕ)
    → ((x : ℕ) → 0 < count x xs → SameKey (o x) (o' x))
    → IsSorted o xs
    → IsSorted o' xs
IsSorted-keys o o' [] same s = tt
IsSorted-keys o o' (x ∷ xs) same s =
    (First-keys o o' x xs same s.0, IsSorted-keys o o' xs (λ y h. same y (ground arith)) s.1)

pub pop_split :
    (q : TaskQueue) (r : ℕ) (rest : TaskQueue) → pop q ≡ some (r, rest) → q.pq ≡ r ∷ rest.pq
unfolding pop
pop_split q r rest e = ground arith

pop_empty : (q : TaskQueue) → pop q ≡ none → q.pq ≡ []
unfolding pop
pop_empty q e = ground arith

clear_list_lem : (ts : List ℕ) → clear_list ts ≡ []
unfolding clear_list
clear_list_lem [] = refl
clear_list_lem (t ∷ ts) = clear_list_lem ts

Use-Holds : {o : Objects} {held : ℕ → ℕ} {q : TaskQueue} → Use o held q → Holds o held q.pq
unfolding Holds push pop clear
Use-Holds (new o) = (tt, λ x. refl)
Use-Holds (pushed {o} {held} {q} r u) =
    let (sorted, counted) = Use-Holds u in
    (pq_push-IsSorted o r q.pq sorted, λ x. rw (count-pq_push o r x q.pq, counted x) refl)
Use-Holds (popped {o} {held} {q} r rest u e) =
    let (sorted, counted) = Use-Holds u in
    let split = pop_split q r rest e in
    (
      (subst (IsSorted o) split sorted).1,
      λ x. let c = ap (count x) split in ground (arith, c, counted x),
    )
Use-Holds (cancelled {o} {held} {q} id u) =
    let (sorted, counted) = Use-Holds u in
    rw (cancel_task_lem id o q sorted) (
      IsSorted-SameKeys o _ (without id o q.pq) (mark-SameKeys id o q.pq)
          (IsSorted-without id o q.pq sorted),
      λ x. rw (count-without id o x q.pq, counted x) refl,
    )
Use-Holds (cleared {o} {held} {q} u) = rw (clear_list_lem q.pq) (tt, λ x. refl)
Use-Holds (elsewhere {o} {held} {q} o' u same) =
    let (sorted, counted) = Use-Holds u in
    (IsSorted-keys o o' q.pq (λ x h. same x (omega (arith, h, counted x))) sorted, counted)

First-NoLater :
    (o : Objects) (r x : ℕ) (xs : List ℕ) → First o r xs → 0 < count x xs → NoLater (o r) (o x)
unfolding priority_cmp
First-NoLater o r x [] f h = absurd (omega arith)
First-NoLater o r x (y ∷ ys) f h = elim (Bool-cases (y == x)) [
  | inl e ↦
      let same : y ≡ x = ground arith in
      subst (λ z. NoLater (o r) (o z)) same (runs_after-NoLater (o r) (o y) f.0)
  | inr e ↦ First-NoLater o r x ys f.1 (ground arith)
]

IsSorted-NoLater :
    (o : Objects) (r x : ℕ) (xs : List ℕ)
    → IsSorted o (r ∷ xs)
    → 0 < count x (r ∷ xs)
    → NoLater (o r) (o x)
unfolding priority_cmp
IsSorted-NoLater o r x xs s h =
    First-NoLater o r x (r ∷ xs) ((runs_after-StrictWeakOrder (o r) (o r) (o r)).irreflexive, s.0) h

-- After any pushes, pops, cancellations and clears of a queue that was empty, while no task that it
-- holds changes its priority or start time, `pop` gives a task that was pushed and not taken, cancelled
-- or cleared away since, and such that none of these has a smaller priority number, nor the same and an
-- earlier start time. It fails only when there is none of these.
pub pop-Served : {o : Objects} {held : ℕ → ℕ} {q : TaskQueue} → Use o held q → Served o held (pop q)
unfolding Holds
pop-Served {o} {held} {q} u = elim (Option-cases (pop q)) [
  | inl e ↦
      let (sorted, counted) = Use-Holds u in
      let empty = pop_empty q e in rw e (λ x. sym (counted x) ∙ ap (count x) empty)
  | inr ((r, rest), e) ↦
      let (sorted, counted) = Use-Holds u in
      let split = pop_split q r rest e in
      let occurs : (x : ℕ) → count x (r ∷ rest.pq) ≡ held x =
        λ x. sym (ap (count x) split) ∙ counted x in
      rw e (
        (let here : 0 < count r (r ∷ rest.pq) = ground arith in omega (arith, occurs r, here)),
        λ x h.
            IsSorted-NoLater o r x rest.pq (subst (IsSorted o) split sorted)
              (omega (arith, occurs x, h)),
      )
]
