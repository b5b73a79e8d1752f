-- ===== src/Scheduler/Ordering/Lists.antt =====
-- What keeps a list of tasks in order.
use task_sched_x.Prelude.{ℕ, ◌≡◌, refl, ap, List, [], ◌∷◌, ◌++◌}
use task_sched_x.Task.{Objects}
use task_sched_x.TaskQueue.{pq_push}
use task_sched_x.TaskQueue.Order.{IsSorted, First, First-pq_push, pq_push-IsSorted}

module _ (o : Objects) where
  First-suffix : (x : ℕ) (as' bs : List ℕ) → First o x (as' ++ bs) → First o x bs
  First-suffix x [] bs f = f
  First-suffix x (a ∷ as') bs f = First-suffix x as' bs f.1

  IsSorted-suffix : (as' bs : List ℕ) → IsSorted o (as' ++ bs) → IsSorted o bs
  IsSorted-suffix [] bs s = s
  IsSorted-suffix (a ∷ as') bs s = IsSorted-suffix as' bs s.1

  -- A part of the list is left out.
  First-drop : (x : ℕ) (as' bs cs : List ℕ) → First o x (as' ++ (bs ++ cs)) → First o x (as' ++ cs)
  First-drop x [] bs cs f = First-suffix x bs cs f
  First-drop x (a ∷ as') bs cs f = (f.0, First-drop x as' bs cs f.1)

  pub IsSorted-drop : (as' bs cs : List ℕ) → IsSorted o (as' ++ (bs ++ cs)) → IsSorted o (as' ++ cs)
  IsSorted-drop [] bs cs s = IsSorted-suffix bs cs s
  IsSorted-drop (a ∷ as') bs cs s = (First-drop a as' bs cs s.0, IsSorted-drop as' bs cs s.1)

  First-prefix : (x : ℕ) (as' bs : List ℕ) → First o x (as' ++ bs) → First o x as'
  First-prefix x [] bs f = tt
  First-prefix x (a ∷ as') bs f = (f.0, First-prefix x as' bs f.1)

  pub IsSorted-prefix : (as' bs : List ℕ) → IsSorted o (as' ++ bs) → IsSorted o as'
  IsSorted-prefix [] bs s = tt
  IsSorted-prefix (a ∷ as') bs s = (First-prefix a as' bs s.0, IsSorted-prefix as' bs s.1)

  -- The first task of the queue is put back.
  First-again :
      (x : ℕ) (as' : List ℕ) (r : ℕ) (rest : List ℕ)
      → First o x (as' ++ r ∷ rest)
      → First o x (as' ++ pq_push o r rest)
  First-again x [] r rest f = First-pq_push o x r rest f.0 f.1
  First-again x (a ∷ as') r rest f = (f.0, First-again x as' r rest f.1)

  pub IsSorted-again :
      (as' : List ℕ) (r : ℕ) (rest : List ℕ)
      → IsSorted o (as' ++ r ∷ rest)
      → IsSorted o (as' ++ pq_push o r rest)
  IsSorted-again [] r rest s = pq_push-IsSorted o r rest s.1
  IsSorted-again (a ∷ as') r rest s = (First-again a as' r rest s.0, IsSorted-again as' r rest s.1)

-- A task on its way from the queue to a worker stands at one place of the line.
pub line_held :
    (as' bs : List ℕ) (r : ℕ) (cs : List ℕ) → as' ++ ((bs ++ r ∷ []) ++ cs) ≡ as' ++ (bs ++ r ∷ cs)
line_held [] [] r cs = refl
line_held [] (b ∷ bs) r cs = ap (λ (l : List ℕ). b ∷ l) (line_held [] bs r cs)
line_held (a ∷ as') bs r cs = ap (λ (l : List ℕ). a ∷ l) (line_held as' bs r cs)
