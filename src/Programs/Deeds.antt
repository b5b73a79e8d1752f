-- ===== src/Programs/Deeds.antt =====
-- The lambdas of the example programs: what a call of one does, and how the scheduler sees it.
use task_sched_x.Prelude.{ℕ, ◌+◌, ◌*◌, Option, none, some, List, [], ◌∷◌, ◌++◌, Bytes, update}
use task_sched_x.Decimal.{decimal}
use task_sched_x.Task.{Exception, std_exception, TaskFn}
use task_sched_x.Programs.{Deed, says, naps, raises, counts, counts_aloud, computes, Runtime}

-- The milliseconds that the deeds sleep, up to an exception.
unfoldable pub nap_time : List Deed → ℕ
nap_time [] = 0
nap_time (naps n ∷ ds) = n + nap_time ds
nap_time (raises text ∷ ds) = 0
nap_time (says text ∷ ds) = nap_time ds
nap_time (counts i ∷ ds) = nap_time ds
nap_time (counts_aloud i before after ∷ ds) = nap_time ds
nap_time (computes n ∷ ds) = nap_time ds

-- The exception that ends them early.
unfoldable pub raised : List Deed → Option Exception
raised [] = none
raised (raises text ∷ ds) = some (std_exception text)
raised (naps n ∷ ds) = raised ds
raised (says text ∷ ds) = raised ds
raised (counts i ∷ ds) = raised ds
raised (counts_aloud i before after ∷ ds) = raised ds
raised (computes n ∷ ds) = raised ds

-- What a call prints, and the counters after it.
unfoldable pub uttered : List Deed → (ℕ → ℕ) → Bytes × (ℕ → ℕ)
uttered [] counters = ([], counters)
uttered (says text ∷ ds) counters =
    let (more, counters') = uttered ds counters in (text ++ more, counters')
uttered (counts i ∷ ds) counters = uttered ds (update counters i (counters i + 1))
uttered (counts_aloud i before after ∷ ds) counters =
    let (more, counters') = uttered ds (update counters i (counters i + 1)) in
    (before ++ (decimal (counters i + 1) ++ (after ++ more)), counters')
uttered (raises text ∷ ds) counters = ([], counters)
uttered (naps n ∷ ds) counters = uttered ds counters
uttered (computes n ∷ ds) counters = uttered ds counters

-- The lambda as the scheduler calls it, at a given moment.
unfoldable pub task : Runtime → List Deed → TaskFn
unfolding nap_time raised
task rt ds = some λ moment. record {
  thrown = raised ds;
  elapsed = nap_time ds * 1_000_000 + rt.overhead ds moment;
}

-- A `for` loop over deeds: those of each number in turn.
unfoldable pub each : List ℕ → (ℕ → List Deed) → List Deed
each [] f = []
each (i ∷ is) f = f i ++ each is f
