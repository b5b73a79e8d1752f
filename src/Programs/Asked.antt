-- ===== src/Programs/Asked.antt =====
-- The commands of an example program in their order, for any answers to them.
use task_sched_x.Prelude.{ℕ, zero, suc, ◌+◌, List, [], ◌∷◌, Bytes}
use task_sched_x.Programs.{Command, prints, sleeps, Answer, Script, done, spent, calls}

-- The answers, by the number of commands before.
abbrev pub Oracle : Type 0
Oracle = ℕ → (c : Command) → Answer c

unfoldable pub asked : Oracle → ℕ → Script → List Command
asked o n done = []
asked o n spent = []
asked o n (calls c k) = c ∷ asked o (n + 1) (k (o n c))

-- What is printed, each text with the milliseconds that the program has slept before.
unfoldable pub printed_at : ℕ → List Command → List (ℕ × Bytes)
printed_at slept [] = []
printed_at slept (sleeps ms ∷ cs) = printed_at (slept + ms) cs
printed_at slept (prints text ∷ cs) = (slept, text) ∷ printed_at slept cs
printed_at slept (c ∷ cs) = printed_at slept cs

-- Somewhere the one command is made, and the other at once after it.
pub data Then (c d : Command) : List Command → Type 0 where
  at_once : (cs : List Command) → Then c d (c ∷ d ∷ cs)
  later : (b : Command) (cs : List Command) → Then c d cs → Then c d (b ∷ cs)

abbrev drop_commands : ℕ → List Command → List Command
drop_commands zero cs = cs
drop_commands (suc n) [] = []
drop_commands (suc n) (b ∷ cs) = drop_commands n cs

-- After so many commands.
pub Then-drop :
    (n : ℕ) {c d : Command} (cs : List Command) → Then c d (drop_commands n cs) → Then c d cs
Then-drop zero cs t = t
Then-drop (suc n) [] t = t
Then-drop (suc n) (b ∷ cs) t = later b cs (Then-drop n cs t)
