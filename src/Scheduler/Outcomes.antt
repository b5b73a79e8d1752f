-- ===== src/Scheduler/Outcomes.antt =====
-- How an execution of a task ends: what `executeAndFinalizeTask` leaves, for each way in which the call
-- of the task's function can end.
pub mod Defs
pub mod Runs
pub mod Branches
pub mod Theorem
