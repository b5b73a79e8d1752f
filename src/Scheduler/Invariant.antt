-- ===== src/Scheduler/Invariant.antt =====
-- `WellFormed` holds in every reachable state.
pub mod Shrinking
pub mod Schedule
pub mod Cancel
pub mod Loop
pub mod Steps
pub use Steps.{Step-WellFormed, Steps-WellFormed, Reach-WellFormed}
pub use Schedule.{schedule-WellFormed, new_scheduler-WellFormed}
pub use Shrinking.{count-remove, worked}
pub use Loop.{pop_split}
