-- ===== src/Scheduler.antt =====
-- include/TaskScheduler.h and src/TaskScheduler.cpp: the scheduler.
--
-- `State` holds the object and the monad of its methods, `Client` the methods that a program calls,
-- `Execute` what a worker thread does with a task, `Loop` the scheduler's own thread.
pub mod State
pub mod Client
pub mod Execute
pub mod Loop
pub mod Callbacks
pub mod WellFormed
pub mod System
pub mod Frames
pub mod Invariant
pub mod Outcomes
pub mod Scheduling
pub mod Cancelling
pub mod Dispatching
pub mod Threads
pub mod Whole
pub mod Accounting
pub mod Wakeup
pub mod Stopping
pub mod Ordering
pub mod Tracking
pub mod Throwing
pub mod Races
mod Examples
