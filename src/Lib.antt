-- ===== src/Lib.antt =====
-- TaskSchedX: a task scheduler with priorities, start times, timeouts and repeated tasks.
--
-- A program makes a `TaskScheduler`, schedules tasks, cancels them and asks for their status. The
-- scheduler owns a queue of tasks in the order of priority and start time, a thread of its own that
-- takes due tasks from the queue, and a pool of worker threads that execute them, mark how they ended,
-- count it, call the completion callback, and queue repeated tasks again. All parts write to one
-- logger.
--
-- The files, and the code that they model:
--   Prelude, Decimal    lists, maps with keys, texts as lists of bytes, machine integers, and
--                       numbers as streams print them
--   Task                include/Task.h, src/Task.cpp: `Task`, a function for each constructor, assignment
--                       and method. Task/Order is about `operator>`, Task/Id about `generateTaskId`
--   TaskQueue           include/TaskQueue.h, src/TaskQueue.cpp: `push`, `pop`, `isEmpty`, `size`,
--                       `cancelTask`, `clear`. Lemmas in TaskQueue/Order and TaskQueue/Cancel;
--                       TaskQueue/Urgent what any use of a queue gives
--   ThreadPool          include/ThreadPool.h, src/ThreadPool.cpp: the state of a pool; ThreadPool/Steps has
--                       one step for each atomic action of a worker, of `enqueueTask` and of `stop`, and
--                       ThreadPool/Jobs the jobs as a client of the pool sees them
--   Logger              include/Logger.h, src/Logger.cpp: levels, filter, line and timestamp
--   Scheduler/State     include/TaskScheduler.h: the fields of `TaskScheduler`; `updateStatistics`,
--                       `notifyTaskCompletion` and the constructor of src/TaskScheduler.cpp
--   Scheduler/Client    the public methods: `scheduleTask`, `cancelTask`, `getTaskStatus`, `start`, `stop`
--                       (its first part), the setters, `getStatistics`
--   Scheduler/Execute   `runTaskWithTimeout`, `finalizeCompletedTask`, `executeAndFinalizeTask`
--   Scheduler/Loop      `runSchedulerLoop`, cut where it releases its locks
--   Scheduler/System    the actions of all threads as one step relation, a method at a time
--   Scheduler/Threads   the methods as programs of atomic actions; Threads/Steps has the threads that
--                       run them, in any order. Threads/Neutral says what an action may change,
--                       Threads/Lost what a crossing of `cancelTask` and `scheduleTask` does
--   Scheduler/Wakeup    `workAvailable_cv`: who waits for it, and who notifies it
--   Scheduler/Accounting  the statistics against the calls of the callback
--   Scheduler/Whole     the scheduler's threads together with the pool of ThreadPool
--   Scheduler/Ordering  the order in which the workers take what was queued
--   Programs            examples/: what a program asks of its scheduler and of the machine, as a tree of
--                       commands; Programs/BasicUsage and so on are the `main` of the example of that
--                       name. Programs/Prepare runs a program up to the start of its scheduler,
--                       Programs/Started are its threads from there on, Programs/Asked its commands
--                       for any answers. Programs/Lifecycle is the order of the calls
--   The other files of Scheduler hold the invariant (WellFormed, Invariant), the description of what an
--   execution does (Outcomes, Frames), the lemmas on lost tasks (Tracking), and what the methods do in a
--   state (Scheduling, Cancelling, Dispatching, Races, Throwing, Stopping).
--
-- How the code is read. Objects live at addresses, and `std::shared_ptr<Task>` is an address. The
-- clocks are arguments: a reading is a number of nanoseconds. What a task's function does (it returns or
-- throws, after some time) and what the callback does (it returns or throws) are parameters and may
-- differ from call to call; what they do to the scheduler itself, by calling its methods, is the
-- caller's own sequence of steps. Exceptions are values. `std::unordered_map` is a list of pairs with
-- one pair for a key. `size_t` counters wrap at 2 ^ 64; `int` and the clocks' counters, whose
-- overflow is undefined, are integers without bound. `std::priority_queue` is a list in the order in
-- which it gives its elements up. One loop has a bound on its rounds, that of
-- examples/PerformanceBenchmark that waits for its tasks; Programs/Waiting has how large it must be. No
-- other loop runs on a bound that could be too small: the code's loops over queues are recursion on the
-- list, those of threads are sequences of steps, and the digits of a number n are computed with n + 1 as
-- fuel, each step dividing by ten.
--
-- One step of Scheduler/System is one method of a client, one execution of a task by a worker, or one
-- part of the scheduler's loop. In Scheduler/Threads the methods and the execution are programs of
-- atomic actions: what is done under one lock, one access of an atomic field, or one call of the
-- callback. There any number of threads interleave between any two actions (Threads/Steps), and
-- Threads/Alone compares the programs with the methods of Client and Execute. The pool is seen in both
-- through its jobs: those that wait and those that run; Scheduler/Whole puts the pool itself in
-- their place. Two things make one action though they are two accesses: the new object, its identifier
-- and its registration in `scheduleTask`, since no other thread sees the object before; and the fields
-- that a reschedule sets, which only its thread uses.
--
-- A wait on a condition variable is, in System and Threads, a step that is possible when its predicate
-- holds. Scheduler/Wakeup and ThreadPool/Wakeup look at the notifications themselves; the wait for a
-- start time is left out there, since it ends at that time in any case.
--
-- Not modelled: spurious wake-ups, the memory order of atomics, the text that `getCurrentThreadName`
-- gets from the system (a parameter), thread creation that fails, and the tests under tests/. Of the
-- example programs: the text of numbers with fractions and the time that a lambda takes beyond its
-- naps (parameters), and the order in which the output of the threads is mixed.
pub mod Prelude
pub mod Decimal
pub mod Logger
pub mod Task
pub mod Scheduler
pub mod TaskQueue
pub mod Programs
pub mod ThreadPool
