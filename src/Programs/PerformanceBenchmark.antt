-- ===== src/Programs/PerformanceBenchmark.antt =====
-- examples/PerformanceBenchmark/PerformanceBenchmark.cpp: how fast many equal tasks are run.
--
-- The loop that waits for the last task has a bound on its rounds, `fuel`, since nothing in the
-- program bounds them; `Programs/Waiting` has how many are enough. Counter 0 is the run's `completed`.
-- The sums of the lambdas are computed for the time that it takes, and left out.
use task_sched_x.Prelude.{
  ℕ, zero, suc, ◌-◌, ◌/◌, false, ltb, if◌then◌else◌, List, [], ◌∷◌, ◌++◌, Bytes, codes,
}
use task_sched_x.Prelude.Int.{pos}
use task_sched_x.Decimal.{decimal}
use task_sched_x.Programs.{
  Deed, naps, counts, computes, Runtime, sleeps, reads_clock, reads_steady_clock, reads_counter,
  constructs, enables_console, schedules, reads_statistics, starts, stops, destroys, calls, spent,
  Main, ◌>>=◌, ◌>>◌, pure, call,
}
use task_sched_x.Programs.Deeds.{task}
use task_sched_x.Programs.Calls.{
  ◌<<◌, endl, cout, new_config, official_statistics, get_cpu_time_ms, up_from, for_each,
}

-- `while (completed.load() < numTasks)` with its nap of ten milliseconds.
unfoldable pub await_completed : ℕ → ℕ → Main (Unit {0})
await_completed zero num_tasks k = spent
await_completed (suc fuel) num_tasks k = calls (reads_counter 0) λ completed.
    if ltb completed num_tasks
    then calls (sleeps 10) (λ _. await_completed fuel num_tasks k)
    else k tt

abbrev pub io_task : List Deed
io_task = naps 10 ∷ []

abbrev pub cpu_task : List Deed
cpu_task = computes 50_000_000 ∷ []

abbrev pub mixed_task : List Deed
mixed_task = computes 50_000 ∷ naps 5 ∷ []

module _ (rt : Runtime) where
  -- One round of the loop that makes the tasks; each counts itself when its body is done.
  unfoldable pub schedule_one : List Deed → ℕ → Main (Unit {0})
  schedule_one task_body i = do
    task_config ← new_config
    now ← call reads_clock
    _ ← call (
        schedules (record task_config {
          task_fn = task rt (task_body ++ counts 0 ∷ []);
          start_time = now;
          priority = pos 1;
          is_repeatable = false;
        }))
    pure tt

module _ (rt : Runtime) (fuel : ℕ) where
  -- `Benchmark::run`
  unfoldable pub run : Bytes → ℕ → ℕ → List Deed → Main (Unit {0})
  unfolding schedule_one await_completed
  run label threads num_tasks task_body = do
    cout (
        codes "\n🔧 Running ["
        << label
        << codes "] with "
        << decimal threads
        << codes " thread(s) and "
        << decimal num_tasks
        << codes " tasks..."
        << endl)
    call (constructs threads)
    cout (codes "✅ TaskScheduler created successfully" << endl)
    call (enables_console false)
    start_at ← call reads_steady_clock
    cpu_start ← get_cpu_time_ms
    for_each (up_from 0 num_tasks) (schedule_one rt task_body)
    call starts
    await_completed fuel num_tasks
    call stops
    end_at ← call reads_steady_clock
    cpu_end ← get_cpu_time_ms
    let wall_time = (end_at - start_at) / 1_000_000
    let cpu_used = cpu_end - cpu_start
    final_stats ← call reads_statistics
    official_statistics final_stats
    completed ← call (reads_counter 0)
    cout (
        codes "\nTotalnumTasks = "
        << decimal num_tasks
        << codes " | ✅ Completed: "
        << decimal completed
        << codes " | 🕒 Wall Time: "
        << decimal wall_time
        << codes " ms"
        << codes " | 🧠 CPU Time: "
        << decimal cpu_used
        << codes " ms"
        << codes " | ⚡ Throughput: "
        << rt.throughput num_tasks wall_time
        << codes " tasks/sec"
        << endl)
    call destroys

  unfoldable pub run_each : Bytes → List Deed → Main (Unit {0})
  run_each label task_body =
      for_each (1 ∷ 2 ∷ 4 ∷ 8 ∷ []) λ threads. run label threads 100 task_body

  unfoldable pub main : Main (Unit {0})
  unfolding run_each
  main = do
    cout (codes "=== Performance Benchmark ===" << endl)
    cout (
        codes
          "This example demonstrates how to measure and analyze the performance of the TaskScheduler:"
        << endl)
    cout (codes "1. Benchmark execution speed with varying thread pool sizes" << endl)
    cout (codes "2. Evaluate different workload types: CPU-bound, I/O-bound, and mixed" << endl)
    cout (codes "3. Measure task throughput, CPU utilization, and execution time" << endl)
    cout (codes "\n🔥 === CPU-BOUND TASKS === 🔥\n")
    run_each (codes "CPU-Bound") cpu_task
    cout (codes "\n💾 === I/O-BOUND TASKS === 💾\n")
    run_each (codes "I/O-Bound") io_task
    cout (codes "\n🔥+💾 === MIXED CPU + I/O TASKS === 💾+🔥\n")
    run_each (codes "Mixed Workload") mixed_task
