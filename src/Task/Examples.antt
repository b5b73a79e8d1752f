-- ===== src/Task/Examples.antt =====
-- Tests of the task, and its theorems at concrete inputs.
use task_sched_x.Prelude.{◌≡◌, ◌≢◌, refl, codes, arith, none, true, [], ◌≤◌, ◌<◌, length}
use task_sched_x.Prelude.Int.{pos, negsuc, ◌+ℤ◌, scale}
use task_sched_x.Decimal.{decimal, zero_pad}
use task_sched_x.Task.{format_id, generate_task_id, Task, pending, runs_after, reschedule}
use task_sched_x.Task.Id.{counter_after, generate_task_id_distinct, length-format_id}
use task_sched_x.Task.Order.{StrictWeakOrder, runs_after-StrictWeakOrder}

format_id_42 : format_id 42 ≡ codes "task_000042"
unfolding format_id decimal zero_pad
format_id_42 = refl

format_id_wide : format_id 1234567 ≡ codes "task_1234567"
unfolding format_id decimal zero_pad
format_id_wide = refl

abbrev urgent : Task
urgent = record {
  task_fn = none;
  start_time = pos 7;
  priority = negsuc 0;
  status = pending;
  is_repeatable = true;
  repeat_every = pos 2;
  timeout = pos 60;
  task_id = [];
}

abbrev lazy : Task
lazy = record urgent { priority = pos 5; start_time = pos 1 }

lazy-runs_after-urgent : runs_after lazy urgent ≡ true
unfolding runs_after
lazy-runs_after-urgent = refl

reschedule-urgent : (reschedule (pos 100) urgent).start_time ≡ pos 2_000_000_100
unfolding reschedule ◌+ℤ◌ scale
reschedule-urgent = refl

generate_task_id_distinct_example :
    (generate_task_id (counter_after 1 0)).0 ≢ (generate_task_id (counter_after 1 5)).0
generate_task_id_distinct_example =
    generate_task_id_distinct 1 0 5 (omega arith) (omega arith) (omega arith)

runs_after-StrictWeakOrder_example : StrictWeakOrder lazy urgent lazy
runs_after-StrictWeakOrder_example = runs_after-StrictWeakOrder lazy urgent lazy

length-format_id_example :
    (11 ≤ length (format_id 42)) × (42 < 1_000_000 → length (format_id 42) ≡ 11)
length-format_id_example = length-format_id 42
