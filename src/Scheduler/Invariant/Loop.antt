-- ===== src/Scheduler/Invariant/Loop.antt =====
-- The steps of the scheduler's thread keep `WellFormed`.
use task_sched_x.Scheduler.Loop.Cases.{fetch_cases, wake_cases, look_up_cases}
use task_sched_x.Prelude.{ℕ, ◌≡◌, refl, some, [], ◌∷◌, find, arith, count-append}
use task_sched_x.Prelude.Int.{ℤ}
use task_sched_x.Task.{set_status}
use task_sched_x.TaskQueue
use task_sched_x.TaskQueue.{TaskQueue}
pub use task_sched_x.TaskQueue.Urgent.{pop_split}
use task_sched_x.TaskQueue.Order.{IsSorted, pq_push-IsSorted, count-pq_push}
use task_sched_x.TaskQueue.Cancel.{IsSorted-SameKeys}
use task_sched_x.Scheduler.State.{Scheduler, at_head, popped, checked}
use task_sched_x.Scheduler.WellFormed.{WellFormed}
use task_sched_x.Scheduler.Loop.{fetch, wake, look_up, dispatch, leave_loop}
use task_sched_x.Scheduler.Invariant.Shrinking.{Shrinks-WellFormed, Calm, Calm-WellFormed}

leave-Calm : (s : Scheduler) → Calm s (leave_loop s)
unfolding leave_loop
leave-Calm s = (refl, refl, refl, refl, refl, λ x. omega arith)

pub fetch-WellFormed :
    (now : ℤ) (s t : Scheduler)
    → s.loop ≡ at_head
    → fetch now s ≡ some t
    → WellFormed s
    → WellFormed t
unfolding TaskQueue.push
fetch-WellFormed now s t l f v =
    fetch_cases WellFormed now s t f (Calm-WellFormed (leave-Calm s) v) λ r rest pop.
      let e = pop_split s.task_queue r rest pop in
      let sorted : IsSorted s.objects (r ∷ rest.pq) = rw e at v.sorted in
      (
        Shrinks-WellFormed
            (record {
              next_object = refl;
              next_id = refl;
              ids = λ x. refl;
              active = λ j x h. h;
              fewer = λ x. rw (e, l) (omega (arith, count-pq_push s.objects r x rest.pq));
              sorted = pq_push-IsSorted s.objects r rest.pq sorted.1;
            })
            v,
        Shrinks-WellFormed
            (record {
              next_object = refl;
              next_id = refl;
              ids = λ x. refl;
              active = λ j x h. h;
              fewer = λ x. rw (e, l) (omega arith);
              sorted = sorted.1;
            })
            v,
      )

pub wake-WellFormed :
    (now due : ℤ) (s t : Scheduler) → wake now due s ≡ some t → WellFormed s → WellFormed t
wake-WellFormed now due s t f v =
    wake_cases WellFormed now due s t f (Calm-WellFormed (leave-Calm s) v)
      (Calm-WellFormed (refl, refl, refl, refl, refl, λ x. omega arith) v)

-- The task that is found is the one that was looked for.
pub same_task :
    (r : ℕ) (s : Scheduler)
    → s.loop ≡ popped r
    → WellFormed s
    → (active : ℕ) → find (s.objects r).task_id s.active_tasks ≡ some active
    → active ≡ r
same_task r s l v active e =
    let (lt, id) = v.registered (s.objects r).task_id active e in
    v.distinct active r lt (v.allocated r (rw l (ground arith))) id

pub look_up-WellFormed :
    (r : ℕ) (s : Scheduler) → s.loop ≡ popped r → WellFormed s → WellFormed (look_up r s)
look_up-WellFormed r s l v =
    look_up_cases WellFormed r s
      (Calm-WellFormed (refl, refl, refl, refl, refl, λ x. omega arith) v)
      (λ active e live.
        Calm-WellFormed
          (refl, refl, refl, refl, refl, λ x. rw (l, same_task r s l v active e) (omega arith)) v)

pub dispatch-WellFormed :
    (r : ℕ) (s : Scheduler) → s.loop ≡ checked r → WellFormed s → WellFormed (dispatch r s)
unfolding dispatch set_status
dispatch-WellFormed r s l v =
    Shrinks-WellFormed
      (record {
        next_object = refl;
        next_id = refl;
        ids = λ x. ground arith;
        active = λ j x h. h;
        fewer = λ x. rw l (omega (arith, count-append x s.pending (r ∷ [])));
        sorted = IsSorted-SameKeys s.objects _ s.task_queue.pq (λ x. ground arith) v.sorted;
      })
      v
