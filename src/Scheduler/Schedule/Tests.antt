-- ===== src/Scheduler/Schedule/Tests.antt =====
-- Tests and instances for the schedule.
use opendnssec_workflow_test.Common.{
  ◌≤◌, ◌<◌, ◌≡◌, refl, true, List, [], ◌∷◌, ◌++◌, none, some, arith, All,
}
use opendnssec_workflow_test.Common.Int.{pos, ◌<ℤ◌, int_diff}
use opendnssec_workflow_test.Scheduler.Task.{
  task_none, task_read, task_sign, task_write, Task, task_compare,
}
use opendnssec_workflow_test.Scheduler.Task.Order.{compare-not-transitive}
use opendnssec_workflow_test.Scheduler.Rbtree.Linear.{search, insert}
use opendnssec_workflow_test.Scheduler.Schedule.{
  Schedule, status_ok, schedule_create, schedule_flush, schedule_task, unschedule_task,
  schedule_pop_task, schedule_lookup_task, first_flush, flush_loop, flush_task, is_none,
}
use opendnssec_workflow_test.Scheduler.Schedule.Sample.{
  numbered, tree, job, two, flushed_two, two-IsOrdered, flushed_two-IsOrdered,
}
use opendnssec_workflow_test.Scheduler.Schedule.Order.{IsOrdered, Absent}
use opendnssec_workflow_test.Scheduler.Schedule.Flush.{
  Counted, fresh, next, flushes, adds, Reach-Counted,
}
use opendnssec_workflow_test.Scheduler.Schedule.Queue.{
  schedule_task-IsOrdered, unschedule_task-present,
}
use opendnssec_workflow_test.Scheduler.Schedule.Pop.{schedule_pop_task-earliest}

flush_two : (schedule_flush two task_read).flushcount ≡ 2
unfolding schedule_flush flush_loop flush_task is_none
flush_two = refl

middle :
    (schedule_task numbered tree true two (job task_write 150 3)).1.tasks
    ≡ job task_sign 100 1 ∷ job task_write 150 3 ∷ job task_read 200 2 ∷ []
unfolding schedule_task schedule_lookup_task search insert task_compare int_diff
middle = refl

compare-not-transitive_example :
    (task_compare numbered (job task_sign 100 1) (job task_read 200 2) <ℤ pos 0)
    × (task_compare numbered (job task_read 200 2) (job task_sign 300 1) <ℤ pos 0)
    × (task_compare numbered (job task_sign 100 1) (job task_sign 300 1) ≡ pos 0)
compare-not-transitive_example =
    compare-not-transitive numbered 0 (job task_sign 100 1) (job task_read 200 2)
      (job task_sign 300 1) (omega arith) (omega arith) (omega arith) refl (omega arith)
      (omega arith) (omega arith)

schedule_task-IsOrdered_example :
    let (status, s') = schedule_task numbered tree true two (job task_write 150 3) in
    (l : List Task) × (r : List Task) × (two.tasks ≡ l ++ r)
    × (s'.tasks ≡ l ++ job task_write 150 3 ∷ r)
    × (status ≡ status_ok)
    × IsOrdered numbered 0 s'.tasks
schedule_task-IsOrdered_example =
    schedule_task-IsOrdered numbered tree 0 two (job task_write 150 3) (omega arith) (omega arith)
      two-IsOrdered

unschedule_task-present_example :
    let (out, s') =
      unschedule_task numbered tree flushed_two (record (job task_read 200 2) { flush = true }) in
    (out ≡ some (job task_read 200 2))
    × (s'.tasks ≡ job task_sign 100 1 ∷ [])
    × IsOrdered numbered 0 s'.tasks
    × Absent numbered 2 s'.tasks
unschedule_task-present_example =
    unschedule_task-present numbered tree 0 flushed_two (job task_sign 100 1 ∷ []) []
      (record (job task_read 200 2) { flush = true }) refl flushed_two-IsOrdered

abbrev after_flush : Schedule
after_flush = (schedule_flush schedule_create task_none)

Reach-Counted_example :
    Counted (schedule_task numbered tree true after_flush (job task_sign 100 1)).1
unfolding schedule_flush flush_loop schedule_create schedule_task schedule_lookup_task search insert
Reach-Counted_example = Reach-Counted numbered tree (
    next (next fresh (flushes schedule_create task_none) (omega arith))
      (adds after_flush true (job task_sign 100 1)) (omega arith))

schedule_pop_task-earliest_example :
    let (out, s') = schedule_pop_task numbered tree 150 two in
    All (λ (u : Task). 100 ≤ u.when) (job task_read 200 2 ∷ [])
    × (100 ≤ 150
        → (out ≡ some (job task_sign 100 1))
          × (s'.tasks ≡ job task_read 200 2 ∷ [])
          × IsOrdered numbered 0 s'.tasks)
    × (150 < 100
        → (out ≡ none) × (s'.tasks ≡ two.tasks) × All (λ (u : Task). 150 < u.when) two.tasks)
unfolding first_flush
schedule_pop_task-earliest_example =
    schedule_pop_task-earliest numbered tree 0 150 two (job task_sign 100 1)
      (job task_read 200 2 ∷ []) (omega arith) refl two-IsOrdered refl
