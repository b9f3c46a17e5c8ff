-- ===== src/Daemon/Work/Tests.antt =====
-- Tests and instances for the worker's loop.
use opendnssec_workflow_test.Common.{◌≡◌, true, false, List, ◌∷◌, ◌++◌, some, arith}
use opendnssec_workflow_test.Scheduler.Task.{task_sign, Task}
use opendnssec_workflow_test.Scheduler.Schedule
use opendnssec_workflow_test.Scheduler.Schedule.{
  Schedule, schedule_task, schedule_pop_task, schedule_get_first_task, unschedule_task, head,
}
use opendnssec_workflow_test.Scheduler.Schedule.Order.{IsOrdered}
use opendnssec_workflow_test.Scheduler.Schedule.Sample.{
  numbered, tree, job, two, two-IsOrdered, pop_late,
}
use opendnssec_workflow_test.Daemon.Worker.{perform_task}
use opendnssec_workflow_test.Daemon.Worker.Sample.{stuck, stuck_sign}
use opendnssec_workflow_test.Daemon.Work.{work_round}
use opendnssec_workflow_test.Daemon.Work.Laws.{work_round-kept}

work_round-kept_example :
    let t' = (perform_task stuck (job task_sign 100 1)).task in
    let r = work_round numbered tree true stuck 150 false 1 two in
    (r.performed ≡ some (t', Schedule.status_ok))
    × IsOrdered numbered 0 r.schedule.tasks
    × (was : Task) × (l : List Task) × (m : List Task) × (l' : List Task) × (m' : List Task)
    × (two.tasks ≡ l ++ was ∷ m)
    × (l ++ m ≡ l' ++ m')
    × (r.schedule.tasks ≡ l' ++ t' ∷ m')
    × (t'.zone ≡ was.zone)
work_round-kept_example =
    work_round-kept numbered tree 0 stuck 150 false 1 two (job task_sign 100 1) two-IsOrdered
      pop_late (omega (arith, stuck_sign))
