-- ===== src/Daemon/Worker/Tests.antt =====
-- Tests and instances for the worker's tasks.
use opendnssec_workflow_test.Common.{
  ◌≡◌, refl, ◌≢◌, min, true, false, List, [], ◌∷◌, ◌++◌, some, arith, inl,
}
use opendnssec_workflow_test.Scheduler.Task.{
  task_none, task_signconf, task_read, task_sign, task_write, id, Task,
}
use opendnssec_workflow_test.Scheduler.Schedule
use opendnssec_workflow_test.Scheduler.Schedule.{Schedule}
use opendnssec_workflow_test.Scheduler.Schedule.Order.{IsOrdered}
use opendnssec_workflow_test.Scheduler.Schedule.Sample.{numbered, tree, job, two, two-IsOrdered}
use opendnssec_workflow_test.Daemon.Worker.{
  status_ok, unchanged, status_err, check_jobs, Env, perform_task, perform_next,
  zone_reschedule_task, perform_signconf, perform_read, is_ok, is_unchanged, perform_sign,
  perform_write, read_status, fail_or_continue, perform_fail, served,
}
use opendnssec_workflow_test.Daemon.Worker.Laws.{
  IsBackoff, plain_next, perform_task-Sound, perform_task-plain,
}
use opendnssec_workflow_test.Daemon.Worker.Reschedule.{zone_reschedule_task-present}

-- Everything succeeds; the input has not changed.
abbrev good : Env
good = record {
  signconf = status_ok;
  has_signconf = true;
  input = unchanged;
  serial = status_ok;
  jobs = record { appointed = 7; completed = 7; failed = 0; need_to_exit = false };
  output = status_ok;
  resign = 7200;
  clock_in = 1000;
  now = 1010;
}

-- The output cannot be written.
abbrev stuck : Env
stuck = record good { output = status_err }

signed : (perform_task good (job task_signconf 1000 1)).task ≡ job task_sign 8200 1
unfolding perform_task perform_signconf perform_read perform_sign perform_write perform_next served
    read_status check_jobs
signed = refl

-- The fourth failure in a row: the delay doubles from four minutes to eight.
delayed :
    (perform_task stuck (record (job task_write 1000 1) { backoff = 240 })).task
    ≡ record (job task_write 1490 1) { backoff = 480 }
unfolding perform_task perform_write fail_or_continue perform_fail
delayed = refl

perform_task-Sound_example :
    ((perform_task stuck (job task_read 1000 1)).task.what ≢ task_none)
    × IsBackoff (perform_task stuck (job task_read 1000 1)).task.backoff
perform_task-Sound_example = perform_task-Sound stuck (job task_read 1000 1) (λ q. cc) (inl refl)

perform_task-plain_example :
    (perform_task stuck (job task_read 1000 1)).task
    ≡ plain_next stuck (job task_read 1000 1) (some task_write)
unfolding read_status check_jobs is_ok is_unchanged
perform_task-plain_example =
    perform_task-plain stuck (job task_read 1000 1) (omega arith) (refl, refl)

zone_reschedule_task-present_example :
    let (status, s', t') =
      zone_reschedule_task numbered tree true 50 two (job task_read 200 2) task_signconf in
    (status ≡ Schedule.status_ok)
    × (t'.when ≡ 50)
    × (id t'.what ≡ min 2 1)
    × IsOrdered numbered 0 s'.tasks
    × (l : List Task) × (r : List Task) × (job task_sign 100 1 ∷ [] ≡ l ++ r)
    × (s'.tasks ≡ l ++ t' ∷ r)
zone_reschedule_task-present_example =
    zone_reschedule_task-present numbered tree 0 50 two (job task_sign 100 1 ∷ []) []
      (job task_read 200 2) task_signconf refl two-IsOrdered (omega arith) (omega arith)
