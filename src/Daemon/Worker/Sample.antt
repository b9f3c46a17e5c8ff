-- ===== src/Daemon/Worker/Sample.antt =====
-- A zone that can neither be signed nor written.
use opendnssec_workflow_test.Common.{◌≡◌, refl, true, false}
use opendnssec_workflow_test.Scheduler.Task.{task_sign}
use opendnssec_workflow_test.Scheduler.Schedule.Sample.{job}
use opendnssec_workflow_test.Daemon.Worker.{
  status_ok, unchanged, status_err, check_jobs, Env, perform_task, perform_fail, fail_or_continue,
  perform_sign, is_ok, served,
}

abbrev pub stuck : Env
stuck = record {
  signconf = status_ok;
  has_signconf = true;
  input = unchanged;
  serial = status_ok;
  jobs = record { appointed = 3; completed = 2; failed = 1; need_to_exit = false };
  output = status_err;
  resign = 7200;
  clock_in = 150;
  now = 160;
}

-- It is tried again after a minute.
pub stuck_sign : (perform_task stuck (job task_sign 100 1)).task.when ≡ 220
unfolding perform_task perform_sign perform_fail fail_or_continue check_jobs served is_ok
stuck_sign = refl
