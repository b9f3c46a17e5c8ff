-- ===== src/Daemon/Worker/Zone.antt =====
-- The steps of a task leave it with its zone.
use opendnssec_workflow_test.Common.{ℕ, ◌≡◌, Bool, arith}
use opendnssec_workflow_test.Scheduler.Task.{
  TaskId, task_none, task_signconf, task_read, task_nsecify, task_sign, task_write, Task,
}
use opendnssec_workflow_test.Daemon.Worker.{
  Env, perform_fail, perform_continue, fail_or_continue, perform_next, served, perform_write,
  perform_sign, perform_read, perform_signconf, perform_case, perform_task,
}

fail_or_continue-zone : (e : Env) (t : Task) → (fail_or_continue e t).task.zone ≡ t.zone
unfolding fail_or_continue perform_fail perform_continue
fail_or_continue-zone e t = ground arith

perform_next-zone :
    (e : Env) (t : Task) (what : TaskId) (when : ℕ) (written : Bool)
    → (perform_next e t what when written).task.zone ≡ t.zone
unfolding perform_next
perform_next-zone e t what when written = ground arith

served-zone : (t : Task) → (served t).zone ≡ t.zone
unfolding served
served-zone t = ground arith

perform_write-zone : (e : Env) (t : Task) → (perform_write e t).task.zone ≡ t.zone
unfolding perform_write
perform_write-zone e t = grind (arith, fail_or_continue-zone, perform_next-zone, served-zone)

perform_sign-zone : (e : Env) (t : Task) → (perform_sign e t).task.zone ≡ t.zone
unfolding perform_sign
perform_sign-zone e t =
    grind (arith, fail_or_continue-zone, perform_next-zone, served-zone, perform_write-zone)

perform_read-zone : (e : Env) (t : Task) → (perform_read e t).task.zone ≡ t.zone
unfolding perform_read
perform_read-zone e t =
    grind (arith, fail_or_continue-zone, perform_next-zone, served-zone, perform_sign-zone)

perform_signconf-zone : (e : Env) (t : Task) → (perform_signconf e t).task.zone ≡ t.zone
unfolding perform_signconf perform_continue
perform_signconf-zone e t = grind (arith, fail_or_continue-zone, perform_read-zone)

perform_case-zone :
    (what : TaskId) (e : Env) (t : Task) → (perform_case what e t).task.zone ≡ t.zone
unfolding perform_case
perform_case-zone task_signconf e t = perform_signconf-zone e t
perform_case-zone task_read e t = perform_read-zone e t
perform_case-zone task_sign e t = perform_sign-zone e t
perform_case-zone task_write e t = perform_write-zone e t
perform_case-zone task_none e t = perform_next-zone e t _ _ _
perform_case-zone task_nsecify e t = perform_next-zone e t _ _ _

pub perform_task-zone : (e : Env) (t : Task) → (perform_task e t).task.zone ≡ t.zone
unfolding perform_task
perform_task-zone e t = perform_case-zone t.what e t
