-- ===== src/Daemon/Worker.antt =====
-- signer/src/daemon/worker.c: what a worker does with the task that it took from the schedule
-- (`worker_perform_task`), the check of the drudgers' work, and `zone_reschedule_task` of
-- signer/src/signer/zone.c, by which a command interrupts a task.
-- What the tools return and what the clock says come in as an `Env`; the work itself is theirs.
pub mod Laws
mod Reschedule
mod Tests
pub mod Zone
pub mod Sample
use opendnssec_workflow_test.Common.{
  ℕ, ◌+◌, ◌*◌, Bool, true, false, ◌&&◌, ◌||◌, not, Option, none, some, ltb, ◌==◌, if◌then◌else◌,
}
use opendnssec_workflow_test.Scheduler.Task.{
  TaskId, task_none, task_signconf, task_read, task_nsecify, task_sign, task_write, id, Task,
  ApexOrder, task_compare,
}
use opendnssec_workflow_test.Scheduler.Rbtree.{Rbtree}
use opendnssec_workflow_test.Scheduler.Schedule.{Schedule, schedule_task, unschedule_task}
use opendnssec_workflow_test.Scheduler.Schedule

-- The `ods_status` values that are told apart; `status_err` is any other.
pub data Status : Type 0 where
  status_ok unchanged xfr_not_ready status_err : Status

-- The counters of `worker_type`.
pub record Jobs : Type 0 where
  pub appointed : ℕ
  pub completed : ℕ
  pub failed : ℕ
  pub need_to_exit : Bool

-- `worker_check_jobs`
unfoldable pub check_jobs : Jobs → Status
check_jobs j =
    if ltb 0 j.failed
    then status_err
    else if not (j.completed == j.appointed)
    then status_err
    else if j.need_to_exit
    then status_err
    else status_ok

-- What `tools_signconf`, `tools_input`, `zone_update_serial`, the drudgers and `tools_output` give,
-- whether the zone has a signer configuration (`last_modified`), its resign interval in seconds (0 if
-- it has none), and the clock.
pub record Env : Type 0 where
  pub signconf : Status
  pub has_signconf : Bool
  pub input : Status
  pub serial : Status
  pub jobs : Jobs
  pub output : Status
  pub resign : ℕ
  pub clock_in : ℕ
  pub now : ℕ

-- What is left: the task, whether the zone is marked as processed, and whether it is backed up.
pub record Performed : Type 0 where
  pub task : Task
  pub is_processed : Bool
  pub backup : Bool

-- `ODS_SE_MAX_BACKOFF`
abbrev pub max_backoff : ℕ
max_backoff = 3600

abbrev pub same_task : TaskId → TaskId → Bool
same_task a b = id a == id b

-- The label `task_perform_fail`.
pub perform_fail : Env → Task → Performed
perform_fail e t =
    let doubled = if t.backoff == 0 then 60 else t.backoff * 2 in
    let backoff = if ltb max_backoff doubled then max_backoff else doubled in
    record {
      task = record t { backoff = backoff; when = e.now + backoff };
      is_processed = true;
      backup = false;
    }

-- The label `task_perform_continue`.
pub perform_continue : Task → Performed
perform_continue t = record {
  task = record t {
    what = t.halted;
    when = t.halted_when;
    interrupt = task_none;
    halted = task_none;
    halted_when = 0;
  };
  is_processed = false;
  backup = false;
}

-- `if (task->halted == TASK_NONE) goto task_perform_fail; goto task_perform_continue;`
pub fail_or_continue : Env → Task → Performed
fail_or_continue e t = if same_task t.halted task_none then perform_fail e t else perform_continue t

-- The part behind the switch: the next task, or the one that interrupts it.
pub perform_next : Env → Task → TaskId → ℕ → Bool → Performed
perform_next e t what when written = record {
  task =
      if not (same_task t.interrupt task_none) && not (same_task t.interrupt what)
      then record t {
        backoff = 0;
        halted = what;
        halted_when = when;
        what = t.interrupt;
        when = e.now;
      }
      else record t {
        backoff = 0;
        what = what;
        when = when;
        interrupt = task_none;
        halted = task_none;
        halted_when = 0;
      };
  is_processed = written;
  backup = written;
}

-- `if (task->interrupt > TASK_SIGNCONF)`: an interrupt by a later step is served by now.
pub served : Task → Task
served t =
    if ltb (id task_signconf) (id t.interrupt)
    then record t { interrupt = task_none; halted = task_none }
    else t

pub is_unchanged : Status → Bool
is_unchanged unchanged = true
is_unchanged _ = false

pub is_ok : Status → Bool
is_ok status_ok = true
is_ok _ = false

-- The cases of the switch, each of which falls through to the next.
pub perform_write : Env → Task → Performed
unfolding is_ok
perform_write e t =
    if is_ok e.output
    then perform_next e (served (record t { what = task_write })) task_sign
        (e.clock_in + (if e.resign == 0 then 3600 else e.resign)) true
    else fail_or_continue e (record t { what = task_write })

pub perform_sign : Env → Task → Performed
unfolding is_ok
perform_sign e t =
    if is_ok e.serial
    then if is_ok (check_jobs e.jobs)
      then perform_write e (served (served (record t { what = task_sign })))
      else fail_or_continue e (served (record t { what = task_sign }))
    else fail_or_continue e (record t { what = task_sign })

-- The input may be unchanged.
pub read_status : Env → Status
read_status e =
    if e.has_signconf
    then elim e.input [ unchanged ↦ status_ok | status_ok ↦ status_ok | s ↦ s ]
    else status_err

pub perform_read : Env → Task → Performed
unfolding is_ok
perform_read e t =
    if is_ok (read_status e)
    then perform_sign e (served (record t { what = task_read }))
    else fail_or_continue e (record t { what = task_read })

pub perform_signconf : Env → Task → Performed
perform_signconf e t = elim e.signconf [
  | status_ok ↦ perform_read e (record t { interrupt = task_none; halted = task_none })
  | unchanged ↦
      if e.has_signconf
      then if not (same_task t.halted task_none) && not (same_task t.halted task_signconf)
        then perform_continue t
        else perform_read e t
      else fail_or_continue e t
  | _ ↦ fail_or_continue e t
]

-- A year, the local `never`.
abbrev pub never : ℕ
never = 3600 * 24 * 365

-- The switch of `worker_perform_task`, by its case.
pub perform_case : TaskId → Env → Task → Performed
perform_case task_signconf e t = perform_signconf e t
perform_case task_read e t = perform_read e t
perform_case task_sign e t = perform_sign e t
perform_case task_write e t = perform_write e t
perform_case task_none e t = perform_next e t task_none (e.now + never) false
perform_case task_nsecify e t = perform_next e t task_signconf e.now false

-- `worker_perform_task`
pub perform_task : Env → Task → Performed
unfolding perform_case
perform_task e t = perform_case t.what e t

-- `zone_reschedule_task`: the task as it is put back.
pub interrupted : Task → TaskId → ℕ → Task
interrupted t what now =
    let t1 =
      if same_task t.what what
      then t
      else record t { halted = t.what; halted_when = t.when; interrupt = what } in
    record t1 { what = if ltb (id what) (id t1.what) then what else t1.what; when = now }

-- `zone_reschedule_task`, for the zone's task and the schedule.
pub zone_reschedule_task :
    (apex : ApexOrder)
    → Rbtree (task_compare apex)
    → Bool
    → ℕ
    → Schedule
    → Task
    → TaskId
    → Schedule.Status × Schedule × Task
zone_reschedule_task apex tree memory now s t what =
    let (found, s') = unschedule_task apex tree s t in
    elim found [
      | none ↦ (Schedule.status_ok, s', record t { interrupt = what })
      | some d ↦
          let (status, s'') = schedule_task apex tree memory s' (interrupted d what now) in
          (status, s'', interrupted d what now)
    ]
