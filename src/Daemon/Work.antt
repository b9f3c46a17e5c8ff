-- ===== src/Daemon/Work.antt =====
-- `worker_work` of signer/src/daemon/worker.c: the loop in which a worker takes a task from the
-- schedule, performs it, and puts it back. No other thread runs between the two uses of the schedule.
pub mod Laws
mod Tests
use opendnssec_workflow_test.Common.{
  ℕ, ◌+◌, ◌-◌, ◌*◌, ◌^◌, ◌≤◌, ◌<◌, ◌≡◌, refl, sym, ap, ◌∙◌, Bool, true, false, List, [], ◌∷◌, ◌++◌,
  Option, none, some, arith, ltb, if◌then◌else◌,
}
use opendnssec_workflow_test.Scheduler.Task.{Task, ApexOrder, task_compare}
use opendnssec_workflow_test.Scheduler.Rbtree.{Rbtree}
use opendnssec_workflow_test.Scheduler.Schedule
use opendnssec_workflow_test.Scheduler.Schedule.{
  Schedule, schedule_task, schedule_pop_task, schedule_get_first_task,
}
use opendnssec_workflow_test.Daemon.Worker.{Env, max_backoff, perform_task}

-- What a round leaves: the schedule, the task as it was put back, what `schedule_task` answered, and
-- the timeout; and for how long the worker sleeps, if it does.
pub record Round : Type 0 where
  pub schedule : Schedule
  pub performed : Option (Task × Schedule.Status)
  pub timeout : ℕ
  pub sleep : Option ℕ

-- The part with nothing to do: `loading` is the schedule's flag.
pub idle_round : Schedule → ℕ → Bool → ℕ → Round
idle_round s now loading timeout =
    let (first, s') = schedule_get_first_task s in
    let wanted : ℕ = elim first [
      | none ↦ timeout * 2
      | some t ↦ if loading then timeout * 2 else t.when - now
    ] in
    let capped = if ltb max_backoff wanted then max_backoff else wanted in
    record { schedule = s'; performed = none; timeout = capped; sleep = some capped }

-- One round of the loop. `now` is the time at its start, and `memory` says whether `schedule_task` gets
-- its node.
pub work_round :
    (apex : ApexOrder) → Rbtree (task_compare apex) → Bool → Env → ℕ → Bool → ℕ → Schedule → Round
work_round apex tree memory e now loading timeout s =
    let (out, s') = schedule_pop_task apex tree now s in
    elim out [
      | none ↦ idle_round s' now loading timeout
      | some t ↦
          let t' = (perform_task e t).task in
          let (status, s'') = schedule_task apex tree memory s' t' in
          record { schedule = s''; performed = some (t', status); timeout = 1; sleep = none }
    ]
