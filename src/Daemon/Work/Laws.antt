-- ===== src/Daemon/Work/Laws.antt =====
-- A round of `worker_work` loses no task, and sleeps for a bounded time.
use mathlib.Core.Path.{subst}
use opendnssec_workflow_test.Common.{
  ℕ, ◌≤◌, ◌<◌, ◌≡◌, refl, sym, ap, ◌∙◌, Bool, true, List, ◌∷◌, ◌++◌, none, some, arith,
  Option-cases, inl, inr,
}
use opendnssec_workflow_test.Scheduler.Task.{Task, ApexOrder, task_compare}
use opendnssec_workflow_test.Scheduler.Task.Order.{InWindow}
use opendnssec_workflow_test.Scheduler.Rbtree.{Rbtree}
use opendnssec_workflow_test.Scheduler.Schedule
use opendnssec_workflow_test.Scheduler.Schedule.{
  Schedule, schedule_task, unschedule_task, schedule_pop_task, schedule_get_first_task, first_flush,
  head,
}
use opendnssec_workflow_test.Scheduler.Schedule.Order.{IsOrdered, Absent}
use opendnssec_workflow_test.Scheduler.Schedule.Queue.{schedule_task-IsOrdered}
use opendnssec_workflow_test.Scheduler.Schedule.Pop.{schedule_pop_task-Popped, pop_none_first}
use opendnssec_workflow_test.Daemon.Worker.{Env, perform_task}
use opendnssec_workflow_test.Daemon.Worker.Zone.{perform_task-zone}
use opendnssec_workflow_test.Daemon.Work.{idle_round, work_round}

module _ (apex : ApexOrder) (tree : Rbtree (task_compare apex)) where
  taken_round :
      (e : Env) (now : ℕ) (loading : Bool) (timeout : ℕ) (s : Schedule) (t : Task)
      → (schedule_pop_task apex tree now s).0 ≡ some t
      → let t' = (perform_task e t).task in
        let r = schedule_task apex tree true (schedule_pop_task apex tree now s).1 t' in
        work_round apex tree true e now loading timeout s
        ≡ record { schedule = r.1; performed = some (t', r.0); timeout = 1; sleep = none }
  unfolding work_round
  taken_round e now loading timeout s t h = rw (h, work_round) refl

  -- From a schedule in order that hands out a task, a round of `worker_work` performs that task and
  -- puts it back, when its new time is in the window: `schedule_task` accepts it, the schedule stays in
  -- order, it holds the task of the zone as `worker_perform_task` left it in place of the one before,
  -- and all other tasks stay.
  pub work_round-kept :
      (base : ℕ) (e : Env) (now : ℕ) (loading : Bool) (timeout : ℕ) (s : Schedule) (t : Task)
      → IsOrdered apex base s.tasks
      → (schedule_pop_task apex tree now s).0 ≡ some t
      → InWindow base (perform_task e t).task
      → let t' = (perform_task e t).task in
        let r = work_round apex tree true e now loading timeout s in
        (r.performed ≡ some (t', Schedule.status_ok))
        × IsOrdered apex base r.schedule.tasks
        × (was : Task) × (l : List Task) × (m : List Task) × (l' : List Task) × (m' : List Task)
        × (s.tasks ≡ l ++ was ∷ m)
        × (l ++ m ≡ l' ++ m')
        × (r.schedule.tasks ≡ l' ++ t' ∷ m')
        × (t'.zone ≡ was.zone)
  work_round-kept base e now loading timeout s t o h w =
      let t' = (perform_task e t).task in
      let s' = (schedule_pop_task apex tree now s).1 in
      let p = schedule_pop_task-Popped apex tree base now s t o h in
      let same : t'.zone ≡ p.was.zone = perform_task-zone e t ∙ ap (λ (x : Task). x.zone) p.is in
      let k =
        schedule_task-IsOrdered apex tree base s' t' w
          (subst (λ z. Absent apex z s'.tasks) (sym same) p.absent) p.ordered in
      let (l', m', split, new, status, ordered) = k in
      rw (taken_round e now loading timeout s t h) (
        ap (λ x. some (t', x)) status,
        ordered,
        p.was,
        p.before,
        p.behind,
        l',
        m',
        p.split,
        sym p.left ∙ split,
        new,
        same,
      )

  idle_sleep :
      (s : Schedule) (now : ℕ) (loading : Bool) (timeout : ℕ)
      → 0 < timeout
      → ((t : Task) → (schedule_get_first_task s).0 ≡ some t → now < t.when)
      → let r = idle_round s now loading timeout in
        (r.performed ≡ none) × (r.sleep ≡ some r.timeout) × (1 ≤ r.timeout) × (r.timeout ≤ 3600)
  unfolding idle_round
  idle_sleep s now loading timeout h due = elim (Option-cases (schedule_get_first_task s).0) [
    | inl n ↦ ground arith
    | inr (t, n) ↦ ground (arith, due t n)
  ]

  -- From a schedule in order that hands out nothing, a round of `worker_work` with a positive timeout
  -- performs no task and sleeps, never for ever: for one second at least and an hour at most.
  work_round-sleep :
      (base : ℕ) (memory : Bool) (e : Env) (now : ℕ) (loading : Bool) (timeout : ℕ) (s : Schedule)
      → IsOrdered apex base s.tasks
      → 0 < timeout
      → (schedule_pop_task apex tree now s).0 ≡ none
      → let r = work_round apex tree memory e now loading timeout s in
        (r.performed ≡ none) × (r.sleep ≡ some r.timeout) × (1 ≤ r.timeout) × (r.timeout ≤ 3600)
  unfolding work_round
  work_round-sleep base memory e now loading timeout s o h n =
      let (q, due) = pop_none_first apex tree base now s o n in
      let s1 = (schedule_get_first_task s).1 in
      rw (n, work_round) (rw q (idle_sleep s1 now loading timeout h due))
