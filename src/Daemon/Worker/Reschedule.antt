-- ===== src/Daemon/Worker/Reschedule.antt =====
-- `zone_reschedule_task` of signer/src/signer/zone.c on an ordered schedule.
use mathlib.Core.Path.{subst}
use opendnssec_workflow_test.Common.{
  ℕ, ◌+◌, ◌^◌, ◌≤◌, ◌<◌, min, ◌≡◌, refl, sym, ◌∙◌, true, false, List, ◌∷◌, ◌++◌, some, arith,
}
use opendnssec_workflow_test.Scheduler.Task.{TaskId, id, Task, ApexOrder, task_compare}
use opendnssec_workflow_test.Scheduler.Task.Order.{InWindow}
use opendnssec_workflow_test.Scheduler.Rbtree.{Rbtree}
use opendnssec_workflow_test.Scheduler.Schedule
use opendnssec_workflow_test.Scheduler.Schedule.{Schedule, schedule_task, unschedule_task}
use opendnssec_workflow_test.Scheduler.Schedule.Order.{IsOrdered, Absent}
use opendnssec_workflow_test.Scheduler.Schedule.Queue.{
  schedule_task-IsOrdered, unschedule_task-present,
}
use opendnssec_workflow_test.Daemon.Worker.{interrupted, zone_reschedule_task}

interrupted_shape :
    (t : Task) (what : TaskId) (now : ℕ)
    → let t' = interrupted t what now in
      (t'.when ≡ now) × (t'.zone ≡ t.zone) × (id t'.what ≡ min (id t.what) (id what))
unfolding interrupted
interrupted_shape t what now = ground arith

module _ (apex : ApexOrder) (tree : Rbtree (task_compare apex)) where
  found_again :
      (now : ℕ) (s : Schedule) (t d : Task) (what : TaskId)
      → (unschedule_task apex tree s t).0 ≡ some d
      → let s1 = (unschedule_task apex tree s t).1 in
        let t' = interrupted d what now in
        zone_reschedule_task apex tree true now s t what
        ≡ ((schedule_task apex tree true s1 t').0, (schedule_task apex tree true s1 t').1, t')
  unfolding zone_reschedule_task
  found_again now s t d what e = rw (e, zone_reschedule_task) refl

  -- When a zone's task is in a schedule in order, and now is in the window of its times, a command moves
  -- the task to now and never to a later step: it is to do the earlier of its own step and the one
  -- asked for. All other tasks stay, and the schedule stays in order.
  pub zone_reschedule_task-present :
      (base now : ℕ) (s : Schedule) (l r : List Task) (t : Task) (what : TaskId)
      → s.tasks ≡ l ++ t ∷ r
      → IsOrdered apex base s.tasks
      → base ≤ now
      → now < base + 2 ^ 31
      → let (status, s', t') = zone_reschedule_task apex tree true now s t what in
        (status ≡ Schedule.status_ok)
        × (t'.when ≡ now)
        × (id t'.what ≡ min (id t.what) (id what))
        × IsOrdered apex base s'.tasks
        × (l' : List Task) × (r' : List Task) × (l ++ r ≡ l' ++ r')
        × (s'.tasks ≡ l' ++ t' ∷ r')
  zone_reschedule_task-present base now s l r t what e o lo hi =
      let u = unschedule_task-present apex tree base s l r t e o in
      let s1 = (unschedule_task apex tree s t).1 in
      let d : Task = record t { flush = false } in
      let t' = interrupted d what now in
      let k = interrupted_shape d what now in
      let w : InWindow base t' = omega (arith, k.0) in
      let q =
        schedule_task-IsOrdered apex tree base s1 t' w
          (subst (λ z. Absent apex z s1.tasks) (sym k.1) u.3) u.2 in
      rw (found_again now s t d what u.0) (q.4, k.0, k.2, q.5, q.0, q.1, sym u.1 ∙ q.2, q.3)
