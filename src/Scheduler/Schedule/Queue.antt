-- ===== src/Scheduler/Schedule/Queue.antt =====
-- schedule.c keeps its order, and finds what it stored.
use opendnssec_workflow_test.Common.{
  ◌^◌, ◌<◌, ℕ, ◌≡◌, refl, Bool, true, false, List, ◌∷◌, ◌++◌, some, arith, if◌then◌else◌, ap, ◌∙◌,
  Option,
}
use mathlib.Core.Path.{subst}
use opendnssec_workflow_test.Scheduler.Task.{TaskId, Task, ApexOrder, task_compare}
use opendnssec_workflow_test.Scheduler.Task.Order.{InWindow}
use opendnssec_workflow_test.Scheduler.Rbtree.{Rbtree}
use opendnssec_workflow_test.Scheduler.Schedule.{
  count_up, count_down, Schedule, status_ok, status_err, schedule_task, unschedule_task,
  reschedule_task, schedule_lookup_task,
}
use opendnssec_workflow_test.Scheduler.Schedule.Order.{
  IsOrdered, Absent, Place, place, Found, found,
}

module _ (apex : ApexOrder) (tree : Rbtree (task_compare apex)) where
  schedule_at :
      (base : ℕ) (s : Schedule) (t : Task) (p : Place apex base t s.tasks)
      → schedule_task apex tree true s t ≡ (
        status_ok,
        record {
          tasks = p.before ++ t ∷ p.behind;
          flushcount = if t.flush then count_up s.flushcount else s.flushcount;
        },
      )
  unfolding schedule_task schedule_lookup_task
  schedule_at base s t p = ground (
    arith,
    p.split,
    tree.search_gap p.before p.behind t p.below p.above,
    tree.insert_gap p.before p.behind t p.below p.above,
  )

  -- In a schedule that is in order, with all times in a window of 2 ^ 31 seconds, a task of a zone that
  -- has none there and whose time is in the window is accepted: it is added at its place, all other
  -- tasks stay, and the schedule stays in order.
  pub schedule_task-IsOrdered :
      (base : ℕ) (s : Schedule) (t : Task)
      → InWindow base t
      → Absent apex t.zone s.tasks
      → IsOrdered apex base s.tasks
      → let (status, s') = schedule_task apex tree true s t in
        (l : List Task) × (r : List Task) × (s.tasks ≡ l ++ r)
        × (s'.tasks ≡ l ++ t ∷ r)
        × (status ≡ status_ok)
        × IsOrdered apex base s'.tasks
  schedule_task-IsOrdered base s t w a o =
      let p = place apex base t s.tasks w a o in
      (
        p.before,
        p.behind,
        p.split,
        rw (schedule_at base s t p),
        rw (schedule_at base s t p),
        rw (schedule_at base s t p) p.inserted,
      )

  unschedule_at :
      (base : ℕ) (s : Schedule) (l r : List Task) (t : Task)
      → s.tasks ≡ l ++ t ∷ r
      → Found apex base l r t
      → unschedule_task apex tree s t ≡ (
        some (record t { flush = false }),
        record {
          tasks = l ++ r;
          flushcount = if t.flush then count_down s.flushcount else s.flushcount;
        },
      )
  unfolding unschedule_task
  unschedule_at base s l r t e f = ground (arith, tree.delete_at l r t t f.below f.same f.above)

  -- A task that is in a schedule in order is found and taken out, with its flush mark cleared; the
  -- others stay in order, and none of them is of its zone.
  pub unschedule_task-present :
      (base : ℕ) (s : Schedule) (l r : List Task) (t : Task)
      → s.tasks ≡ l ++ t ∷ r
      → IsOrdered apex base s.tasks
      → let (out, s') = unschedule_task apex tree s t in
        (out ≡ some (record t { flush = false }))
        × (s'.tasks ≡ l ++ r)
        × IsOrdered apex base s'.tasks
        × Absent apex t.zone s'.tasks
  unschedule_task-present base s l r t e o =
      let f = found apex base l r t (subst (IsOrdered apex base) e o) in
      rw (unschedule_at base s l r t e f) (refl, refl, f.removed, f.gone)

  -- Taking out a task that was just scheduled, in a schedule in order and for a zone that had none
  -- there, gives back the schedule and the task, unmarked.
  unschedule-schedule :
      (base : ℕ) (s : Schedule) (t : Task)
      → InWindow base t
      → Absent apex t.zone s.tasks
      → IsOrdered apex base s.tasks
      → s.flushcount < 2 ^ 32
      → unschedule_task apex tree (schedule_task apex tree true s t).1 t
        ≡ (some (record t { flush = false }), s)
  unschedule-schedule base s t w a o b =
      let p = place apex base t s.tasks w a o in
      let s' = (schedule_task apex tree true s t).1 in
      let e : s'.tasks ≡ p.before ++ t ∷ p.behind = ap (λ x. x.1.tasks) (schedule_at base s t p) in
      unschedule_at base s' p.before p.behind t e (found apex base p.before p.behind t p.inserted)
      ∙ back s t p b (ap (λ x. x.1.flushcount) (schedule_at base s t p))
    where
      back :
          (s : Schedule) (t : Task) (p : Place apex base t s.tasks)
          → s.flushcount < 2 ^ 32
          → (schedule_task apex tree true s t).1.flushcount
            ≡ (if t.flush then count_up s.flushcount else s.flushcount)
          → ◌≡◌ {A = Option Task × Schedule}
              (
                some (record t { flush = false }),
                record {
                  tasks = p.before ++ p.behind;
                  flushcount =
                      if t.flush
                      then count_down (schedule_task apex tree true s t).1.flushcount
                      else (schedule_task apex tree true s t).1.flushcount;
                },
              )
              (some (record t { flush = false }), s)
      back s t p b e = ground (arith, p.split)

  -- A task that is in the schedule is refused a second time, and nothing changes.
  pub schedule_task-duplicate :
      (base : ℕ) (s : Schedule) (l r : List Task) (t : Task) (memory : Bool)
      → s.tasks ≡ l ++ t ∷ r
      → IsOrdered apex base s.tasks
      → schedule_task apex tree memory s t ≡ (status_err, s)
  unfolding schedule_task schedule_lookup_task
  schedule_task-duplicate base s l r t memory e o =
      let f = found apex base l r t (subst (IsOrdered apex base) e o) in
      ground (arith, tree.search_at l r t t f.below f.same f.above)

  -- `reschedule_task` moves a task that is in a schedule in order to its new place, when the new time is
  -- in the window: the schedule stays in order, and holds the other tasks and this one with its new
  -- number and time, unmarked.
  reschedule_task-IsOrdered :
      (base : ℕ) (s : Schedule) (l r : List Task) (t : Task) (what : TaskId) (when : ℕ)
      → s.tasks ≡ l ++ t ∷ r
      → IsOrdered apex base s.tasks
      → InWindow base (record t { when = when })
      → let (status, s') = reschedule_task apex tree true s t what when in
        (l' : List Task) × (r' : List Task) × (l ++ r ≡ l' ++ r')
        × (s'.tasks ≡ l' ++ record t { what = what; when = when; flush = false } ∷ r')
        × (status ≡ status_ok)
        × IsOrdered apex base s'.tasks
  unfolding reschedule_task
  reschedule_task-IsOrdered base s l r t what when e o w =
      let f = found apex base l r t (subst (IsOrdered apex base) e o) in
      rw (unschedule_at base s l r t e f) (
        schedule_task-IsOrdered base
          (record {
            tasks = l ++ r;
            flushcount = if t.flush then count_down s.flushcount else s.flushcount;
          })
          (record t { what = what; when = when; flush = false }) w f.gone f.removed)
