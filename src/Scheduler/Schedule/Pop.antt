-- ===== src/Scheduler/Schedule/Pop.antt =====
-- Which task `schedule_pop_task` hands to a worker.
use opendnssec_workflow_test.Common.{
  ◌^◌, ◌<◌, ℕ, ◌≤◌, ◌≡◌, refl, sym, ap, ◌∙◌, true, false, List, [], ◌∷◌, none, some, arith, All,
  All-map, leb, ◌||◌, ◌++◌, Bool-cases, Option-cases, inl, inr,
}
use mathlib.Core.Path.{subst}
use opendnssec_workflow_test.Scheduler.Task.{Task, ApexOrder, task_compare}
use opendnssec_workflow_test.Scheduler.Rbtree.{Rbtree}
use opendnssec_workflow_test.Scheduler.Schedule.{
  is_positive, Schedule, first_flush, head, schedule_get_first_task, unschedule_task,
  schedule_pop_task,
}
use opendnssec_workflow_test.Scheduler.Schedule.Order.{IsOrdered, Precedes, Absent}
use opendnssec_workflow_test.Scheduler.Schedule.Flush.{
  Counted, first_flush_parts, schedule_get_first_task-flushed,
}
use opendnssec_workflow_test.Scheduler.Schedule.Queue.{unschedule_task-present}

module _ (apex : ApexOrder) (tree : Rbtree (task_compare apex)) where
  pop_taken :
      (now : ℕ) (s s1 : Schedule) (t : Task)
      → schedule_get_first_task s ≡ (some t, s1)
      → (t.flush || leb t.when now) ≡ true
      → schedule_pop_task apex tree now s ≡ unschedule_task apex tree s1 t
  unfolding schedule_pop_task
  pop_taken now s s1 t e h =
      rw (e, schedule_pop_task) (rw h (ap (λ x. unschedule_task apex tree x.1 t) e))

  pub pop_left :
      (now : ℕ) (s s1 : Schedule) (t : Task)
      → schedule_get_first_task s ≡ (some t, s1)
      → (t.flush || leb t.when now) ≡ false
      → schedule_pop_task apex tree now s ≡ (none, s1)
  unfolding schedule_pop_task
  pop_left now s s1 t e h = rw (e, schedule_pop_task) (rw h (ap (λ x. (none, x.1)) e))

  -- From a schedule in order whose counter covers the marks and is not negative, a marked task is handed out at once,
  -- whatever its time: the first marked one, unmarked; the others stay in order.
  schedule_pop_task-flushed :
      (base now : ℕ) (s : Schedule) (t : Task)
      → Counted s
      → s.flushcount < 2 ^ 31
      → IsOrdered apex base s.tasks
      → first_flush s.tasks ≡ some t
      → let (out, s') = schedule_pop_task apex tree now s in
        (out ≡ some (record t { flush = false })) × IsOrdered apex base s'.tasks
  schedule_pop_task-flushed base now s t c b o e =
      let (l, r, p, q, z) = first_flush_parts s.tasks t e in
      let u = unschedule_task-present apex tree base s l r t p o in
      let first = (schedule_get_first_task-flushed s c).0 b t e in
      rw (pop_taken now s s t first (ground (arith, q))) (u.0, u.2)

  when-le :
      (x : Task) (ts : List Task)
      → All (Precedes apex x) ts
      → All (λ (u : Task). x.when ≤ u.when) ts
  when-le x [] p = tt
  when-le x (t ∷ ts) p = (omega (arith, p.0.1), when-le x ts p.1)

  first-unmarked : (t : Task) (r : List Task) → first_flush (t ∷ r) ≡ none → t.flush ≡ false
  unfolding first_flush
  first-unmarked t r e = ground arith

  -- In a schedule in order whose counter covers the marks, with no task marked, the first task of the
  -- schedule is handed out if it is due, and it is the earliest of all. If it is not due, no task is,
  -- and the tasks stay as they are.
  pub schedule_pop_task-earliest :
      (base now : ℕ) (s : Schedule) (t : Task) (r : List Task)
      → Counted s
      → s.tasks ≡ t ∷ r
      → IsOrdered apex base s.tasks
      → first_flush s.tasks ≡ none
      → let (out, s') = schedule_pop_task apex tree now s in
        All (λ (u : Task). t.when ≤ u.when) r
        × (t.when ≤ now
            → (out ≡ some (record t { flush = false }))
              × (s'.tasks ≡ r)
              × IsOrdered apex base s'.tasks)
        × (now < t.when
            → (out ≡ none) × (s'.tasks ≡ s.tasks) × All (λ (u : Task). now < u.when) s.tasks)
  unfolding head
  schedule_pop_task-earliest base now s t r c e o n =
      let all = when-le t r (subst (IsOrdered apex base) e o).ordered.0 in
      let got = (schedule_get_first_task-flushed s c).1 n in
      let s1 = (schedule_get_first_task s).1 in
      let first : schedule_get_first_task s ≡ (some t, s1) = ground (arith, e) in
      let u =
        unschedule_task-present apex tree base s1 [] r t (got.1 ∙ e)
          (subst (IsOrdered apex base) (sym got.1) o) in
      let unmarked : t.flush ≡ false = first-unmarked t r (subst (λ l. first_flush l ≡ none) e n) in
      (
        all,
        λ h. rw (pop_taken now s s1 t first (ground arith)) (u.0, u.1, u.2),
        λ h.
            rw (pop_left now s s1 t first (ground arith))
              (refl, got.1, rw e (h, All-map (λ v k. omega arith) r all)),
      )

  -- What is handed out was in the schedule, and no other task of its zone stays there.
  pub record Popped (base : ℕ) (s s' : Schedule) (out : Task) : Type 0 where
    pub before : List Task
    pub behind : List Task
    pub was : Task
    pub split : s.tasks ≡ before ++ was ∷ behind
    pub left : s'.tasks ≡ before ++ behind
    pub is : out ≡ record was { flush = false }
    pub ordered : IsOrdered apex base s'.tasks
    pub absent : Absent apex was.zone s'.tasks

  head-mem : (ts : List Task) (t : Task) → head ts ≡ some t → (r : List Task) × (ts ≡ t ∷ r)
  unfolding head
  head-mem [] t e = cc
  head-mem (x ∷ ts) t e = (ts, cc)

  pub get_first-mem :
      (s : Schedule) (t : Task)
      → (schedule_get_first_task s).0 ≡ some t
      → ((schedule_get_first_task s).1.tasks ≡ s.tasks)
        × (l : List Task) × (r : List Task) × (s.tasks ≡ l ++ t ∷ r)
  unfolding schedule_get_first_task
  get_first-mem s t e = elim (Bool-cases (is_positive s.flushcount)) [
    | inr b ↦ let (r, p) = head-mem s.tasks t (ground arith) in (ground arith, [], r, p)
    | inl b ↦ elim (Option-cases (first_flush s.tasks)) [
      | inr (f, q) ↦
          let (l, r, p, _, _) = first_flush_parts s.tasks f q in
          let same : f ≡ t = ground arith in (ground arith, l, r, p ∙ ap (λ x. l ++ x ∷ r) same)
      | inl q ↦ let (r, p) = head-mem s.tasks t (ground arith) in (ground arith, [], r, p)
    ]
  ]

  unscheduled-Popped :
      (base : ℕ) (s s1 : Schedule) (l r : List Task) (t : Task)
      → s1.tasks ≡ s.tasks
      → s.tasks ≡ l ++ t ∷ r
      → IsOrdered apex base s.tasks
      → ((unschedule_task apex tree s1 t).0 ≡ some (record t { flush = false }))
        × Popped base s (unschedule_task apex tree s1 t).1 (record t { flush = false })
  unscheduled-Popped base s s1 l r t same p o =
      let u =
        unschedule_task-present apex tree base s1 l r t (same ∙ p)
          (subst (IsOrdered apex base) (sym same) o) in
      (
        u.0,
        record {
          before = l;
          behind = r;
          was = t;
          split = p;
          left = u.1;
          is = refl;
          ordered = u.2;
          absent = u.3;
        },
      )

  pub pop_none :
      (now : ℕ) (s s1 : Schedule)
      → schedule_get_first_task s ≡ (none, s1)
      → schedule_pop_task apex tree now s ≡ (none, s1)
  unfolding schedule_pop_task
  pop_none now s s1 e = rw (e, schedule_pop_task) (ap (λ x. (none, x.1)) e)

  pub schedule_pop_task-Popped :
      (base now : ℕ) (s : Schedule) (out : Task)
      → IsOrdered apex base s.tasks
      → (schedule_pop_task apex tree now s).0 ≡ some out
      → Popped base s (schedule_pop_task apex tree now s).1 out
  schedule_pop_task-Popped base now s out o e =
      let s1 = (schedule_get_first_task s).1 in
      elim (Option-cases (schedule_get_first_task s).0) [
        | inl n ↦ let q = pop_none now s s1 (ap (λ x. (x, s1)) n) in cc
        | inr (t, n) ↦
            let first : schedule_get_first_task s ≡ (some t, s1) = ap (λ x. (x, s1)) n in
            elim (Bool-cases (t.flush || leb t.when now)) [
              | inr b ↦ let q = pop_left now s s1 t first b in cc
              | inl b ↦
                  let (same, l, r, p) = get_first-mem s t n in
                  let u = unscheduled-Popped base s s1 l r t same p o in
                  let q = pop_taken now s s1 t first b in
                  let is : record t { flush = false } ≡ out = ground arith in rw (q, ← is) u.1
            ]
      ]

  get_first_twice :
      (s : Schedule)
      → (schedule_get_first_task (schedule_get_first_task s).1).0 ≡ (schedule_get_first_task s).0
  unfolding schedule_get_first_task
  get_first_twice s = ground arith

  -- When nothing is handed out, the first task is not due, also to a caller that looks again.
  pub pop_none_first :
      (base now : ℕ) (s : Schedule)
      → IsOrdered apex base s.tasks
      → (schedule_pop_task apex tree now s).0 ≡ none
      → let s1 = (schedule_get_first_task s).1 in
        ((schedule_pop_task apex tree now s).1 ≡ s1)
        × ((t : Task) → (schedule_get_first_task s1).0 ≡ some t → now < t.when)
  pop_none_first base now s o e =
      let s1 = (schedule_get_first_task s).1 in
      elim (Option-cases (schedule_get_first_task s).0) [
        | inl n ↦ (
          ap (λ x. x.1) (pop_none now s s1 (ap (λ x. (x, s1)) n)),
          λ t q. let twice = get_first_twice s in cc,
        )
        | inr (t, n) ↦
            let first : schedule_get_first_task s ≡ (some t, s1) = ap (λ x. (x, s1)) n in
            elim (Bool-cases (t.flush || leb t.when now)) [
              | inr b ↦ (
                ap (λ x. x.1) (pop_left now s s1 t first b),
                λ u q.
                    let twice = get_first_twice s in
                    let same : u ≡ t = cc in rw same (ground arith),
              )
              | inl b ↦
                  let (same, l, r, p) = get_first-mem s t n in
                  let q = pop_taken now s s1 t first b in
                  let u = (unscheduled-Popped base s s1 l r t same p o).0 in cc
            ]
      ]
