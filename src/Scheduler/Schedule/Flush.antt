-- ===== src/Scheduler/Schedule/Flush.antt =====
-- The flush marks of schedule.c and their count.
use opendnssec_workflow_test.Common.{
  ℕ, suc, ◌+◌, ◌≤◌, ◌<◌, ◌^◌, ◌≡◌, refl, ap, Bool, true, List, [], ◌∷◌, ◌++◌, none, some, arith,
  if◌then◌else◌, length, inl, inr, Option-cases, Bool-cases,
}
use opendnssec_workflow_test.Scheduler.Task.{TaskId, Task, ApexOrder, task_compare}
use opendnssec_workflow_test.Scheduler.Rbtree.{Rbtree}
use opendnssec_workflow_test.Scheduler.Schedule.{
  Schedule, count_up, count_down, schedule_flush, flush_loop, flush_task, first_flush, head,
  schedule_get_first_task, schedule_task, unschedule_task, reschedule_task, schedule_pop_task,
  or_else, schedule_create,
}

-- The number of marked tasks.
abbrev pub flushed : List Task → ℕ
flushed [] = 0
flushed (t ∷ ts) = (if t.flush then 1 else 0) + flushed ts

flushed-append : (l r : List Task) → flushed (l ++ r) ≡ flushed l + flushed r
flushed-append [] r = omega arith
flushed-append (t ∷ l) r = omega (arith, flushed-append l r)

-- The counter covers the marked tasks.
abbrev pub Counted : Schedule → Type 0
Counted s = flushed s.tasks ≤ s.flushcount

flush_loop-count :
    (w : TaskId) (ts : List Task) (n : ℕ)
    → n + length ts < 2 ^ 32
    → (flushed (flush_loop w ts n).0 ≡ length ts) × ((flush_loop w ts n).1 ≡ n + length ts)
unfolding flush_loop flush_task
flush_loop-count w [] n b = (refl, omega arith)
flush_loop-count w (t ∷ ts) n b =
    let up : count_up n ≡ n + 1 = omega (arith, b) in
    let rest = flush_loop-count w ts (count_up n) (omega (arith, b, up)) in
    (omega (arith, rest), omega (arith, rest, up))

-- Every task can be counted once more, and one more.
abbrev pub HasRoom : Schedule → Type 0
HasRoom s = s.flushcount + suc (length s.tasks) < 2 ^ 31

schedule_flush-Counted : (s : Schedule) (w : TaskId) → HasRoom s → Counted (schedule_flush s w)
unfolding schedule_flush
schedule_flush-Counted s w b =
    omega (arith, flush_loop-count w s.tasks s.flushcount (omega (arith, b)))

no_flush : (ts : List Task) → first_flush ts ≡ none → flushed ts ≡ 0
unfolding first_flush
no_flush [] e = refl
no_flush (t ∷ ts) e = ground (arith, no_flush ts)

pub first_flush_parts :
    (ts : List Task) (t : Task)
    → first_flush ts ≡ some t
    → (l : List Task) × (r : List Task) × (ts ≡ l ++ t ∷ r) × (t.flush ≡ true) × (flushed l ≡ 0)
unfolding first_flush
first_flush_parts [] t e = cc
first_flush_parts (x ∷ ts) t e = elim (Bool-cases x.flush) [
  | inl h ↦ ([], ts, ground arith, ground arith, refl)
  | inr h ↦
      let (l, r, p, q, z) = first_flush_parts ts t (ground arith) in
      (x ∷ l, r, ap (λ k. x ∷ k) p, q, ground arith)
]

schedule_get_first_task-Counted : (s : Schedule) → Counted s → Counted (schedule_get_first_task s).1
unfolding schedule_get_first_task
schedule_get_first_task-Counted s c = ground (arith, no_flush s.tasks)

-- As long as the counter covers the marks and is not negative, `schedule_get_first_task` returns the
-- first marked task if there is one, and the first task of all if there is none; the tasks stay as they are.
pub schedule_get_first_task-flushed :
    (s : Schedule)
    → Counted s
    → (s.flushcount < 2 ^ 31
        → (t : Task) → first_flush s.tasks ≡ some t
        → schedule_get_first_task s ≡ (some t, s))
      × (first_flush s.tasks ≡ none
          → ((schedule_get_first_task s).0 ≡ head s.tasks)
            × ((schedule_get_first_task s).1.tasks ≡ s.tasks))
unfolding schedule_get_first_task
schedule_get_first_task-flushed s c = (λ b t e. marked s t c b e, λ e. (ground arith, ground arith))
  where
    marked :
        (s : Schedule) (t : Task)
        → Counted s
        → s.flushcount < 2 ^ 31
        → first_flush s.tasks ≡ some t
        → schedule_get_first_task s ≡ (some t, s)
    marked s t c b e =
        let (l, r, p, q, z) = first_flush_parts s.tasks t e in
        ground (arith, flushed-append l (t ∷ r))

module _ (apex : ApexOrder) (tree : Rbtree (task_compare apex)) where
  schedule_task-Counted :
      (memory : Bool) (s : Schedule) (t : Task)
      → Counted s
      → s.flushcount + 1 < 2 ^ 32
      → Counted (schedule_task apex tree memory s t).1
  unfolding schedule_task
  schedule_task-Counted memory s t c b = elim (Option-cases (tree.insert s.tasks t)) [
    | inl e ↦ ground arith
    | inr (ts, e) ↦
        let (l, r, p, q) = tree.insert_adds s.tasks t e in
        let up : count_up s.flushcount ≡ s.flushcount + 1 = omega (arith, b) in
        ground (arith, up, flushed-append l r, flushed-append l (t ∷ r))
  ]

  unschedule_task-Counted :
      (s : Schedule) (t : Task)
      → Counted s
      → s.flushcount < 2 ^ 32
      → Counted (unschedule_task apex tree s t).1
        × ((unschedule_task apex tree s t).1.flushcount ≤ s.flushcount)
  unfolding unschedule_task
  unschedule_task-Counted s t c b = elim (Option-cases (tree.delete s.tasks t)) [
    | inl e ↦ (ground arith, ground arith)
    | inr ((d, ts), e) ↦
        let (l, r, p, q) = tree.delete_takes s.tasks t e in
        let down : d.flush ≡ true → count_down s.flushcount + 1 ≡ s.flushcount =
          λ h. ground (arith, b, c, h, p, flushed-append l (d ∷ r)) in
        (ground (arith, down, flushed-append l r, flushed-append l (d ∷ r)), ground (arith, down))
  ]

  reschedule_task-Counted :
      (memory : Bool) (s : Schedule) (t : Task) (what : TaskId) (when : ℕ)
      → Counted s
      → s.flushcount + 1 < 2 ^ 32
      → Counted (reschedule_task apex tree memory s t what when).1
  unfolding reschedule_task
  reschedule_task-Counted memory s t what when c b =
      let u = unschedule_task-Counted s t c (omega (arith, b)) in
      schedule_task-Counted memory (unschedule_task apex tree s t).1
        (record (or_else (unschedule_task apex tree s t).0 t) { what = what; when = when }) u.0
        (omega (arith, b, u.1))

  get_first-small :
      (s : Schedule) → s.flushcount < 2 ^ 32 → (schedule_get_first_task s).1.flushcount < 2 ^ 32
  unfolding schedule_get_first_task
  get_first-small s b = ground (arith, b)

  schedule_pop_task-Counted :
      (now : ℕ) (s : Schedule)
      → Counted s
      → s.flushcount < 2 ^ 32
      → Counted (schedule_pop_task apex tree now s).1
  unfolding schedule_pop_task
  schedule_pop_task-Counted now s c b = elim (Option-cases (schedule_get_first_task s).0) [
    | inl e ↦ ground (arith, schedule_get_first_task-Counted s c)
    | inr (t, e) ↦
        let first = schedule_get_first_task-Counted s c in
        let less : (schedule_get_first_task s).1.flushcount < 2 ^ 32 = get_first-small s b in
        ground
          (arith, first, (unschedule_task-Counted (schedule_get_first_task s).1 t first less).0)
  ]

  -- The calls that the threads make on the schedule, in the order in which they take its lock.
  pub data Step : Schedule → Schedule → Type 0 where
    flushes : (s : Schedule) (w : TaskId) → Step s (schedule_flush s w)
    looks : (s : Schedule) → Step s (schedule_get_first_task s).1
    adds : (s : Schedule) (memory : Bool) (t : Task) → Step s (schedule_task apex tree memory s t).1
    takes : (s : Schedule) (t : Task) → Step s (unschedule_task apex tree s t).1
    moves :
        (s : Schedule) (memory : Bool) (t : Task) (what : TaskId) (when : ℕ)
        → Step s (reschedule_task apex tree memory s t what when).1
    pops : (s : Schedule) (now : ℕ) → Step s (schedule_pop_task apex tree now s).1

  -- The counter is an `int`: each call is made while it has room.
  pub data Reach : Schedule → Type 0 where
    fresh : Reach schedule_create
    next : {s s' : Schedule} → Reach s → Step s s' → HasRoom s → Reach s'

  Step-Counted : {s s' : Schedule} → Step s s' → HasRoom s → Counted s → Counted s'
  Step-Counted (flushes s w) b c = schedule_flush-Counted s w b
  Step-Counted (looks s) b c = schedule_get_first_task-Counted s c
  Step-Counted (adds s memory t) b c = schedule_task-Counted memory s t c (omega (arith, b))
  Step-Counted (takes s t) b c = (unschedule_task-Counted s t c (omega (arith, b))).0
  Step-Counted (moves s memory t what when) b c =
      reschedule_task-Counted memory s t what when c (omega (arith, b))
  Step-Counted (pops s now) b c = schedule_pop_task-Counted now s c (omega (arith, b))

  -- In every schedule that the calls of `Reach` lead to, each made while the flush counter, an `int`, and
  -- the number of tasks are together below 2 ^ 31 - 1 (each flush counts every task, those already
  -- marked again), the counter is at least the number of marked tasks.
  pub Reach-Counted : {s : Schedule} → Reach s → Counted s
  unfolding schedule_create
  Reach-Counted fresh = omega arith
  Reach-Counted (next r st b) = Step-Counted st b (Reach-Counted r)
