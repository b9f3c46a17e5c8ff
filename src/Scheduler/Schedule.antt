-- ===== src/Scheduler/Schedule.antt =====
-- signer/src/scheduler/schedule.c: the schedule of tasks, a tree ordered by `task_compare`.
-- A task in the tree is its value: a pointer that an operation returns is the task, and a write
-- through a node's data changes the list. Logging and the lock, which the caller holds, are left out,
-- and so are the tests that `schedule`, its tree and `task` are not NULL.
pub mod Flush
pub mod Order
pub mod Pop
pub mod Queue
pub mod Sample
mod Tests
use opendnssec_workflow_test.Common.{
  ◌^◌, ◌%◌, ◌&&◌, ℕ, ◌+◌, ◌-◌, Bool, true, false, ◌||◌, not, List, [], ◌∷◌, map, Option, none, some,
  ltb, leb, if◌then◌else◌,
}
use opendnssec_workflow_test.Scheduler.Task.{
  TaskId, task_none, task_signconf, id, Task, ApexOrder, task_compare,
}
use opendnssec_workflow_test.Scheduler.Rbtree.{Rbtree}

-- `schedule_type`; `loading` is not used by the functions of this file.
-- `flushcount` is an `int` there, and here a number below 2 ^ 32 that stands for it: the negative ones
-- are those from 2 ^ 31 on.
pub record Schedule : Type 0 where
  pub tasks : List Task
  pub flushcount : ℕ

-- Its increment, its decrement, and the test `flushcount > 0`.
abbrev pub count_up : ℕ → ℕ
count_up n = (n + 1) % 2 ^ 32

abbrev pub count_down : ℕ → ℕ
count_down n = (n + 2 ^ 32 - 1) % 2 ^ 32

abbrev pub is_positive : ℕ → Bool
is_positive n = ltb 0 n && ltb n (2 ^ 31)

-- The `ods_status` values of this file.
pub data Status : Type 0 where
  status_ok malloc_err status_err : Status

-- `schedule_create`, once its allocations have succeeded.
pub schedule_create : Schedule
schedule_create = record { tasks = []; flushcount = 0 }

is_none : TaskId → Bool
is_none task_none = true
is_none _ = false

-- `schedule_flush`: the loop over the nodes, from the first on.
flush_task : TaskId → Task → Task
unfolding is_none
flush_task override t = record t {
  flush = true;
  what = if is_none override then t.what else override;
}

flush_loop : TaskId → List Task → ℕ → List Task × ℕ
flush_loop override [] n = ([], n)
flush_loop override (t ∷ ts) n =
    let (ts', n') = flush_loop override ts (count_up n) in (flush_task override t ∷ ts', n')

pub schedule_flush : Schedule → TaskId → Schedule
schedule_flush s override =
    let (ts, n) = flush_loop override s.tasks s.flushcount in record { tasks = ts; flushcount = n }

-- The first task of the tree that is marked, in order.
pub first_flush : List Task → Option Task
first_flush [] = none
first_flush (t ∷ ts) = if t.flush then some t else first_flush ts

pub head : List Task → Option Task
head [] = none
head (t ∷ ts) = some t

-- `schedule_get_first_task`; the first node is absent exactly on the empty tree.
pub schedule_get_first_task : Schedule → Option Task × Schedule
unfolding head
schedule_get_first_task s =
    if is_positive s.flushcount
    then elim (head s.tasks) [
      | none ↦ (none, s)
      | some first ↦ elim (first_flush s.tasks) [
        | some t ↦ (some t, s)
        | none ↦ (some first, record s { flushcount = 0 })
      ]
    ]
    else (head s.tasks, s)

or_else : Option Task → Task → Task
or_else none t = t
or_else (some d) t = d

module _ (apex : ApexOrder) (tree : Rbtree (task_compare apex)) where
  -- `schedule_lookup_task`
  pub schedule_lookup_task : Schedule → Task → Option Task
  schedule_lookup_task s t = tree.search s.tasks t

  -- `schedule_task`; `memory` says whether `task2node` gets its node.
  pub schedule_task : Bool → Schedule → Task → Status × Schedule
  schedule_task memory s t = elim (schedule_lookup_task s t) [
    | some _ ↦ (status_err, s)
    | none ↦
        if memory
        then elim (tree.insert s.tasks t) [
          | none ↦ (status_err, s)
          | some ts ↦ (
            status_ok,
            record {
              tasks = ts;
              flushcount = if t.flush then count_up s.flushcount else s.flushcount;
            },
          )
        ]
        else (malloc_err, s)
  ]

  -- `unschedule_task`
  pub unschedule_task : Schedule → Task → Option Task × Schedule
  unschedule_task s t = elim (tree.delete s.tasks t) [
    | none ↦ (none, s)
    | some (d, ts) ↦
        if d.flush
        then (
          some (record d { flush = false }),
          record { tasks = ts; flushcount = count_down s.flushcount },
        )
        else (some d, record s { tasks = ts })
  ]

  -- `reschedule_task`
  pub reschedule_task : Bool → Schedule → Task → TaskId → ℕ → Status × Schedule
  unfolding or_else
  reschedule_task memory s t what when =
      let (found, s') = unschedule_task s t in
      schedule_task memory s' (record (or_else found t) { what = what; when = when })

  -- `schedule_pop_task` at the time `now`.
  pub schedule_pop_task : ℕ → Schedule → Option Task × Schedule
  schedule_pop_task now s =
      let (first, s') = schedule_get_first_task s in
      elim first [
        | none ↦ (none, s')
        | some t ↦ if t.flush || leb t.when now then unschedule_task s' t else (none, s')
      ]
