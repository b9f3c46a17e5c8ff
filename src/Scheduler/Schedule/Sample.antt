-- ===== src/Scheduler/Schedule/Sample.antt =====
-- Sample schedules: zones are numbered in the order of their apexes, and the tree is the ordered list.
use opendnssec_workflow_test.Common.{ℕ, ◌≡◌, ◌↔◌, refl, some, none, true, false, [], ◌∷◌, arith}
use opendnssec_workflow_test.Common.Int.{pos, ◌<ℤ◌, sub_ℕ, int_diff}
use opendnssec_workflow_test.Scheduler.Task.{
  TaskId, task_none, task_read, task_sign, Task, ApexOrder, task_compare,
}
use opendnssec_workflow_test.Scheduler.Rbtree.{Rbtree}
use opendnssec_workflow_test.Scheduler.Rbtree.Linear.{linear, delete}
use opendnssec_workflow_test.Scheduler.Schedule.{
  Schedule, schedule_pop_task, schedule_get_first_task, unschedule_task, head,
}
use opendnssec_workflow_test.Scheduler.Schedule.Order.{IsOrdered}

pub numbered_zero : (a b : ℕ) → (sub_ℕ a b ≡ pos 0) ↔ (a ≡ b)
numbered_zero a b = (λ h. ground arith, λ h. ground arith)

pub numbered_flip : (a b : ℕ) → (sub_ℕ a b <ℤ pos 0) ↔ (pos 0 <ℤ sub_ℕ b a)
numbered_flip a b = (λ h. ground arith, λ h. ground arith)

pub numbered_trans : (a b c : ℕ) → sub_ℕ a b <ℤ pos 0 → sub_ℕ b c <ℤ pos 0 → sub_ℕ a c <ℤ pos 0
numbered_trans a b c h k = ground arith

abbrev pub numbered : ApexOrder
numbered = record {
  compare = sub_ℕ;
  zero_iff = numbered_zero;
  flip = numbered_flip;
  trans = numbered_trans;
}

abbrev pub tree : Rbtree (task_compare numbered)
tree = linear (task_compare numbered)

abbrev pub job : TaskId → ℕ → ℕ → Task
job what when zone = record {
  what = what;
  interrupt = task_none;
  halted = task_none;
  when = when;
  halted_when = 0;
  backoff = 0;
  flush = false;
  zone = zone;
}

-- Zone 1 is to be signed at 100, zone 2 read at 200.
abbrev pub two : Schedule
two = record { tasks = job task_sign 100 1 ∷ job task_read 200 2 ∷ []; flushcount = 0 }

abbrev pub flushed_two : Schedule
flushed_two = record {
  tasks = job task_sign 100 1 ∷ record (job task_read 200 2) { flush = true } ∷ [];
  flushcount = 1;
}

pub two-IsOrdered : IsOrdered numbered 0 two.tasks
two-IsOrdered = omega arith

pub flushed_two-IsOrdered : IsOrdered numbered 0 flushed_two.tasks
flushed_two-IsOrdered = omega arith

-- At 150 the task of zone 1 is due, at 50 none is.
pub pop_late : (schedule_pop_task numbered tree 150 two).0 ≡ some (job task_sign 100 1)
unfolding schedule_pop_task schedule_get_first_task unschedule_task head delete task_compare
    int_diff
pop_late = refl

pub pop_early : (schedule_pop_task numbered tree 50 two).0 ≡ none
unfolding schedule_pop_task schedule_get_first_task head
pop_early = refl
