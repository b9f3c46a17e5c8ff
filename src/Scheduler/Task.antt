-- ===== src/Scheduler/Task.antt =====
-- signer/src/scheduler/task.c and task.h: tasks, and the order in which they are scheduled.
-- A zone stands for its apex. `ldns_dname_compare` is a parameter, with the laws of an order.
pub mod Order
use opendnssec_workflow_test.Common.{
  ℕ, ◌+◌, ◌≡◌, ◌↔◌, Bool, Option, none, some, ltb, ◌==◌, if◌then◌else◌,
}
use opendnssec_workflow_test.Common.Int.{ℤ, pos, negsuc, ◌<ℤ◌, int_diff, sub_ℕ}

-- `enum task_id_enum`, and its numbers.
pub data TaskId : Type 0 where
  task_none task_signconf task_read task_nsecify task_sign task_write : TaskId

abbrev pub id : TaskId → ℕ
id task_none = 0
id task_signconf = 1
id task_read = 2
id task_nsecify = 3
id task_sign = 4
id task_write = 5

-- `task_type`. Times are `time_t` values of seconds since the epoch.
pub record Task : Type 0 where
  pub what : TaskId
  pub interrupt : TaskId
  pub halted : TaskId
  pub when : ℕ
  pub halted_when : ℕ
  pub backoff : ℕ
  pub flush : Bool
  pub zone : ℕ

-- `task_create`, for a zone that is not NULL: what the two allocations return is `memory`.
pub task_create : Bool → TaskId → ℕ → ℕ → Option Task
task_create memory what when zone =
    if memory
    then some (record {
      what = what;
      interrupt = task_none;
      halted = task_none;
      when = when;
      halted_when = 0;
      backoff = 0;
      flush = Bool.false;
      zone = zone;
    })
    else none

-- `ldns_dname_compare` on the apexes of two zones: the canonical order of domain names.
pub record ApexOrder : Type 0 where
  pub compare : ℕ → ℕ → ℤ
  pub zero_iff : (a b : ℕ) → (compare a b ≡ pos 0) ↔ (a ≡ b)
  pub flip : (a b : ℕ) → (compare a b <ℤ pos 0) ↔ (pos 0 <ℤ compare b a)
  pub trans : (a b c : ℕ) → compare a b <ℤ pos 0 → compare b c <ℤ pos 0 → compare a c <ℤ pos 0

is_zero : ℤ → Bool
is_zero (pos n) = n == 0
is_zero (negsuc n) = Bool.false

-- `task_compare`: the differences of times and of task numbers are cut to an `int`.
unfoldable pub task_compare : ApexOrder → Task → Task → ℤ
unfolding is_zero
task_compare apex x y =
    if is_zero (apex.compare x.zone y.zone)
    then pos 0
    else if x.when == y.when
    then if id x.what == id y.what
      then apex.compare x.zone y.zone
      else int_diff (id x.what) (id y.what)
    else int_diff x.when y.when
