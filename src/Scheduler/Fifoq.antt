-- ===== src/Scheduler/Fifoq.antt =====
-- signer/src/scheduler/fifoq.c: the queue through which workers hand RRsets to the drudgers.
-- A pointer is a number and NULL is 0. An operation returns the new queue; a broadcast on a
-- condition variable is a flag of its result. Logging and the lock, which the caller holds, are
-- left out, and so is the test that `q` itself is not NULL.
pub mod Bounded
pub mod Refine
mod Tests
use opendnssec_workflow_test.Common.{
  ℕ, zero, suc, ◌+◌, ◌-◌, Bool, true, false, ◌||◌, List, [], ◌∷◌, Option, none, some, leb, ltb,
  ◌==◌, if◌then◌else◌, get_or, set,
}

abbrev pub null : ℕ
null = 0

-- `FIFOQ_MAX_COUNT` and `FIFOQ_TRIES_COUNT`
abbrev pub max_count : ℕ
max_count = 1000

abbrev pub tries_count : ℕ
tries_count = 10

-- `fifoq_type`: the two arrays, of `max_count` entries, and the number of entries in use.
pub record Fifoq : Type 0 where
  pub blob : List ℕ
  pub owner : List ℕ
  pub count : ℕ

-- The loop of `fifoq_wipe`, from index `i` on.
wipe_slots : ℕ → ℕ → Fifoq → Fifoq
wipe_slots zero i q = q
wipe_slots (suc n) i q =
    wipe_slots n (suc i) (record q { blob = set q.blob i null; owner = set q.owner i null })

pub wipe : Fifoq → Fifoq
wipe q = record (wipe_slots max_count 0 q) { count = 0 }

-- `fifoq_create`: whether an allocator is given, and what its `allocator_alloc` returns.
pub create : Bool → Option Fifoq → Option Fifoq
create false memory = none
create true none = none
create true (some memory) = some (wipe memory)

-- The loop of `fifoq_pop`, from index `i` on.
unfoldable pub shift : ℕ → ℕ → Fifoq → Fifoq
shift zero i q = q
shift (suc n) i q = shift n (suc i) (record q {
  blob = set q.blob i (get_or q.blob (suc i) null);
  owner = set q.owner i (get_or q.owner (suc i) null);
})

-- What `fifoq_pop` returns, what it leaves in `*worker`, and whether it broadcasts `q_nonfull`.
pub record Popped : Type 0 where
  pub item : ℕ
  pub worker : ℕ
  pub queue : Fifoq
  pub nonfull : Bool

unfoldable pub pop : Fifoq → ℕ → Popped
pop q worker =
    if leb q.count 0
    then record { item = null; worker = worker; queue = q; nonfull = false }
    else record {
      item = get_or q.blob 0 null;
      worker = get_or q.owner 0 null;
      queue = record (shift (q.count - 1) 0 q) { count = q.count - 1 };
      nonfull = leb (q.count - 1) 100;
    }

-- The `ods_status` values that `fifoq_push` returns.
pub data Status : Type 0 where
  status_ok assert_err unchanged : Status

-- The status, what `*tries` becomes, and whether `q_threshold` is broadcast.
pub record Pushed : Type 0 where
  pub status : Status
  pub queue : Fifoq
  pub tries : ℕ
  pub threshold : Bool

unfoldable pub push : Fifoq → ℕ → ℕ → ℕ → Pushed
push q item worker tries =
    if item == null || worker == null
    then record { status = assert_err; queue = q; tries = tries; threshold = false }
    else if leb max_count q.count
    then record {
      status = unchanged;
      queue = q;
      tries = if ltb tries_count tries then 0 else tries;
      threshold = ltb tries_count tries;
    }
    else record {
      status = status_ok;
      queue = record q {
        blob = set q.blob q.count item;
        owner = set q.owner q.count worker;
        count = q.count + 1;
      };
      tries = tries;
      threshold = q.count + 1 == 1;
    }

-- The calls that the threads make on the queue, in the order in which they take its lock.
pub data Op : Type 0 where
  put : ℕ → ℕ → Op
  get : Op

-- What a call returns: the status of a push, or the item and the worker of a pop.
pub data Reply : Type 0 where
  pushed : Status → Reply
  popped : ℕ → ℕ → Reply

pub run : Fifoq → List Op → List Reply
run q [] = []
run q (put item worker ∷ ops) = let r = push q item worker 0 in pushed r.status ∷ run r.queue ops
run q (get ∷ ops) = let r = pop q null in popped r.item r.worker ∷ run r.queue ops
