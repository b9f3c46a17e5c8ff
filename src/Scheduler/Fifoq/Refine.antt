-- ===== src/Scheduler/Fifoq/Refine.antt =====
-- The array queue of fifoq.c behaves as a bounded list of items with their workers.
use opendnssec_workflow_test.Common.{
  ℕ, zero, suc, ◌+◌, ◌-◌, ◌≤◌, ◌<◌, ◌≡◌, refl, ap, ◌≢◌, List, [], ◌∷◌, ◌++◌, arith, length, get_or,
  set, take, shift_down, All, All-append, length-set, length-take, length-shift_down,
  take-shift_down, take-set_end, ◌↔◌, true, some,
}
use native.Mathlib.Numerals.{add-one}
use native.Mathlib.Decide.{dec_lt}
use mathlib.Core.Path.{subst}
use opendnssec_workflow_test.Scheduler.Fifoq.{
  Fifoq, Op, put, get, null, max_count, wipe_slots, shift, pop, push, run, wipe, create,
}
use opendnssec_workflow_test.Scheduler.Fifoq.Bounded
use opendnssec_workflow_test.Scheduler.Fifoq.Bounded.{Entry}

abbrev pub pairs : List ℕ → List ℕ → List Entry
pairs [] os = []
pairs (b ∷ bs) [] = []
pairs (b ∷ bs) (o ∷ os) = (b, o) ∷ pairs bs os

pairs-append :
    (bs os : List ℕ) (b o : ℕ)
    → length bs ≡ length os
    → pairs (bs ++ b ∷ []) (os ++ o ∷ []) ≡ pairs bs os ++ (b, o) ∷ []
pairs-append [] [] b o h = refl
pairs-append [] (y ∷ os) b o h = absurd (omega arith)
pairs-append (x ∷ bs) [] b o h = absurd (omega arith)
pairs-append (x ∷ bs) (y ∷ os) b o h = ap (λ t. (x, y) ∷ t) (pairs-append bs os b o (omega arith))

length-pairs : (bs os : List ℕ) → length bs ≡ length os → length (pairs bs os) ≡ length bs
length-pairs [] os h = refl
length-pairs (x ∷ bs) [] h = absurd (omega arith)
length-pairs (x ∷ bs) (y ∷ os) h = ap suc (length-pairs bs os (omega arith))

-- The entries in use, oldest first.
abbrev pub contents : Fifoq → List Entry
contents q = pairs (take q.count q.blob) (take q.count q.owner)

-- Neither pointer of an entry is NULL.
abbrev pub IsLive : Entry → Type 0
IsLive e = (e.0 ≢ null) × (e.1 ≢ null)

-- The arrays have their declared size, the count stays within it, and no entry in use is NULL.
pub record IsValid (q : Fifoq) : Type 0 where
  pub blobs : length q.blob ≡ max_count
  pub owners : length q.owner ≡ max_count
  pub bounded : q.count ≤ max_count
  pub live : All IsLive (contents q)

length-contents : {q : Fifoq} → IsValid q → length (contents q) ≡ q.count
length-contents {q} v = omega (
  arith,
  length-pairs (take q.count q.blob) (take q.count q.owner),
  length-take q.count q.blob,
  length-take q.count q.owner,
  v.blobs,
)

contents-push :
    (q : Fifoq) (item worker : ℕ)
    → IsValid q
    → q.count < max_count
    → pairs
        (take (q.count + 1) (set q.blob q.count item))
        (take (q.count + 1) (set q.owner q.count worker))
      ≡ contents q ++ (item, worker) ∷ []
contents-push q item worker v h =
    rw
      (
        add-one,
        take-set_end q.count item q.blob (omega arith),
        take-set_end q.count worker q.owner (omega arith),
      )
      (pairs-append (take q.count q.blob) (take q.count q.owner) item worker
        (omega (arith, length-take q.count q.blob, length-take q.count q.owner)))

shift_blob : (n i : ℕ) (q : Fifoq) → (shift n i q).blob ≡ shift_down n i null q.blob
unfolding shift
shift_blob zero i q = refl
shift_blob (suc n) i q = shift_blob n (suc i) _

shift_owner : (n i : ℕ) (q : Fifoq) → (shift n i q).owner ≡ shift_down n i null q.owner
unfolding shift
shift_owner zero i q = refl
shift_owner (suc n) i q = shift_owner n (suc i) _

-- The entries left by the loop of `pop` are those behind the first.
contents-shift :
    (n : ℕ) (bs os : List ℕ)
    → suc n ≤ length bs
    → suc n ≤ length os
    → pairs (take (suc n) bs) (take (suc n) os)
      ≡ (get_or bs 0 null, get_or os 0 null)
        ∷ pairs (take n (shift_down n 0 null bs)) (take n (shift_down n 0 null os))
contents-shift n [] os h k = absurd (omega arith)
contents-shift n (b ∷ bs) [] h k = absurd (omega arith)
contents-shift n (b ∷ bs) (o ∷ os) h k =
    rw (take-shift_down n null b bs (omega arith), take-shift_down n null o os (omega arith))

pop-cons :
    (q : Fifoq) (worker : ℕ)
    → IsValid q
    → 0 < q.count
    → contents q ≡ ((pop q worker).item, (pop q worker).worker) ∷ contents (pop q worker).queue
unfolding pop
pop-cons q worker v h = ground (
  arith,
  shift_blob (q.count - 1) 0 q,
  shift_owner (q.count - 1) 0 q,
  contents-shift (q.count - 1) q.blob q.owner,
)

pop-empty : (q : Fifoq) (worker : ℕ) → q.count ≡ 0 → (pop q worker).queue ≡ q
unfolding pop
pop-empty q worker h = ground arith

pop_shape :
    (q : Fifoq) (worker : ℕ)
    → IsValid q
    → (length (pop q worker).queue.blob ≡ max_count)
      × (length (pop q worker).queue.owner ≡ max_count)
      × ((pop q worker).queue.count ≡ q.count - 1)
unfolding pop
pop_shape q worker v = ground (
  arith,
  shift_blob (q.count - 1) 0 q,
  shift_owner (q.count - 1) 0 q,
  length-shift_down (q.count - 1) 0 null q.blob,
  length-shift_down (q.count - 1) 0 null q.owner,
)

-- `fifoq_pop` keeps the queue valid.
pub pop-IsValid : (q : Fifoq) (worker : ℕ) → IsValid q → IsValid (pop q worker).queue
pop-IsValid q worker v = elim (dec_lt 0 q.count) [
  | yes h ↦ record {
    blobs = (pop_shape q worker v).0;
    owners = (pop_shape q worker v).1;
    bounded = omega (arith, pop_shape q worker v);
    live = (subst (All IsLive) (pop-cons q worker v h) v.live).1;
  }
  | no h ↦ rw (pop-empty q worker (omega arith)) v
]

-- `fifoq_push` keeps the queue valid.
pub push-IsValid :
    (q : Fifoq) (item worker tries : ℕ) → IsValid q → IsValid (push q item worker tries).queue
unfolding push
push-IsValid q item worker tries v = ground (
  arith,
  contents-push q item worker v,
  length-set q.blob q.count item,
  length-set q.owner q.count worker,
  All-append IsLive (contents q) ((item, worker) ∷ []),
)

-- `fifoq_push` answers as the bounded list does, and leaves the queue holding that list.
pub push_refines :
    (q : Fifoq) (item worker tries : ℕ)
    → IsValid q
    → let r = push q item worker tries in
      (r.status, contents r.queue) ≡ Bounded.push (contents q) item worker
unfolding push Bounded.push
push_refines q item worker tries v =
    ground (arith, contents-push q item worker v, length-contents v)

pop_none :
    (q : Fifoq) (worker : ℕ)
    → q.count ≡ 0
    → ((pop q worker).item ≡ null) × ((pop q worker).worker ≡ worker)
unfolding pop
pop_none q worker h = ground arith

contents-empty : (q : Fifoq) → q.count ≡ 0 → contents q ≡ []
contents-empty q h = rw h

-- `fifoq_pop` answers as the bounded list does: it returns the oldest item and its worker and
-- leaves the others in order, and it returns NULL on the empty queue.
pub pop_refines :
    (q : Fifoq)
    → IsValid q
    → let r = pop q null in ((r.item, r.worker), contents r.queue) ≡ Bounded.pop (contents q)
unfolding Bounded.pop
pop_refines q v = elim (dec_lt 0 q.count) [
  | yes h ↦ rw (pop-cons q null v h)
  | no h ↦ rw (
    pop-empty q null (omega arith),
    contents-empty q (omega arith),
    (pop_none q null (omega arith)).0,
    (pop_none q null (omega arith)).1,
  )
]

-- On a valid queue `fifoq_pop` returns NULL exactly when the queue is empty.
pop-eq-null_iff :
    (q : Fifoq) (worker : ℕ) → IsValid q → ((pop q worker).item ≡ null) ↔ (q.count ≡ 0)
pop-eq-null_iff q worker v = (
  λ e. elim (dec_lt 0 q.count) [
    | yes h ↦ absurd ((subst (All IsLive) (pop-cons q worker v h) v.live).0.0 e)
    | no h ↦ omega arith
  ],
  λ e. (pop_none q worker e).0,
)

-- Whatever calls the workers and drudgers make, and in whatever order they get the lock, a valid
-- queue answers as the bounded list of its contents does.
pub run_refines : (ops : List Op) (q : Fifoq) → IsValid q → run q ops ≡ Bounded.run (contents q) ops
unfolding run Bounded.run
run_refines [] q v = refl
run_refines (put item worker ∷ ops) q v = rw (
  run_refines ops (push q item worker 0).queue (push-IsValid q item worker 0 v),
  ← push_refines q item worker 0 v,
)
run_refines (get ∷ ops) q v =
    rw (run_refines ops (pop q null).queue (pop-IsValid q null v), ← pop_refines q v)

wipe_slots_shape :
    (n i : ℕ) (q : Fifoq)
    → (length (wipe_slots n i q).blob ≡ length q.blob)
      × (length (wipe_slots n i q).owner ≡ length q.owner)
unfolding wipe_slots
wipe_slots_shape zero i q = (refl, refl)
wipe_slots_shape (suc n) i q = omega (
  arith,
  wipe_slots_shape n (suc i) (record q { blob = set q.blob i null; owner = set q.owner i null }),
  length-set q.blob i null,
  length-set q.owner i null,
)

-- When the allocator hands out memory of the right size, whatever it holds, the queue that
-- `fifoq_create` returns is valid and empty.
create-IsValid :
    (memory q : Fifoq)
    → length memory.blob ≡ max_count
    → length memory.owner ≡ max_count
    → create true (some memory) ≡ some q
    → IsValid q × (contents q ≡ [])
unfolding create wipe
create-IsValid memory q hb ho e = ground (arith, wipe_slots_shape max_count 0 memory)
