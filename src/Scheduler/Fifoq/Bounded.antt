-- ===== src/Scheduler/Fifoq/Bounded.antt =====
-- What the queue of fifoq.c promises: a list of at most `max_count` items with their workers,
-- oldest first, which takes no NULL.
use opendnssec_workflow_test.Common.{ℕ, ◌||◌, List, [], ◌∷◌, ◌++◌, leb, ◌==◌, if◌then◌else◌, length}
use opendnssec_workflow_test.Scheduler.Fifoq.{
  Status, status_ok, assert_err, unchanged, Op, put, get, Reply, pushed, popped, null, max_count,
}

abbrev pub Entry : Type 0
Entry = ℕ × ℕ

unfoldable pub push : List Entry → ℕ → ℕ → Status × List Entry
push l item worker =
    if item == null || worker == null
    then (assert_err, l)
    else if leb max_count (length l)
    then (unchanged, l)
    else (status_ok, l ++ (item, worker) ∷ [])

unfoldable pub pop : List Entry → Entry × List Entry
pop [] = ((null, null), [])
pop (e ∷ l) = (e, l)

unfoldable pub run : List Entry → List Op → List Reply
run l [] = []
run l (put item worker ∷ ops) = let (s, l') = push l item worker in pushed s ∷ run l' ops
run l (get ∷ ops) = let (e, l') = pop l in popped e.0 e.1 ∷ run l' ops
