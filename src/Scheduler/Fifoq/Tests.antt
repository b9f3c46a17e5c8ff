-- ===== src/Scheduler/Fifoq/Tests.antt =====
-- Tests and instances for the queue of fifoq.c.
use opendnssec_workflow_test.Common.{◌≡◌, refl, [], ◌∷◌, some, true, arith, replicate, set}
use opendnssec_workflow_test.Scheduler.Fifoq.{
  Fifoq, put, get, pushed, popped, status_ok, assert_err, null, create, wipe, pop, push, run,
  wipe_slots, shift,
}
use opendnssec_workflow_test.Scheduler.Fifoq.Bounded
use opendnssec_workflow_test.Scheduler.Fifoq.Refine.{IsValid, run_refines}

-- Memory as an allocator may return it: full of old pointers.
abbrev garbage : Fifoq
garbage = record { blob = replicate 1000 7; owner = replicate 1000 9; count = 4000 }

abbrev empty : Fifoq
empty = record { blob = replicate 1000 0; owner = replicate 1000 0; count = 0 }

-- Two RRsets, 11 and 12, queued by worker 5.
abbrev busy : Fifoq
busy = record {
  blob = set (set (replicate 1000 0) 0 11) 1 12;
  owner = set (set (replicate 1000 0) 0 5) 1 5;
  count = 2;
}

create-garbage : create true (some garbage) ≡ some empty
unfolding create wipe wipe_slots
create-garbage = refl

busy-IsValid : IsValid busy
busy-IsValid = record { blobs = refl; owners = refl; bounded = omega arith; live = omega arith }

run-busy :
    run busy (put 13 6 ∷ get ∷ get ∷ get ∷ get ∷ put 0 6 ∷ [])
    ≡ pushed status_ok
      ∷ popped 11 5
      ∷ popped 12 5
      ∷ popped 13 6
      ∷ popped null null
      ∷ pushed assert_err
      ∷ []
unfolding run push pop shift
run-busy = refl

full_resets_tries : (push (record busy { count = 1000 }) 13 6 11).tries ≡ 0
unfolding push
full_resets_tries = refl

run_refines_example :
    run busy (get ∷ put 13 6 ∷ []) ≡ Bounded.run ((11, 5) ∷ (12, 5) ∷ []) (get ∷ put 13 6 ∷ [])
run_refines_example = run_refines (get ∷ put 13 6 ∷ []) busy busy-IsValid
