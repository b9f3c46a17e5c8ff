-- ===== src/Daemon/Crew/Tests.antt =====
-- Tests and instances for the worker and its drudgers: one drudger signs a zone of two RRsets.
use opendnssec_workflow_test.Common.{
  ◌≡◌, refl, true, false, List, [], ◌∷◌, none, some, replicate, length, arith,
}
use opendnssec_workflow_test.Scheduler.Fifoq.{Fifoq, push, pop, shift}
use opendnssec_workflow_test.Scheduler.Fifoq.Refine.{IsValid}
use opendnssec_workflow_test.Daemon.Worker.{status_ok, check_jobs}
use opendnssec_workflow_test.Daemon.Crew.{
  Domain, zone_rrsets, queuing, asleep, rested, checked, idle, Crew, fulfilled, start, takes, signs,
  drudges, pushes, appoints, has_queued, sleeps, rests_fulfilled, checks, Reach, here, next,
}
use opendnssec_workflow_test.Daemon.Crew.Signed.{HasNoneLeft, Reach-signed}
use opendnssec_workflow_test.Daemon.Crew.Wakeup.{IsWoken, Reach-IsWoken}

abbrev empty : Fifoq
empty = record { blob = replicate 1000 0; owner = replicate 1000 0; count = 0 }

empty-IsValid : IsValid empty
empty-IsValid = record { blobs = refl; owners = refl; bounded = omega arith; live = tt }

abbrev crew : Crew
crew = record {
  signq = empty;
  drudgers = idle ∷ [];
  phase = queuing [];
  jobs = record { appointed = 9; completed = 9; failed = 0; need_to_exit = false };
  sleeping = true;
}

-- One domain with one RRset, 11, and no denial of existence.
abbrev zone : List Domain
zone = record { rrsets = 11 ∷ []; denial = none } ∷ []

denial_queued :
    zone_rrsets (record { rrsets = 11 ∷ 12 ∷ []; denial = some 13 } ∷ zone) ≡ 11 ∷ 12 ∷ 13 ∷ 11 ∷ []
denial_queued = refl

-- The worker queues its RRset and sleeps; the drudger signs it.
slept : (c : Crew) × Reach 5 (start crew zone) c × (c.phase ≡ asleep) × (fulfilled c.jobs ≡ true)
unfolding push pop shift
slept = (
  _,
  next
      (next
        (next
          (next (next (next here (pushes 11 [] 0 refl refl)) (appoints [] refl)) (has_queued refl))
          (sleeps refl refl refl))
        (drudges _ (takes [] [] refl (λ e. cc))))
      (drudges _ (signs [] [] 11 5 true refl)),
  refl,
  refl,
)

-- The drudger is done before the worker looks.
rests :
    (c : Crew) × Reach 5 (start crew zone) c × (c.phase ≡ rested) × (c.jobs.need_to_exit ≡ false)
unfolding push pop shift
rests = (
  _,
  next
      (next
        (next
          (next
            (next (next here (pushes 11 [] 0 refl refl)) (drudges _ (takes [] [] refl (λ e. cc))))
            (appoints [] refl))
          (drudges _ (signs [] [] 11 5 true refl)))
        (has_queued refl))
      (rests_fulfilled refl refl),
  refl,
  refl,
)

accepts : (c : Crew) × Reach 5 (start crew zone) c × (c.phase ≡ checked status_ok)
unfolding rests check_jobs push pop shift
accepts = (_, next rests.1 (checks refl), refl)

none_left : HasNoneLeft 5 crew
none_left = (refl, refl)

Reach-signed_example :
    (accepts.0.jobs.completed ≡ length (zone_rrsets zone))
    × (accepts.0.jobs.failed ≡ 0)
    × HasNoneLeft 5 accepts.0
Reach-signed_example =
    Reach-signed 5 crew accepts.0 zone empty-IsValid none_left accepts.1 accepts.2

Reach-IsWoken_example : IsWoken 5 slept.0
Reach-IsWoken_example = Reach-IsWoken 5 crew slept.0 zone slept.1 slept.2 slept.3
