-- ===== src/Daemon/Crew/Balance.antt =====
-- No job of a worker is lost or counted twice, and a worker that finds its jobs done has none left.
use opendnssec_workflow_test.Common.{
  ℕ, ◌+◌, ◌≡◌, refl, sym, ap, ◌∙◌, ◌≢◌, Bool, true, false, List, [], ◌∷◌, ◌++◌, arith, ◌==◌,
  if◌then◌else◌, length,
}
use opendnssec_workflow_test.Scheduler.Fifoq
use opendnssec_workflow_test.Scheduler.Fifoq.{Fifoq, null, push, pop}
use opendnssec_workflow_test.Scheduler.Fifoq.Bounded
use opendnssec_workflow_test.Scheduler.Fifoq.Bounded.{Entry}
use opendnssec_workflow_test.Scheduler.Fifoq.Refine.{
  IsValid, contents, push_refines, pop_refines, push-IsValid, pop-IsValid,
}
use opendnssec_workflow_test.Daemon.Worker.{Jobs, check_jobs}
use opendnssec_workflow_test.Daemon.Crew.{
  Phase, queuing, appointing, testing, asleep, rested, checked, Drudger, idle, signing, counted,
  seen, waking, Crew, alarm, count_for, Drudge, takes, signs, sees, tests, wakes, Step, drudges,
  pushes, gives_up, appoints, has_queued, sleeps, rests_fulfilled, rests_exiting, is_poked,
  is_roused, checks, other_pushes, exits,
}

-- A pushed RRset that is not yet appointed.
abbrev pub in_hand : Phase → ℕ
in_hand (appointing rrsets) = 1
in_hand p = 0

pub in_hand-alarm : (test : Bool) (p : Phase) → in_hand (if test then alarm p else p) ≡ in_hand p
in_hand-alarm false p = refl
in_hand-alarm true (queuing rrsets) = refl
in_hand-alarm true (appointing rrsets) = refl
in_hand-alarm true testing = refl
in_hand-alarm true asleep = refl
in_hand-alarm true rested = refl
in_hand-alarm true (checked s) = refl

-- The RRsets that the worker has yet to queue.
abbrev pub remaining : Phase → ℕ
remaining (queuing rrsets) = length rrsets
remaining (appointing rrsets) = length rrsets
remaining p = 0

remaining-alarm : (test : Bool) (p : Phase) → remaining (if test then alarm p else p) ≡ remaining p
remaining-alarm false p = refl
remaining-alarm true (queuing rrsets) = refl
remaining-alarm true (appointing rrsets) = refl
remaining-alarm true testing = refl
remaining-alarm true asleep = refl
remaining-alarm true rested = refl
remaining-alarm true (checked s) = refl

module _ (me : ℕ) where
  abbrev pub mine : ℕ → ℕ
  mine worker = if worker == me then 1 else 0

  -- The worker's RRsets in the queue, and with drudgers.
  abbrev pub owned : List Entry → ℕ
  owned [] = 0
  owned (e ∷ l) = mine e.1 + owned l

  abbrev pub held_by : Drudger → ℕ
  held_by (signing rrset superior) = mine superior
  held_by d = 0

  abbrev pub held : List Drudger → ℕ
  held [] = 0
  held (d ∷ l) = held_by d + held l

  owned-append : (l m : List Entry) → owned (l ++ m) ≡ owned l + owned m
  owned-append [] m = omega arith
  owned-append (e ∷ l) m = omega (arith, owned-append l m)

  pub held-at :
      (l : List Drudger) (d : Drudger) (r : List Drudger)
      → held (l ++ d ∷ r) ≡ held l + held_by d + held r
  held-at [] d r = omega arith
  held-at (e ∷ l) d r = omega (arith, held-at l d r)

  mine_me : mine me ≡ 1
  mine_me = ground arith

  push-owned_ok :
      (l : List Entry) (item worker : ℕ)
      → (Bounded.push l item worker).0 ≡ Fifoq.status_ok
      → owned (Bounded.push l item worker).1 ≡ owned l + mine worker
  unfolding Bounded.push
  push-owned_ok l item worker h = ground (arith, owned-append l ((item, worker) ∷ []))

  push-owned_other :
      (l : List Entry) (item worker : ℕ)
      → worker ≢ me
      → owned (Bounded.push l item worker).1 ≡ owned l
  unfolding Bounded.push
  push-owned_other l item worker h = ground (arith, owned-append l ((item, worker) ∷ []))

  pop-owned :
      (l : List Entry)
      → (Bounded.pop l).0.0 ≢ null
      → owned l ≡ mine (Bounded.pop l).0.1 + owned (Bounded.pop l).1
  unfolding Bounded.pop
  pop-owned [] h = absurd (h refl)
  pop-owned (e ∷ l) h = refl

  held_by_if : (test : Bool) (d : Drudger) → held_by d ≡ 0 → held_by (if test then d else idle) ≡ 0
  held_by_if true d h = h
  held_by_if false d h = refl

  -- Every RRset that was appointed, or is about to be, is counted, in the queue, or with a drudger.
  pub record IsBalanced (c : Crew) : Type 0 where
    pub valid : IsValid c.signq
    pub balance :
        c.jobs.appointed + in_hand c.phase
        ≡ c.jobs.completed + c.jobs.failed + owned (contents c.signq) + held c.drudgers

  pub count_for-balance :
      (superior : ℕ) (success : Bool) (j : Jobs)
      → let j' = count_for me superior success j in
        (j'.completed + j'.failed ≡ j.completed + j.failed + mine superior)
        × (j'.appointed ≡ j.appointed)
        × (j'.need_to_exit ≡ j.need_to_exit)
  count_for-balance superior true j = ground arith
  count_for-balance superior false j = ground arith

  Drudge-balance : {c c' : Crew} → Drudge me c c' → IsBalanced c → IsBalanced c'
  Drudge-balance {c} (takes l r e h) b = record {
    valid = pop-IsValid c.signq null b.valid;
    balance =
        let p = pop_refines c.signq b.valid in
        let w = (pop c.signq null).worker in
        omega (
          arith,
          b.balance,
          pop-owned (contents c.signq) (λ z. h (ap (λ x. x.0.0) p ∙ z)),
          ap (λ x. mine x.0.1) p,
          ap (λ x. owned x.1) p,
          ap held e,
          held-at l idle r,
          held-at l (signing (pop c.signq null).item w) r,
        );
  }
  Drudge-balance {c} (signs l r rrset superior success e) b = record {
    valid = b.valid;
    balance = omega (
      arith,
      b.balance,
      count_for-balance superior success c.jobs,
      ap held e,
      held-at l (signing rrset superior) r,
      held-at l (counted superior) r,
    );
  }
  Drudge-balance {c} (sees l r superior test e h) b = record {
    valid = b.valid;
    balance = omega (
      arith,
      b.balance,
      ap held e,
      held-at l (counted superior) r,
      held-at l (if test then seen superior else idle) r,
      held_by_if test (seen superior) refl,
    );
  }
  Drudge-balance {c} (tests l r superior test e h) b = record {
    valid = b.valid;
    balance = omega (
      arith,
      b.balance,
      ap held e,
      held-at l (seen superior) r,
      held-at l (if test then waking superior else idle) r,
      held_by_if test (waking superior) refl,
    );
  }
  Drudge-balance {c} (wakes l r superior e) b = record {
    valid = b.valid;
    balance = omega (
      arith,
      b.balance,
      ap held e,
      held-at l (waking superior) r,
      held-at l idle r,
      in_hand-alarm (superior == me) c.phase,
    );
  }

  moved :
      (c : Crew) (p : Phase) (sleeping : Bool)
      → in_hand c.phase ≡ in_hand p
      → IsBalanced c
      → IsBalanced (record c { phase = p; sleeping = sleeping })
  moved c p sleeping e b = record { valid = b.valid; balance = omega (arith, b.balance) }

  pub Step-balance : {c c' : Crew} → Step me c c' → IsBalanced c → IsBalanced c'
  Step-balance (drudges c' d) b = Drudge-balance d b
  Step-balance {c} (pushes rrset rrsets tries e h) b =
      let p = push_refines c.signq rrset me tries b.valid in
      record {
        valid = push-IsValid c.signq rrset me tries b.valid;
        balance = omega (
          arith,
          b.balance,
          ap in_hand e,
          push-owned_ok (contents c.signq) rrset me (sym (ap (λ x. x.0) p) ∙ h),
          ap (λ x. owned x.1) p,
          mine_me,
        );
      }
  Step-balance {c} (gives_up rrset rrsets tries e h x) b =
      moved c (queuing rrsets) c.sleeping (ap in_hand e) b
  Step-balance (appoints rrsets e) b = record {
    valid = b.valid;
    balance = omega (arith, b.balance, ap in_hand e);
  }
  Step-balance {c} (has_queued e) b = moved c testing c.sleeping (ap in_hand e) b
  Step-balance {c} (sleeps e x f) b = moved c asleep true (ap in_hand e) b
  Step-balance {c} (rests_fulfilled e f) b = moved c rested c.sleeping (ap in_hand e) b
  Step-balance {c} (rests_exiting e x) b = moved c rested c.sleeping (ap in_hand e) b
  Step-balance {c} (is_poked e) b = moved c testing c.sleeping (ap in_hand e) b
  Step-balance {c} is_roused b = moved c (alarm c.phase) false (sym (in_hand-alarm true c.phase)) b
  Step-balance {c} (checks e) b = moved c (checked (check_jobs c.jobs)) c.sleeping (ap in_hand e) b
  Step-balance {c} (other_pushes rrset worker tries h) b = record {
    valid = push-IsValid c.signq rrset worker tries b.valid;
    balance = omega (
      arith,
      b.balance,
      push-owned_other (contents c.signq) rrset worker h,
      ap (λ x. owned x.1) (push_refines c.signq rrset worker tries b.valid),
    );
  }
  Step-balance exits b = record { valid = b.valid; balance = b.balance }
