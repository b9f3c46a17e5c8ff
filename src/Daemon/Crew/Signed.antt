-- ===== src/Daemon/Crew/Signed.antt =====
-- When `worker_check_jobs` accepts, every RRset of the zone was signed.
use opendnssec_workflow_test.Common.{
  ℕ, ◌+◌, ◌<◌, ◌≡◌, refl, sym, ap, ◌∙◌, ◌⊎◌, inl, inr, Bool, true, false, List, arith, ◌==◌,
  if◌then◌else◌, length, Bool-cases,
}
use opendnssec_workflow_test.Scheduler.Fifoq.{Fifoq}
use opendnssec_workflow_test.Scheduler.Fifoq.Refine.{IsValid, contents}
use opendnssec_workflow_test.Daemon.Worker.{
  Status, status_ok, unchanged, xfr_not_ready, status_err, check_jobs,
}
use opendnssec_workflow_test.Daemon.Worker.Laws.{check_jobs_iff}
use opendnssec_workflow_test.Daemon.Crew.{
  Domain, zone_rrsets, Phase, queuing, appointing, testing, asleep, rested, checked, Drudger,
  signing, Crew, start, alarm, Drudge, takes, signs, sees, tests, wakes, Step, drudges, pushes,
  gives_up, appoints, has_queued, sleeps, rests_fulfilled, rests_exiting, is_poked, is_roused,
  checks, other_pushes, exits, Reach, here, next,
}
use opendnssec_workflow_test.Daemon.Crew.Balance.{
  in_hand, in_hand-alarm, owned, held, held-at, IsBalanced, count_for-balance, Step-balance,
}

-- The RRsets that the worker has yet to queue.
abbrev remaining : Phase → ℕ
remaining (queuing rrsets) = length rrsets
remaining (appointing rrsets) = length rrsets
remaining p = 0

-- Behind the sleep, and behind a check that accepted.
abbrev IsRested : Phase → Type 0
IsRested rested = Unit
IsRested p = ⊥

abbrev IsAccepted : Phase → Type 0
IsAccepted (checked status_ok) = Unit
IsAccepted p = ⊥

remaining-alarm : (test : Bool) (p : Phase) → remaining (if test then alarm p else p) ≡ remaining p
remaining-alarm false p = refl
remaining-alarm true (queuing rrsets) = refl
remaining-alarm true (appointing rrsets) = refl
remaining-alarm true testing = refl
remaining-alarm true asleep = refl
remaining-alarm true rested = refl
remaining-alarm true (checked s) = refl

IsRested-alarm : (test : Bool) (p : Phase) → IsRested (if test then alarm p else p) → IsRested p
IsRested-alarm false p q = q
IsRested-alarm true rested q = q
IsRested-alarm true (queuing rs) q = elim q [ ]
IsRested-alarm true (appointing rs) q = elim q [ ]
IsRested-alarm true testing q = elim q [ ]
IsRested-alarm true asleep q = elim q [ ]
IsRested-alarm true (checked s) q = elim q [ ]

IsAccepted-alarm :
    (test : Bool) (p : Phase) → IsAccepted (if test then alarm p else p) → IsAccepted p
IsAccepted-alarm false p q = q
IsAccepted-alarm true (checked s) q = q
IsAccepted-alarm true (queuing rs) q = elim q [ ]
IsAccepted-alarm true (appointing rs) q = elim q [ ]
IsAccepted-alarm true testing q = elim q [ ]
IsAccepted-alarm true asleep q = elim q [ ]
IsAccepted-alarm true rested q = elim q [ ]

accepted-eq : (s : Status) → IsAccepted (checked s) → s ≡ status_ok
accepted-eq status_ok q = refl
accepted-eq unchanged q = elim q [ ]
accepted-eq xfr_not_ready q = elim q [ ]
accepted-eq status_err q = elim q [ ]

-- A worker at rest, or behind an accepting check, has nothing in its hand.
rested-in_hand : (p : Phase) → IsRested p ⊎ IsAccepted p → in_hand p ≡ 0
rested-in_hand (appointing rrsets) (inl q) = elim q [ ]
rested-in_hand (appointing rrsets) (inr q) = elim q [ ]
rested-in_hand (queuing rrsets) q = refl
rested-in_hand testing q = refl
rested-in_hand asleep q = refl
rested-in_hand rested q = refl
rested-in_hand (checked s) q = refl

module _ (me : ℕ) where
  -- What the worker knows of its jobs: until it is asked to exit, all RRsets of the zone, `total`, are
  -- appointed or still to come; its rest means that all are done; and a check accepts when all are
  -- signed.
  record IsPlanned (total : ℕ) (c : Crew) : Type 0 where
    balanced : IsBalanced me c
    planned :
        c.jobs.need_to_exit ≡ false → c.jobs.appointed + in_hand c.phase + remaining c.phase ≡ total
    done :
        IsRested c.phase
        → c.jobs.need_to_exit ≡ false
        → c.jobs.completed + c.jobs.failed ≡ c.jobs.appointed
    accepted :
        IsAccepted c.phase
        → (c.jobs.completed ≡ total) × (c.jobs.failed ≡ 0) × (c.jobs.appointed ≡ total)

  -- What a drudger's step keeps: the plan, and the counters too unless it held a job.
  record Keeps (c c' : Crew) : Type 0 where
    appointed : c'.jobs.appointed ≡ c.jobs.appointed
    exit : c'.jobs.need_to_exit ≡ c.jobs.need_to_exit
    in_hand_same : in_hand c'.phase ≡ in_hand c.phase
    remaining_same : remaining c'.phase ≡ remaining c.phase
    rested_before : IsRested c'.phase → IsRested c.phase
    accepted_before : IsAccepted c'.phase → IsAccepted c.phase
    counts :
        ((c'.jobs.completed ≡ c.jobs.completed) × (c'.jobs.failed ≡ c.jobs.failed))
        ⊎ (0 < held me c.drudgers)

  unmoved :
      {c : Crew} {signq : Fifoq} {drudgers : List Drudger}
      → Keeps c (record c { signq = signq; drudgers = drudgers })
  unmoved = record {
    appointed = refl;
    exit = refl;
    in_hand_same = refl;
    remaining_same = refl;
    rested_before = λ q. q;
    accepted_before = λ q. q;
    counts = inl (refl, refl);
  }

  Drudge-Keeps : {c c' : Crew} → Drudge me c c' → Keeps c c'
  Drudge-Keeps (takes l r e h) = unmoved
  Drudge-Keeps {c} (signs l r rrset superior success e) =
      let (k, a, x) = count_for-balance me superior success c.jobs in
      record {
        appointed = a;
        exit = x;
        in_hand_same = refl;
        remaining_same = refl;
        rested_before = λ q. q;
        accepted_before = λ q. q;
        counts = elim (Bool-cases (superior == me)) [
          | inl same ↦ inr (ground (arith, ap (held me) e, held-at me l (signing rrset superior) r))
          | inr other ↦ inl (ground arith)
        ];
      }
  Drudge-Keeps (sees l r superior test e h) = unmoved
  Drudge-Keeps (tests l r superior test e h) = unmoved
  Drudge-Keeps {c} (wakes l r superior e) = record {
    appointed = refl;
    exit = refl;
    in_hand_same = in_hand-alarm (superior == me) c.phase;
    remaining_same = remaining-alarm (superior == me) c.phase;
    rested_before = IsRested-alarm (superior == me) c.phase;
    accepted_before = IsAccepted-alarm (superior == me) c.phase;
    counts = inl (refl, refl);
  }

  Keeps-IsPlanned :
      {total : ℕ} {c c' : Crew}
      → Keeps c c'
      → IsBalanced me c'
      → IsPlanned total c
      → IsPlanned total c'
  Keeps-IsPlanned {total} {c} k b v = record {
    balanced = b;
    planned = λ x.
        omega (arith, v.planned (sym k.exit ∙ x), k.appointed, k.in_hand_same, k.remaining_same);
    done = λ p x. omega (
      arith,
      v.done (k.rested_before p) (sym k.exit ∙ x),
      v.balanced.balance,
      k.appointed,
      k.counts,
      rested-in_hand c.phase (inl (k.rested_before p)),
    );
    accepted = λ p. omega (
      arith,
      v.accepted (k.accepted_before p),
      v.balanced.balance,
      k.appointed,
      k.counts,
      rested-in_hand c.phase (inr (k.accepted_before p)),
    );
  }

  -- A step of the worker that ends neither at rest nor behind a check.
  busy :
      {total : ℕ} {c c' : Crew}
      → IsBalanced me c'
      → c'.jobs.need_to_exit ≡ c.jobs.need_to_exit
      → (IsRested c'.phase → ⊥)
      → (IsAccepted c'.phase → ⊥)
      → c'.jobs.appointed + in_hand c'.phase + remaining c'.phase
        ≡ c.jobs.appointed + in_hand c.phase + remaining c.phase
      → IsPlanned total c
      → IsPlanned total c'
  busy b exit r a e v = record {
    balanced = b;
    planned = λ x. e ∙ v.planned (sym exit ∙ x);
    done = λ q x. absurd (r q);
    accepted = λ q. absurd (a q);
  }

  Step-IsPlanned : {total : ℕ} {c c' : Crew} → Step me c c' → IsPlanned total c → IsPlanned total c'
  Step-IsPlanned {total} {c} (drudges c' d) v =
      Keeps-IsPlanned (Drudge-Keeps d) (Step-balance me (drudges c' d) v.balanced) v
  Step-IsPlanned (pushes rrset rrsets tries e h) v =
      busy (Step-balance me (pushes rrset rrsets tries e h) v.balanced) refl (λ q. q) (λ q. q)
        (omega (arith, ap in_hand e, ap remaining e)) v
  Step-IsPlanned (gives_up rrset rrsets tries e h x) v = record {
    balanced = Step-balance me (gives_up rrset rrsets tries e h x) v.balanced;
    planned = λ y. cc;
    done = λ q x. elim q [ ];
    accepted = λ q. elim q [ ];
  }
  Step-IsPlanned (appoints rrsets e) v =
      busy (Step-balance me (appoints rrsets e) v.balanced) refl (λ q. q) (λ q. q)
        (omega (arith, ap in_hand e, ap remaining e)) v
  Step-IsPlanned (has_queued e) v =
      busy (Step-balance me (has_queued e) v.balanced) refl (λ q. q) (λ q. q)
        (omega (arith, ap in_hand e, ap remaining e)) v
  Step-IsPlanned (sleeps e x f) v =
      busy (Step-balance me (sleeps e x f) v.balanced) refl (λ q. q) (λ q. q)
        (omega (arith, ap in_hand e, ap remaining e)) v
  Step-IsPlanned (rests_fulfilled e f) v = record {
    balanced = Step-balance me (rests_fulfilled e f) v.balanced;
    planned = λ x. omega (arith, v.planned x, ap in_hand e, ap remaining e);
    done = λ q x. ground arith;
    accepted = λ q. elim q [ ];
  }
  Step-IsPlanned (rests_exiting e x) v = record {
    balanced = Step-balance me (rests_exiting e x) v.balanced;
    planned = λ y. cc;
    done = λ q y. cc;
    accepted = λ q. elim q [ ];
  }
  Step-IsPlanned (is_poked e) v =
      busy (Step-balance me (is_poked e) v.balanced) refl (λ q. q) (λ q. q)
        (omega (arith, ap in_hand e, ap remaining e)) v
  Step-IsPlanned {total} {c} is_roused v = record {
    balanced = Step-balance me is_roused v.balanced;
    planned =
        λ x. omega (arith, v.planned x, in_hand-alarm true c.phase, remaining-alarm true c.phase);
    done = λ q x. v.done (IsRested-alarm true c.phase q) x;
    accepted = λ q. v.accepted (IsAccepted-alarm true c.phase q);
  }
  Step-IsPlanned {total} {c} (checks e) v = record {
    balanced = Step-balance me (checks e) v.balanced;
    planned = λ x. omega (arith, v.planned x, ap in_hand e, ap remaining e);
    done = λ q x. elim q [ ];
    accepted = λ q.
        let (failed, completed, exit) =
          (check_jobs_iff c.jobs).0 (accepted-eq (check_jobs c.jobs) q) in
        omega (arith, failed, completed, v.planned exit, ap in_hand e, ap remaining e);
  }
  Step-IsPlanned (other_pushes rrset worker tries h) v = record {
    balanced = Step-balance me (other_pushes rrset worker tries h) v.balanced;
    planned = v.planned;
    done = v.done;
    accepted = v.accepted;
  }
  Step-IsPlanned exits v = record {
    balanced = Step-balance me exits v.balanced;
    planned = λ y. cc;
    done = λ q y. cc;
    accepted = v.accepted;
  }

  Reach-IsPlanned :
      {total : ℕ} {c c' : Crew} → Reach me c c' → IsPlanned total c → IsPlanned total c'
  Reach-IsPlanned here v = v
  Reach-IsPlanned (next r s) v = Step-IsPlanned s (Reach-IsPlanned r v)

  -- No RRset of the worker is in the queue or with a drudger.
  abbrev pub HasNoneLeft : Crew → Type 0
  HasNoneLeft c = (owned me (contents c.signq) ≡ 0) × (held me c.drudgers ≡ 0)

  start-IsPlanned :
      (c : Crew) (domains : List Domain)
      → IsValid c.signq
      → HasNoneLeft c
      → IsPlanned (length (zone_rrsets domains)) (start c domains)
  start-IsPlanned c domains v n = record {
    balanced = record { valid = v; balance = omega (arith, n) };
    planned = λ x. omega arith;
    done = λ q x. elim q [ ];
    accepted = λ q. elim q [ ];
  }

  -- A worker that has none of its RRsets left in a valid queue or with a drudger queues a zone, while
  -- drudgers and other workers run in any order. When `worker_check_jobs` then accepts, as many RRsets
  -- were signed as the zone has, none failed, and none of them is left in the queue or with a drudger.
  pub Reach-signed :
      (c c' : Crew) (domains : List Domain)
      → IsValid c.signq
      → HasNoneLeft c
      → Reach me (start c domains) c'
      → c'.phase ≡ checked status_ok
      → (c'.jobs.completed ≡ length (zone_rrsets domains)) × (c'.jobs.failed ≡ 0) × HasNoneLeft c'
  Reach-signed c c' domains v n r e =
      let w = Reach-IsPlanned r (start-IsPlanned c domains v n) in
      let q : IsAccepted c'.phase = rw e tt in
      omega (arith, w.accepted q, w.balanced.balance, rested-in_hand c'.phase (inr q))

  -- The same start: when the worker leaves `worker_sleep_unless` with no request to exit, none of its
  -- RRsets is left in the queue or with a drudger.
  Reach-rested :
      (c c' : Crew) (domains : List Domain)
      → IsValid c.signq
      → HasNoneLeft c
      → Reach me (start c domains) c'
      → c'.phase ≡ rested
      → c'.jobs.need_to_exit ≡ false
      → HasNoneLeft c' × (c'.jobs.appointed ≡ length (zone_rrsets domains))
  Reach-rested c c' domains v n r e x =
      let w = Reach-IsPlanned r (start-IsPlanned c domains v n) in
      let q : IsRested c'.phase = rw e tt in
      omega (
        arith,
        w.done q x,
        w.planned x,
        w.balanced.balance,
        rested-in_hand c'.phase (inl q),
        ap remaining e,
      )
