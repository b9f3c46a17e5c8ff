-- ===== src/Daemon/Crew/Wakeup.antt =====
-- A worker that sleeps in `worker_sleep_unless` while its jobs are done is woken by a drudger.
use opendnssec_workflow_test.Common.{
  ℕ, ◌+◌, ◌<◌, ◌≡◌, refl, sym, ap, ◌∙◌, ◌≢◌, inl, inr, Bool, true, false, List, [], ◌∷◌, ◌++◌,
  arith, ◌==◌, if◌then◌else◌, Bool-cases, ==_iff,
}
use native.Mathlib.Decide.{ℕ_discrete}
use opendnssec_workflow_test.Scheduler.Fifoq.{null, pop}
use opendnssec_workflow_test.Daemon.Crew.{
  Domain, Phase, queuing, appointing, testing, asleep, rested, checked, Drudger, idle, signing,
  counted, seen, waking, Crew, fulfilled, start, alarm, Drudge, takes, signs, sees, tests, wakes,
  Step, drudges, pushes, gives_up, appoints, has_queued, sleeps, rests_fulfilled, rests_exiting,
  is_poked, is_roused, checks, other_pushes, exits, Reach, here, next,
}
use opendnssec_workflow_test.Daemon.Crew.Balance.{mine}

abbrev IsAsleep : Phase → Type 0
IsAsleep asleep = Unit
IsAsleep p = ⊥

not-asleep-alarm : (p : Phase) → IsAsleep (alarm p) → ⊥
not-asleep-alarm (queuing rrsets) q = q
not-asleep-alarm (appointing rrsets) q = q
not-asleep-alarm testing q = q
not-asleep-alarm asleep q = q
not-asleep-alarm rested q = q
not-asleep-alarm (checked s) q = q

module _ (me : ℕ) where
  -- The drudgers that have counted a job of the worker and have yet to look whether to wake it.
  abbrev wakes_me : Drudger → ℕ
  wakes_me (counted superior) = mine me superior
  wakes_me (seen superior) = mine me superior
  wakes_me (waking superior) = mine me superior
  wakes_me d = 0

  abbrev wakers : List Drudger → ℕ
  wakers [] = 0
  wakers (d ∷ l) = wakes_me d + wakers l

  wakers-at :
      (l : List Drudger) (d d' : Drudger) (r : List Drudger)
      → wakers (l ++ d' ∷ r) + wakes_me d ≡ wakers (l ++ d ∷ r) + wakes_me d'
  wakers-at [] d d' r = omega arith
  wakers-at (e ∷ l) d d' r = omega (arith, wakers-at l d d' r)

  wakes_me-if :
      (test : Bool) (d : Drudger) → test ≡ true → wakes_me (if test then d else idle) ≡ wakes_me d
  wakes_me-if true d h = refl
  wakes_me-if false d h = cc

  mine_self : (worker : ℕ) → worker ≡ me → mine me worker ≡ 1
  mine_self worker h = ground arith

  mine_other : (worker : ℕ) → worker ≢ me → mine me worker ≡ 0
  mine_other worker h = ground arith

  -- A sleeping worker says so, and is being woken if its jobs are done.
  record IsWatched (c : Crew) : Type 0 where
    says : IsAsleep c.phase → c.sleeping ≡ true
    watched : IsAsleep c.phase → fulfilled c.jobs ≡ true → 0 < wakers c.drudgers

  awake : {c : Crew} → (IsAsleep c.phase → ⊥) → IsWatched c
  awake n = record { says = λ q. absurd (n q); watched = λ q f. absurd (n q) }

  Drudge-IsWatched : {c c' : Crew} → Drudge me c c' → IsWatched c → IsWatched c'
  Drudge-IsWatched {c} (takes l r e h) v =
      let d = signing (pop c.signq null).item (pop c.signq null).worker in
      record {
        says = v.says;
        watched = λ q f. omega (arith, v.watched q f, ap wakers e, wakers-at l idle d r);
      }
  Drudge-IsWatched {c} (signs l r rrset superior success e) v = record {
    says = v.says;
    watched = λ q f. elim (ℕ_discrete superior me) [
      | yes same ↦ omega (arith, mine_self superior same, wakers-at l idle (counted superior) r)
      | no other ↦ omega (
        arith,
        ap wakers e,
        wakers-at l (signing rrset superior) (counted superior) r,
        v.watched q (ground arith),
      )
    ];
  }
  Drudge-IsWatched {c} (sees l r superior test e h) v = record {
    says = v.says;
    watched = λ q f. elim (ℕ_discrete superior me) [
      | yes same ↦ omega (
        arith,
        mine_self superior same,
        wakes_me-if test (seen superior) (h same ∙ f),
        wakers-at l idle (if test then seen superior else idle) r,
      )
      | no other ↦ omega (
        arith,
        ap wakers e,
        mine_other superior other,
        wakers-at l (counted superior) (if test then seen superior else idle) r,
        v.watched q f,
      )
    ];
  }
  Drudge-IsWatched {c} (tests l r superior test e h) v = record {
    says = v.says;
    watched = λ q f. elim (ℕ_discrete superior me) [
      | yes same ↦ omega (
        arith,
        mine_self superior same,
        wakes_me-if test (waking superior) (h same ∙ v.says q),
        wakers-at l idle (if test then waking superior else idle) r,
      )
      | no other ↦ omega (
        arith,
        ap wakers e,
        mine_other superior other,
        wakers-at l (seen superior) (if test then waking superior else idle) r,
        v.watched q f,
      )
    ];
  }
  Drudge-IsWatched {c} (wakes l r superior e) v = elim (Bool-cases (superior == me)) [
    | inl same ↦ record {
      says = λ q. absurd (not-asleep-alarm c.phase (rw same at q));
      watched = λ q f. absurd (not-asleep-alarm c.phase (rw same at q));
    }
    | inr other ↦ record {
      says = λ q. rw other (v.says (rw other at q));
      watched = λ q f. omega (
        arith,
        ap wakers e,
        mine_other superior (λ z. cc ((==_iff superior me).1 z, other)),
        wakers-at l (waking superior) idle r,
        v.watched (rw other at q) f,
      );
    }
  ]

  Step-IsWatched : {c c' : Crew} → Step me c c' → IsWatched c → IsWatched c'
  Step-IsWatched (drudges c' d) v = Drudge-IsWatched d v
  Step-IsWatched (pushes rrset rrsets tries e h) v = awake (λ q. q)
  Step-IsWatched (gives_up rrset rrsets tries e h x) v = awake (λ q. q)
  Step-IsWatched (appoints rrsets e) v = awake (λ q. q)
  Step-IsWatched (has_queued e) v = awake (λ q. q)
  Step-IsWatched (sleeps e x f) v = record { says = λ q. refl; watched = λ q g. cc }
  Step-IsWatched (rests_fulfilled e f) v = awake (λ q. q)
  Step-IsWatched (rests_exiting e x) v = awake (λ q. q)
  Step-IsWatched (is_poked e) v = awake (λ q. q)
  Step-IsWatched {c} is_roused v = awake (not-asleep-alarm c.phase)
  Step-IsWatched (checks e) v = awake (λ q. q)
  Step-IsWatched (other_pushes rrset worker tries h) v = record {
    says = v.says;
    watched = v.watched;
  }
  Step-IsWatched exits v = record { says = v.says; watched = v.watched }

  Reach-IsWatched : {c c' : Crew} → Reach me c c' → IsWatched c → IsWatched c'
  Reach-IsWatched here v = v
  Reach-IsWatched (next r s) v = Step-IsWatched s (Reach-IsWatched r v)

  -- Steps of drudgers only.
  pub data Drudging : Crew → Crew → Type 0 where
    stays : {c : Crew} → Drudging c c
    goes : {c d e : Crew} → Drudge me c d → Drudging d e → Drudging c e

  -- A drudger that is about to look whether to wake the worker, or to wake it.
  data IsWaker : Drudger → Type 0 where
    has_counted : IsWaker (counted me)
    has_seen : IsWaker (seen me)
    is_waking : IsWaker (waking me)

  abbrev Found : List Drudger → Type 0
  Found ds = (l : List Drudger) × (d : Drudger) × (r : List Drudger) × (ds ≡ l ++ d ∷ r) × IsWaker d

  later : (d : Drudger) (ds : List Drudger) → Found ds → Found (d ∷ ds)
  later d ds (l, w, r, e, k) = (d ∷ l, w, r, ap (λ t. d ∷ t) e, k)

  find_waker : (ds : List Drudger) → 0 < wakers ds → Found ds
  find_waker [] h = absurd (omega arith)
  find_waker (idle ∷ ds) h = later idle ds (find_waker ds (omega arith))
  find_waker (signing rrset superior ∷ ds) h =
      later (signing rrset superior) ds (find_waker ds (omega arith))
  find_waker (counted superior ∷ ds) h = elim (ℕ_discrete superior me) [
    | yes e ↦ ([], counted me, ds, ap (λ s. counted s ∷ ds) e, has_counted)
    | no n ↦ later (counted superior) ds (find_waker ds (omega (arith, mine_other superior n)))
  ]
  find_waker (seen superior ∷ ds) h = elim (ℕ_discrete superior me) [
    | yes e ↦ ([], seen me, ds, ap (λ s. seen s ∷ ds) e, has_seen)
    | no n ↦ later (seen superior) ds (find_waker ds (omega (arith, mine_other superior n)))
  ]
  find_waker (waking superior ∷ ds) h = elim (ℕ_discrete superior me) [
    | yes e ↦ ([], waking me, ds, ap (λ s. waking s ∷ ds) e, is_waking)
    | no n ↦ later (waking superior) ds (find_waker ds (omega (arith, mine_other superior n)))
  ]

  abbrev pub IsWoken : Crew → Type 0
  IsWoken c = (c' : Crew) × Drudging c c' × (c'.phase ≡ testing)

  from_waking :
      (c : Crew) (l r : List Drudger)
      → c.phase ≡ asleep
      → c.drudgers ≡ l ++ waking me ∷ r
      → IsWoken c
  from_waking c l r p e = (_, goes (wakes l r me e) stays, ground (arith, p))

  from_seen :
      (c : Crew) (l r : List Drudger)
      → c.phase ≡ asleep
      → c.sleeping ≡ true
      → c.drudgers ≡ l ++ seen me ∷ r
      → IsWoken c
  from_seen c l r p s e =
      let (c', d, q) = from_waking (record c { drudgers = l ++ waking me ∷ r }) l r p refl in
      (c', goes (tests l r me true e (λ _. sym s)) d, q)

  from_counted :
      (c : Crew) (l r : List Drudger)
      → c.phase ≡ asleep
      → c.sleeping ≡ true
      → fulfilled c.jobs ≡ true
      → c.drudgers ≡ l ++ counted me ∷ r
      → IsWoken c
  from_counted c l r p s f e =
      let (c', d, q) = from_seen (record c { drudgers = l ++ seen me ∷ r }) l r p s refl in
      (c', goes (sees l r me true e (λ _. sym f)) d, q)

  from_waker :
      (c : Crew) (d : Drudger) (l r : List Drudger)
      → IsWaker d
      → c.phase ≡ asleep
      → c.sleeping ≡ true
      → fulfilled c.jobs ≡ true
      → c.drudgers ≡ l ++ d ∷ r
      → IsWoken c
  from_waker c d l r has_counted p s f e = from_counted c l r p s f e
  from_waker c d l r has_seen p s f e = from_seen c l r p s e
  from_waker c d l r is_waking p s f e = from_waking c l r p e

  -- No wakeup is lost: whenever a worker that has begun to queue a zone sleeps in
  -- `worker_sleep_unless` and all its appointed jobs are done, drudgers that have counted a job are on
  -- the way to wake it, and by steps of theirs alone it is back at its test.
  pub Reach-IsWoken :
      (c c' : Crew) (domains : List Domain)
      → Reach me (start c domains) c'
      → c'.phase ≡ asleep
      → fulfilled c'.jobs ≡ true
      → IsWoken c'
  Reach-IsWoken c c' domains r p f =
      let w = Reach-IsWatched r (awake {c = start c domains} (λ q. q)) in
      let q : IsAsleep c'.phase = rw p tt in
      let (l, d, t, e, k) = find_waker c'.drudgers (w.watched q f) in
      from_waker c' d l t k p (w.says q) f e
