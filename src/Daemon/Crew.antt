-- ===== src/Daemon/Crew.antt =====
-- signer/src/daemon/worker.c: a worker that queues the RRsets of its zone (`worker_queue_zone`), the
-- drudgers that sign them (`worker_drudge`), and the worker's sleep until they have
-- (`worker_sleep_unless`, `worker_wakeup`). Threads run in any order; a step is what a thread does
-- under one lock, or one test that it makes without a lock. The worker is `me`; an RRset is its
-- pointer. The HSM's work is the status that comes with a step.
pub mod Balance
pub mod Signed
pub mod Wakeup
mod Tests
use opendnssec_workflow_test.Common.{
  ℕ, ◌+◌, ◌≡◌, ◌≢◌, Bool, true, false, List, [], ◌∷◌, ◌++◌, Option, none, some, ◌==◌, if◌then◌else◌,
}
use opendnssec_workflow_test.Scheduler.Fifoq
use opendnssec_workflow_test.Scheduler.Fifoq.{Fifoq, null, push, pop}
use opendnssec_workflow_test.Daemon.Worker.{Status, Jobs, check_jobs}

-- What `worker_queue_domain` queues of a domain: its RRsets, and that of its denial of existence.
pub record Domain : Type 0 where
  pub rrsets : List ℕ
  pub denial : Option ℕ

abbrev pub domain_rrsets : Domain → List ℕ
domain_rrsets d = elim d.denial [ none ↦ d.rrsets | some rrset ↦ d.rrsets ++ rrset ∷ [] ]

-- The loop of `worker_queue_zone`
abbrev pub zone_rrsets : List Domain → List ℕ
zone_rrsets [] = []
zone_rrsets (d ∷ domains) = domain_rrsets d ++ zone_rrsets domains

-- Where the worker is: about to queue these RRsets; with an RRset pushed that is not yet appointed;
-- before a test of `worker_sleep_unless`; asleep in it; behind it; behind `worker_check_jobs`.
pub data Phase : Type 0 where
  queuing appointing : List ℕ → Phase
  testing asleep rested : Phase
  checked : Status → Phase

-- Where a drudger is: about to get an item; with an RRset of a superior; behind the count; behind the
-- test of `worker_fulfilled(superior)`; behind that of `superior->sleeping`.
pub data Drudger : Type 0 where
  idle : Drudger
  signing : ℕ → ℕ → Drudger
  counted seen waking : ℕ → Drudger

pub record Crew : Type 0 where
  pub signq : Fifoq
  pub drudgers : List Drudger
  pub phase : Phase
  pub jobs : Jobs
  pub sleeping : Bool

-- `worker_clear_jobs`
abbrev pub clear_jobs : Jobs → Jobs
clear_jobs j = record j { appointed = 0; completed = 0; failed = 0 }

-- `worker_fulfilled`
abbrev pub fulfilled : Jobs → Bool
fulfilled j = j.completed + j.failed == j.appointed

-- The start of `worker_queue_zone`
abbrev pub start : Crew → List Domain → Crew
start c domains = record c { phase = queuing (zone_rrsets domains); jobs = clear_jobs c.jobs }

-- The count after `rrset_sign`, which succeeds or not; a missing HSM context is a failure too.
abbrev pub count_job : Bool → Jobs → Jobs
count_job true j = record j { completed = j.completed + 1 }
count_job false j = record j { failed = j.failed + 1 }

-- `worker_wakeup`, from its lock on: the alarm ends the sleep.
abbrev pub alarm : Phase → Phase
alarm asleep = testing
alarm p = p

module _ (me : ℕ) where
  abbrev pub count_for : ℕ → Bool → Jobs → Jobs
  count_for superior success j = if superior == me then count_job success j else j

  -- What a drudger does.
  pub data Drudge (c : Crew) : Crew → Type 0 where
    takes :
        (l r : List Drudger)
        → c.drudgers ≡ l ++ idle ∷ r
        → (pop c.signq null).item ≢ null
        → Drudge c (record c {
          signq = (pop c.signq null).queue;
          drudgers = l ++ signing (pop c.signq null).item (pop c.signq null).worker ∷ r;
        })
    signs :
        (l r : List Drudger) (rrset superior : ℕ) (success : Bool)
        → c.drudgers ≡ l ++ signing rrset superior ∷ r
        → Drudge c (record c {
          drudgers = l ++ counted superior ∷ r;
          jobs = count_for superior success c.jobs;
        })
    sees :
        (l r : List Drudger) (superior : ℕ) (test : Bool)
        → c.drudgers ≡ l ++ counted superior ∷ r
        → (superior ≡ me → test ≡ fulfilled c.jobs)
        → Drudge c (record c { drudgers = l ++ (if test then seen superior else idle) ∷ r })
    tests :
        (l r : List Drudger) (superior : ℕ) (test : Bool)
        → c.drudgers ≡ l ++ seen superior ∷ r
        → (superior ≡ me → test ≡ c.sleeping)
        → Drudge c (record c { drudgers = l ++ (if test then waking superior else idle) ∷ r })
    wakes :
        (l r : List Drudger) (superior : ℕ)
        → c.drudgers ≡ l ++ waking superior ∷ r
        → Drudge c (record c {
          drudgers = l ++ idle ∷ r;
          phase = if superior == me then alarm c.phase else c.phase;
          sleeping = if superior == me then false else c.sleeping;
        })

  -- What may happen: a step of a drudger, of the worker, of another worker, or from outside. While
  -- the queue is full the worker stays where it is.
  pub data Step (c : Crew) : Crew → Type 0 where
    drudges : (c' : Crew) → Drudge c c' → Step c c'
    -- `worker_queue_rrset`
    pushes :
        (rrset : ℕ) (rrsets : List ℕ) (tries : ℕ)
        → c.phase ≡ queuing (rrset ∷ rrsets)
        → (push c.signq rrset me tries).status ≡ Fifoq.status_ok
        → Step c
            (record c { signq = (push c.signq rrset me tries).queue; phase = appointing rrsets })
    gives_up :
        (rrset : ℕ) (rrsets : List ℕ) (tries : ℕ)
        → c.phase ≡ queuing (rrset ∷ rrsets)
        → (push c.signq rrset me tries).status ≡ Fifoq.unchanged
        → c.jobs.need_to_exit ≡ true
        → Step c (record c { phase = queuing rrsets })
    appoints :
        (rrsets : List ℕ)
        → c.phase ≡ appointing rrsets
        → Step c (record c {
          phase = queuing rrsets;
          jobs = record c.jobs { appointed = c.jobs.appointed + 1 };
        })
    has_queued : c.phase ≡ queuing [] → Step c (record c { phase = testing })
    -- `worker_sleep_unless`
    sleeps :
        c.phase ≡ testing
        → c.jobs.need_to_exit ≡ false
        → fulfilled c.jobs ≡ false
        → Step c (record c { phase = asleep; sleeping = true })
    rests_fulfilled :
        c.phase ≡ testing → fulfilled c.jobs ≡ true → Step c (record c { phase = rested })
    rests_exiting :
        c.phase ≡ testing → c.jobs.need_to_exit ≡ true → Step c (record c { phase = rested })
    -- a wakeup with no alarm, and a call of `worker_wakeup` by the engine
    is_poked : c.phase ≡ asleep → Step c (record c { phase = testing })
    is_roused : Step c (record c { phase = alarm c.phase; sleeping = false })
    -- `worker_check_jobs`
    checks : c.phase ≡ rested → Step c (record c { phase = checked (check_jobs c.jobs) })
    -- another worker's `worker_queue_rrset`, and a request to exit
    other_pushes :
        (rrset worker tries : ℕ)
        → worker ≢ me
        → Step c (record c { signq = (push c.signq rrset worker tries).queue })
    exits : Step c (record c { jobs = record c.jobs { need_to_exit = true } })

  pub data Reach (c : Crew) : Crew → Type 0 where
    here : Reach c c
    next : {d e : Crew} → Reach c d → Step d e → Reach c e
