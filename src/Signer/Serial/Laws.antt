-- ===== src/Signer/Serial/Laws.antt =====
-- Serial numbers grow, in the sense of RFC 1982.
use Prim.Native.String.{String}
use opendnssec_workflow_test.Common.{
  ℕ, ◌+◌, ◌*◌, ◌%◌, ◌^◌, ◌<◌, ◌≡◌, refl, ◌≢◌, inl, inr, true, false, Option, none, some, arith,
  Bool-cases, ◌≤◌, ◌⊎◌, ◌↔◌,
}
use opendnssec_workflow_test.Signer.Serial.{
  Db, Format, unixtime, datecounter, counter, keep, unknown, format_of, status_ok, conflict_err,
  serial_gt, above, previous, Choice, chosen, refused, choose, step, apply, update_serial, output,
  add32,
}

-- The serials of the database are 32-bit values.
pub record IsWord (db : Db) : Type 0 where
  pub int_word : db.intserial < 2 ^ 32
  pub out_word : db.outserial < 2 ^ 32

serial_gt_asym : (a b : ℕ) → a < 2 ^ 32 → b < 2 ^ 32 → serial_gt a b ≡ true → serial_gt b a ≡ false
unfolding serial_gt
serial_gt_asym a b ha hb h = ground arith

above-gt : (soa prev : ℕ) → prev < 2 ^ 32 → serial_gt (above soa prev) prev ≡ true
unfolding above serial_gt
above-gt soa prev h = ground arith

-- What a choice for an initialised database satisfies.
abbrev Increases : Choice → Type 0
Increases (chosen soa prev) = (serial_gt soa prev ≡ true) × (soa < 2 ^ 32) × (prev < 2 ^ 32)
Increases (refused s) = s ≢ status_ok

previous-word :
    (db : Db) (inbound : ℕ) → IsWord db → inbound < 2 ^ 32 → previous db inbound < 2 ^ 32
unfolding previous
previous-word db inbound w hi = ground arith

above-word : (soa prev : ℕ) → soa < 2 ^ 32 → above soa prev < 2 ^ 32
unfolding above
above-word soa prev h = ground arith

gt-succ : (prev : ℕ) → prev < 2 ^ 32 → serial_gt (add32 prev 1) prev ≡ true
unfolding serial_gt
gt-succ prev h = ground arith

counter_gt :
    (db : Db) (inbound : ℕ)
    → previous db inbound < 2 ^ 32
    → db.is_initialized ≡ true
    → Increases (choose counter db inbound 0 0)
unfolding choose
counter_gt db inbound w h = elim (Bool-cases (serial_gt (add32 inbound 1) (previous db inbound))) [
  | inl e ↦ simp (h, e) (refl, omega arith, w)
  | inr e ↦ simp (h, e) (gt-succ (previous db inbound) w, omega arith, w)
]

keep_gt :
    (db : Db) (inbound : ℕ)
    → IsWord db
    → inbound < 2 ^ 32
    → db.is_initialized ≡ true
    → Increases (choose keep db inbound 0 0)
unfolding choose
keep_gt db inbound w hi h = elim (Bool-cases (serial_gt inbound db.outserial)) [
  | inl e ↦ simp (h, e) (refl, hi, w.out_word)
  | inr e ↦ simp (h, e) (λ q. cc)
]

choose-Increases :
    (f : Format) (db : Db) (inbound now date : ℕ)
    → IsWord db
    → inbound < 2 ^ 32
    → db.is_initialized ≡ true
    → Increases (choose f db inbound now date)
unfolding choose
choose-Increases unixtime db inbound now date w hi h = (
  above-gt (now % 2 ^ 32) _ (previous-word db inbound w hi),
  above-word (now % 2 ^ 32) _ (omega arith),
  previous-word db inbound w hi,
)
choose-Increases datecounter db inbound now date w hi h = (
  above-gt ((date * 100) % 2 ^ 32) _ (previous-word db inbound w hi),
  above-word ((date * 100) % 2 ^ 32) _ (omega arith),
  previous-word db inbound w hi,
)
choose-Increases counter db inbound now date w hi h =
    counter_gt db inbound (previous-word db inbound w hi) h
choose-Increases keep db inbound now date w hi h = keep_gt db inbound w hi h
choose-Increases unknown db inbound now date w hi h = λ q. cc

add-step_gt :
    (i soa prev : ℕ)
    → i < 2 ^ 32
    → soa < 2 ^ 32
    → prev < 2 ^ 32
    → serial_gt soa prev ≡ true
    → serial_gt (add32 i (step soa prev)) i ≡ true
unfolding serial_gt step
add-step_gt i soa prev hi hs hp h = ground arith

apply-Increases :
    (db : Db) (c : Choice)
    → IsWord db
    → db.is_initialized ≡ true
    → Increases c
    → (apply db c).0 ≡ status_ok
    → serial_gt (apply db c).1.intserial db.intserial ≡ true
unfolding apply
apply-Increases db (chosen soa prev) w h inc e =
    rw h (add-step_gt db.intserial soa prev w.int_word inc.1 inc.2 inc.0)
apply-Increases db (refused s) w h inc e = absurd (inc e)

-- Once a zone has been written, every call of `namedb_update_serial` that succeeds leaves an internal
-- serial that is greater, in serial arithmetic, than the one before, for each of the formats and
-- whatever the clock and the (32-bit) serial of the input zone say.
pub update_serial-increases :
    (db : Db) (format : Option String) (inbound now date : ℕ)
    → IsWord db
    → inbound < 2 ^ 32
    → db.is_initialized ≡ true
    → (update_serial db format inbound now date).0 ≡ status_ok
    → serial_gt (update_serial db format inbound now date).1.intserial db.intserial ≡ true
unfolding update_serial
update_serial-increases db none inbound now date w hi h e = cc
update_serial-increases db (some format) inbound now date w hi h e =
    apply-Increases db (choose (format_of format) db inbound now date) w h
      (choose-Increases (format_of format) db inbound now date w hi h) e

-- Before the first output every format but `keep` gives a serial greater than the input's, and `keep`
-- gives the input's.
update_serial_first :
    (db : Db) (f : Format) (inbound now date : ℕ)
    → inbound < 2 ^ 32
    → db.is_initialized ≡ false
    → let new = (apply db (choose f db inbound now date)).1.intserial in
      (f ≡ keep → new ≡ inbound)
      × (f ≡ unixtime → serial_gt new inbound ≡ true)
      × (f ≡ datecounter → serial_gt new inbound ≡ true)
      × (f ≡ counter → serial_gt new inbound ≡ true)
unfolding apply choose previous
update_serial_first db f inbound now date hi h = (
  λ e. ground arith,
  λ e. ground (arith, above-gt (now % 2 ^ 32) inbound),
  λ e. ground (arith, above-gt ((date * 100) % 2 ^ 32) inbound),
  λ e. ground (arith, gt-succ inbound),
)

step-on_target :
    (soa prev : ℕ)
    → soa < 2 ^ 32
    → prev < 2 ^ 32
    → serial_gt soa prev ≡ true
    → add32 prev (step soa prev) ≡ soa
unfolding serial_gt step
step-on_target soa prev hs hp h = ground arith

-- Once a zone has been written, and the internal serial is the one written, `keep` makes the internal
-- serial the input's, if that is greater than the one written.
keep-eq-inbound :
    (db : Db) (inbound now date : ℕ)
    → IsWord db
    → inbound < 2 ^ 32
    → db.is_initialized ≡ true
    → db.intserial ≡ db.outserial
    → serial_gt inbound db.outserial ≡ true
    → update_serial db (some "keep") inbound now date
      ≡ (status_ok, record db { intserial = inbound })
unfolding update_serial format_of choose apply
keep-eq-inbound db inbound now date w hi h e g =
    ground (arith, step-on_target inbound db.outserial hi w.out_word g)

-- `keep` is refused exactly when the input's serial is not greater than the one last written, and
-- then nothing changes.
pub keep_conflict :
    (db : Db) (inbound now date : ℕ)
    → db.is_initialized ≡ true
    → serial_gt inbound db.outserial ≡ false
    → update_serial db (some "keep") inbound now date ≡ (conflict_err, db)
unfolding update_serial format_of choose apply
keep_conflict db inbound now date h g = ground arith

-- Once a zone has been written, and the internal serial is the one written, `unixtime` makes the
-- internal serial the time, if that is greater than the serial written and the input's serial is
-- numerically no greater than it.
unixtime-eq-now :
    (db : Db) (inbound now date : ℕ)
    → IsWord db
    → db.is_initialized ≡ true
    → db.intserial ≡ db.outserial
    → inbound ≤ db.outserial
    → serial_gt (now % 2 ^ 32) db.outserial ≡ true
    → update_serial db (some "unixtime") inbound now date
      ≡ (status_ok, record db { intserial = now % 2 ^ 32 })
unfolding update_serial format_of choose apply above previous
unixtime-eq-now db inbound now date w h e le g =
    ground (arith, step-on_target (now % 2 ^ 32) db.outserial (omega arith) w.out_word g)

-- Once a zone has been written, and the internal serial is the one written, `counter` adds one to it
-- when the input's serial is numerically greater, by whatever distance, and is not the last one,
-- 2 ^ 32 - 1.
pub counter_drifts :
    (db : Db) (inbound now date : ℕ)
    → inbound + 1 < 2 ^ 32
    → db.is_initialized ≡ true
    → db.intserial ≡ db.outserial
    → db.outserial < inbound
    → update_serial db (some "counter") inbound now date
      ≡ (status_ok, record db { intserial = db.outserial + 1 })
unfolding update_serial format_of choose apply previous step serial_gt
counter_drifts db inbound now date hi h e lt = ground arith

-- After a round of signing and writing, both successful, of a zone written before: the serial in the
-- new output file is greater than that in the old one, and the internal serial is again the one written.
round-increases :
    (db : Db) (format : Option String) (inbound now date : ℕ)
    → IsWord db
    → inbound < 2 ^ 32
    → db.is_initialized ≡ true
    → db.intserial ≡ db.outserial
    → (update_serial db format inbound now date).0 ≡ status_ok
    → let db' = output false true (update_serial db format inbound now date).1 in
      (serial_gt db'.outserial db.outserial ≡ true)
      × (db'.intserial ≡ db'.outserial)
      × (db'.is_initialized ≡ true)
unfolding output
round-increases db format inbound now date w hi h e s =
    ground (arith, update_serial-increases db format inbound now date w hi h s)

-- On 32-bit serials `util_serial_gt` compares by the distance forward on the circle of 2 ^ 32 serials.
serial_gt_iff :
    (a b : ℕ)
    → a < 2 ^ 32
    → b < 2 ^ 32
    → (serial_gt a b ≡ true) ↔ (((b < a) × (a < b + 2 ^ 31)) ⊎ ((a < b) × (a + 2 ^ 31 < b)))
unfolding serial_gt
serial_gt_iff a b ha hb = (λ h. ground arith, λ h. ground arith)
