-- ===== src/Signer/Rrset/Sign.antt =====
-- `rrset_sign` of signer/src/signer/rrset.c, and `lhsm_sign` of signer/src/shared/hsm.c under it. What
-- the library for security modules answers is a parameter, as are what ldns reads from a signature and
-- does to a record, the seconds of the durations, and the random numbers.
pub mod Accounts
pub mod Coverage
pub mod Induction
pub mod Listed
pub mod Outcome
pub mod Period
use opendnssec_workflow_test.Common.{
  ℕ, zero, suc, ◌+◌, ◌%◌, ◌*◌, ◌^◌, Bool, true, false, not, ◌&&◌, ◌||◌, List, [], ◌∷◌, ◌++◌, Option,
  none, some, ◌==◌, if◌then◌else◌, length,
}
use opendnssec_workflow_test.Common.Int.{ℤ, pos, negsuc, sub_ℕ}
use opendnssec_workflow_test.Common.Result.{Result, ok, err, assertion, ◌>>=◌, ◌>>◌, require}
use opendnssec_workflow_test.Shared.File.{ods_strcmp, is_zero}
use opendnssec_workflow_test.Signer.Ixfr.Journal.{Call, adds, dels}
use opendnssec_workflow_test.Signer.Rrset.{
  type_soa, type_nsec, type_nsec3, type_dnskey, Entry, Rrsig, Rrset, Changes, rrset_add_rrsig,
}
use opendnssec_workflow_test.Signer.Rrset.Keys.{Key}
use opendnssec_workflow_test.Signer.Rrset.Recycle.{is_skipped, rrset_recycle}

abbrev pub type_cname : ℕ
type_cname = 5

abbrev pub type_dname : ℕ
type_dname = 39

-- The durations of the signer configuration, in seconds.
pub record Durations : Type 0 where
  pub sig_refresh_interval : Option ℕ
  pub sig_jitter : ℕ
  pub sig_inception_offset : ℕ
  pub sig_validity_denial : ℕ
  pub sig_validity_default : ℕ

-- `ods_rand` of signer/src/shared/duration.c, where arc4random_uniform() is found.
abbrev pub ods_rand : (ℕ → ℕ) → ℕ → ℕ
ods_rand uniform modulus = uniform ((modulus % 2 ^ 32 + 1) % 2 ^ 32)

-- `rrset_sigvalid_period`: the inception and the expiration, which stay 0 without a type or a time.
unfoldable pub rrset_sigvalid_period : (ℕ → ℕ) → Durations → ℕ → ℕ → ℤ × ℤ
rrset_sigvalid_period uniform sc rrtype signtime =
    let random_jitter = if sc.sig_jitter == 0 then 0 else ods_rand uniform (sc.sig_jitter * 2) in
    let validity =
      if rrtype == type_nsec || rrtype == type_nsec3
      then sc.sig_validity_denial
      else sc.sig_validity_default in
    if rrtype == 0 || signtime == 0 then (pos 0, pos 0) else (
      sub_ℕ signtime sc.sig_inception_offset,
      sub_ℕ (signtime + validity + random_jitter) sc.sig_jitter,
    )

-- `stats_type`, the counts of signatures, each a `uint32_t`.
pub record Stats : Type 0 where
  pub sig_soa_count : ℕ
  pub sig_count : ℕ
  pub sig_reuse : ℕ

pub data Status : Type 0 where
  status_ok hsm_err : Status

-- What is found of the domain; the denial records are authoritative, wherever they are.
abbrev pub status_for : ℕ → ℕ → ℕ
status_for rrtype found = if rrtype == type_nsec || rrtype == type_nsec3 then type_soa else found

-- What ldns reads from a signature, and does to records.
pub record Ldns (Rr : Type 0) : Type 0 where
  pub expiration : Rr → ℕ
  pub inception : Rr → ℕ
  pub algorithm : Rr → ℕ
  pub rr2canonical : Rr → Rr
  pub list_sort : List Rr → List Rr

module _ (Rr : Type 0) (is_soa : Rr → Bool) (ldns : Ldns Rr) where
  -- The answers of the security module in the first try and the second: whether the DNSKEY is there,
  -- whether it can be made, the signature, and whether there is an error to report.
  pub record Hsm : Type 0 where
    pub is_cached : Key → Bool
    pub get_key : ℕ → Key → Bool
    pub sign_rrset : ℕ → List Rr → Key → ℤ → ℤ → Option Rr
    pub has_error : ℕ → Bool

  -- A try, which leaves the signature, and whether to start again.
  abbrev pub lhsm_try : Hsm → ℕ → Bool → List Rr → Key → ℤ → ℤ → Option Rr × Bool
  lhsm_try hsm retries is_cached rr_list key i e =
      let again = not (hsm.has_error retries) && retries == 0 in
      if not is_cached && not (hsm.get_key retries key)
      then (none, again)
      else elim (hsm.sign_rrset retries rr_list key i e) [
        | none ↦ (none, again)
        | some sig ↦ (some sig, false)
      ]

  -- `lhsm_sign`: before the second try the DNSKEY is forgotten.
  unfoldable pub lhsm_sign : Hsm → List Rr → Key → ℤ → ℤ → Option Rr
  lhsm_sign hsm rr_list key i e =
      let first = lhsm_try hsm 0 (hsm.is_cached key) rr_list key i e in
      let second = lhsm_try hsm 1 false rr_list key i e in
      if is_zero i || is_zero e then none else if first.1 then second.0 else first.0

  -- `rrset_sigalgo` and `rrset_siglocator`
  abbrev pub rrset_sigalgo : List (Rrsig Rr is_soa) → ℕ → Bool
  rrset_sigalgo [] alg = false
  rrset_sigalgo (sig ∷ sigs) alg =
      let rest = rrset_sigalgo sigs alg in if alg == ldns.algorithm sig.rr then true else rest

  abbrev pub rrset_siglocator : List (Rrsig Rr is_soa) → List ℕ → Bool
  rrset_siglocator [] locator = false
  rrset_siglocator (sig ∷ sigs) locator =
      let rest = rrset_siglocator sigs locator in
      if is_zero (ods_strcmp (some locator) (some sig.key_locator)) then true else rest

  abbrev pub is_singleton : ℕ → Bool
  is_singleton rrtype = rrtype == type_cname || rrtype == type_dname

  -- The loop of `rrset2rrlist`, which also brings the records themselves into canonical form.
  abbrev pub list_loop : ℕ → List (Entry Rr is_soa) → List (Entry Rr is_soa) × List Rr
  list_loop rrtype [] = ([], [])
  list_loop rrtype (e ∷ rrs) =
      let rest = list_loop rrtype rrs in
      let e' = record e { rr = ldns.rr2canonical e.rr } in
      if not e.is_there
      then (e ∷ rest.0, rest.1)
      else if is_singleton rrtype
      then (e' ∷ rrs, e'.rr ∷ [])
      else (e' ∷ rest.0, e'.rr ∷ rest.1)

  -- `rrset2rrlist`: a single record need not be sorted.
  abbrev pub rrset2rrlist : Rrset Rr is_soa → Rrset Rr is_soa × List Rr
  rrset2rrlist r =
      let listed = list_loop r.rrtype r.rrs in
      (
        record r { rrs = listed.0 },
        if is_singleton r.rrtype && not (length listed.1 == 0)
            then listed.1
            else ldns.list_sort listed.1,
      )

  -- Whether a key in the walk is passed over.
  abbrev pub passes_over : Rrset Rr is_soa → Key → Bool
  passes_over r key =
      (not key.zsk && not (r.rrtype == type_dnskey))
      || (not key.ksk && r.rrtype == type_dnskey)
      || rrset_siglocator r.rrsigs key.locator
      || (not (r.rrtype == type_dnskey) && rrset_sigalgo r.rrsigs key.algorithm)

  pub record Walk : Type 0 where
    pub status : Status
    pub rrset : Rrset Rr is_soa
    pub changes : Changes Rr is_soa
    pub newsigs : ℕ

  -- The walk over the keys.
  unfoldable pub walk_keys :
      Hsm → List Rr → ℤ → ℤ → List Key → Rrset Rr is_soa → Changes Rr is_soa → ℕ → Walk
  walk_keys hsm rr_list i e [] r changes newsigs = record {
    status = status_ok;
    rrset = r;
    changes = changes;
    newsigs = newsigs;
  }
  walk_keys hsm rr_list i e (key ∷ keys) r changes newsigs =
      let over = walk_keys hsm rr_list i e keys r changes newsigs in
      let signed : Walk = elim (lhsm_sign hsm rr_list key i e) [
        | none ↦ record { status = hsm_err; rrset = r; changes = changes; newsigs = newsigs }
        | some sig ↦
            walk_keys hsm rr_list i e keys (rrset_add_rrsig Rr is_soa r sig key.locator key.flags)
              (changes ++ adds sig ∷ []) (newsigs + 1)
      ] in
      if passes_over r key then over else signed

  pub record Signed : Type 0 where
    pub status : Status
    pub rrset : Rrset Rr is_soa
    pub changes : Changes Rr is_soa
    pub stats : Stats

  abbrev pub count : Stats → ℕ → ℕ → ℕ → Stats
  count stats rrtype newsigs reused = record {
    sig_soa_count =
        if rrtype == type_soa
        then (stats.sig_soa_count + newsigs) % 2 ^ 32
        else stats.sig_soa_count;
    sig_count = (stats.sig_count + newsigs) % 2 ^ 32;
    sig_reuse = (stats.sig_reuse + reused) % 2 ^ 32;
  }

  -- The counts are made when the walk ended.
  abbrev pub after_walk : Stats → ℕ → Walk → Signed
  after_walk stats reused w = record {
    status = w.status;
    rrset = w.rrset;
    changes = w.changes;
    stats = elim w.status [
      | status_ok ↦ count stats w.rrset.rrtype w.newsigs reused
      | hsm_err ↦ stats
    ];
  }

  -- The part behind the recycling, of a set that has records. A set without any has no array, or one
  -- that the test for its first record reads past.
  unfoldable pub sign_recycled :
      Hsm
      → (ℕ → ℕ)
      → Durations
      → List Key
      → ℕ
      → ℕ
      → ℕ
      → Stats
      → Rrset Rr is_soa
      → Changes Rr is_soa
      → ℕ
      → Signed
  sign_recycled hsm uniform sc keys signtime dstatus delegpt stats r changes reused =
      let stop : Rrset Rr is_soa → Signed =
        λ r'. record { status = status_ok; rrset = r'; changes = changes; stats = stats } in
      let listed = rrset2rrlist r in
      let period = rrset_sigvalid_period uniform sc r.rrtype signtime in
      let walk = walk_keys hsm listed.1 period.0 period.1 keys listed.0 changes 0 in
      if is_skipped r.rrtype dstatus delegpt
      then stop r
      else if length listed.1 == 0
      then stop listed.0
      else after_walk stats reused walk

  -- `rrset_sign`, given what `domain_is_occluded` and `domain_is_delegpt` tell of the domain.
  unfoldable pub rrset_sign :
      Hsm → (ℕ → ℕ) → Durations → List Key → ℕ → ℕ → ℕ → Stats → Rrset Rr is_soa → Result Signed
  rrset_sign hsm uniform sc keys occluded delegation signtime stats r = do
    let dstatus = status_for r.rrtype occluded
    let delegpt = status_for r.rrtype delegation
    recycled ←
        rrset_recycle Rr is_soa ldns.expiration ldns.inception keys sc.sig_refresh_interval signtime
          dstatus delegpt r
    require (not (length r.rrs == 0)) assertion
    ok (
        sign_recycled hsm uniform sc keys signtime dstatus delegpt stats
          (record recycled.0 { needs_signing = false }) recycled.1.0 recycled.1.1)
