-- ===== src/Signer/Rrset/Tests.antt =====
-- Tests and instances for sets of records and their signatures. A record is a number; that of a
-- signature is its expiration.
use opendnssec_workflow_test.Common.{
  ℕ, ◌+◌, ◌-◌, ◌<◌, ◌≡◌, refl, Bool, true, false, List, [], ◌∷◌, ◌++◌, some, arith, map, All,
}
use opendnssec_workflow_test.Common.Int.{pos, pos_part, sub_ℕ, ◌≤ℤ◌}
use opendnssec_workflow_test.Common.Result.{ok}
use opendnssec_workflow_test.Signer.Ixfr.Journal.{adds, dels}
use opendnssec_workflow_test.Signer.Rrset.{
  type_soa, Entry, Rrsig, Rrset, rrset_diff, diff_loop, drop_loop, rrset_del_rr, rrset_del_rrsig,
}
use opendnssec_workflow_test.Signer.Rrset.Diff.{applied}
use opendnssec_workflow_test.Signer.Rrset.Sign.Listed.{canonical, signed_rrs}
use opendnssec_workflow_test.Signer.Rrset.Diff.Outcome.{rrset_diff-eq}
use opendnssec_workflow_test.Signer.Rrset.Keys.{Key, keylist_lookup_by_locator, lookup_loop}
use opendnssec_workflow_test.Signer.Rrset.Recycle.{
  is_skipped, is_dropped, recycle_loop, rrset_recycle,
}
use opendnssec_workflow_test.Signer.Rrset.Recycle.Rounds.{recycled, deleted}
use opendnssec_workflow_test.Signer.Rrset.Recycle.Reusable.{IsReusable}
use opendnssec_workflow_test.Signer.Rrset.Sign.{
  Durations, rrset_sigvalid_period, Stats, Ldns, status_ok, Hsm, lhsm_sign, walk_keys, Signed,
  sign_recycled, rrset_sign, status_for,
}
use opendnssec_workflow_test.Signer.Rrset.Sign.Accounts.{IsFresh}
use opendnssec_workflow_test.Signer.Rrset.Sign.Coverage.{is_covered}
use opendnssec_workflow_test.Signer.Rrset.Sign.Outcome.{rrset_sign-covers, rrset_sign-accounts}
use opendnssec_workflow_test.Signer.Rrset.Sign.Period.{validity_of, rrset_sigvalid_period-within}
use opendnssec_workflow_test.Shared.File.{strncmp, ods_strcmp}

abbrev never : ℕ → Bool
never rr = false

abbrev here : ℕ → Entry ℕ never
here rr = record { rr = rr; is_there = true; is_added = false; is_removed = false }

abbrev added : ℕ → Entry ℕ never
added rr = record { rr = rr; is_there = false; is_added = true; is_removed = false }

abbrev signature : ℕ → Rrsig ℕ never
signature rr = record { rr = rr; key_locator = 97 ∷ []; key_flags = 256 }

-- One record stays, one goes and one comes.
abbrev changing : Rrset ℕ never
changing = record {
  rrtype = 1;
  rrs = record (here 1) { is_added = true } ∷ here 2 ∷ added 3 ∷ [];
  rrsigs = signature 5000 ∷ signature 500 ∷ [];
  needs_signing = false;
}

diff_test :
    rrset_diff ℕ never false false changing
    ≡ ok (
      record { rrtype = 1; rrs = here 1 ∷ here 3 ∷ []; rrsigs = []; needs_signing = true },
      dels 2 ∷ adds 3 ∷ dels 5000 ∷ dels 500 ∷ [],
    )
unfolding rrset_diff diff_loop drop_loop rrset_del_rr rrset_del_rrsig
diff_test = refl

rrset_diff-eq_example :
    rrset_diff ℕ never true false changing ≡ ok (applied ℕ never true false changing)
rrset_diff-eq_example = rrset_diff-eq ℕ never true false changing (omega arith) (omega arith)

abbrev zsk : Key
zsk = record {
  locator = 97 ∷ [];
  algorithm = 8;
  flags = 256;
  publish = true;
  ksk = false;
  zsk = true;
}

abbrev other : Key
other = record zsk { locator = 98 ∷ []; algorithm = 13 }

abbrev settled : Rrset ℕ never
settled = record changing { rrs = here 1 ∷ here 2 ∷ [] }

abbrev expires : ℕ → ℕ
expires rr = rr

abbrev begins : ℕ → ℕ
begins rr = 0

-- At 1000, with a refresh of 100, one of the two signatures is late.
recycle_test :
    recycled ℕ never expires begins (zsk ∷ []) (some 100) 1000 type_soa type_soa settled
    ≡ signature 5000 ∷ []
unfolding is_dropped keylist_lookup_by_locator lookup_loop ods_strcmp strncmp
recycle_test = refl

abbrev ldns : Ldns ℕ
ldns = record {
  expiration = expires;
  inception = begins;
  algorithm = λ rr. 8;
  rr2canonical = λ rr. rr;
  list_sort = λ rrs. rrs;
}

-- The signature is known by its expiration.
abbrev hsm : Hsm ℕ never ldns
hsm = record {
  is_cached = λ key. true;
  get_key = λ n key. true;
  sign_rrset = λ n rrs key i e. some (pos_part e);
  has_error = λ n. false;
}

abbrev durations : Durations
durations = record {
  sig_refresh_interval = some 100;
  sig_jitter = 10;
  sig_inception_offset = 60;
  sig_validity_denial = 700;
  sig_validity_default = 900;
}

abbrev half : ℕ → ℕ
half n = n - 1

half_below : (n : ℕ) → 0 < n → half n < n
half_below n h = omega arith

abbrev no_stats : Stats
no_stats = record { sig_soa_count = 0; sig_count = 0; sig_reuse = 0 }

-- The second key signs the set, and one signature was used again.
abbrev signed : Signed ℕ never ldns
signed = record {
  status = status_ok;
  rrset = record settled {
    rrsigs = signature 5000 ∷ record { rr = 1910; key_locator = 98 ∷ []; key_flags = 256 } ∷ [];
  };
  changes = dels 500 ∷ adds 1910 ∷ [];
  stats = record { sig_soa_count = 0; sig_count = 1; sig_reuse = 1 };
}

rrset_sign_test :
    rrset_sign ℕ never ldns hsm half durations
      (zsk ∷ other ∷ [])
      type_soa
      type_soa
      1000
      no_stats
      settled
    ≡ ok signed
unfolding rrset_sign sign_recycled walk_keys lhsm_sign rrset_recycle recycle_loop is_dropped
    keylist_lookup_by_locator lookup_loop ods_strcmp strncmp rrset_sigvalid_period rrset_del_rrsig
rrset_sign_test = refl

rrset_sign-covers_example : is_covered ℕ never ldns 1 signed.rrset.rrsigs other ≡ true
rrset_sign-covers_example =
    rrset_sign-covers ℕ never ldns hsm half durations (zsk ∷ other ∷ []) type_soa type_soa 1000
      no_stats settled signed 1 other refl refl refl rrset_sign_test refl refl refl

rrset_sign-accounts_example :
    (fresh : List (Rrsig ℕ never)) × ((signed.rrset.rrsigs
        ≡ recycled ℕ never expires begins
            (zsk ∷ other ∷ [])
            (some 100)
            1000
            type_soa
            type_soa
            settled
          ++ fresh)
      × ((signed.changes
            ≡ deleted ℕ never expires begins
                (zsk ∷ other ∷ [])
                (some 100)
                1000
                type_soa
                type_soa
                settled
              ++ map (λ sig. adds sig.rr) fresh)
          × ((signed.rrset.needs_signing ≡ false)
              × (All
                    (IsReusable ℕ never expires begins
                      (zsk ∷ other ∷ [])
                      (some 100)
                      1000
                      type_soa
                      type_soa
                      settled)
                    (recycled ℕ never expires begins
                      (zsk ∷ other ∷ [])
                      (some 100)
                      1000
                      type_soa
                      type_soa
                      settled)
                  × All
                      (IsFresh ℕ never ldns hsm
                        (signed_rrs ℕ never ldns 1 (canonical ℕ never ldns settled.rrs))
                        (rrset_sigvalid_period half durations 1 1000).0
                        (rrset_sigvalid_period half durations 1 1000).1
                        (zsk ∷ other ∷ []))
                      fresh))))
rrset_sign-accounts_example =
    rrset_sign-accounts ℕ never ldns hsm half durations (zsk ∷ other ∷ []) type_soa type_soa 1000
      no_stats settled signed refl rrset_sign_test

rrset_sigvalid_period-within_example :
    let period = rrset_sigvalid_period half durations 1 1000 in
    let middle = 1000 + validity_of durations 1 in
    (sub_ℕ middle 10 ≤ℤ period.1) × ((period.1 ≤ℤ pos (middle + 10)) × (period.0 ≡ sub_ℕ 1000 60))
rrset_sigvalid_period-within_example =
    rrset_sigvalid_period-within half durations 1 1000 half_below (omega arith) (omega arith)
      (omega arith)

-- An occluded set is not signed, nor one at a delegation, unless it is the DS; NSEC and NSEC3 always
-- are.
skipped_test :
    (is_skipped 43 1 6 ≡ true)
    × ((is_skipped 1 6 2 ≡ true)
        × ((is_skipped 43 6 43 ≡ false)
            × ((is_skipped 1 6 6 ≡ false)
                × ((status_for 47 1 ≡ 6) × ((status_for 50 2 ≡ 6) × (status_for 1 2 ≡ 2))))))
skipped_test = (refl, (refl, (refl, (refl, (refl, (refl, refl))))))
