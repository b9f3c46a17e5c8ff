-- ===== src/Signer/Rrset/Diff/Outcome.antt =====
-- `rrset_diff` of signer/src/signer/rrset.c as a whole.
use mathlib.Core.List.{append-nil}
use opendnssec_workflow_test.Common.{
  ◌≡◌, refl, inl, inr, Bool, false, ◌||◌, Bool-cases, [], arith, ◌<◌, ◌≤◌, ◌^◌, length,
}
use opendnssec_workflow_test.Common.Result.{ok}
use opendnssec_workflow_test.Signer.Rrset.{Rrset, rrset_diff}
use opendnssec_workflow_test.Signer.Rrset.Diff.{kept, any_gone, any_changed, changes_of, applied}
use opendnssec_workflow_test.Signer.Rrset.Diff.Rounds.{diff_loop-eq, drop_loop-eq}

module _ (Rr : Type 0) (is_soa : Rr → Bool) where
  -- `rrset_diff` of a set with fewer than 2 ^ 16 records, and no more than 2 ^ 16 signatures, ends, and
  -- is one pass over the records: those that are gone (marked as
  -- removed, or in a full transfer just not added again) go and need the set to be signed again, those
  -- that were added are there from then on and lose their mark, unless more is coming and the type is DNSKEY or NSEC3PARAM; the journal
  -- has, in order, an addition for each record that was not there before and a deletion for each that
  -- was there and goes. When any record came or went, all signatures are deleted from the set, and
  -- from the journal after the records; otherwise they are left.
  pub rrset_diff-eq :
      (is_ixfr more_coming : Bool) (r : Rrset Rr is_soa)
      → length r.rrs < 2 ^ 16
      → length r.rrsigs ≤ 2 ^ 16
      → rrset_diff Rr is_soa is_ixfr more_coming r ≡ ok (applied Rr is_soa is_ixfr more_coming r)
  unfolding rrset_diff
  rrset_diff-eq is_ixfr more_coming r b s =
      rw
        (diff_loop-eq Rr is_soa is_ixfr more_coming r.rrtype r.rrsigs r.rrs [] r.needs_signing []
          false (omega (arith, b)))
        elim (Bool-cases (any_changed Rr is_soa is_ixfr more_coming r.rrtype r.rrs)) [
          | inl q ↦ rw q (
              drop_loop-eq Rr is_soa r.rrtype (kept Rr is_soa is_ixfr more_coming r.rrtype r.rrs)
                (r.needs_signing || any_gone Rr is_soa is_ixfr more_coming r.rrtype r.rrs) r.rrsigs
                (changes_of Rr is_soa is_ixfr more_coming r.rrtype r.rrs) s)
          | inr q ↦
              rw (q, append-nil (changes_of Rr is_soa is_ixfr more_coming r.rrtype r.rrs)) refl
        ]
