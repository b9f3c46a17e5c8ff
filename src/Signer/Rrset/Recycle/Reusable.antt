-- ===== src/Signer/Rrset/Recycle/Reusable.antt =====
-- What the signatures are that `rrset_recycle` of signer/src/signer/rrset.c leaves in a set.
use opendnssec_workflow_test.Common.{
  ℕ, ◌%◌, ◌^◌, ◌≤◌, ◌<◌, ◌≡◌, inl, inr, Bool, false, Bool-cases, Option-cases, All, List, [], ◌∷◌,
  Option, some, arith, get_elem?,
}
use opendnssec_workflow_test.Signer.Rrset.{Rrsig, Rrset}
use opendnssec_workflow_test.Signer.Rrset.Keys.{
  Key, lookup_loop, lookup_loop-some, keylist_lookup_by_locator,
}
use opendnssec_workflow_test.Signer.Rrset.Recycle.{is_skipped, is_dead, is_dropped, refresh_end}
use opendnssec_workflow_test.Signer.Rrset.Recycle.Rounds.{goes, staying, recycled}

module _ (Rr : Type 0) (is_soa : Rr → Bool) (expiration inception : Rr → ℕ) where
  module _ (keys : List Key) (interval : Option ℕ) (signtime dstatus delegpt : ℕ) where
    -- What the signatures that are used again are: their set is not to be signed again and in a place
    -- for signatures, they expire at the end of the refresh window or later, which is ahead, their
    -- inception has passed, and there is a key of their locator and flags.
    abbrev pub IsReusable : Rrset Rr is_soa → Rrsig Rr is_soa → Type 0
    IsReusable r sig =
        (r.needs_signing ≡ false)
        × ((is_skipped r.rrtype dstatus delegpt ≡ false)
            × ((signtime % 2 ^ 32 < refresh_end Rr is_soa expiration inception interval signtime)
                × ((refresh_end Rr is_soa expiration inception interval signtime
                      ≤ expiration sig.rr)
                    × ((inception sig.rr ≤ signtime % 2 ^ 32)
                        × ((j : ℕ) × ((key : Key) × ((get_elem? keys j ≡ some key)
                                × ((key.locator ≡ sig.key_locator)
                                    × (key.flags ≡ sig.key_flags)))))))))

    not_dead :
        (sig : Rrsig Rr is_soa)
        → is_dead Rr is_soa expiration inception keys sig ≡ false
        → (j : ℕ) × ((key : Key) × ((get_elem? keys j ≡ some key)
              × ((key.locator ≡ sig.key_locator) × (key.flags ≡ sig.key_flags))))
    unfolding keylist_lookup_by_locator
    not_dead sig h = elim (Option-cases (lookup_loop keys sig.key_locator)) [
      | inl q ↦ absurd (ground arith)
      | inr (key, q) ↦
          let at = lookup_loop-some keys sig.key_locator key q in
          (at.0, (key, (at.1.0, (at.1.1, ground arith))))
    ]

    stays-IsReusable :
        (r : Rrset Rr is_soa) (sig : Rrsig Rr is_soa)
        → goes Rr is_soa expiration inception keys
            (refresh_end Rr is_soa expiration inception interval signtime)
            signtime
            dstatus
            delegpt
            r.rrtype
            r.rrs
            r.needs_signing
            sig
          ≡ false
        → IsReusable r sig
    unfolding is_dropped
    stays-IsReusable r sig h = (
      ground arith,
      (ground arith, (ground arith, (ground arith, (ground arith, not_dead sig (ground arith))))),
    )

    staying-All :
        (r : Rrset Rr is_soa) (sigs : List (Rrsig Rr is_soa))
        → All (IsReusable r) (
            staying Rr is_soa expiration inception keys
              (refresh_end Rr is_soa expiration inception interval signtime)
              signtime
              dstatus
              delegpt
              r.rrtype
              r.rrs
              r.needs_signing
              sigs)
    staying-All r [] = tt
    staying-All r (sig ∷ sigs) =
        let refresh = refresh_end Rr is_soa expiration inception interval signtime in
        let rest = staying-All r sigs in
        elim (Bool-cases (
          goes Rr is_soa expiration inception keys refresh signtime dstatus delegpt r.rrtype r.rrs
            r.needs_signing sig)) [
              | inl q ↦ rw q rest
              | inr q ↦ rw q (stays-IsReusable r sig q, rest)
            ]

    -- Every signature that `rrset_recycle` leaves in the set can be used again.
    pub recycled-IsReusable :
        (r : Rrset Rr is_soa)
        → All
            (IsReusable r)
            (recycled Rr is_soa expiration inception keys interval signtime dstatus delegpt r)
    recycled-IsReusable r = staying-All r r.rrsigs
