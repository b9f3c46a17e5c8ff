-- ===== src/Signer/Domain/Diff.antt =====
-- `domain_diff` of signer/src/signer/domain.c.
use opendnssec_workflow_test.Common.{
  ℕ, ◌≡◌, refl, inl, inr, Bool, true, false, ◌||◌, Bool-cases, List, [], ◌∷◌, ◌++◌, arith, ◌==◌,
  if◌then◌else◌, length, All, ◌<◌, ◌≤◌, ◌^◌,
}
use opendnssec_workflow_test.Common.Result.{ok}
use opendnssec_workflow_test.Signer.Rrset.{Entry, Rrset, Changes}
use opendnssec_workflow_test.Signer.Rrset.Diff.{applied, kept, is_gone}
use opendnssec_workflow_test.Signer.Rrset.Diff.Outcome.{rrset_diff-eq}
use opendnssec_workflow_test.Signer.Domain.{
  Domain, bitmap_changed, is_config_type, diff_sets, domain_diff,
}

module _ (Rr : Type 0) (is_soa : Rr → Bool) (is_ixfr more_coming : Bool) where
  -- The differences of a set: those for keys and NSEC3 parameters are always in full.
  abbrev pub applied_set : Rrset Rr is_soa → Rrset Rr is_soa × Changes Rr is_soa
  applied_set r =
      applied Rr is_soa (if is_config_type r.rrtype then false else is_ixfr) more_coming r

  -- The sets that are left, the calls on the journal, and whether a set went.
  abbrev pub sets_left : List (Rrset Rr is_soa) → List (Rrset Rr is_soa)
  sets_left [] = []
  sets_left (r ∷ rrsets) =
      let r' = (applied_set r).0 in
      if length r'.rrs == 0 then sets_left rrsets else r' ∷ sets_left rrsets

  abbrev pub changes_of_sets : List (Rrset Rr is_soa) → Changes Rr is_soa
  changes_of_sets [] = []
  changes_of_sets (r ∷ rrsets) = (applied_set r).1 ++ changes_of_sets rrsets

  abbrev pub any_empty : List (Rrset Rr is_soa) → Bool
  any_empty [] = false
  any_empty (r ∷ rrsets) = length (applied_set r).0.rrs == 0 || any_empty rrsets

  -- Fewer than 2 ^ 16 records, and no more signatures.
  abbrev pub IsSmall : Rrset Rr is_soa → Type 0
  IsSmall r = (length r.rrs < 2 ^ 16) × (length r.rrsigs ≤ 2 ^ 16)

  diff_sets-eq :
      (rrsets : List (Rrset Rr is_soa))
      → All IsSmall rrsets
      → diff_sets Rr is_soa is_ixfr more_coming rrsets
        ≡ ok (sets_left rrsets, (changes_of_sets rrsets, any_empty rrsets))
  unfolding diff_sets
  diff_sets-eq [] b = refl
  diff_sets-eq (r ∷ rrsets) b =
      rw
        (
          rrset_diff-eq Rr is_soa (if is_config_type r.rrtype then false else is_ixfr) more_coming r
              b.0.0 b.0.1,
          diff_sets-eq rrsets b.1,
        )
        elim (Bool-cases (length (applied_set r).0.rrs == 0)) [
          | inl q ↦ rw q refl
          | inr q ↦ rw q refl
        ]

  -- `domain_diff` of such sets ends: the differences of each set are applied, in full for keys and NSEC3
  -- parameters; the sets that are left without records go, and then the bitmap of the name's denial
  -- has changed; the journal has the calls for all sets in order.
  domain_diff-eq :
      (d : Domain Rr is_soa)
      → All IsSmall d.rrsets
      → domain_diff Rr is_soa is_ixfr more_coming d
        ≡ ok (
          record d {
            rrsets = sets_left d.rrsets;
            denial =
                if any_empty d.rrsets then bitmap_changed Rr is_soa true d.denial else d.denial;
          },
          changes_of_sets d.rrsets,
        )
  unfolding domain_diff
  domain_diff-eq d b = rw (diff_sets-eq d.rrsets b) refl

  -- A record that is published already, or was added.
  abbrev pub IsHeld : Entry Rr is_soa → Type 0
  IsHeld e = (e.is_there || e.is_added) ≡ true

  abbrev pub IsPublished : Entry Rr is_soa → Type 0
  IsPublished e = e.is_there ≡ true

  -- A set that a name can have between two updates.
  abbrev pub IsServed : Rrset Rr is_soa → Type 0
  IsServed r = ((length r.rrs == 0) ≡ false) × All IsPublished r.rrs

  kept-IsPublished :
      (ixfr : Bool) (rrtype : ℕ) (rrs : List (Entry Rr is_soa))
      → All IsHeld rrs
      → All IsPublished (kept Rr is_soa ixfr more_coming rrtype rrs)
  kept-IsPublished ixfr rrtype [] h = tt
  kept-IsPublished ixfr rrtype (e ∷ rrs) h =
      let rest = kept-IsPublished ixfr rrtype rrs h.1 in
      elim (Bool-cases (is_gone Rr is_soa ixfr more_coming rrtype e)) [
        | inl q ↦ rw q rest
        | inr q ↦ rw q (ground arith, rest)
      ]

  sets_left-IsServed :
      (rrsets : List (Rrset Rr is_soa))
      → All (λ r. All IsHeld r.rrs) rrsets
      → All IsServed (sets_left rrsets)
  sets_left-IsServed [] h = tt
  sets_left-IsServed (r ∷ rrsets) h =
      let rest = sets_left-IsServed rrsets h.1 in
      let ixfr = if is_config_type r.rrtype then false else is_ixfr in
      elim (Bool-cases (length (applied_set r).0.rrs == 0)) [
        | inl q ↦ rw q rest
        | inr q ↦ rw q ((q, kept-IsPublished ixfr r.rrtype r.rrs h.0), rest)
      ]

  -- When every record of a name's sets is published already or was added, and each set has fewer than
  -- 2 ^ 16 records and no more than 2 ^ 16 signatures, `domain_diff` ends, and leaves only sets that
  -- have records, all of them published.
  pub domain_diff-IsServed :
      (d : Domain Rr is_soa)
      → All (λ r. All IsHeld r.rrs) d.rrsets
      → All IsSmall d.rrsets
      → (d' : Domain Rr is_soa) × ((changes : Changes Rr is_soa) × ((domain_diff Rr is_soa is_ixfr
                more_coming d
              ≡ ok (d', changes))
            × All IsServed d'.rrsets))
  domain_diff-IsServed d h b = (
    record d {
      rrsets = sets_left d.rrsets;
      denial = if any_empty d.rrsets then bitmap_changed Rr is_soa true d.denial else d.denial;
    },
    (changes_of_sets d.rrsets, (domain_diff-eq d b, sets_left-IsServed d.rrsets h)),
  )
