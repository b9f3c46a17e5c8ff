-- ===== src/Signer/Domain/Status.antt =====
-- `domain_is_occluded` of signer/src/signer/domain.c.
use mathlib.Core.Path.{subst}
use opendnssec_workflow_test.Common.{
  ◌≡◌, ◌↔◌, refl, inl, inr, Bool, false, Bool-cases, List, [], ◌∷◌, none, arith, if◌then◌else◌, All,
  if_false,
}
use opendnssec_workflow_test.Signer.Rrset.{type_soa}
use opendnssec_workflow_test.Signer.Domain.{
  Domain, type_ns, type_dname, domain_lookup_rrset, occluded_loop, domain_is_occluded,
}

module _ (Rr : Type 0) (is_soa : Rr → Bool) where
  -- The names above, up to the apex.
  abbrev pub below_apex : List (Domain Rr is_soa) → List (Domain Rr is_soa)
  below_apex [] = []
  below_apex (d ∷ parents) = if d.is_apex then [] else d ∷ below_apex parents

  -- A name without a cut: no delegation, and no redirection of what is below.
  abbrev pub IsOpen : Domain Rr is_soa → Type 0
  IsOpen d =
      (domain_lookup_rrset Rr is_soa d type_ns ≡ none)
      × (domain_lookup_rrset Rr is_soa d type_dname ≡ none)

  occluded_loop-soa :
      (parents : List (Domain Rr is_soa))
      → occluded_loop Rr is_soa parents ≡ type_soa
      → All IsOpen (below_apex parents)
  unfolding occluded_loop
  occluded_loop-soa [] h = tt
  occluded_loop-soa (d ∷ parents) h = elim (Bool-cases d.is_apex) [
    | inl a ↦ rw a tt
    | inr a ↦ rw a ((ground arith, ground arith), occluded_loop-soa parents (ground arith))
  ]

  soa-occluded_loop :
      (parents : List (Domain Rr is_soa))
      → All IsOpen (below_apex parents)
      → occluded_loop Rr is_soa parents ≡ type_soa
  unfolding occluded_loop
  soa-occluded_loop [] h = refl
  soa-occluded_loop (d ∷ parents) h = elim (Bool-cases d.is_apex) [
    | inl a ↦ rw a refl
    | inr a ↦
        let p : All IsOpen (d ∷ below_apex parents) = subst (All IsOpen) (if_false _ _ a) h in
        rw (a, p.0.0, p.0.1) (soa-occluded_loop parents p.1)
  ]

  -- A name that is not the apex is not occluded just when no name between it and the apex has NS or
  -- DNAME records.
  pub domain_is_occluded_iff :
      (d : Domain Rr is_soa) (parents : List (Domain Rr is_soa))
      → d.is_apex ≡ false
      → (domain_is_occluded Rr is_soa d parents ≡ type_soa) ↔ All IsOpen (below_apex parents)
  domain_is_occluded_iff d parents h = rw h (occluded_loop-soa parents, soa-occluded_loop parents)
