-- ===== src/Signer/Rrset/Sign/Listed.antt =====
-- The records that `rrset_sign` of signer/src/signer/rrset.c has signed, told from the set alone.
use opendnssec_workflow_test.Common.{
  ℕ, ◌≡◌, refl, ap, inl, inr, Bool, true, false, not, ◌||◌, Bool-cases, List, [], ◌∷◌, ◌==◌,
  if◌then◌else◌, length,
}
use opendnssec_workflow_test.Signer.Rrset.{Entry, Rrset}
use opendnssec_workflow_test.Signer.Rrset.Sign.{Ldns, is_singleton, list_loop, rrset2rrlist}

module _ (Rr : Type 0) (is_soa : Rr → Bool) (ldns : Ldns Rr) where
  -- The records that are published, in canonical form and in the order of the set.
  abbrev pub canonical : List (Entry Rr is_soa) → List Rr
  canonical [] = []
  canonical (e ∷ rrs) = if e.is_there then ldns.rr2canonical e.rr ∷ canonical rrs else canonical rrs

  abbrev pub first_of : List Rr → List Rr
  first_of [] = []
  first_of (rr ∷ rrs) = rr ∷ []

  -- Of the types CNAME (5) and DNAME (39) the first published record, of the others all, sorted.
  abbrev pub signed_rrs : ℕ → List Rr → List Rr
  signed_rrs rrtype [] = ldns.list_sort []
  signed_rrs rrtype (rr ∷ rrs) =
      if rrtype == 5 || rrtype == 39 then rr ∷ [] else ldns.list_sort (rr ∷ rrs)

  list_loop-all :
      (rrtype : ℕ) (rrs : List (Entry Rr is_soa))
      → is_singleton Rr is_soa ldns rrtype ≡ false
      → (list_loop Rr is_soa ldns rrtype rrs).1 ≡ canonical rrs
  list_loop-all rrtype [] s = refl
  list_loop-all rrtype (e ∷ rrs) s = rw s elim (Bool-cases e.is_there) [
    | inl t ↦ rw t (ap (λ l. ldns.rr2canonical e.rr ∷ l) (list_loop-all rrtype rrs s))
    | inr t ↦ rw t (list_loop-all rrtype rrs s)
  ]

  list_loop-first :
      (rrtype : ℕ) (rrs : List (Entry Rr is_soa))
      → is_singleton Rr is_soa ldns rrtype ≡ true
      → (list_loop Rr is_soa ldns rrtype rrs).1 ≡ first_of (canonical rrs)
  list_loop-first rrtype [] s = refl
  list_loop-first rrtype (e ∷ rrs) s = rw s elim (Bool-cases e.is_there) [
    | inl t ↦ rw t refl
    | inr t ↦ rw t (list_loop-first rrtype rrs s)
  ]

  signed_first :
      (rrtype : ℕ) (rrs : List Rr)
      → (rrtype == 5 || rrtype == 39) ≡ true
      → (if not (length (first_of rrs) == 0) then first_of rrs else ldns.list_sort (first_of rrs))
        ≡ signed_rrs rrtype rrs
  signed_first rrtype [] s = refl
  signed_first rrtype (rr ∷ rrs) s = rw s refl

  signed_all :
      (rrtype : ℕ) (rrs : List Rr)
      → (rrtype == 5 || rrtype == 39) ≡ false
      → ldns.list_sort rrs ≡ signed_rrs rrtype rrs
  signed_all rrtype [] s = refl
  signed_all rrtype (rr ∷ rrs) s = rw s refl

  pub rrset2rrlist_lem :
      (r : Rrset Rr is_soa)
      → (rrset2rrlist Rr is_soa ldns r).1 ≡ signed_rrs r.rrtype (canonical r.rrs)
  rrset2rrlist_lem r = elim (Bool-cases (is_singleton Rr is_soa ldns r.rrtype)) [
    | inl s ↦ rw (list_loop-first r.rrtype r.rrs s, s) (signed_first r.rrtype (canonical r.rrs) s)
    | inr s ↦ rw (list_loop-all r.rrtype r.rrs s, s) (signed_all r.rrtype (canonical r.rrs) s)
  ]
