-- ===== src/Signer/Domain/Undo.antt =====
-- `domain_rollback` of signer/src/signer/domain.c undoes the additions of `rrset_add_rr`.
use opendnssec_workflow_test.Common.{
  ◌≡◌, refl, Bool, true, false, List, [], ◌∷◌, ◌==◌, length, All, map,
}
use opendnssec_workflow_test.Signer.Rrset.{Entry, Rrset, rrset_add_rr}
use opendnssec_workflow_test.Signer.Domain.{Domain}

module _ (Rr : Type 0) (is_soa : Rr → Bool) where
  -- Records that are added to a set one by one, and to each set of a name.
  abbrev pub add_all : Rrset Rr is_soa → List Rr → Rrset Rr is_soa
  add_all r [] = r
  add_all r (rr ∷ rrs) = add_all (rrset_add_rr Rr is_soa r rr) rrs

  abbrev pub add_each : List (Rrset Rr is_soa) → List (List Rr) → List (Rrset Rr is_soa)
  add_each [] news = []
  add_each (r ∷ rrsets) [] = r ∷ add_each rrsets []
  add_each (r ∷ rrsets) (rrs ∷ news) = add_all r rrs ∷ add_each rrsets news

  -- A record between two updates: published, without marks.
  abbrev pub IsAtRest : Entry Rr is_soa → Type 0
  IsAtRest e = (e.is_there ≡ true) × ((e.is_added ≡ false) × (e.is_removed ≡ false))

  abbrev pub IsSetAtRest : Rrset Rr is_soa → Type 0
  IsSetAtRest r = ((length r.rrs == 0) ≡ false) × All IsAtRest r.rrs

  add_all-rrtype : (r : Rrset Rr is_soa) (rrs : List Rr) → (add_all r rrs).rrtype ≡ r.rrtype
  add_all-rrtype r [] = refl
  add_all-rrtype r (rr ∷ rrs) = add_all-rrtype (rrset_add_rr Rr is_soa r rr) rrs

  abbrev pub records : List (Rrset Rr is_soa) → List (List (Entry Rr is_soa))
  records rrsets = map (λ r. r.rrs) rrsets
