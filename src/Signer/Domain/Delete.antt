-- ===== src/Signer/Domain/Delete.antt =====
-- `domain_del_rrset` of signer/src/signer/domain.c, for a set that was just added.
use mathlib.Core.Path.{subst}
use opendnssec_workflow_test.Common.{
  ℕ, suc, ◌≡◌, refl, inl, inr, Bool, true, false, Bool-cases, List, [], ◌∷◌, ◌++◌, Option, none,
  some, arith, ◌==◌, if◌then◌else◌, length,
}
use opendnssec_workflow_test.Common.Result.{ok, err, overrun}
use opendnssec_workflow_test.Signer.Rrset.{Rrset}
use opendnssec_workflow_test.Signer.Domain.{
  Domain, bitmap_changed, lookup_set, domain_add_rrset, del_loop, domain_del_rrset,
}

module _ (Rr : Type 0) (is_soa : Rr → Bool) where
  del_loop_last :
      (cur : Rrset Rr is_soa) (rrsets : List (Rrset Rr is_soa)) (r : Rrset Rr is_soa)
      → lookup_set Rr is_soa rrsets r.rrtype ≡ none
      → del_loop Rr is_soa cur (rrsets ++ r ∷ []) r.rrtype ≡ err overrun
  unfolding del_loop
  del_loop_last cur [] r h = ground arith
  del_loop_last cur (next ∷ rrsets) r h = elim (Bool-cases (next.rrtype == r.rrtype)) [
    | inl q ↦ absurd (ground arith)
    | inr q ↦ ground (arith, del_loop_last next rrsets r)
  ]

  twice :
      (denial : Option Bool)
      → bitmap_changed Rr is_soa true (bitmap_changed Rr is_soa true denial)
        ≡ bitmap_changed Rr is_soa true denial
  twice none = refl
  twice (some b) = refl

  del_added :
      (is_apex : Bool) (denial : Option Bool) (rrsets : List (Rrset Rr is_soa))
      (r : Rrset Rr is_soa) (n : ℕ)
      → r.rrtype ≡ suc n
      → lookup_set Rr is_soa rrsets (suc n) ≡ none
      → (let d : Domain Rr is_soa = record {
        is_apex = is_apex;
        rrsets = rrsets ++ r ∷ [];
        denial = bitmap_changed Rr is_soa true denial;
      } in
          domain_del_rrset Rr is_soa d (suc n) ≡ (
            if length rrsets == 0
            then ok (
              record {
                is_apex = is_apex;
                rrsets = rrsets;
                denial = bitmap_changed Rr is_soa true denial;
              },
              some r,
            )
            else err overrun))
  unfolding domain_del_rrset
  del_added is_apex denial [] r n t h = ground (arith, twice denial)
  del_added is_apex denial (s ∷ rrsets) r n t h =
      let last : del_loop Rr is_soa s (rrsets ++ r ∷ []) (suc n) ≡ err overrun =
        subst (λ m. del_loop Rr is_soa s (rrsets ++ r ∷ []) m ≡ err overrun) t
          (del_loop_last s rrsets r (ground arith)) in
      let other : (s.rrtype == suc n) ≡ false = ground arith in
      let some_left : (suc (length rrsets) == 0) ≡ false = ground arith in
      rw (other, some_left, last) refl

  -- A set that is added to a name without one of its type can be deleted again, and is returned, when
  -- the name had no set at all; otherwise `domain_del_rrset` follows a pointer to none.
  pub domain_del_rrset-domain_add_rrset :
      (d : Domain Rr is_soa) (r : Rrset Rr is_soa) (n : ℕ)
      → r.rrtype ≡ suc n
      → lookup_set Rr is_soa d.rrsets (suc n) ≡ none
      → domain_del_rrset Rr is_soa (domain_add_rrset Rr is_soa d r) (suc n) ≡ (
          if length d.rrsets == 0
          then ok (record d { denial = bitmap_changed Rr is_soa true d.denial }, some r)
          else err overrun)
  unfolding domain_add_rrset
  domain_del_rrset-domain_add_rrset d r n t h = del_added d.is_apex d.denial d.rrsets r n t h
