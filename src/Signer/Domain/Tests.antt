-- ===== src/Signer/Domain/Tests.antt =====
-- Tests and instances for names and their sets of records. A record is a number.
use opendnssec_workflow_test.Common.{
  arith, ℕ, ◌≡◌, ◌↔◌, refl, Bool, true, false, List, [], ◌∷◌, none, some, All,
}
use opendnssec_workflow_test.Common.Result.{ok, err, overrun}
use opendnssec_workflow_test.Signer.Rrset.{type_soa, Entry, Rrset, Changes}
use opendnssec_workflow_test.Signer.Domain.{
  Domain, type_ns, type_a, domain_add_rrset, domain_del_rrset, del_loop, domain_diff, occluded_loop,
  domain_is_occluded, domain_is_delegpt, domain_ent2unsignedns, ent_loop,
}
use opendnssec_workflow_test.Signer.Domain.Delete.{domain_del_rrset-domain_add_rrset}
use opendnssec_workflow_test.Signer.Domain.Diff.{domain_diff-IsServed, IsServed}
use opendnssec_workflow_test.Signer.Domain.Status.{domain_is_occluded_iff, IsOpen, below_apex}

abbrev never : ℕ → Bool
never rr = false

abbrev here : ℕ → Entry ℕ never
here rr = record { rr = rr; is_there = true; is_added = false; is_removed = false }

abbrev set_of : ℕ → List (Entry ℕ never) → Rrset ℕ never
set_of rrtype rrs = record { rrtype = rrtype; rrs = rrs; rrsigs = []; needs_signing = false }

abbrev name_of : List (Rrset ℕ never) → Domain ℕ never
name_of rrsets = record { is_apex = false; rrsets = rrsets; denial = some false }

abbrev apex : Domain ℕ never
apex = record { is_apex = true; rrsets = set_of type_soa (here 1 ∷ []) ∷ []; denial = none }

abbrev cut : Domain ℕ never
cut = name_of (set_of type_ns (here 2 ∷ []) ∷ [])

abbrev host : Domain ℕ never
host = name_of (set_of type_a (here 3 ∷ []) ∷ set_of 28 (here 4 ∷ []) ∷ [])

status_test :
    (domain_is_occluded ℕ never host (cut ∷ apex ∷ []) ≡ type_a)
    × ((domain_is_occluded ℕ never host (apex ∷ cut ∷ []) ≡ type_soa)
        × ((domain_is_delegpt ℕ never cut ≡ type_ns)
            × (domain_ent2unsignedns ℕ never (λ d. true) (name_of []) ((cut, apex ∷ []) ∷ [])
                ≡ true)))
unfolding occluded_loop ent_loop
status_test = (refl, (refl, (refl, refl)))

-- Of three sets the second is deleted, and the third is returned.
delete_test :
    domain_del_rrset ℕ never
      (name_of (set_of 1 [] ∷ set_of 28 [] ∷ set_of 16 [] ∷ set_of 15 [] ∷ []))
      28
    ≡ ok (
      record (name_of (set_of 1 [] ∷ set_of 16 [] ∷ [])) { denial = some true },
      some (set_of 16 []),
    )
unfolding domain_del_rrset del_loop
delete_test = refl

domain_del_rrset-domain_add_rrset_example :
    domain_del_rrset ℕ never (domain_add_rrset ℕ never host (set_of 16 (here 5 ∷ []))) 16
    ≡ err overrun
domain_del_rrset-domain_add_rrset_example =
    domain_del_rrset-domain_add_rrset ℕ never host (set_of 16 (here 5 ∷ [])) 15 refl refl

domain_is_occluded_iff_example :
    (domain_is_occluded ℕ never host (cut ∷ apex ∷ []) ≡ type_soa)
    ↔ All (IsOpen ℕ never) (below_apex ℕ never (cut ∷ apex ∷ []))
domain_is_occluded_iff_example = domain_is_occluded_iff ℕ never host (cut ∷ apex ∷ []) refl

-- One set loses its only record, the other gets one.
abbrev changing : Domain ℕ never
changing = name_of (
    set_of 1 (here 3 ∷ [])
    ∷ set_of 28 (
        record (here 4) { is_added = true }
        ∷ record (here 5) { is_added = true; is_there = false }
        ∷ [])
    ∷ [])

domain_diff-IsServed_example :
    (d' : Domain ℕ never) × ((changes : Changes ℕ never) × ((domain_diff ℕ never false false
            changing
          ≡ ok (d', changes))
        × All (IsServed ℕ never false false) d'.rrsets))
domain_diff-IsServed_example =
    domain_diff-IsServed ℕ never false false changing ((refl, tt), ((refl, (refl, tt)), tt))
      ((omega arith, omega arith), ((omega arith, omega arith), tt))
