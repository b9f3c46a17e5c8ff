-- ===== src/Signer/Rrset/Diff.antt =====
-- What `rrset_diff` of signer/src/signer/rrset.c comes to: a pass over the records, which tells those
-- that stay, and what goes to the journal.
pub mod Rounds
pub mod Outcome
use opendnssec_workflow_test.Common.{
  ℕ, zero, suc, ◌+◌, ◌-◌, ◌*◌, ◌≤◌, ◌<◌, ◌≡◌, refl, sym, ap, ◌∙◌, inl, inr, Bool, true, false, not,
  ◌&&◌, ◌||◌, Bool-cases, List, [], ◌∷◌, ◌++◌, Option, none, some, arith, ltb, ◌==◌, if◌then◌else◌,
  length, get_elem?, set, map, length-append, if_true, if_false, get_elem?-append-length,
  set-append-length,
}
use opendnssec_workflow_test.Common.Result.{Result, ok, err, assertion, ◌>>=◌, ◌>>◌, require}
use opendnssec_workflow_test.Signer.Ixfr.Journal.{Call, adds, dels}
use opendnssec_workflow_test.Signer.Rrset.{
  remove_at, remove_at-append-length, Entry, Rrsig, Rrset, Changes, rrset_del_rr, rrset_del_rrsig,
  Differing, stays_added, diff_added, diff_gone, diff_loop, drop_loop, rrset_diff,
}

module _ (Rr : Type 0) (is_soa : Rr → Bool) where
  -- What becomes of a record, by a pass from front to back.
  module _ (is_ixfr more_coming : Bool) (rrtype : ℕ) where
    abbrev pub is_gone : Entry Rr is_soa → Bool
    is_gone e = not e.is_added && (not is_ixfr || e.is_removed)

    -- The types DNSKEY (48) and NSEC3PARAM (51) keep the mark of an addition when more is coming.
    abbrev pub marked : Entry Rr is_soa → Entry Rr is_soa
    marked e = record e {
      is_there = true;
      is_added = if (rrtype == 48 || rrtype == 51) && more_coming then e.is_added else false;
    }

    abbrev pub settled : Entry Rr is_soa → Entry Rr is_soa
    settled e = if e.is_added then marked e else e

    abbrev pub kept : List (Entry Rr is_soa) → List (Entry Rr is_soa)
    kept [] = []
    kept (e ∷ rrs) = if is_gone e then kept rrs else settled e ∷ kept rrs

    abbrev pub any_gone : List (Entry Rr is_soa) → Bool
    any_gone [] = false
    any_gone (e ∷ rrs) = is_gone e || any_gone rrs

    -- Whether the set of published records changes, and how.
    abbrev pub any_changed : List (Entry Rr is_soa) → Bool
    any_changed [] = false
    any_changed (e ∷ rrs) = (is_gone e || (e.is_added && not e.is_there)) || any_changed rrs

    abbrev pub change : Entry Rr is_soa → Changes Rr is_soa
    change e =
        if e.is_added
        then (if e.is_there then [] else adds e.rr ∷ [])
        else if is_gone e && e.is_there
        then dels e.rr ∷ []
        else []

    abbrev pub changes_of : List (Entry Rr is_soa) → Changes Rr is_soa
    changes_of [] = []
    changes_of (e ∷ rrs) = change e ++ changes_of rrs

  -- The set after the differences are applied, and the calls on the journal.
  abbrev pub applied : Bool → Bool → Rrset Rr is_soa → Rrset Rr is_soa × Changes Rr is_soa
  applied is_ixfr more_coming r =
      let dropped = any_changed is_ixfr more_coming r.rrtype r.rrs in
      (
        record {
          rrtype = r.rrtype;
          rrs = kept is_ixfr more_coming r.rrtype r.rrs;
          rrsigs = if dropped then [] else r.rrsigs;
          needs_signing = r.needs_signing || any_gone is_ixfr more_coming r.rrtype r.rrs;
        },
        changes_of is_ixfr more_coming r.rrtype r.rrs
            ++ (if dropped then map (λ sig. dels sig.rr) r.rrsigs else []),
      )
