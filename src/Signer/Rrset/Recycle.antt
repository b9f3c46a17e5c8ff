-- ===== src/Signer/Rrset/Recycle.antt =====
-- `rrset_recycle` of signer/src/signer/rrset.c keeps the signatures that can be used again, and drops
-- the others. What ldns reads from a signature is a parameter, as are the seconds of a duration.
pub mod Rounds
pub mod Reusable
use mathlib.Core.List.{append-nil, append_assoc}
use opendnssec_workflow_test.Common.{
  ℕ, zero, suc, ◌+◌, ◌-◌, ◌%◌, ◌^◌, ◌≤◌, ◌<◌, ◌≡◌, refl, sym, ap, ◌∙◌, inl, inr, Bool, true, false,
  not, ◌&&◌, ◌||◌, Bool-cases, Option-cases, All, List, [], ◌∷◌, ◌++◌, Option, none, some, arith,
  ltb, leb, ◌==◌, if◌then◌else◌, length, get_elem?, map, length-append, if_true, if_false,
  get_elem?-append-length,
}
use opendnssec_workflow_test.Common.Result.{
  Result, ok, err, assertion, unfinished, ◌>>=◌, ◌>>◌, require,
}
use opendnssec_workflow_test.Signer.Ixfr.Journal.{Call, adds, dels}
use opendnssec_workflow_test.Signer.Rrset.{
  type_soa, type_ds, remove_at, remove_at-append-length, Entry, Rrsig, Rrset, Changes,
  rrset_del_rrsig,
}
use opendnssec_workflow_test.Signer.Rrset.Keys.{
  Key, lookup_loop, lookup_loop-some, keylist_lookup_by_locator,
}

-- Skip delegation, glue and occluded sets.
abbrev pub is_skipped : ℕ → ℕ → ℕ → Bool
is_skipped rrtype dstatus delegpt =
    not (dstatus == type_soa) || (not (delegpt == type_soa) && not (rrtype == type_ds))

module _ (Rr : Type 0) (is_soa : Rr → Bool) (expiration inception : Rr → ℕ) where
  -- The key of the signature is gone, or its flags are others.
  abbrev pub is_dead : List Key → Rrsig Rr is_soa → Bool
  is_dead keys sig = elim (keylist_lookup_by_locator keys (some sig.key_locator)) [
    | none ↦ true
    | some key ↦ not (key.flags == sig.key_flags)
  ]

  -- The tests of a round, in their order.
  unfoldable pub is_dropped : List Key → ℕ → ℕ → ℕ → ℕ → Rrset Rr is_soa → Rrsig Rr is_soa → Bool
  is_dropped keys refresh signtime dstatus delegpt r sig =
      is_skipped r.rrtype dstatus delegpt
      || (r.needs_signing || leb refresh (signtime % 2 ^ 32))
      || ltb (expiration sig.rr) refresh
      || ltb (signtime % 2 ^ 32) (inception sig.rr)
      || is_dead keys sig

  module _ (keys : List Key) (refresh signtime dstatus delegpt : ℕ) where
    -- The loop: so many are left at the most, the next has this index, and so many are used again.
    unfoldable pub recycle_loop :
        ℕ
        → ℕ
        → Rrset Rr is_soa
        → Changes Rr is_soa
        → ℕ
        → Result (Rrset Rr is_soa × (Changes Rr is_soa × ℕ))
    recycle_loop zero i r changes reused =
        if ltb i (length r.rrsigs) then err unfinished else ok (r, (changes, reused))
    recycle_loop (suc left) i r changes reused = elim (get_elem? r.rrsigs i) [
      | none ↦ ok (r, (changes, reused))
      | some sig ↦
          let stays = recycle_loop left (suc i) r changes (reused + 1) in
          let goes =
            rrset_del_rrsig Rr is_soa r i
            >>= (λ r'. recycle_loop left i r' (changes ++ dels sig.rr ∷ []) reused) in
          if is_dropped keys refresh signtime dstatus delegpt r sig then goes else stays
    ]

  -- The end of the refresh window; without a refresh interval it is 0.
  abbrev pub refresh_end : Option ℕ → ℕ → ℕ
  refresh_end none signtime = 0
  refresh_end (some interval) signtime = (signtime + interval) % 2 ^ 32

  -- `rrset_recycle`
  unfoldable pub rrset_recycle :
      List Key
      → Option ℕ
      → ℕ
      → ℕ
      → ℕ
      → Rrset Rr is_soa
      → Result (Rrset Rr is_soa × (Changes Rr is_soa × ℕ))
  rrset_recycle keys interval signtime dstatus delegpt r =
      recycle_loop keys (refresh_end interval signtime) signtime dstatus delegpt (length r.rrsigs) 0
        r [] 0
