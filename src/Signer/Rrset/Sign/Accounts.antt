-- ===== src/Signer/Rrset/Sign/Accounts.antt =====
-- What `rrset_sign` leaves in the set, and writes to the journal: the signatures that were used again,
-- and those that the security module just made.
use mathlib.Core.List.{append-nil, append_assoc}
use opendnssec_workflow_test.Common.{
  ℕ, suc, ◌+◌, ◌≡◌, refl, sym, ap, ◌∙◌, inl, inr, Bool, false, Bool-cases, List, [], ◌∷◌, ◌++◌,
  some, arith, ◌==◌, length, get_elem?, All, All-map, map,
}
use opendnssec_workflow_test.Common.Int.{ℤ}
use opendnssec_workflow_test.Common.Result.{Fault, ok, err, ok_inj, Result-cases}
use opendnssec_workflow_test.Signer.Ixfr.Journal.{adds}
use opendnssec_workflow_test.Signer.Rrset.{Rrsig, Rrset, Changes, rrset_add_rrsig}
use opendnssec_workflow_test.Signer.Rrset.Keys.{Key}
use opendnssec_workflow_test.Signer.Rrset.Recycle.{is_skipped, rrset_recycle}
use opendnssec_workflow_test.Signer.Rrset.Recycle.Rounds.{recycled, deleted, rrset_recycle-ok}
use opendnssec_workflow_test.Signer.Rrset.Sign.Induction.{walk, walk_induction}
use opendnssec_workflow_test.Signer.Rrset.Sign.{
  Durations, rrset_sigvalid_period, Stats, Ldns, Hsm, lhsm_sign, Walk, Signed, sign_recycled,
  rrset_sign, status_for, rrset2rrlist,
}

module _ (Rr : Type 0) (is_soa : Rr → Bool) (ldns : Ldns Rr) where
  -- A signature that the security module made of these records with a key of the list.
  module _ (hsm : Hsm Rr is_soa ldns) (rr_list : List Rr) (i e : ℤ) where
    abbrev pub IsFresh : List Key → Rrsig Rr is_soa → Type 0
    IsFresh keys sig =
        (j : ℕ) × ((key : Key) × ((get_elem? keys j ≡ some key)
            × ((lhsm_sign Rr is_soa ldns hsm rr_list key i e ≡ some sig.rr)
                × ((sig.key_locator ≡ key.locator) × (sig.key_flags ≡ key.flags)))))

    -- The walk adds fresh signatures behind those of the set, and to the journal.
    abbrev pub IsAdded :
        List Key → Rrset Rr is_soa → Changes Rr is_soa → ℕ → Walk Rr is_soa ldns → Type 0
    IsAdded keys r c n w =
        (fresh : List (Rrsig Rr is_soa)) × ((w.rrset ≡ record r { rrsigs = r.rrsigs ++ fresh })
          × ((w.changes ≡ c ++ map (λ sig. adds sig.rr) fresh)
              × ((w.newsigs ≡ n + length fresh) × All (IsFresh keys) fresh)))

    abbrev later :
        (key : Key) (keys : List Key) (sig : Rrsig Rr is_soa)
        → IsFresh keys sig
        → IsFresh (key ∷ keys) sig
    later key keys sig p = (suc p.0, p.1)

    unchanged : (r : Rrset Rr is_soa) → r ≡ record r { rrsigs = r.rrsigs ++ [] }
    unchanged r = ap (λ sigs. record r { rrsigs = sigs }) (sym (append-nil r.rrsigs))

    IsAdded-first :
        (key : Key) (keys : List Key) (r : Rrset Rr is_soa) (c : Changes Rr is_soa) (n : ℕ)
        (w : Walk Rr is_soa ldns) (sig : Rr)
        → lhsm_sign Rr is_soa ldns hsm rr_list key i e ≡ some sig
        → IsAdded keys
            (rrset_add_rrsig Rr is_soa r sig key.locator key.flags)
            (c ++ adds sig ∷ [])
            (n + 1)
            w
        → IsAdded (key ∷ keys) r c n w
    IsAdded-first key keys r c n w sig q p =
        let new : Rrsig Rr is_soa = record {
          rr = sig;
          key_locator = key.locator;
          key_flags = key.flags;
        } in
        let made : IsFresh (key ∷ keys) new = (0, (key, (refl, (q, (refl, refl))))) in
        (
          new ∷ p.0,
          (
            p.1.0 ∙ ap (λ sigs. record r { rrsigs = sigs }) (append_assoc r.rrsigs (new ∷ []) p.0),
            (
              p.1.1.0 ∙ append_assoc c (adds sig ∷ []) (map (λ g. adds g.rr) p.0),
              (omega (arith, p.1.1.1.0), (made, All-map (later key keys) p.0 p.1.1.1.1)),
            ),
          ),
        )

    pub walk-IsAdded :
        (keys : List Key) (r : Rrset Rr is_soa) (c : Changes Rr is_soa) (n : ℕ)
        → IsAdded keys r c n (walk Rr is_soa ldns hsm rr_list i e keys r c n)
    walk-IsAdded =
        walk_induction Rr is_soa ldns hsm rr_list i e IsAdded
          (λ r c n. ([], (unchanged r, (sym (append-nil c), (omega arith, tt)))))
          (λ key keys r c n w h p.
            (p.0, (p.1.0, (p.1.1.0, (p.1.1.1.0, All-map (later key keys) p.0 p.1.1.1.1)))))
          (λ key keys r c n w sig h q p. IsAdded-first key keys r c n w sig q p)
          (λ key keys r c n h q. ([], (unchanged r, (sym (append-nil c), (omega arith, tt)))))

  -- The set that `rrset_sign` signs, or does not, when the recycling is over.
  abbrev pub rest_of : Durations → List Key → ℕ → ℕ → ℕ → Rrset Rr is_soa → Rrset Rr is_soa
  rest_of sc keys signtime dstatus delegpt r = record r {
    rrsigs =
        recycled Rr is_soa ldns.expiration ldns.inception keys sc.sig_refresh_interval signtime
          dstatus delegpt r;
    needs_signing = false;
  }

  returned :
      (hsm : Hsm Rr is_soa ldns) (uniform : ℕ → ℕ) (sc : Durations) (keys : List Key)
      (occluded delegation signtime : ℕ) (stats : Stats) (r : Rrset Rr is_soa)
      (v : Rrset Rr is_soa × (Changes Rr is_soa × ℕ))
      → rrset_recycle Rr is_soa ldns.expiration ldns.inception keys sc.sig_refresh_interval signtime
          (status_for r.rrtype occluded)
          (status_for r.rrtype delegation)
          r
        ≡ ok v
      → (length r.rrs == 0) ≡ false
      → ok (
          sign_recycled Rr is_soa ldns hsm uniform sc keys signtime
            (status_for r.rrtype occluded)
            (status_for r.rrtype delegation)
            stats
            (record v.0 { needs_signing = false })
            v.1.0
            v.1.1)
        ≡ rrset_sign Rr is_soa ldns hsm uniform sc keys occluded delegation signtime stats r
  unfolding rrset_sign
  returned hsm uniform sc keys occluded delegation signtime stats r v q h = rw (q, h) refl

  stopped :
      (hsm : Hsm Rr is_soa ldns) (uniform : ℕ → ℕ) (sc : Durations) (keys : List Key)
      (occluded delegation signtime : ℕ) (stats : Stats) (r : Rrset Rr is_soa) (fault : Fault)
      → rrset_recycle Rr is_soa ldns.expiration ldns.inception keys sc.sig_refresh_interval signtime
          (status_for r.rrtype occluded)
          (status_for r.rrtype delegation)
          r
        ≡ err fault
      → rrset_sign Rr is_soa ldns hsm uniform sc keys occluded delegation signtime stats r
        ≡ err fault
  unfolding rrset_sign
  stopped hsm uniform sc keys occluded delegation signtime stats r fault q = rw q refl

  -- When `rrset_sign` of a set that has records returns, it has signed behind the recycling.
  pub rrset_sign-ok :
      (hsm : Hsm Rr is_soa ldns) (uniform : ℕ → ℕ) (sc : Durations) (keys : List Key)
      (occluded delegation signtime : ℕ) (stats : Stats) (r : Rrset Rr is_soa)
      (s : Signed Rr is_soa ldns)
      → (length r.rrs == 0) ≡ false
      → rrset_sign Rr is_soa ldns hsm uniform sc keys occluded delegation signtime stats r ≡ ok s
      → (let dstatus = status_for r.rrtype occluded in
          let delegpt = status_for r.rrtype delegation in
          sign_recycled Rr is_soa ldns hsm uniform sc keys signtime dstatus delegpt stats
            (rest_of sc keys signtime dstatus delegpt r)
            (deleted Rr is_soa ldns.expiration ldns.inception keys sc.sig_refresh_interval signtime
              dstatus delegpt r)
            (length (
              recycled Rr is_soa ldns.expiration ldns.inception keys sc.sig_refresh_interval
                signtime dstatus delegpt r))
          ≡ s)
  rrset_sign-ok hsm uniform sc keys occluded delegation signtime stats r s h e =
      let dstatus = status_for r.rrtype occluded in
      let delegpt = status_for r.rrtype delegation in
      let refresh = sc.sig_refresh_interval in
      elim (Result-cases (
        rrset_recycle Rr is_soa ldns.expiration ldns.inception keys refresh signtime dstatus delegpt
          r)) [
            | inl (v, q) ↦
                let w =
                  rrset_recycle-ok Rr is_soa ldns.expiration ldns.inception keys refresh signtime
                    dstatus delegpt r v q in
                ap
                  (λ v.
                    sign_recycled Rr is_soa ldns hsm uniform sc keys signtime dstatus delegpt stats
                      (record v.0 { needs_signing = false }) v.1.0 v.1.1)
                  w
                ∙ ok_inj
                    (returned hsm uniform sc keys occluded delegation signtime stats r v q h ∙ e)
            | inr (fault, q) ↦
                let f = stopped hsm uniform sc keys occluded delegation signtime stats r fault q in
                let g = sym f ∙ e in absurd cc
          ]

  -- What signing behind the recycling adds.
  pub sign_recycled-adds :
      (hsm : Hsm Rr is_soa ldns) (uniform : ℕ → ℕ) (sc : Durations) (keys : List Key)
      (signtime dstatus delegpt : ℕ) (stats : Stats) (r : Rrset Rr is_soa) (c : Changes Rr is_soa)
      (reused : ℕ)
      → (let s =
            sign_recycled Rr is_soa ldns hsm uniform sc keys signtime dstatus delegpt stats r c
              reused in
          let period = rrset_sigvalid_period uniform sc r.rrtype signtime in
          (fresh : List (Rrsig Rr is_soa)) × ((s.rrset.rrsigs ≡ r.rrsigs ++ fresh)
            × ((s.changes ≡ c ++ map (λ sig. adds sig.rr) fresh)
                × ((s.rrset.needs_signing ≡ r.needs_signing)
                    × All
                        (IsFresh hsm (rrset2rrlist Rr is_soa ldns r).1 period.0 period.1 keys)
                        fresh))))
  unfolding sign_recycled
  sign_recycled-adds hsm uniform sc keys signtime dstatus delegpt stats r c reused =
      let listed = rrset2rrlist Rr is_soa ldns r in
      let period = rrset_sigvalid_period uniform sc r.rrtype signtime in
      let p = walk-IsAdded hsm listed.1 period.0 period.1 keys listed.0 c 0 in
      elim (Bool-cases (is_skipped r.rrtype dstatus delegpt)) [
        | inl h ↦ rw h ([], (sym (append-nil r.rrsigs), (sym (append-nil c), (refl, tt))))
        | inr h ↦ rw h elim (Bool-cases (length listed.1 == 0)) [
          | inl l ↦ rw l ([], (sym (append-nil r.rrsigs), (sym (append-nil c), (refl, tt))))
          | inr l ↦ rw l (
            p.0,
            (ap (λ t. t.rrsigs) p.1.0, (p.1.1.0, (ap (λ t. t.needs_signing) p.1.0, p.1.1.1.1))),
          )
        ]
      ]
