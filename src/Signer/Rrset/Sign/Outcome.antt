-- ===== src/Signer/Rrset/Sign/Outcome.antt =====
-- What `rrset_sign` of signer/src/signer/rrset.c has done when it returns.
use mathlib.Core.Path.{subst}
use opendnssec_workflow_test.Common.{
  ℕ, ◌≡◌, sym, ap, ◌∙◌, Bool, true, false, List, ◌++◌, some, ◌==◌, length, get_elem?, All, map,
}
use opendnssec_workflow_test.Common.Result.{ok}
use opendnssec_workflow_test.Signer.Ixfr.Journal.{adds}
use opendnssec_workflow_test.Signer.Rrset.{Rrsig, Rrset}
use opendnssec_workflow_test.Signer.Rrset.Keys.{Key}
use opendnssec_workflow_test.Signer.Rrset.Recycle.{is_skipped}
use opendnssec_workflow_test.Signer.Rrset.Recycle.Rounds.{recycled, deleted}
use opendnssec_workflow_test.Signer.Rrset.Recycle.Reusable.{IsReusable, recycled-IsReusable}
use opendnssec_workflow_test.Signer.Rrset.Sign.Accounts.{
  IsFresh, sign_recycled-adds, rest_of, rrset_sign-ok,
}
use opendnssec_workflow_test.Signer.Rrset.Sign.Coverage.{signs, is_covered, sign_recycled-covers}
use opendnssec_workflow_test.Signer.Rrset.Sign.Listed.{canonical, signed_rrs, rrset2rrlist_lem}
use opendnssec_workflow_test.Signer.Rrset.Sign.{
  Durations, rrset_sigvalid_period, Stats, Ldns, status_ok, Hsm, Signed, sign_recycled, rrset_sign,
  status_for, rrset2rrlist,
}

module _ (Rr : Type 0) (is_soa : Rr → Bool) (ldns : Ldns Rr) (hsm : Hsm Rr is_soa ldns)
    (uniform : ℕ → ℕ) (sc : Durations) (keys : List Key) where
  -- When `rrset_sign` returns with success, for a set that is neither occluded nor part of a
  -- delegation and that has a published record, each key of the list that has to sign such a set (a
  -- key signing key for DNSKEY, a zone signing key for any other type) has a signature in the set
  -- under its locator, or, unless the type is DNSKEY, there is one of its algorithm.
  pub rrset_sign-covers :
      (occluded delegation signtime : ℕ) (stats : Stats) (r : Rrset Rr is_soa)
      (s : Signed Rr is_soa ldns) (j : ℕ) (key : Key)
      → (length r.rrs == 0) ≡ false
      → is_skipped r.rrtype (status_for r.rrtype occluded) (status_for r.rrtype delegation) ≡ false
      → (length (rrset2rrlist Rr is_soa ldns r).1 == 0) ≡ false
      → rrset_sign Rr is_soa ldns hsm uniform sc keys occluded delegation signtime stats r ≡ ok s
      → s.status ≡ status_ok
      → get_elem? keys j ≡ some key
      → signs r.rrtype key ≡ true
      → is_covered Rr is_soa ldns r.rrtype s.rrset.rrsigs key ≡ true
  rrset_sign-covers occluded delegation signtime stats r s j key n h l e st g k =
      let dstatus = status_for r.rrtype occluded in
      let delegpt = status_for r.rrtype delegation in
      let c =
        deleted Rr is_soa ldns.expiration ldns.inception keys sc.sig_refresh_interval signtime
          dstatus delegpt r in
      let reused = length (
        recycled Rr is_soa ldns.expiration ldns.inception keys sc.sig_refresh_interval signtime
          dstatus delegpt r) in
      let r' = rest_of Rr is_soa ldns sc keys signtime dstatus delegpt r in
      let f : sign_recycled Rr is_soa ldns hsm uniform sc keys signtime dstatus delegpt stats r' c
            reused
          ≡ s =
        rrset_sign-ok Rr is_soa ldns hsm uniform sc keys occluded delegation signtime stats r s n
          e in
      subst (λ t. is_covered Rr is_soa ldns r.rrtype t.rrset.rrsigs key ≡ true) f
        (sign_recycled-covers Rr is_soa ldns hsm uniform sc keys signtime dstatus delegpt stats r' c
          reused h l (ap (λ t. t.status) f ∙ st) j key g k)

  -- When `rrset_sign` returns, with success or not, for a set that has records, its signatures are
  -- those that were used again, all of which were reusable, and behind them fresh ones, each made by
  -- the security module with a key of the list, for the calculated period, of the set's published
  -- records in canonical form (the first of them for CNAME and DNAME, else all, sorted), and kept under that key's locator and flags; the calls on the journal are a deletion of
  -- each signature that was dropped and then an addition of each fresh one; and the set does not need
  -- to be signed again.
  pub rrset_sign-accounts :
      (occluded delegation signtime : ℕ) (stats : Stats) (r : Rrset Rr is_soa)
      (s : Signed Rr is_soa ldns)
      → (length r.rrs == 0) ≡ false
      → rrset_sign Rr is_soa ldns hsm uniform sc keys occluded delegation signtime stats r ≡ ok s
      → (let dstatus = status_for r.rrtype occluded in
          let delegpt = status_for r.rrtype delegation in
          let period = rrset_sigvalid_period uniform sc r.rrtype signtime in
          let reused =
            recycled Rr is_soa ldns.expiration ldns.inception keys sc.sig_refresh_interval signtime
              dstatus delegpt r in
          (fresh : List (Rrsig Rr is_soa)) × ((s.rrset.rrsigs ≡ reused ++ fresh)
            × ((s.changes
                  ≡ deleted Rr is_soa ldns.expiration ldns.inception keys sc.sig_refresh_interval
                      signtime dstatus delegpt r
                    ++ map (λ sig. adds sig.rr) fresh)
                × ((s.rrset.needs_signing ≡ false)
                    × (All
                          (IsReusable Rr is_soa ldns.expiration ldns.inception keys
                            sc.sig_refresh_interval signtime dstatus delegpt r)
                          reused
                        × All
                            (IsFresh Rr is_soa ldns hsm
                              (signed_rrs Rr is_soa ldns r.rrtype (canonical Rr is_soa ldns r.rrs))
                              period.0
                              period.1
                              keys)
                            fresh)))))
  rrset_sign-accounts occluded delegation signtime stats r s n e =
      let dstatus = status_for r.rrtype occluded in
      let delegpt = status_for r.rrtype delegation in
      let f =
        rrset_sign-ok Rr is_soa ldns hsm uniform sc keys occluded delegation signtime stats r s n
          e in
      let period = rrset_sigvalid_period uniform sc r.rrtype signtime in
      let p =
        sign_recycled-adds Rr is_soa ldns hsm uniform sc keys signtime dstatus delegpt stats
          (rest_of Rr is_soa ldns sc keys signtime dstatus delegpt r)
          (deleted Rr is_soa ldns.expiration ldns.inception keys sc.sig_refresh_interval signtime
            dstatus delegpt r)
          (length (
            recycled Rr is_soa ldns.expiration ldns.inception keys sc.sig_refresh_interval signtime
              dstatus delegpt r)) in
      (
        p.0,
        (
          ap (λ t. t.rrset.rrsigs) (sym f) ∙ p.1.0,
          (
            ap (λ t. t.changes) (sym f) ∙ p.1.1.0,
            (
              ap (λ t. t.rrset.needs_signing) (sym f) ∙ p.1.1.1.0,
              (
                recycled-IsReusable Rr is_soa ldns.expiration ldns.inception keys
                    sc.sig_refresh_interval signtime dstatus delegpt r,
                subst (λ l. All (IsFresh Rr is_soa ldns hsm l period.0 period.1 keys) p.0)
                    (rrset2rrlist_lem Rr is_soa ldns r) p.1.1.1.1,
              ),
            ),
          ),
        ),
      )
