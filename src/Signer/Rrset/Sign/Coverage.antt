-- ===== src/Signer/Rrset/Sign/Coverage.antt =====
-- After a set is signed, every key that has to sign it is accounted for.
use mathlib.Core.Path.{subst}
use opendnssec_workflow_test.Common.{
  ℕ, zero, suc, ◌≡◌, refl, sym, Bool, true, false, not, ◌&&◌, ◌||◌, List, [], ◌∷◌, ◌++◌, some,
  arith, ◌==◌, if◌then◌else◌, length, get_elem?,
}
use opendnssec_workflow_test.Common.Int.{ℤ}
use opendnssec_workflow_test.Shared.File.{ods_strcmp, is_zero, ods_strcmp_refl}
use opendnssec_workflow_test.Signer.Rrset.{type_dnskey, Rrsig, Rrset, Changes}
use opendnssec_workflow_test.Signer.Rrset.Keys.{Key}
use opendnssec_workflow_test.Signer.Rrset.Recycle.{is_skipped}
use opendnssec_workflow_test.Signer.Rrset.Sign.Induction.{walk, walk_induction}
use opendnssec_workflow_test.Signer.Rrset.Sign.{
  Durations, rrset_sigvalid_period, Stats, Ldns, status_ok, Hsm, rrset_sigalgo, rrset_siglocator,
  passes_over, Walk, sign_recycled, rrset2rrlist,
}

-- A key that has to sign the set: of the key signing keys for the DNSKEY set, of the zone signing keys
-- for any other.
abbrev pub signs : ℕ → Key → Bool
signs rrtype key = if rrtype == type_dnskey then key.ksk else key.zsk

module _ (Rr : Type 0) (is_soa : Rr → Bool) (ldns : Ldns Rr) where
  -- There is a signature of the key, or for a set other than DNSKEY one of its algorithm.
  abbrev pub is_covered : ℕ → List (Rrsig Rr is_soa) → Key → Bool
  is_covered rrtype sigs key =
      rrset_siglocator Rr is_soa ldns sigs key.locator
      || (not (rrtype == type_dnskey) && rrset_sigalgo Rr is_soa ldns sigs key.algorithm)

  siglocator-append :
      (sigs : List (Rrsig Rr is_soa)) (sig : Rrsig Rr is_soa) (locator : List ℕ)
      → rrset_siglocator Rr is_soa ldns (sigs ++ sig ∷ []) locator ≡ (
          rrset_siglocator Rr is_soa ldns sigs locator
          || is_zero (ods_strcmp (some locator) (some sig.key_locator)))
  siglocator-append [] sig locator = ground arith
  siglocator-append (s ∷ sigs) sig locator = ground (arith, siglocator-append sigs sig locator)

  sigalgo-append :
      (sigs : List (Rrsig Rr is_soa)) (sig : Rrsig Rr is_soa) (alg : ℕ)
      → rrset_sigalgo Rr is_soa ldns (sigs ++ sig ∷ []) alg
        ≡ (rrset_sigalgo Rr is_soa ldns sigs alg || alg == ldns.algorithm sig.rr)
  sigalgo-append [] sig alg = ground arith
  sigalgo-append (s ∷ sigs) sig alg = ground (arith, sigalgo-append sigs sig alg)

  -- A further signature covers no less.
  is_covered-append :
      (rrtype : ℕ) (sigs : List (Rrsig Rr is_soa)) (sig : Rrsig Rr is_soa) (key : Key)
      → is_covered rrtype sigs key ≡ true
      → is_covered rrtype (sigs ++ sig ∷ []) key ≡ true
  is_covered-append rrtype sigs sig key h =
      ground (arith, siglocator-append sigs sig key.locator, sigalgo-append sigs sig key.algorithm)

  -- What a new signature of a key covers, and a key that is passed over.
  is_covered_new :
      (rrtype : ℕ) (sigs : List (Rrsig Rr is_soa)) (sig : Rr) (key : Key)
      → is_covered rrtype
          (sigs ++ record { rr = sig; key_locator = key.locator; key_flags = key.flags } ∷ [])
          key
        ≡ true
  is_covered_new rrtype sigs sig key = ground (
    arith,
    siglocator-append sigs (record { rr = sig; key_locator = key.locator; key_flags = key.flags })
        key.locator,
    ods_strcmp_refl key.locator,
  )

  is_covered_over :
      (r : Rrset Rr is_soa) (key : Key)
      → passes_over Rr is_soa ldns r key ≡ true
      → signs r.rrtype key ≡ true
      → is_covered r.rrtype r.rrsigs key ≡ true
  is_covered_over r key h s = ground arith

  -- All keys are covered when the first is, and the rest are.
  covered-cons :
      (rrtype : ℕ) (sigs : List (Rrsig Rr is_soa)) (key : Key) (keys : List Key)
      → (signs rrtype key ≡ true → is_covered rrtype sigs key ≡ true)
      → ((j : ℕ) (k : Key)
          → get_elem? keys j ≡ some k
          → signs rrtype k ≡ true
          → is_covered rrtype sigs k ≡ true)
      → (j : ℕ) (k : Key) → get_elem? (key ∷ keys) j ≡ some k
      → signs rrtype k ≡ true
      → is_covered rrtype sigs k ≡ true
  covered-cons rrtype sigs key keys first rest zero k g s =
      let same : key ≡ k = cc in
      subst (λ k'. is_covered rrtype sigs k' ≡ true) same
        (first (subst (λ k'. signs rrtype k' ≡ true) (sym same) s))
  covered-cons rrtype sigs key keys first rest (suc j) k g s = rest j k g s

  module _ (hsm : Hsm Rr is_soa ldns) (rr_list : List Rr) (i e : ℤ) where
    -- What the walk leaves covered, by what it began with and by its keys.
    abbrev Covers :
        List Key → Rrset Rr is_soa → Changes Rr is_soa → ℕ → Walk Rr is_soa ldns → Type 0
    Covers keys r c n w =
        (w.rrset.rrtype ≡ r.rrtype)
        × (((key : Key)
              → is_covered r.rrtype r.rrsigs key ≡ true
              → is_covered r.rrtype w.rrset.rrsigs key ≡ true)
            × (w.status ≡ status_ok
                → (j : ℕ) (key : Key) → get_elem? keys j ≡ some key
                → signs r.rrtype key ≡ true
                → is_covered r.rrtype w.rrset.rrsigs key ≡ true))

    walk-Covers :
        (keys : List Key) (r : Rrset Rr is_soa) (c : Changes Rr is_soa) (n : ℕ)
        → Covers keys r c n (walk Rr is_soa ldns hsm rr_list i e keys r c n)
    walk-Covers =
        walk_induction Rr is_soa ldns hsm rr_list i e Covers
          (λ r c n. (refl, ((λ key h. h), (λ st j key g s. absurd cc))))
          (λ key keys r c n w h p. (
            p.0,
            (
              p.1.0,
              (λ st.
                  covered-cons r.rrtype w.rrset.rrsigs key keys
                    (λ s. p.1.0 key (is_covered_over r key h s)) (p.1.1 st)),
            ),
          ))
          (λ key keys r c n w sig h q p.
            let new : Rrsig Rr is_soa = record {
              rr = sig;
              key_locator = key.locator;
              key_flags = key.flags;
            } in
            (
              p.0,
              (
                (λ k g. p.1.0 k (is_covered-append r.rrtype r.rrsigs new k g)),
                (λ st.
                    covered-cons r.rrtype w.rrset.rrsigs key keys
                      (λ s. p.1.0 key (is_covered_new r.rrtype r.rrsigs sig key)) (p.1.1 st)),
              ),
            ))
          (λ key keys r c n h q. (refl, ((λ k g. g), (λ st j k g s. absurd cc))))

  -- A set that is not skipped, that has a published record, and that is signed with success.
  pub sign_recycled-covers :
      (hsm : Hsm Rr is_soa ldns) (uniform : ℕ → ℕ) (sc : Durations) (keys : List Key)
      (signtime dstatus delegpt : ℕ) (stats : Stats) (r : Rrset Rr is_soa) (c : Changes Rr is_soa)
      (reused : ℕ)
      → is_skipped r.rrtype dstatus delegpt ≡ false
      → (length (rrset2rrlist Rr is_soa ldns r).1 == 0) ≡ false
      → (sign_recycled Rr is_soa ldns hsm uniform sc keys signtime dstatus delegpt stats r c
          reused).status
        ≡ status_ok
      → (j : ℕ) (key : Key) → get_elem? keys j ≡ some key
      → signs r.rrtype key ≡ true
      → is_covered r.rrtype
          (sign_recycled Rr is_soa ldns hsm uniform sc keys signtime dstatus delegpt stats r c
            reused).rrset.rrsigs
          key
        ≡ true
  unfolding sign_recycled
  sign_recycled-covers hsm uniform sc keys signtime dstatus delegpt stats r c reused h l =
      let listed = rrset2rrlist Rr is_soa ldns r in
      let period = rrset_sigvalid_period uniform sc r.rrtype signtime in
      rw (h, l) ((walk-Covers hsm listed.1 period.0 period.1 keys listed.0 c 0).1.1)
