-- ===== src/Signer/Rrset/Sign/Induction.antt =====
-- The walk over the keys of `rrset_sign`, round by round.
use mathlib.Core.Path.{subst}
use opendnssec_workflow_test.Common.{
  ℕ, ◌+◌, ◌≡◌, refl, sym, inl, inr, Bool, true, false, Bool-cases, Option-cases, List, [], ◌∷◌,
  ◌++◌, none, some,
}
use opendnssec_workflow_test.Common.Int.{ℤ}
use opendnssec_workflow_test.Signer.Ixfr.Journal.{adds}
use opendnssec_workflow_test.Signer.Rrset.{Rrset, Changes, rrset_add_rrsig}
use opendnssec_workflow_test.Signer.Rrset.Keys.{Key}
use opendnssec_workflow_test.Signer.Rrset.Sign.{
  Ldns, status_ok, hsm_err, Hsm, lhsm_sign, passes_over, Walk, walk_keys,
}

module _ (Rr : Type 0) (is_soa : Rr → Bool) (ldns : Ldns Rr) where
  module _ (hsm : Hsm Rr is_soa ldns) (rr_list : List Rr) (i e : ℤ) where
    abbrev pub walk : List Key → Rrset Rr is_soa → Changes Rr is_soa → ℕ → Walk Rr is_soa ldns
    walk keys r c n = walk_keys Rr is_soa ldns hsm rr_list i e keys r c n

    walk_over :
        (key : Key) (keys : List Key) (r : Rrset Rr is_soa) (c : Changes Rr is_soa) (n : ℕ)
        → passes_over Rr is_soa ldns r key ≡ true
        → walk (key ∷ keys) r c n ≡ walk keys r c n
    unfolding walk_keys
    walk_over key keys r c n h = rw h refl

    walk_signed :
        (key : Key) (keys : List Key) (r : Rrset Rr is_soa) (c : Changes Rr is_soa) (n : ℕ)
        (sig : Rr)
        → passes_over Rr is_soa ldns r key ≡ false
        → lhsm_sign Rr is_soa ldns hsm rr_list key i e ≡ some sig
        → walk (key ∷ keys) r c n
          ≡ walk keys
              (rrset_add_rrsig Rr is_soa r sig key.locator key.flags)
              (c ++ adds sig ∷ [])
              (n + 1)
    unfolding walk_keys
    walk_signed key keys r c n sig h q = cc

    walk_failed :
        (key : Key) (keys : List Key) (r : Rrset Rr is_soa) (c : Changes Rr is_soa) (n : ℕ)
        → passes_over Rr is_soa ldns r key ≡ false
        → lhsm_sign Rr is_soa ldns hsm rr_list key i e ≡ none
        → walk (key ∷ keys) r c n ≡ record { status = hsm_err; rrset = r; changes = c; newsigs = n }
    unfolding walk_keys
    walk_failed key keys r c n h q = cc

    -- What is shown of the walk from every later place in it holds from its start.
    pub walk_induction :
        (P : List Key → Rrset Rr is_soa → Changes Rr is_soa → ℕ → Walk Rr is_soa ldns → Type 0)
        → ((r : Rrset Rr is_soa) (c : Changes Rr is_soa) (n : ℕ)
            → P [] r c n (record { status = status_ok; rrset = r; changes = c; newsigs = n }))
        → ((key : Key) (keys : List Key) (r : Rrset Rr is_soa) (c : Changes Rr is_soa) (n : ℕ)
              (w : Walk Rr is_soa ldns)
            → passes_over Rr is_soa ldns r key ≡ true
            → P keys r c n w
            → P (key ∷ keys) r c n w)
        → ((key : Key) (keys : List Key) (r : Rrset Rr is_soa) (c : Changes Rr is_soa) (n : ℕ)
              (w : Walk Rr is_soa ldns) (sig : Rr)
            → passes_over Rr is_soa ldns r key ≡ false
            → lhsm_sign Rr is_soa ldns hsm rr_list key i e ≡ some sig
            → P keys
                (rrset_add_rrsig Rr is_soa r sig key.locator key.flags)
                (c ++ adds sig ∷ [])
                (n + 1)
                w
            → P (key ∷ keys) r c n w)
        → ((key : Key) (keys : List Key) (r : Rrset Rr is_soa) (c : Changes Rr is_soa) (n : ℕ)
            → passes_over Rr is_soa ldns r key ≡ false
            → lhsm_sign Rr is_soa ldns hsm rr_list key i e ≡ none
            → P
                (key ∷ keys)
                r
                c
                n
                (record { status = hsm_err; rrset = r; changes = c; newsigs = n }))
        → (keys : List Key) (r : Rrset Rr is_soa) (c : Changes Rr is_soa) (n : ℕ)
        → P keys r c n (walk keys r c n)
    unfolding walk_keys
    walk_induction P end over signed failed [] r c n = end r c n
    walk_induction P end over signed failed (key ∷ keys) r c n =
        elim (Bool-cases (passes_over Rr is_soa ldns r key)) [
          | inl h ↦ subst (P (key ∷ keys) r c n) (sym (walk_over key keys r c n h)) (
              over key keys r c n (walk keys r c n) h
                (walk_induction P end over signed failed keys r c n))
          | inr h ↦ elim (Option-cases (lhsm_sign Rr is_soa ldns hsm rr_list key i e)) [
            | inl q ↦
                subst (P (key ∷ keys) r c n) (sym (walk_failed key keys r c n h q))
                  (failed key keys r c n h q)
            | inr (sig, q) ↦
                let r' = rrset_add_rrsig Rr is_soa r sig key.locator key.flags in
                subst (P (key ∷ keys) r c n) (sym (walk_signed key keys r c n sig h q)) (
                  signed key keys r c n (walk keys r' (c ++ adds sig ∷ []) (n + 1)) sig h q
                    (walk_induction P end over signed failed keys r' (c ++ adds sig ∷ []) (n + 1)))
          ]
        ]
