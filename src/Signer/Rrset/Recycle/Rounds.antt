-- ===== src/Signer/Rrset/Recycle/Rounds.antt =====
-- The loop of `rrset_recycle` of signer/src/signer/rrset.c, from every place in it.
use mathlib.Core.List.{append-nil, append_assoc}
use opendnssec_workflow_test.Common.{
  ℕ, suc, ◌+◌, ◌≡◌, refl, ap, ◌∙◌, inl, inr, Bool, true, false, Bool-cases, List, [], ◌∷◌, ◌++◌,
  Option, some, arith, ltb, if◌then◌else◌, length, get_elem?, length-append, if_true, if_false,
  get_elem?-append-length, ◌%◌, ◌^◌, ◌≤◌, ◌<◌, leb, sym,
}
use opendnssec_workflow_test.Common.Result.{Result, ok, err, unfinished, ok_inj, ◌>>=◌}
use opendnssec_workflow_test.Signer.Ixfr.Journal.{dels}
use opendnssec_workflow_test.Signer.Rrset.{
  remove_at-append-length, Entry, Rrsig, Rrset, Changes, rrset_del_rrsig,
}
use opendnssec_workflow_test.Signer.Rrset.Keys.{Key}
use opendnssec_workflow_test.Signer.Rrset.Recycle.{
  is_dropped, recycle_loop, refresh_end, rrset_recycle,
}

module _ (Rr : Type 0) (is_soa : Rr → Bool) (expiration inception : Rr → ℕ) where
  module _ (keys : List Key) (refresh signtime dstatus delegpt rrtype : ℕ)
      (rrs : List (Entry Rr is_soa)) (needs : Bool) where
    abbrev pub with_sigs : List (Rrsig Rr is_soa) → Rrset Rr is_soa
    with_sigs sigs = record { rrtype = rrtype; rrs = rrs; rrsigs = sigs; needs_signing = needs }

    abbrev pub goes : Rrsig Rr is_soa → Bool
    goes sig =
        is_dropped Rr is_soa expiration inception keys refresh signtime dstatus delegpt
          (with_sigs []) sig

    del_round :
        (done rest : List (Rrsig Rr is_soa)) (sig : Rrsig Rr is_soa)
        → length done + suc (length rest) ≤ 2 ^ 16
        → rrset_del_rrsig Rr is_soa (with_sigs (done ++ sig ∷ rest)) (length done)
          ≡ ok (with_sigs (done ++ rest))
    unfolding rrset_del_rrsig
    del_round done rest sig b =
        let m : length done % 2 ^ 16 ≡ length done = omega (arith, b) in
        let l : leb (length (done ++ sig ∷ rest)) (2 ^ 16) ≡ true =
          ground (arith, b, length-append done (sig ∷ rest)) in
        let h : ltb (length done) (length (done ++ sig ∷ rest)) ≡ true =
          ground (arith, length-append done (sig ∷ rest)) in
        rw (m, h, l, remove_at-append-length done sig rest) refl

    abbrev loop :
        ℕ
        → ℕ
        → List (Rrsig Rr is_soa)
        → Changes Rr is_soa
        → ℕ
        → Result (Rrset Rr is_soa × (Changes Rr is_soa × ℕ))
    loop left i sigs c n =
        recycle_loop Rr is_soa expiration inception keys refresh signtime dstatus delegpt left i
          (with_sigs sigs) c n

    loop_step :
        (sig : Rrsig Rr is_soa) (sigs : List (Rrsig Rr is_soa)) (left i n : ℕ)
        (c : Changes Rr is_soa)
        → get_elem? sigs i ≡ some sig
        → loop (suc left) i sigs c n ≡ (
            if goes sig
            then rrset_del_rrsig Rr is_soa (with_sigs sigs) i >>= (λ r'.
              recycle_loop Rr is_soa expiration inception keys refresh signtime dstatus delegpt left
                i r'
                (c ++ dels sig.rr ∷ [])
                n)
            else loop left (suc i) sigs c (n + 1))
    unfolding recycle_loop is_dropped
    loop_step sig sigs left i n c h = cc

    abbrev pub staying : List (Rrsig Rr is_soa) → List (Rrsig Rr is_soa)
    staying [] = []
    staying (sig ∷ sigs) = if goes sig then staying sigs else sig ∷ staying sigs

    abbrev pub going : List (Rrsig Rr is_soa) → Changes Rr is_soa
    going [] = []
    going (sig ∷ sigs) = if goes sig then dels sig.rr ∷ going sigs else going sigs

    abbrev loop_behind :
        List (Rrsig Rr is_soa)
        → List (Rrsig Rr is_soa)
        → Changes Rr is_soa
        → ℕ
        → Result (Rrset Rr is_soa × (Changes Rr is_soa × ℕ))
    loop_behind done rest c n = loop (length rest) (length done) (done ++ rest) c n

    round_goes :
        (done rest : List (Rrsig Rr is_soa)) (sig : Rrsig Rr is_soa) (c : Changes Rr is_soa) (n : ℕ)
        → goes sig ≡ true
        → length done + suc (length rest) ≤ 2 ^ 16
        → loop_behind done (sig ∷ rest) c n ≡ loop_behind done rest (c ++ dels sig.rr ∷ []) n
    round_goes done rest sig c n q b =
        loop_step sig (done ++ sig ∷ rest) (length rest) (length done) n c
          (get_elem?-append-length done sig rest)
        ∙ if_true _ _ q
        ∙ ap
            (λ r. r >>= (λ r'.
              recycle_loop Rr is_soa expiration inception keys refresh signtime dstatus delegpt
                (length rest) (length done) r' (c ++ dels sig.rr ∷ []) n))
            (del_round done rest sig b)

    round_stays :
        (done rest : List (Rrsig Rr is_soa)) (sig : Rrsig Rr is_soa) (c : Changes Rr is_soa) (n : ℕ)
        → goes sig ≡ false
        → loop_behind done (sig ∷ rest) c n ≡ loop_behind (done ++ sig ∷ []) rest c (n + 1)
    round_stays done rest sig c n q =
        loop_step sig (done ++ sig ∷ rest) (length rest) (length done) n c
          (get_elem?-append-length done sig rest)
        ∙ if_false _ _ q
        ∙ rw (append_assoc done (sig ∷ []) rest)
            let h : suc (length done) ≡ length (done ++ sig ∷ []) =
                omega (arith, length-append done (sig ∷ [])) in
              ap (λ i. loop (length rest) i (done ++ sig ∷ rest) c (n + 1)) h

    abbrev finish :
        List (Rrsig Rr is_soa)
        → List (Rrsig Rr is_soa)
        → Changes Rr is_soa
        → ℕ
        → Rrset Rr is_soa × (Changes Rr is_soa × ℕ)
    finish done rest c n =
        (with_sigs (done ++ staying rest), (c ++ going rest, n + length (staying rest)))

    finish-goes :
        (done rest : List (Rrsig Rr is_soa)) (sig : Rrsig Rr is_soa) (c : Changes Rr is_soa) (n : ℕ)
        → goes sig ≡ true
        → finish done rest (c ++ dels sig.rr ∷ []) n ≡ finish done (sig ∷ rest) c n
    finish-goes done rest sig c n q = rw (append_assoc c (dels sig.rr ∷ []) (going rest), q) refl

    finish-stays :
        (done rest : List (Rrsig Rr is_soa)) (sig : Rrsig Rr is_soa) (c : Changes Rr is_soa) (n : ℕ)
        → goes sig ≡ false
        → finish (done ++ sig ∷ []) rest c (n + 1) ≡ finish done (sig ∷ rest) c n
    finish-stays done rest sig c n q =
        rw (append_assoc done (sig ∷ []) (staying rest), q)
          (ap (λ m. (with_sigs (done ++ sig ∷ staying rest), (c ++ going rest, m))) (omega arith))

    -- With more signatures than an index tells apart, a deletion does not end.
    del_many :
        (done rest : List (Rrsig Rr is_soa)) (sig : Rrsig Rr is_soa)
        → 2 ^ 16 < length done + suc (length rest)
        → rrset_del_rrsig Rr is_soa (with_sigs (done ++ sig ∷ rest)) (length done) ≡ err unfinished
    unfolding rrset_del_rrsig
    del_many done rest sig b =
        let h : ltb (length done % 2 ^ 16) (length (done ++ sig ∷ rest)) ≡ true =
          ground (arith, b, length-append done (sig ∷ rest)) in
        let l : leb (length (done ++ sig ∷ rest)) (2 ^ 16) ≡ false =
          ground (arith, b, length-append done (sig ∷ rest)) in
        rw (h, l) refl

    round_goes_many :
        (done rest : List (Rrsig Rr is_soa)) (sig : Rrsig Rr is_soa) (c : Changes Rr is_soa) (n : ℕ)
        → goes sig ≡ true
        → 2 ^ 16 < length done + suc (length rest)
        → loop_behind done (sig ∷ rest) c n ≡ err unfinished
    round_goes_many done rest sig c n q b =
        loop_step sig (done ++ sig ∷ rest) (length rest) (length done) n c
          (get_elem?-append-length done sig rest)
        ∙ if_true _ _ q
        ∙ ap
            (λ r. r >>= (λ r'.
              recycle_loop Rr is_soa expiration inception keys refresh signtime dstatus delegpt
                (length rest) (length done) r' (c ++ dels sig.rr ∷ []) n))
            (del_many done rest sig b)

    -- Whatever the number, a loop that ends has this outcome.
    recycle_loop-ok :
        (rest done : List (Rrsig Rr is_soa)) (c : Changes Rr is_soa) (n : ℕ)
        (v : Rrset Rr is_soa × (Changes Rr is_soa × ℕ))
        → loop_behind done rest c n ≡ ok v
        → finish done rest c n ≡ v
    unfolding recycle_loop
    recycle_loop-ok [] done c n v e =
        let z : ltb (length done) (length done) ≡ false = ground arith in
        let f : loop_behind done [] c n ≡ ok (finish done [] c n) =
          rw (append-nil done, z, append-nil c)
            (ap (λ m. ok (with_sigs done, (c, m))) (omega arith)) in
        ok_inj (sym f ∙ e)
    recycle_loop-ok (sig ∷ rest) done c n v e = elim (Bool-cases (goes sig)) [
      | inl q ↦ elim (Bool-cases (leb (length done + suc (length rest)) (2 ^ 16))) [
        | inl t ↦
            let b : length done + suc (length rest) ≤ 2 ^ 16 = ground (arith, t) in
            sym (finish-goes done rest sig c n q)
            ∙ recycle_loop-ok rest done (c ++ dels sig.rr ∷ []) n v
                (sym (round_goes done rest sig c n q b) ∙ e)
        | inr t ↦
            let b : 2 ^ 16 < length done + suc (length rest) = ground (arith, t) in
            let f = sym (round_goes_many done rest sig c n q b) ∙ e in absurd cc
      ]
      | inr q ↦
          sym (finish-stays done rest sig c n q)
          ∙ recycle_loop-ok rest (done ++ sig ∷ []) c (n + 1) v
              (sym (round_stays done rest sig c n q) ∙ e)
    ]

  module _ (keys : List Key) (interval : Option ℕ) (signtime dstatus delegpt : ℕ) where
    -- The signatures of a set that stay, and the deletions of the others.
    abbrev pub recycled : Rrset Rr is_soa → List (Rrsig Rr is_soa)
    recycled r =
        staying keys (refresh_end Rr is_soa expiration inception interval signtime) signtime dstatus
          delegpt r.rrtype r.rrs r.needs_signing r.rrsigs

    abbrev pub deleted : Rrset Rr is_soa → Changes Rr is_soa
    deleted r =
        going keys (refresh_end Rr is_soa expiration inception interval signtime) signtime dstatus
          delegpt r.rrtype r.rrs r.needs_signing r.rrsigs

    -- Whatever the number of signatures, when `rrset_recycle` returns, this is what it did.
    pub rrset_recycle-ok :
        (r : Rrset Rr is_soa) (v : Rrset Rr is_soa × (Changes Rr is_soa × ℕ))
        → rrset_recycle Rr is_soa expiration inception keys interval signtime dstatus delegpt r
          ≡ ok v
        → (record r { rrsigs = recycled r }, (deleted r, length (recycled r))) ≡ v
    unfolding rrset_recycle
    rrset_recycle-ok r v e =
        ap (λ n. (record r { rrsigs = recycled r }, (deleted r, n))) (omega arith)
        ∙ recycle_loop-ok keys (refresh_end Rr is_soa expiration inception interval signtime)
            signtime dstatus delegpt r.rrtype r.rrs r.needs_signing r.rrsigs [] [] 0 v e
