-- ===== src/Signer/Rrset/Diff/Rounds.antt =====
-- The loops of `rrset_diff` of signer/src/signer/rrset.c, from every place in them.
use mathlib.Core.List.{append-nil, append_assoc}
use opendnssec_workflow_test.Common.{
  ℕ, suc, ◌≡◌, refl, ap, ◌∙◌, inl, inr, Bool, true, false, not, ◌||◌, Bool-cases, List, [], ◌∷◌,
  ◌++◌, some, arith, ltb, if◌then◌else◌, length, get_elem?, map, length-append, if_true, if_false,
  get_elem?-append-length, set-append-length, ◌+◌, ◌%◌, ◌^◌, ◌<◌, ◌≤◌, leb,
}
use opendnssec_workflow_test.Common.Result.{Result, ok, ◌>>=◌}
use opendnssec_workflow_test.Signer.Ixfr.Journal.{adds, dels}
use opendnssec_workflow_test.Signer.Rrset.{
  remove_at-append-length, Entry, Rrsig, Changes, rrset_del_rr, rrset_del_rrsig, Differing,
  diff_added, diff_gone, diff_loop, drop_loop,
}
use opendnssec_workflow_test.Signer.Rrset.Diff.{marked, kept, any_gone, any_changed, changes_of}

||-false : (b : Bool) → (b || false) ≡ b
||-false true = refl
||-false false = refl

||-true : (b : Bool) → (b || true) ≡ true
||-true true = refl
||-true false = refl

module _ (Rr : Type 0) (is_soa : Rr → Bool) where
  module _ (is_ixfr more_coming : Bool) (rrtype : ℕ) (sigs : List (Rrsig Rr is_soa)) where
    abbrev pub differing :
        List (Entry Rr is_soa) → Bool → Changes Rr is_soa → Bool → Differing Rr is_soa
    differing rrs needs changes del_sigs = record {
      rrset = record { rrtype = rrtype; rrs = rrs; rrsigs = sigs; needs_signing = needs };
      changes = changes;
      del_sigs = del_sigs;
    }

    -- The end of the loop, from a place in it.
    abbrev pub finish :
        List (Entry Rr is_soa)
        → List (Entry Rr is_soa)
        → Bool
        → Changes Rr is_soa
        → Bool
        → Differing Rr is_soa
    finish done rest n c d =
        differing (done ++ kept Rr is_soa is_ixfr more_coming rrtype rest)
          (n || any_gone Rr is_soa is_ixfr more_coming rrtype rest)
          (c ++ changes_of Rr is_soa is_ixfr more_coming rrtype rest)
          (d || any_changed Rr is_soa is_ixfr more_coming rrtype rest)

    diff_loop_step :
        (e : Entry Rr is_soa) (left i : ℕ) (s : Differing Rr is_soa)
        → get_elem? s.rrset.rrs i ≡ some e
        → diff_loop Rr is_soa is_ixfr more_coming (suc left) i s ≡ (
            if e.is_added
            then diff_loop Rr is_soa is_ixfr more_coming left
                (suc i % 2 ^ 16)
                (diff_added Rr is_soa more_coming i e s)
            else if not is_ixfr || e.is_removed
            then diff_gone Rr is_soa i e s >>= diff_loop Rr is_soa is_ixfr more_coming left i
            else diff_loop Rr is_soa is_ixfr more_coming left (suc i % 2 ^ 16) s)
    unfolding diff_loop
    diff_loop_step e left i s h = cc

    -- The loop from behind a prefix, which is longer by one in the next round.
    abbrev pub loop_behind :
        List (Entry Rr is_soa)
        → List (Entry Rr is_soa)
        → Bool
        → Changes Rr is_soa
        → Bool
        → Result (Differing Rr is_soa)
    loop_behind done rest n c d =
        diff_loop Rr is_soa is_ixfr more_coming (length rest) (length done)
          (differing (done ++ rest) n c d)

    next_round :
        (done rest : List (Entry Rr is_soa)) (e : Entry Rr is_soa) (n : Bool)
        (c : Changes Rr is_soa) (d : Bool)
        → length done + suc (length rest) < 2 ^ 16
        → diff_loop Rr is_soa is_ixfr more_coming
            (length rest)
            (suc (length done) % 2 ^ 16)
            (differing (done ++ e ∷ rest) n c d)
          ≡ loop_behind (done ++ e ∷ []) rest n c d
    next_round done rest e n c d b =
        rw (append_assoc done (e ∷ []) rest)
          let h : suc (length done) % 2 ^ 16 ≡ length (done ++ e ∷ []) =
              omega (arith, b, length-append done (e ∷ [])) in
            ap
              (λ i.
                diff_loop Rr is_soa is_ixfr more_coming (length rest) i
                  (differing (done ++ e ∷ rest) n c d))
              h

    gone_round :
        (done rest : List (Entry Rr is_soa)) (e : Entry Rr is_soa) (n : Bool)
        (c : Changes Rr is_soa) (d : Bool)
        → length done + suc (length rest) < 2 ^ 16
        → diff_gone Rr is_soa (length done) e (differing (done ++ e ∷ rest) n c d)
          ≡ ok (differing (done ++ rest) true (if e.is_there then c ++ dels e.rr ∷ [] else c) true)
    unfolding rrset_del_rr
    gone_round done rest e n c d b =
        let m : length done % 2 ^ 16 ≡ length done = omega (arith, b) in
        let l : leb (length (done ++ e ∷ rest)) (2 ^ 16) ≡ true =
          ground (arith, b, length-append done (e ∷ rest)) in
        let h : ltb (length done) (length (done ++ e ∷ rest)) ≡ true =
          ground (arith, length-append done (e ∷ rest)) in
        rw (m, h, l, remove_at-append-length done e rest) refl

    -- The first of the rest takes its part in the end of the loop.
    finish_added :
        (done rest : List (Entry Rr is_soa)) (e : Entry Rr is_soa) (n : Bool)
        (c : Changes Rr is_soa) (d : Bool)
        → e.is_added ≡ true
        → finish
            (done ++ marked Rr is_soa is_ixfr more_coming rrtype e ∷ [])
            rest
            n
            (if e.is_there then c else c ++ adds e.rr ∷ [])
            (if e.is_there then d else true)
          ≡ finish done (e ∷ rest) n c d
    finish_added done rest e n c d q =
        rw
          (
            append_assoc done (marked Rr is_soa is_ixfr more_coming rrtype e ∷ [])
                (kept Rr is_soa is_ixfr more_coming rrtype rest),
            q,
          )
          elim (Bool-cases e.is_there) [
            | inl t ↦ rw t refl
            | inr t ↦
                rw
                  (
                    t,
                    ||-true d,
                    append_assoc c (adds e.rr ∷ [])
                        (changes_of Rr is_soa is_ixfr more_coming rrtype rest),
                  )
                  refl
          ]

    finish_gone :
        (done rest : List (Entry Rr is_soa)) (e : Entry Rr is_soa) (n : Bool)
        (c : Changes Rr is_soa) (d : Bool)
        → e.is_added ≡ false
        → (not is_ixfr || e.is_removed) ≡ true
        → finish done rest true (if e.is_there then c ++ dels e.rr ∷ [] else c) true
          ≡ finish done (e ∷ rest) n c d
    finish_gone done rest e n c d q g =
        rw (q, g)
          elim (Bool-cases e.is_there) [
            | inl t ↦
                rw
                  (
                    t,
                    ||-true n,
                    ||-true d,
                    append_assoc c (dels e.rr ∷ [])
                        (changes_of Rr is_soa is_ixfr more_coming rrtype rest),
                  )
                  refl
            | inr t ↦ rw (t, ||-true n, ||-true d) refl
          ]

    finish_kept :
        (done rest : List (Entry Rr is_soa)) (e : Entry Rr is_soa) (n : Bool)
        (c : Changes Rr is_soa) (d : Bool)
        → e.is_added ≡ false
        → (not is_ixfr || e.is_removed) ≡ false
        → finish (done ++ e ∷ []) rest n c d ≡ finish done (e ∷ rest) n c d
    finish_kept done rest e n c d q g =
        rw (append_assoc done (e ∷ []) (kept Rr is_soa is_ixfr more_coming rrtype rest), q, g) refl

    round_added :
        (done rest : List (Entry Rr is_soa)) (e : Entry Rr is_soa) (n : Bool)
        (c : Changes Rr is_soa) (d : Bool)
        → e.is_added ≡ true
        → length done + suc (length rest) < 2 ^ 16
        → loop_behind done (e ∷ rest) n c d
          ≡ loop_behind
              (done ++ marked Rr is_soa is_ixfr more_coming rrtype e ∷ [])
              rest
              n
              (if e.is_there then c else c ++ adds e.rr ∷ [])
              (if e.is_there then d else true)
    round_added done rest e n c d q b =
        diff_loop_step e (length rest) (length done) (differing (done ++ e ∷ rest) n c d)
          (get_elem?-append-length done e rest)
        ∙ if_true _ _ q
        ∙ ap
            (λ rrs.
              diff_loop Rr is_soa is_ixfr more_coming (length rest) (suc (length done) % 2 ^ 16) (
                differing rrs n (if e.is_there then c else c ++ adds e.rr ∷ [])
                  (if e.is_there then d else true)))
            (set-append-length done e (marked Rr is_soa is_ixfr more_coming rrtype e) rest)
        ∙ next_round done rest (marked Rr is_soa is_ixfr more_coming rrtype e) n
            (if e.is_there then c else c ++ adds e.rr ∷ []) (if e.is_there then d else true) b

    round_gone :
        (done rest : List (Entry Rr is_soa)) (e : Entry Rr is_soa) (n : Bool)
        (c : Changes Rr is_soa) (d : Bool)
        → e.is_added ≡ false
        → (not is_ixfr || e.is_removed) ≡ true
        → length done + suc (length rest) < 2 ^ 16
        → loop_behind done (e ∷ rest) n c d
          ≡ loop_behind done rest true (if e.is_there then c ++ dels e.rr ∷ [] else c) true
    round_gone done rest e n c d q g b =
        diff_loop_step e (length rest) (length done) (differing (done ++ e ∷ rest) n c d)
          (get_elem?-append-length done e rest)
        ∙ if_false _ _ q
        ∙ if_true _ _ g
        ∙ ap (λ r. r >>= diff_loop Rr is_soa is_ixfr more_coming (length rest) (length done))
            (gone_round done rest e n c d b)

    round_kept :
        (done rest : List (Entry Rr is_soa)) (e : Entry Rr is_soa) (n : Bool)
        (c : Changes Rr is_soa) (d : Bool)
        → e.is_added ≡ false
        → (not is_ixfr || e.is_removed) ≡ false
        → length done + suc (length rest) < 2 ^ 16
        → loop_behind done (e ∷ rest) n c d ≡ loop_behind (done ++ e ∷ []) rest n c d
    round_kept done rest e n c d q g b =
        diff_loop_step e (length rest) (length done) (differing (done ++ e ∷ rest) n c d)
          (get_elem?-append-length done e rest)
        ∙ if_false _ _ q
        ∙ if_false _ _ g
        ∙ next_round done rest e n c d b

    pub diff_loop-eq :
        (rest done : List (Entry Rr is_soa)) (n : Bool) (c : Changes Rr is_soa) (d : Bool)
        → length done + length rest < 2 ^ 16
        → loop_behind done rest n c d ≡ ok (finish done rest n c d)
    unfolding diff_loop
    diff_loop-eq [] done n c d b =
        let z : ltb (length done) (length done) ≡ false = ground arith in
        rw (append-nil done, z, append-nil c, ||-false n, ||-false d) refl
    diff_loop-eq (e ∷ rest) done n c d b = elim (Bool-cases e.is_added) [
      | inl q ↦
          round_added done rest e n c d q b
          ∙ diff_loop-eq rest (done ++ marked Rr is_soa is_ixfr more_coming rrtype e ∷ []) n
              (if e.is_there then c else c ++ adds e.rr ∷ []) (if e.is_there then d else true)
              (omega
                (arith, b, length-append done (marked Rr is_soa is_ixfr more_coming rrtype e ∷ [])))
          ∙ ap ok (finish_added done rest e n c d q)
      | inr q ↦ elim (Bool-cases (not is_ixfr || e.is_removed)) [
        | inl g ↦
            round_gone done rest e n c d q g b
            ∙ diff_loop-eq rest done true (if e.is_there then c ++ dels e.rr ∷ [] else c) true
                (omega (arith, b))
            ∙ ap ok (finish_gone done rest e n c d q g)
        | inr g ↦
            round_kept done rest e n c d q g b
            ∙ diff_loop-eq rest (done ++ e ∷ []) n c d
                (omega (arith, b, length-append done (e ∷ [])))
            ∙ ap ok (finish_kept done rest e n c d q g)
      ]
    ]

  del_first :
      (rrtype : ℕ) (rrs : List (Entry Rr is_soa)) (needs : Bool) (sig : Rrsig Rr is_soa)
      (sigs : List (Rrsig Rr is_soa))
      → length sigs < 2 ^ 16
      → rrset_del_rrsig Rr is_soa
          (record { rrtype = rrtype; rrs = rrs; rrsigs = sig ∷ sigs; needs_signing = needs })
          0
        ≡ ok (record { rrtype = rrtype; rrs = rrs; rrsigs = sigs; needs_signing = needs })
  unfolding rrset_del_rrsig
  del_first rrtype rrs needs sig sigs b =
      let h : ltb 0 (suc (length sigs)) ≡ true = ground arith in
      let l : leb (suc (length sigs)) (2 ^ 16) ≡ true = ground (arith, b) in rw (h, l) refl

  pub drop_loop-eq :
      (rrtype : ℕ) (rrs : List (Entry Rr is_soa)) (needs : Bool) (sigs : List (Rrsig Rr is_soa))
      (c : Changes Rr is_soa)
      → length sigs ≤ 2 ^ 16
      → drop_loop Rr is_soa
          (length sigs)
          (record { rrtype = rrtype; rrs = rrs; rrsigs = sigs; needs_signing = needs })
          c
        ≡ ok (
          record { rrtype = rrtype; rrs = rrs; rrsigs = []; needs_signing = needs },
          c ++ map (λ sig. dels sig.rr) sigs,
        )
  unfolding drop_loop
  drop_loop-eq rrtype rrs needs [] c b = rw (append-nil c) refl
  drop_loop-eq rrtype rrs needs (sig ∷ sigs) c b =
      ap (λ r. r >>= (λ r'. drop_loop Rr is_soa (length sigs) r' (c ++ dels sig.rr ∷ [])))
        (del_first rrtype rrs needs sig sigs (omega (arith, b)))
      ∙ drop_loop-eq rrtype rrs needs sigs (c ++ dels sig.rr ∷ []) (omega (arith, b))
      ∙ ap (λ l. ok (record { rrtype = rrtype; rrs = rrs; rrsigs = []; needs_signing = needs }, l))
          (append_assoc c (dels sig.rr ∷ []) (map (λ sig. dels sig.rr) sigs))
