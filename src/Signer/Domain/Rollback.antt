-- ===== src/Signer/Domain/Rollback.antt =====
-- `domain_rollback` of signer/src/signer/domain.c.
use mathlib.Core.List.{append_assoc}
use opendnssec_workflow_test.Common.{
  ℕ, suc, ◌≡◌, refl, sym, ap, ◌∙◌, inl, inr, Bool, true, false, not, ◌&&◌, ◌||◌, Bool-cases, List,
  [], ◌∷◌, ◌++◌, some, arith, ltb, ◌==◌, if◌then◌else◌, length, get_elem?, set, if_true, if_false,
  length-append, get_elem?-append-length, set-append-length, ◌+◌, ◌%◌, ◌^◌, ◌<◌, ◌≤◌, leb, All,
}
use opendnssec_workflow_test.Common.Result.{Result, ok, ◌>>=◌}
use opendnssec_workflow_test.Signer.Rrset.{
  Entry, Rrsig, Rrset, remove_at-append-length, rrset_del_rr,
}
use opendnssec_workflow_test.Signer.Domain.{
  Domain, bitmap_changed, is_config_type, rollback_loop, rollback_sets, domain_rollback,
}

module _ (Rr : Type 0) (is_soa : Rr → Bool) where
  abbrev pub unmarked : Entry Rr is_soa → Entry Rr is_soa
  unmarked e = record e { is_added = false; is_removed = false }

  -- The records that are published, without marks.
  abbrev pub published : List (Entry Rr is_soa) → List (Entry Rr is_soa)
  published [] = []
  published (e ∷ rrs) = if e.is_there then unmarked e ∷ published rrs else published rrs

  -- Whether a record is not published.
  abbrev pub any_new : List (Entry Rr is_soa) → Bool
  any_new [] = false
  any_new (e ∷ rrs) = not e.is_there || any_new rrs

  published_none : (rrs : List (Entry Rr is_soa)) → length rrs ≡ 0 → length (published rrs) ≡ 0
  published_none [] h = refl
  published_none (e ∷ rrs) h = absurd (omega arith)

  module _ (rrtype : ℕ) (sigs : List (Rrsig Rr is_soa)) where
    abbrev pub with_rrs : List (Entry Rr is_soa) → Bool → Rrset Rr is_soa
    with_rrs rrs needs = record { rrtype = rrtype; rrs = rrs; rrsigs = sigs; needs_signing = needs }

    del_round :
        (done rest : List (Entry Rr is_soa)) (e : Entry Rr is_soa) (needs : Bool)
        → length done + suc (length rest) ≤ 2 ^ 16
        → rrset_del_rr Rr is_soa (with_rrs (done ++ e ∷ rest) needs) (length done)
          ≡ ok (with_rrs (done ++ rest) true)
    unfolding rrset_del_rr
    del_round done rest e needs b =
        let m : length done % 2 ^ 16 ≡ length done = omega (arith, b) in
        let l : leb (length (done ++ e ∷ rest)) (2 ^ 16) ≡ true =
          ground (arith, b, length-append done (e ∷ rest)) in
        let h : ltb (length done) (length (done ++ e ∷ rest)) ≡ true =
          ground (arith, length-append done (e ∷ rest)) in
        rw (m, h, l, remove_at-append-length done e rest) refl

    abbrev loop : ℕ → ℕ → List (Entry Rr is_soa) → Bool → Bool → Result (Rrset Rr is_soa × Bool)
    loop left i rrs needs del = rollback_loop Rr is_soa left i (with_rrs rrs needs) del

    loop_step :
        (e : Entry Rr is_soa) (rrs : List (Entry Rr is_soa)) (left i : ℕ) (needs del : Bool)
        → get_elem? rrs i ≡ some e
        → loop (suc left) i rrs needs del ≡ (
            if not e.is_there
            then rrset_del_rr Rr is_soa (with_rrs (set rrs i (unmarked e)) needs) i >>= (λ r.
              rollback_loop Rr is_soa left i r
                (if length (set rrs i (unmarked e)) == 1 then true else del))
            else loop left (suc i % 2 ^ 16) (set rrs i (unmarked e)) needs del)
    unfolding rollback_loop
    loop_step e rrs left i needs del h = cc

    round_goes :
        (done rest : List (Entry Rr is_soa)) (e : Entry Rr is_soa) (needs del : Bool)
        → e.is_there ≡ false
        → length done + suc (length rest) < 2 ^ 16
        → loop (suc (length rest)) (length done) (done ++ e ∷ rest) needs del
          ≡ loop
              (length rest)
              (length done)
              (done ++ rest)
              true
              (if length (done ++ unmarked e ∷ rest) == 1 then true else del)
    round_goes done rest e needs del q b =
        let h : not e.is_there ≡ true = rw q refl in
        loop_step e (done ++ e ∷ rest) (length rest) (length done) needs del
          (get_elem?-append-length done e rest)
        ∙ if_true _ _ h
        ∙ ap
            (λ rrs. rrset_del_rr Rr is_soa (with_rrs rrs needs) (length done) >>= (λ r.
              rollback_loop Rr is_soa (length rest) (length done) r
                (if length rrs == 1 then true else del)))
            (set-append-length done e (unmarked e) rest)
        ∙ ap
            (λ r. r >>= (λ r'.
              rollback_loop Rr is_soa (length rest) (length done) r'
                (if length (done ++ unmarked e ∷ rest) == 1 then true else del)))
            (del_round done rest (unmarked e) needs (omega (arith, b)))

    round_stays :
        (done rest : List (Entry Rr is_soa)) (e : Entry Rr is_soa) (needs del : Bool)
        → e.is_there ≡ true
        → length done + suc (length rest) < 2 ^ 16
        → loop (suc (length rest)) (length done) (done ++ e ∷ rest) needs del
          ≡ loop
              (length rest)
              (length (done ++ unmarked e ∷ []))
              ((done ++ unmarked e ∷ []) ++ rest)
              needs
              del
    round_stays done rest e needs del q b =
        let h : not e.is_there ≡ false = rw q refl in
        loop_step e (done ++ e ∷ rest) (length rest) (length done) needs del
          (get_elem?-append-length done e rest)
        ∙ if_false _ _ h
        ∙ ap (λ rrs. loop (length rest) (suc (length done) % 2 ^ 16) rrs needs del)
            (set-append-length done e (unmarked e) rest)
        ∙ rw (append_assoc done (unmarked e ∷ []) rest)
            let n : suc (length done) % 2 ^ 16 ≡ length (done ++ unmarked e ∷ []) =
                omega (arith, b, length-append done (unmarked e ∷ [])) in
              ap (λ i. loop (length rest) i (done ++ unmarked e ∷ rest) needs del) n

    -- Whether the last record goes.
    abbrev emptied : List (Entry Rr is_soa) → List (Entry Rr is_soa) → Bool
    emptied done rest = length done == 0 && (not (length rest == 0) && length (published rest) == 0)

    emptied_goes :
        (done rest : List (Entry Rr is_soa)) (e : Entry Rr is_soa) (del : Bool)
        → e.is_there ≡ false
        → ((if length (done ++ unmarked e ∷ rest) == 1 then true else del) || emptied done rest)
          ≡ (del || emptied done (e ∷ rest))
    emptied_goes done rest e del q =
        let n = length-append done (unmarked e ∷ rest) in
        let z : length rest ≡ 0 → length (published rest) ≡ 0 = published_none rest in
        ground (arith, n, z)

    emptied_stays :
        (done rest : List (Entry Rr is_soa)) (e : Entry Rr is_soa)
        → e.is_there ≡ true
        → emptied (done ++ unmarked e ∷ []) rest ≡ emptied done (e ∷ rest)
    emptied_stays done rest e q = ground (arith, length-append done (unmarked e ∷ []))

    outcome_eq :
        {rrs rrs' : List (Entry Rr is_soa)} {n n' d d' : Bool}
        → rrs ≡ rrs'
        → n ≡ n'
        → d ≡ d'
        → ◌≡◌ {A = Result (Rrset Rr is_soa × Bool)}
            (ok (with_rrs rrs n, d))
            (ok (with_rrs rrs' n', d'))
    outcome_eq p q r = rw (p, q, r) refl

    pub rollback_loop-eq :
        (rest done : List (Entry Rr is_soa)) (needs del : Bool)
        → length done + length rest < 2 ^ 16
        → loop (length rest) (length done) (done ++ rest) needs del
          ≡ ok (with_rrs (done ++ published rest) (needs || any_new rest), del || emptied done rest)
    unfolding rollback_loop
    rollback_loop-eq [] done needs del b =
        let z : ltb (length done) (length (done ++ [])) ≡ false =
          ground (arith, length-append done []) in
        if_false _ _ z
        ∙ outcome_eq refl (ground arith)
            (let h : emptied done [] ≡ false = ground arith in ground (arith, h))
    rollback_loop-eq (e ∷ rest) done needs del b = elim (Bool-cases e.is_there) [
      | inl q ↦
          round_stays done rest e needs del q b
          ∙ rollback_loop-eq rest (done ++ unmarked e ∷ []) needs del
              (omega (arith, b, length-append done (unmarked e ∷ [])))
          ∙ outcome_eq
              (append_assoc done (unmarked e ∷ []) (published rest)
                ∙ ap (λ l. done ++ l) (sym (if_true _ _ q)))
              (ground arith) (ap (λ b. del || b) (emptied_stays done rest e q))
      | inr q ↦
          round_goes done rest e needs del q b
          ∙ rollback_loop-eq rest done true
              (if length (done ++ unmarked e ∷ rest) == 1 then true else del) (omega (arith, b))
          ∙ outcome_eq (ap (λ l. done ++ l) (sym (if_false _ _ q))) (ground arith)
              (emptied_goes done rest e del q)
    ]

  -- A rollback of a set, and of the sets of a name.
  abbrev pub rolled_back : Rrset Rr is_soa → Rrset Rr is_soa
  rolled_back r = record r {
    rrs = published r.rrs;
    needs_signing = r.needs_signing || any_new r.rrs;
  }

  abbrev pub is_emptied : Rrset Rr is_soa → Bool
  is_emptied r = not (length r.rrs == 0) && length (published r.rrs) == 0

  abbrev pub sets_rolled_back : Bool → List (Rrset Rr is_soa) → List (Rrset Rr is_soa)
  sets_rolled_back keepsc [] = []
  sets_rolled_back keepsc (r ∷ rrsets) =
      if keepsc && is_config_type r.rrtype
      then r ∷ sets_rolled_back keepsc rrsets
      else if is_emptied r
      then sets_rolled_back keepsc rrsets
      else rolled_back r ∷ sets_rolled_back keepsc rrsets

  abbrev pub any_emptied : Bool → List (Rrset Rr is_soa) → Bool
  any_emptied keepsc [] = false
  any_emptied keepsc (r ∷ rrsets) =
      (not (keepsc && is_config_type r.rrtype) && is_emptied r) || any_emptied keepsc rrsets

  rollback_set :
      (r : Rrset Rr is_soa)
      → length r.rrs < 2 ^ 16
      → rollback_loop Rr is_soa (length r.rrs) 0 r false ≡ ok (rolled_back r, is_emptied r)
  rollback_set r b =
      rollback_loop-eq r.rrtype r.rrsigs r.rrs [] r.needs_signing false (omega (arith, b))

  rollback_sets-eq :
      (keepsc : Bool) (rrsets : List (Rrset Rr is_soa))
      → All (λ r. length r.rrs < 2 ^ 16) rrsets
      → rollback_sets Rr is_soa keepsc rrsets
        ≡ ok (sets_rolled_back keepsc rrsets, any_emptied keepsc rrsets)
  unfolding rollback_sets
  rollback_sets-eq keepsc [] b = refl
  rollback_sets-eq keepsc (r ∷ rrsets) b =
      rw (rollback_set r b.0, rollback_sets-eq keepsc rrsets b.1)
        elim (Bool-cases (keepsc && is_config_type r.rrtype)) [
          | inl c ↦ rw c refl
          | inr c ↦ rw c elim (Bool-cases (is_emptied r)) [ inl q ↦ rw q refl | inr q ↦ rw q refl ]
        ]

  -- `domain_rollback` of sets with fewer than 2 ^ 16 records ends: of each, but those for keys and
  -- NSEC3 parameters when these are to be kept, the records that are not published go and the others
  -- lose their marks; a set that is left without a record goes with them, and then the bitmap of the
  -- denial is taken as unchanged.
  pub domain_rollback-eq :
      (keepsc : Bool) (d : Domain Rr is_soa)
      → All (λ r. length r.rrs < 2 ^ 16) d.rrsets
      → domain_rollback Rr is_soa keepsc d
        ≡ ok (record d {
          rrsets = sets_rolled_back keepsc d.rrsets;
          denial =
              if any_emptied keepsc d.rrsets
              then bitmap_changed Rr is_soa false d.denial
              else d.denial;
        })
  unfolding domain_rollback
  domain_rollback-eq keepsc d b = rw (rollback_sets-eq keepsc d.rrsets b) refl
