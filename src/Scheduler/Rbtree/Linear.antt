-- ===== src/Scheduler/Rbtree/Linear.antt =====
-- A tree that meets the laws of `Rbtree`: the ordered list, scanned from its start.
use opendnssec_workflow_test.Common.{
  ◌≡◌, refl, ap, Bool, List, [], ◌∷◌, ◌++◌, Option, none, some, arith, if◌then◌else◌, Option-cases,
  Bool-cases, inl, inr,
}
use opendnssec_workflow_test.Common.Int.{ℤ, pos, ltb_ℤ}
use opendnssec_workflow_test.Scheduler.Rbtree.{Rbtree, AllBelow, AllAbove}

abbrev above_zero : ℤ → Bool
above_zero z = ltb_ℤ (pos 0) z

abbrev below_zero : ℤ → Bool
below_zero z = ltb_ℤ z (pos 0)

module _ {A : Type 0} (compare : A → A → ℤ) where
  unfoldable pub search : List A → A → Option A
  search [] k = none
  search (x ∷ t) k =
      if above_zero (compare k x)
      then search t k
      else if below_zero (compare k x)
      then none
      else some x

  unfoldable pub insert : List A → A → Option (List A)
  insert [] k = some (k ∷ [])
  insert (x ∷ t) k =
      let rest = insert t k in
      if above_zero (compare k x)
      then elim rest [ none ↦ none | some t' ↦ some (x ∷ t') ]
      else if below_zero (compare k x)
      then some (k ∷ x ∷ t)
      else none

  unfoldable pub delete : List A → A → Option (A × List A)
  delete [] k = none
  delete (x ∷ t) k =
      let rest = delete t k in
      if above_zero (compare k x)
      then elim rest [ none ↦ none | some (e, t') ↦ some (e, x ∷ t') ]
      else if below_zero (compare k x)
      then none
      else some (x, t)

  pub search_at :
      (l r : List A) (e k : A)
      → AllBelow compare k l
      → compare k e ≡ pos 0
      → AllAbove compare k r
      → search (l ++ e ∷ r) k ≡ some e
  unfolding search
  search_at [] r e k b h a = ground arith
  search_at (x ∷ l) r e k b h a = ground (arith, search_at l r e k b.1 h a)

  pub search_gap :
      (l r : List A) (k : A)
      → AllBelow compare k l
      → AllAbove compare k r
      → search (l ++ r) k ≡ none
  unfolding search
  search_gap [] [] k b a = refl
  search_gap [] (y ∷ r) k b a = ground arith
  search_gap (x ∷ l) r k b a = ground (arith, search_gap l r k b.1 a)

  pub insert_gap :
      (l r : List A) (k : A)
      → AllBelow compare k l
      → AllAbove compare k r
      → insert (l ++ r) k ≡ some (l ++ k ∷ r)
  unfolding insert
  insert_gap [] [] k b a = refl
  insert_gap [] (y ∷ r) k b a = ground arith
  insert_gap (x ∷ l) r k b a = ground (arith, insert_gap l r k b.1 a)

  pub delete_at :
      (l r : List A) (e k : A)
      → AllBelow compare k l
      → compare k e ≡ pos 0
      → AllAbove compare k r
      → delete (l ++ e ∷ r) k ≡ some (e, l ++ r)
  unfolding delete
  delete_at [] r e k b h a = ground arith
  delete_at (x ∷ l) r e k b h a = ground (arith, delete_at l r e k b.1 h a)

  pub delete_gap :
      (l r : List A) (k : A)
      → AllBelow compare k l
      → AllAbove compare k r
      → delete (l ++ r) k ≡ none
  unfolding delete
  delete_gap [] [] k b a = refl
  delete_gap [] (y ∷ r) k b a = ground arith
  delete_gap (x ∷ l) r k b a = ground (arith, delete_gap l r k b.1 a)

  pub insert_adds :
      (t : List A) (k : A) {t' : List A}
      → insert t k ≡ some t'
      → (l : List A) × (r : List A) × (t ≡ l ++ r) × (t' ≡ l ++ k ∷ r)
  unfolding insert
  insert_adds [] k e = ([], [], refl, ground arith)
  insert_adds (x ∷ t) k e = elim (Bool-cases (above_zero (compare k x))) [
    | inr h ↦ ([], x ∷ t, refl, ground arith)
    | inl h ↦ elim (Option-cases (insert t k)) [
      | inl n ↦ absurd (ground arith)
      | inr (u, n) ↦
          let (l, r, p, q) = insert_adds t k n in (x ∷ l, r, ap (λ y. x ∷ y) p, ground arith)
    ]
  ]

  pub delete_takes :
      (t : List A) (k : A) {e : A} {t' : List A}
      → delete t k ≡ some (e, t')
      → (l : List A) × (r : List A) × (t ≡ l ++ e ∷ r) × (t' ≡ l ++ r)
  unfolding delete
  delete_takes [] k e = cc
  delete_takes (x ∷ t) k e = elim (Bool-cases (above_zero (compare k x))) [
    | inr h ↦ ([], t, ground arith, ground arith)
    | inl h ↦ elim (Option-cases (delete t k)) [
      | inl n ↦ absurd (ground arith)
      | inr ((d, u), n) ↦
          let (l, r, p, q) = delete_takes t k n in (x ∷ l, r, ground arith, ground arith)
    ]
  ]

  abbrev pub linear : Rbtree compare
  linear = record {
    search = search;
    insert = insert;
    delete = delete;
    search_at = search_at;
    search_gap = search_gap;
    insert_gap = insert_gap;
    delete_at = delete_at;
    delete_gap = delete_gap;
    insert_adds = insert_adds;
    delete_takes = delete_takes;
  }
