-- ===== src/Scheduler/Rbtree.antt =====
-- The red-black tree of ldns (ldns_rbtree_*), which the repository does not hold: a tree is the list
-- of its nodes' data in the order of `ldns_rbtree_first` and `ldns_rbtree_next`. The laws are what the
-- library documents: search, insertion and deletion by the comparison, where the key has a place.
pub mod Linear
use opendnssec_workflow_test.Common.{◌≡◌, List, ◌∷◌, ◌++◌, Option, none, some, All}
use opendnssec_workflow_test.Common.Int.{ℤ, pos, ◌<ℤ◌}

module _ {A : Type 0} (compare : A → A → ℤ) where
  -- Every element of the list comes before the key, or behind it.
  abbrev pub AllBelow : A → List A → Type 0
  AllBelow k l = All (λ x. pos 0 <ℤ compare k x) l

  abbrev pub AllAbove : A → List A → Type 0
  AllAbove k l = All (λ x. compare k x <ℤ pos 0) l

  pub record Rbtree : Type 0 where
    pub search : List A → A → Option A
    pub insert : List A → A → Option (List A)
    pub delete : List A → A → Option (A × List A)
    pub search_at :
        (l r : List A) (e k : A)
        → AllBelow k l
        → compare k e ≡ pos 0
        → AllAbove k r
        → search (l ++ e ∷ r) k ≡ some e
    pub search_gap : (l r : List A) (k : A) → AllBelow k l → AllAbove k r → search (l ++ r) k ≡ none
    pub insert_gap :
        (l r : List A) (k : A) → AllBelow k l → AllAbove k r → insert (l ++ r) k ≡ some (l ++ k ∷ r)
    pub delete_at :
        (l r : List A) (e k : A)
        → AllBelow k l
        → compare k e ≡ pos 0
        → AllAbove k r
        → delete (l ++ e ∷ r) k ≡ some (e, l ++ r)
    pub delete_gap : (l r : List A) (k : A) → AllBelow k l → AllAbove k r → delete (l ++ r) k ≡ none
    -- On any tree, insertion adds one node with the key, and deletion takes one node out.
    pub insert_adds :
        (t : List A) (k : A) {t' : List A}
        → insert t k ≡ some t'
        → (l : List A) × (r : List A) × (t ≡ l ++ r) × (t' ≡ l ++ k ∷ r)
    pub delete_takes :
        (t : List A) (k : A) {e : A} {t' : List A}
        → delete t k ≡ some (e, t')
        → (l : List A) × (r : List A) × (t ≡ l ++ e ∷ r) × (t' ≡ l ++ r)
