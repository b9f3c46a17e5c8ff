-- ===== src/Scheduler/Schedule/Order.antt =====
-- The schedule stays in the order of time, task number and apex, with one task for each zone.
use opendnssec_workflow_test.Common.{
  ℕ, ◌≡◌, refl, sym, ap, ◌≢◌, inl, inr, List, [], ◌∷◌, ◌++◌, All, All-append, All-map, All_parts,
}
use mathlib.Core.Path.{subst}
use opendnssec_workflow_test.Common.Int.{pos}
use opendnssec_workflow_test.Scheduler.Task.{Task, ApexOrder, task_compare}
use opendnssec_workflow_test.Scheduler.Task.Order.{
  InWindow, Before, Before-trans, Before-total, compare-neg, compare-pos, compare_zero,
}
use opendnssec_workflow_test.Scheduler.Rbtree.{AllBelow, AllAbove}

module _ (apex : ApexOrder) where
  abbrev pub Precedes : Task → Task → Type 0
  Precedes x y = (x.zone ≢ y.zone) × Before apex x y

  -- Every task precedes all tasks behind it.
  abbrev pub Ordered : List Task → Type 0
  Ordered [] = Unit {0}
  Ordered (t ∷ ts) = All (Precedes t) ts × Ordered ts

  -- Ordered, with all times in the 2 ^ 31 seconds from `base` on.
  pub record IsOrdered (base : ℕ) (ts : List Task) : Type 0 where
    pub window : All (InWindow base) ts
    pub ordered : Ordered ts

  -- The zone has no task in the list.
  abbrev pub Absent : ℕ → List Task → Type 0
  Absent z ts = All (λ (t : Task). t.zone ≢ z) ts

  -- A place for a task of a new zone.
  record Gap (k : Task) (ts : List Task) : Type 0 where
    before : List Task
    behind : List Task
    split : ts ≡ before ++ behind
    below : All (λ x. Precedes x k) before
    above : All (Precedes k) behind

  Precedes-trans :
      (k x : Task) (ts : List Task)
      → Before apex k x
      → Absent k.zone ts
      → All (Precedes x) ts
      → All (Precedes k) ts
  Precedes-trans k x [] h a p = tt
  Precedes-trans k x (t ∷ ts) h a p =
      ((λ e. a.0 (sym e), Before-trans apex k x t h p.0.1), Precedes-trans k x ts h a.1 p.1)

  gap : (k : Task) (ts : List Task) → Absent k.zone ts → Ordered ts → Gap k ts
  gap k [] a o = record { before = []; behind = []; split = refl; below = tt; above = tt }
  gap k (t ∷ ts) a o = elim (Before-total apex k t (λ e. a.0 (sym e))) [
    | inl h ↦ record {
      before = [];
      behind = t ∷ ts;
      split = refl;
      below = tt;
      above = ((λ e. a.0 (sym e), h), Precedes-trans k t ts h a.1 o.0);
    }
    | inr h ↦
        let g = gap k ts a.1 o.1 in
        record {
          before = t ∷ g.before;
          behind = g.behind;
          split = ap (λ l. t ∷ l) g.split;
          below = ((a.0, h), g.below);
          above = g.above;
        }
  ]

  Ordered-insert :
      (l r : List Task) (k : Task)
      → Ordered (l ++ r)
      → All (λ x. Precedes x k) l
      → All (Precedes k) r
      → Ordered (l ++ k ∷ r)
  Ordered-insert [] r k o p q = (q, o)
  Ordered-insert (x ∷ l) r k o p q = (
    All-append (Precedes x) l (k ∷ r) (All_parts (Precedes x) l r o.0).0
        (p.0, (All_parts (Precedes x) l r o.0).1),
    Ordered-insert l r k o.1 p.1 q,
  )

  -- The tasks before and behind one in the list, and the list without it.
  Ordered-parts :
      (l r : List Task) (k : Task)
      → Ordered (l ++ k ∷ r)
      → All (λ x. Precedes x k) l × All (Precedes k) r × Ordered (l ++ r)
  Ordered-parts [] r k o = (tt, o.0, o.1)
  Ordered-parts (x ∷ l) r k o =
      let all = All_parts (Precedes x) l (k ∷ r) o.0 in
      let rest = Ordered-parts l r k o.1 in
      ((all.1.0, rest.0), rest.1, (All-append (Precedes x) l r all.0 all.1.1, rest.2))

  -- The order of the list is what the tree asks of its key.
  below_key :
      (base : ℕ) (k : Task) (l : List Task)
      → InWindow base k
      → All (InWindow base) l
      → All (λ x. Precedes x k) l
      → AllBelow (task_compare apex) k l
  below_key base k [] w v p = tt
  below_key base k (x ∷ l) w v p =
      ((compare-pos apex base k x w v.0 (λ e. p.0.0 (sym e))).1 p.0.1, below_key base k l w v.1 p.1)

  above_key :
      (base : ℕ) (k : Task) (r : List Task)
      → InWindow base k
      → All (InWindow base) r
      → All (Precedes k) r
      → AllAbove (task_compare apex) k r
  above_key base k [] w v p = tt
  above_key base k (x ∷ r) w v p =
      ((compare-neg apex base k x w v.0 p.0.0).1 p.0.1, above_key base k r w v.1 p.1)

  -- Where a task of a new zone goes, as facts about the tree's key.
  pub record Place (base : ℕ) (k : Task) (ts : List Task) : Type 0 where
    pub before : List Task
    pub behind : List Task
    pub split : ts ≡ before ++ behind
    pub below : AllBelow (task_compare apex) k before
    pub above : AllAbove (task_compare apex) k behind
    pub inserted : IsOrdered base (before ++ k ∷ behind)

  pub place :
      (base : ℕ) (k : Task) (ts : List Task)
      → InWindow base k
      → Absent k.zone ts
      → IsOrdered base ts
      → Place base k ts
  place base k ts w a o =
      let g = gap k ts a o.ordered in
      let v =
        All_parts (InWindow base) g.before g.behind
          (subst (All (InWindow base)) g.split o.window) in
      record {
        before = g.before;
        behind = g.behind;
        split = g.split;
        below = below_key base k g.before w v.0 g.below;
        above = above_key base k g.behind w v.1 g.above;
        inserted = record {
          window = All-append (InWindow base) g.before (k ∷ g.behind) v.0 (w, v.1);
          ordered =
              Ordered-insert g.before g.behind k (subst Ordered g.split o.ordered) g.below g.above;
        };
      }

  -- The same for a task that is in the list.
  pub record Found (base : ℕ) (l r : List Task) (k : Task) : Type 0 where
    pub below : AllBelow (task_compare apex) k l
    pub above : AllAbove (task_compare apex) k r
    pub same : task_compare apex k k ≡ pos 0
    pub removed : IsOrdered base (l ++ r)
    pub gone : Absent k.zone (l ++ r)
    pub later : All (Precedes k) r

  pub found :
      (base : ℕ) (l r : List Task) (k : Task) → IsOrdered base (l ++ k ∷ r) → Found base l r k
  found base l r k o =
      let v = All_parts (InWindow base) l (k ∷ r) o.window in
      let p = Ordered-parts l r k o.ordered in
      record {
        below = below_key base k l v.1.0 v.0 p.0;
        above = above_key base k r v.1.0 v.1.1 p.1;
        same = compare_zero apex k k refl;
        removed = record { window = All-append (InWindow base) l r v.0 v.1.1; ordered = p.2 };
        gone =
            All-append (λ (t : Task). t.zone ≢ k.zone) l r (All-map (λ x q. q.0) l p.0)
              (All-map (λ x q e. q.0 (sym e)) r p.1);
        later = p.1;
      }
