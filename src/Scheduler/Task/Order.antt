-- ===== src/Scheduler/Task/Order.antt =====
-- `task_compare` is an order on tasks of different zones whose times lie within 2 ^ 31 seconds.
use opendnssec_workflow_test.Common.{
  ℕ, ◌+◌, ◌^◌, ◌≤◌, ◌<◌, ◌≡◌, sym, ◌∙◌, ◌≢◌, ◌↔◌, ◌⊎◌, inl, arith, ◌==◌, if◌then◌else◌,
}
use opendnssec_workflow_test.Common.Int.{pos, ◌<ℤ◌, int_diff}
use opendnssec_workflow_test.Scheduler.Task.{TaskId, id, Task, ApexOrder, task_compare}

-- The time lies in the 2 ^ 31 seconds from `base` on.
abbrev pub InWindow : ℕ → Task → Type 0
InWindow base t = (base ≤ t.when) × (t.when < base + 2 ^ 31)

int_diff-neg :
    (base a b : ℕ)
    → base ≤ a
    → a < base + 2 ^ 31
    → base ≤ b
    → b < base + 2 ^ 31
    → (int_diff a b <ℤ pos 0) ↔ (a < b)
unfolding int_diff
int_diff-neg base a b la ha lb hb = (λ h. ground arith, λ h. ground arith)

int_diff-pos :
    (base a b : ℕ)
    → base ≤ a
    → a < base + 2 ^ 31
    → base ≤ b
    → b < base + 2 ^ 31
    → (pos 0 <ℤ int_diff a b) ↔ (b < a)
unfolding int_diff
int_diff-pos base a b la ha lb hb = (λ h. ground arith, λ h. ground arith)

id-lt : (w : TaskId) → id w < 2 ^ 31
id-lt TaskId.task_none = omega arith
id-lt _ = omega arith

module _ (apex : ApexOrder) where
  -- Earlier, or at the same time and of a smaller number, or of a smaller apex.
  abbrev pub Before : Task → Task → Type 0
  Before x y =
      (x.when < y.when)
      ⊎ (((x.when ≡ y.when) × (id x.what < id y.what))
          ⊎ ((x.when ≡ y.when) × (id x.what ≡ id y.what) × (apex.compare x.zone y.zone <ℤ pos 0)))

  pub Before-trans : (x y z : Task) → Before x y → Before y z → Before x z
  Before-trans x y z h k = ground (arith, apex.trans x.zone y.zone z.zone)

  pub compare_zero : (x y : Task) → x.zone ≡ y.zone → task_compare apex x y ≡ pos 0
  unfolding task_compare
  compare_zero x y e = ground (arith, apex.zero_iff x.zone y.zone)

  compare_cases :
      (x y : Task)
      → x.zone ≢ y.zone
      → task_compare apex x y ≡ (
          if x.when == y.when
          then if id x.what == id y.what
            then apex.compare x.zone y.zone
            else int_diff (id x.what) (id y.what)
          else int_diff x.when y.when)
  unfolding task_compare
  compare_cases x y ne = ground (arith, apex.zero_iff x.zone y.zone)

  -- For tasks of different zones with times in one window of 2 ^ 31 seconds, the sign of `task_compare` is the lexicographic order of time, task number and
  -- apex.
  pub compare-neg :
      (base : ℕ) (x y : Task)
      → InWindow base x
      → InWindow base y
      → x.zone ≢ y.zone
      → (task_compare apex x y <ℤ pos 0) ↔ Before x y
  compare-neg base x y wx wy ne = rw (compare_cases x y ne) (
    λ h. ground (
      arith,
      int_diff-neg base x.when y.when,
      int_diff-neg 0 (id x.what) (id y.what),
      id-lt x.what,
      id-lt y.what,
    ),
    λ h. ground (
      arith,
      int_diff-neg base x.when y.when,
      int_diff-neg 0 (id x.what) (id y.what),
      id-lt x.what,
      id-lt y.what,
    ),
  )

  pub compare-pos :
      (base : ℕ) (x y : Task)
      → InWindow base x
      → InWindow base y
      → x.zone ≢ y.zone
      → (pos 0 <ℤ task_compare apex x y) ↔ Before y x
  compare-pos base x y wx wy ne = rw (compare_cases x y ne) (
    λ h. ground (
      arith,
      int_diff-pos base x.when y.when,
      int_diff-pos 0 (id x.what) (id y.what),
      id-lt x.what,
      id-lt y.what,
      apex.flip y.zone x.zone,
    ),
    λ h. ground (
      arith,
      int_diff-pos base x.when y.when,
      int_diff-pos 0 (id x.what) (id y.what),
      id-lt x.what,
      id-lt y.what,
      apex.flip y.zone x.zone,
    ),
  )

  pub Before-total : (x y : Task) → x.zone ≢ y.zone → Before x y ⊎ Before y x
  Before-total x y ne =
      ground (arith, apex.zero_iff x.zone y.zone, apex.flip x.zone y.zone, apex.flip y.zone x.zone)

  -- `task_compare` is not transitive: of three tasks with times in the window, the first and the last
  -- of one zone and the middle one of another, each earlier than the next, the first is before the
  -- middle one, the middle one before the last, and the first and the last are equal.
  pub compare-not-transitive :
      (base : ℕ) (x y z : Task)
      → InWindow base x
      → InWindow base y
      → InWindow base z
      → x.zone ≡ z.zone
      → x.zone ≢ y.zone
      → x.when < y.when
      → y.when < z.when
      → (task_compare apex x y <ℤ pos 0)
        × (task_compare apex y z <ℤ pos 0)
        × (task_compare apex x z ≡ pos 0)
  compare-not-transitive base x y z wx wy wz e ne p q = (
    (compare-neg base x y wx wy ne).1 (inl p),
    (compare-neg base y z wy wz (λ k. ne (e ∙ sym k))).1 (inl q),
    compare_zero x z e,
  )
