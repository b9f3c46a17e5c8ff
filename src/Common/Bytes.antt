-- ===== src/Common/Bytes.antt =====
-- Facts about single bytes, checked on every value.
use Prim.Native.Nat.{ℕ, zero, suc, ◌<◌}
use mathlib.Core.Path.{◌≡◌}
use mathlib.Core.Bool.{Bool, true, ◌&&◌}
use native.Mathlib.Omega.{arith}

-- Whether a test holds of every number below a bound.
unfoldable pub holds_below : (ℕ → Bool) → ℕ → Bool
holds_below test zero = true
holds_below test (suc bound) = holds_below test bound && test bound

pub holds_below_at :
    (test : ℕ → Bool) (bound v : ℕ) → v < bound → holds_below test bound ≡ true → test v ≡ true
unfolding holds_below
holds_below_at test zero v inside passed = absurd (omega arith)
holds_below_at test (suc bound) v inside passed = ground (arith, holds_below_at test bound v)
