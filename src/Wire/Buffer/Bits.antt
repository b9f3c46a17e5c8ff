-- ===== src/Wire/Buffer/Bits.antt =====
-- The bit array of buffer.c: `get_bit` and `set_bit`, most significant bit of a byte first.
use Prim.Native.Nat.{bit_and, bit_or}
use opendnssec_workflow_test.Common.{
  ℕ, zero, suc, ◌+◌, ◌-◌, ◌*◌, ◌/◌, ◌%◌, ◌^◌, ◌≤◌, ◌<◌, ◌≡◌, refl, sym, ap, ◌∙◌, Bool, true, false,
  not, List, arith, ltb, ltb→lt, ◌==◌, if◌then◌else◌, length, get_or, set, length-set, All, All-set,
  All-get_or, get_or-set_self, get_or-set_ne, ◌||◌,
}
use native.Mathlib.Decide.{ℕ_discrete}
use opendnssec_workflow_test.Common.Bytes.{holds_below, holds_below_at}

-- `1 << (7 - index % 8)`
abbrev pub mask : ℕ → ℕ
mask index = 2 ^ (7 - index % 8)

unfoldable pub get_bit : List ℕ → ℕ → Bool
get_bit bits index = not (bit_and (get_or bits (index / 8) 0) (mask index) == 0)

unfoldable pub set_bit : List ℕ → ℕ → List ℕ
set_bit bits index = set bits (index / 8) (bit_or (get_or bits (index / 8) 0) (mask index))

abbrev same : Bool → Bool → Bool
same a b = if a then b else not b

abbrev bit_of : ℕ → ℕ → Bool
bit_of v i = not (bit_and v (2 ^ (7 - i)) == 0)

-- Every byte, with every pair of bits of it.
set_table :
    holds_below
      (λ v.
        holds_below
          (λ i.
            holds_below (λ j. same (bit_of (bit_or v (2 ^ (7 - i))) j) (i == j || bit_of v j)) 8)
          8)
      256
    ≡ true
unfolding holds_below
set_table = refl

byte_table : holds_below (λ v. holds_below (λ i. ltb (bit_or v (2 ^ (7 - i))) 256) 8) 256 ≡ true
unfolding holds_below
byte_table = refl

set_entry :
    (v i j : ℕ)
    → v < 256
    → i < 8
    → j < 8
    → bit_of (bit_or v (2 ^ (7 - i))) j ≡ (i == j || bit_of v j)
set_entry v i j hv hi hj =
    same-eq _ _
      (holds_below_at _ 8 j hj (holds_below_at _ 8 i hi (holds_below_at _ 256 v hv set_table)))
  where
    same-eq : (a b : Bool) → same a b ≡ true → a ≡ b
    same-eq true b h = sym h
    same-eq false true h = cc
    same-eq false false h = refl

byte_entry : (v i : ℕ) → v < 256 → i < 8 → bit_or v (2 ^ (7 - i)) < 256
byte_entry v i hv hi = ltb→lt _ _ (holds_below_at _ 8 i hi (holds_below_at _ 256 v hv byte_table))

-- In an array of bytes `set_bit`, at an index within the array, sets its bit and no other.
pub get_bit-set_bit :
    (bits : List ℕ) (i j : ℕ)
    → All (λ v. v < 256) bits
    → i < 8 * length bits
    → get_bit (set_bit bits i) j ≡ (i == j || get_bit bits j)
unfolding get_bit set_bit
get_bit-set_bit bits i j a h = elim (ℕ_discrete (i / 8) (j / 8)) [
  | yes e ↦
      let v = get_or bits (i / 8) 0 in
      let w = bit_or v (mask i) in
      rw (← e, get_or-set_self bits (i / 8) w 0 (omega arith))
        (set_entry v (i % 8) (j % 8) (All-get_or (λ x. x < 256) bits (i / 8) 0 a (omega arith))
            (omega arith) (omega arith)
          ∙ ap (λ t. t || bit_of v (j % 8)) (ground arith))
  | no n ↦
      let other : (i == j) ≡ false = ground arith in
      rw (get_or-set_ne bits (i / 8) (j / 8) (bit_or (get_or bits (i / 8) 0) (mask i)) 0 n, other)
        refl
]

pub set_bit-bytes :
    (bits : List ℕ) (i : ℕ) → All (λ v. v < 256) bits → All (λ v. v < 256) (set_bit bits i)
unfolding set_bit
set_bit-bytes bits i a =
    All-set (λ x. x < 256) bits (i / 8) (bit_or (get_or bits (i / 8) 0) (mask i)) a
      (byte_entry (get_or bits (i / 8) 0) (i % 8)
        (All-get_or (λ x. x < 256) bits (i / 8) 0 a (omega arith)) (omega arith))

pub length-set_bit : (bits : List ℕ) (i : ℕ) → length (set_bit bits i) ≡ length bits
unfolding set_bit
length-set_bit bits i = length-set bits (i / 8) (bit_or (get_or bits (i / 8) 0) (mask i))

-- How many of the first `n` bits are not set.
abbrev pub unset : List ℕ → ℕ → ℕ
unset bits zero = 0
unset bits (suc n) = (if get_bit bits n then 0 else 1) + unset bits n

unset_beyond :
    (bits : List ℕ) (i n : ℕ)
    → All (λ v. v < 256) bits
    → i < 8 * length bits
    → n ≤ i
    → unset (set_bit bits i) n ≡ unset bits n
unset_beyond bits i zero a h k = refl
unset_beyond bits i (suc n) a h k =
    ground (arith, get_bit-set_bit bits i n a h, unset_beyond bits i n a h)

-- Setting a bit that was not set leaves one fewer.
pub unset-set_bit :
    (bits : List ℕ) (i n : ℕ)
    → All (λ v. v < 256) bits
    → i < 8 * length bits
    → i < n
    → get_bit bits i ≡ false
    → unset (set_bit bits i) n + 1 ≡ unset bits n
unset-set_bit bits i zero a h k g = absurd (omega arith)
unset-set_bit bits i (suc n) a h k g = elim (ℕ_discrete i n) [
  | yes e ↦ ground (arith, get_bit-set_bit bits i n a h, unset_beyond bits i n a h)
  | no ne ↦ ground (arith, get_bit-set_bit bits i n a h, unset-set_bit bits i n a h)
]

pub unset-le : (bits : List ℕ) (n : ℕ) → unset bits n ≤ n
unset-le bits zero = omega arith
unset-le bits (suc n) = ground (arith, unset-le bits n)
