-- ===== src/Wire/Acl/Subnet.antt =====
-- The mask that `acl_parse_range_subnet` makes of a number of bits.
use native.Mathlib.Decide.{dec_lt}
use Prim.Native.Nat.{bit_and}
use opendnssec_workflow_test.Common.{
  ℕ, zero, suc, ◌-◌, ◌*◌, ◌/◌, ◌%◌, ◌^◌, ◌≤◌, ◌<◌, ◌≡◌, refl, ap, ◌∙◌, Bool, true, false, not, List,
  ◌∷◌, arith, ltb, ◌==◌, if◌then◌else◌, get_or, replicate,
}
use opendnssec_workflow_test.Common.Int.{ℤ, pos, negsuc}
use opendnssec_workflow_test.Common.Bytes.{holds_below, holds_below_at}
use opendnssec_workflow_test.Common.Text.{atoi}
use opendnssec_workflow_test.Wire.Buffer.Bits.{get_bit}
use opendnssec_workflow_test.Wire.Acl.{status_ok, shifts, fill, acl_parse_range_subnet}

abbrev bit_of : ℕ → ℕ → Bool
bit_of v i = not (bit_and v (2 ^ (7 - i)) == 0)

get_bit_low : (b : ℕ) (bytes : List ℕ) (j : ℕ) → j < 8 → get_bit (b ∷ bytes) j ≡ bit_of b j
unfolding get_bit
get_bit_low b bytes j h =
    let q : j / 8 ≡ 0 = omega arith in let r : j % 8 ≡ j = omega arith in rw (q, r) refl

get_bit_high :
    (b : ℕ) (bytes : List ℕ) (j : ℕ) → 8 ≤ j → get_bit (b ∷ bytes) j ≡ get_bit bytes (j - 8)
unfolding get_bit
get_bit_high b bytes j h =
    let q : j / 8 ≡ suc ((j - 8) / 8) = omega arith in
    let r : j % 8 ≡ (j - 8) % 8 = omega arith in rw (q, r) refl

same : Bool → Bool → Bool
same a b = if a then b else not b

same-eq : (a b : Bool) → same a b ≡ true → a ≡ b
unfolding same
same-eq a b h = ground arith

shifts_table :
    holds_below (λ n. holds_below (λ j. same (bit_of (get_or shifts n 0) j) (ltb j n)) 8) 9 ≡ true
unfolding holds_below same
shifts_table = refl

shift_bit : (n j : ℕ) → n < 9 → j < 8 → bit_of (get_or shifts n 0) j ≡ ltb j n
shift_bit n j hn hj = same-eq _ _ (holds_below_at _ 8 j hj (holds_below_at _ 9 n hn shifts_table))

below_zero : (j : ℕ) → ltb j 0 ≡ false
below_zero j = ground arith

zero_bit : (len j : ℕ) → get_bit (replicate len 0) j ≡ false
unfolding get_bit
zero_bit zero j = shift_bit 0 (j % 8) (omega arith) (omega arith) ∙ below_zero (j % 8)
zero_bit (suc len) j = elim (dec_lt j 8) [
  | yes lt ↦ get_bit_low 0 (replicate len 0) j lt ∙ shift_bit 0 j (omega arith) lt ∙ below_zero j
  | no ge ↦ get_bit_high 0 (replicate len 0) j (omega arith) ∙ zero_bit len (j - 8)
]

fill_full : (n b : ℕ) (bytes : List ℕ) → 8 ≤ n → fill n (b ∷ bytes) ≡ 0xff ∷ fill (n - 8) bytes
unfolding fill
fill_full n b bytes h = ground arith

fill_part : (n : ℕ) (bytes : List ℕ) → n < 8 → fill n (0 ∷ bytes) ≡ get_or shifts n 0 ∷ bytes
unfolding fill
fill_part zero bytes h = ground arith
fill_part (suc n) bytes h = ground arith

-- A mask of so many bits has these set, and no other.
pub fill_bit :
    (len n j : ℕ) → n ≤ 8 * len → j < 8 * len → get_bit (fill n (replicate len 0)) j ≡ ltb j n
fill_bit zero n j hn hj = absurd (omega arith)
fill_bit (suc len) n j hn hj = elim (dec_lt n 8) [
  | yes part ↦ elim (dec_lt j 8) [
    | yes low ↦
        rw (fill_part n (replicate len 0) part) (
          get_bit_low (get_or shifts n 0) (replicate len 0) j low ∙ shift_bit n j (omega arith) low)
    | no high ↦ rw (fill_part n (replicate len 0) part) (
        get_bit_high (get_or shifts n 0) (replicate len 0) j (omega arith)
        ∙ zero_bit len (j - 8)
        ∙ ground arith)
  ]
  | no full ↦ elim (dec_lt j 8) [
    | yes low ↦ rw (fill_full n 0 (replicate len 0) (omega arith)) (
        get_bit_low 0xff (fill (n - 8) (replicate len 0)) j low
        ∙ shift_bit 8 j (omega arith) low
        ∙ ground arith)
    | no high ↦ rw (fill_full n 0 (replicate len 0) (omega arith)) (
        get_bit_high 0xff (fill (n - 8) (replicate len 0)) j (omega arith)
        ∙ fill_bit len (n - 8) (j - 8) (omega arith) (omega arith)
        ∙ ground arith)
  ]
]

parsed_bits :
    (text addr : List ℕ) (maxbits : ℕ) (mask : List ℕ) (z : ℤ)
    → atoi text ≡ z
    → acl_parse_range_subnet text addr maxbits ≡ (status_ok, mask)
    → (n : ℕ) × (z ≡ pos n) × (n ≤ maxbits) × (mask ≡ fill n addr)
unfolding acl_parse_range_subnet
parsed_bits text addr maxbits mask (pos n) q e = (n, refl, ground arith, ground arith)
parsed_bits text addr maxbits mask (negsuc n) q e = absurd (ground arith)

-- When `acl_parse_range_subnet` accepts the text of a subnet's length, for a zeroed mask of `len` bytes and
-- a limit within it, the text's number is at most the limit, and of the mask just its first bits, in that
-- number, are set.
pub acl_parse_range_subnet-bits :
    (text : List ℕ) (len maxbits : ℕ) (mask : List ℕ)
    → maxbits ≤ 8 * len
    → acl_parse_range_subnet text (replicate len 0) maxbits ≡ (status_ok, mask)
    → (n : ℕ) × (atoi text ≡ pos n)
      × (n ≤ maxbits)
      × ((j : ℕ) → j < 8 * len → get_bit mask j ≡ ltb j n)
acl_parse_range_subnet-bits text len maxbits mask h e =
    let (n, q, le, m) = parsed_bits text (replicate len 0) maxbits mask (atoi text) refl e in
    (n, q, le, λ j k. ap (λ z. get_bit z j) m ∙ fill_bit len n j (omega arith) k)
