-- ===== src/Wire/Acl/Range.antt =====
-- `acl_addr_matches_range` compares addresses as numbers, when the host's byte order is the network's.
use native.Mathlib.Decide.{dec_lt}
use opendnssec_workflow_test.Common.{
  ℕ, zero, suc, ◌+◌, ◌*◌, ◌^◌, ◌≤◌, ◌<◌, ◌≡◌, ◌↔◌, Bool, true, false, not, ◌&&◌, ◌||◌, List, [],
  ◌∷◌, arith, ltb, leb, ◌==◌, if◌then◌else◌, length, All,
}
use opendnssec_workflow_test.Wire.Buffer.Valid.{IsByte}
use opendnssec_workflow_test.Wire.Acl.{words, range_loop, acl_addr_matches_range}

abbrev pub scale : ℕ → ℕ
scale zero = 1
scale (suc n) = 2 ^ 32 * scale n

-- The number that words stand for, the most significant one first.
abbrev pub value : List ℕ → ℕ
value [] = 0
value (w ∷ ws) = w * scale (length ws) + value ws

abbrev pub IsWord : ℕ → Type 0
IsWord w = w < 2 ^ 32

value_bound : (ws : List ℕ) → All IsWord ws → value ws < scale (length ws)
value_bound [] a = omega arith
value_bound (w ∷ ws) a = grind (arith, value_bound ws a.1)

block : (a b p : ℕ) → a < b → a * p + p ≤ b * p
block a b p h = grind arith

leb_lex :
    (a b p u v : ℕ)
    → u < p
    → v < p
    → leb (a * p + u) (b * p + v) ≡ (ltb a b || ((a == b) && leb u v))
leb_lex a b p u v hu hv = elim (dec_lt a b) [
  | yes lt ↦ grind (arith, block a b p lt)
  | no ge ↦ elim (dec_lt b a) [
    | yes gt ↦ grind (arith, block b a p gt)
    | no le ↦ (let q : a ≡ b = omega arith in rw q (ground arith))
  ]
]

-- One word of the loop.
word_step :
    (cmin cmax : Bool) (lo x hi : ℕ) (lmin lmax : Bool)
    → (if cmin && ltb x lo
        then false
        else if cmax && ltb hi x
        then false
        else if not (cmin && (lo == x)) && not (cmax && (hi == x))
        then true
        else ((not (cmin && (lo == x)) || lmin) && (not (cmax && (hi == x)) || lmax)))
      ≡ ((not cmin || (ltb lo x || ((lo == x) && lmin)))
          && (not cmax || (ltb x hi || ((x == hi) && lmax))))
word_step cmin cmax lo x hi lmin lmax = ground arith

range_loop_eq :
    (checkmin checkmax : Bool) (minval x maxval : List ℕ)
    → length minval ≡ length x
    → length maxval ≡ length x
    → All IsWord minval
    → All IsWord x
    → All IsWord maxval
    → range_loop checkmin checkmax minval x maxval ≡ (
        (not checkmin || leb (value minval) (value x))
        && (not checkmax || leb (value x) (value maxval)))
unfolding range_loop
range_loop_eq cmin cmax [] [] [] hm hx p q r = ground arith
range_loop_eq cmin cmax (lo ∷ minval) (x ∷ xs) (hi ∷ maxval) hm hx p q r =
    let ih =
      range_loop_eq (cmin && (lo == x)) (cmax && (hi == x)) minval xs maxval (omega arith)
        (omega arith) p.1 q.1 r.1 in
    let sm : length minval ≡ length xs = omega arith in
    let sx : length maxval ≡ length xs = omega arith in
    let bm : value minval < scale (length xs) = rw (← sm) (value_bound minval p.1) in
    let bx = value_bound xs q.1 in
    let bh : value maxval < scale (length xs) = rw (← sx) (value_bound maxval r.1) in
    let n = scale (length xs) in
    rw
      (
        ih,
        sm,
        sx,
        leb_lex lo x n (value minval) (value xs) bm bx,
        leb_lex x hi n (value xs) (value maxval) bx bh,
      )
      (word_step cmin cmax lo x hi (leb (value minval) (value xs)) (leb (value xs) (value maxval)))
range_loop_eq cmin cmax [] [] (hi ∷ maxval) hm hx p q r = absurd (omega arith)
range_loop_eq cmin cmax [] (x ∷ xs) maxval hm hx p q r = absurd (omega arith)
range_loop_eq cmin cmax (lo ∷ minval) [] maxval hm hx p q r = absurd (omega arith)
range_loop_eq cmin cmax (lo ∷ minval) (x ∷ xs) [] hm hx p q r = absurd (omega arith)

-- `acl_addr_matches_range` on the host's words, all three of one length, holds just when the number that
-- the words of the address stand for is neither below the minimum's nor above the maximum's.
pub acl_addr_matches_range_iff :
    (minval x maxval : List ℕ)
    → length minval ≡ length x
    → length maxval ≡ length x
    → All IsWord minval
    → All IsWord x
    → All IsWord maxval
    → (acl_addr_matches_range minval x maxval ≡ true)
      ↔ ((value minval ≤ value x) × (value x ≤ value maxval))
unfolding acl_addr_matches_range
acl_addr_matches_range_iff minval x maxval hm hx p q r =
    let e = range_loop_eq true true minval x maxval hm hx p q r in
    (λ h. ground arith, λ h. ground arith)

-- On a host that reads a word with its least significant byte first, a range of IPv4 addresses whose
-- first ends in d and whose last ends in a smaller number than d matches no address with that host's words,
-- also when the first is the smaller address, as in 10.0.0.1-10.0.1.0.
acl_addr_matches_range_little :
    (a b c d a' b' c' d' : ℕ) (x : List ℕ)
    → All IsByte (a ∷ b ∷ c ∷ d ∷ [])
    → All IsByte (a' ∷ b' ∷ c' ∷ d' ∷ [])
    → d' < d
    → length x ≡ 1
    → acl_addr_matches_range
        (words true (a ∷ b ∷ c ∷ d ∷ []))
        x
        (words true (a' ∷ b' ∷ c' ∷ d' ∷ []))
      ≡ false
unfolding acl_addr_matches_range range_loop
acl_addr_matches_range_little a b c d a' b' c' d' [] p q h n = absurd (omega arith)
acl_addr_matches_range_little a b c d a' b' c' d' (x ∷ []) p q h n = ground arith
acl_addr_matches_range_little a b c d a' b' c' d' (x ∷ y ∷ xs) p q h n = absurd (omega arith)
