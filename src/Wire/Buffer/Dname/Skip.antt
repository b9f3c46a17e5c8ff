-- ===== src/Wire/Buffer/Dname/Skip.antt =====
-- `buffer_skip_dname` on untrusted packets, and on names in wire format.
use Prim.Native.Nat.{bit_and}
use mathlib.Core.List.{append_assoc}
use opendnssec_workflow_test.Common.{
  ℕ, zero, suc, ◌+◌, ◌-◌, ◌≤◌, ◌<◌, ◌≡◌, refl, ap, ◌∙◌, Bool, true, false, List, [], ◌∷◌, ◌++◌,
  Option, some, arith, ◌==◌, length, get_or, drop, All, length-append,
}
use native.Mathlib.Decide.{dec_lt}
use native.Mathlib.Numerals.{add-one}
use opendnssec_workflow_test.Common.Bytes.{holds_below, holds_below_at}
use opendnssec_workflow_test.Common.Result.{Result, ok, err}
use opendnssec_workflow_test.Wire.Buffer.{Buffer, skip, available, read_u8}
use opendnssec_workflow_test.Wire.Buffer.Valid.{IsValid, load-ok}
use opendnssec_workflow_test.Wire.Buffer.Dname.{
  SkipRound, finished, onward, skipped, skip_there, skip_label, skip_first, skip_round, skip_dname,
}

-- A round that goes on has moved the cursor; none faults.
abbrev Moves : Buffer → Result SkipRound → Type 0
Moves b (ok (finished r b')) = IsValid b' × (b'.limit ≡ b.limit) × (b.position ≤ b'.position)
Moves b (ok (onward b')) = IsValid b' × (b'.limit ≡ b.limit) × (b.position < b'.position)
Moves b (err e) = ⊥

skip_there-ok :
    (b : Buffer) (count : ℕ) (next : Buffer → SkipRound)
    → IsValid b
    → (b.limit - b.position < count → skip_there b count next ≡ ok (finished false b))
      × (count ≤ b.limit - b.position
          → skip_there b count next ≡ ok (next (record b { position = b.position + count })))
unfolding skip_there skipped skip available
skip_there-ok b count next v = (λ h. ground arith, λ h. ground arith)

skip_label-Moves : (label_size : ℕ) (b : Buffer) → IsValid b → Moves b (skip_label label_size b)
unfolding skip_label
skip_label-Moves n b v =
    ground (arith, skip_there-ok b n onward v, skip_there-ok b 1 (finished true) v)

abbrev behind_first : Buffer → Buffer
behind_first b = record b { position = b.position + 1 }

behind_first-IsValid : (b : Buffer) → IsValid b → b.position < b.limit → IsValid (behind_first b)
behind_first-IsValid b v h = ground arith

read_u8-ok :
    (b : Buffer)
    → IsValid b
    → b.position < b.limit
    → read_u8 b ≡ ok (get_or b.data_bytes b.position 0, behind_first b)
unfolding read_u8
read_u8-ok b v h = ground (arith, load-ok b b.position)

skip_round-eq :
    (b : Buffer)
    → IsValid b
    → b.position < b.limit
    → skip_round b ≡ skip_label (get_or b.data_bytes b.position 0) (behind_first b)
unfolding skip_round skip_first available
skip_round-eq b v h = ground (arith, read_u8-ok b v h)

skip_round-end :
    (b : Buffer) → IsValid b → b.limit ≤ b.position → skip_round b ≡ ok (finished false b)
unfolding skip_round available
skip_round-end b v h = ground arith

-- Strictly forward, also when the round ends.
skip_round-Moves : (b : Buffer) → IsValid b → Moves b (skip_round b)
skip_round-Moves b v = elim (dec_lt b.position b.limit) [
  | yes h ↦ rw (skip_round-eq b v h) (
      weaken (skip_label (get_or b.data_bytes b.position 0) (behind_first b)) (
        skip_label-Moves (get_or b.data_bytes b.position 0) (behind_first b)
          (behind_first-IsValid b v h)))
  | no h ↦ rw (skip_round-end b v (omega arith)) (v, refl, omega arith)
]
  where
    weaken : (r : Result SkipRound) → Moves (behind_first b) r → Moves b r
    weaken (ok (finished q b')) m = (m.0, m.1, omega arith)
    weaken (ok (onward b')) m = (m.0, m.1, omega arith)
    weaken (err e) m = m

abbrev pub Skips : Buffer → Option (Result (Bool × Buffer)) → Type 0
Skips b r =
    (found : Bool) × (b' : Buffer) × (r ≡ some (ok (found, b')))
    × IsValid b'
    × (b'.limit ≡ b.limit)
    × (b.position ≤ b'.position)

skip_next :
    (fuel : ℕ) (b : Buffer) (r : Result SkipRound)
    → skip_round b ≡ r
    → Moves b r
    → ((b' : Buffer)
        → IsValid b'
        → b'.limit ≡ b.limit
        → b.position < b'.position
        → Skips b' (skip_dname fuel b'))
    → Skips b (skip_dname (suc fuel) b)
unfolding skip_dname
skip_next fuel b (ok (finished q b')) e m ih = (q, b', rw (e, skip_dname) refl, m.0, m.1, m.2)
skip_next fuel b (ok (onward b')) e m ih =
    let (q, c, p, v, l, k) = ih b' m.0 m.1 m.2 in
    (q, c, rw (e, skip_dname) p, v, l ∙ m.1, omega arith)
skip_next fuel b (err f) e m ih = absurd m

-- On every valid buffer `buffer_skip_dname` ends within one round more than there are bytes left: no
-- assertion fails, and the buffer stays valid, with the same limit and a cursor that never moves back.
pub skip_dname_total :
    (fuel : ℕ) (b : Buffer) → IsValid b → b.limit - b.position < fuel → Skips b (skip_dname fuel b)
skip_dname_total zero b v h = absurd (omega arith)
skip_dname_total (suc fuel) b v h =
    skip_next fuel b (skip_round b) refl (skip_round-Moves b v)
      λ b' v' l k. skip_dname_total fuel b' v' (omega (arith, v'.cursor))

-- A name in wire format: each label behind its length, and the root.
abbrev pub encode : List (List ℕ) → List ℕ
encode [] = 0 ∷ []
encode (l ∷ ls) = length l ∷ (l ++ encode ls)

abbrev pub IsLabel : List ℕ → Type 0
IsLabel l = (1 ≤ length l) × (length l ≤ 63)

label_table : holds_below (λ n. bit_and n 0xc0 == 0) 64 ≡ true
unfolding holds_below
label_table = refl

label_bits : (n : ℕ) → n ≤ 63 → (bit_and n 0xc0 == 0) ≡ true
label_bits n h = holds_below_at (λ m. bit_and m 0xc0 == 0) 64 n (omega arith) label_table

drop-cons :
    (xs : List ℕ) (p v : ℕ) (ys : List ℕ)
    → drop p xs ≡ v ∷ ys
    → (get_or xs p 0 ≡ v) × (drop (suc p) xs ≡ ys)
drop-cons [] zero v ys e = cc
drop-cons [] (suc p) v ys e = cc
drop-cons (x ∷ xs) zero v ys e = (cc, cc)
drop-cons (x ∷ xs) (suc p) v ys e = drop-cons xs p v ys e

drop-append :
    (xs : List ℕ) (p : ℕ) (bs ys : List ℕ) → drop p xs ≡ bs ++ ys → drop (p + length bs) xs ≡ ys
drop-append xs p [] ys e = ap (λ n. drop n xs) (omega arith) ∙ e
drop-append xs p (a ∷ bs) ys e =
    ap (λ n. drop n xs) (omega arith)
    ∙ drop-append xs (suc p) bs ys (drop-cons xs p a (bs ++ ys) e).1

-- On a valid buffer, a name of labels of 1 to 63 bytes in wire format that stands at the cursor and
-- ends before the limit is skipped exactly, whatever follows it, in one round for each label.
skip_dname-encode :
    (labels : List (List ℕ)) (rest : List ℕ) (b : Buffer) (fuel : ℕ)
    → IsValid b
    → All IsLabel labels
    → drop b.position b.data_bytes ≡ encode labels ++ rest
    → b.position + length (encode labels) ≤ b.limit
    → length labels < fuel
    → skip_dname fuel b
      ≡ some (ok (true, record b { position = b.position + length (encode labels) }))
unfolding skip_dname skip_label
skip_dname-encode labels rest b zero v a e h f = absurd (omega arith)
skip_dname-encode [] rest b (suc fuel) v a e h f =
    ground (arith, skip_round-eq b v (omega arith), drop-cons b.data_bytes b.position 0 rest e)
skip_dname-encode (l ∷ ls) rest b (suc fuel) v a e h f =
    let c = drop-cons b.data_bytes b.position (length l) ((l ++ encode ls) ++ rest) e in
    let b' : Buffer = record b { position = b.position + 1 + length l } in
    let v' : IsValid b' = ground (arith, length-append l (encode ls)) in
    let here = label_bits (length l) a.0.1 in
    let step : skip_round b ≡ ok (onward b') = ground (
      arith,
      skip_round-eq b v (omega arith),
      skip_there-ok (behind_first b) (length l) onward (behind_first-IsValid b v (omega arith)),
      length-append l (encode ls),
    ) in
    let at : drop b'.position b.data_bytes ≡ encode ls ++ rest =
      drop-append b.data_bytes (b.position + 1) l (encode ls ++ rest) (
        ap (λ n. drop n b.data_bytes) (add-one b.position)
        ∙ c.1
        ∙ append_assoc l (encode ls) rest) in
    ground (arith, length-append l (encode ls), skip_dname-encode ls rest b' fuel v' a.1 at)
