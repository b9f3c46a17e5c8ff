-- ===== src/Shared/Duration/Parse/Parts.antt =====
-- The parts of a printed duration in a row, and a step of `duration_create_from_string` of
-- signer/src/shared/duration.c over one of them.
use mathlib.Core.List.{append-nil, append_assoc}
use opendnssec_workflow_test.Common.{
  ℕ, zero, suc, ◌+◌, ◌/◌, ◌^◌, ◌≤◌, ◌<◌, ◌≡◌, refl, ap, ◌∙◌, inl, inr, Bool, true, false,
  Bool-cases, List, [], ◌∷◌, ◌++◌, Option, arith, ◌==◌, if◌then◌else◌, length, length-append,
  All-append, if_true, if_false,
}
use opendnssec_workflow_test.Common.Int.{ℤ, pos}
use opendnssec_workflow_test.Common.Text.{is_digit}
use opendnssec_workflow_test.Shared.Duration.{
  Duration, low32, is_positive, digits_loop, part_room, digits_in_number,
}
use opendnssec_workflow_test.Shared.Duration.Print.{part, length-part}
use opendnssec_workflow_test.Shared.Duration.Parse.{strchr, take_part}
use opendnssec_workflow_test.Shared.Duration.Parse.Text.{Lacks}
use opendnssec_workflow_test.Shared.Duration.Parse.Steps.{
  found, state, take_part-found, tail_of, t_of,
}

pub Lacks-append : (ch : ℕ) (xs ys : List ℕ) → Lacks ch xs → Lacks ch ys → Lacks ch (xs ++ ys)
Lacks-append ch xs ys h k = All-append (λ x. (x == ch) ≡ false) xs ys h k

-- The length of a part.
pub part_nonempty :
    (n letter : ℕ) → n < 2 ^ 32 → (n == 0) ≡ false → 1 ≤ length (part (pos n) letter)
part_nonempty n letter h q =
    let p : is_positive (pos n) ≡ true = ground arith in
    let r : part_room (pos n) ≡ 1 + digits_in_number (pos n) = if_true _ _ p in
    omega (arith, length-part (pos n) letter h, r)

pub room_behind : (xs ys zs : List ℕ) → 1 ≤ length ys → length (77 ∷ zs) ≤ length (xs ++ (ys ++ zs))
room_behind xs ys zs h = omega (arith, length-append xs (ys ++ zs), length-append ys zs)

pub digits_loop_le : (rounds n : ℕ) → digits_loop rounds n ≤ rounds
unfolding digits_loop
digits_loop_le zero n = omega arith
digits_loop_le (suc rounds) n = ground (arith, digits_loop_le rounds (n / 10))

pub length-part_le : (n letter : ℕ) → n < 2 ^ 32 → length (part (pos n) letter) ≤ 11
length-part_le n letter h = elim (Bool-cases (is_positive (pos n))) [
  | inl q ↦
      let r : part_room (pos n) ≡ 1 + digits_in_number (pos n) = if_true _ _ q in
      omega (arith, length-part (pos n) letter h, r, digits_loop_le 10 (low32 (pos n)))
  | inr q ↦
      let r : part_room (pos n) ≡ 0 = if_false _ _ q in
      omega (arith, length-part (pos n) letter h, r)
]

-- Parts in a row, however they are put together.
pub flat :
    (a b c m d e f : List ℕ)
    → ((((((a ++ b) ++ []) ++ c) ++ m) ++ d) ++ e) ++ f
      ≡ a ++ (b ++ (c ++ (m ++ (d ++ (e ++ (f ++ []))))))
flat a b c m d e f = simp (append_assoc, append-nil)

-- The text of the time, when there is one.
pub tail_short :
    (timed : Bool) (time : List ℕ) → length time ≤ 33 → length (tail_of timed time) ≤ 34
tail_short true time h = omega arith
tail_short false time h = omega arith

pub tail-Lacks :
    (ch : ℕ) (timed : Bool) (time : List ℕ)
    → (84 == ch) ≡ false
    → Lacks ch time
    → Lacks ch (tail_of timed time)
tail-Lacks ch true time h l = (h, l)
tail-Lacks ch false time h l = tt

pub strchr_tail : (timed : Bool) (time : List ℕ) → strchr 84 (tail_of timed time) ≡ t_of timed time
unfolding strchr
strchr_tail true time = refl
strchr_tail false time = refl

-- The letter before what is left, behind a part.
abbrev pub letter_at : ℕ → ℕ → ℕ → ℕ
letter_at n letter c = if n == 0 then c else letter

pub step :
    (put : ℤ → Duration → Duration) (at : List ℕ → Option (List ℕ)) (c n letter : ℕ) (rest : List ℕ)
    (d : Duration) (b : Bool)
    → n < 2 ^ 32
    → is_digit letter ≡ false
    → put (pos 0) d ≡ d
    → at (c ∷ (part (pos n) letter ++ rest)) ≡ found n letter rest
    → (let s = state (c ∷ (part (pos n) letter ++ rest)) d b in take_part put (at s.str) s)
      ≡ state (letter_at n letter c ∷ rest) (put (pos n) d) (if n == 0 then b else true)
step put at c n letter rest d b h g z f =
    ap (λ o. take_part put o (state (c ∷ (part (pos n) letter ++ rest)) d b)) f
    ∙ take_part-found put c n letter rest d b h g z
