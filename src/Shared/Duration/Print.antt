-- ===== src/Shared/Duration/Print.antt =====
-- `duration2string` of signer/src/shared/duration.c: the text, and the room for it.
use mathlib.Core.List.{append-nil}
use opendnssec_workflow_test.Common.{
  ℕ, ◌+◌, ◌^◌, ◌<◌, ◌≡◌, refl, sym, ap, ◌∙◌, inl, inr, Bool, true, false, Bool-cases, List, [], ◌∷◌,
  ◌++◌, some, arith, ltb, if◌then◌else◌, length, length-append, take_all, if_true, if_false,
}
use opendnssec_workflow_test.Common.Int.{ℤ, pos, negsuc, pos_part}
use opendnssec_workflow_test.Common.Result.{ok}
use opendnssec_workflow_test.Shared.Duration.{
  Duration, low32, digits_in_number, decimal, is_positive, part_room, cat, cat_part, has_time,
  string_size, duration2string,
}
use opendnssec_workflow_test.Shared.Duration.Digits.{length-decimal_before}

-- A part of the text: nothing for a value that is not positive.
abbrev pub part : ℤ → ℕ → List ℕ
part v letter = if is_positive v then decimal (low32 v) ++ letter ∷ [] else []

-- The whole text: `P`, the parts of the date, `T` when there is a part of a time, and those parts.
abbrev pub date_text : Duration → List ℕ
date_text d =
    (((80 ∷ [] ++ part d.years 89) ++ part d.months 77) ++ part d.weeks 87) ++ part d.days 68

abbrev pub time_mark : Duration → List ℕ
time_mark d = if has_time d then 84 ∷ [] else []

abbrev pub text : Duration → List ℕ
text d =
    (((date_text d ++ time_mark d) ++ part d.hours 72) ++ part d.minutes 77) ++ part d.seconds 83

-- A value that the format "%u" gives whole.
abbrev pub IsPrintable : ℤ → Type 0
IsPrintable v = pos_part v < 2 ^ 32

low32_positive : (v : ℤ) → IsPrintable v → is_positive v ≡ true → 0 < low32 v
low32_positive (pos n) h q = ground arith
low32_positive (negsuc n) h q = absurd (ground arith)

length-decimal :
    (v : ℤ) → IsPrintable v → is_positive v ≡ true → length (decimal (low32 v)) ≡ digits_in_number v
length-decimal v h q = omega (arith, length-decimal_before 10 (low32 v) [] (low32_positive v h q))

pub length-part : (v : ℤ) (letter : ℕ) → IsPrintable v → length (part v letter) ≡ part_room v
length-part v letter h = elim (Bool-cases (is_positive v)) [
  | inl q ↦
      rw q (length-append (decimal (low32 v)) (letter ∷ []) ∙ omega (arith, length-decimal v h q))
  | inr q ↦ rw q refl
]

cat-ok :
    (count : ℕ) (str num : List ℕ)
    → length str + length num < count
    → cat count str num ≡ ok (str ++ num)
cat-ok count str num h =
    let t : ltb (length str + length num) count ≡ true = ground arith in rw t refl

cat_part-ok :
    (count : ℕ) (v : ℤ) (letter : ℕ) (str : List ℕ)
    → IsPrintable v
    → length str + part_room v < count
    → cat_part count v letter str ≡ ok (str ++ part v letter)
cat_part-ok count v letter str h r = elim (Bool-cases (is_positive v)) [
  | inl q ↦
      let whole = decimal (low32 v) ++ letter ∷ [] in
      let l : length whole ≡ digits_in_number v + 1 =
        length-append (decimal (low32 v)) (letter ∷ []) ∙ omega (arith, length-decimal v h q) in
      let room : part_room v ≡ 1 + digits_in_number v = if_true _ _ q in
      if_true _ _ q
      ∙ ap (cat count str) (take_all (digits_in_number v + 1) whole (omega arith))
      ∙ cat-ok count str whole (omega arith)
      ∙ ap (λ t. ok (str ++ t)) (sym (if_true _ _ q))
  | inr q ↦
      if_false _ _ q ∙ ap ok (sym (append-nil str)) ∙ ap (λ t. ok (str ++ t)) (sym (if_false _ _ q))
]

-- A text with a further part is longer by the room for it.
length-with :
    (str : List ℕ) (v : ℤ) (letter : ℕ)
    → IsPrintable v
    → length (str ++ part v letter) ≡ length str + part_room v
length-with str v letter h =
    length-append str (part v letter) ∙ ap (λ n. length str + n) (length-part v letter h)

cat_mark-ok :
    (count : ℕ) (b : Bool) (str : List ℕ)
    → length str + (if b then 1 else 0) < count
    → (if b then cat count str (84 ∷ []) else ok str) ≡ ok (str ++ (if b then 84 ∷ [] else []))
cat_mark-ok count true str h = cat-ok count str (84 ∷ []) h
cat_mark-ok count false str h = ap ok (sym (append-nil str))

length-with_mark :
    (str : List ℕ) (b : Bool)
    → length (str ++ (if b then 84 ∷ [] else [])) ≡ length str + (if b then 1 else 0)
length-with_mark str true = length-append str (84 ∷ [])
length-with_mark str false = length-append str []

-- A duration whose values are all below 2 ^ 32.
abbrev pub IsWhole : Duration → Type 0
IsWhole d =
    IsPrintable d.years
    × (IsPrintable d.months
        × (IsPrintable d.weeks
            × (IsPrintable d.days
                × (IsPrintable d.hours × (IsPrintable d.minutes × IsPrintable d.seconds)))))

-- When the values of a duration are below 2 ^ 32, `duration2string` writes each part that is positive,
-- with its letter, years to days behind `P` and hours to seconds behind a `T` that stands there just
-- when one of them does; and it never writes outside the memory that it calculated.
pub duration2string-text :
    (d : Duration) → IsWhole d → duration2string (some d) ≡ ok (some (text d))
unfolding duration2string
duration2string-text d (y, (mo, (w, (da, (h, (mi, s)))))) =
    let count = string_size d in
    let s0 : List ℕ = 80 ∷ [] in
    let s1 = s0 ++ part d.years 89 in
    let s2 = s1 ++ part d.months 77 in
    let s3 = s2 ++ part d.weeks 87 in
    let s4 = s3 ++ part d.days 68 in
    let s5 = s4 ++ time_mark d in
    let s6 = s5 ++ part d.hours 72 in
    let s7 = s6 ++ part d.minutes 77 in
    let l1 = length-with s0 d.years 89 y in
    let l2 = length-with s1 d.months 77 mo in
    let l3 = length-with s2 d.weeks 87 w in
    let l4 = length-with s3 d.days 68 da in
    let l5 = length-with_mark s4 (has_time d) in
    let l6 = length-with s5 d.hours 72 h in
    let l7 = length-with s6 d.minutes 77 mi in
    let r1 : length s0 + part_room d.years < count = omega arith in
    let r2 : length s1 + part_room d.months < count = omega arith in
    let r3 : length s2 + part_room d.weeks < count = omega arith in
    let r4 : length s3 + part_room d.days < count = omega arith in
    let r5 : length s4 + (if has_time d then 1 else 0) < count = omega arith in
    let r6 : length s5 + part_room d.hours < count = omega arith in
    let r7 : length s6 + part_room d.minutes < count = omega arith in
    let r8 : length s7 + part_room d.seconds < count = omega arith in
    rw
      (
        cat_part-ok count d.years 89 s0 y r1,
        cat_part-ok count d.months 77 s1 mo r2,
        cat_part-ok count d.weeks 87 s2 w r3,
        cat_part-ok count d.days 68 s3 da r4,
        cat_mark-ok count (has_time d) s4 r5,
        cat_part-ok count d.hours 72 s5 h r6,
        cat_part-ok count d.minutes 77 s6 mi r7,
        cat_part-ok count d.seconds 83 s7 s r8,
      )
      refl
