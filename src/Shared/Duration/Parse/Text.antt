-- ===== src/Shared/Duration/Parse/Text.antt =====
-- Searching the text of a duration, for `duration_create_from_string` of signer/src/shared/duration.c.
use opendnssec_workflow_test.Common.{
  ℕ, zero, suc, ◌+◌, ◌/◌, ◌%◌, ◌^◌, ◌<◌, ◌≡◌, refl, sym, ap, ◌∙◌, inl, inr, true, false, Bool-cases,
  List, [], ◌∷◌, ◌++◌, none, some, arith, ◌==◌, All, All-append, if_true, if_false,
}
use opendnssec_workflow_test.Common.Int.{pos}
use opendnssec_workflow_test.Common.Text.{is_digit, digits_value, atoi, atoi_signed}
use opendnssec_workflow_test.Shared.Duration.{decimal_before, decimal, low32, is_positive}
use opendnssec_workflow_test.Shared.Duration.Digits.{digits_value-decimal_before}
use opendnssec_workflow_test.Shared.Duration.Print.{part}
use opendnssec_workflow_test.Shared.Duration.Parse.{strchr, strrchr}

-- A text without a character.
abbrev pub Lacks : ℕ → List ℕ → Type 0
Lacks ch xs = All (λ x. (x == ch) ≡ false) xs

pub strchr-Lacks : (ch : ℕ) (xs ys : List ℕ) → Lacks ch xs → strchr ch (xs ++ ys) ≡ strchr ch ys
unfolding strchr
strchr-Lacks ch [] ys h = refl
strchr-Lacks ch (x ∷ xs) ys h = if_false _ _ h.0 ∙ strchr-Lacks ch xs ys h.1

pub strchr-none : (ch : ℕ) (xs : List ℕ) → Lacks ch xs → strchr ch xs ≡ none
unfolding strchr
strchr-none ch [] h = refl
strchr-none ch (x ∷ xs) h = if_false _ _ h.0 ∙ strchr-none ch xs h.1

pub strrchr-none : (ch : ℕ) (xs : List ℕ) → Lacks ch xs → strrchr ch xs ≡ none
unfolding strrchr
strrchr-none ch [] h = refl
strrchr-none ch (x ∷ xs) h = rw (strrchr-none ch xs h.1) (if_false _ _ h.0)

-- The last one, when it is the only one behind.
pub strrchr_last :
    (ch : ℕ) (xs ys : List ℕ) → Lacks ch ys → strrchr ch (xs ++ ch ∷ ys) ≡ some (ch ∷ ys)
unfolding strrchr
strrchr_last ch [] ys h =
    let e : (ch == ch) ≡ true = ground arith in rw (strrchr-none ch ys h) (if_true _ _ e)
strrchr_last ch (x ∷ xs) ys h = rw (strrchr_last ch xs ys h) refl

-- The characters of a number are digits.
abbrev pub IsDigits : List ℕ → Type 0
IsDigits xs = All (λ x. is_digit x ≡ true) xs

decimal_before-IsDigits :
    (rounds n : ℕ) (text : List ℕ) → IsDigits text → IsDigits (decimal_before rounds n text)
unfolding decimal_before
decimal_before-IsDigits zero n text h = h
decimal_before-IsDigits (suc rounds) n text h =
    let d : is_digit (n % 10 + 48) ≡ true = ground arith in
    elim (Bool-cases (n / 10 == 0)) [
      | inl q ↦ rw q (d, h)
      | inr q ↦ rw q (decimal_before-IsDigits rounds (n / 10) ((n % 10 + 48) ∷ text) (d, h))
    ]

pub IsDigits-Lacks : (ch : ℕ) (xs : List ℕ) → is_digit ch ≡ false → IsDigits xs → Lacks ch xs
IsDigits-Lacks ch [] h d = tt
IsDigits-Lacks ch (x ∷ xs) h d = let dx = d.0 in (ground arith, IsDigits-Lacks ch xs h d.1)

decimal_before-append :
    (rounds n : ℕ) (text more : List ℕ)
    → decimal_before rounds n text ++ more ≡ decimal_before rounds n (text ++ more)
unfolding decimal_before
decimal_before-append zero n text more = refl
decimal_before-append (suc rounds) n text more = elim (Bool-cases (n / 10 == 0)) [
  | inl q ↦ rw q refl
  | inr q ↦ rw q (decimal_before-append rounds (n / 10) ((n % 10 + 48) ∷ text) more)
]

-- A number begins with a digit, so that atoi() reads it to its end.
abbrev BeginsWithDigit : List ℕ → Type 0
BeginsWithDigit xs = (y : ℕ) × ((ys : List ℕ) × ((xs ≡ y ∷ ys) × (is_digit y ≡ true)))

decimal_before_begins :
    (rounds n x : ℕ) (text : List ℕ)
    → is_digit x ≡ true
    → BeginsWithDigit (decimal_before rounds n (x ∷ text))
unfolding decimal_before
decimal_before_begins zero n x text h = (x, (text, (refl, h)))
decimal_before_begins (suc rounds) n x text h =
    let d : is_digit (n % 10 + 48) ≡ true = ground arith in
    elim (Bool-cases (n / 10 == 0)) [
      | inl q ↦ rw q (n % 10 + 48, (x ∷ text, (refl, d)))
      | inr q ↦ rw q (decimal_before_begins rounds (n / 10) (n % 10 + 48) (x ∷ text) d)
    ]

decimal_begins : (n : ℕ) (text : List ℕ) → BeginsWithDigit (decimal_before 10 n text)
unfolding decimal_before
decimal_begins n text =
    let d : is_digit (n % 10 + 48) ≡ true = ground arith in
    elim (Bool-cases (n / 10 == 0)) [
      | inl q ↦ rw q (n % 10 + 48, (text, (refl, d)))
      | inr q ↦ rw q (decimal_before_begins 9 (n / 10) (n % 10 + 48) text d)
    ]

atoi_digit :
    (y : ℕ) (ys : List ℕ) → is_digit y ≡ true → atoi (y ∷ ys) ≡ pos (digits_value 0 (y ∷ ys))
unfolding atoi atoi_signed
atoi_digit y ys h = ground arith

digits_value_end : (n ch : ℕ) (rest : List ℕ) → is_digit ch ≡ false → digits_value n (ch ∷ rest) ≡ n
unfolding digits_value
digits_value_end n ch rest h = if_false _ _ h

pub atoi-decimal :
    (n ch : ℕ) (rest : List ℕ)
    → n < 2 ^ 32
    → is_digit ch ≡ false
    → atoi (decimal n ++ ch ∷ rest) ≡ pos n
atoi-decimal n ch rest h c =
    let (y, (ys, (e, d))) = decimal_begins n (ch ∷ rest) in
    let value : digits_value 0 (decimal_before 10 n (ch ∷ rest)) ≡ n =
      digits_value-decimal_before 10 n (ch ∷ rest) (omega arith) ∙ digits_value_end n ch rest c in
    ap atoi (decimal_before-append 10 n [] (ch ∷ rest) ∙ e)
    ∙ atoi_digit y ys d
    ∙ ap (λ t. pos (digits_value 0 t)) (sym e)
    ∙ ap pos value

pub decimal-Lacks : (ch n : ℕ) → is_digit ch ≡ false → Lacks ch (decimal n)
decimal-Lacks ch n h = IsDigits-Lacks ch (decimal n) h (decimal_before-IsDigits 10 n [] tt)

-- A part lacks every character that is neither a digit nor its letter.
pub part-Lacks :
    (ch letter n : ℕ)
    → is_digit ch ≡ false
    → (letter == ch) ≡ false
    → Lacks ch (part (pos n) letter)
part-Lacks ch letter n h l = elim (Bool-cases (is_positive (pos n))) [
  | inl q ↦ rw q (
      All-append (λ x. (x == ch) ≡ false) (decimal (low32 (pos n))) (letter ∷ [])
        (decimal-Lacks ch (low32 (pos n)) h) (l, tt))
  | inr q ↦ rw q tt
]
