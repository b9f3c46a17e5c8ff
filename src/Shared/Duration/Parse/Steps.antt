-- ===== src/Shared/Duration/Parse/Steps.antt =====
-- The steps of `duration_create_from_string` of signer/src/shared/duration.c on a printed text.
use mathlib.Core.List.{append_assoc}
use opendnssec_workflow_test.Common.{
  ℕ, ◌^◌, ◌≤◌, ◌<◌, ◌≡◌, ◌⊎◌, refl, sym, ap, ◌∙◌, inl, inr, Bool, true, false, Bool-cases, List, [],
  ◌∷◌, ◌++◌, Option, none, some, arith, ltb, ◌==◌, if◌then◌else◌, length, length-append, All-append,
  if_true, if_false,
}
use opendnssec_workflow_test.Common.Int.{ℤ, pos}
use opendnssec_workflow_test.Common.Text.{is_digit, atoi}
use opendnssec_workflow_test.Shared.Duration.{Duration, decimal, low32, is_positive}
use opendnssec_workflow_test.Shared.Duration.Print.{part}
use opendnssec_workflow_test.Shared.Duration.Parse.{
  strchr, strrchr, offset, Parsing, take_part, month_at, minute_at,
}
use opendnssec_workflow_test.Shared.Duration.Parse.Text.{
  Lacks, strchr-Lacks, strchr-none, strrchr-none, strrchr_last, atoi-decimal, decimal-Lacks,
}

-- The two forms of a part.
part-zero : (n letter : ℕ) → (n == 0) ≡ true → part (pos n) letter ≡ []
part-zero n letter q = let e : is_positive (pos n) ≡ false = ground arith in if_false _ _ e

part-positive :
    (n letter : ℕ) (rest : List ℕ)
    → n < 2 ^ 32
    → (n == 0) ≡ false
    → part (pos n) letter ++ rest ≡ decimal n ++ letter ∷ rest
part-positive n letter rest h q =
    let e : low32 (pos n) ≡ n = omega arith in
    let p : is_positive (pos n) ≡ true = ground arith in
    ap (λ t. t ++ rest) (if_true _ _ p)
    ∙ ap (λ m. (decimal m ++ letter ∷ []) ++ rest) e
    ∙ append_assoc (decimal n) (letter ∷ []) rest

-- The letter of a part is found just when the part is there, unless it comes again.
abbrev pub found : ℕ → ℕ → List ℕ → Option (List ℕ)
found n letter rest = if n == 0 then none else some (letter ∷ rest)

strchr_there :
    (c n letter : ℕ) (rest : List ℕ)
    → n < 2 ^ 32
    → (n == 0) ≡ false
    → is_digit letter ≡ false
    → (c == letter) ≡ false
    → strchr letter (c ∷ (part (pos n) letter ++ rest)) ≡ some (letter ∷ rest)
unfolding strchr
strchr_there c n letter rest h q d e =
    let same : (letter == letter) ≡ true = ground arith in
    if_false _ _ e
    ∙ ap (strchr letter) (part-positive n letter rest h q)
    ∙ strchr-Lacks letter (decimal n) (letter ∷ rest) (decimal-Lacks letter n d)
    ∙ if_true _ _ same

pub strchr-part :
    (c n letter : ℕ) (rest : List ℕ)
    → n < 2 ^ 32
    → is_digit letter ≡ false
    → (c == letter) ≡ false
    → Lacks letter rest
    → strchr letter (c ∷ (part (pos n) letter ++ rest)) ≡ found n letter rest
strchr-part c n letter rest h d e l = elim (Bool-cases (n == 0)) [
  | inl q ↦
      ap (λ t. strchr letter (c ∷ (t ++ rest))) (part-zero n letter q)
      ∙ strchr-none letter (c ∷ rest) (e, l)
      ∙ sym (if_true _ _ q)
  | inr q ↦ strchr_there c n letter rest h q d e ∙ sym (if_false _ _ q)
]

abbrev pub state : List ℕ → Duration → Bool → Parsing
state str d b = record { str = str; duration = d; not_weeks = b }

pub state_eq :
    {str str' : List ℕ} {d d' : Duration} {b b' : Bool}
    → str ≡ str'
    → d ≡ d'
    → b ≡ b'
    → state str d b ≡ state str' d' b'
state_eq p q r = rw (p, q, r) refl

-- A part that is found sets its value, one that is not is 0 before and after.
pub take_part-found :
    (put : ℤ → Duration → Duration) (c n letter : ℕ) (rest : List ℕ) (d : Duration) (b : Bool)
    → n < 2 ^ 32
    → is_digit letter ≡ false
    → put (pos 0) d ≡ d
    → take_part put (found n letter rest) (state (c ∷ (part (pos n) letter ++ rest)) d b)
      ≡ state ((if n == 0 then c else letter) ∷ rest) (put (pos n) d) (if n == 0 then b else true)
take_part-found put c n letter rest d b h g z = elim (Bool-cases (n == 0)) [
  | inl q ↦
      let e : n ≡ 0 = ground arith in
      ap (λ f. take_part put f (state (c ∷ (part (pos n) letter ++ rest)) d b)) (if_true _ _ q)
      ∙ state_eq
          (ap (λ t. c ∷ (t ++ rest)) (part-zero n letter q)
            ∙ sym (ap (λ x. x ∷ rest) (if_true _ _ q)))
          (sym (ap (λ m. put (pos m) d) e ∙ z)) (sym (if_true _ _ q))
  | inr q ↦
      ap (λ f. take_part put f (state (c ∷ (part (pos n) letter ++ rest)) d b)) (if_false _ _ q)
      ∙ state_eq (sym (ap (λ x. x ∷ rest) (if_false _ _ q)))
          (ap (λ v. put v d)
            (ap atoi (part-positive n letter rest h q) ∙ atoi-decimal n letter rest h g))
          (sym (if_false _ _ q))
]

-- The `T`, when there is a time, and the parts of the time.
abbrev pub tail_of : Bool → List ℕ → List ℕ
tail_of has_time time = if has_time then 84 ∷ time else []

abbrev pub t_of : Bool → List ℕ → Option (List ℕ)
t_of has_time time = if has_time then some (84 ∷ time) else none

-- An `M` behind the `T` is not taken for months, one before it is.
strchr_shorter :
    (ch : ℕ) (xs : List ℕ)
    → (strchr ch xs ≡ none) ⊎ ((x : List ℕ) × ((strchr ch xs ≡ some x) × (length x ≤ length xs)))
unfolding strchr
strchr_shorter ch [] = inl refl
strchr_shorter ch (x ∷ xs) = elim (Bool-cases (x == ch)) [
  | inl q ↦ inr (x ∷ xs, (if_true _ _ q, omega arith))
  | inr q ↦ elim (strchr_shorter ch xs) [
    | inl e ↦ inl (if_false _ _ q ∙ e)
    | inr (y, (e, l)) ↦ inr (y, (if_false _ _ q ∙ e, omega (arith, l)))
  ]
]

offset_before :
    (p x y : List ℕ)
    → length p < 2 ^ 63
    → length x ≤ length p
    → length y ≤ length p
    → length y < length x
    → (ltb (offset p x) (offset p y) ≡ true) × (ltb (offset p y) (offset p x) ≡ false)
offset_before p x y h hx hy l = (ground arith, ground arith)

month_at-none : (p : List ℕ) (o : Option (List ℕ)) → month_at p none o ≡ o
month_at-none p none = refl
month_at-none p (some x) = refl

-- None of the text but the time has an `M`.
late_month :
    (p time : List ℕ) (xs : List ℕ)
    → length p < 2 ^ 63
    → length (84 ∷ time) ≤ length p
    → Lacks 77 xs
    → month_at p (some (84 ∷ time)) (strchr 77 (xs ++ 84 ∷ time)) ≡ none
late_month p time xs hp lp l =
    let skip : strchr 77 (xs ++ 84 ∷ time) ≡ strchr 77 time =
      strchr-Lacks 77 xs (84 ∷ time) l ∙ strchr-Lacks 77 (84 ∷ []) time (refl, tt) in
    ap (month_at p (some (84 ∷ time))) skip ∙ elim (strchr_shorter 77 time) [
      | inl e ↦ ap (month_at p (some (84 ∷ time))) e
      | inr (x, (e, s)) ↦
          ap (month_at p (some (84 ∷ time))) e
          ∙ if_false _ _
              (offset_before p (84 ∷ time) x hp lp (omega (arith, s)) (omega (arith, s))).1
    ]

pub month_at-found :
    (p : List ℕ) (c mo : ℕ) (days time : List ℕ) (has_time : Bool)
    → length p < 2 ^ 63
    → length (77 ∷ (days ++ tail_of has_time time)) ≤ length p
    → mo < 2 ^ 32
    → (c == 77) ≡ false
    → Lacks 77 days
    → month_at p
        (t_of has_time time)
        (strchr 77 (c ∷ (part (pos mo) 77 ++ (days ++ tail_of has_time time))))
      ≡ found mo 77 (days ++ tail_of has_time time)
month_at-found p c mo days time false hp lp h e l =
    ap (month_at p none)
      (strchr-part c mo 77 (days ++ []) h refl e (All-append (λ x. (x == 77) ≡ false) days [] l tt))
    ∙ month_at-none p (found mo 77 (days ++ []))
month_at-found p c mo days time true hp lp h e l =
    let behind = days ++ 84 ∷ time in
    let n = length-append days (84 ∷ time) in
    elim (Bool-cases (mo == 0)) [
      | inl q ↦
          ap (λ t. month_at p (some (84 ∷ time)) (strchr 77 (c ∷ (t ++ behind))))
            (part-zero mo 77 q)
          ∙ late_month p time (c ∷ days) hp (omega (arith, n)) (e, l)
          ∙ sym (if_true _ _ q)
      | inr q ↦
          ap (month_at p (some (84 ∷ time))) (strchr_there c mo 77 behind h q refl e)
          ∙ if_true _ _
              (offset_before p (77 ∷ behind) (84 ∷ time) hp lp (omega (arith, n))
                (omega (arith, n))).0
          ∙ sym (if_false _ _ q)
    ]

-- The last `M` behind the `T` is that of minutes, when they are there.
pub minute_at-found :
    (p : List ℕ) (c mi : ℕ) (seconds time : List ℕ)
    → length p < 2 ^ 63
    → length (84 ∷ time) ≤ length p
    → ((mi == 0) ≡ false → length (77 ∷ seconds) ≤ length time)
    → mi < 2 ^ 32
    → (c == 77) ≡ false
    → Lacks 77 seconds
    → minute_at p (some (84 ∷ time)) (strrchr 77 (c ∷ (part (pos mi) 77 ++ seconds)))
      ≡ found mi 77 seconds
minute_at-found p c mi seconds time hp lp ls h e l = elim (Bool-cases (mi == 0)) [
  | inl q ↦
      ap (λ t. minute_at p (some (84 ∷ time)) (strrchr 77 (c ∷ (t ++ seconds)))) (part-zero mi 77 q)
      ∙ ap (minute_at p (some (84 ∷ time))) (strrchr-none 77 (c ∷ seconds) (e, l))
      ∙ sym (if_true _ _ q)
  | inr q ↦
      ap (λ t. minute_at p (some (84 ∷ time)) (strrchr 77 (c ∷ t)))
        (part-positive mi 77 seconds h q)
      ∙ ap (minute_at p (some (84 ∷ time))) (strrchr_last 77 (c ∷ decimal mi) seconds l)
      ∙ if_true _ _
          (offset_before p (84 ∷ time) (77 ∷ seconds) hp lp (omega (arith, ls q))
            (omega (arith, ls q))).0
      ∙ sym (if_false _ _ q)
]
