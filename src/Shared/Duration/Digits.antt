-- ===== src/Shared/Duration/Digits.antt =====
-- The digits of a number: how many `digits_in_number` of signer/src/shared/duration.c counts, and the
-- number that is read from them.
use opendnssec_workflow_test.Common.{
  ℕ, zero, suc, ◌+◌, ◌-◌, ◌*◌, ◌/◌, ◌%◌, ◌<◌, ◌≡◌, refl, ap, ◌∙◌, inl, inr, true, Bool-cases, List,
  ◌∷◌, arith, ◌==◌, length, if_true, if_false,
}
use opendnssec_workflow_test.Common.Text.{digits_value, is_digit}
use opendnssec_workflow_test.Shared.Duration.{digits_loop, decimal_before}

digits_loop_zero : (rounds : ℕ) → digits_loop rounds 0 ≡ 0
unfolding digits_loop
digits_loop_zero zero = refl
digits_loop_zero (suc rounds) = ground arith

-- There are as many characters as were counted.
pub length-decimal_before :
    (rounds n : ℕ) (text : List ℕ)
    → 0 < n
    → length (decimal_before rounds n text) ≡ digits_loop rounds n + length text
unfolding decimal_before digits_loop
length-decimal_before zero n text h = omega arith
length-decimal_before (suc rounds) n text h = elim (Bool-cases (n / 10 == 0)) [
  | inl q ↦
      let e : n / 10 ≡ 0 = ground arith in
      let none_left : digits_loop rounds (n / 10) ≡ 0 = rw e (digits_loop_zero rounds) in
      ground (arith, none_left)
  | inr q ↦
      let more = length-decimal_before rounds (n / 10) ((n % 10 + 48) ∷ text) (ground arith) in
      ground (arith, more)
]

-- The numbers of so many digits are below this.
abbrev pub bound : ℕ → ℕ
bound zero = 1
bound (suc rounds) = bound rounds * 10

digits_value_last :
    (n : ℕ) (text : List ℕ) → digits_value (n / 10) ((n % 10 + 48) ∷ text) ≡ digits_value n text
unfolding digits_value
digits_value_last n text =
    let d : is_digit (n % 10 + 48) ≡ true = ground arith in
    let e : n / 10 * 10 + (n % 10 + 48 - 48) ≡ n = omega arith in
    if_true _ _ d ∙ ap (λ m. digits_value m text) e

-- Enough rounds give all digits: the number is read from them again.
pub digits_value-decimal_before :
    (rounds n : ℕ) (text : List ℕ)
    → n < bound rounds
    → digits_value 0 (decimal_before rounds n text) ≡ digits_value n text
unfolding decimal_before
digits_value-decimal_before zero n text h =
    let e : 0 ≡ n = omega arith in ap (λ m. digits_value m text) e
digits_value-decimal_before (suc rounds) n text h = elim (Bool-cases (n / 10 == 0)) [
  | inl q ↦
      let e : 0 ≡ n / 10 = ground arith in
      ap (digits_value 0) (if_true _ _ q)
      ∙ ap (λ m. digits_value m ((n % 10 + 48) ∷ text)) e
      ∙ digits_value_last n text
  | inr q ↦
      ap (digits_value 0) (if_false _ _ q)
      ∙ digits_value-decimal_before rounds (n / 10) ((n % 10 + 48) ∷ text) (omega arith)
      ∙ digits_value_last n text
]
