-- ===== src/Common/Text.antt =====
-- Strings as lists of character codes, and what the C library does with them.
use opendnssec_workflow_test.Common.{
  ℕ, ◌+◌, ◌-◌, ◌*◌, Bool, ◌&&◌, ◌||◌, List, [], ◌∷◌, Option, none, some, leb, ◌==◌, if◌then◌else◌,
}
use opendnssec_workflow_test.Common.Int.{ℤ, pos, sub_ℕ}

-- What strchr() finds: the text before the first such character, and the text behind it.
unfoldable pub split_at : ℕ → List ℕ → Option (List ℕ × List ℕ)
split_at ch [] = none
split_at ch (x ∷ xs) =
    let rest = split_at ch xs in
    if x == ch
    then some ([], xs)
    else elim rest [ none ↦ none | some (before, behind) ↦ some (x ∷ before, behind) ]

abbrev pub is_digit : ℕ → Bool
is_digit ch = leb 48 ch && leb ch 57

-- isspace()
abbrev pub is_space : ℕ → Bool
is_space ch = ch == 32 || (leb 9 ch && leb ch 13)

-- tolower()
abbrev pub tolower : ℕ → ℕ
tolower ch = if leb 65 ch && leb ch 90 then ch + 32 else ch

-- The value of the digits at the start, behind a value that is read already.
unfoldable pub digits_value : ℕ → List ℕ → ℕ
digits_value n [] = n
digits_value n (x ∷ xs) =
    let more = digits_value (n * 10 + (x - 48)) xs in if is_digit x then more else n

-- atoi(), for values that fit an `int`.
unfoldable pub atoi_signed : List ℕ → ℤ
unfolding digits_value
atoi_signed [] = pos 0
atoi_signed (x ∷ xs) =
    if x == 45
    then sub_ℕ 0 (digits_value 0 xs)
    else if x == 43
    then pos (digits_value 0 xs)
    else pos (digits_value 0 (x ∷ xs))

unfoldable pub atoi : List ℕ → ℤ
unfolding atoi_signed
atoi [] = pos 0
atoi (x ∷ xs) = let rest = atoi xs in if is_space x then rest else atoi_signed (x ∷ xs)
