-- ===== src/Shared/File.antt =====
-- `ods_strcmp` and `ods_strlowercmp` of signer/src/shared/file.c; a string may be NULL.
use opendnssec_workflow_test.Common.{
  ℕ, zero, suc, ◌≡◌, refl, inl, inr, Bool, true, false, not, ◌&&◌, Bool-cases, List, [], ◌∷◌,
  Option, none, some, arith, length, ltb, ◌==◌, if◌then◌else◌, if_true, if_false, map, sym, ◌∙◌,
}
use opendnssec_workflow_test.Common.Int.{ℤ, pos, negsuc, sub_ℕ}
use opendnssec_workflow_test.Common.Text.{tolower}

unfoldable pub strlowercmp : List ℕ → List ℕ → ℤ
strlowercmp [] [] = pos 0
strlowercmp [] (y ∷ ys) = negsuc 0
strlowercmp (x ∷ xs) [] = pos 1
strlowercmp (x ∷ xs) (y ∷ ys) =
    let rest = strlowercmp xs ys in
    if tolower x == tolower y then rest else if ltb (tolower x) (tolower y) then negsuc 0 else pos 1

unfoldable pub ods_strlowercmp : Option (List ℕ) → Option (List ℕ) → ℤ
ods_strlowercmp none none = pos 0
ods_strlowercmp none (some t) = negsuc 0
ods_strlowercmp (some s) none = pos 1
ods_strlowercmp (some s) (some t) = strlowercmp s t

-- strncmp()
unfoldable pub strncmp : ℕ → List ℕ → List ℕ → ℤ
strncmp zero s t = pos 0
strncmp (suc n) [] [] = pos 0
strncmp (suc n) [] (y ∷ ys) = negsuc 0
strncmp (suc n) (x ∷ xs) [] = pos 1
strncmp (suc n) (x ∷ xs) (y ∷ ys) =
    let rest = strncmp n xs ys in if x == y then rest else if ltb x y then negsuc 0 else pos 1

-- A test of an `int` against 0.
abbrev pub is_zero : ℤ → Bool
is_zero (pos n) = n == 0
is_zero (negsuc n) = false

-- The lengths differ by less than 2 ^ 31.
unfoldable pub ods_strcmp : Option (List ℕ) → Option (List ℕ) → ℤ
ods_strcmp none none = pos 0
ods_strcmp none (some t) = negsuc 0
ods_strcmp (some s) none = negsuc 0
ods_strcmp (some s) (some t) =
    let by_bytes = strncmp (length s) s t in
    if not (length s == length t) && is_zero by_bytes then sub_ℕ (length s) (length t) else by_bytes

strncmp-zero :
    (s t : List ℕ) → length s ≡ length t → is_zero (strncmp (length s) s t) ≡ true → s ≡ t
unfolding strncmp
strncmp-zero [] [] e h = refl
strncmp-zero [] (y ∷ ys) e h = absurd (omega arith)
strncmp-zero (x ∷ xs) [] e h = absurd (omega arith)
strncmp-zero (x ∷ xs) (y ∷ ys) e h = elim (Bool-cases (x == y)) [
  | inl q ↦
      let h' : is_zero (strncmp (length xs) xs ys) ≡ true = ground arith in
      let rest = strncmp-zero xs ys (omega arith) h' in let head : x ≡ y = ground arith in cc
  | inr q ↦ absurd (ground arith)
]

strncmp_refl : (s : List ℕ) → strncmp (length s) s s ≡ pos 0
unfolding strncmp
strncmp_refl [] = refl
strncmp_refl (x ∷ xs) = ground (arith, strncmp_refl xs)

-- Two strings compare equal just when they are the same.
pub ods_strcmp-zero : (s t : List ℕ) → is_zero (ods_strcmp (some s) (some t)) ≡ true → s ≡ t
unfolding ods_strcmp
ods_strcmp-zero s t h = elim (Bool-cases (length s == length t)) [
  | inl e ↦ strncmp-zero s t (ground arith) (ground arith)
  | inr n ↦ absurd (ground arith)
]

pub ods_strcmp_refl : (s : List ℕ) → is_zero (ods_strcmp (some s) (some s)) ≡ true
unfolding ods_strcmp
ods_strcmp_refl s = ground (arith, strncmp_refl s)

-- `strlowercmp` answers 0 for texts that are the same in lower case, and no others.
pub strlowercmp_same : (s t : List ℕ) → strlowercmp s t ≡ pos 0 → map tolower s ≡ map tolower t
unfolding strlowercmp
strlowercmp_same [] [] h = refl
strlowercmp_same [] (y ∷ ys) h = absurd cc
strlowercmp_same (x ∷ xs) [] h = absurd cc
strlowercmp_same (x ∷ xs) (y ∷ ys) h = elim (Bool-cases (tolower x == tolower y)) [
  | inl q ↦
      let f : tolower x ≡ tolower y = ground (arith, q) in
      let rest = strlowercmp_same xs ys (sym (if_true _ _ q) ∙ h) in rw (f, rest) refl
  | inr q ↦
      let g = sym (if_false _ _ q) ∙ h in
      elim (Bool-cases (ltb (tolower x) (tolower y))) [
        | inl l ↦ let k = sym (if_true _ _ l) ∙ g in absurd cc
        | inr l ↦ let k = sym (if_false _ _ l) ∙ g in absurd cc
      ]
]

pub strlowercmp_zero : (s t : List ℕ) → map tolower s ≡ map tolower t → strlowercmp s t ≡ pos 0
unfolding strlowercmp
strlowercmp_zero [] [] h = refl
strlowercmp_zero [] (y ∷ ys) h = absurd cc
strlowercmp_zero (x ∷ xs) [] h = absurd cc
strlowercmp_zero (x ∷ xs) (y ∷ ys) h =
    let f : tolower x ≡ tolower y = cc in
    let rest : map tolower xs ≡ map tolower ys = cc in
    let q : (tolower x == tolower y) ≡ true = ground (arith, f) in
    if_true _ _ q ∙ strlowercmp_zero xs ys rest
