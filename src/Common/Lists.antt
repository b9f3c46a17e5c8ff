-- ===== src/Common/Lists.antt =====
-- Lists measured and indexed by native numbers, under the library's names: C arrays are such lists.
use Prim.Native.Nat.{ℕ, zero, suc, ◌+◌, ◌-◌, ◌≤◌, ◌<◌, min}
use mathlib.Core.Path.{◌≡◌, refl, ap, ◌∙◌}
use mathlib.Core.Logic.{◌≢◌}
use mathlib.Core.List.{List, [], ◌∷◌, ◌++◌}
use mathlib.Core.Option.{Option, none, some}
use native.Mathlib.Omega.{arith}

module _ {ℓ} {A : Type ℓ} where
  abbrev pub length : List A → ℕ
  length [] = 0
  length (x ∷ xs) = suc (length xs)

  abbrev pub get_elem? : List A → ℕ → Option A
  get_elem? [] i = none
  get_elem? (x ∷ xs) zero = some x
  get_elem? (x ∷ xs) (suc i) = get_elem? xs i

  abbrev pub get_or : List A → ℕ → A → A
  get_or [] i d = d
  get_or (x ∷ xs) zero d = x
  get_or (x ∷ xs) (suc i) d = get_or xs i d

  -- A write out of bounds changes nothing.
  abbrev pub set : List A → ℕ → A → List A
  set [] i v = []
  set (x ∷ xs) zero v = v ∷ xs
  set (x ∷ xs) (suc i) v = x ∷ set xs i v

  abbrev pub take : ℕ → List A → List A
  take zero xs = []
  take (suc n) [] = []
  take (suc n) (x ∷ xs) = x ∷ take n xs

  abbrev pub drop : ℕ → List A → List A
  drop zero xs = xs
  drop (suc n) [] = []
  drop (suc n) (x ∷ xs) = drop n xs

  abbrev pub replicate : ℕ → A → List A
  replicate zero a = []
  replicate (suc n) a = a ∷ replicate n a

  -- A predicate on every element.
  abbrev pub All {κ} : (A → Type κ) → List A → Type κ
  All P [] = Unit
  All P (x ∷ xs) = P x × All P xs

module _ {ℓ} {A : Type ℓ} where
  pub length-append : (xs ys : List A) → length (xs ++ ys) ≡ length xs + length ys
  length-append [] ys = omega arith
  length-append (x ∷ xs) ys = omega (arith, length-append xs ys)

  pub length-set : (xs : List A) (i : ℕ) (v : A) → length (set xs i v) ≡ length xs
  length-set [] i v = refl
  length-set (x ∷ xs) zero v = refl
  length-set (x ∷ xs) (suc i) v = ap suc (length-set xs i v)

  pub length-take : (n : ℕ) (xs : List A) → length (take n xs) ≡ min n (length xs)
  length-take zero xs = omega arith
  length-take (suc n) [] = omega arith
  length-take (suc n) (x ∷ xs) = omega (arith, length-take n xs)

  pub length-drop : (n : ℕ) (xs : List A) → length (drop n xs) ≡ length xs - n
  length-drop zero xs = omega arith
  length-drop (suc n) [] = omega arith
  length-drop (suc n) (x ∷ xs) = omega (arith, length-drop n xs)

  pub length-replicate : (n : ℕ) (a : A) → length (replicate n a) ≡ n
  length-replicate zero a = refl
  length-replicate (suc n) a = ap suc (length-replicate n a)

  pub get_or-set_self :
      (xs : List A) (i : ℕ) (v d : A) → i < length xs → get_or (set xs i v) i d ≡ v
  get_or-set_self [] i v d h = absurd (omega arith)
  get_or-set_self (x ∷ xs) zero v d h = refl
  get_or-set_self (x ∷ xs) (suc i) v d h = get_or-set_self xs i v d (omega arith)

  pub get_or-set_ne :
      (xs : List A) (i j : ℕ) (v d : A) → i ≢ j → get_or (set xs i v) j d ≡ get_or xs j d
  get_or-set_ne [] i j v d h = refl
  get_or-set_ne (x ∷ xs) zero zero v d h = absurd (h refl)
  get_or-set_ne (x ∷ xs) zero (suc j) v d h = refl
  get_or-set_ne (x ∷ xs) (suc i) zero v d h = refl
  get_or-set_ne (x ∷ xs) (suc i) (suc j) v d h = get_or-set_ne xs i j v d (λ e. h (ap suc e))

  -- A write below the count extends the prefix; a write at or past it leaves the prefix alone.
  pub take-set_above : (n i : ℕ) (v : A) (xs : List A) → n ≤ i → take n (set xs i v) ≡ take n xs
  take-set_above zero i v xs h = refl
  take-set_above (suc n) i v [] h = refl
  take-set_above (suc n) zero v (x ∷ xs) h = absurd (omega arith)
  take-set_above (suc n) (suc i) v (x ∷ xs) h =
      ap (λ t. x ∷ t) (take-set_above n i v xs (omega arith))

  pub take-set_end :
      (n : ℕ) (v : A) (xs : List A)
      → n < length xs
      → take (suc n) (set xs n v) ≡ take n xs ++ v ∷ []
  take-set_end n v [] h = absurd (omega arith)
  take-set_end zero v (x ∷ xs) h = refl
  take-set_end (suc n) v (x ∷ xs) h = ap (λ t. x ∷ t) (take-set_end n v xs (omega arith))

  pub take_all : (n : ℕ) (xs : List A) → length xs ≤ n → take n xs ≡ xs
  take_all zero [] h = refl
  take_all zero (x ∷ xs) h = absurd (omega arith)
  take_all (suc n) [] h = refl
  take_all (suc n) (x ∷ xs) h = ap (λ t. x ∷ t) (take_all n xs (omega arith))

  pub take-append-length : (xs ys : List A) → take (length xs) (xs ++ ys) ≡ xs
  take-append-length [] ys = refl
  take-append-length (x ∷ xs) ys = ap (λ t. x ∷ t) (take-append-length xs ys)

  pub drop-append-length : (xs ys : List A) → drop (length xs) (xs ++ ys) ≡ ys
  drop-append-length [] ys = refl
  drop-append-length (x ∷ xs) ys = drop-append-length xs ys

  pub All-append {κ} : (P : A → Type κ) (xs ys : List A) → All P xs → All P ys → All P (xs ++ ys)
  All-append P [] ys p q = q
  All-append P (x ∷ xs) ys p q = (p.0, All-append P xs ys p.1 q)

module _ {ℓ} {A : Type ℓ} where
  pub get_elem?-eq-get_or :
      (xs : List A) (i : ℕ) (d : A) → i < length xs → get_elem? xs i ≡ some (get_or xs i d)
  get_elem?-eq-get_or [] i d h = absurd (omega arith)
  get_elem?-eq-get_or (x ∷ xs) zero d h = refl
  get_elem?-eq-get_or (x ∷ xs) (suc i) d h = get_elem?-eq-get_or xs i d (omega arith)

  pub get_elem?_outside : (xs : List A) (i : ℕ) → length xs ≤ i → get_elem? xs i ≡ none
  get_elem?_outside [] i h = refl
  get_elem?_outside (x ∷ xs) zero h = absurd (omega arith)
  get_elem?_outside (x ∷ xs) (suc i) h = get_elem?_outside xs i (omega arith)

module _ {ℓ κ} {A : Type ℓ} (P : A → Type κ) where
  pub All-set : (xs : List A) (i : ℕ) (v : A) → All P xs → P v → All P (set xs i v)
  All-set [] i v a p = tt
  All-set (x ∷ xs) zero v a p = (p, a.1)
  All-set (x ∷ xs) (suc i) v a p = (a.0, All-set xs i v a.1 p)

  pub All-get_or : (xs : List A) (i : ℕ) (d : A) → All P xs → P d → P (get_or xs i d)
  All-get_or [] i d a p = p
  All-get_or (x ∷ xs) zero d a p = a.0
  All-get_or (x ∷ xs) (suc i) d a p = All-get_or xs i d a.1 p

module _ {ℓ κ μ} {A : Type ℓ} where
  pub All-map :
      {P : A → Type κ} {Q : A → Type μ} (f : (a : A) → P a → Q a) (xs : List A)
      → All P xs
      → All Q xs
  All-map f [] p = tt
  All-map f (x ∷ xs) p = (f x p.0, All-map f xs p.1)

module _ {ℓ κ} {A : Type ℓ} (P : A → Type κ) where
  pub All_parts : (xs ys : List A) → All P (xs ++ ys) → All P xs × All P ys
  All_parts [] ys p = (tt, p)
  All_parts (x ∷ xs) ys p = ((p.0, (All_parts xs ys p.1).0), (All_parts xs ys p.1).1)

  pub All_both {μ} : (Q : A → Type μ) (xs : List A) → All P xs → All Q xs → All (λ a. P a × Q a) xs
  All_both Q [] p q = tt
  All_both Q (x ∷ xs) p q = ((p.0, q.0), All_both Q xs p.1 q.1)

-- `for (k = i; k < i + n; k++) a[k] = a[k+1];`
module _ {ℓ} {A : Type ℓ} where
  abbrev pub shift_down : ℕ → ℕ → A → List A → List A
  shift_down zero i d xs = xs
  shift_down (suc n) i d xs = shift_down n (suc i) d (set xs i (get_or xs (suc i) d))

  shift_down-cons :
      (n i : ℕ) (d x : A) (xs : List A) → shift_down n (suc i) d (x ∷ xs) ≡ x ∷ shift_down n i d xs
  shift_down-cons zero i d x xs = refl
  shift_down-cons (suc n) i d x xs = shift_down-cons n (suc i) d x (set xs i (get_or xs (suc i) d))

  pub length-shift_down : (n i : ℕ) (d : A) (xs : List A) → length (shift_down n i d xs) ≡ length xs
  length-shift_down zero i d xs = refl
  length-shift_down (suc n) i d xs =
      length-shift_down n (suc i) d (set xs i (get_or xs (suc i) d))
      ∙ length-set xs i (get_or xs (suc i) d)

  -- The loop moves the entries behind the first one down by one place.
  pub take-shift_down :
      (n : ℕ) (d x : A) (xs : List A)
      → n ≤ length xs
      → take n (shift_down n 0 d (x ∷ xs)) ≡ take n xs
  take-shift_down zero d x xs h = refl
  take-shift_down (suc n) d x [] h = absurd (omega arith)
  take-shift_down (suc n) d x (y ∷ xs) h =
      ap (take (suc n)) (shift_down-cons n 0 d y (y ∷ xs))
      ∙ ap (λ t. y ∷ t) (take-shift_down n d y xs (omega arith))

-- What stands behind a prefix.
module _ {ℓ} {A : Type ℓ} where
  pub get_elem?-append-length :
      (xs : List A) (y : A) (ys : List A) → get_elem? (xs ++ y ∷ ys) (length xs) ≡ some y
  get_elem?-append-length [] y ys = refl
  get_elem?-append-length (x ∷ xs) y ys = get_elem?-append-length xs y ys

  pub set-append-length :
      (xs : List A) (y z : A) (ys : List A) → set (xs ++ y ∷ ys) (length xs) z ≡ xs ++ z ∷ ys
  set-append-length [] y z ys = refl
  set-append-length (x ∷ xs) y z ys = ap (λ l. x ∷ l) (set-append-length xs y z ys)
