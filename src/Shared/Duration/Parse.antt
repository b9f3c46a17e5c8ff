-- ===== src/Shared/Duration/Parse.antt =====
-- `duration_create_from_string` of signer/src/shared/duration.c. A pointer into the string is what
-- stands behind it there.
pub mod Text
pub mod Steps
pub mod Parts
pub mod Date
pub mod Whole
use opendnssec_workflow_test.Common.{
  ℕ, ◌+◌, ◌-◌, ◌%◌, ◌^◌, Bool, true, false, not, List, [], ◌∷◌, Option, none, some, ltb, ◌==◌,
  if◌then◌else◌, length,
}
use opendnssec_workflow_test.Common.Int.{ℤ, pos}
use opendnssec_workflow_test.Common.Text.{atoi}
use opendnssec_workflow_test.Shared.Duration.{Duration, duration_create}

-- strchr() and strrchr()
unfoldable pub strchr : ℕ → List ℕ → Option (List ℕ)
strchr ch [] = none
strchr ch (x ∷ xs) = let rest = strchr ch xs in if x == ch then some (x ∷ xs) else rest

unfoldable pub strrchr : ℕ → List ℕ → Option (List ℕ)
strrchr ch [] = none
strrchr ch (x ∷ xs) =
    let rest = strrchr ch xs in
    elim rest [ none ↦ if x == ch then some (x ∷ xs) else none | some found ↦ some found ]

-- The difference of a pointer to that to `p`, as a size_t.
abbrev pub offset : List ℕ → List ℕ → ℕ
offset p x = (length p + 2 ^ 64 - length x) % 2 ^ 64

-- The variables of the function, but for `P` and `T`.
pub record Parsing : Type 0 where
  pub str : List ℕ
  pub duration : Duration
  pub not_weeks : Bool

-- atoi(str + 1)
abbrev pub number_behind : List ℕ → ℤ
number_behind [] = pos 0
number_behind (x ∷ xs) = atoi xs

-- A part that is there: its letter was found.
abbrev pub take_part : (ℤ → Duration → Duration) → Option (List ℕ) → Parsing → Parsing
take_part put none s = s
take_part put (some x) s = record {
  str = x;
  duration = put (number_behind s.str) s.duration;
  not_weeks = true;
}

-- The `M` of months has to stand before the `T`, if there is one.
abbrev pub month_at : List ℕ → Option (List ℕ) → Option (List ℕ) → Option (List ℕ)
month_at p t none = none
month_at p none (some x) = some x
month_at p (some t) (some x) = if ltb (offset p x) (offset p t) then some x else none

abbrev pub with_t : Option (List ℕ) → Option (List ℕ) → Option (List ℕ)
with_t none x = none
with_t (some t) x = x

abbrev pub minute_at : List ℕ → Option (List ℕ) → Option (List ℕ) → Option (List ℕ)
minute_at p none x = none
minute_at p (some t) none = none
minute_at p (some t) (some x) = if ltb (offset p t) (offset p x) then some x else none

abbrev pub to_time : Option (List ℕ) → Parsing → Parsing
to_time none s = s
to_time (some t) s = record s { str = t; not_weeks = true }

abbrev pub parse_date : List ℕ → Option (List ℕ) → Parsing → Parsing
parse_date p t s =
    let y = take_part (λ v d. record d { years = v }) (strchr 89 s.str) s in
    let m = take_part (λ v d. record d { months = v }) (month_at p t (strchr 77 y.str)) y in
    take_part (λ v d. record d { days = v }) (strchr 68 m.str) m

abbrev pub parse_time : List ℕ → Option (List ℕ) → Parsing → Parsing
parse_time p t s =
    let h = take_part (λ v d. record d { hours = v }) (with_t t (strchr 72 s.str)) s in
    let m = take_part (λ v d. record d { minutes = v }) (minute_at p t (strrchr 77 h.str)) h in
    take_part (λ v d. record d { seconds = v }) (with_t t (strchr 83 m.str)) m

abbrev pub parse_weeks : Option (List ℕ) → Parsing → Option Duration
parse_weeks none s = some s.duration
parse_weeks (some w) s =
    if s.not_weeks then none else some (record s.duration { weeks = number_behind s.str })

abbrev pub parse_behind : List ℕ → Option (List ℕ) → Option Duration
parse_behind str none = none
parse_behind str (some p) =
    let t = strchr 84 str in
    let s : Parsing = record { str = str; duration = duration_create; not_weeks = false } in
    let s' = parse_time p t (to_time t (parse_date p t s)) in parse_weeks (strchr 87 s'.str) s'

-- `duration_create_from_string`
unfoldable pub duration_create_from_string : Option (List ℕ) → Option Duration
duration_create_from_string none = some duration_create
duration_create_from_string (some str) = parse_behind str (strchr 80 str)
