-- ===== src/Shared/Duration.antt =====
-- signer/src/shared/duration.c: durations, their text, and the calendar. Memory is always found;
-- `ods_rand` is in Signer/Rrset/Sign.
pub mod Digits
pub mod Print
pub mod Parse
pub mod Calendar
mod Tests
use opendnssec_workflow_test.Common.{
  ℕ, zero, suc, ◌+◌, ◌-◌, ◌*◌, ◌/◌, ◌%◌, ◌^◌, Bool, true, false, not, ◌&&◌, ◌||◌, List, [], ◌∷◌,
  ◌++◌, Option, none, some, ltb, ◌==◌, if◌then◌else◌, length, take, get_or,
}
use opendnssec_workflow_test.Common.Int.{ℤ, pos, negsuc, signed32, ◌+ℤ◌, ◌*ℤ◌, ltb_ℤ}
use opendnssec_workflow_test.Common.Result.{Result, ok, err, overrun, ◌>>=◌, ◌>>◌, require}

-- `duration_type`, of `time_t` values.
pub record Duration : Type 0 where
  pub years : ℤ
  pub months : ℤ
  pub weeks : ℤ
  pub days : ℤ
  pub hours : ℤ
  pub minutes : ℤ
  pub seconds : ℤ

-- `duration_create`
abbrev pub duration_create : Duration
duration_create = record {
  years = pos 0;
  months = pos 0;
  weeks = pos 0;
  days = pos 0;
  hours = pos 0;
  minutes = pos 0;
  seconds = pos 0;
}

-- A cast to uint32_t.
abbrev pub low32 : ℤ → ℕ
low32 (pos n) = n % 2 ^ 32
low32 (negsuc n) = 2 ^ 32 - 1 - n % 2 ^ 32

-- Whether two `time_t` values are the same, and their difference, cut to an `int`.
abbrev pub same : ℤ → ℤ → Bool
same (pos m) (pos n) = m == n
same (negsuc m) (negsuc n) = m == n
same (pos m) (negsuc n) = false
same (negsuc m) (pos n) = false

abbrev pub int_of_diff : ℤ → ℤ → ℤ
int_of_diff a b = signed32 ((low32 a + 2 ^ 32 - low32 b) % 2 ^ 32)

-- `duration_compare`
pub duration_compare : Option Duration → Option Duration → ℤ
duration_compare none none = pos 0
duration_compare (some d1) none = negsuc 0
duration_compare none (some d2) = pos 1
duration_compare (some d1) (some d2) =
    if not (same d1.years d2.years)
    then int_of_diff d1.years d2.years
    else if not (same d1.months d2.months)
    then int_of_diff d1.months d2.months
    else if not (same d1.weeks d2.weeks)
    then int_of_diff d1.weeks d2.weeks
    else if not (same d1.days d2.days)
    then int_of_diff d1.days d2.days
    else if not (same d1.hours d2.hours)
    then int_of_diff d1.hours d2.hours
    else if not (same d1.minutes d2.minutes)
    then int_of_diff d1.minutes d2.minutes
    else if not (same d1.seconds d2.seconds)
    then int_of_diff d1.seconds d2.seconds
    else pos 0

-- The loop of `digits_in_number`: no more rounds than these.
unfoldable pub digits_loop : ℕ → ℕ → ℕ
digits_loop zero period = 0
digits_loop (suc rounds) period =
    let more = digits_loop rounds (period / 10) in if ltb 0 period then suc more else 0

-- `digits_in_number`: a uint32_t has ten digits at the most.
abbrev pub digits_in_number : ℤ → ℕ
digits_in_number duration = digits_loop 10 (low32 duration)

-- The text that "%u" gives for a number, before one that is there already.
unfoldable pub decimal_before : ℕ → ℕ → List ℕ → List ℕ
decimal_before zero n text = text
decimal_before (suc rounds) n text =
    let more = decimal_before rounds (n / 10) ((n % 10 + 48) ∷ text) in
    if n / 10 == 0 then (n % 10 + 48) ∷ text else more

abbrev pub decimal : ℕ → List ℕ
decimal n = decimal_before 10 n []

abbrev pub is_positive : ℤ → Bool
is_positive v = ltb_ℤ (pos 0) v

-- The room for a part that is printed, when it is.
abbrev pub part_room : ℤ → ℕ
part_room v = if is_positive v then 1 + digits_in_number v else 0

-- strncat() to a string in an allocated object of this size, the NUL included.
abbrev pub cat : ℕ → List ℕ → List ℕ → Result (List ℕ)
cat count str num = do require (ltb (length str + length num) count) overrun; ok (str ++ num)

-- A part, by way of a string that snprintf() writes, cut where its object ends.
abbrev pub cat_part : ℕ → ℤ → ℕ → List ℕ → Result (List ℕ)
cat_part count v letter str =
    if is_positive v
    then cat count str (take (digits_in_number v + 1) (decimal (low32 v) ++ letter ∷ []))
    else ok str

abbrev pub has_time : Duration → Bool
has_time d = is_positive d.hours || is_positive d.minutes || is_positive d.seconds

abbrev pub string_size : Duration → ℕ
string_size d =
    2
    + part_room d.years
    + part_room d.months
    + part_room d.weeks
    + part_room d.days
    + part_room d.hours
    + part_room d.minutes
    + part_room d.seconds
    + (if has_time d then 1 else 0)

-- `duration2string`
pub duration2string : Option Duration → Result (Option (List ℕ))
duration2string none = ok none
duration2string (some d) = do
  let count = string_size d
  y ← cat_part count d.years 89 (80 ∷ [])
  mo ← cat_part count d.months 77 y
  w ← cat_part count d.weeks 87 mo
  da ← cat_part count d.days 68 w
  t ← if has_time d then cat count da (84 ∷ []) else ok da
  h ← cat_part count d.hours 72 t
  mi ← cat_part count d.minutes 77 h
  s ← cat_part count d.seconds 83 mi
  ok (some s)

-- `duration2time`, of values whose sum fits a `time_t`: a month is 31 days, a year 365.
pub duration2time : Option Duration → ℤ
duration2time none = pos 0
duration2time (some d) =
    d.seconds
    +ℤ d.minutes *ℤ pos 60
    +ℤ d.hours *ℤ pos 3600
    +ℤ d.days *ℤ pos 86400
    +ℤ d.weeks *ℤ pos (86400 * 7)
    +ℤ d.months *ℤ pos (86400 * 31)
    +ℤ d.years *ℤ pos (86400 * 365)

-- `time_minimum` and `time_maximum`
abbrev pub time_minimum : ℤ → ℤ → ℤ
time_minimum a b = if ltb_ℤ a b then a else b

abbrev pub time_maximum : ℤ → ℤ → ℤ
time_maximum a b = if ltb_ℤ b a then a else b

-- `mdays`
abbrev pub mdays : List ℕ
mdays = 31 ∷ 28 ∷ 31 ∷ 30 ∷ 31 ∷ 30 ∷ 31 ∷ 31 ∷ 30 ∷ 31 ∷ 30 ∷ 31 ∷ []

-- `is_leap_year`, of a year from 0 on.
abbrev pub is_leap_year : ℕ → Bool
is_leap_year year = year % 4 == 0 && (not (year % 100 == 0) || year % 400 == 0)

-- `leap_days`, of years from 1 on, the second not before the first.
abbrev pub leap_days : ℕ → ℕ → ℕ
leap_days y1 y2 =
    let a = y1 - 1 in let b = y2 - 1 in (b / 4 - a / 4) - (b / 100 - a / 100) + (b / 400 - a / 400)

-- `struct tm`, in the order year (from 1900), month (from 0), day, hour, minute and second.
pub record Tm : Type 0 where
  pub tm_year : ℕ
  pub tm_mon : ℕ
  pub tm_mday : ℕ
  pub tm_hour : ℕ
  pub tm_min : ℕ
  pub tm_sec : ℕ

-- The loop over the months of `mktime_from_utc`.
abbrev pub month_days : ℕ → ℕ
month_days zero = 0
month_days (suc i) = month_days i + get_or mdays i 0

-- `mktime_from_utc`, of a time from 1970 on, with a day from 1 on.
abbrev pub mktime_from_utc : Tm → ℕ
mktime_from_utc tm =
    let year = 1900 + tm.tm_year in
    let leap = if ltb 1 tm.tm_mon && is_leap_year year then 1 else 0 in
    let days =
      365 * (year - 1970) + leap_days 1970 year + month_days tm.tm_mon + leap + (tm.tm_mday - 1) in
    let hours = days * 24 + tm.tm_hour in
    let minutes = hours * 60 + tm.tm_min in minutes * 60 + tm.tm_sec
