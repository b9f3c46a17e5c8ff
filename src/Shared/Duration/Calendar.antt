-- ===== src/Shared/Duration/Calendar.antt =====
-- The calendar of signer/src/shared/duration.c: leap days, and the seconds of a date.
use opendnssec_workflow_test.Common.{
  ℕ, zero, suc, ◌+◌, ◌-◌, ◌*◌, ◌<◌, ◌≡◌, refl, ap, ◌∙◌, inl, inr, Bool, true, false, ◌&&◌, ◌||◌,
  ◌%◌, Bool-cases, arith, ltb, ◌==◌, if◌then◌else◌, get_or, if_false,
}
use opendnssec_workflow_test.Shared.Duration.{
  mdays, is_leap_year, leap_days, Tm, month_days, mktime_from_utc,
}

-- The leap years of so many years, from 1970 on, counted one by one.
abbrev pub leap_years : ℕ → ℕ
leap_years zero = 0
leap_years (suc n) = leap_years n + (if is_leap_year (1970 + n) then 1 else 0)

leap_days_step :
    (n : ℕ)
    → leap_days 1970 (1970 + suc n)
      ≡ leap_days 1970 (1970 + n) + (if is_leap_year (1970 + n) then 1 else 0)
leap_days_step n = ground arith

-- `leap_days`, from 1970 to any later year, is the number of leap years from 1970 to before it.
pub leap_days_lem : (n : ℕ) → leap_days 1970 (1970 + n) ≡ leap_years n
leap_days_lem zero = refl
leap_days_lem (suc n) = omega (arith, leap_days_step n, leap_days_lem n)

-- The first of a month, and its length.
abbrev pub first_of : ℕ → ℕ → Tm
first_of year mon = record {
  tm_year = year;
  tm_mon = mon;
  tm_mday = 1;
  tm_hour = 0;
  tm_min = 0;
  tm_sec = 0;
}

-- The rule of the Gregorian calendar.
abbrev pub is_leap : ℕ → Bool
is_leap year = if year % 400 == 0 then true else if year % 100 == 0 then false else year % 4 == 0

-- April, June, September and November have thirty days, and February has 28 or 29.
abbrev pub month_length : ℕ → ℕ → ℕ
month_length year mon =
    if mon == 1
    then (if is_leap (1900 + year) then 29 else 28)
    else if mon == 3 || mon == 5 || mon == 8 || mon == 10
    then 30
    else 31

abbrev coded_length : ℕ → ℕ → ℕ
coded_length year mon =
    get_or mdays mon 0 + (if mon == 1 && is_leap_year (1900 + year) then 1 else 0)

is_leap_year_lem : (year : ℕ) → is_leap_year year ≡ is_leap year
is_leap_year_lem year = ground arith

coded_length_lem : (year mon : ℕ) → mon < 12 → coded_length year mon ≡ month_length year mon
coded_length_lem year zero h = refl
coded_length_lem year (suc zero) h =
    rw (is_leap_year_lem (1900 + year)) (february (is_leap (1900 + year)))
  where
    february : (leap : Bool) → 28 + (if leap then 1 else 0) ≡ (if leap then 29 else 28)
    february true = refl
    february false = refl
coded_length_lem year (suc (suc zero)) h = refl
coded_length_lem year (suc (suc (suc zero))) h = refl
coded_length_lem year (suc (suc (suc (suc zero)))) h = refl
coded_length_lem year (suc (suc (suc (suc (suc zero))))) h = refl
coded_length_lem year (suc (suc (suc (suc (suc (suc zero)))))) h = refl
coded_length_lem year (suc (suc (suc (suc (suc (suc (suc zero))))))) h = refl
coded_length_lem year (suc (suc (suc (suc (suc (suc (suc (suc zero)))))))) h = refl
coded_length_lem year (suc (suc (suc (suc (suc (suc (suc (suc (suc zero))))))))) h = refl
coded_length_lem year (suc (suc (suc (suc (suc (suc (suc (suc (suc (suc zero)))))))))) h = refl
coded_length_lem year (suc (suc (suc (suc (suc (suc (suc (suc (suc (suc (suc zero))))))))))) h =
    refl
coded_length_lem year (suc (suc (suc (suc (suc (suc (suc (suc (suc (suc (suc (suc n)))))))))))) h =
    absurd (omega arith)

abbrev pub next_month : ℕ → ℕ → Tm
next_month year mon = if mon == 11 then first_of (suc year) 0 else first_of year (suc mon)

-- The day after a month has to do with February just once.
leap_bit :
    (mon : ℕ) (leap : Bool)
    → (if ltb 1 (suc mon) && leap then 1 else 0)
      ≡ (if ltb 1 mon && leap then 1 else 0) + (if mon == 1 && leap then 1 else 0)
leap_bit mon true = ground arith
leap_bit mon false = ground arith

-- The days from 1970 to the first of a month of a later year, which `tm` counts from 1900.
first_day : ℕ → ℕ → ℕ
first_day year mon =
    365 * (1900 + year - 1970)
    + leap_days 1970 (1900 + year)
    + month_days mon
    + (if ltb 1 mon && is_leap_year (1900 + year) then 1 else 0)

year_step :
    (n : ℕ)
    → leap_days 1970 (1900 + suc (70 + n))
      ≡ leap_days 1970 (1900 + (70 + n)) + (if is_leap_year (1900 + (70 + n)) then 1 else 0)
year_step n = ground arith

mktime-first_of : (year mon : ℕ) → mktime_from_utc (first_of year mon) ≡ 86400 * first_day year mon
unfolding first_day
mktime-first_of year mon = omega arith

first_day_next :
    (year mon : ℕ) → first_day year (suc mon) ≡ first_day year mon + coded_length year mon
unfolding first_day
first_day_next year mon = omega (arith, leap_bit mon (is_leap_year (1900 + year)))

first_day_year : (n : ℕ) → first_day (suc (70 + n)) 0 ≡ first_day (70 + n) 11 + 31
unfolding first_day
first_day_year n = omega (arith, year_step n)

inner :
    (year mon : ℕ)
    → mktime_from_utc (first_of year (suc mon))
      ≡ mktime_from_utc (first_of year mon) + 86400 * coded_length year mon
inner year mon =
    mktime-first_of year (suc mon)
    ∙ omega (arith, first_day_next year mon, mktime-first_of year mon)

december :
    (n : ℕ)
    → mktime_from_utc (first_of (suc (70 + n)) 0)
      ≡ mktime_from_utc (first_of (70 + n) 11) + 86400 * 31
december n =
    mktime-first_of (suc (70 + n)) 0 ∙ omega (arith, first_day_year n, mktime-first_of (70 + n) 11)

-- For every month from January 1970 on, the first of the next month is, by `mktime_from_utc`, as many
-- days of 86400 seconds later as the month has: 30 in April, June, September and November, 28 in
-- February, or 29 when the year can be divided by 4, but not by 100 unless by 400, and else 31.
pub mktime_from_utc_lem :
    (n mon : ℕ)
    → mon < 12
    → mktime_from_utc (next_month (70 + n) mon)
      ≡ mktime_from_utc (first_of (70 + n) mon) + 86400 * month_length (70 + n) mon
mktime_from_utc_lem n mon h = elim (Bool-cases (mon == 11)) [
  | inl q ↦ let e : mon ≡ 11 = ground arith in rw e (december n)
  | inr q ↦
      ap mktime_from_utc (if_false _ _ q)
      ∙ inner (70 + n) mon
      ∙ ap (λ d. mktime_from_utc (first_of (70 + n) mon) + 86400 * d)
          (coded_length_lem (70 + n) mon h)
]
