-- ===== src/Shared/Duration/Tests.antt =====
-- Tests and instances for durations and dates.
use opendnssec_workflow_test.Common.{ℕ, List, ◌+◌, ◌*◌, ◌≡◌, refl, [], ◌∷◌, none, some, arith}
use opendnssec_workflow_test.Common.Int.{pos, negsuc, ◌+ℤ◌, ◌*ℤ◌}
use opendnssec_workflow_test.Common.Result.{ok}
use opendnssec_workflow_test.Shared.Duration.{
  Duration, duration_create, duration_compare, digits_loop, decimal_before, duration2string,
  duration2time, mktime_from_utc,
}
use opendnssec_workflow_test.Shared.Duration.Calendar.{
  first_of, next_month, month_length, mktime_from_utc_lem,
}
use opendnssec_workflow_test.Common.Text.{atoi, atoi_signed, digits_value}
use opendnssec_workflow_test.Shared.Duration.Parse.{duration_create_from_string, strchr, strrchr}
use opendnssec_workflow_test.Shared.Duration.Parse.Date.{dated}
use opendnssec_workflow_test.Shared.Duration.Parse.Whole.{create_from_string-duration2string}
use opendnssec_workflow_test.Shared.Duration.Print.{text, duration2string-text}

-- A year, 30 minutes and 5 seconds.
abbrev long : Duration
long = record duration_create { years = pos 1; minutes = pos 30; seconds = pos 5 }

-- P1YT30M5S
long_text :
    duration2string (some long) ≡ ok (some (80 ∷ 49 ∷ 89 ∷ 84 ∷ 51 ∷ 48 ∷ 77 ∷ 53 ∷ 83 ∷ []))
unfolding duration2string digits_loop decimal_before
long_text = refl

long_time : duration2time (some long) ≡ pos (365 * 86400 + 1805)
unfolding duration2time ◌+ℤ◌ ◌*ℤ◌
long_time = refl

long_compared :
    (duration_compare (some long) (some duration_create) ≡ pos 1)
    × ((duration_compare (some duration_create) (some long) ≡ negsuc 0)
        × (duration_compare (some long) none ≡ negsuc 0))
unfolding duration_compare
long_compared = (refl, (refl, refl))

-- The first of March 2000.
march : mktime_from_utc (first_of 100 2) ≡ 951868800
march = refl

mktime_from_utc_lem_example :
    mktime_from_utc (next_month 100 1)
    ≡ mktime_from_utc (first_of 100 1) + 86400 * month_length 100 1
mktime_from_utc_lem_example = mktime_from_utc_lem 30 1 (omega arith)

duration2string-text_example : duration2string (some long) ≡ ok (some (text long))
duration2string-text_example = duration2string-text long (
  omega arith,
  (omega arith, (omega arith, (omega arith, (omega arith, (omega arith, omega arith))))),
)

-- P2W is read as two weeks, P2W1D as two days.
weeks_test :
    (duration_create_from_string (some (80 ∷ 50 ∷ 87 ∷ []))
      ≡ some (record duration_create { weeks = pos 2 }))
    × (duration_create_from_string (some (80 ∷ 50 ∷ 87 ∷ 49 ∷ 68 ∷ []))
        ≡ some (record duration_create { days = pos 2 }))
unfolding duration_create_from_string strchr strrchr atoi atoi_signed digits_value
weeks_test = (refl, refl)

create_from_string-duration2string_example :
    (str : List ℕ) × ((duration2string (some (dated 1 0 0 0 30 5)) ≡ ok (some str))
      × (duration_create_from_string (some str) ≡ some (dated 1 0 0 0 30 5)))
create_from_string-duration2string_example =
    create_from_string-duration2string 1 0 0 (omega arith) (omega arith) (omega arith) 0 30 5
      (omega arith) (omega arith) (omega arith)

-- The first of January 1970 is the beginning of time.
epoch_test : mktime_from_utc (first_of 70 0) ≡ 0
epoch_test = refl
