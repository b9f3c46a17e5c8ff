-- ===== src/Signer/Serial.antt =====
-- SOA serials: `util_serial_gt` of signer/src/shared/util.c and `namedb_update_serial` of
-- signer/src/signer/namedb.c. A `uint32_t` is a number below 2 ^ 32, and every sum and difference
-- wraps. The clock is an argument: `now` for `time_now()`, `date` for `time_datestamp(0, "%Y%m%d")`.
mod Laws
mod Tests
use text.Mathlib.Text.{◌==◌ as str_eq}
use Prim.Native.String.{String}
use opendnssec_workflow_test.Common.{
  ℕ, ◌+◌, ◌-◌, ◌*◌, ◌%◌, ◌^◌, Bool, true, false, not, ◌&&◌, Option, none, some, ltb, if◌then◌else◌,
}
use opendnssec_workflow_test.Common.Int.{pos, ltb_ℤ, signed32}

-- `uint32_t` arithmetic
abbrev pub add32 : ℕ → ℕ → ℕ
add32 a b = (a + b) % 2 ^ 32

abbrev pub sub32 : ℕ → ℕ → ℕ
sub32 a b = (a + 2 ^ 32 - b) % 2 ^ 32

-- `DNS_SERIAL_GT`: the difference, read as an `int`, is positive.
pub serial_gt : ℕ → ℕ → Bool
serial_gt serial_new serial_old = ltb_ℤ (pos 0) (signed32 (sub32 serial_new serial_old))

-- The serials of `namedb_type`.
pub record Db : Type 0 where
  pub inbserial : ℕ
  pub intserial : ℕ
  pub outserial : ℕ
  pub is_initialized : Bool

-- The value of the `Serial` element in the signer configuration.
pub data Format : Type 0 where
  unixtime datecounter counter keep unknown : Format

pub format_of : String → Format
format_of s =
    if str_eq s "unixtime"
    then unixtime
    else if str_eq s "datecounter"
    then datecounter
    else if str_eq s "counter"
    then counter
    else if str_eq s "keep"
    then keep
    else unknown

pub data Status : Type 0 where
  status_ok assert_err conflict_err status_err : Status

-- The local `max` of namedb.c: a plain comparison.
pub max_serial : ℕ → ℕ → ℕ
max_serial a b = if ltb a b then b else a

-- `prev` before the format is looked at.
pub previous : Db → ℕ → ℕ
unfolding max_serial
previous db inbound = if db.is_initialized then max_serial db.outserial inbound else inbound

-- `soa` and `prev` after the format is looked at, or the status that is returned.
pub data Choice : Type 0 where
  chosen : ℕ → ℕ → Choice
  refused : Status → Choice

-- `if (!util_serial_gt(soa, prev)) soa = prev + 1;`
pub above : ℕ → ℕ → ℕ
above soa prev = if serial_gt soa prev then soa else add32 prev 1

pub choose : Format → Db → ℕ → ℕ → ℕ → Choice
choose unixtime db inbound now date =
    chosen (above (now % 2 ^ 32) (previous db inbound)) (previous db inbound)
choose datecounter db inbound now date =
    chosen (above ((date * 100) % 2 ^ 32) (previous db inbound)) (previous db inbound)
choose counter db inbound now date =
    chosen
      (if db.is_initialized && not (serial_gt (add32 inbound 1) (previous db inbound))
        then add32 (previous db inbound) 1
        else add32 inbound 1)
      (previous db inbound)
choose keep db inbound now date =
    if db.is_initialized && not (serial_gt inbound db.outserial)
    then refused conflict_err
    else chosen inbound db.outserial
choose unknown db inbound now date = refused status_err

-- `update`, with its limit of 2 ^ 31 - 1.
pub step : ℕ → ℕ → ℕ
step soa prev = if ltb 0x7FFFFFFF (sub32 soa prev) then 0x7FFFFFFF else sub32 soa prev

pub apply : Db → Choice → Status × Db
apply db (refused s) = (s, db)
apply db (chosen soa prev) = (
  status_ok,
  record db { intserial = if db.is_initialized then add32 db.intserial (step soa prev) else soa },
)

pub update_serial : Db → Option String → ℕ → ℕ → ℕ → Status × Db
update_serial db none inbound now date = (assert_err, db)
update_serial db (some format) inbound now date =
    apply db (choose (format_of format) db inbound now date)

-- What `tools_output` does to the serials: `unchanged`, that there are statistics and they say that
-- nothing was signed or sorted anew; `written`, that `adapter_write` succeeds.
pub output : Bool → Bool → Db → Db
output true written db = record db { intserial = db.outserial }
output false false db = db
output false true db = record db { outserial = db.intserial; is_initialized = true }
