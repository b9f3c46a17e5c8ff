-- ===== src/Wire/Edns.antt =====
-- signer/src/wire/edns.c: the OPT record of a packet.
pub mod Answer
pub mod Parse
mod Tests
use Prim.Native.Nat.{bit_and}
use opendnssec_workflow_test.Common.{
  ℕ, ◌+◌, ◌*◌, ◌/◌, ◌%◌, ◌^◌, Bool, true, false, not, ◌||◌, List, [], ◌∷◌, Option, none, some, ◌==◌,
  if◌then◌else◌, set,
}
use opendnssec_workflow_test.Common.Result.{Result, ok, err, ◌>>=◌}
use opendnssec_workflow_test.Wire.Buffer.{Buffer, set_position, available, read_u8, read_u16}

-- `OPT_LEN + OPT_RDATA`, and `LDNS_RR_TYPE_OPT`
abbrev pub opt_size : ℕ
opt_size = 9 + 2

abbrev pub type_opt : ℕ
type_opt = 41

-- `edns_data_type`
pub record EdnsData : Type 0 where
  pub ok_bytes : List ℕ
  pub error_bytes : List ℕ
  pub rdata_none : List ℕ

pub data EdnsStatus : Type 0 where
  edns_not_present edns_ok edns_error : EdnsStatus

-- `edns_rr_type`; `dnssec_ok` is the bit of the flags.
pub record EdnsRr : Type 0 where
  pub status : EdnsStatus
  pub position : ℕ
  pub maxlen : ℕ
  pub dnssec_ok : ℕ

-- `edns_init`
abbrev pub edns_init : ℕ → EdnsData
edns_init max_length =
    let hi = max_length / 2 ^ 8 % 2 ^ 8 in
    let lo = max_length % 2 ^ 8 in
    let type_hi = type_opt / 2 ^ 8 % 2 ^ 8 in
    let type_lo = type_opt % 2 ^ 8 in
    record {
      ok_bytes = 0 ∷ type_hi ∷ type_lo ∷ hi ∷ lo ∷ 0 ∷ 0 ∷ 0 ∷ 0 ∷ [];
      error_bytes = 0 ∷ type_hi ∷ type_lo ∷ hi ∷ lo ∷ 1 ∷ 0 ∷ 0 ∷ 0 ∷ [];
      rdata_none = 0 ∷ 0 ∷ [];
    }

-- The answer's flag on the record, as wire/query.c sets it.
abbrev pub with_dnssec : Bool → List ℕ → List ℕ
with_dnssec dnssec_ok bytes = set bytes 7 (if dnssec_ok then 0x80 else 0x00)

-- `edns_rr_reset`
abbrev pub edns_rr_reset : EdnsRr
edns_rr_reset = record { status = edns_not_present; position = 0; maxlen = 0; dnssec_ok = 0 }

-- `edns_rr_create`: whether an allocator is given, and whether it finds memory.
pub edns_rr_create : Bool → Bool → Option EdnsRr
edns_rr_create allocator memory =
    if allocator then if memory then some edns_rr_reset else none else none

-- The answer of `edns_rr_parse`, the record, and the buffer.
pub record Parsed : Type 0 where
  pub answer : Bool
  pub rr : EdnsRr
  pub buffer : Buffer

abbrev pub parsed : Bool → EdnsRr → Buffer → Parsed
parsed answer rr buffer = record { answer = answer; rr = rr; buffer = buffer }

-- `edns_rr_parse` behind the test of owner and type.
pub parse_opt : EdnsRr → Buffer → Result Parsed
parse_opt e b = do
  class ← read_u16 b
  rcode ← read_u8 class.1
  version ← read_u8 rcode.1
  flags ← read_u16 version.1
  rdlen ← read_u16 flags.1
  if not (version.0 == 0)
      then ok (parsed true (record e { status = edns_error }) rdlen.1)
      else ok (
          parsed true
            (record e { status = edns_ok; maxlen = class.0; dnssec_ok = bit_and flags.0 0x8000 })
            rdlen.1)

-- `edns_rr_parse` behind the test that there is room.
pub parse_there : EdnsRr → Buffer → Result Parsed
parse_there e b = do
  owner ← read_u8 b
  type ← read_u16 owner.1
  if not (owner.0 == 0) || not (type.0 == type_opt)
      then set_position type.1 e.position >>= (λ back. ok (parsed false e back))
      else parse_opt e type.1

-- `edns_rr_parse`
pub edns_rr_parse : EdnsRr → Buffer → Result Parsed
edns_rr_parse e b = do
  there ← available b opt_size
  let e' : EdnsRr = record e { position = b.position } in
      if there then parse_there e' b else ok (parsed false e' b)

-- `edns_rr_reserved_space`
abbrev pub edns_rr_reserved_space : EdnsRr → ℕ
edns_rr_reserved_space e = elim e.status [
  | edns_not_present ↦ 0
  | edns_ok ↦ opt_size
  | edns_error ↦ opt_size
]
