-- ===== src/Wire/Acl/Tests.antt =====
-- Tests and instances for the access control lists.
use opendnssec_workflow_test.Common.{
  ℕ, ◌+◌, ◌-◌, ◌*◌, ◌≤◌, ◌<◌, ◌≡◌, refl, ◌↔◌, true, List, [], ◌∷◌, Option, none, some, arith,
  length, replicate, ltb,
}
use opendnssec_workflow_test.Common.Int.{ℤ, pos}
use opendnssec_workflow_test.Common.Text.{split_at, atoi, atoi_signed, digits_value}
use opendnssec_workflow_test.Shared.File.{ods_strlowercmp, strlowercmp}
use opendnssec_workflow_test.Wire.Buffer.Bits.{get_bit}
use opendnssec_workflow_test.Wire.Acl.{
  Acl, range_single, inet, Family, Tsig, TsigRr, tsig_ok, status_ok, fill, acl_parse_range_subnet,
  acl_parse_range_type, acl_parse_family, acl_addr_matches_range, acl_addr_matches,
  acl_tsig_matches, names_match,
}
use opendnssec_workflow_test.Wire.Acl.Range.{value, acl_addr_matches_range_iff}
use opendnssec_workflow_test.Wire.Acl.Subnet.{acl_parse_range_subnet-bits}
use opendnssec_workflow_test.Wire.Acl.Create.{acl_create}
use opendnssec_workflow_test.Wire.Acl.Create.Single.{sender, acl_create-single}

acl_addr_matches_range_iff_example :
    (acl_addr_matches_range (0x0a000001 ∷ []) (0x0a000080 ∷ []) (0x0a000100 ∷ []) ≡ true) ↔ (
      (value (0x0a000001 ∷ []) ≤ value (0x0a000080 ∷ []))
      × (value (0x0a000080 ∷ []) ≤ value (0x0a000100 ∷ [])))
acl_addr_matches_range_iff_example =
    acl_addr_matches_range_iff (0x0a000001 ∷ []) (0x0a000080 ∷ []) (0x0a000100 ∷ []) refl refl
      (omega arith) (omega arith) (omega arith)

-- "/28"
parsed :
    acl_parse_range_subnet (50 ∷ 56 ∷ []) (replicate 16 0) 32
    ≡ (status_ok, 0xff ∷ 0xff ∷ 0xff ∷ 0xf0 ∷ replicate 12 0)
unfolding acl_parse_range_subnet fill atoi atoi_signed digits_value
parsed = refl

acl_parse_range_subnet-bits_example :
    (n : ℕ) × (atoi (50 ∷ 56 ∷ []) ≡ pos n)
    × (n ≤ 32)
    × ((j : ℕ) → j < 8 * 16 → get_bit (0xff ∷ 0xff ∷ 0xff ∷ 0xf0 ∷ replicate 12 0) j ≡ ltb j n)
acl_parse_range_subnet-bits_example =
    acl_parse_range_subnet-bits (50 ∷ 56 ∷ []) 16 32 (0xff ∷ 0xff ∷ 0xff ∷ 0xf0 ∷ replicate 12 0)
      (omega arith) parsed

-- Names are the same if their texts have one length.
abbrev compare_lengths : List ℕ → List ℕ → ℤ
compare_lengths a b = pos (length a - length b + (length b - length a))

abbrev hmac : Tsig
hmac = record { name = 107 ∷ []; algorithm = some (104 ∷ []); key = some (107 ∷ []) }

abbrev anyone : Acl
anyone = record {
  address = none;
  port = pos 0;
  family = inet;
  addr = [];
  mask = [];
  range_type = range_single;
  tsig = some hmac;
}

abbrev signed : TsigRr
signed = record {
  status = tsig_ok;
  error_code = 0;
  key_name = some (107 ∷ []);
  algo = some (72 ∷ []);
}

verified : acl_tsig_matches compare_lengths anyone (some signed) ≡ true
unfolding acl_tsig_matches names_match ods_strlowercmp strlowercmp
verified = refl

abbrev host : List ℕ
host = 10 ∷ 0 ∷ 0 ∷ 1 ∷ []

abbrev next_host : List ℕ
next_host = 10 ∷ 0 ∷ 0 ∷ 2 ∷ []

-- "10.0.0.1"
abbrev text : List ℕ
text = 49 ∷ 48 ∷ 46 ∷ 48 ∷ 46 ∷ 48 ∷ 46 ∷ 49 ∷ []

abbrev read_address : Family → List ℕ → Option (List ℕ)
read_address inet _ = some host
read_address _ _ = none

one_address : acl_parse_range_type text ≡ (text, range_single, none)
unfolding acl_parse_range_type split_at
one_address = refl

dotted : acl_parse_family text ≡ inet
unfolding acl_parse_family
dotted = refl

acl_create-single_example :
    (acl : Acl) × (acl_create read_address true true true (some text) none none [] ≡ some acl)
    × ((acl_addr_matches true acl (sender inet 53 next_host) ≡ true)
        ↔ ((inet ≡ acl_parse_family text) × (next_host ≡ host)))
acl_create-single_example =
    acl_create-single read_address text host true inet 53 next_host one_address (rw dotted refl)
      (rw dotted refl) (λ q. rw dotted refl)
