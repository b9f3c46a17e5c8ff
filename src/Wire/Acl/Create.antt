-- ===== src/Wire/Acl/Create.antt =====
-- `acl_create` of signer/src/wire/acl.c, and `tsig_lookup_by_name` of signer/src/wire/tsig.c.
pub mod Single
use opendnssec_workflow_test.Common.{
  ℕ, zero, suc, ◌+◌, ◌-◌, ◌*◌, ◌≡◌, ◌↔◌, refl, sym, ap, ◌∙◌, Bool, true, false, not, ◌&&◌, List, [],
  ◌∷◌, ◌++◌, Option, none, some, arith, ◌==◌, if◌then◌else◌, length, take, drop, replicate,
  Option-cases, inl, inr,
}
use opendnssec_workflow_test.Common.Int.{ℤ, pos, negsuc}
use opendnssec_workflow_test.Common.Text.{atoi}
use opendnssec_workflow_test.Shared.File.{ods_strlowercmp}
use opendnssec_workflow_test.Wire.Acl.{
  RangeType, range_single, range_mask, range_subnet, range_minmax, Family, inet, inet6, unspec,
  Tsig, Acl, Status, status_ok, bad_range, out_of_range, acl_parse_range_type,
  acl_parse_range_subnet, acl_parse_family, Sockaddr, acl_addr_matches, same_bytes, is_zero,
}

-- `tsig_lookup_by_name`
pub tsig_lookup_by_name : List Tsig → List ℕ → Option Tsig
tsig_lookup_by_name [] name = none
tsig_lookup_by_name (tsig ∷ tsigs) name =
    let rest = tsig_lookup_by_name tsigs name in
    elim (ods_strlowercmp (some tsig.name) (some name)) [
      | pos zero ↦ some tsig
      | pos (suc _) ↦ rest
      | negsuc _ ↦ rest
    ]

-- An `acl_addr_storage` of zeroes, and one that holds an address.
abbrev pub storage : List ℕ → List ℕ
storage bytes = bytes ++ drop (length bytes) (replicate 16 0)

abbrev pub family_bits : Family → ℕ
family_bits inet6 = 128
family_bits inet = 32
family_bits unspec = 0

-- inet_pton(), for an address family: the bytes, if the text is an address.
module _ (inet_pton : Family → List ℕ → Option (List ℕ)) where
  -- The second part of a range, that is behind the separator.
  pub mask_of : Family → RangeType → Option (List ℕ) → Option (List ℕ)
  mask_of family range_type none = some (storage [])
  mask_of family range_subnet (some text) =
      let (status, mask) = acl_parse_range_subnet text (storage []) (family_bits family) in
      elim status [ status_ok ↦ some mask | bad_range ↦ none | out_of_range ↦ none ]
  mask_of family range_single (some text) = some (storage [])
  mask_of family range_mask (some text) = elim (inet_pton family text) [
    | none ↦ none
    | some bytes ↦ some (storage bytes)
  ]
  mask_of family range_minmax (some text) = elim (inet_pton family text) [
    | none ↦ none
    | some bytes ↦ some (storage bytes)
  ]

  -- With an address.
  pub with_address : Option Tsig → ℤ → List ℕ → Option Acl
  with_address tsig port address =
      let family = acl_parse_family address in
      let (ip, range_type, second) = acl_parse_range_type address in
      elim (inet_pton family ip) [
        | none ↦ none
        | some bytes ↦ elim (mask_of family range_type second) [
          | none ↦ none
          | some mask ↦ some (record {
            address = some ip;
            port = port;
            family = family;
            addr = storage bytes;
            mask = mask;
            range_type = range_type;
            tsig = tsig;
          })
        ]
      ]

  -- The entry from its TSIG on: `memory` says whether `allocator_strdup` finds some.
  pub with_tsig : Bool → Option (List ℕ) → Option (List ℕ) → Option Tsig → Option Acl
  unfolding with_address
  with_tsig memory address port tsig =
      let number : ℤ = elim port [ none ↦ pos 0 | some text ↦ atoi text ] in
      elim address [
        | none ↦ some (record {
          address = none;
          port = number;
          family = unspec;
          addr = storage [];
          mask = storage [];
          range_type = range_single;
          tsig = tsig;
        })
        | some text ↦ if memory then with_address tsig number text else none
      ]

  -- `acl_create`: whether an allocator is given, and whether it finds memory twice.
  pub acl_create :
      Bool
      → Bool
      → Bool
      → Option (List ℕ)
      → Option (List ℕ)
      → Option (List ℕ)
      → List Tsig
      → Option Acl
  unfolding with_tsig
  acl_create allocator memory string_memory address port tsig_name tsigs =
      if allocator && memory
      then elim tsig_name [
        | none ↦ with_tsig string_memory address port none
        | some name ↦ elim (tsig_lookup_by_name tsigs name) [
          | none ↦ none
          | some tsig ↦ with_tsig string_memory address port (some tsig)
        ]
      ]
      else none
