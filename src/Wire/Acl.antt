-- ===== src/Wire/Acl.antt =====
-- signer/src/wire/acl.c: which hosts may ask for a zone or send a notification of it. An address is
-- its bytes in network order, of four or sixteen bytes; a string is its characters.
pub mod Range
pub mod Subnet
pub mod Find
pub mod Create
mod Tests
use Prim.Native.Nat.{bit_and}
use opendnssec_workflow_test.Common.{
  ℕ, zero, suc, ◌+◌, ◌-◌, ◌*◌, ◌^◌, ◌≤◌, ◌≡◌, Bool, true, false, not, ◌&&◌, ◌||◌, List, [], ◌∷◌,
  ◌++◌, Option, none, some, ltb, leb, ◌==◌, if◌then◌else◌, length, get_or, take, drop, replicate,
}
use opendnssec_workflow_test.Common.Int.{ℤ, pos, negsuc}
use opendnssec_workflow_test.Common.Text.{split_at, atoi}
use opendnssec_workflow_test.Shared.File.{ods_strlowercmp}

-- `acl_range_type`, and address families.
pub data RangeType : Type 0 where
  range_single range_mask range_subnet range_minmax : RangeType

pub data Family : Type 0 where
  inet inet6 unspec : Family

-- `tsig_type`, of a list of keys; a key is its name here.
pub record Tsig : Type 0 where
  pub name : List ℕ
  pub algorithm : Option (List ℕ)
  pub key : Option (List ℕ)

-- `tsig_rr_type`: what the comparison reads of the TSIG record of a packet.
pub data TsigStatus : Type 0 where
  tsig_not_present tsig_ok tsig_error : TsigStatus

pub record TsigRr : Type 0 where
  pub status : TsigStatus
  pub error_code : ℕ
  pub key_name : Option (List ℕ)
  pub algo : Option (List ℕ)

-- `acl_type`, without its `next`: a list of these stands for the chain.
pub record Acl : Type 0 where
  pub address : Option (List ℕ)
  pub port : ℤ
  pub family : Family
  pub addr : List ℕ
  pub mask : List ℕ
  pub range_type : RangeType
  pub tsig : Option Tsig

pub data Status : Type 0 where
  status_ok bad_range out_of_range : Status

-- `acl_parse_range_type`: the string up to the separator, the kind of range, and what is behind it.
pub acl_parse_range_type : List ℕ → List ℕ × RangeType × Option (List ℕ)
acl_parse_range_type ip = elim (split_at 38 ip) [
  | some (before, behind) ↦ (before, range_mask, some behind)
  | none ↦ elim (split_at 47 ip) [
    | some (before, behind) ↦ (before, range_subnet, some behind)
    | none ↦ elim (split_at 45 ip) [
      | some (before, behind) ↦ (before, range_minmax, some behind)
      | none ↦ (ip, range_single, none)
    ]
  ]
]

-- `shifts`
abbrev pub shifts : List ℕ
shifts = 0x00 ∷ 0x80 ∷ 0xc0 ∷ 0xe0 ∷ 0xf0 ∷ 0xf8 ∷ 0xfc ∷ 0xfe ∷ 0xff ∷ []

-- The loop over the mask, and the byte behind it.
unfoldable pub fill : ℕ → List ℕ → List ℕ
fill bits [] = []
fill bits (b ∷ bytes) =
    let rest = fill (bits - 8) bytes in
    if leb 8 bits
    then 0xff ∷ rest
    else if ltb 0 bits
    then get_or shifts bits 0 ∷ bytes
    else b ∷ bytes

abbrev pub is_zero_text : List ℕ → Bool
is_zero_text (c ∷ []) = c == 48
is_zero_text _ = false

-- `acl_parse_range_subnet`
unfoldable pub acl_parse_range_subnet : List ℕ → List ℕ → ℕ → Status × List ℕ
unfolding fill
acl_parse_range_subnet text addr maxbits = elim (atoi text) [
  | pos bits ↦
      if (bits == 0) && not (is_zero_text text)
      then (bad_range, addr)
      else if ltb maxbits bits
      then (out_of_range, addr)
      else (status_ok, fill bits addr)
  | negsuc _ ↦ (out_of_range, addr)
]

-- `acl_parse_family`
unfoldable pub acl_parse_family : List ℕ → Family
acl_parse_family [] = inet
acl_parse_family (ch ∷ a) =
    let rest = acl_parse_family a in if ch == 46 then inet else if ch == 58 then inet6 else rest

-- The four bytes of a `uint32_t`, as the host reads them: `little` is its byte order.
module _ (little : Bool) where
  abbrev pub word : ℕ → ℕ → ℕ → ℕ → ℕ
  word a b c d =
      if little
      then ((d * 2 ^ 8 + c) * 2 ^ 8 + b) * 2 ^ 8 + a
      else ((a * 2 ^ 8 + b) * 2 ^ 8 + c) * 2 ^ 8 + d

  abbrev pub words : List ℕ → List ℕ
  words (a ∷ b ∷ c ∷ d ∷ bytes) = word a b c d ∷ words bytes
  words _ = []

-- `acl_addr_matches_mask`, on words.
unfoldable pub acl_addr_matches_mask : List ℕ → List ℕ → List ℕ → Bool
acl_addr_matches_mask (a ∷ own) (b ∷ bs) (m ∷ mask) =
    let rest = acl_addr_matches_mask own bs mask in
    if bit_and a m == bit_and b m then rest else false
acl_addr_matches_mask _ _ _ = true

-- The loop of `acl_addr_matches_range`, on words, with its two flags.
unfoldable pub range_loop : Bool → Bool → List ℕ → List ℕ → List ℕ → Bool
range_loop checkmin checkmax (lo ∷ minval) (x ∷ xs) (hi ∷ maxval) =
    let checkmin' = checkmin && (lo == x) in
    let checkmax' = checkmax && (hi == x) in
    let rest = range_loop checkmin' checkmax' minval xs maxval in
    if checkmin && ltb x lo
    then false
    else if checkmax && ltb hi x
    then false
    else if not checkmin' && not checkmax'
    then true
    else rest
range_loop checkmin checkmax _ _ _ = true

pub acl_addr_matches_range : List ℕ → List ℕ → List ℕ → Bool
acl_addr_matches_range minval x maxval = range_loop true true minval x maxval

-- What acl.c reads of a `sockaddr_storage`.
pub record Sockaddr : Type 0 where
  pub family : Family
  pub port : ℕ
  pub bytes : List ℕ

-- memcmp() == 0
abbrev pub same_bytes : List ℕ → List ℕ → Bool
same_bytes [] [] = true
same_bytes (a ∷ own) (b ∷ bs) = (a == b) && same_bytes own bs
same_bytes _ _ = false

-- The conversion of `int` to `unsigned int`, and its comparison with a port.
abbrev pub port_differs : ℤ → ℕ → Bool
port_differs (pos zero) port = false
port_differs (pos (suc n)) port = not (suc n == port)
port_differs (negsuc n) port = true

-- The two halves of `acl_addr_matches`, behind the test of the family.
pub matches_in : Bool → ℕ → Acl → Sockaddr → Bool
unfolding acl_addr_matches_mask
matches_in little size acl remote =
    let own = words little (take size acl.addr) in
    let other = words little (take size remote.bytes) in
    let mask = words little (take size acl.mask) in
    if port_differs acl.port remote.port then false else elim acl.range_type [
      | range_mask ↦ acl_addr_matches_mask own other mask
      | range_subnet ↦ acl_addr_matches_mask own other mask
      | range_minmax ↦ acl_addr_matches_range own other mask
      | range_single ↦ same_bytes (take size remote.bytes) (take size acl.addr)
    ]

-- `acl_addr_matches`
pub acl_addr_matches : Bool → Acl → Sockaddr → Bool
acl_addr_matches little acl remote = elim acl.address [
  | none ↦ true
  | some _ ↦ elim acl.family [
    | inet6 ↦ elim remote.family [ inet6 ↦ matches_in little 16 acl remote | _ ↦ false ]
    | _ ↦ elim remote.family [ inet ↦ matches_in little 4 acl remote | _ ↦ false ]
  ]
]

-- `ldns_dname_compare` is ldns's.
module _ (dname_compare : List ℕ → List ℕ → ℤ) where
  abbrev pub is_zero : ℤ → Bool
  is_zero (pos zero) = true
  is_zero _ = false

  -- The end of `acl_tsig_matches`: a TSIG is configured, and the packet's is in order.
  pub names_match : Tsig → TsigRr → Bool
  names_match tsig trr = elim trr.key_name [
    | none ↦ false
    | some name ↦ elim trr.algo [
      | none ↦ false
      | some algo ↦ elim tsig.key [
        | none ↦ false
        | some dname ↦
            if not (is_zero (dname_compare name dname))
            then false
            else is_zero (ods_strlowercmp (some algo) tsig.algorithm)
      ]
    ]
  ]

  -- `acl_tsig_matches`
  pub acl_tsig_matches : Acl → Option TsigRr → Bool
  acl_tsig_matches acl none = false
  acl_tsig_matches acl (some trr) = elim acl.tsig [
    | none ↦ elim trr.status [ tsig_not_present ↦ true | _ ↦ false ]
    | some tsig ↦ elim trr.status [
      | tsig_ok ↦ if not (trr.error_code == 0) then false else names_match tsig trr
      | _ ↦ false
    ]
  ]

  -- `acl_find`
  pub acl_find : Bool → List Acl → Sockaddr → Option TsigRr → Option Acl
  acl_find little [] remote trr = none
  acl_find little (acl ∷ acls) remote trr =
      let rest = acl_find little acls remote trr in
      if acl_addr_matches little acl remote && acl_tsig_matches acl trr then some acl else rest
