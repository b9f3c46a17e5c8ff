-- ===== src/Wire/Acl/Create/Single.antt =====
-- An entry with a single address matches that host only.
use opendnssec_workflow_test.Common.{
  ℕ, ◌≡◌, ◌≢◌, ◌↔◌, refl, sym, ap, ◌∙◌, Bool, true, false, List, [], ◌∷◌, Option, none, some, arith,
  length, take, drop, replicate, take-append-length, take_all,
}
use opendnssec_workflow_test.Common.Int.{pos}
use opendnssec_workflow_test.Wire.Acl.{
  range_single, Family, inet, inet6, unspec, Acl, acl_parse_range_type, acl_parse_family, Sockaddr,
  acl_addr_matches, same_bytes, matches_in,
}
use opendnssec_workflow_test.Wire.Acl.Create.{acl_create, with_tsig, with_address, mask_of, storage}

same_bytes_self : (xs : List ℕ) → same_bytes xs xs ≡ true
same_bytes_self [] = refl
same_bytes_self (x ∷ xs) = ground (arith, same_bytes_self xs)

same_bytes_eq : (xs ys : List ℕ) → same_bytes xs ys ≡ true → xs ≡ ys
same_bytes_eq [] [] h = refl
same_bytes_eq [] (y ∷ ys) h = absurd (ground arith)
same_bytes_eq (x ∷ xs) [] h = absurd (ground arith)
same_bytes_eq (x ∷ xs) (y ∷ ys) h = ground (arith, same_bytes_eq xs ys)

-- The bytes of an address of a family.
abbrev pub address_size : Family → ℕ
address_size inet6 = 16
address_size _ = 4

acl_parse_family_known : (a : List ℕ) → acl_parse_family a ≢ unspec
unfolding acl_parse_family
acl_parse_family_known [] = λ q. cc
acl_parse_family_known (ch ∷ a) = λ q. absurd (ground (arith, acl_parse_family_known a))

-- The entry that `acl_create` makes.
abbrev single : Family → List ℕ → List ℕ → Acl
single family address bytes = record {
  address = some address;
  port = pos 0;
  family = family;
  addr = storage bytes;
  mask = storage [];
  range_type = range_single;
  tsig = none;
}

matches_in-single :
    (little : Bool) (size : ℕ) (family : Family) (address bytes : List ℕ) (remote : Sockaddr)
    → length bytes ≡ size
    → length remote.bytes ≡ size
    → matches_in little size (single family address bytes) remote ≡ same_bytes remote.bytes bytes
unfolding matches_in
matches_in-single little size family address bytes remote h k =
    let own : take size (storage bytes) ≡ bytes =
      rw (← h) (take-append-length bytes (drop (length bytes) (replicate 16 0))) in
    rw (own, take_all size remote.bytes (omega arith)) refl

abbrev pub sender : Family → ℕ → List ℕ → Sockaddr
sender family port bytes = record { family = family; port = port; bytes = bytes }

-- Within the family, the bytes decide.
same_family :
    (little : Bool) (size : ℕ) (family : Family) (address bytes : List ℕ) (port : ℕ)
    (other : List ℕ)
    → length bytes ≡ size
    → length other ≡ size
    → (matches_in little size (single family address bytes) (sender family port other) ≡ true)
      ↔ ((family ≡ family) × (other ≡ bytes))
same_family little size family address bytes port other h k =
    let e = matches_in-single little size family address bytes (sender family port other) h k in
    (
      λ q. (refl, same_bytes_eq other bytes (sym e ∙ q)),
      λ q. e ∙ ap (λ z. same_bytes z bytes) q.1 ∙ same_bytes_self bytes,
    )

-- Nothing matches an address of another family.
other_family :
    {A : Type 0} (family family' : Family)
    → family' ≢ family
    → (false ≡ true) ↔ ((family' ≡ family) × A)
other_family family family' h = (λ q. absurd cc, λ q. absurd (h q.0))

matches_single :
    (little : Bool) (family family' : Family) (address bytes : List ℕ) (port : ℕ) (other : List ℕ)
    → family ≢ unspec
    → length bytes ≡ address_size family
    → (family' ≡ family → length other ≡ address_size family)
    → (acl_addr_matches little (single family address bytes) (sender family' port other) ≡ true)
      ↔ ((family' ≡ family) × (other ≡ bytes))
unfolding acl_addr_matches
matches_single little inet inet address bytes port other n h k =
    same_family little 4 inet address bytes port other h (k refl)
matches_single little inet inet6 address bytes port other n h k = other_family inet inet6 (λ q. cc)
matches_single little inet unspec address bytes port other n h k =
    other_family inet unspec (λ q. cc)
matches_single little inet6 inet6 address bytes port other n h k =
    same_family little 16 inet6 address bytes port other h (k refl)
matches_single little inet6 inet address bytes port other n h k = other_family inet6 inet (λ q. cc)
matches_single little inet6 unspec address bytes port other n h k =
    other_family inet6 unspec (λ q. cc)
matches_single little unspec family' address bytes port other n h k = absurd (n refl)

with_address-single :
    (inet_pton : Family → List ℕ → Option (List ℕ)) (address bytes : List ℕ)
    → acl_parse_range_type address ≡ (address, range_single, none)
    → inet_pton (acl_parse_family address) address ≡ some bytes
    → with_address inet_pton none (pos 0) address
      ≡ some (single (acl_parse_family address) address bytes)
unfolding with_address mask_of
with_address-single inet_pton address bytes r p = ground (arith, r, p)

-- `acl_create` is given the text of one address, without a separator of a range, and neither port nor
-- key; inet_pton() reads it, to as many bytes as an address of the family has. The entry that it then
-- makes matches a host, with whatever byte order, just when the host's family and address are those.
pub acl_create-single :
    (inet_pton : Family → List ℕ → Option (List ℕ)) (address bytes : List ℕ) (little : Bool)
    → (family' : Family) (port : ℕ) (other : List ℕ)
    → acl_parse_range_type address ≡ (address, range_single, none)
    → inet_pton (acl_parse_family address) address ≡ some bytes
    → length bytes ≡ address_size (acl_parse_family address)
    → (family' ≡ acl_parse_family address → length other ≡ address_size (acl_parse_family address))
    → (acl : Acl) × (acl_create inet_pton true true true (some address) none none [] ≡ some acl)
      × ((acl_addr_matches little acl (sender family' port other) ≡ true)
          ↔ ((family' ≡ acl_parse_family address) × (other ≡ bytes)))
unfolding acl_create with_tsig
acl_create-single inet_pton address bytes little family' port other r p h k =
    let family = acl_parse_family address in
    (
      single family address bytes,
      with_address-single inet_pton address bytes r p,
      matches_single little family family' address bytes port other (acl_parse_family_known address)
          h k,
    )
