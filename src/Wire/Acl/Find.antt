-- ===== src/Wire/Acl/Find.antt =====
-- `acl_find` finds the first entry that allows a packet, and what a packet must have for it.
use opendnssec_workflow_test.Common.{
  ℕ, ◌≡◌, inl, inr, Bool, true, false, ◌&&◌, List, [], ◌∷◌, ◌++◌, Option, none, some, arith, All,
  Bool-cases, map,
}
use opendnssec_workflow_test.Common.Int.{ℤ, pos}
use opendnssec_workflow_test.Common.Text.{tolower}
use opendnssec_workflow_test.Wire.Acl.{
  Tsig, TsigRr, tsig_ok, Acl, Sockaddr, acl_addr_matches, acl_tsig_matches, acl_find,
}

-- `ldns_dname_compare`, the host's byte order, and a packet: its sender and its TSIG record.
module _ (dname_compare : List ℕ → List ℕ → ℤ) (little : Bool) (remote : Sockaddr)
    (trr : Option TsigRr) where
  abbrev pub allows : Acl → Bool
  allows acl = acl_addr_matches little acl remote && acl_tsig_matches dname_compare acl trr

  pub data Found : List Acl → Option Acl → Type 0 where
    first :
        (l : List Acl) (acl : Acl) (r : List Acl)
        → All (λ a. allows a ≡ false) l
        → acl_addr_matches little acl remote ≡ true
        → acl_tsig_matches dname_compare acl trr ≡ true
        → Found (l ++ acl ∷ r) (some acl)
    no_one : (acls : List Acl) → All (λ a. allows a ≡ false) acls → Found acls none

  Found-cons :
      (acl : Acl) (acls : List Acl) (o : Option Acl)
      → allows acl ≡ false
      → Found acls o
      → Found (acl ∷ acls) o
  Found-cons acl _ _ h (first l found r a m t) = first (acl ∷ l) found r (h, a) m t
  Found-cons acl _ _ h (no_one acls a) = no_one (acl ∷ acls) (h, a)

  -- `acl_find` gives the first entry that matches both the sender's address and the TSIG record of the
  -- packet, and NULL when there is none.
  acl_find-Found : (acls : List Acl) → Found acls (acl_find dname_compare little acls remote trr)
  unfolding acl_find
  acl_find-Found [] = no_one [] tt
  acl_find-Found (acl ∷ acls) = elim (Bool-cases (allows acl)) [
    | inl q ↦ rw q (first [] acl acls tt (ground arith) (ground arith))
    | inr q ↦ rw q (Found-cons acl acls _ q (acl_find-Found acls))
  ]

module _ (dname_compare : List ℕ → List ℕ → ℤ) where
  -- What the record of a packet must have for an entry with this TSIG.
  pub record IsSigned (tsig : Tsig) (rr : TsigRr) : Type 0 where
    pub present : rr.status ≡ tsig_ok
    pub accepted : rr.error_code ≡ 0
    pub name : List ℕ
    pub has_name : rr.key_name ≡ some name
    pub key : List ℕ
    pub has_key : tsig.key ≡ some key
    pub same_name : dname_compare name key ≡ pos 0
    pub algo : List ℕ
    pub has_algo : rr.algo ≡ some algo
    pub algorithm : List ℕ
    pub has_algorithm : tsig.algorithm ≡ some algorithm
    pub same_algo : map tolower algo ≡ map tolower algorithm
