-- ===== src/Signer/Rrset.antt =====
-- signer/src/signer/rrset.c: the records of one name and type, and their signatures. The records are
-- ldns's. What is written to the journal is the list of calls on it, in order. The counts are `size_t`
-- and the indices of `rrset_diff`, `rrset_del_rr` and `rrset_del_rrsig` `uint16_t`: an index wraps at
-- 2 ^ 16, so that a loop can go on after as many rounds as there were records, or for ever; it is
-- `unfinished` then. Memory is always found.
pub mod Diff
pub mod Keys
pub mod Recycle
pub mod Sign
mod Tests
use opendnssec_workflow_test.Common.{
  ℕ, zero, suc, ◌+◌, ◌-◌, ◌≡◌, refl, ap, Bool, true, false, not, ◌&&◌, ◌||◌, List, [], ◌∷◌, ◌++◌,
  Option, none, some, ltb, ◌==◌, if◌then◌else◌, length, get_elem?, set, ◌%◌, ◌^◌, leb,
}
use opendnssec_workflow_test.Common.Result.{
  Result, ok, err, assertion, unfinished, ◌>>=◌, ◌>>◌, require,
}
use opendnssec_workflow_test.Signer.Ixfr.Journal.{Call, adds, dels}

-- `ldns_rr_type`
abbrev pub type_soa : ℕ
type_soa = 6

abbrev pub type_ds : ℕ
type_ds = 43

abbrev pub type_nsec : ℕ
type_nsec = 47

abbrev pub type_dnskey : ℕ
type_dnskey = 48

abbrev pub type_nsec3 : ℕ
type_nsec3 = 50

abbrev pub type_nsec3params : ℕ
type_nsec3params = 51

-- Removal of the entry at an index, as a loop that moves those behind it down by one.
abbrev pub remove_at {ℓ} : {A : Type ℓ} → List A → ℕ → List A
remove_at [] i = []
remove_at (x ∷ xs) zero = xs
remove_at (x ∷ xs) (suc i) = x ∷ remove_at xs i

pub remove_at-append-length {ℓ} :
    {A : Type ℓ} (xs : List A) (y : A) (ys : List A)
    → remove_at (xs ++ y ∷ ys) (length xs) ≡ xs ++ ys
remove_at-append-length [] y ys = refl
remove_at-append-length (x ∷ xs) y ys = ap (λ l. x ∷ l) (remove_at-append-length xs y ys)

-- Some types keep the mark of a record that was added, when more is coming.
abbrev pub stays_added : ℕ → Bool → Bool
stays_added rrtype more_coming =
    (rrtype == type_dnskey || rrtype == type_nsec3params) && more_coming

module _ (Rr : Type 0) (is_soa : Rr → Bool) where
  -- `rr_type`, `rrsig_type` and `rrset_type`
  pub record Entry : Type 0 where
    pub rr : Rr
    pub is_there : Bool
    pub is_added : Bool
    pub is_removed : Bool

  pub record Rrsig : Type 0 where
    pub rr : Rr
    pub key_locator : List ℕ
    pub key_flags : ℕ

  pub record Rrset : Type 0 where
    pub rrtype : ℕ
    pub rrs : List Entry
    pub rrsigs : List Rrsig
    pub needs_signing : Bool

  abbrev pub Changes : Type 0
  Changes = List (Call Rr is_soa)

  -- `rrset_create`, of a type that is not 0.
  pub rrset_create : ℕ → Option Rrset
  rrset_create zero = none
  rrset_create (suc n) =
      some (record { rrtype = suc n; rrs = []; rrsigs = []; needs_signing = false })

  -- The loop of `rrset_lookup_rr`; `util_dnssec_rrs_compare` gives nothing when it fails.
  pub rrset_lookup_rr : (Rr → Rr → Option Bool) → List Entry → Rr → Option Entry
  rrset_lookup_rr same [] rr = none
  rrset_lookup_rr same (e ∷ rrs) rr =
      let rest = rrset_lookup_rr same rrs rr in
      elim (same e.rr rr) [ none ↦ none | some true ↦ some e | some false ↦ rest ]

  -- `rrset_count_rr_is_added`
  abbrev pub count_added : List Entry → ℕ
  count_added [] = 0
  count_added (e ∷ rrs) = let rest = count_added rrs in if e.is_added then suc rest else rest

  -- `rrset_add_rr`, of a record of the set's type.
  abbrev pub rrset_add_rr : Rrset → Rr → Rrset
  rrset_add_rr r rr = record r {
    rrs = r.rrs ++ record { rr = rr; is_there = false; is_added = true; is_removed = false } ∷ [];
    needs_signing = true;
  }

  -- `rrset_del_rr`. Its loop, `while (rrnum < rr_count-1)`, reaches the last record only below 2 ^ 16.
  unfoldable pub rrset_del_rr : Rrset → ℕ → Result Rrset
  rrset_del_rr r i = do
    let rrnum = i % 2 ^ 16
    require (ltb rrnum (length r.rrs)) assertion
    require (leb (length r.rrs) (2 ^ 16)) unfinished
    ok (record r { rrs = remove_at r.rrs rrnum; needs_signing = true })

  -- `rrset_add_rrsig`, `rrset_del_rrsig`
  abbrev pub rrset_add_rrsig : Rrset → Rr → List ℕ → ℕ → Rrset
  rrset_add_rrsig r rr locator flags = record r {
    rrsigs = r.rrsigs ++ record { rr = rr; key_locator = locator; key_flags = flags } ∷ [];
  }

  pub rrset_del_rrsig : Rrset → ℕ → Result Rrset
  rrset_del_rrsig r i = do
    let rrnum = i % 2 ^ 16
    require (ltb rrnum (length r.rrsigs)) assertion
    require (leb (length r.rrsigs) (2 ^ 16)) unfinished
    ok (record r { rrsigs = remove_at r.rrsigs rrnum })

  -- The variables of `rrset_diff`.
  pub record Differing : Type 0 where
    pub rrset : Rrset
    pub changes : Changes
    pub del_sigs : Bool

  -- A round for a record that was added.
  abbrev pub diff_added : Bool → ℕ → Entry → Differing → Differing
  diff_added more_coming i e s = record {
    rrset = record s.rrset {
      rrs = set s.rrset.rrs i (record e {
        is_there = true;
        is_added = if stays_added s.rrset.rrtype more_coming then e.is_added else false;
      });
    };
    changes = if e.is_there then s.changes else s.changes ++ adds e.rr ∷ [];
    del_sigs = if e.is_there then s.del_sigs else true;
  }

  -- A round for a record that is gone.
  abbrev pub diff_gone : ℕ → Entry → Differing → Result Differing
  diff_gone i e s = do
    r ← rrset_del_rr s.rrset i
    ok (record {
      rrset = r;
      changes = if e.is_there then s.changes ++ dels e.rr ∷ [] else s.changes;
      del_sigs = true;
    })

  -- The loop over the records: so many rounds are left, and the next record has this index, which
  -- `i++` takes modulo 2 ^ 16 and which `i--` and `i++` leave as it is.
  unfoldable pub diff_loop : Bool → Bool → ℕ → ℕ → Differing → Result Differing
  diff_loop is_ixfr more_coming zero i s =
      if ltb i (length s.rrset.rrs) then err unfinished else ok s
  diff_loop is_ixfr more_coming (suc left) i s = elim (get_elem? s.rrset.rrs i) [
    | none ↦ ok s
    | some e ↦
        let kept = diff_loop is_ixfr more_coming left (suc i % 2 ^ 16) s in
        let added =
          diff_loop is_ixfr more_coming left (suc i % 2 ^ 16) (diff_added more_coming i e s) in
        let gone = diff_gone i e s >>= diff_loop is_ixfr more_coming left i in
        if e.is_added then added else if not is_ixfr || e.is_removed then gone else kept
  ]

  -- The loop over the signatures, of which the first is deleted again and again.
  unfoldable pub drop_loop : ℕ → Rrset → Changes → Result (Rrset × Changes)
  drop_loop zero r changes = if ltb 0 (length r.rrsigs) then err unfinished else ok (r, changes)
  drop_loop (suc left) r changes = elim (get_elem? r.rrsigs 0) [
    | none ↦ ok (r, changes)
    | some sig ↦ rrset_del_rrsig r 0 >>= (λ r'. drop_loop left r' (changes ++ dels sig.rr ∷ []))
  ]

  -- `rrset_diff`
  pub rrset_diff : Bool → Bool → Rrset → Result (Rrset × Changes)
  rrset_diff is_ixfr more_coming r = do
    s ←
        diff_loop is_ixfr more_coming (length r.rrs) 0
          (record { rrset = r; changes = []; del_sigs = false })
    if s.del_sigs
        then drop_loop (length s.rrset.rrsigs) s.rrset s.changes
        else ok (s.rrset, s.changes)
