-- ===== src/Signer/Domain.antt =====
-- signer/src/signer/domain.c: the sets of records of a name. Memory is always found. The names above
-- are given with a domain, the nearest first, and so are the names behind it in the database.
pub mod Diff
pub mod Rollback
pub mod Undo
pub mod Status
pub mod Delete
mod Tests
use opendnssec_workflow_test.Common.{
  ℕ, zero, suc, Bool, true, false, not, ◌&&◌, ◌||◌, List, [], ◌∷◌, ◌++◌, Option, none, some, ltb,
  ◌==◌, if◌then◌else◌, length, get_elem?, set, ◌%◌, ◌^◌,
}
use opendnssec_workflow_test.Common.Result.{Result, ok, err, overrun, unfinished, ◌>>=◌}
use opendnssec_workflow_test.Signer.Rrset.{
  type_soa, type_ds, type_dnskey, type_nsec3params, Entry, Rrset, Changes, count_added,
  rrset_del_rr, rrset_diff,
}

-- `ldns_rr_type`
abbrev pub type_a : ℕ
type_a = 1

abbrev pub type_ns : ℕ
type_ns = 2

abbrev pub type_dname : ℕ
type_dname = 39

-- The types that come from the signer configuration.
abbrev pub is_config_type : ℕ → Bool
is_config_type rrtype = rrtype == type_nsec3params || rrtype == type_dnskey

module _ (Rr : Type 0) (is_soa : Rr → Bool) where
  -- `domain_type`: `denial` is `bitmap_changed` of the denial record, where there is one.
  pub record Domain : Type 0 where
    pub is_apex : Bool
    pub rrsets : List (Rrset Rr is_soa)
    pub denial : Option Bool

  -- `domain_create`
  abbrev pub domain_create : Domain
  domain_create = record { is_apex = false; rrsets = []; denial = none }

  abbrev pub bitmap_changed : Bool → Option Bool → Option Bool
  bitmap_changed to none = none
  bitmap_changed to (some changed) = some to

  -- `domain_count_rrset`
  abbrev pub domain_count_rrset : Domain → ℕ
  domain_count_rrset d = length d.rrsets

  -- `domain_count_rrset_is_added`
  abbrev pub count_sets_added : List (Rrset Rr is_soa) → ℕ
  count_sets_added [] = 0
  count_sets_added (r ∷ rrsets) =
      let rest = count_sets_added rrsets in
      if count_added Rr is_soa r.rrs == 0 then rest else suc rest

  -- `domain_lookup_rrset`
  abbrev pub lookup_set : List (Rrset Rr is_soa) → ℕ → Option (Rrset Rr is_soa)
  lookup_set [] rrtype = none
  lookup_set (r ∷ rrsets) rrtype =
      let rest = lookup_set rrsets rrtype in if r.rrtype == rrtype then some r else rest

  abbrev pub domain_lookup_rrset : Domain → ℕ → Option (Rrset Rr is_soa)
  domain_lookup_rrset d rrtype = if rrtype == 0 then none else lookup_set d.rrsets rrtype

  -- `domain_add_rrset`
  pub domain_add_rrset : Domain → Rrset Rr is_soa → Domain
  domain_add_rrset d r = record d {
    rrsets = d.rrsets ++ r ∷ [];
    denial = bitmap_changed true d.denial;
  }

  -- The loop of `domain_del_rrset`, from a set that is not the one to delete. The list is cut behind
  -- the set that follows the deleted one, which is the one returned; a pointer to none is followed.
  unfoldable pub del_loop :
      Rrset Rr is_soa
      → List (Rrset Rr is_soa)
      → ℕ
      → Result (Option (List (Rrset Rr is_soa) × Rrset Rr is_soa))
  del_loop cur [] rrtype = ok none
  del_loop cur (next ∷ rrsets) rrtype =
      let further : Result (Option (List (Rrset Rr is_soa) × Rrset Rr is_soa)) =
        del_loop next rrsets rrtype >>= (λ found. elim found [
          | none ↦ ok none
          | some (left, deleted) ↦ ok (some (cur ∷ left, deleted))
        ]) in
      if not (next.rrtype == rrtype)
      then further
      else elim rrsets [ [] ↦ err overrun | after ∷ rest ↦ ok (some (cur ∷ after ∷ [], after)) ]

  -- `domain_del_rrset`
  pub domain_del_rrset : Domain → ℕ → Result (Domain × Option (Rrset Rr is_soa))
  domain_del_rrset d zero = ok (d, none)
  domain_del_rrset d (suc n) = elim d.rrsets [
    | [] ↦ ok (d, none)
    | cur ∷ rrsets ↦
        if cur.rrtype == suc n
        then ok (record d { rrsets = rrsets; denial = bitmap_changed true d.denial }, some cur)
        else del_loop cur rrsets (suc n) >>= (λ found. elim found [
          | none ↦ ok (d, none)
          | some (left, deleted) ↦
              ok (record d { rrsets = left; denial = bitmap_changed true d.denial }, some deleted)
        ])
  ]

  -- The loop of `domain_diff`: the sets that are left, the calls on the journal, and whether a set was
  -- deleted.
  unfoldable pub diff_sets :
      Bool
      → Bool
      → List (Rrset Rr is_soa)
      → Result (List (Rrset Rr is_soa) × (Changes Rr is_soa × Bool))
  diff_sets is_ixfr more_coming [] = ok ([], ([], false))
  diff_sets is_ixfr more_coming (r ∷ rrsets) = do
    differed ←
        rrset_diff Rr is_soa (if is_config_type r.rrtype then false else is_ixfr) more_coming r
    rest ← diff_sets is_ixfr more_coming rrsets
    ok (
        if length differed.0.rrs == 0
        then (rest.0, (differed.1 ++ rest.1.0, true))
        else (differed.0 ∷ rest.0, (differed.1 ++ rest.1.0, rest.1.1)))

  -- `domain_diff`
  pub domain_diff : Bool → Bool → Domain → Result (Domain × Changes Rr is_soa)
  domain_diff is_ixfr more_coming d = do
    differed ← diff_sets is_ixfr more_coming d.rrsets
    ok (
      record d {
        rrsets = differed.0;
        denial = if differed.1.1 then bitmap_changed true d.denial else d.denial;
      },
      differed.1.0,
    )

  -- The loop over the records in `domain_rollback`, with `del_rrset`: so many rounds are left, and the
  -- next record has this index, a `uint16_t`.
  unfoldable pub rollback_loop : ℕ → ℕ → Rrset Rr is_soa → Bool → Result (Rrset Rr is_soa × Bool)
  rollback_loop zero i r del = if ltb i (length r.rrs) then err unfinished else ok (r, del)
  rollback_loop (suc left) i r del = elim (get_elem? r.rrs i) [
    | none ↦ ok (r, del)
    | some e ↦
        let r' = record r {
          rrs = set r.rrs i (record e { is_added = false; is_removed = false });
        } in
        let stays = rollback_loop left (suc i % 2 ^ 16) r' del in
        let goes =
          rrset_del_rr Rr is_soa r' i
          >>= (λ r''. rollback_loop left i r'' (if length r'.rrs == 1 then true else del)) in
        if not e.is_there then goes else stays
  ]

  unfoldable pub rollback_sets :
      Bool → List (Rrset Rr is_soa) → Result (List (Rrset Rr is_soa) × Bool)
  rollback_sets keepsc [] = ok ([], false)
  rollback_sets keepsc (r ∷ rrsets) = do
    rolled ←
        if keepsc && is_config_type r.rrtype
        then ok (r, false)
        else rollback_loop (length r.rrs) 0 r false
    rest ← rollback_sets keepsc rrsets
    ok (if rolled.1 then (rest.0, true) else (rolled.0 ∷ rest.0, rest.1))

  -- `domain_rollback`
  pub domain_rollback : Bool → Domain → Result Domain
  domain_rollback keepsc d = do
    rolled ← rollback_sets keepsc d.rrsets
    ok (record d {
      rrsets = rolled.0;
      denial = if rolled.1 then bitmap_changed false d.denial else d.denial;
    })

  -- `domain_is_delegpt`
  abbrev pub domain_is_delegpt : Domain → ℕ
  domain_is_delegpt d = if d.is_apex then type_soa else elim (domain_lookup_rrset d type_ns) [
    | none ↦ type_soa
    | some ns ↦ elim (domain_lookup_rrset d type_ds) [ none ↦ type_ns | some ds ↦ type_ds ]
  ]

  -- The loop of `domain_is_occluded` over the names above.
  unfoldable pub occluded_loop : List Domain → ℕ
  occluded_loop [] = type_soa
  occluded_loop (d ∷ parents) =
      let above = occluded_loop parents in
      if d.is_apex then type_soa else elim (domain_lookup_rrset d type_ns) [
        | some ns ↦ type_a
        | none ↦ elim (domain_lookup_rrset d type_dname) [ none ↦ above | some dname ↦ type_dname ]
      ]

  -- `domain_is_occluded`
  abbrev pub domain_is_occluded : Domain → List Domain → ℕ
  domain_is_occluded d parents = if d.is_apex then type_soa else occluded_loop parents

  -- The loop of `domain_ent2unsignedns` over the names behind, each with those above it, by the test
  -- whether a name is below the one asked about.
  unfoldable pub ent_loop : (Domain → Bool) → List (Domain × List Domain) → Bool
  ent_loop is_subdomain [] = true
  ent_loop is_subdomain (n ∷ behind) =
      let rest = ent_loop is_subdomain behind in
      if not (is_subdomain n.0)
      then true
      else if not (length n.0.rrsets == 0)
          && not (domain_is_delegpt n.0 == type_ns)
          && domain_is_occluded n.0 n.1 == type_soa
      then false
      else rest

  -- `domain_ent2unsignedns`
  abbrev pub domain_ent2unsignedns : (Domain → Bool) → Domain → List (Domain × List Domain) → Bool
  domain_ent2unsignedns is_subdomain d behind =
      if length d.rrsets == 0 then ent_loop is_subdomain behind else false
