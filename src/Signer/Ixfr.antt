-- ===== src/Signer/Ixfr.antt =====
-- signer/src/signer/ixfr.c: the journal of the differences between the versions of a zone. The records
-- are ldns's; of one, the journal only asks whether it is an SOA.
pub mod Journal
mod Tests
use opendnssec_workflow_test.Common.{
  ℕ, zero, suc, ◌+◌, ◌-◌, Bool, true, false, ◌&&◌, List, [], ◌∷◌, ◌++◌, Option, none, some, ◌==◌,
  if◌then◌else◌, get_or, set, replicate,
}
use opendnssec_workflow_test.Common.Result.{Result, ok, err, Fault, assertion, ◌>>=◌, ◌>>◌}

-- `IXFR_MAX_PARTS`
abbrev pub ixfr_max_parts : ℕ
ixfr_max_parts = 3

module _ (Rr : Type 0) (is_soa : Rr → Bool) where
  -- `part_type`
  pub record Part : Type 0 where
    pub soamin : Option Rr
    pub min : List Rr
    pub soaplus : Option Rr
    pub plus : List Rr

  -- `ixfr_type`: its array of parts, which may be NULL.
  abbrev pub Ixfr : Type 0
  Ixfr = List (Option Part)

  -- `part_create`: whether its three calls find memory.
  pub part_create : Bool → Bool → Bool → Option Part
  part_create memory plus_memory min_memory =
      if memory && (plus_memory && min_memory)
      then some (record { soamin = none; min = []; soaplus = none; plus = [] })
      else none

  -- `ixfr_create`
  pub ixfr_create : Bool → Option Ixfr
  ixfr_create memory = if memory then some (replicate ixfr_max_parts none) else none

  -- What `ixfr_add_rr` and `ixfr_del_rr` do to a part.
  abbrev pub add_to : Rr → Part → Part
  add_to rr part = record part {
    plus = part.plus ++ rr ∷ [];
    soaplus = if is_soa rr then some rr else part.soaplus;
  }

  abbrev pub del_from : Rr → Part → Part
  del_from rr part = record part {
    min = part.min ++ rr ∷ [];
    soamin = if is_soa rr then some rr else part.soamin;
  }

  -- The calls but for their test of `zone->db->is_initialized`: `part[0]` must be there. A call of
  -- `ods_fatal_exit` is a failed assertion, as it ends the process too.
  abbrev pub change_first : (Part → Part) → Bool → Ixfr → Result Ixfr
  change_first change memory parts = elim (get_or parts 0 none) [
    | none ↦ err assertion
    | some part ↦ if memory then ok (set parts 0 (some (change part))) else err assertion
  ]

  -- `ixfr_add_rr`, `ixfr_del_rr`: whether the zone's database is initialized, and whether
  -- `ldns_rr_list_push_rr` finds memory.
  pub ixfr_add_rr : Bool → Bool → Ixfr → Rr → Result Ixfr
  ixfr_add_rr initialized memory parts rr =
      if initialized then change_first (add_to rr) memory parts else ok parts

  pub ixfr_del_rr : Bool → Bool → Ixfr → Rr → Result Ixfr
  ixfr_del_rr initialized memory parts rr =
      if initialized then change_first (del_from rr) memory parts else ok parts

  -- The loop of `ixfr_purge`, from `i` less one down.
  unfoldable pub purge_loop : ℕ → Ixfr → Ixfr
  purge_loop zero parts = parts
  purge_loop (suc i) parts = purge_loop i (
      if i == ixfr_max_parts - 1
      then set parts i none
      else set (set parts (i + 1) (get_or parts i none)) i none)

  -- `ixfr_purge`
  pub ixfr_purge : Bool → Ixfr → Result Ixfr
  unfolding purge_loop part_create
  ixfr_purge memory parts = elim (part_create memory memory memory) [
    | none ↦ err assertion
    | some part ↦ ok (set (purge_loop ixfr_max_parts parts) 0 (some part))
  ]

  -- `part_rr_list_print_nonsoa`: the records that it prints.
  abbrev pub nonsoa : List Rr → List Rr
  nonsoa [] = []
  nonsoa (rr ∷ rrs) = if is_soa rr then nonsoa rrs else rr ∷ nonsoa rrs

  -- `part_print`
  pub part_print : Option Part → Result (List Rr)
  part_print none = ok []
  part_print (some part) = elim part.soamin [
    | none ↦ err assertion
    | some soamin ↦ elim part.soaplus [
      | none ↦ err assertion
      | some soaplus ↦ ok (soamin ∷ nonsoa part.min ++ soaplus ∷ nonsoa part.plus)
    ]
  ]

  -- The loop of `ixfr_print`, from `i` less one down, and `ixfr_print`.
  unfoldable pub print_loop : ℕ → Ixfr → Result (List Rr)
  print_loop zero parts = ok []
  print_loop (suc i) parts = do
    out ← part_print (get_or parts i none)
    rest ← print_loop i parts
    ok (out ++ rest)

  pub ixfr_print : Ixfr → Result (List Rr)
  unfolding print_loop
  ixfr_print parts = print_loop ixfr_max_parts parts
