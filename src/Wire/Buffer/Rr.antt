-- ===== src/Wire/Buffer/Rr.antt =====
-- Resource records in buffer.c: `buffer_skip_rr` and `buffer_write_rr`, which writes the whole record
-- or puts the cursor back. A record is what the accessors of ldns give: an rdf is its bytes.
pub mod Skip
pub mod Whole
use opendnssec_workflow_test.Common.{
  ℕ, zero, suc, ◌+◌, ◌-◌, ◌%◌, ◌^◌, ◌≤◌, ◌<◌, ◌≡◌, refl, sym, ap, ◌∙◌, Bool, true, false, List, [],
  ◌∷◌, Option, none, some, arith, leb, if◌then◌else◌, length, All,
}
use opendnssec_workflow_test.Common.Result.{Result, ok, err, ◌>>=◌, ◌>>◌}
use opendnssec_workflow_test.Wire.Buffer.{
  Buffer, set_position, skip, available, write, write_u16, write_u32, write_u16_at, read_u16,
}
use opendnssec_workflow_test.Wire.Buffer.Dname.{skip_dname}

-- The part of `buffer_skip_rr` behind the name, for a question and for a record.
unfoldable pub skip_question : Buffer → Result (Bool × Buffer)
skip_question b = do
  there ← available b 4
  if there then (do b' ← skip b 4; ok (true, b')) else ok (false, b)

unfoldable pub skip_sized : ℕ → Buffer → Result (Bool × Buffer)
skip_sized rdata_size b = do
  there ← available b rdata_size
  if there then (do b' ← skip b rdata_size; ok (true, b')) else ok (false, b)

unfoldable pub skip_rdata : Buffer → Result (Bool × Buffer)
skip_rdata b = do
  there ← available b 10
  if there
      then (do b1 ← skip b 8; (rdata_size, b2) ← read_u16 b1; skip_sized rdata_size b2)
      else ok (false, b)

-- `buffer_skip_rr`; the fuel is that of `buffer_skip_dname`.
unfoldable pub skip_rr : ℕ → Buffer → Bool → Option (Result (Bool × Buffer))
skip_rr fuel b qrr = elim (skip_dname fuel b) [
  | none ↦ none
  | some (err e) ↦ some (err e)
  | some (ok (false, b')) ↦ some (ok (false, b'))
  | some (ok (true, b')) ↦ some (if qrr then skip_question b' else skip_rdata b')
]

-- `ldns_rr_owner`, `ldns_rr_get_type`, `ldns_rr_get_class`, `ldns_rr_ttl`, and the rdfs.
pub record Rr : Type 0 where
  pub owner : List ℕ
  pub rr_type : ℕ
  pub rr_class : ℕ
  pub ttl : ℕ
  pub rdfs : List (List ℕ)

-- The loop over the rdfs; false for the jump to `buffer_tc`.
unfoldable pub write_rdfs : Buffer → List (List ℕ) → Result (Bool × Buffer)
write_rdfs b [] = ok (true, b)
write_rdfs b (rdf ∷ rdfs) = do
  there ← available b (length rdf)
  if there then (do b' ← write b rdf; write_rdfs b' rdfs) else ok (false, b)

unfoldable pub write_rdlength : ℕ → Bool × Buffer → Result (Bool × Buffer)
write_rdlength rdlength_pos (false, b) = ok (false, b)
write_rdlength rdlength_pos (true, b) = do
  b' ← write_u16_at b rdlength_pos ((b.position - rdlength_pos - 2) % 2 ^ 16)
  ok (true, b')

unfoldable pub write_fixed : Buffer → Rr → Result (Bool × Buffer)
write_fixed b rr = do
  b1 ← write_u16 b rr.rr_type
  b2 ← write_u16 b1 rr.rr_class
  b3 ← write_u32 b2 rr.ttl
  b4 ← skip b3 2
  written ← write_rdfs b4 rr.rdfs
  write_rdlength b3.position written

unfoldable pub write_behind : Buffer → Rr → Result (Bool × Buffer)
write_behind b rr = do there ← available b 10; if there then write_fixed b rr else ok (false, b)

unfoldable pub write_owner : Buffer → Rr → Result (Bool × Buffer)
write_owner b rr = do
  there ← available b (length rr.owner)
  if there then (do b' ← write b rr.owner; write_behind b' rr) else ok (false, b)

-- The label `buffer_tc`.
unfoldable pub truncate : ℕ → Bool × Buffer → Result (Bool × Buffer)
truncate tc_mark (true, b) = ok (true, b)
truncate tc_mark (false, b) = do b' ← set_position b tc_mark; ok (false, b')

-- `buffer_write_rr`
unfoldable pub write_rr : Buffer → Rr → Result (Bool × Buffer)
write_rr b rr = do written ← write_owner b rr; truncate b.position written
