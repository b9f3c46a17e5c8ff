-- ===== src/Wire/Buffer/Rr/Skip.antt =====
-- `buffer_skip_rr` on untrusted packets.
use opendnssec_workflow_test.Common.{
  if◌then◌else◌, ℕ, ◌+◌, ◌-◌, ◌*◌, ◌^◌, ◌≤◌, ◌<◌, ◌≡◌, refl, ◌∙◌, Bool, true, false, some, arith,
  get_or,
}
use native.Mathlib.Decide.{dec_le}
use opendnssec_workflow_test.Common.Result.{Result, ok, err}
use opendnssec_workflow_test.Wire.Buffer.{Buffer, skip, available, read_u16, read_u16_at}
use opendnssec_workflow_test.Wire.Buffer.Valid.{IsValid, load-ok}
use opendnssec_workflow_test.Wire.Buffer.Dname.{skip_dname}
use opendnssec_workflow_test.Wire.Buffer.Dname.Skip.{Skips, skip_dname_total}
use opendnssec_workflow_test.Wire.Buffer.Rr.{skip_question, skip_sized, skip_rdata, skip_rr}

abbrev SkipsOk : Buffer → Result (Bool × Buffer) → Type 0
SkipsOk b (err e) = ⊥
SkipsOk b (ok (found, b')) = IsValid b' × (b'.limit ≡ b.limit) × (b.position ≤ b'.position)

skip_question-SkipsOk : (b : Buffer) → IsValid b → SkipsOk b (skip_question b)
unfolding skip_question skip available
skip_question-SkipsOk b v = ground arith

skip_sized-SkipsOk : (b : Buffer) (n : ℕ) → IsValid b → SkipsOk b (skip_sized n b)
unfolding skip_sized skip available
skip_sized-SkipsOk b n v = ground arith

-- Behind the ten bytes of a record's header.
abbrev behind_header : Buffer → Buffer
behind_header b = record b { position = b.position + 10 }

skip_rdata-eq :
    (b : Buffer)
    → IsValid b
    → 10 ≤ b.limit - b.position
    → skip_rdata b
      ≡ skip_sized
          (get_or b.data_bytes (b.position + 8) 0 * 2 ^ 8 + get_or b.data_bytes (b.position + 9) 0)
          (behind_header b)
unfolding skip_rdata skip available read_u16 read_u16_at
skip_rdata-eq b v h = ground (arith, load-ok b (b.position + 8), load-ok b (b.position + 9))

SkipsOk-weaken :
    (b b' : Buffer) (r : Result (Bool × Buffer))
    → b'.limit ≡ b.limit
    → b.position ≤ b'.position
    → SkipsOk b' r
    → SkipsOk b r
SkipsOk-weaken b b' (err e) l p s = s
SkipsOk-weaken b b' (ok (q, c)) l p s = (s.0, s.1 ∙ l, omega arith)

skip_rdata-short :
    (b : Buffer) → IsValid b → b.limit - b.position < 10 → skip_rdata b ≡ ok (false, b)
unfolding skip_rdata available
skip_rdata-short b v h = ground arith

skip_rdata-SkipsOk : (b : Buffer) → IsValid b → SkipsOk b (skip_rdata b)
skip_rdata-SkipsOk b v = elim (dec_le 10 (b.limit - b.position)) [
  | no h ↦ rw (skip_rdata-short b v (omega arith)) (v, refl, omega arith)
  | yes h ↦
      let n =
        get_or b.data_bytes (b.position + 8) 0 * 2 ^ 8 + get_or b.data_bytes (b.position + 9) 0 in
      rw (skip_rdata-eq b v h) (
        SkipsOk-weaken b (behind_header b) (skip_sized n (behind_header b)) refl (omega arith)
          (skip_sized-SkipsOk (behind_header b) n (ground arith)))
]

SkipsOk-Skips :
    (b b' : Buffer) (r : Result (Bool × Buffer))
    → b'.limit ≡ b.limit
    → b.position ≤ b'.position
    → SkipsOk b' r
    → Skips b (some r)
SkipsOk-Skips b b' (err e) l p s = absurd s
SkipsOk-Skips b b' (ok (q, c)) l p s = (q, c, refl, s.0, s.1 ∙ l, omega arith)

-- On every valid buffer `buffer_skip_rr`, for a question or a record, ends within one round more than
-- there are bytes left: no assertion fails and nothing outside the packet is read, and the buffer
-- stays valid, with the same limit and a cursor that never moves back.
skip_rr_total :
    (fuel : ℕ) (b : Buffer) (qrr : Bool)
    → IsValid b
    → b.limit - b.position < fuel
    → Skips b (skip_rr fuel b qrr)
unfolding skip_rr
skip_rr_total fuel b qrr v h = go (skip_dname_total fuel b v h)
  where
    behind :
        (b' : Buffer) (q : Bool)
        → IsValid b'
        → SkipsOk b' (if q then skip_question b' else skip_rdata b')
    behind b' true w = skip_question-SkipsOk b' w
    behind b' false w = skip_rdata-SkipsOk b' w

    go : Skips b (skip_dname fuel b) → Skips b (skip_rr fuel b qrr)
    go (false, b', e, w, l, p) = rw (e, skip_rr) (false, b', refl, w, l, p)
    go (true, b', e, w, l, p) =
        rw (e, skip_rr)
          (SkipsOk-Skips b b' (if qrr then skip_question b' else skip_rdata b') l p
            (behind b' qrr w))
