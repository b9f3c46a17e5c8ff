-- ===== src/Wire/Edns/Parse.antt =====
-- `edns_rr_parse` stays within the packet, and leaves one that has no OPT record as it is.
use Prim.Native.Nat.{bit_and}
use native.Mathlib.Decide.{dec_lt}
use opendnssec_workflow_test.Common.{
  ℕ, ◌+◌, ◌*◌, ◌^◌, ◌≤◌, ◌<◌, ◌≡◌, ◌≢◌, refl, ap, ◌∙◌, ◌⊎◌, inl, inr, Bool, true, false, not, ◌||◌,
  arith, ◌==◌, if◌then◌else◌, get_or, Bool-cases,
}
use opendnssec_workflow_test.Common.Result.{ok}
use opendnssec_workflow_test.Wire.Buffer.{Buffer, set_position, available, read_u8, read_u16}
use opendnssec_workflow_test.Wire.Buffer.Valid.{IsValid, load-ok}
use opendnssec_workflow_test.Wire.Edns.{
  EdnsRr, edns_ok, edns_error, edns_not_present, Parsed, parsed, parse_opt, parse_there,
  edns_rr_parse, type_opt,
}

-- The buffer with its cursor elsewhere.
abbrev pub at : Buffer → ℕ → Buffer
at b i = record b { position = i }

read_u8-at :
    (b : Buffer) (i : ℕ)
    → IsValid b
    → i + 1 ≤ b.limit
    → read_u8 (at b i) ≡ ok (get_or b.data_bytes i 0, at b (i + 1))
unfolding read_u8
read_u8-at b i v h = ground (arith, v, load-ok b i)

read_u16-at :
    (b : Buffer) (i : ℕ)
    → IsValid b
    → i + 2 ≤ b.limit
    → read_u16 (at b i)
      ≡ ok (get_or b.data_bytes i 0 * 2 ^ 8 + get_or b.data_bytes (i + 1) 0, at b (i + 2))
unfolding read_u16
read_u16-at b i v h = ground (arith, v, load-ok b i, load-ok b (i + 1))

pub parse_opt-at :
    (e : EdnsRr) (b : Buffer) (i : ℕ)
    → IsValid b
    → i + 8 ≤ b.limit
    → let version = get_or b.data_bytes (i + 2 + 1) 0 in
      let flags =
        get_or b.data_bytes (i + 2 + 1 + 1) 0 * 2 ^ 8 + get_or b.data_bytes (i + 2 + 1 + 1 + 1) 0 in
      let class = get_or b.data_bytes i 0 * 2 ^ 8 + get_or b.data_bytes (i + 1) 0 in
      parse_opt e (at b i)
      ≡ ok (
          parsed true
            (if not (version == 0)
              then record e { status = edns_error }
              else record e { status = edns_ok; maxlen = class; dnssec_ok = bit_and flags 0x8000 })
            (at b (i + 2 + 1 + 1 + 2 + 2)))
unfolding parse_opt
parse_opt-at e b i v h =
    rw
      (
        read_u16-at b i v (omega arith),
        read_u8-at b (i + 2) v (omega arith),
        read_u8-at b (i + 2 + 1) v (omega arith),
        read_u16-at b (i + 2 + 1 + 1) v (omega arith),
        read_u16-at b (i + 2 + 1 + 1 + 2) v (omega arith),
      )
      (ground arith)

-- What is at the cursor is not the start of an OPT record.
abbrev pub is_other : Buffer → ℕ → Bool
is_other b i =
    not (get_or b.data_bytes i 0 == 0)
    || not (get_or b.data_bytes (i + 1) 0 * 2 ^ 8 + get_or b.data_bytes (i + 1 + 1) 0 == type_opt)

pub parse_there-opt :
    (e : EdnsRr) (b : Buffer) (i : ℕ)
    → IsValid b
    → i + 11 ≤ b.limit
    → is_other b i ≡ false
    → parse_there e (at b i) ≡ parse_opt e (at b (i + 1 + 2))
unfolding parse_there
parse_there-opt e b i v h q =
    rw (read_u8-at b i v (omega arith), read_u16-at b (i + 1) v (omega arith), q) refl

parse_there-other :
    (e : EdnsRr) (b : Buffer) (i : ℕ)
    → IsValid b
    → i + 11 ≤ b.limit
    → e.position ≡ i
    → is_other b i ≡ true
    → parse_there e (at b i) ≡ ok (parsed false e (at b i))
unfolding parse_there set_position
parse_there-other e b i v h p q =
    rw (read_u8-at b i v (omega arith), read_u16-at b (i + 1) v (omega arith), q, p) (ground arith)

pub edns_rr_parse-there :
    (e : EdnsRr) (b : Buffer)
    → IsValid b
    → b.position + 11 ≤ b.limit
    → edns_rr_parse e b ≡ parse_there (record e { position = b.position }) b
unfolding edns_rr_parse available
edns_rr_parse-there e b v h = ground arith

edns_rr_parse-short :
    (e : EdnsRr) (b : Buffer)
    → IsValid b
    → b.limit < b.position + 11
    → edns_rr_parse e b ≡ ok (parsed false (record e { position = b.position }) b)
unfolding edns_rr_parse available
edns_rr_parse-short e b v h = ground (arith, v)

abbrev Outcome : EdnsRr → Buffer → Parsed → Type 0
Outcome e b p =
    ((p.answer ≡ false) × (p.buffer ≡ b) × (p.rr.status ≡ e.status))
    ⊎ ((p.answer ≡ true)
        × (p.buffer ≡ record b { position = b.position + 11 })
        × (b.position + 11 ≤ b.limit)
        × (p.rr.status ≢ edns_not_present))

opt_status :
    (e f : EdnsRr) (wrong : Bool)
    → f.status ≡ edns_ok
    → (if wrong then record e { status = edns_error } else f).status ≢ edns_not_present
opt_status e f true h = λ q. cc
opt_status e f false h = λ q. cc

within_room :
    (e : EdnsRr) (b : Buffer)
    → IsValid b
    → b.position + 11 ≤ b.limit
    → (p : Parsed) × (edns_rr_parse e b ≡ ok p) × Outcome e b p
within_room e b v room =
    let e' : EdnsRr = record e { position = b.position } in
    let there = edns_rr_parse-there e b v room in
    elim (Bool-cases (is_other b b.position)) [
      | inl q ↦ (
        parsed false e' b,
        there ∙ parse_there-other e' b b.position v room refl q,
        inl (refl, refl, refl),
      )
      | inr q ↦ (
        _,
        there
            ∙ parse_there-opt e' b b.position v room q
            ∙ parse_opt-at e' b (b.position + 1 + 2) v (omega arith),
        inr (refl, ap (λ i. record b { position = i }) (omega arith), room, opt_status e' _ _ refl),
      )
    ]

-- On a valid buffer `edns_rr_parse` fails no assertion and reads within the packet. Either it answers 0, with the
-- buffer and the status as they were; or it answers 1, behind the eleven bytes of a record, and the
-- status says that there is one, with or without an error.
edns_rr_parse-within :
    (e : EdnsRr) (b : Buffer)
    → IsValid b
    → (p : Parsed) × (edns_rr_parse e b ≡ ok p)
      × (((p.answer ≡ false) × (p.buffer ≡ b) × (p.rr.status ≡ e.status))
          ⊎ ((p.answer ≡ true)
              × (p.buffer ≡ record b { position = b.position + 11 })
              × (b.position + 11 ≤ b.limit)
              × (p.rr.status ≢ edns_not_present)))
edns_rr_parse-within e b v = elim (dec_lt b.limit (b.position + 11)) [
  | yes short ↦ (_, edns_rr_parse-short e b v short, inl (refl, refl, refl))
  | no room ↦ within_room e b v (omega arith)
]
