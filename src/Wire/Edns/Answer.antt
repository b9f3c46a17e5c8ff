-- ===== src/Wire/Edns/Answer.antt =====
-- `edns_rr_parse` reads the OPT record that the server writes.
use Prim.Native.Nat.{bit_and}
use opendnssec_workflow_test.Common.{
  ℕ, zero, suc, ◌+◌, ◌*◌, ◌/◌, ◌%◌, ◌^◌, ◌≤◌, ◌<◌, ◌≡◌, refl, ap, ◌∙◌, inl, Bool, true, false, List,
  [], ◌∷◌, arith, if◌then◌else◌, get_or, set, length, length-set, get_or-set_self, All,
}
use opendnssec_workflow_test.Common.Result.{ok}
use opendnssec_workflow_test.Wire.Buffer.{Buffer, write}
use opendnssec_workflow_test.Wire.Buffer.Valid.{
  IsByte, IsValid, Step-IsValid, writes, overwrite, write-ok,
}
use opendnssec_workflow_test.Wire.Buffer.Words.{overwrite_outside}
use opendnssec_workflow_test.Wire.Edns.{
  EdnsRr, edns_ok, edns_init, with_dnssec, parsed, parse_opt, edns_rr_parse,
}
use opendnssec_workflow_test.Wire.Edns.Parse.{
  at, is_other, parse_opt-at, parse_there-opt, edns_rr_parse-there,
}

get_or-overwrite :
    (xs : List ℕ) (at : ℕ) (vs : List ℕ) (k : ℕ)
    → at + length vs ≤ length xs
    → k < length vs
    → get_or (overwrite xs at vs) (at + k) 0 ≡ get_or vs k 0
get_or-overwrite xs at [] k h i = absurd (omega arith)
get_or-overwrite xs at (v ∷ vs) zero h i =
    let here : at + 0 ≡ at = omega arith in
    ap (λ j. get_or (overwrite (set xs at v) (at + 1) vs) j 0) here
    ∙ overwrite_outside (set xs at v) (at + 1) vs at (inl (omega arith))
    ∙ get_or-set_self xs at v 0 (omega arith)
get_or-overwrite xs at (v ∷ vs) (suc k) h i =
    let next : at + suc k ≡ at + 1 + k = omega arith in
    ap (λ j. get_or (overwrite (set xs at v) (at + 1) vs) j 0) next
    ∙ get_or-overwrite (set xs at v) (at + 1) vs k (omega (arith, length-set xs at v)) (omega arith)

flag : (d : Bool) → bit_and ((if d then 0x80 else 0) * 2 ^ 8 + 0) 0x8000 ≡ (if d then 0x8000 else 0)
flag true = refl
flag false = refl

module _ (b : Buffer) (max_length : ℕ) (dnssec_ok : Bool) where
  abbrev ok_part : List ℕ
  ok_part = with_dnssec dnssec_ok (edns_init max_length).ok_bytes

  abbrev first : Buffer
  first = record b {
    data_bytes = overwrite b.data_bytes b.position ok_part;
    position = b.position + 9;
  }

  abbrev second : Buffer
  second = record first {
    data_bytes = overwrite first.data_bytes (b.position + 9) (0 ∷ 0 ∷ []);
    position = b.position + 9 + 2;
  }

  -- The bytes of the record.
  byte :
      (i k : ℕ)
      → IsValid b
      → b.position + 11 ≤ b.limit
      → i ≡ b.position + k
      → k < 9
      → get_or second.data_bytes i 0 ≡ get_or ok_part k 0
  byte i k v h e n =
      overwrite_outside first.data_bytes (b.position + 9) (0 ∷ 0 ∷ []) i (inl (omega arith))
      ∙ ap (λ j. get_or first.data_bytes j 0) e
      ∙ get_or-overwrite b.data_bytes b.position ok_part k (omega (arith, v)) n

  bytes_of : (dnssec_ok : Bool) → All IsByte (with_dnssec dnssec_ok (edns_init max_length).ok_bytes)
  bytes_of true = omega arith
  bytes_of false = omega arith

  first-IsValid : IsValid b → b.position + 11 ≤ b.limit → IsValid first
  first-IsValid v h =
      Step-IsValid
        (writes b first ok_part (bytes_of dnssec_ok) (write-ok b ok_part v (omega arith))) v

  second-IsValid : IsValid b → b.position + 11 ≤ b.limit → IsValid second
  second-IsValid v h =
      let w = first-IsValid v h in
      Step-IsValid
        (writes first second (0 ∷ 0 ∷ []) (omega arith)
          (write-ok first (0 ∷ 0 ∷ []) w (omega arith)))
        w

  is_other-second : IsValid b → b.position + 11 ≤ b.limit → is_other second b.position ≡ false
  is_other-second v h =
      let p = b.position in
      rw
        (
          byte p 0 v h (omega arith) (omega arith),
          byte (p + 1) 1 v h (omega arith) (omega arith),
          byte (p + 1 + 1) 2 v h (omega arith) (omega arith),
        )
        refl

  opened :
      IsValid b
      → b.position + 11 ≤ b.limit
      → max_length < 2 ^ 16
      → (e : EdnsRr)
      → parse_opt e (at second (b.position + 1 + 2))
        ≡ ok (
            parsed true
              (record e {
                status = edns_ok;
                maxlen = max_length;
                dnssec_ok = if dnssec_ok then 0x8000 else 0;
              })
              second)
  opened v h m e =
      let i = b.position + 1 + 2 in
      parse_opt-at e second i (second-IsValid v h) (omega arith)
      ∙ rw
          (
            byte (i + 2 + 1) 6 v h (omega arith) (omega arith),
            byte i 3 v h (omega arith) (omega arith),
            byte (i + 1) 4 v h (omega arith) (omega arith),
            byte (i + 2 + 1 + 1) 7 v h (omega arith) (omega arith),
            byte (i + 2 + 1 + 1 + 1) 8 v h (omega arith) (omega arith),
          )
          (let size : max_length / 2 ^ 8 % 2 ^ 8 * 2 ^ 8 + max_length % 2 ^ 8 ≡ max_length =
              omega arith in
            let cursor : i + 2 + 1 + 1 + 2 + 2 ≡ b.position + 9 + 2 = omega arith in
            rw (size, cursor, flag dnssec_ok) refl)

back : (b : Buffer) (i : ℕ) → IsValid b → i ≤ b.limit → IsValid (at b i)
back b i v h = record {
  allocated = v.allocated;
  cursor = h;
  limited = v.limited;
  small = v.small;
  bytes = v.bytes;
}

-- On a valid buffer with room, the two writes of an OPT record without an error, for a message length below
-- 2 ^ 16 and either value of the DNSSEC flag, succeed; from where they began `edns_rr_parse` finds that
-- record, its length and its flag, and ends behind it.
pub edns_rr_parse-edns_init :
    (b : Buffer) (max_length : ℕ) (dnssec_ok : Bool) (e : EdnsRr)
    → IsValid b
    → b.position + 11 ≤ b.limit
    → max_length < 2 ^ 16
    → (b1 : Buffer) × (b2 : Buffer) × (write b
          (with_dnssec dnssec_ok (edns_init max_length).ok_bytes)
        ≡ ok b1)
      × (write b1 (edns_init max_length).rdata_none ≡ ok b2)
      × (edns_rr_parse e (record b2 { position = b.position })
          ≡ ok (
              parsed true
                (record {
                  status = edns_ok;
                  position = b.position;
                  maxlen = max_length;
                  dnssec_ok = if dnssec_ok then 0x8000 else 0;
                })
                b2))
edns_rr_parse-edns_init b max_length dnssec_ok e v h m =
    let b1 = first b max_length dnssec_ok in
    let b2 = second b max_length dnssec_ok in
    let p = b.position in
    let w = second-IsValid b max_length dnssec_ok v h in
    let e' : EdnsRr = record e { position = p } in
    let start = back b2 p w (omega arith) in
    (
      b1,
      b2,
      write-ok b (with_dnssec dnssec_ok (edns_init max_length).ok_bytes) v (omega arith),
      write-ok b1 (0 ∷ 0 ∷ []) (first-IsValid b max_length dnssec_ok v h) (omega arith),
      edns_rr_parse-there e (at b2 p) start h
          ∙ parse_there-opt e' b2 p w h (is_other-second b max_length dnssec_ok v h)
          ∙ opened b max_length dnssec_ok v h m e',
    )
