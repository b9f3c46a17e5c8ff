-- ===== src/Wire/Buffer/Packet/Flags.antt =====
-- Each setter of the packet header changes its own field and no other.
use Prim.Native.Nat.{bit_and, bit_or}
use opendnssec_workflow_test.Common.{
  ℕ, ◌*◌, ◌/◌, ◌%◌, ◌^◌, ◌≤◌, ◌<◌, ◌≡◌, refl, ap, ◌∙◌, Bool, true, false, ◌&&◌, List, [], ◌∷◌,
  arith, ◌==◌, ==_iff, get_or, set, length-set, All-set, All-get_or, get_or-set_self, get_or-set_ne,
}
use mathlib.Core.Path.{ap₂}
use opendnssec_workflow_test.Common.Bytes.{holds_below, holds_below_at}
use opendnssec_workflow_test.Common.Result.{Result, ok, ◌>>=◌}
use opendnssec_workflow_test.Wire.Buffer.{Buffer, read_at, write_at, store}
use opendnssec_workflow_test.Wire.Buffer.Valid.{IsByte, IsValid, load-ok}
use opendnssec_workflow_test.Wire.Buffer.Packet.{
  not32, bits_at, change_at, pkt_qr, pkt_opcode, pkt_aa, pkt_tc, pkt_rd, pkt_ra, pkt_ad, pkt_cd,
  pkt_rcode, pkt_set_qr, pkt_clear_qr, pkt_set_opcode, pkt_set_aa, pkt_set_rcode,
}

bits_at-ok :
    (b : Buffer) (at mask : ℕ)
    → IsValid b
    → at < b.limit
    → bits_at b at mask ≡ ok (bit_and (get_or b.data_bytes at 0) mask)
unfolding bits_at read_at
bits_at-ok b at mask v h = ground (arith, load-ok b at)

abbrev changed : Buffer → ℕ → (ℕ → ℕ) → Buffer
changed b at change = record b {
  data_bytes = set b.data_bytes at (change (get_or b.data_bytes at 0) % 2 ^ 8);
}

change_at-ok :
    (b : Buffer) (at : ℕ) (change : ℕ → ℕ)
    → IsValid b
    → at < b.limit
    → change_at b at change ≡ ok (changed b at change)
unfolding change_at read_at write_at store
change_at-ok b at change v h = ground (arith, load-ok b at)

changed-IsValid :
    (b : Buffer) (at : ℕ) (change : ℕ → ℕ)
    → IsValid b
    → at < b.limit
    → IsValid (changed b at change)
changed-IsValid b at change v h = record {
  allocated = length-set b.data_bytes at (change (get_or b.data_bytes at 0) % 2 ^ 8) ∙ v.allocated;
  cursor = v.cursor;
  limited = v.limited;
  small = v.small;
  bytes =
      All-set IsByte b.data_bytes at (change (get_or b.data_bytes at 0) % 2 ^ 8) v.bytes
        (omega arith);
}

-- The flags of a packet, as the nine accessors give them.
pub record Flags : Type 0 where
  pub qr : ℕ
  pub opcode : ℕ
  pub aa : ℕ
  pub tc : ℕ
  pub rd : ℕ
  pub ra : ℕ
  pub ad : ℕ
  pub cd : ℕ
  pub rcode : ℕ

unfoldable pub read_flags : Buffer → Result Flags
read_flags b = do
  qr ← pkt_qr b
  opcode ← pkt_opcode b
  aa ← pkt_aa b
  tc ← pkt_tc b
  rd ← pkt_rd b
  ra ← pkt_ra b
  ad ← pkt_ad b
  cd ← pkt_cd b
  rcode ← pkt_rcode b
  ok (record {
    qr = qr;
    opcode = opcode;
    aa = aa;
    tc = tc;
    rd = rd;
    ra = ra;
    ad = ad;
    cd = cd;
    rcode = rcode;
  })

-- QR, OPCODE, AA, TC and RD of the third byte; RA, AD, CD and RCODE of the fourth.
abbrev third : ℕ → List ℕ
third v =
    bit_and v 0x80 ∷ bit_and v 0x78 / 2 ^ 3 ∷ bit_and v 0x04 ∷ bit_and v 0x02 ∷ bit_and v 0x01 ∷ []

abbrev fourth : ℕ → List ℕ
fourth w = bit_and w 0x80 ∷ bit_and w 0x20 ∷ bit_and w 0x10 ∷ bit_and w 0x0f ∷ []

abbrev collect : List ℕ → List ℕ → Flags
collect t f = record {
  qr = get_or t 0 0;
  opcode = get_or t 1 0;
  aa = get_or t 2 0;
  tc = get_or t 3 0;
  rd = get_or t 4 0;
  ra = get_or f 0 0;
  ad = get_or f 1 0;
  cd = get_or f 2 0;
  rcode = get_or f 3 0;
}

abbrev byte_of : Buffer → ℕ → ℕ
byte_of b at = get_or b.data_bytes at 0

read_flags-ok :
    (b : Buffer)
    → IsValid b
    → 4 ≤ b.limit
    → read_flags b ≡ ok (collect (third (byte_of b 2)) (fourth (byte_of b 3)))
unfolding read_flags
read_flags-ok b v h =
    rw
      (
        bits_at-ok b 2 0x80 v (omega arith),
        bits_at-ok b 2 0x78 v (omega arith),
        bits_at-ok b 2 0x04 v (omega arith),
        bits_at-ok b 2 0x02 v (omega arith),
        bits_at-ok b 2 0x01 v (omega arith),
        bits_at-ok b 3 0x80 v (omega arith),
        bits_at-ok b 3 0x20 v (omega arith),
        bits_at-ok b 3 0x10 v (omega arith),
        bits_at-ok b 3 0x0f v (omega arith),
      )
      refl

agree : List ℕ → List ℕ → Bool
agree [] [] = true
agree (x ∷ xs) (y ∷ ys) = x == y && agree xs ys
agree _ _ = false

agree-eq : (xs ys : List ℕ) → agree xs ys ≡ true → xs ≡ ys
unfolding agree
agree-eq [] [] h = refl
agree-eq [] (y ∷ ys) h = cc
agree-eq (x ∷ xs) [] h = cc
agree-eq (x ∷ xs) (y ∷ ys) h =
    ap₂ ◌∷◌ ((==_iff x y).0 (ground arith)) (agree-eq xs ys (ground arith))

-- A function of the third byte and a number below 16, on every value.
third_table :
    (change : ℕ → ℕ → ℕ) (want : ℕ → List ℕ → List ℕ)
    → holds_below
        (λ v. holds_below (λ n. agree (third (change n v % 2 ^ 8)) (want n (third v))) 16)
        256
      ≡ true
    → (v n : ℕ) → v < 256
    → n < 16
    → third (change n v % 2 ^ 8) ≡ want n (third v)
third_table change want table v n hv hn =
    agree-eq _ _ (holds_below_at _ 16 n hn (holds_below_at _ 256 v hv table))

fourth_table :
    (change : ℕ → ℕ → ℕ) (want : ℕ → List ℕ → List ℕ)
    → holds_below
        (λ v. holds_below (λ n. agree (fourth (change n v % 2 ^ 8)) (want n (fourth v))) 16)
        256
      ≡ true
    → (v n : ℕ) → v < 256
    → n < 16
    → fourth (change n v % 2 ^ 8) ≡ want n (fourth v)
fourth_table change want table v n hv hn =
    agree-eq _ _ (holds_below_at _ 16 n hn (holds_below_at _ 256 v hv table))

-- A call that succeeds, with these flags afterwards.
abbrev pub Gives : Result Buffer → Flags → Type 0
Gives r f = (b' : Buffer) × (r ≡ ok b') × IsValid b' × (read_flags b' ≡ ok f)

change-third :
    (b : Buffer) (change : ℕ → ℕ) (want : List ℕ)
    → IsValid b
    → 4 ≤ b.limit
    → third (change (byte_of b 2) % 2 ^ 8) ≡ want
    → Gives (change_at b 2 change) (collect want (fourth (byte_of b 3)))
change-third b change want v h e =
    let w = change (byte_of b 2) % 2 ^ 8 in
    (
      changed b 2 change,
      change_at-ok b 2 change v (omega arith),
      changed-IsValid b 2 change v (omega arith),
      read_flags-ok (changed b 2 change) (changed-IsValid b 2 change v (omega arith)) h
          ∙ ap₂ (λ x y. ok (collect (third x) (fourth y)))
              (get_or-set_self b.data_bytes 2 w 0 (omega (arith, v.allocated, v.limited)))
              (get_or-set_ne b.data_bytes 2 3 w 0 (omega arith))
          ∙ ap (λ t. ok (collect t (fourth (byte_of b 3)))) e,
    )

change-fourth :
    (b : Buffer) (change : ℕ → ℕ) (want : List ℕ)
    → IsValid b
    → 4 ≤ b.limit
    → fourth (change (byte_of b 3) % 2 ^ 8) ≡ want
    → Gives (change_at b 3 change) (collect (third (byte_of b 2)) want)
change-fourth b change want v h e =
    let w = change (byte_of b 3) % 2 ^ 8 in
    (
      changed b 3 change,
      change_at-ok b 3 change v (omega arith),
      changed-IsValid b 3 change v (omega arith),
      read_flags-ok (changed b 3 change) (changed-IsValid b 3 change v (omega arith)) h
          ∙ ap₂ (λ x y. ok (collect (third x) (fourth y)))
              (get_or-set_ne b.data_bytes 3 2 w 0 (omega arith))
              (get_or-set_self b.data_bytes 3 w 0 (omega (arith, v.allocated, v.limited)))
          ∙ ap (λ t. ok (collect (third (byte_of b 2)) t)) e,
    )

-- In a valid buffer of at least four bytes, `buffer_pkt_set_qr`, `buffer_pkt_clear_qr`,
-- `buffer_pkt_set_opcode`, `buffer_pkt_set_aa` and `buffer_pkt_set_rcode`, for numbers of four bits,
-- succeed; the accessor of the same name then gives the new value, and the eight others what they
-- gave before.
pub set-read_flags :
    (b : Buffer) (n : ℕ)
    → IsValid b
    → 4 ≤ b.limit
    → n < 16
    → (f : Flags) × (read_flags b ≡ ok f)
      × Gives (pkt_set_qr b) (record f { qr = 0x80 })
      × Gives (pkt_clear_qr b) (record f { qr = 0 })
      × Gives (pkt_set_opcode b n) (record f { opcode = n })
      × Gives (pkt_set_aa b) (record f { aa = 0x04 })
      × Gives (pkt_set_rcode b n) (record f { rcode = n })
unfolding pkt_set_qr pkt_clear_qr pkt_set_opcode pkt_set_aa pkt_set_rcode holds_below agree
set-read_flags b n v h hn =
    let x = byte_of b 2 in
    let y = byte_of b 3 in
    let hx : x < 256 = All-get_or IsByte b.data_bytes 2 0 v.bytes (omega arith) in
    let hy : y < 256 = All-get_or IsByte b.data_bytes 3 0 v.bytes (omega arith) in
    (
      collect (third x) (fourth y),
      read_flags-ok b v h,
      change-third b _ _ v h
          (third_table (λ n v. bit_or v 0x80) (λ n t. set t 0 0x80) refl x 0 hx (omega arith)),
      change-third b _ _ v h (
          third_table (λ n v. bit_and v (not32 0x80)) (λ n t. set t 0 0) refl x 0 hx (omega arith)),
      change-third b _ _ v h (
          third_table (λ n v. bit_or (bit_and v (not32 0x78)) (n * 2 ^ 3 % 2 ^ 32))
            (λ n t. set t 1 n) refl x n hx hn),
      change-third b _ _ v h
          (third_table (λ n v. bit_or v 0x04) (λ n t. set t 2 0x04) refl x 0 hx (omega arith)),
      change-fourth b _ _ v h (
          fourth_table (λ n v. bit_or (bit_and v (not32 0x0f)) n) (λ n t. set t 3 n) refl y n hy
            hn),
    )
