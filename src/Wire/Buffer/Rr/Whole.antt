-- ===== src/Wire/Buffer/Rr/Whole.antt =====
-- A resource record is written whole or not at all, and skipped without leaving the packet.
use opendnssec_workflow_test.Common.{
  ℕ, ◌+◌, ◌-◌, ◌/◌, ◌%◌, ◌^◌, ◌≤◌, ◌≡◌, refl, ◌∙◌, Bool, List, [], ◌∷◌, arith, leb, if◌then◌else◌,
  length, set, length-set, All,
}
use native.Mathlib.Decide.{dec_le}
use opendnssec_workflow_test.Common.Result.{Result, ok, ◌>>=◌}
use opendnssec_workflow_test.Wire.Buffer.{
  Buffer, set_position, skip, available, write, write_u16, write_u32, write_u16_at, store,
}
use opendnssec_workflow_test.Wire.Buffer.Valid.{
  IsByte, IsValid, Step-IsValid, writes, write_u16_at-IsValid, write-ok, bytes16, bytes32,
  write_u16-eq-write, write_u32-eq-write,
}
use opendnssec_workflow_test.Wire.Buffer.Rr.{
  Rr, write_rdfs, write_rdlength, write_fixed, write_behind, write_owner, truncate, write_rr,
}

-- A valid buffer, `n` bytes further on.
abbrev pub Moved : Buffer → ℕ → Buffer → Type 0
Moved b n b' = IsValid b' × (b'.position ≡ b.position + n) × (b'.limit ≡ b.limit)

write-Moved :
    (b : Buffer) (vs : List ℕ)
    → IsValid b
    → All IsByte vs
    → length vs ≤ b.limit - b.position
    → (b' : Buffer) × (write b vs ≡ ok b') × Moved b (length vs) b'
write-Moved b vs v a h =
    (_, write-ok b vs v h, (Step-IsValid (writes b _ vs a (write-ok b vs v h)) v, refl, refl))

write_u16-Moved :
    (b : Buffer) (n : ℕ)
    → IsValid b
    → 2 ≤ b.limit - b.position
    → (b' : Buffer) × (write_u16 b n ≡ ok b') × Moved b 2 b'
write_u16-Moved b n v h = rw (write_u16-eq-write b n) (write-Moved b (bytes16 n) v (omega arith) h)

write_u32-Moved :
    (b : Buffer) (n : ℕ)
    → IsValid b
    → 4 ≤ b.limit - b.position
    → (b' : Buffer) × (write_u32 b n ≡ ok b') × Moved b 4 b'
write_u32-Moved b n v h = rw (write_u32-eq-write b n) (write-Moved b (bytes32 n) v (omega arith) h)

available-eq : (b : Buffer) (n : ℕ) → IsValid b → available b n ≡ ok (leb n (b.limit - b.position))
unfolding available
available-eq b n v = ground arith

skip-Moved :
    (b : Buffer) (n : ℕ)
    → IsValid b
    → n ≤ b.limit - b.position
    → (b' : Buffer) × (skip b n ≡ ok b') × Moved b n b'
unfolding skip
skip-Moved b n v h =
    (record b { position = b.position + n }, ground arith, (ground arith, refl, refl))

abbrev pub total : List (List ℕ) → ℕ
total [] = 0
total (rdf ∷ rdfs) = length rdf + total rdfs

-- `n` bytes are written if they fit; if not, the buffer is still valid.
abbrev pub Fits : Buffer → ℕ → Result (Bool × Buffer) → Type 0
Fits b n r =
    (b' : Buffer) × (r ≡ ok (leb n (b.limit - b.position), b'))
    × IsValid b'
    × (b'.limit ≡ b.limit)
    × (b.position ≤ b'.position)
    × (n ≤ b.limit - b.position → b'.position ≡ b.position + n)

write_rdfs-Fits :
    (b : Buffer) (rdfs : List (List ℕ))
    → IsValid b
    → All (All IsByte) rdfs
    → Fits b (total rdfs) (write_rdfs b rdfs)
unfolding write_rdfs
write_rdfs-Fits b [] v a = (b, ground arith, v, refl, omega arith, λ h. omega arith)
write_rdfs-Fits b (rdf ∷ rdfs) v a = elim (dec_le (length rdf) (b.limit - b.position)) [
  | no h ↦ (
    b,
    ground (arith, available-eq b (length rdf) v),
    v,
    refl,
    omega arith,
    λ q. absurd (omega arith),
  )
  | yes h ↦
      let (b1, e, (v1, p, l)) = write-Moved b rdf v a.0 h in
      let (b2, e2, v2, l2, q, k) = write_rdfs-Fits b1 rdfs v1 a.1 in
      (
        b2,
        ground (arith, available-eq b (length rdf) v),
        v2,
        l2 ∙ l,
        omega arith,
        λ m. omega (arith, k (omega arith)),
      )
]

-- What is there of a record: the bytes of the owner, ten bytes, and the rdata.
abbrev pub size : Rr → ℕ
size rr = length rr.owner + (10 + total rr.rdfs)

write_u16_at-Moved :
    (b : Buffer) (at n : ℕ)
    → IsValid b
    → at + 2 ≤ b.limit
    → (b' : Buffer) × (write_u16_at b at n ≡ ok b') × Moved b 0 b'
unfolding write_u16_at store
write_u16_at-Moved b at n v h =
    let (b', e) = there in
    let (w, p, l, _) = write_u16_at-IsValid b b' at n v e in (b', e, (w, omega arith, l))
  where
    there : (b' : Buffer) × (write_u16_at b at n ≡ ok b')
    there = (
      record b { data_bytes = set (set b.data_bytes at (n / 2 ^ 8 % 2 ^ 8)) (at + 1) (n % 2 ^ 8) },
      ground (arith, length-set b.data_bytes at (n / 2 ^ 8 % 2 ^ 8)),
    )

write_rdlength-Fits :
    (b : Buffer) (n at : ℕ) (r : Result (Bool × Buffer))
    → at + 2 ≤ b.position
    → Fits b n r
    → Fits b n (r >>= write_rdlength at)
unfolding write_rdlength
write_rdlength-Fits b n at r h (b', e, v, l, p, k) = elim (dec_le n (b.limit - b.position)) [
  | no m ↦ (b', ground arith, v, l, p, k)
  | yes m ↦
      let x = (b'.position - at - 2) % 2 ^ 16 in
      let (c, q, (w, i, j)) = write_u16_at-Moved b' at x v (omega (arith, v.cursor)) in
      (c, ground arith, w, j ∙ l, omega arith, λ z. omega (arith, k m))
]

-- Fitting from a place further on.
Fits-from :
    (b b1 : Buffer) (m n : ℕ) (r : Result (Bool × Buffer))
    → m ≤ b.limit - b.position
    → Moved b m b1
    → Fits b1 n r
    → Fits b (m + n) r
Fits-from b b1 m n r h (v1, p1, l1) (b', e, v, l, p, k) =
    (b', ground arith, v, l ∙ l1, omega arith, λ z. omega (arith, k (omega arith)))

Fits-by : (b : Buffer) (n : ℕ) (r r' : Result (Bool × Buffer)) → r' ≡ r → Fits b n r → Fits b n r'
Fits-by b n r r' q (b', e, v, l, p, k) = (b', q ∙ e, v, l, p, k)

behind_rdlength :
    (b b1 b2 b3 b4 : Buffer) (rr : Rr)
    → (write_u16 b rr.rr_type ≡ ok b1) × Moved b 2 b1
    → (write_u16 b1 rr.rr_class ≡ ok b2) × Moved b1 2 b2
    → (write_u32 b2 rr.ttl ≡ ok b3) × Moved b2 4 b3
    → (skip b3 2 ≡ ok b4) × Moved b3 2 b4
    → All (All IsByte) rr.rdfs
    → 10 ≤ b.limit - b.position
    → Fits b (10 + total rr.rdfs) (write_fixed b rr)
unfolding write_fixed
behind_rdlength b b1 b2 b3 b4 rr (e1, m1) (e2, m2) (e3, m3) (e4, m4) a h =
    let r = write_rdfs b4 rr.rdfs >>= write_rdlength b3.position in
    Fits-by b (10 + total rr.rdfs) r (write_fixed b rr) (rw (e1, e2, e3, e4) refl) (
      Fits-from b b4 10 (total rr.rdfs) r h (m4.0, omega arith, omega arith)
        (write_rdlength-Fits b4 (total rr.rdfs) b3.position (write_rdfs b4 rr.rdfs) (omega arith)
          (write_rdfs-Fits b4 rr.rdfs m4.0 a)))

behind_ttl :
    (b b1 b2 b3 : Buffer) (rr : Rr)
    → (write_u16 b rr.rr_type ≡ ok b1) × Moved b 2 b1
    → (write_u16 b1 rr.rr_class ≡ ok b2) × Moved b1 2 b2
    → (write_u32 b2 rr.ttl ≡ ok b3) × Moved b2 4 b3
    → All (All IsByte) rr.rdfs
    → 10 ≤ b.limit - b.position
    → Fits b (10 + total rr.rdfs) (write_fixed b rr)
behind_ttl b b1 b2 b3 rr s1 s2 s3 a h =
    let (b4, e, m) = skip-Moved b3 2 s3.1.0 (omega arith) in
    behind_rdlength b b1 b2 b3 b4 rr s1 s2 s3 (e, m) a h

behind_class :
    (b b1 b2 : Buffer) (rr : Rr)
    → (write_u16 b rr.rr_type ≡ ok b1) × Moved b 2 b1
    → (write_u16 b1 rr.rr_class ≡ ok b2) × Moved b1 2 b2
    → All (All IsByte) rr.rdfs
    → 10 ≤ b.limit - b.position
    → Fits b (10 + total rr.rdfs) (write_fixed b rr)
behind_class b b1 b2 rr s1 s2 a h =
    let (b3, e, m) = write_u32-Moved b2 rr.ttl s2.1.0 (omega arith) in
    behind_ttl b b1 b2 b3 rr s1 s2 (e, m) a h

behind_type :
    (b b1 : Buffer) (rr : Rr)
    → (write_u16 b rr.rr_type ≡ ok b1) × Moved b 2 b1
    → All (All IsByte) rr.rdfs
    → 10 ≤ b.limit - b.position
    → Fits b (10 + total rr.rdfs) (write_fixed b rr)
behind_type b b1 rr s1 a h =
    let (b2, e, m) = write_u16-Moved b1 rr.rr_class s1.1.0 (omega arith) in
    behind_class b b1 b2 rr s1 (e, m) a h

write_fixed-Fits :
    (b : Buffer) (rr : Rr)
    → IsValid b
    → All (All IsByte) rr.rdfs
    → 10 ≤ b.limit - b.position
    → Fits b (10 + total rr.rdfs) (write_fixed b rr)
write_fixed-Fits b rr v a h =
    let (b1, e, m) = write_u16-Moved b rr.rr_type v (omega arith) in behind_type b b1 rr (e, m) a h

write_behind-Fits :
    (b : Buffer) (rr : Rr)
    → IsValid b
    → All (All IsByte) rr.rdfs
    → Fits b (10 + total rr.rdfs) (write_behind b rr)
unfolding write_behind
write_behind-Fits b rr v a = elim (dec_le 10 (b.limit - b.position)) [
  | no h ↦ (b, ground (arith, available-eq b 10 v), v, refl, omega arith, λ q. absurd (omega arith))
  | yes h ↦
      Fits-by b (10 + total rr.rdfs) (write_fixed b rr) (write_behind b rr)
        (ground (arith, available-eq b 10 v)) (write_fixed-Fits b rr v a h)
]

write_owner_from :
    (b b1 : Buffer) (rr : Rr)
    → IsValid b
    → (write b rr.owner ≡ ok b1) × Moved b (length rr.owner) b1
    → length rr.owner ≤ b.limit - b.position
    → All (All IsByte) rr.rdfs
    → Fits b (size rr) (write_owner b rr)
unfolding write_owner
write_owner_from b b1 rr v (e, m) h a =
    Fits-by b (size rr) (write_behind b1 rr) (write_owner b rr)
      (ground (arith, available-eq b (length rr.owner) v))
      (Fits-from b b1 (length rr.owner) (10 + total rr.rdfs) (write_behind b1 rr) h m
        (write_behind-Fits b1 rr m.0 a))

write_owner-Fits :
    (b : Buffer) (rr : Rr)
    → IsValid b
    → All IsByte rr.owner
    → All (All IsByte) rr.rdfs
    → Fits b (size rr) (write_owner b rr)
unfolding write_owner
write_owner-Fits b rr v o a = elim (dec_le (length rr.owner) (b.limit - b.position)) [
  | no h ↦ (
    b,
    ground (arith, available-eq b (length rr.owner) v),
    v,
    refl,
    omega arith,
    λ q. absurd (omega arith),
  )
  | yes h ↦ let (b1, e, m) = write-Moved b rr.owner v o h in write_owner_from b b1 rr v (e, m) h a
]

-- On a valid buffer, with a record of bytes, `buffer_write_rr` returns without a failed assertion and
-- leaves the buffer valid, with the same limit: it returns true, with the cursor moved by the size of
-- the record, if that fits before the limit; if not it returns false, with the cursor where it was.
pub write_rr-Fits :
    (b : Buffer) (rr : Rr)
    → IsValid b
    → All IsByte rr.owner
    → All (All IsByte) rr.rdfs
    → let fits = leb (size rr) (b.limit - b.position) in
      (b' : Buffer) × (write_rr b rr ≡ ok (fits, b'))
      × IsValid b'
      × (b'.limit ≡ b.limit)
      × (b'.position ≡ (if fits then b.position + size rr else b.position))
unfolding write_rr truncate set_position
write_rr-Fits b rr v o a =
    let (b', e, w, l, p, k) = write_owner-Fits b rr v o a in
    elim (dec_le (size rr) (b.limit - b.position)) [
      | yes h ↦ (b', ground arith, w, l, ground (arith, k h))
      | no h ↦ (
        record b' { position = b.position },
        ground (arith, v.cursor),
        ground (arith, v.cursor),
        l,
        ground arith,
      )
    ]
