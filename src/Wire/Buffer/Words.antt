-- ===== src/Wire/Buffer/Words.antt =====
-- What is written to the buffer is read back, and calls that check their room never leave the data.
use opendnssec_workflow_test.Common.{
  ℕ, ◌+◌, ◌-◌, ◌/◌, ◌%◌, ◌^◌, ◌≤◌, ◌<◌, ◌≡◌, refl, ◌∙◌, ◌≢◌, ◌⊎◌, inl, List, [], ◌∷◌, arith, length,
  get_or, set, length-set, get_or-set_self, get_or-set_ne, ◌*◌, All-get_or,
}
use mathlib.Core.Path.{ap₂}
use opendnssec_workflow_test.Common.Result.{ok, err, assertion, overrun}
use opendnssec_workflow_test.Wire.Buffer.{
  Buffer, write_u16_at, write, read_u8_at, read_u16_at, read_u32_at, read, write_u16, write_u32,
  read_u16, read_u32,
}
use opendnssec_workflow_test.Wire.Buffer.Valid.{
  IsValid, overwrite, slice, length-overwrite, load-ok, copy_out-ok, write-ok, read-ok, bytes16,
  bytes32, IsByte, load_outside, write_u16-eq-write, write_u32-eq-write,
}

-- A write changes nothing before its place, and nothing behind it.
pub overwrite_outside :
    (xs : List ℕ) (at : ℕ) (vs : List ℕ) (j : ℕ)
    → (j < at) ⊎ (at + length vs ≤ j)
    → get_or (overwrite xs at vs) j 0 ≡ get_or xs j 0
overwrite_outside xs at [] j h = refl
overwrite_outside xs at (v ∷ vs) j h =
    overwrite_outside (set xs at v) (at + 1) vs j (ground arith)
    ∙ get_or-set_ne xs at j v 0 (ground arith)

slice-overwrite :
    (xs : List ℕ) (at : ℕ) (vs : List ℕ)
    → at + length vs ≤ length xs
    → slice (overwrite xs at vs) at (length vs) ≡ vs
slice-overwrite xs at [] h = refl
slice-overwrite xs at (v ∷ vs) h =
    ap₂ ◌∷◌
      (overwrite_outside (set xs at v) (at + 1) vs at (inl (omega arith))
        ∙ get_or-set_self xs at v 0 (omega arith))
      (slice-overwrite (set xs at v) (at + 1) vs (omega (arith, length-set xs at v)))

-- On a valid buffer, bytes that fit before the limit are written at the cursor, and read back from
-- there; the cursor moves by their number each time.
read-write :
    (b : Buffer) (vs : List ℕ)
    → IsValid b
    → length vs ≤ b.limit - b.position
    → (b' : Buffer) × (write b vs ≡ ok b')
      × (b'.position ≡ b.position + length vs)
      × (read (record b' { position = b.position }) (length vs) ≡ ok (vs, b'))
unfolding read
read-write b vs v h = (
  record b { data_bytes = overwrite b.data_bytes b.position vs; position = b.position + length vs },
  write-ok b vs v h,
  refl,
  ground (
    arith,
    copy_out-ok (record b { data_bytes = overwrite b.data_bytes b.position vs }) b.position
        (length vs),
    slice-overwrite b.data_bytes b.position vs,
    length-overwrite b.data_bytes b.position vs,
  ),
)

slice-bytes16 :
    (b : Buffer) (at v : ℕ)
    → at + 2 ≤ length b.data_bytes
    → v < 2 ^ 16
    → slice b.data_bytes at 2 ≡ bytes16 v
    → read_u16_at b at ≡ ok v
unfolding read_u16_at
slice-bytes16 b at v h hv e = ground (arith, load-ok b at, load-ok b (at + 1))

slice-bytes32 :
    (b : Buffer) (at v : ℕ)
    → at + 4 ≤ length b.data_bytes
    → v < 2 ^ 32
    → slice b.data_bytes at 4 ≡ bytes32 v
    → read_u32_at b at ≡ ok v
unfolding read_u32_at
slice-bytes32 b at v h hv e =
    ground (arith, load-ok b at, load-ok b (at + 1), load-ok b (at + 2), load-ok b (at + 3))

-- On a valid buffer with two bytes before the limit, a 16-bit number that is written at the cursor is
-- read back, and both move the cursor by two.
read_u16-write_u16 :
    (b : Buffer) (v : ℕ)
    → IsValid b
    → v < 2 ^ 16
    → b.position + 2 ≤ b.limit
    → (b' : Buffer) × (write_u16 b v ≡ ok b')
      × (b'.position ≡ b.position + 2)
      × (read_u16 (record b' { position = b.position }) ≡ ok (v, b'))
unfolding read_u16
read_u16-write_u16 b v w hv h = (
  record b {
    data_bytes = overwrite b.data_bytes b.position (bytes16 v);
    position = b.position + 2;
  },
  write_u16-eq-write b v ∙ write-ok b (bytes16 v) w (omega arith),
  refl,
  ground (
    arith,
    slice-bytes16 (record b { data_bytes = overwrite b.data_bytes b.position (bytes16 v) })
        b.position v,
    slice-overwrite b.data_bytes b.position (bytes16 v),
    length-overwrite b.data_bytes b.position (bytes16 v),
  ),
)

-- On a valid buffer with four bytes before the limit, a 32-bit number that is written at the cursor is
-- read back, and both move the cursor by four.
read_u32-write_u32 :
    (b : Buffer) (v : ℕ)
    → IsValid b
    → v < 2 ^ 32
    → b.position + 4 ≤ b.limit
    → (b' : Buffer) × (write_u32 b v ≡ ok b')
      × (b'.position ≡ b.position + 4)
      × (read_u32 (record b' { position = b.position }) ≡ ok (v, b'))
unfolding read_u32
read_u32-write_u32 b v w hv h = (
  record b {
    data_bytes = overwrite b.data_bytes b.position (bytes32 v);
    position = b.position + 4;
  },
  write_u32-eq-write b v ∙ write-ok b (bytes32 v) w (omega arith),
  refl,
  ground (
    arith,
    slice-bytes32 (record b { data_bytes = overwrite b.data_bytes b.position (bytes32 v) })
        b.position v,
    slice-overwrite b.data_bytes b.position (bytes32 v),
    length-overwrite b.data_bytes b.position (bytes32 v),
  ),
)

-- On a valid buffer `buffer_write`, `buffer_read`, `buffer_write_u16_at` and `buffer_read_u8_at` never
-- touch memory outside the data: the first two fail their assertion when the bytes do not fit before
-- the limit.
checked_access :
    (b : Buffer) (vs : List ℕ) (n at v : ℕ)
    → IsValid b
    → (length vs ≤ b.limit - b.position → write b vs ≢ err overrun)
      × (b.limit - b.position < length vs → write b vs ≡ err assertion)
      × (n ≤ b.limit - b.position → read b n ≢ err overrun)
      × (b.limit - b.position < n → read b n ≡ err assertion)
      × (write_u16_at b at v ≢ err overrun)
      × (read_u8_at b at ≢ err overrun)
unfolding write read write_u16_at read_u8_at
checked_access b vs n at v w = (
  λ h. ground (arith, write-ok b vs w h),
  λ h. ground arith,
  λ h. ground (arith, read-ok b n w h),
  λ h. ground arith,
  ground (arith, length-set b.data_bytes at (v / 2 ^ 8 % 2 ^ 8)),
  ground (arith, load-ok b at),
)

-- On a valid buffer `buffer_read_u16_at` succeeds at each place with two bytes before the capacity,
-- even behind the limit, and at any other place it reads outside the allocated memory.
unchecked_read :
    (b : Buffer) (at : ℕ)
    → IsValid b
    → (at + 2 ≤ b.capacity → (v : ℕ) × (read_u16_at b at ≡ ok v) × (v < 2 ^ 16))
      × (b.capacity ≤ at + 1 → read_u16_at b at ≡ err overrun)
unfolding read_u16_at
unchecked_read b at w = (
  λ h. (
    get_or b.data_bytes at 0 * 2 ^ 8 + get_or b.data_bytes (at + 1) 0,
    ground (arith, load-ok b at, load-ok b (at + 1)),
    omega (
      arith,
      All-get_or IsByte b.data_bytes at 0 w.bytes (omega arith),
      All-get_or IsByte b.data_bytes (at + 1) 0 w.bytes (omega arith),
    ),
  ),
  λ h. ground (arith, load-ok b at, load_outside b at, load_outside b (at + 1)),
)
