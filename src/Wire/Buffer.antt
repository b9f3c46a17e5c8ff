-- ===== src/Wire/Buffer.antt =====
-- signer/src/wire/buffer.c and buffer.h: the packet buffer, its cursor, and the numbers in it.
-- A function that changes `*buffer` returns the new buffer. A failed assertion and an access outside
-- the data are faults. The test that `buffer` itself is not NULL is left out.
pub mod Bits
mod Tests
pub mod Dname
pub mod Packet
pub mod Rr
pub mod Valid
pub mod Words
use opendnssec_workflow_test.Common.{
  ℕ, zero, suc, ◌+◌, ◌-◌, ◌*◌, ◌/◌, ◌%◌, ◌^◌, Bool, true, false, ◌&&◌, List, [], ◌∷◌, Option, none,
  some, ltb, leb, ◌==◌, if◌then◌else◌, length, get_elem?, set, take, drop, replicate,
}
use opendnssec_workflow_test.Common.Result.{
  Result, ok, err, Fault, assertion, overrun, ◌>>=◌, ◌>>◌, require,
}

-- `buffer_type`: `data` is the allocated memory.
pub record Buffer : Type 0 where
  pub data_bytes : List ℕ
  pub position : ℕ
  pub limit : ℕ
  pub capacity : ℕ
  pub fixed : Bool

-- `size_t` addition
abbrev pub add_size : ℕ → ℕ → ℕ
add_size a b = (a + b) % 2 ^ 64

-- `buffer_create`, whose `calloc` succeeds: whether an allocator is given, and whether its
-- `allocator_alloc` succeeds.
unfoldable pub create : Bool → Bool → ℕ → Option Buffer
create allocator memory capacity =
    if allocator && ltb 0 capacity && memory
    then some (record {
      data_bytes = replicate capacity 0;
      position = 0;
      limit = capacity;
      capacity = capacity;
      fixed = false;
    })
    else none

-- `buffer_create_from`
pub create_from : List ℕ → ℕ → Buffer
create_from bytes size = record {
  data_bytes = bytes;
  position = 0;
  limit = size;
  capacity = size;
  fixed = true;
}

-- `buffer_clear`, `buffer_flip`, `buffer_rewind`
unfoldable pub clear : Buffer → Buffer
clear b = record b { position = 0; limit = b.capacity }

unfoldable pub flip : Buffer → Buffer
flip b = record b { limit = b.position; position = 0 }

unfoldable pub rewind : Buffer → Buffer
rewind b = record b { position = 0 }

-- `buffer_set_position`, `buffer_set_limit`
unfoldable pub set_position : Buffer → ℕ → Result Buffer
set_position b pos = do require (leb pos b.limit) assertion; ok (record b { position = pos })

unfoldable pub set_limit : Buffer → ℕ → Result Buffer
set_limit b limit = do
  require (leb limit b.capacity) assertion
  ok (record b { limit = limit; position = if ltb limit b.position then limit else b.position })

-- `buffer_skip`; a negative `count` is its 64-bit pattern.
unfoldable pub skip : Buffer → ℕ → Result Buffer
skip b count = do
  require (leb (add_size b.position count) b.limit) assertion
  ok (record b { position = add_size b.position count })

-- `buffer_remaining_at`, `buffer_remaining`, `buffer_available_at`, `buffer_available`
unfoldable pub remaining_at : Buffer → ℕ → Result ℕ
remaining_at b at = do require (leb at b.limit) assertion; ok (b.limit - at)

unfoldable pub remaining : Buffer → Result ℕ
unfolding remaining_at
remaining b = remaining_at b b.position

unfoldable pub available_at : Buffer → ℕ → ℕ → Result Bool
unfolding remaining_at
available_at b at count = do left ← remaining_at b at; ok (leb count left)

unfoldable pub available : Buffer → ℕ → Result Bool
unfolding available_at
available b count = available_at b b.position count

-- A byte of `buffer->data`.
unfoldable pub load : Buffer → ℕ → Result ℕ
load b i = elim (get_elem? b.data_bytes i) [ none ↦ err overrun | some v ↦ ok v ]

unfoldable pub store : Buffer → ℕ → ℕ → Result Buffer
store b i v =
    if ltb i (length b.data_bytes)
    then ok (record b { data_bytes = set b.data_bytes i v })
    else err overrun

-- `*buffer_at(buffer, at)`, as it is read and written by the macros of buffer.h.
unfoldable pub read_at : Buffer → ℕ → Result ℕ
unfolding load
read_at b at = do require (leb at b.limit) assertion; load b at

unfoldable pub write_at : Buffer → ℕ → ℕ → Result Buffer
unfolding store
write_at b at v = do require (leb at b.limit) assertion; store b at v

-- `ods_log_assert(buffer_available_at(...))`
unfoldable pub require_at : Buffer → ℕ → ℕ → Result (Unit {0})
unfolding available_at
require_at b at count = do there ← available_at b at count; require there assertion

-- `buffer_write_u8_at`, `buffer_write_u16_at`, `buffer_write_u32_at`, in network byte order.
unfoldable pub write_u8_at : Buffer → ℕ → ℕ → Result Buffer
unfolding require_at store
write_u8_at b at v = do require_at b at 1; store b at v

unfoldable pub write_u16_at : Buffer → ℕ → ℕ → Result Buffer
unfolding require_at store
write_u16_at b at v = do
  require_at b at 2
  b1 ← store b at (v / 2 ^ 8 % 2 ^ 8)
  store b1 (at + 1) (v % 2 ^ 8)

unfoldable pub write_u32_at : Buffer → ℕ → ℕ → Result Buffer
unfolding require_at store
write_u32_at b at v = do
  require_at b at 4
  b1 ← store b at (v / 2 ^ 24 % 2 ^ 8)
  b2 ← store b1 (at + 1) (v / 2 ^ 16 % 2 ^ 8)
  b3 ← store b2 (at + 2) (v / 2 ^ 8 % 2 ^ 8)
  store b3 (at + 3) (v % 2 ^ 8)

-- The loop of `memcpy` into the data.
unfoldable pub copy_in : Buffer → ℕ → List ℕ → Result Buffer
copy_in b at [] = ok b
copy_in b at (v ∷ vs) = do b1 ← store b at v; copy_in b1 (at + 1) vs

unfoldable pub advance : Buffer → ℕ → Buffer
advance b count = record b { position = add_size b.position count }

-- `buffer_write`, `buffer_write_u8`, `buffer_write_u16`, `buffer_write_u32`
unfoldable pub write : Buffer → List ℕ → Result Buffer
unfolding require_at advance
write b bytes = do
  require_at b b.position (length bytes)
  b1 ← copy_in b b.position bytes
  ok (advance b1 (length bytes))

unfoldable pub write_u8 : Buffer → ℕ → Result Buffer
unfolding write_u8_at advance
write_u8 b v = do b1 ← write_u8_at b b.position v; ok (advance b1 1)

unfoldable pub write_u16 : Buffer → ℕ → Result Buffer
unfolding write_u16_at advance
write_u16 b v = do b1 ← write_u16_at b b.position v; ok (advance b1 2)

unfoldable pub write_u32 : Buffer → ℕ → Result Buffer
unfolding write_u32_at advance
write_u32 b v = do b1 ← write_u32_at b b.position v; ok (advance b1 4)

-- `buffer_read_u8_at`, `buffer_read_u16_at`, `buffer_read_u32_at`: only the first checks its place.
unfoldable pub read_u8_at : Buffer → ℕ → Result ℕ
unfolding load
read_u8_at b at = do require (ltb at b.capacity) assertion; load b at

unfoldable pub read_u16_at : Buffer → ℕ → Result ℕ
unfolding load
read_u16_at b at = do hi ← load b at; lo ← load b (at + 1); ok (hi * 2 ^ 8 + lo)

unfoldable pub read_u32_at : Buffer → ℕ → Result ℕ
unfolding load
read_u32_at b at = do
  v3 ← load b at
  v2 ← load b (at + 1)
  v1 ← load b (at + 2)
  v0 ← load b (at + 3)
  ok (v3 * 2 ^ 24 + v2 * 2 ^ 16 + v1 * 2 ^ 8 + v0)

-- The loop of `memcpy` out of the data.
unfoldable pub copy_out : Buffer → ℕ → ℕ → Result (List ℕ)
copy_out b at zero = ok []
copy_out b at (suc n) = do v ← load b at; vs ← copy_out b (at + 1) n; ok (v ∷ vs)

-- `buffer_read`, `buffer_read_u8`, `buffer_read_u16`, `buffer_read_u32`
unfoldable pub read : Buffer → ℕ → Result (List ℕ × Buffer)
unfolding require_at advance
read b count = do
  require_at b b.position count
  bytes ← copy_out b b.position count
  ok (bytes, advance b count)

unfoldable pub read_u8 : Buffer → Result (ℕ × Buffer)
unfolding read_u8_at advance
read_u8 b = do v ← read_u8_at b b.position; ok (v, advance b 1)

unfoldable pub read_u16 : Buffer → Result (ℕ × Buffer)
unfolding read_u16_at advance
read_u16 b = do v ← read_u16_at b b.position; ok (v, advance b 2)

unfoldable pub read_u32 : Buffer → Result (ℕ × Buffer)
unfolding read_u32_at advance
read_u32 b = do v ← read_u32_at b b.position; ok (v, advance b 4)
