-- ===== src/Wire/Buffer/Valid.antt =====
-- The cursor of buffer.c stays within the limit, and the limit within the allocated bytes.
use mathlib.Core.Path.{subst}
use opendnssec_workflow_test.Common.{
  ℕ, zero, suc, ◌+◌, ◌-◌, ◌/◌, ◌%◌, ◌^◌, ◌≤◌, ◌<◌, ◌≡◌, refl, sym, ◌∙◌, Bool, List, [], ◌∷◌, some,
  arith, length, get_or, set, replicate, All, All-set, length-set, length-replicate,
  get_elem?-eq-get_or, get_elem?_outside,
}
use opendnssec_workflow_test.Common.Result.{Result, ok, err, overrun, ◌>>=◌}
use opendnssec_workflow_test.Wire.Buffer.{
  Buffer, create, clear, flip, rewind, set_position, set_limit, skip, load, store, write_u16_at,
  write_u8_at, write_u32_at, read_u8, read_u16, read_u32, read_u8_at, read_u16_at, read_u32_at,
  advance, copy_in, copy_out, write, write_u8, write_u16, write_u32, read,
}

abbrev pub IsByte : ℕ → Type 0
IsByte v = v < 256

pub record IsValid (b : Buffer) : Type 0 where
  pub allocated : length b.data_bytes ≡ b.capacity
  pub cursor : b.position ≤ b.limit
  pub limited : b.limit ≤ b.capacity
  pub small : b.capacity < 2 ^ 63
  pub bytes : All IsByte b.data_bytes

-- Writing a list of bytes one by one.
abbrev pub overwrite : List ℕ → ℕ → List ℕ → List ℕ
overwrite xs at [] = xs
overwrite xs at (v ∷ vs) = overwrite (set xs at v) (at + 1) vs

abbrev pub slice : List ℕ → ℕ → ℕ → List ℕ
slice xs at zero = []
slice xs at (suc n) = get_or xs at 0 ∷ slice xs (at + 1) n

pub length-overwrite :
    (xs : List ℕ) (at : ℕ) (vs : List ℕ) → length (overwrite xs at vs) ≡ length xs
length-overwrite xs at [] = refl
length-overwrite xs at (v ∷ vs) = length-overwrite (set xs at v) (at + 1) vs ∙ length-set xs at v

pub overwrite-bytes :
    (xs : List ℕ) (at : ℕ) (vs : List ℕ)
    → All IsByte xs
    → All IsByte vs
    → All IsByte (overwrite xs at vs)
overwrite-bytes xs at [] a p = a
overwrite-bytes xs at (v ∷ vs) a p =
    overwrite-bytes (set xs at v) (at + 1) vs (All-set IsByte xs at v a p.0) p.1

pub load-ok :
    (b : Buffer) (i : ℕ) → i < length b.data_bytes → load b i ≡ ok (get_or b.data_bytes i 0)
unfolding load
load-ok b i h = rw (get_elem?-eq-get_or b.data_bytes i 0 h, load) refl

pub load_outside : (b : Buffer) (i : ℕ) → length b.data_bytes ≤ i → load b i ≡ err overrun
unfolding load
load_outside b i h = rw (get_elem?_outside b.data_bytes i h, load) refl

pub copy_in-ok :
    (b : Buffer) (at : ℕ) (vs : List ℕ)
    → at + length vs ≤ length b.data_bytes
    → copy_in b at vs ≡ ok (record b { data_bytes = overwrite b.data_bytes at vs })
unfolding copy_in store
copy_in-ok b at [] h = refl
copy_in-ok b at (v ∷ vs) h = ground (
  arith,
  copy_in-ok (record b { data_bytes = set b.data_bytes at v }) (at + 1) vs,
  length-set b.data_bytes at v,
)

pub copy_out-ok :
    (b : Buffer) (at n : ℕ)
    → at + n ≤ length b.data_bytes
    → copy_out b at n ≡ ok (slice b.data_bytes at n)
unfolding copy_out
copy_out-ok b at zero h = refl
copy_out-ok b at (suc n) h = ground (arith, load-ok b at, copy_out-ok b (at + 1) n)

pub write-ok :
    (b : Buffer) (vs : List ℕ)
    → IsValid b
    → length vs ≤ b.limit - b.position
    → write b vs
      ≡ ok (record b {
        data_bytes = overwrite b.data_bytes b.position vs;
        position = b.position + length vs;
      })
unfolding write
write-ok b vs v h = ground (arith, copy_in-ok b b.position vs)

pub read-ok :
    (b : Buffer) (n : ℕ)
    → IsValid b
    → n ≤ b.limit - b.position
    → read b n ≡ ok (slice b.data_bytes b.position n, record b { position = b.position + n })
unfolding read
read-ok b n v h = ground (arith, copy_out-ok b b.position n)

-- A buffer that `buffer_create` returns is valid and ready to be written to its capacity.
pub create-IsValid :
    (allocator memory : Bool) (capacity : ℕ) (b : Buffer)
    → capacity < 2 ^ 63
    → create allocator memory capacity ≡ some b
    → IsValid b × (b.position ≡ 0) × (b.limit ≡ capacity)
unfolding create
create-IsValid allocator memory capacity b h e =
    ground (arith, length-replicate {A = ℕ} capacity 0, zeros capacity)
  where
    zeros : (n : ℕ) → All IsByte (replicate n 0)
    zeros zero = tt
    zeros (suc n) = (omega arith, zeros n)

-- A single byte stored within the data keeps the buffer valid.
store-IsValid : (b b' : Buffer) (i v : ℕ) → IsValid b → v < 256 → store b i v ≡ ok b' → IsValid b'
unfolding store
store-IsValid b b' i v w h e =
    ground (arith, length-set b.data_bytes i v, All-set IsByte b.data_bytes i v w.bytes h)

-- The calls of buffer.c that move the cursor or the limit, or write a number or bytes. All of them
-- check their place but `buffer_read_u8`, `buffer_read_u16` and `buffer_read_u32`, which move the cursor
-- behind the limit when fewer bytes remain: their callers have to see that there are as many.
pub data Step : Buffer → Buffer → Type 0 where
  clears : (b : Buffer) → Step b (clear b)
  flips : (b : Buffer) → Step b (flip b)
  rewinds : (b : Buffer) → Step b (rewind b)
  sets_position : (b b' : Buffer) (pos : ℕ) → set_position b pos ≡ ok b' → Step b b'
  sets_limit : (b b' : Buffer) (limit : ℕ) → set_limit b limit ≡ ok b' → Step b b'
  skips : (b b' : Buffer) (count : ℕ) → skip b count ≡ ok b' → Step b b'
  writes : (b b' : Buffer) (vs : List ℕ) → All IsByte vs → write b vs ≡ ok b' → Step b b'
  writes_u8 : (b b' : Buffer) (v : ℕ) → v < 256 → write_u8 b v ≡ ok b' → Step b b'
  writes_u16 : (b b' : Buffer) (v : ℕ) → write_u16 b v ≡ ok b' → Step b b'
  writes_u32 : (b b' : Buffer) (v : ℕ) → write_u32 b v ≡ ok b' → Step b b'
  writes_u8_at : (b b' : Buffer) (at v : ℕ) → v < 256 → write_u8_at b at v ≡ ok b' → Step b b'
  writes_u16_at : (b b' : Buffer) (at v : ℕ) → write_u16_at b at v ≡ ok b' → Step b b'
  writes_u32_at : (b b' : Buffer) (at v : ℕ) → write_u32_at b at v ≡ ok b' → Step b b'
  reads : (b b' : Buffer) (n : ℕ) (vs : List ℕ) → read b n ≡ ok (vs, b') → Step b b'
  reads_u8 : (b b' : Buffer) (v : ℕ) → b.position + 1 ≤ b.limit → read_u8 b ≡ ok (v, b') → Step b b'
  reads_u16 :
      (b b' : Buffer) (v : ℕ) → b.position + 2 ≤ b.limit → read_u16 b ≡ ok (v, b') → Step b b'
  reads_u32 :
      (b b' : Buffer) (v : ℕ) → b.position + 4 ≤ b.limit → read_u32 b ≡ ok (v, b') → Step b b'

pub write_u16_at-IsValid :
    (b b' : Buffer) (at v : ℕ)
    → IsValid b
    → write_u16_at b at v ≡ ok b'
    → IsValid b' × (b'.position ≡ b.position) × (b'.limit ≡ b.limit) × (at + 2 ≤ b.limit)
unfolding write_u16_at
write_u16_at-IsValid b b' at v w e = ground (
  arith,
  length-set b.data_bytes at (v / 2 ^ 8 % 2 ^ 8),
  length-set (set b.data_bytes at (v / 2 ^ 8 % 2 ^ 8)) (at + 1) (v % 2 ^ 8),
  All-set IsByte b.data_bytes at (v / 2 ^ 8 % 2 ^ 8) w.bytes,
  All-set IsByte (set b.data_bytes at (v / 2 ^ 8 % 2 ^ 8)) (at + 1) (v % 2 ^ 8),
)

-- The four bytes of a number, most significant first.
abbrev pub bytes32 : ℕ → List ℕ
bytes32 v = v / 2 ^ 24 % 2 ^ 8 ∷ v / 2 ^ 16 % 2 ^ 8 ∷ v / 2 ^ 8 % 2 ^ 8 ∷ v % 2 ^ 8 ∷ []

abbrev pub bytes16 : ℕ → List ℕ
bytes16 v = v / 2 ^ 8 % 2 ^ 8 ∷ v % 2 ^ 8 ∷ []

-- The fixed-width writes are writes of the number's bytes.
pub write_u16-eq-write : (b : Buffer) (v : ℕ) → write_u16 b v ≡ write b (bytes16 v)
unfolding write_u16 write copy_in store
write_u16-eq-write b v = ground arith

pub write_u32-eq-write : (b : Buffer) (v : ℕ) → write_u32 b v ≡ write b (bytes32 v)
unfolding write_u32 write copy_in store
write_u32-eq-write b v = ground arith

pub write_u8-eq-write : (b : Buffer) (v : ℕ) → write_u8 b v ≡ write b (v ∷ [])
unfolding write_u8 write copy_in store
write_u8-eq-write b v = ground arith

-- A successful write had room.
write-room : (b b' : Buffer) (vs : List ℕ) → write b vs ≡ ok b' → length vs ≤ b.limit - b.position
unfolding write
write-room b b' vs e = ground arith

read-room :
    (b b' : Buffer) (n : ℕ) (vs : List ℕ) → read b n ≡ ok (vs, b') → n ≤ b.limit - b.position
unfolding read
read-room b b' n vs e = ground arith

write-IsValid :
    (b b' : Buffer) (vs : List ℕ) → IsValid b → All IsByte vs → write b vs ≡ ok b' → IsValid b'
write-IsValid b b' vs v p e = ground (
  arith,
  write-room b b' vs e,
  write-ok b vs v,
  length-overwrite b.data_bytes b.position vs,
  overwrite-bytes b.data_bytes b.position vs v.bytes p,
)

write_u8_at-IsValid :
    (b b' : Buffer) (at v : ℕ) → IsValid b → v < 256 → write_u8_at b at v ≡ ok b' → IsValid b'
unfolding write_u8_at
write_u8_at-IsValid b b' at v w h e =
    ground (arith, length-set b.data_bytes at v, All-set IsByte b.data_bytes at v w.bytes h)

write_u32_at-IsValid :
    (b b' : Buffer) (at v : ℕ) → IsValid b → write_u32_at b at v ≡ ok b' → IsValid b'
unfolding write_u32_at
write_u32_at-IsValid b b' at v w e =
    let b3 = set b.data_bytes at (v / 2 ^ 24 % 2 ^ 8) in
    let b2 = set b3 (at + 1) (v / 2 ^ 16 % 2 ^ 8) in
    let b1 = set b2 (at + 2) (v / 2 ^ 8 % 2 ^ 8) in
    let a3 = All-set IsByte b.data_bytes at (v / 2 ^ 24 % 2 ^ 8) w.bytes (omega arith) in
    let a2 = All-set IsByte b3 (at + 1) (v / 2 ^ 16 % 2 ^ 8) a3 (omega arith) in
    let a1 = All-set IsByte b2 (at + 2) (v / 2 ^ 8 % 2 ^ 8) a2 (omega arith) in
    ground (
      arith,
      length-set b.data_bytes at (v / 2 ^ 24 % 2 ^ 8),
      length-set b3 (at + 1) (v / 2 ^ 16 % 2 ^ 8),
      length-set b2 (at + 2) (v / 2 ^ 8 % 2 ^ 8),
      length-set b1 (at + 3) (v % 2 ^ 8),
      All-set IsByte b1 (at + 3) (v % 2 ^ 8) a1 (omega arith),
    )

read_ok :
    (r : Result ℕ) (b b' : Buffer) (v : ℕ)
    → ◌>>=◌ {B = ℕ × Buffer} r (λ x. ok (x, b)) ≡ ok (v, b')
    → b' ≡ b
read_ok (ok x) b b' v e = cc
read_ok (err fault) b b' v e = absurd cc

-- A read of so many bytes only moves the cursor.
advance-IsValid :
    (b : Buffer) (n : ℕ) → IsValid b → b.position + n ≤ b.limit → IsValid (advance b n)
unfolding advance
advance-IsValid b n v h = ground arith

read_u8-advance : (b b' : Buffer) (v : ℕ) → read_u8 b ≡ ok (v, b') → b' ≡ advance b 1
unfolding read_u8
read_u8-advance b b' v e = read_ok (read_u8_at b b.position) (advance b 1) b' v e

read_u16-advance : (b b' : Buffer) (v : ℕ) → read_u16 b ≡ ok (v, b') → b' ≡ advance b 2
unfolding read_u16
read_u16-advance b b' v e = read_ok (read_u16_at b b.position) (advance b 2) b' v e

read_u32-advance : (b b' : Buffer) (v : ℕ) → read_u32 b ≡ ok (v, b') → b' ≡ advance b 4
unfolding read_u32
read_u32-advance b b' v e = read_ok (read_u32_at b b.position) (advance b 4) b' v e

-- Every call of `Step` that returns keeps a valid buffer valid: those that check their place whatever
-- they are asked, and `buffer_read_u8`, `buffer_read_u16` and `buffer_read_u32`, which do not, when at
-- least as many bytes remain before the limit.
pub Step-IsValid : {b b' : Buffer} → Step b b' → IsValid b → IsValid b'
unfolding clear flip rewind set_position set_limit skip
Step-IsValid (clears b) v = ground arith
Step-IsValid (flips b) v = ground arith
Step-IsValid (rewinds b) v = ground arith
Step-IsValid (sets_position b b' pos e) v = ground arith
Step-IsValid (sets_limit b b' limit e) v = ground arith
Step-IsValid (skips b b' count e) v = ground arith
Step-IsValid (writes b b' vs p e) v = write-IsValid b b' vs v p e
Step-IsValid (writes_u8 b b' x h e) v =
    write-IsValid b b' (x ∷ []) v (h, tt) (sym (write_u8-eq-write b x) ∙ e)
Step-IsValid (writes_u16 b b' x e) v =
    write-IsValid b b' (bytes16 x) v (omega arith) (sym (write_u16-eq-write b x) ∙ e)
Step-IsValid (writes_u32 b b' x e) v =
    write-IsValid b b' (bytes32 x) v (omega arith) (sym (write_u32-eq-write b x) ∙ e)
Step-IsValid (writes_u16_at b b' at x e) v = (write_u16_at-IsValid b b' at x v e).0
Step-IsValid (writes_u8_at b b' at x h e) v = write_u8_at-IsValid b b' at x v h e
Step-IsValid (writes_u32_at b b' at x e) v = write_u32_at-IsValid b b' at x v e
Step-IsValid (reads b b' n vs e) v = ground (arith, read-room b b' n vs e, read-ok b n v)
Step-IsValid (reads_u8 b b' x h e) v =
    subst IsValid (sym (read_u8-advance b b' x e)) (advance-IsValid b 1 v h)
Step-IsValid (reads_u16 b b' x h e) v =
    subst IsValid (sym (read_u16-advance b b' x e)) (advance-IsValid b 2 v h)
Step-IsValid (reads_u32 b b' x h e) v =
    subst IsValid (sym (read_u32-advance b b' x e)) (advance-IsValid b 4 v h)
