-- ===== src/Wire/Buffer/Dname.antt =====
-- Domain names in buffer.c: `buffer_read_dname` and `buffer_skip_dname`.
-- A loop has fuel, and gives `none` when that runs out.
pub mod Safe
pub mod Skip
use Prim.Native.Nat.{bit_and, bit_or}
use opendnssec_workflow_test.Common.{
  ℕ, zero, suc, ◌+◌, ◌*◌, ◌/◌, ◌%◌, ◌^◌, Bool, true, false, not, ◌&&◌, List, [], ◌∷◌, ◌++◌, Option,
  none, some, ltb, leb, ◌==◌, if◌then◌else◌, length, get_or, replicate,
}
use opendnssec_workflow_test.Common.Result.{
  Result, ok, err, Fault, assertion, overrun, ◌>>=◌, ◌>>◌, require,
}
use opendnssec_workflow_test.Wire.Buffer.{
  Buffer, set_position, skip, available, read_at, load, read, read_u8, read_u16, advance,
}
use opendnssec_workflow_test.Wire.Buffer.Bits.{get_bit, set_bit}

-- `MAX_PACKET_SIZE` and `MAXDOMAINLEN`
abbrev pub max_packet_size : ℕ
max_packet_size = 65535

abbrev pub max_domain_len : ℕ
max_domain_len = 255

-- `label_is_pointer`, `label_is_normal`, of the label's first byte
abbrev pub is_pointer : ℕ → Bool
is_pointer first = bit_and first 0xc0 == 0xc0

abbrev pub is_normal : ℕ → Bool
is_normal first = bit_and first 0xc0 == 0

-- `label_pointer_location`
unfoldable pub pointer_location : ℕ → ℕ → ℕ
pointer_location first second = bit_or (bit_and first 0x3f * 2 ^ 8) second

-- `memset(bits, 0, n)`
unfoldable pub zeroed : ℕ → List ℕ → List ℕ
zeroed zero bits = bits
zeroed (suc n) [] = []
zeroed (suc n) (v ∷ bits) = 0 ∷ zeroed n bits

-- `uint8_t visited[(MAX_PACKET_SIZE+7)/8]`, of which the `memset` clears `(limit+7)/8` bytes; the
-- others hold what was on the stack.
unfoldable pub clear_visited : List ℕ → ℕ → Result (List ℕ)
clear_visited stack limit =
    if leb ((limit + 7) / 8) (length stack)
    then ok (zeroed ((limit + 7) / 8) stack)
    else err overrun

-- What `buffer_read_dname` leaves: its result (0 for a name that is refused), the bytes written to
-- `dname`, and the buffer.
pub record Dname : Type 0 where
  pub dname_length : ℕ
  pub dname : List ℕ
  pub buffer : Buffer

-- What the loop carries. `mark` is the place behind the first pointer.
pub record Walk : Type 0 where
  pub visited : List ℕ
  pub dname : List ℕ
  pub mark : Option ℕ
  pub buffer : Buffer

-- How one round of the loop ends: with `return 0`, with `done`, or with another round.
pub data Round : Type 0 where
  refuse done again : Walk → Round

-- The access to `visited`, which has a fixed size.
unfoldable pub visited_at : Walk → Result Bool
visited_at w =
    if ltb (w.buffer.position / 8) (length w.visited)
    then ok (get_bit w.visited w.buffer.position)
    else err overrun

-- The branch for a pointer: the jump itself, after the checks.
unfoldable pub jump : Walk → ℕ → Result Round
jump w pointer = do
  behind ← skip w.buffer 2
  moved ← set_position behind pointer
  ok (
      again (record w {
        buffer = moved;
        mark = elim w.mark [ none ↦ some behind.position | some m ↦ some m ];
      }))

unfoldable pub location : Walk → Result ℕ
location w = do
  first ← load w.buffer w.buffer.position
  second ← load w.buffer (w.buffer.position + 1)
  ok (pointer_location first second)

unfoldable pub check_jump : Walk → Result Round
check_jump w = do
  pointer ← location w
  if leb w.buffer.limit pointer then ok (refuse w) else jump w pointer

unfoldable pub follow : Bool → Walk → Result Round
follow false w = ok (refuse w)
follow true w = do two ← available w.buffer 2; if two then check_jump w else ok (refuse w)

-- The branch for a normal label, whose first byte is its length.
unfoldable pub copy_label : ℕ → Walk → Result Round
copy_label first w = do
  (bytes, behind) ← read w.buffer (first + 1)
  let w' : Walk = record w { dname = w.dname ++ bytes; buffer = behind }
  ok (if first == 0 then done w' else again w')

unfoldable pub take_label : ℕ → Walk → Result Round
take_label first w = do
  there ← available w.buffer (first + 1)
  if there && not (leb (max_domain_len + 1) (length w.dname + (first + 1)))
      then copy_label first w
      else ok (refuse w)

-- The three kinds of labels, once the place is marked as visited.
unfoldable pub dispatch : Bool → Walk → Result Round
dispatch allow_pointers w = do
  first ← read_at w.buffer w.buffer.position
  if is_pointer first
      then follow allow_pointers w
      else if is_normal first
      then take_label first w
      else ok (refuse w)

unfoldable pub visit : Bool → Walk → Result Round
visit allow_pointers w = do
  seen ← visited_at w
  if seen
      then ok (refuse w)
      else dispatch allow_pointers (record w { visited = set_bit w.visited w.buffer.position })

unfoldable pub round : Bool → Walk → Result Round
round allow_pointers w = do
  there ← available w.buffer 1
  if there then visit allow_pointers w else ok (refuse w)

-- The end of the function.
unfoldable pub finish : Walk → Result Dname
finish w = elim w.mark [
  | none ↦ ok (record { dname_length = length w.dname; dname = w.dname; buffer = w.buffer })
  | some mark ↦ do
    back ← set_position w.buffer mark
    ok (record { dname_length = length w.dname; dname = w.dname; buffer = back })
]

unfoldable pub refused : Walk → Dname
refused w = record { dname_length = 0; dname = w.dname; buffer = w.buffer }

unfoldable pub loop : ℕ → Bool → Walk → Option (Result Dname)
unfolding finish refused
loop zero allow_pointers w = none
loop (suc fuel) allow_pointers w = elim (round allow_pointers w) [
  | err e ↦ some (err e)
  | ok (refuse w') ↦ some (ok (refused w'))
  | ok (done w') ↦ some (finish w')
  | ok (again w') ↦ loop fuel allow_pointers w'
]

-- `buffer_read_dname`; `stack` is the memory of `visited` before the `memset`.
unfoldable pub read_dname : ℕ → List ℕ → Buffer → Bool → Option (Result Dname)
read_dname fuel stack b allow_pointers = elim (clear_visited stack b.limit) [
  | err e ↦ some (err e)
  | ok visited ↦
      loop fuel allow_pointers (record { visited = visited; dname = []; mark = none; buffer = b })
]

-- How one round of `buffer_skip_dname` ends: with its result, or with another round.
pub data SkipRound : Type 0 where
  finished : Bool → Buffer → SkipRound
  onward : Buffer → SkipRound

unfoldable pub skipped : Buffer → ℕ → (Buffer → SkipRound) → Result SkipRound
skipped b count next = do b' ← skip b count; ok (next b')

-- The two branches that skip bytes, if they are there.
unfoldable pub skip_there : Buffer → ℕ → (Buffer → SkipRound) → Result SkipRound
skip_there b count next = do
  there ← available b count
  if there then skipped b count next else ok (finished false b)

unfoldable pub skip_label : ℕ → Buffer → Result SkipRound
skip_label label_size b =
    if label_size == 0
    then ok (finished true b)
    else if bit_and label_size 0xc0 == 0
    then skip_there b label_size onward
    else skip_there b 1 (finished true)

unfoldable pub skip_first : Buffer → Result SkipRound
skip_first b = do (label_size, b1) ← read_u8 b; skip_label label_size b1

unfoldable pub skip_round : Buffer → Result SkipRound
skip_round b = do there ← available b 1; if there then skip_first b else ok (finished false b)

-- `buffer_skip_dname`
unfoldable pub skip_dname : ℕ → Buffer → Option (Result (Bool × Buffer))
skip_dname zero b = none
skip_dname (suc fuel) b = elim (skip_round b) [
  | err e ↦ some (err e)
  | ok (finished r b') ↦ some (ok (r, b'))
  | ok (onward b') ↦ skip_dname fuel b'
]
