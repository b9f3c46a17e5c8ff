-- ===== src/Wire/Buffer/Dname/Safe.antt =====
-- `buffer_read_dname` on untrusted packets: it ends, stops no process and leaves no memory.
use opendnssec_workflow_test.Common.{
  ℕ, zero, suc, ◌+◌, ◌-◌, ◌/◌, ◌^◌, ◌≤◌, ◌<◌, ◌≡◌, refl, ap, ◌∙◌, ◌⊎◌, inl, inr, Bool, true, false,
  List, [], ◌∷◌, Option, none, some, arith, leb, length, get_or, All, length-append, Bool-cases,
  Option-cases,
}
use opendnssec_workflow_test.Common.Result.{Result, ok, err, overrun}
use opendnssec_workflow_test.Wire.Buffer.{Buffer, set_position, skip, available, read_at}
use opendnssec_workflow_test.Wire.Buffer.Valid.{IsByte, IsValid, slice, load-ok, read-ok}
use opendnssec_workflow_test.Wire.Buffer.Bits.{
  get_bit, set_bit, set_bit-bytes, length-set_bit, unset, unset-set_bit, unset-le,
}
use opendnssec_workflow_test.Wire.Buffer.Dname.{
  Walk, Dname, Round, refuse, done, again, visited_at, jump, location, check_jump, follow,
  copy_label, take_label, dispatch, visit, round, finish, refused, loop, read_dname, zeroed,
  clear_visited, pointer_location, max_domain_len,
}

abbrev MarkOk : ℕ → Option ℕ → Type 0
MarkOk limit none = Unit
MarkOk limit (some m) = m ≤ limit

record WalkOk (limit : ℕ) (w : Walk) : Type 0 where
  valid : IsValid w.buffer
  limit_is : w.buffer.limit ≡ limit
  room : limit ≤ 65536
  array : length w.visited ≡ 8192
  bytes : All IsByte w.visited
  short : length w.dname ≤ max_domain_len
  marked : MarkOk limit w.mark

length-slice : (xs : List ℕ) (at n : ℕ) → length (slice xs at n) ≡ n
length-slice xs at zero = refl
length-slice xs at (suc n) = ap suc (length-slice xs (at + 1) n)

available-ok : (b : Buffer) (n : ℕ) → IsValid b → available b n ≡ ok (leb n (b.limit - b.position))
unfolding available
available-ok b n v = ground arith

-- The round neither faults nor changes the visited places.
abbrev Kept : ℕ → List ℕ → Result Round → Type 0
Kept limit v (ok (refuse w)) = WalkOk limit w
Kept limit v (ok (done w)) = WalkOk limit w
Kept limit v (ok (again w)) = WalkOk limit w × (w.visited ≡ v)
Kept limit v (err e) = ⊥

jump-Kept :
    (limit : ℕ) (w : Walk) (pointer : ℕ)
    → WalkOk limit w
    → w.buffer.position + 2 ≤ limit
    → pointer < limit
    → Kept limit w.visited (jump w pointer)
unfolding jump skip set_position
jump-Kept limit w pointer o h p = ground arith

location-ok :
    (limit : ℕ) (w : Walk)
    → WalkOk limit w
    → w.buffer.position + 2 ≤ limit
    → (p : ℕ) × (location w ≡ ok p)
unfolding location
location-ok limit w o h = (
  pointer_location (get_or w.buffer.data_bytes w.buffer.position 0)
      (get_or w.buffer.data_bytes (w.buffer.position + 1) 0),
  ground (arith, load-ok w.buffer w.buffer.position, load-ok w.buffer (w.buffer.position + 1)),
)

check_jump-Kept :
    (limit : ℕ) (w : Walk)
    → WalkOk limit w
    → w.buffer.position + 2 ≤ limit
    → Kept limit w.visited (check_jump w)
unfolding check_jump
check_jump-Kept limit w o h =
    let (p, e) = location-ok limit w o h in rw e (ground (arith, jump-Kept limit w p))

follow-Kept :
    (limit : ℕ) (allow : Bool) (w : Walk) → WalkOk limit w → Kept limit w.visited (follow allow w)
unfolding follow
follow-Kept limit false w o = o
follow-Kept limit true w o =
    rw (available-ok w.buffer 2 o.valid) (ground (arith, check_jump-Kept limit w o))

copy_label-Kept :
    (limit first : ℕ) (w : Walk)
    → WalkOk limit w
    → w.buffer.position + (first + 1) ≤ limit
    → length w.dname + (first + 1) ≤ max_domain_len
    → Kept limit w.visited (copy_label first w)
unfolding copy_label
copy_label-Kept limit first w o h s = rw (read-ok w.buffer (first + 1) o.valid (ground arith)) (
    ground (
      arith,
      length-append w.dname (slice w.buffer.data_bytes w.buffer.position (first + 1)),
      length-slice w.buffer.data_bytes w.buffer.position (first + 1),
    ))

take_label-Kept :
    (limit first : ℕ) (w : Walk) → WalkOk limit w → Kept limit w.visited (take_label first w)
unfolding take_label
take_label-Kept limit first w o =
    rw (available-ok w.buffer (first + 1) o.valid) (ground (arith, copy_label-Kept limit first w o))

dispatch-Kept :
    (limit : ℕ) (allow : Bool) (w : Walk)
    → WalkOk limit w
    → w.buffer.position < limit
    → Kept limit w.visited (dispatch allow w)
unfolding dispatch read_at
dispatch-Kept limit allow w o h =
    let first = get_or w.buffer.data_bytes w.buffer.position 0 in
    ground (
      arith,
      load-ok w.buffer w.buffer.position,
      follow-Kept limit allow w o,
      take_label-Kept limit first w o,
    )

-- A round that goes on has one unvisited place fewer.
abbrev Progress : ℕ → ℕ → Result Round → Type 0
Progress limit n (ok (refuse w)) = WalkOk limit w
Progress limit n (ok (done w)) = WalkOk limit w
Progress limit n (ok (again w)) = WalkOk limit w × (unset w.visited limit < n)
Progress limit n (err e) = ⊥

progress :
    (limit n : ℕ) (v : List ℕ) (r : Result Round)
    → unset v limit < n
    → Kept limit v r
    → Progress limit n r
progress limit n v (ok (refuse w)) h k = k
progress limit n v (ok (done w)) h k = k
progress limit n v (ok (again w)) h k = (k.0, rw (k.1) h)
progress limit n v (err e) h k = k

marked_visited : Walk → Walk
marked_visited w = record w { visited = set_bit w.visited w.buffer.position }

marked_visited-WalkOk : (limit : ℕ) (w : Walk) → WalkOk limit w → WalkOk limit (marked_visited w)
unfolding marked_visited
marked_visited-WalkOk limit w o = record {
  valid = o.valid;
  limit_is = o.limit_is;
  room = o.room;
  array = length-set_bit w.visited w.buffer.position ∙ o.array;
  bytes = set_bit-bytes w.visited w.buffer.position o.bytes;
  short = o.short;
  marked = o.marked;
}

visit-Progress :
    (limit : ℕ) (allow : Bool) (w : Walk)
    → WalkOk limit w
    → w.buffer.position < limit
    → Progress limit (unset w.visited limit) (visit allow w)
unfolding visit visited_at marked_visited
visit-Progress limit allow w o h = elim (Bool-cases (get_bit w.visited w.buffer.position)) [
  | inl seen ↦ ground arith
  | inr new ↦
      let fewer : unset (set_bit w.visited w.buffer.position) limit < unset w.visited limit =
        omega
          (arith, unset-set_bit w.visited w.buffer.position limit o.bytes (ground arith) h new) in
      ground (
        arith,
        progress limit (unset w.visited limit) (set_bit w.visited w.buffer.position)
            (dispatch allow (marked_visited w)) fewer
            (dispatch-Kept limit allow (marked_visited w) (marked_visited-WalkOk limit w o) h),
      )
]

round-Progress :
    (limit : ℕ) (allow : Bool) (w : Walk)
    → WalkOk limit w
    → Progress limit (unset w.visited limit) (round allow w)
unfolding round
round-Progress limit allow w o =
    rw (available-ok w.buffer 1 o.valid) (ground (arith, visit-Progress limit allow w o))

-- What a caller finds: a result of at most `MAXDOMAINLEN`, which is the number of bytes written or 0,
-- no byte written behind `dname[MAXDOMAINLEN]`, and a valid buffer with the same limit.
pub record DnameOk (limit : ℕ) (d : Dname) : Type 0 where
  pub valid : IsValid d.buffer
  pub limit_is : d.buffer.limit ≡ limit
  pub written : length d.dname ≤ max_domain_len
  pub result : (d.dname_length ≡ 0) ⊎ (d.dname_length ≡ length d.dname)

finish-ok :
    (limit : ℕ) (w : Walk) → WalkOk limit w → (d : Dname) × (finish w ≡ ok d) × DnameOk limit d
unfolding finish set_position
finish-ok limit w o = elim (Option-cases w.mark) [
  | inl e ↦ (
    record { dname_length = length w.dname; dname = w.dname; buffer = w.buffer },
    ground arith,
    record { valid = o.valid; limit_is = o.limit_is; written = o.short; result = inr refl },
  )
  | inr (m, e) ↦ (
    record {
      dname_length = length w.dname;
      dname = w.dname;
      buffer = record w.buffer { position = m };
    },
    ground (arith, o.marked),
    ground (arith, o.marked),
  )
]

abbrev pub Ends : ℕ → Option (Result Dname) → Type 0
Ends limit r = (d : Dname) × (r ≡ some (ok d)) × DnameOk limit d

loop_next :
    (limit fuel : ℕ) (allow : Bool) (w : Walk) (r : Result Round)
    → round allow w ≡ r
    → Progress limit (unset w.visited limit) r
    → ((w' : Walk)
        → unset w'.visited limit < unset w.visited limit
        → WalkOk limit w'
        → Ends limit (loop fuel allow w'))
    → Ends limit (loop (suc fuel) allow w)
unfolding loop refused
loop_next limit fuel allow w (ok (refuse w')) e p ih = (
  refused w',
  rw (e, loop) refl,
  record { valid = p.valid; limit_is = p.limit_is; written = p.short; result = inl refl },
)
loop_next limit fuel allow w (ok (done w')) e p ih =
    let (d, q, k) = finish-ok limit w' p in (d, rw (e, loop) (ap some q), k)
loop_next limit fuel allow w (ok (again w')) e p ih = rw (e, loop) (ih w' p.1 p.0)
loop_next limit fuel allow w (err f) e p ih = absurd p

loop-Ends :
    (limit fuel : ℕ) (allow : Bool) (w : Walk)
    → unset w.visited limit < fuel
    → WalkOk limit w
    → Ends limit (loop fuel allow w)
loop-Ends limit zero allow w h o = absurd (omega arith)
loop-Ends limit (suc fuel) allow w h o =
    loop_next limit fuel allow w (round allow w) refl (round-Progress limit allow w o)
      λ w' lt o'. loop-Ends limit fuel allow w' (omega arith) o'

zeroed-bytes : (n : ℕ) (bits : List ℕ) → All IsByte bits → All IsByte (zeroed n bits)
unfolding zeroed
zeroed-bytes zero bits a = a
zeroed-bytes (suc n) [] a = tt
zeroed-bytes (suc n) (v ∷ bits) a = (omega arith, zeroed-bytes n bits a.1)

length-zeroed : (n : ℕ) (bits : List ℕ) → length (zeroed n bits) ≡ length bits
unfolding zeroed
length-zeroed zero bits = refl
length-zeroed (suc n) [] = refl
length-zeroed (suc n) (v ∷ bits) = ap suc (length-zeroed n bits)

-- On every valid buffer whose limit is at most 2 ^ 16, whatever bytes it and the stack hold,
-- `buffer_read_dname` ends within one round more than there are places before the limit: no assertion
-- fails, nothing outside the packet and `visited` is touched, at most 255 bytes of `dname` are
-- written, the result is their number or 0, and the buffer stays valid with the same limit.
pub read_dname_total :
    (b : Buffer) (stack : List ℕ) (allow : Bool) (fuel : ℕ)
    → IsValid b
    → b.limit ≤ 2 ^ 16
    → length stack ≡ 8192
    → All IsByte stack
    → b.limit < fuel
    → Ends b.limit (read_dname fuel stack b allow)
unfolding read_dname clear_visited
read_dname_total b stack allow fuel v room size bytes h =
    let visited = zeroed ((b.limit + 7) / 8) stack in
    let w : Walk = record { visited = visited; dname = []; mark = none; buffer = b } in
    let o : WalkOk b.limit w = record {
      valid = v;
      limit_is = refl;
      room = room;
      array = length-zeroed ((b.limit + 7) / 8) stack ∙ size;
      bytes = zeroed-bytes ((b.limit + 7) / 8) stack bytes;
      short = omega arith;
      marked = tt;
    } in
    ground (arith, loop-Ends b.limit fuel allow w (omega (arith, unset-le visited b.limit)) o)

-- A limit above 2 ^ 16 makes the `memset` write behind `visited`.
pub read_dname_large :
    (b : Buffer) (stack : List ℕ) (allow : Bool) (fuel : ℕ)
    → length stack ≡ 8192
    → 2 ^ 16 < b.limit
    → read_dname fuel stack b allow ≡ some (err overrun)
unfolding read_dname clear_visited
read_dname_large b stack allow fuel size h = ground arith
