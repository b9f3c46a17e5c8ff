-- ===== src/Wire/Tcpset.antt =====
-- signer/src/wire/tcpset.c: a DNS message over a TCP connection, behind its length in two bytes, read
-- and written piece by piece. What read() and write() answer is an argument of the functions.
pub mod Deliver
pub mod Filling
pub mod Receive
pub mod Send
mod Tests
use opendnssec_workflow_test.Common.{
  ℕ, zero, suc, ◌+◌, ◌-◌, ◌*◌, ◌/◌, ◌%◌, ◌^◌, Bool, true, false, List, [], ◌∷◌, ◌++◌, Option, none,
  some, ltb, ◌==◌, if◌then◌else◌, length, get_or, take, drop,
}
use opendnssec_workflow_test.Common.Int.{ℤ, pos, negsuc}
use opendnssec_workflow_test.Common.Result.{Result, ok, err, assertion, ◌>>=◌, ◌>>◌, require}
use opendnssec_workflow_test.Wire.Buffer.{
  Buffer, create, clear, set_limit, skip, remaining, copy_in,
}
use opendnssec_workflow_test.Wire.Buffer.Valid.{overwrite}

-- `PACKET_BUFFER_SIZE`
abbrev pub packet_buffer_size : ℕ
packet_buffer_size = 65535 + (255 + 4 + 4 * 2 + 65535)

-- `tcp_conn_type`. The bytes that are read into `msglen`, before ntohs(), are `length_bytes`.
pub record Conn : Type 0 where
  pub fd : ℤ
  pub total_bytes : ℕ
  pub length_bytes : List ℕ
  pub msglen : ℕ
  pub packet : Buffer

-- What read() answers: it would block (EAGAIN, EINTR); another error; bytes, none at the end.
pub data Input : Type 0 where
  blocked failed : Input
  got : List ℕ → Input

-- What write() answers: in the same way, or how many bytes it took.
pub data Output : Type 0 where
  blocked failed : Output
  sent : ℕ → Output

-- What the functions answer: 0, 1 and -1.
pub data Answer : Type 0 where
  later complete lost : Answer

-- `tcp_conn_create`: whether an allocator is given, and whether it finds memory twice.
pub tcp_conn_create : Bool → Bool → Bool → Option Conn
tcp_conn_create allocator memory packet_memory =
    if allocator
    then if memory
      then elim (create allocator packet_memory packet_buffer_size) [
        | none ↦ none
        | some packet ↦ some (record {
          fd = negsuc 0;
          total_bytes = 0;
          length_bytes = 0 ∷ 0 ∷ [];
          msglen = 0;
          packet = packet;
        })
      ]
      else none
    else none

-- `tcp_conn_ready`
pub tcp_conn_ready : Conn → Conn
tcp_conn_ready c = record c {
  total_bytes = 0;
  length_bytes = 0 ∷ 0 ∷ [];
  msglen = 0;
  packet = clear c.packet;
}

-- `tcp->fd != -1`
abbrev pub opened : ℤ → Bool
opened (pos n) = true
opened (negsuc zero) = false
opened (negsuc (suc n)) = true

-- `uint32_t` addition.
abbrev pub add32 : ℕ → ℕ → ℕ
add32 a b = (a + b) % 2 ^ 32

-- Bytes of the message itself, behind the answer of read().
pub take_bytes : Conn → List ℕ → Result (Answer × Conn)
take_bytes c bytes = do
  filled ← copy_in c.packet c.packet.position bytes
  packet ← skip filled (length bytes)
  left ← remaining packet
  let c' : Conn = record c { total_bytes = add32 c.total_bytes (length bytes); packet = packet } in
      if ltb 0 left
      then ok (later, c')
      else do require (packet.position == c.msglen) assertion; ok (complete, c')

-- The second half of `tcp_conn_read`, from its assertion on.
pub read_packet : Input → Conn → Result (Answer × Conn)
read_packet input c = do
  left ← remaining c.packet
  require (ltb 0 left) assertion
  elim input [
    | blocked ↦ ok (later, c)
    | failed ↦ ok (lost, c)
    | got [] ↦ ok (lost, c)
    | got (b ∷ bytes) ↦ take_bytes c (b ∷ bytes)
  ]

-- ntohs() of the two bytes.
abbrev pub ntohs : List ℕ → ℕ
ntohs bytes = get_or bytes 0 0 * 2 ^ 8 + get_or bytes 1 0

-- Bytes of the length, behind the answer of read(); then the message, if the length is complete.
pub take_length : Conn → List ℕ → Input → Result (Answer × Conn)
take_length c bytes input =
    let c1 : Conn = record c {
      length_bytes = overwrite c.length_bytes c.total_bytes bytes;
      total_bytes = add32 c.total_bytes (length bytes);
    } in
    if ltb c1.total_bytes 2 then ok (later, c1) else do
      require (c1.total_bytes == 2) assertion
      let c2 : Conn = record c1 { msglen = ntohs c1.length_bytes } in
          if ltb c2.packet.capacity c2.msglen then ok (later, c2) else do
            packet ← set_limit c2.packet c2.msglen
            read_packet input (record c2 { packet = packet })

-- `tcp_conn_read`: what read() answers for the length, if it is called, and for the message.
pub tcp_conn_read : Input → Input → Conn → Result (Answer × Conn)
tcp_conn_read for_length input c = do
  require (opened c.fd) assertion
  if ltb c.total_bytes 2
      then elim for_length [
        | blocked ↦ ok (later, c)
        | failed ↦ ok (lost, c)
        | got [] ↦ ok (lost, c)
        | got (b ∷ bytes) ↦ take_length c (b ∷ bytes) input
      ]
      else read_packet input c

-- htons() of `msglen`.
abbrev pub htons : ℕ → List ℕ
htons v = v / 2 ^ 8 % 2 ^ 8 ∷ v % 2 ^ 8 ∷ []

-- The result of a write: the answer, the connection, and the bytes that have left.
pub record Written : Type 0 where
  pub answer : Answer
  pub conn : Conn
  pub out : List ℕ

abbrev pub wrote : Answer → Conn → List ℕ → Written
wrote answer c out = record { answer = answer; conn = c; out = out }

-- The second half of `tcp_conn_write`, from its assertion on.
pub write_packet : Output → Conn → Result Written
write_packet output c = do
  require (ltb c.total_bytes (c.msglen + 2)) assertion
  left ← remaining c.packet
  elim output [
    | blocked ↦ ok (wrote later c [])
    | failed ↦ ok (wrote lost c [])
    | sent n ↦ do
      packet ← skip c.packet n
      let c' : Conn = record c { packet = packet; total_bytes = add32 c.total_bytes n } in
          let out = take n (drop c.packet.position c.packet.data_bytes) in
          if ltb c'.total_bytes (c'.msglen + 2)
          then ok (wrote later c' out)
          else do require (c'.total_bytes == c'.msglen + 2) assertion; ok (wrote complete c' out)
  ]

-- `tcp_conn_write`: what write() answers for the length, if it is called, and for the message.
pub tcp_conn_write : Output → Output → Conn → Result Written
tcp_conn_write for_length output c = do
  require (opened c.fd) assertion
  if ltb c.total_bytes 2
      then elim for_length [
        | blocked ↦ ok (wrote later c [])
        | failed ↦ ok (wrote lost c [])
        | sent n ↦
            let c1 : Conn = record c { total_bytes = add32 c.total_bytes n } in
            let out = take n (drop c.total_bytes (htons c.msglen)) in
            if ltb c1.total_bytes 2 then ok (wrote later c1 out) else do
              require (c1.total_bytes == 2) assertion
              w ← write_packet output c1
              ok (wrote w.answer w.conn (out ++ w.out))
      ]
      else write_packet output c
