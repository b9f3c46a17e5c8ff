-- ===== src/Wire/Buffer/Packet.antt =====
-- Packets in buffer.c: the header's fields and the new packets. The data of an rdf is its bytes.
pub mod Flags
use Prim.Native.Nat.{bit_and, bit_or}
use opendnssec_workflow_test.Common.{ℕ, ◌+◌, ◌-◌, ◌*◌, ◌/◌, ◌%◌, ◌^◌, not, List, ◌==◌}
use opendnssec_workflow_test.Common.Result.{Result, ok, assertion, ◌>>=◌, ◌>>◌, require}
use opendnssec_workflow_test.Wire.Buffer.{
  Buffer, clear, skip, read_at, write_at, write_u16_at, read_u16_at, write, write_u16,
}

-- `~mask`, of an `unsigned int`
abbrev pub not32 : ℕ → ℕ
not32 mask = 2 ^ 32 - 1 - mask

-- `*buffer_at(packet, at) & mask`
unfoldable pub bits_at : Buffer → ℕ → ℕ → Result ℕ
bits_at b at mask = do v ← read_at b at; ok (bit_and v mask)

-- An assignment to `*buffer_at(packet, at)` of a value that is made of the old one.
unfoldable pub change_at : Buffer → ℕ → (ℕ → ℕ) → Result Buffer
change_at b at change = do v ← read_at b at; write_at b at (change v % 2 ^ 8)

-- `QR`, `OPCODE`, `AA`, `TC`, `RD`, `RA`, `AD`, `CD`, `RCODE`
abbrev pub pkt_qr : Buffer → Result ℕ
pkt_qr b = bits_at b 2 0x80

abbrev pub pkt_opcode : Buffer → Result ℕ
pkt_opcode b = do v ← bits_at b 2 0x78; ok (v / 2 ^ 3)

abbrev pub pkt_aa : Buffer → Result ℕ
pkt_aa b = bits_at b 2 0x04

abbrev pub pkt_tc : Buffer → Result ℕ
pkt_tc b = bits_at b 2 0x02

abbrev pub pkt_rd : Buffer → Result ℕ
pkt_rd b = bits_at b 2 0x01

abbrev pub pkt_ra : Buffer → Result ℕ
pkt_ra b = bits_at b 3 0x80

abbrev pub pkt_ad : Buffer → Result ℕ
pkt_ad b = bits_at b 3 0x20

abbrev pub pkt_cd : Buffer → Result ℕ
pkt_cd b = bits_at b 3 0x10

abbrev pub pkt_rcode : Buffer → Result ℕ
pkt_rcode b = bits_at b 3 0x0f

-- `QR_SET`, `QR_CLR`, `OPCODE_SET`, `AA_SET`, `RCODE_SET`
unfoldable pub pkt_set_qr : Buffer → Result Buffer
pkt_set_qr b = change_at b 2 (λ v. bit_or v 0x80)

unfoldable pub pkt_clear_qr : Buffer → Result Buffer
pkt_clear_qr b = change_at b 2 (λ v. bit_and v (not32 0x80))

unfoldable pub pkt_set_opcode : Buffer → ℕ → Result Buffer
pkt_set_opcode b opcode =
    change_at b 2 (λ v. bit_or (bit_and v (not32 0x78)) (opcode * 2 ^ 3 % 2 ^ 32))

unfoldable pub pkt_set_aa : Buffer → Result Buffer
pkt_set_aa b = change_at b 2 (λ v. bit_or v 0x04)

unfoldable pub pkt_set_rcode : Buffer → ℕ → Result Buffer
pkt_set_rcode b rcode = change_at b 3 (λ v. bit_or (bit_and v (not32 0x0f)) rcode)

-- `buffer_pkt_id`, `buffer_pkt_flags` and the four counts, each with its setter. `qid` is what
-- `ldns_get_random` returns.
abbrev pub pkt_id : Buffer → Result ℕ
pkt_id b = read_u16_at b 0

abbrev pub pkt_set_random_id : Buffer → ℕ → Result Buffer
pkt_set_random_id b qid = write_u16_at b 0 qid

abbrev pub pkt_flags : Buffer → Result ℕ
pkt_flags b = read_u16_at b 2

abbrev pub pkt_set_flags : Buffer → ℕ → Result Buffer
pkt_set_flags b flags = write_u16_at b 2 flags

abbrev pub pkt_qdcount : Buffer → Result ℕ
pkt_qdcount b = read_u16_at b 4

abbrev pub pkt_set_qdcount : Buffer → ℕ → Result Buffer
pkt_set_qdcount b count = write_u16_at b 4 count

abbrev pub pkt_ancount : Buffer → Result ℕ
pkt_ancount b = read_u16_at b 6

abbrev pub pkt_set_ancount : Buffer → ℕ → Result Buffer
pkt_set_ancount b count = write_u16_at b 6 count

abbrev pub pkt_nscount : Buffer → Result ℕ
pkt_nscount b = read_u16_at b 8

abbrev pub pkt_set_nscount : Buffer → ℕ → Result Buffer
pkt_set_nscount b count = write_u16_at b 8 count

abbrev pub pkt_arcount : Buffer → Result ℕ
pkt_arcount b = read_u16_at b 10

abbrev pub pkt_set_arcount : Buffer → ℕ → Result Buffer
pkt_set_arcount b count = write_u16_at b 10 count

-- The question record, behind the header.
unfoldable pub write_question : Buffer → List ℕ → ℕ → ℕ → Result Buffer
write_question b0 qname qtype qclass = do
  b1 ← skip b0 12
  b2 ← write b1 qname
  b3 ← write_u16 b2 qtype
  write_u16 b3 qclass

-- `buffer_pkt_new`
unfoldable pub pkt_new : Buffer → ℕ → List ℕ → ℕ → ℕ → ℕ → Result Buffer
pkt_new b qid qname qtype qclass opcode = do
  require (not (qtype == 0)) assertion
  require (not (qclass == 0)) assertion
  b1 ← pkt_set_random_id (clear b) qid
  b2 ← pkt_set_opcode b1 opcode
  b3 ← pkt_clear_qr b2
  b4 ← pkt_set_rcode b3 0
  b5 ← pkt_set_qdcount b4 1
  b6 ← pkt_set_ancount b5 0
  b7 ← pkt_set_nscount b6 0
  b8 ← pkt_set_arcount b7 0
  write_question b8 qname qtype qclass

-- `buffer_pkt_query`, `buffer_pkt_notify`, `buffer_pkt_axfr`: with the numbers of `LDNS_PACKET_QUERY`,
-- `LDNS_PACKET_NOTIFY`, `LDNS_RR_TYPE_SOA` and `LDNS_RR_TYPE_AXFR`.
pub pkt_query : Buffer → ℕ → List ℕ → ℕ → ℕ → Result Buffer
pkt_query b qid qname qtype qclass = do b' ← pkt_new b qid qname qtype qclass 0; pkt_set_flags b' 0

pub pkt_notify : Buffer → ℕ → List ℕ → ℕ → Result Buffer
pkt_notify b qid qname qclass = pkt_new b qid qname 6 qclass 4

pub pkt_axfr : Buffer → ℕ → List ℕ → ℕ → Result Buffer
pkt_axfr b qid qname qclass = do b' ← pkt_new b qid qname 252 qclass 0; pkt_set_qr b'
