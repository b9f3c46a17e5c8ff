-- ===== src/Wire/Buffer/Tests.antt =====
-- Tests and instances for the packet buffer.
use opendnssec_workflow_test.Common.{
  false, ℕ, zero, suc, ◌≡◌, refl, true, List, [], ◌∷◌, some, replicate, All, arith,
}
use opendnssec_workflow_test.Common.Result.{ok}
use opendnssec_workflow_test.Wire.Buffer.{
  Buffer, create_from, skip, set_position, read_at, load, write, read_u8, read_u16, read_u16_at,
  advance, available,
}
use opendnssec_workflow_test.Wire.Buffer.Bits.{get_bit, set_bit}
use opendnssec_workflow_test.Wire.Buffer.Valid.{IsByte, IsValid, writes, Step-IsValid, write-ok}
use opendnssec_workflow_test.Wire.Buffer.Packet.{
  pkt_set_qr, pkt_clear_qr, pkt_set_opcode, pkt_set_aa, pkt_set_rcode,
}
use opendnssec_workflow_test.Wire.Buffer.Packet.Flags.{Flags, read_flags, Gives, set-read_flags}
use opendnssec_workflow_test.Wire.Buffer.Rr.{Rr, write_rr}
use opendnssec_workflow_test.Wire.Buffer.Rr.Whole.{write_rr-Fits}
use opendnssec_workflow_test.Wire.Buffer.Dname
use opendnssec_workflow_test.Wire.Buffer.Dname.{read_dname, skip_dname}
use opendnssec_workflow_test.Wire.Buffer.Dname.Safe.{Ends, read_dname_total}
use opendnssec_workflow_test.Wire.Buffer.Dname.Skip.{Skips, skip_dname_total}

-- Eight bytes: the name `a.bc.`, and a pointer to its second label.
abbrev packet : Buffer
packet = create_from (1 ∷ 97 ∷ 2 ∷ 98 ∷ 99 ∷ 0 ∷ 0xc0 ∷ 2 ∷ []) 8

packet-IsValid : IsValid packet
unfolding create_from
packet-IsValid = record {
  allocated = refl;
  cursor = omega arith;
  limited = omega arith;
  small = omega arith;
  bytes = omega arith;
}

abbrev labels : List (List ℕ)
labels = (97 ∷ []) ∷ (98 ∷ 99 ∷ []) ∷ []

sevens : All IsByte (replicate 8192 7)
sevens = replicated 8192
  where
    replicated : (n : ℕ) → All IsByte (replicate n 7)
    replicated zero = tt
    replicated (suc n) = (omega arith, replicated n)

packet_skipped : skip_dname 9 packet ≡ some (ok (true, record packet { position = 6 }))
unfolding skip_dname Dname.skip_round available create_from Dname.skip_first read_u8
    Dname.skip_label Dname.skip_there Dname.skipped skip
packet_skipped = refl

-- A pointer to itself is refused at the second visit.
abbrev loops : Buffer
loops = create_from (0xc0 ∷ 0 ∷ []) 2

loops_refused :
    read_dname 3 (0 ∷ []) loops true
    ≡ some (ok (record { dname_length = 0; dname = []; buffer = loops }))
unfolding read_dname Dname.clear_visited Dname.zeroed Dname.loop Dname.round Dname.visit
    Dname.visited_at Dname.dispatch Dname.follow Dname.check_jump Dname.location
    Dname.pointer_location Dname.jump Dname.finish Dname.refused get_bit set_bit available read_at
    load create_from skip set_position
loops_refused = refl

read_dname_total_example : Ends 8 (read_dname 9 (replicate 8192 7) packet true)
unfolding create_from
read_dname_total_example =
    read_dname_total packet (replicate 8192 7) true 9 packet-IsValid (omega arith) refl sevens
      (omega arith)

skip_dname_total_example : Skips packet (skip_dname 9 packet)
unfolding create_from
skip_dname_total_example = skip_dname_total 9 packet packet-IsValid (omega arith)

Step-IsValid_example :
    IsValid (record packet { data_bytes = 5 ∷ 97 ∷ 2 ∷ 98 ∷ 99 ∷ 0 ∷ 0xc0 ∷ 2 ∷ []; position = 1 })
unfolding create_from write
Step-IsValid_example =
    Step-IsValid
      (writes packet _ (5 ∷ []) (omega arith, tt)
        (write-ok packet (5 ∷ []) packet-IsValid (omega arith)))
      packet-IsValid

set-read_flags_example :
    (f : Flags) × (read_flags packet ≡ ok f)
    × Gives (pkt_set_qr packet) (record f { qr = 0x80 })
    × Gives (pkt_clear_qr packet) (record f { qr = 0 })
    × Gives (pkt_set_opcode packet 4) (record f { opcode = 4 })
    × Gives (pkt_set_aa packet) (record f { aa = 0x04 })
    × Gives (pkt_set_rcode packet 4) (record f { rcode = 4 })
unfolding create_from
set-read_flags_example = set-read_flags packet 4 packet-IsValid (omega arith) (omega arith)

-- A record of 17 bytes, which does not fit in eight.
abbrev record_a : Rr
record_a = record {
  owner = 1 ∷ 97 ∷ 0 ∷ [];
  rr_type = 1;
  rr_class = 1;
  ttl = 3600;
  rdfs = (127 ∷ 0 ∷ 0 ∷ 1 ∷ []) ∷ [];
}

write_rr-Fits_example :
    (b' : Buffer) × (write_rr packet record_a ≡ ok (false, b'))
    × IsValid b'
    × (b'.limit ≡ 8)
    × (b'.position ≡ 0)
unfolding create_from
write_rr-Fits_example = write_rr-Fits packet record_a packet-IsValid (omega arith) (omega arith)

-- With no byte left before the limit, `buffer_read_u16` returns, and leaves the cursor behind it.
unchecked_read_test :
    read_u16
      (record { data_bytes = 1 ∷ 2 ∷ []; position = 0; limit = 0; capacity = 2; fixed = false })
    ≡ ok (
      258,
      record { data_bytes = 1 ∷ 2 ∷ []; position = 2; limit = 0; capacity = 2; fixed = false },
    )
unfolding read_u16 read_u16_at load advance
unchecked_read_test = refl
