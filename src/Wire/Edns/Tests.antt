-- ===== src/Wire/Edns/Tests.antt =====
-- Tests and instances for the OPT record.
use opendnssec_workflow_test.Common.{◌≡◌, refl, true, false, ◌∷◌, arith, replicate}
use opendnssec_workflow_test.Common.Result.{ok}
use opendnssec_workflow_test.Wire.Buffer.{Buffer, write}
use opendnssec_workflow_test.Wire.Buffer.Valid.{IsValid}
use opendnssec_workflow_test.Wire.Edns.{
  edns_ok, edns_init, edns_rr_reset, with_dnssec, parsed, edns_rr_parse,
}
use opendnssec_workflow_test.Wire.Edns.Answer.{edns_rr_parse-edns_init}

abbrev packet : Buffer
packet = record {
  data_bytes = 9 ∷ replicate 13 1;
  position = 1;
  limit = 13;
  capacity = 14;
  fixed = false;
}

packet-IsValid : IsValid packet
packet-IsValid = record {
  allocated = refl;
  cursor = omega arith;
  limited = omega arith;
  small = omega arith;
  bytes = omega arith;
}

edns_rr_parse-edns_init_example :
    (b1 : Buffer) × (b2 : Buffer) × (write packet (with_dnssec true (edns_init 4096).ok_bytes)
      ≡ ok b1)
    × (write b1 (edns_init 4096).rdata_none ≡ ok b2)
    × (edns_rr_parse edns_rr_reset (record b2 { position = 1 })
        ≡ ok (
            parsed true
              (record { status = edns_ok; position = 1; maxlen = 4096; dnssec_ok = 0x8000 })
              b2))
edns_rr_parse-edns_init_example =
    edns_rr_parse-edns_init packet 4096 true edns_rr_reset packet-IsValid (omega arith)
      (omega arith)
