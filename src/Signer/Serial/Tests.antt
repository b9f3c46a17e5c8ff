-- ===== src/Signer/Serial/Tests.antt =====
-- Tests and instances for SOA serials.
use opendnssec_workflow_test.Common.{◌≡◌, refl, true, false, some, arith}
use opendnssec_workflow_test.Signer.Serial.{
  Db, format_of, unixtime, keep, unknown, status_ok, status_err, serial_gt, choose, apply,
  update_serial, previous, max_serial, above, step,
}
use opendnssec_workflow_test.Signer.Serial.Laws.{IsWord, update_serial-increases, counter_drifts}

-- A zone written with serial 2010, and one never written.
abbrev written : Db
written = record { inbserial = 2000; intserial = 2010; outserial = 2010; is_initialized = true }

abbrev fresh : Db
fresh = record { inbserial = 0; intserial = 0; outserial = 0; is_initialized = false }

-- The last serial before the wrap.
abbrev last : Db
last = record {
  inbserial = 0;
  intserial = 0xffff_ffff;
  outserial = 0xffff_ffff;
  is_initialized = true;
}

formats :
    (format_of "unixtime" ≡ unixtime) × (format_of "keep" ≡ keep) × (format_of "Keep" ≡ unknown)
unfolding format_of
formats = (refl, refl, refl)

wraps : (update_serial last (some "counter") 7 0 0).1.intserial ≡ 8
unfolding update_serial format_of choose apply previous max_serial above step serial_gt
wraps = refl

unreachable : update_serial written (some "other") 7 0 0 ≡ (status_err, written)
unfolding update_serial format_of choose apply
unreachable = refl

written-IsWord : IsWord written
written-IsWord = omega arith

accepted : (update_serial written (some "datecounter") 2000 0 20).0 ≡ status_ok
unfolding update_serial format_of choose apply
accepted = refl

update_serial-increases_example :
    serial_gt (update_serial written (some "datecounter") 2000 0 20).1.intserial 2010 ≡ true
update_serial-increases_example =
    update_serial-increases written (some "datecounter") 2000 0 20 written-IsWord (omega arith) refl
      accepted

counter_drifts_example :
    update_serial written (some "counter") 3000 0 0
    ≡ (status_ok, record written { intserial = 2011 })
counter_drifts_example = counter_drifts written 3000 0 0 (omega arith) refl refl (omega arith)
