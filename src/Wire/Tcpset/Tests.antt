-- ===== src/Wire/Tcpset/Tests.antt =====
-- Tests and instances for the tcp connections.
use mathlib.Core.Path.{subst}
use opendnssec_workflow_test.Common.{ℕ, ◌≡◌, refl, sym, ◌∙◌, ◌↔◌, false, List, [], ◌∷◌, ◌++◌, arith}
use opendnssec_workflow_test.Common.Int.{pos}
use opendnssec_workflow_test.Common.Result.{ok, ok_inj, err, assertion}
use opendnssec_workflow_test.Wire.Buffer.{skip, remaining, remaining_at}
use opendnssec_workflow_test.Wire.Tcpset.{
  Conn, Input, Output, Output.blocked, Output.sent, later, complete, Written, tcp_conn_ready,
  tcp_conn_read, tcp_conn_write, write_packet,
}
use opendnssec_workflow_test.Wire.Tcpset.Filling.{IsOpen, waits, feeds}
use opendnssec_workflow_test.Wire.Tcpset.Receive.{
  Delivery, arrived, call, short, crossing, within, receive, IsReceived, frame, receive_whole,
  tcp_conn_read_empty,
}
use opendnssec_workflow_test.Wire.Tcpset.Deliver
use opendnssec_workflow_test.Wire.Tcpset.Deliver.{Offered, send, send_whole}
use opendnssec_workflow_test.Wire.Tcpset.Send.{IsSending}

abbrev message : List ℕ
message = 7 ∷ 8 ∷ 9 ∷ []

abbrev used : Conn
used = record {
  fd = pos 4;
  total_bytes = 0;
  length_bytes = 0 ∷ 0 ∷ [];
  msglen = 3;
  packet = record {
    data_bytes = 7 ∷ 8 ∷ 9 ∷ 0 ∷ [];
    position = 0;
    limit = 3;
    capacity = 4;
    fixed = false;
  };
}

used-IsOpen : IsOpen 3 used
used-IsOpen = record { is_opened = refl; allocated = refl; room = omega arith; small = omega arith }

-- Nothing at first, then a byte of the length, then its other byte and two of the message.
abbrev pieces : List (Input × Input)
pieces =
    (Input.blocked, Input.blocked)
    ∷ (Input.got (0 ∷ []), Input.blocked)
    ∷ (Input.got (3 ∷ []), Input.got (7 ∷ 8 ∷ []))
    ∷ (Input.blocked, Input.got (9 ∷ []))
    ∷ []

pieces-Delivery : Delivery message (frame message) pieces
pieces-Delivery = call _ _ _ _ _ (omega arith) (short _ _ _ (omega arith) waits (omega arith)) (
    call _ _ _ _ _ (omega arith)
      (short _ _ _ (omega arith) (feeds 0 [] (3 ∷ message) refl (omega arith)) (omega arith))
      (call _ _ _ _ _ (omega arith)
        (crossing _ _ _ _ (omega arith) (feeds 3 [] message refl (omega arith)) refl
          (feeds 7 (8 ∷ []) (9 ∷ []) refl (omega arith)))
        (call _ _ _ _ _ (omega arith)
          (within _ _ _ (omega arith) (feeds 9 [] [] refl (omega arith))) arrived)))

receive_whole_example :
    (c' : Conn) × (receive pieces (tcp_conn_ready used) ≡ ok (complete, c')) × IsReceived message c'
receive_whole_example =
    receive_whole message pieces used (omega arith) (omega arith) used-IsOpen pieces-Delivery

tcp_conn_read_empty_example :
    tcp_conn_read (Input.got (0 ∷ 0 ∷ [])) Input.blocked (tcp_conn_ready used) ≡ err assertion
tcp_conn_read_empty_example =
    tcp_conn_read_empty Input.blocked used
      (record { is_opened = refl; allocated = refl; room = omega arith; small = omega arith })

-- The length leaves with one byte of the message, and then the rest.
abbrev takes : List (Output × Output)
takes = (sent 2, sent 1) ∷ (blocked, sent 2) ∷ []

abbrev first : Written
first = record {
  answer = later;
  conn = record used { total_bytes = 3; packet = record used.packet { position = 1 } };
  out = 0 ∷ 3 ∷ 7 ∷ [];
}

first_call : tcp_conn_write (sent 2) (sent 1) used ≡ ok first
unfolding tcp_conn_write write_packet skip remaining remaining_at
first_call = refl

takes-Offered : Offered used takes
takes-Offered = Deliver.call used _ _ _ (omega arith) (omega arith) (λ w e.
    subst (λ v. Offered v.conn ((blocked, sent 2) ∷ [])) (ok_inj (sym first_call ∙ e))
      (Deliver.call first.conn _ _ _ tt (omega arith) (λ v f. Deliver.over v.conn)))

used-IsSending : IsSending used
used-IsSending = record {
  is_opened = refl;
  room = omega arith;
  position = refl;
  limit = refl;
  nonempty = omega arith;
  small = omega arith;
  unfinished = omega arith;
}

send_whole_example :
    (w : Written) × (rest : List ℕ) × (send takes used ≡ ok w)
    × (w.out ++ rest ≡ frame message)
    × ((w.answer ≡ complete) ↔ (rest ≡ []))
send_whole_example = send_whole message takes used used-IsSending refl refl refl takes-Offered
