-- ===== src/Wire/Tcpset/Deliver.antt =====
-- What `tcp_conn_write` sends is the frame of the message, in order and without a gap.
use mathlib.Core.List.{append_assoc}
use opendnssec_workflow_test.Common.{
  ℕ, ◌-◌, ◌≡◌, ◌≢◌, ◌↔◌, ◌⊎◌, inl, inr, refl, ap, ◌∙◌, List, [], ◌∷◌, ◌++◌, arith, length, take,
  drop, length-append, length-take, length-drop,
}
use opendnssec_workflow_test.Common.Result.{Result, ok, ◌>>=◌}
use opendnssec_workflow_test.Wire.Tcpset.{
  Conn, Output, Answer, later, complete, lost, tcp_conn_write, htons, Written, wrote,
}
use opendnssec_workflow_test.Wire.Tcpset.Receive.{frame}
use opendnssec_workflow_test.Wire.Tcpset.Send.{
  IsSending, unsent, IsWithin, Sent, tcp_conn_write-Sent,
}

-- The calls of `tcp_conn_write` for one message: until one does not answer 0.
pub send : List (Output × Output) → Conn → Result Written
send [] c = ok (wrote later c [])
send (call ∷ calls) c = do
  w ← tcp_conn_write call.0 call.1 c
  elim w.answer [
    | later ↦ do rest ← send calls w.conn; ok (wrote rest.answer rest.conn (w.out ++ rest.out))
    | complete ↦ ok w
    | lost ↦ ok w
  ]

-- Answers that write() may give to these calls, from this connection on: none takes more than what is
-- left of the length, or of the packet, when it is asked. Nothing is asked of what the calls return.
pub data Offered : Conn → List (Output × Output) → Type 0 where
  over : (c : Conn) → Offered c []
  call :
      (c : Conn) (a b : Output) (calls : List (Output × Output))
      → IsWithin (2 - c.total_bytes) a
      → IsWithin (c.packet.limit - c.packet.position) b
      → ((w : Written) → tcp_conn_write a b c ≡ ok w → Offered w.conn calls)
      → Offered c ((a, b) ∷ calls)

send_more :
    (c : Conn) (a b : Output) (calls : List (Output × Output)) (answer : Answer) (conn : Conn)
    (out : List ℕ)
    → tcp_conn_write a b c ≡ ok (wrote answer conn out)
    → Sent c (wrote answer conn out)
    → (IsSending conn → (w : Written) × (send calls conn ≡ ok w) × Sent conn w)
    → (w : Written) × (send ((a, b) ∷ calls) c ≡ ok w) × Sent c w
unfolding send
send_more c a b calls complete conn out e left more = (wrote complete conn out, rw e refl, left)
send_more c a b calls lost conn out e left more = (wrote lost conn out, rw e refl, left)
send_more c a b calls later conn out e (join, inl (q, r)) more = absurd (cc)
send_more c a b calls later conn out e (join, inr (q, s)) more =
    let (w, e', (join', r)) = more s in
    (
      wrote w.answer w.conn (out ++ w.out),
      rw (e, e') refl,
      (append_assoc out w.out (unsent w.conn) ∙ ap (λ l. out ++ l) join' ∙ join, r),
    )

-- A connection that is sending has something left.
unsent_some : (c : Conn) → IsSending c → unsent c ≢ []
unsent_some c s e =
    let h = drop c.total_bytes (htons c.msglen) in
    let b = drop c.packet.position c.packet.data_bytes in
    let k = c.packet.limit - c.packet.position in
    absurd (
      omega (
        arith,
        s,
        ap (length {A = ℕ}) e,
        length-append h (take k b),
        length-drop c.total_bytes (htons c.msglen),
        length-take k b,
        length-drop c.packet.position c.packet.data_bytes,
      ))

send-Sent :
    (calls : List (Output × Output)) (c : Conn)
    → IsSending c
    → Offered c calls
    → (w : Written) × (send calls c ≡ ok w) × Sent c w
unfolding send
send-Sent _ _ s (over c) = (wrote later c [], refl, (refl, inr (λ q. cc, s)))
send-Sent _ _ s (call c a b calls ia ib offered) =
    let (w, e, (join, r)) = tcp_conn_write-Sent a b c s ia ib in
    send_more c a b calls w.answer w.conn w.out e (join, r)
      (λ q. send-Sent calls w.conn q (offered w e))

-- A connection starts to send a message of at least one byte and less than 2 ^ 16. However many of the
-- bytes that are left write() takes at each call, no assertion fails, and what has left is a prefix of the
-- frame, the length of the message and the message; when `tcp_conn_write` answers 1 it is all of it.
pub send_whole :
    (m : List ℕ) (calls : List (Output × Output)) (c : Conn)
    → IsSending c
    → c.total_bytes ≡ 0
    → c.msglen ≡ length m
    → take (length m) c.packet.data_bytes ≡ m
    → Offered c calls
    → (w : Written) × (rest : List ℕ) × (send calls c ≡ ok w)
      × (w.out ++ rest ≡ frame m)
      × ((w.answer ≡ complete) ↔ (rest ≡ []))
send_whole m calls c s t k e offered =
    let (w, runs, (join, r)) = send-Sent calls c s offered in
    (w, unsent w.conn, runs, join ∙ begins, done w r)
  where
    begins : unsent c ≡ frame m
    begins =
        let position : c.packet.position ≡ 0 = omega (arith, s.position) in
        let size : c.packet.limit - c.packet.position ≡ length m =
          omega (arith, s.limit, s.position) in
        rw (size, position, t, k, e) refl

    done :
        (w : Written)
        → ((w.answer ≡ complete) × (unsent w.conn ≡ []))
          ⊎ ((w.answer ≢ complete) × IsSending w.conn)
        → (w.answer ≡ complete) ↔ (unsent w.conn ≡ [])
    done w (inl (q, n)) = (λ h. n, λ h. q)
    done w (inr (q, s')) = (λ h. absurd (q h), λ h. absurd (unsent_some w.conn s' h))
