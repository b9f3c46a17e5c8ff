-- ===== src/Wire/Tcpset/Send.antt =====
-- A call of `tcp_conn_write` sends the bytes that come next.
use mathlib.Core.List.{append_assoc}
use native.Mathlib.Decide.{dec_lt}
use opendnssec_workflow_test.Common.{
  ℕ, zero, suc, ◌+◌, ◌-◌, ◌^◌, ◌≤◌, ◌<◌, ◌≡◌, ◌≢◌, ◌⊎◌, inl, inr, refl, sym, ap, ◌∙◌, true, List,
  [], ◌∷◌, ◌++◌, arith, length, take, drop,
}
use opendnssec_workflow_test.Common.Result.{ok}
use opendnssec_workflow_test.Wire.Buffer.{skip, remaining}
use opendnssec_workflow_test.Wire.Tcpset.{
  Conn, Output, Output.blocked, Output.failed, Output.sent, later, complete, lost, opened,
  write_packet, tcp_conn_write, htons, Written, wrote,
}

module _ {ℓ} {A : Type ℓ} where
  drop_all : (n : ℕ) (xs : List A) → length xs ≤ n → drop n xs ≡ []
  drop_all zero [] h = refl
  drop_all zero (x ∷ xs) h = absurd (omega arith)
  drop_all (suc n) [] h = refl
  drop_all (suc n) (x ∷ xs) h = drop_all n xs (omega arith)

  take_nil : (n : ℕ) → take {A = A} n [] ≡ []
  take_nil zero = refl
  take_nil (suc n) = refl

  take_parts : (n k : ℕ) (xs : List A) → n ≤ k → take n xs ++ take (k - n) (drop n xs) ≡ take k xs
  take_parts zero k xs h = ap {B = List A} (λ j. take j xs) (omega arith)
  take_parts (suc n) zero xs h = absurd (omega arith)
  take_parts (suc n) (suc k) [] h = take_nil (suc k - suc n)
  take_parts (suc n) (suc k) (x ∷ xs) h =
      let e : suc k - suc n ≡ k - n = omega arith in
      ap (λ j. x ∷ take n xs ++ take j (drop n xs)) e
      ∙ ap (λ l. x ∷ l) (take_parts n k xs (omega arith))

  take-drop : (n : ℕ) (xs : List A) → take n xs ++ drop n xs ≡ xs
  take-drop zero xs = refl
  take-drop (suc n) [] = refl
  take-drop (suc n) (x ∷ xs) = ap (λ l. x ∷ l) (take-drop n xs)

  drop-drop : (n p : ℕ) (xs : List A) → drop n (drop p xs) ≡ drop (p + n) xs
  drop-drop n zero xs = ap (λ j. drop j xs) (omega arith)
  drop-drop n (suc p) [] = drop_all n [] (omega arith) ∙ sym (drop_all (suc p + n) [] (omega arith))
  drop-drop n (suc p) (x ∷ xs) =
      let e : suc (p + n) ≡ suc p + n = omega arith in
      drop-drop n p xs ∙ ap (λ j. drop j (x ∷ xs)) e

-- What is left to send.
abbrev pub unsent : Conn → List ℕ
unsent c =
    drop c.total_bytes (htons c.msglen)
    ++ take (c.packet.limit - c.packet.position) (drop c.packet.position c.packet.data_bytes)

pub record IsSending (c : Conn) : Type 0 where
  pub is_opened : opened c.fd ≡ true
  pub room : c.packet.limit ≤ length c.packet.data_bytes
  pub position : c.packet.position ≡ c.total_bytes - 2
  pub limit : c.packet.limit ≡ c.msglen
  pub nonempty : 0 < c.msglen
  pub small : c.msglen < 2 ^ 16
  pub unfinished : c.total_bytes < c.msglen + 2

-- write() takes at most what it is offered.
abbrev pub IsWithin : ℕ → Output → Type 0
IsWithin n blocked = Unit
IsWithin n failed = Unit
IsWithin n (sent k) = k ≤ n

-- What a call comes to: an answer, the connection after it, and the bytes that have left.
abbrev pub Sent : Conn → Written → Type 0
Sent c w =
    (w.out ++ unsent w.conn ≡ unsent c)
    × (((w.answer ≡ complete) × (unsent w.conn ≡ [])) ⊎ ((w.answer ≢ complete) × IsSending w.conn))

-- The connection after so many bytes of the message.
abbrev sent_on : Conn → ℕ → Conn
sent_on c n = record c {
  total_bytes = c.total_bytes + n;
  packet = record c.packet { position = c.packet.position + n };
}

unsent_behind :
    (c : Conn)
    → 2 ≤ c.total_bytes
    → unsent c
      ≡ take (c.packet.limit - c.packet.position) (drop c.packet.position c.packet.data_bytes)
unsent_behind c h = rw (drop_all c.total_bytes (htons c.msglen) h) refl

unsent-sent_on :
    (c : Conn) (n : ℕ)
    → 2 ≤ c.total_bytes
    → n ≤ c.packet.limit - c.packet.position
    → take n (drop c.packet.position c.packet.data_bytes) ++ unsent (sent_on c n) ≡ unsent c
unsent-sent_on c n h i =
    let p = c.packet.position in
    let xs = c.packet.data_bytes in
    let e : c.packet.limit - (p + n) ≡ c.packet.limit - p - n = omega arith in
    rw (unsent_behind c h, unsent_behind (sent_on c n) (omega arith), e, ← drop-drop n p xs)
      (take_parts n (c.packet.limit - p) (drop p xs) i)

unsent_nil : (c : Conn) → 2 ≤ c.total_bytes → c.packet.limit ≤ c.packet.position → unsent c ≡ []
unsent_nil c h i =
    let e : c.packet.limit - c.packet.position ≡ 0 = omega arith in rw (unsent_behind c h, e) refl

write_packet-Sent :
    (output : Output) (c : Conn)
    → IsSending c
    → 2 ≤ c.total_bytes
    → IsWithin (c.packet.limit - c.packet.position) output
    → (w : Written) × (write_packet output c ≡ ok w) × Sent c w
unfolding write_packet skip remaining
write_packet-Sent blocked c s h i = (wrote later c [], ground (arith, s), (refl, inr (λ q. cc, s)))
write_packet-Sent failed c s h i = (wrote lost c [], ground (arith, s), (refl, inr (λ q. cc, s)))
write_packet-Sent (sent n) c s h i =
    let c' = sent_on c n in
    let out = take n (drop c.packet.position c.packet.data_bytes) in
    let whole = unsent-sent_on c n h i in
    elim (dec_lt (c.total_bytes + n) (c.msglen + 2)) [
      | yes lt ↦ (
        wrote later c' out,
        ground (arith, s),
        (
          whole,
          inr (
            λ q. cc,
            record {
              is_opened = s.is_opened;
              room = s.room;
              position = omega (arith, s.position);
              limit = s.limit;
              nonempty = s.nonempty;
              small = s.small;
              unfinished = lt;
            },
          ),
        ),
      )
      | no ge ↦ (
        wrote complete c' out,
        ground (arith, s),
        (whole, inl (refl, unsent_nil c' (omega arith) (omega (arith, s.limit, s.position)))),
      )
    ]

-- Bytes of the length leave.
unsent_length :
    (c : Conn) (n : ℕ)
    → take n (drop c.total_bytes (htons c.msglen))
        ++ unsent (record c { total_bytes = c.total_bytes + n })
      ≡ unsent c
unsent_length c n =
    let h = drop c.total_bytes (htons c.msglen) in
    let rest =
      take (c.packet.limit - c.packet.position) (drop c.packet.position c.packet.data_bytes) in
    ap (λ l. take n h ++ (l ++ rest)) (sym (drop-drop n c.total_bytes (htons c.msglen)))
    ∙ sym (append_assoc (take n h) (drop n h) rest)
    ∙ ap (λ l. l ++ rest) (take-drop n h)

-- The connection after so many bytes of the length.
IsSending-length :
    (c : Conn) (n : ℕ)
    → IsSending c
    → c.total_bytes + n ≤ 2
    → IsSending (record c { total_bytes = c.total_bytes + n })
IsSending-length c n s h = record {
  is_opened = s.is_opened;
  room = s.room;
  position = omega (arith, s.position);
  limit = s.limit;
  nonempty = s.nonempty;
  small = s.small;
  unfinished = omega (arith, s.nonempty);
}

write_length-Sent :
    (a b : Output) (c : Conn)
    → IsSending c
    → c.total_bytes < 2
    → IsWithin (2 - c.total_bytes) a
    → IsWithin (c.packet.limit - c.packet.position) b
    → (w : Written) × (tcp_conn_write a b c ≡ ok w) × Sent c w
unfolding tcp_conn_write
write_length-Sent blocked b c s lt i ib =
    (wrote later c [], ground (arith, s.is_opened), (refl, inr (λ q. cc, s)))
write_length-Sent failed b c s lt i ib =
    (wrote lost c [], ground (arith, s.is_opened), (refl, inr (λ q. cc, s)))
write_length-Sent (sent n) b c s lt i ib =
    let c1 : Conn = record c { total_bytes = c.total_bytes + n } in
    let out = take n (drop c.total_bytes (htons c.msglen)) in
    let s1 = IsSending-length c n s (omega arith) in
    elim (dec_lt (c.total_bytes + n) 2) [
      | yes lt' ↦
          (wrote later c1 out, ground (arith, s.is_opened), (unsent_length c n, inr (λ q. cc, s1)))
      | no ge ↦
          let (w, e, (join, r)) = write_packet-Sent b c1 s1 (omega arith) ib in
          (
            wrote w.answer w.conn (out ++ w.out),
            ground (arith, s.is_opened, e),
            (
              append_assoc out w.out (unsent w.conn) ∙ ap (λ l. out ++ l) join ∙ unsent_length c n,
              r,
            ),
          )
    ]

-- From a connection that is sending a message a call of `tcp_conn_write` fails
-- no assertion, whatever write() answers. The bytes that leave are those that come next; it answers 1
-- when none is left, and else the connection is still sending.
pub tcp_conn_write-Sent :
    (a b : Output) (c : Conn)
    → IsSending c
    → IsWithin (2 - c.total_bytes) a
    → IsWithin (c.packet.limit - c.packet.position) b
    → (w : Written) × (tcp_conn_write a b c ≡ ok w) × Sent c w
unfolding tcp_conn_write
tcp_conn_write-Sent a b c s ia ib = elim (dec_lt c.total_bytes 2) [
  | no ge ↦
      let (w, e, r) = write_packet-Sent b c s (omega arith) ib in
      (w, ground (arith, s.is_opened, e), r)
  | yes lt ↦ write_length-Sent a b c s lt ia ib
]
