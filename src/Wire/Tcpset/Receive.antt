-- ===== src/Wire/Tcpset/Receive.antt =====
-- A message is received whole, in whatever pieces read() hands it out.
use mathlib.Core.Path.{subst}
use mathlib.Core.List.{append-nil}
use opendnssec_workflow_test.Common.{
  ℕ, ◌+◌, ◌-◌, ◌/◌, ◌%◌, ◌^◌, ◌≤◌, ◌<◌, ◌≡◌, refl, sym, ap, ◌∙◌, List, [], ◌∷◌, ◌++◌, arith, length,
  get_or, take, drop, length-append,
}
use opendnssec_workflow_test.Common.Result.{Result, ok, err, assertion, ◌>>=◌}
use opendnssec_workflow_test.Wire.Buffer.{clear, set_limit, remaining}
use opendnssec_workflow_test.Wire.Buffer.Valid.{overwrite}
use opendnssec_workflow_test.Wire.Tcpset.{
  Conn, Input, Input.got, Answer, later, complete, lost, tcp_conn_ready, read_packet, take_length,
  tcp_conn_read, htons,
}
use opendnssec_workflow_test.Wire.Tcpset.Filling.{
  IsOpen, IsFilling, answer_for, sizes, Feeds, waits, feeds, read_packet-rest,
}

-- The length of the message, and the message.
abbrev pub frame : List ℕ → List ℕ
frame m = htons (length m) ++ m

-- The connection while this much of the frame is still to come.
pub data Holds (m : List ℕ) (c : Conn) : List ℕ → Type 0 where
  fresh :
      (x y : ℕ)
      → IsOpen (length m) c
      → c.packet.position ≡ 0
      → c.total_bytes ≡ 0
      → c.length_bytes ≡ x ∷ y ∷ []
      → Holds m c (frame m)
  half :
      (y : ℕ)
      → IsOpen (length m) c
      → c.packet.position ≡ 0
      → c.total_bytes ≡ 1
      → c.length_bytes ≡ length m / 2 ^ 8 % 2 ^ 8 ∷ y ∷ []
      → Holds m c (length m % 2 ^ 8 ∷ m)
  body : (done rest : List ℕ) → IsFilling m done rest c → Holds m c rest

-- What read() may answer to the calls of one `tcp_conn_read`, of which the second is not always made.
pub data Served (m s : List ℕ) : Input → Input → List ℕ → Type 0 where
  short :
      (a b : Input) (s' : List ℕ)
      → length m < length s
      → Feeds s (length s - length m) a s'
      → length m < length s'
      → Served m s a b s'
  crossing :
      (a b : Input) (s' s'' : List ℕ)
      → length m < length s
      → Feeds s (length s - length m) a s'
      → s' ≡ m
      → Feeds m (length m) b s''
      → Served m s a b s''
  within :
      (a b : Input) (s' : List ℕ)
      → length s ≤ length m
      → Feeds s (length s) b s'
      → Served m s a b s'

answer-cons : (s : List ℕ) → 0 < length s → answer_for s ≡ later
answer-cons [] h = absurd (omega arith)
answer-cons (x ∷ s) h = refl

module _ (m : List ℕ) (small : length m < 2 ^ 16) where
  abbrev begun : Conn → Conn
  begun c = record c {
    length_bytes = htons (length m);
    total_bytes = 2;
    msglen = length m;
    packet = record c.packet { limit = length m };
  }

  IsFilling-begun :
      (c : Conn) → IsOpen (length m) c → c.packet.position ≡ 0 → IsFilling m [] m (begun c)
  IsFilling-begun c o p = record {
    is_open = record {
      is_opened = o.is_opened;
      allocated = o.allocated;
      room = o.room;
      small = o.small;
    };
    split = refl;
    total = refl;
    msglen = refl;
    limit = refl;
    position = p;
    filled = refl;
  }

  -- The last byte of the length, or both.
  take_length-begun :
      (c : Conn) (bytes : List ℕ) (input : Input)
      → IsOpen (length m) c
      → c.packet.position ≡ 0
      → c.total_bytes + length bytes ≡ 2
      → overwrite c.length_bytes c.total_bytes bytes ≡ htons (length m)
      → take_length c bytes input ≡ read_packet input (begun c)
  unfolding take_length set_limit
  take_length-begun c bytes input o p t e = ground arith

  -- What a step of the receiver comes to.
  abbrev Moved : Conn → Input → Input → List ℕ → Type 0
  Moved c a b s' = (c' : Conn) × (tcp_conn_read a b c ≡ ok (answer_for s', c')) × Holds m c' s'

  begun_step :
      (c : Conn) (bytes : List ℕ) (x : ℕ) (b : Input) (s' : List ℕ)
      → IsOpen (length m) c
      → c.packet.position ≡ 0
      → c.total_bytes < 2
      → c.total_bytes + length (x ∷ bytes) ≡ 2
      → overwrite c.length_bytes c.total_bytes (x ∷ bytes) ≡ htons (length m)
      → 0 < length m
      → Feeds m (length m) b s'
      → Moved c (got (x ∷ bytes)) b s'
  unfolding tcp_conn_read
  begun_step c bytes x b s' o p lt t e h feed =
      let (c', done, r, f) =
        read_packet-rest m [] m (length m) b s' (begun c) (IsFilling-begun c o p) h feed in
      (
        c',
        ground (arith, o.is_opened, take_length-begun c (x ∷ bytes) b o p t e, r),
        body done s' f,
      )

  half_step :
      (c : Conn) (y : ℕ) (a b : Input) (s' : List ℕ)
      → IsOpen (length m) c
      → c.packet.position ≡ 0
      → c.total_bytes ≡ 1
      → c.length_bytes ≡ length m / 2 ^ 8 % 2 ^ 8 ∷ y ∷ []
      → 0 < length m
      → Served m (length m % 2 ^ 8 ∷ m) a b s'
      → Moved c a b s'
  unfolding tcp_conn_read
  half_step c y _ b _ o p t l h (short _ _ _ lt waits lt') =
      (c, ground (arith, o.is_opened), half y o p t l)
  half_step c y _ b _ o p t l h (short _ _ _ lt (feeds x bytes s' e n) lt') =
      absurd (omega (arith, ap length e, length-append (x ∷ bytes) s'))
  half_step c y _ b s'' o p t l h (crossing _ _ _ _ lt waits q feed) =
      absurd (omega (arith, ap length q))
  half_step c y _ b s'' o p t l h (crossing _ _ _ _ lt (feeds x [] s' e n) q feed) =
      begun_step c [] x b s'' o p (omega arith) (omega arith)
        (rw (t, l) (ap (λ z. length m / 2 ^ 8 % 2 ^ 8 ∷ z ∷ []) (ap (λ z. get_or z 0 0) (sym e)))) h
        feed
  half_step c y _ b s'' o p t l h (crossing _ _ _ _ lt (feeds x (x' ∷ bytes) s' e n) q feed) =
      absurd (omega arith)
  half_step c y a b s' o p t l h (within _ _ _ le feed) = absurd (omega arith)

  fresh_step :
      (c : Conn) (x y : ℕ) (a b : Input) (s' : List ℕ)
      → IsOpen (length m) c
      → c.packet.position ≡ 0
      → c.total_bytes ≡ 0
      → c.length_bytes ≡ x ∷ y ∷ []
      → 0 < length m
      → Served m (frame m) a b s'
      → Moved c a b s'
  unfolding tcp_conn_read take_length
  fresh_step c x y _ b _ o p t l h (short _ _ _ lt waits lt') =
      (c, ground (arith, o.is_opened), fresh x y o p t l)
  fresh_step c x y _ b _ o p t l h (short _ _ _ lt (feeds z [] s' e n) lt') =
      let c1 : Conn = record c { length_bytes = z ∷ y ∷ []; total_bytes = 1 } in
      let o1 : IsOpen (length m) c1 = record {
        is_opened = o.is_opened;
        allocated = o.allocated;
        room = o.room;
        small = o.small;
      } in
      let first : z ≡ length m / 2 ^ 8 % 2 ^ 8 = ap (λ r. get_or r 0 0) (sym e) in
      (
        c1,
        ground (arith, o.is_opened, answer-cons s'),
        subst (λ r. Holds m c1 r) (ap (drop 1) e) (half y o1 p refl (ap (λ r. r ∷ y ∷ []) first)),
      )
  fresh_step c x y _ b _ o p t l h (short _ _ _ lt (feeds z (w ∷ bytes) s' e n) lt') =
      absurd (omega (arith, ap length e, length-append (z ∷ w ∷ bytes) s'))
  fresh_step c x y _ b s'' o p t l h (crossing _ _ _ _ lt waits q feed) =
      absurd (omega (arith, ap length q))
  fresh_step c x y _ b s'' o p t l h (crossing _ _ _ _ lt (feeds z [] s' e n) q feed) =
      absurd (omega (arith, ap length e, ap length q))
  fresh_step c x y _ b s'' o p t l h (crossing _ _ _ _ lt (feeds z (w ∷ []) s' e n) q feed) =
      begun_step c (w ∷ []) z b s'' o p (omega arith) (omega arith)
        (rw (t, l) (ap (take 2) (sym e))) h feed
  fresh_step c x y _ b s'' o p t l h
        (crossing _ _ _ _ lt (feeds z (w ∷ w' ∷ bytes) s' e n) q feed) =
      absurd (omega arith)
  fresh_step c x y a b s' o p t l h (within _ _ _ le feed) = absurd (omega arith)

  pub tcp_conn_read-step :
      (s : List ℕ) (a b : Input) (s' : List ℕ) (c : Conn)
      → 0 < length m
      → Holds m c s
      → 0 < length s
      → Served m s a b s'
      → Moved c a b s'
  unfolding tcp_conn_read take_length
  tcp_conn_read-step s a b s' c h (body done _ f) hs (within _ _ _ le feed) =
      let (c', done', r, f') = read_packet-rest m done s (length s) b s' c f hs feed in
      (c', ground (arith, f.is_open, f.total, r), body done' s' f')
  tcp_conn_read-step s a b s' c h (body done _ f) hs (short _ _ _ lt feed lt') =
      absurd (omega (arith, sizes m done [] s f.split))
  tcp_conn_read-step s a b s' c h (body done _ f) hs (crossing _ _ _ _ lt feed _ feed') =
      absurd (omega (arith, sizes m done [] s f.split))
  tcp_conn_read-step _ a b s' c h (fresh x y o p t l) hs served =
      fresh_step c x y a b s' o p t l h served
  tcp_conn_read-step _ a b s' c h (half y o p t l) hs served = half_step c y a b s' o p t l h served

-- The calls of `tcp_conn_read` for one message: until one does not answer 0.
pub receive : List (Input × Input) → Conn → Result (Answer × Conn)
receive [] c = ok (later, c)
receive (call ∷ calls) c = do
  r ← tcp_conn_read call.0 call.1 c
  elim r.0 [ later ↦ receive calls r.1 | complete ↦ ok r | lost ↦ ok r ]

-- How the rest of a frame comes in: in any pieces, over any number of calls.
pub data Delivery (m : List ℕ) : List ℕ → List (Input × Input) → Type 0 where
  arrived : Delivery m [] []
  call :
      (s : List ℕ) (a b : Input) (s' : List ℕ) (calls : List (Input × Input))
      → 0 < length s
      → Served m s a b s'
      → Delivery m s' calls
      → Delivery m s ((a, b) ∷ calls)

abbrev pub IsReceived : List ℕ → Conn → Type 0
IsReceived m c =
    (take (length m) c.packet.data_bytes ≡ m)
    × (c.packet.position ≡ length m)
    × (c.packet.limit ≡ length m)
    × (c.total_bytes ≡ length m + 2)

Holds-IsReceived : (m : List ℕ) (c : Conn) → Holds m c [] → IsReceived m c
Holds-IsReceived m c (body done _ f) =
    let e : m ≡ done = f.split ∙ append-nil done in
    rw e (ground (arith, f.filled, f.position, f.limit, f.total, ap length e))

receive_rest :
    (m : List ℕ) (s : List ℕ) (calls : List (Input × Input)) (c : Conn)
    → length m < 2 ^ 16
    → 0 < length m
    → Holds m c s
    → 0 < length s
    → Delivery m s calls
    → (c' : Conn) × (receive calls c ≡ ok (complete, c')) × IsReceived m c'
unfolding receive
receive_rest m _ _ c small h k hs arrived = absurd (omega arith)
receive_rest m _ _ c small h k hs (call s a b [] calls _ served delivery) =
    let (c', r, k') = tcp_conn_read-step m small s a b [] c h k hs served in
    (c', rw r refl, Holds-IsReceived m c' k')
receive_rest m _ _ c small h k hs (call s a b (x ∷ s') calls _ served delivery) =
    let (c', r, k') = tcp_conn_read-step m small s a b (x ∷ s') c h k hs served in
    let (c'', r', done) = receive_rest m (x ∷ s') calls c' small h k' (omega arith) delivery in
    (c'', rw r r', done)

-- A connection that is open, with room for a message of at least one byte and less than 2 ^ 16, is made
-- ready. However read() then cuts the frame of the message, its length and the message itself, into
-- pieces, with any number of calls at which nothing has come: `tcp_conn_read` answers 0 until all is
-- there and then 1, no assertion fails, and the packet holds the message, with the cursor at its end.
pub receive_whole :
    (m : List ℕ) (calls : List (Input × Input)) (c : Conn)
    → 0 < length m
    → length m < 2 ^ 16
    → IsOpen (length m) c
    → Delivery m (frame m) calls
    → (c' : Conn) × (receive calls (tcp_conn_ready c) ≡ ok (complete, c')) × IsReceived m c'
unfolding tcp_conn_ready clear
receive_whole m calls c h small o delivery =
    let o' : IsOpen (length m) (tcp_conn_ready c) = record {
      is_opened = o.is_opened;
      allocated = o.allocated;
      room = o.room;
      small = o.small;
    } in
    receive_rest m (frame m) calls (tcp_conn_ready c) small h (fresh 0 0 o' refl refl refl)
      (omega arith) delivery

-- A message of length zero ends the process: whatever is behind its two bytes, when they come together
-- `tcp_conn_read` fails the assertion that there is something left to read.
pub tcp_conn_read_empty :
    (input : Input) (c : Conn)
    → IsOpen 0 c
    → tcp_conn_read (got (0 ∷ 0 ∷ [])) input (tcp_conn_ready c) ≡ err assertion
unfolding tcp_conn_ready clear tcp_conn_read take_length read_packet set_limit remaining
tcp_conn_read_empty input c o = ground (arith, o.is_opened)
