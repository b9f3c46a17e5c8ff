-- ===== src/Wire/Tcpset/Filling.antt =====
-- The second half of `tcp_conn_read`: the packet fills up.
use mathlib.Core.Path.{subst}
use mathlib.Core.List.{append_assoc, append-nil}
use opendnssec_workflow_test.Common.{
  ℕ, suc, ◌+◌, ◌^◌, ◌≤◌, ◌<◌, ◌≡◌, refl, sym, ap, ◌∙◌, Bool, true, List, [], ◌∷◌, ◌++◌, some, arith,
  length, set, take, length-set, take-set_end, length-append, length-replicate,
}
use opendnssec_workflow_test.Common.Int.{pos}
use opendnssec_workflow_test.Common.Result.{ok}
use opendnssec_workflow_test.Wire.Buffer.{create, skip, remaining}
use opendnssec_workflow_test.Wire.Buffer.Valid.{overwrite, length-overwrite, copy_in-ok}
use opendnssec_workflow_test.Wire.Tcpset.{
  Conn, Input, Input.blocked, Input.got, Answer, later, complete, opened, tcp_conn_create,
  packet_buffer_size, take_bytes, read_packet,
}

pub take-overwrite :
    (xs : List ℕ) (at : ℕ) (vs : List ℕ)
    → at + length vs ≤ length xs
    → take (at + length vs) (overwrite xs at vs) ≡ take at xs ++ vs
take-overwrite xs at [] h = ground (arith, append-nil (take at xs))
take-overwrite xs at (v ∷ vs) h =
    let p : at + suc (length vs) ≡ at + 1 + length vs = omega arith in
    let q : at + 1 ≡ suc at = omega arith in
    let e = take-overwrite (set xs at v) (at + 1) vs (omega (arith, length-set xs at v)) in
    ap (λ n. take n (overwrite (set xs at v) (at + 1) vs)) p
    ∙ e
    ∙ ap (λ l. l ++ vs) (ap (λ n. take n (set xs at v)) q ∙ take-set_end at v xs (omega arith))
    ∙ append_assoc (take at xs) (v ∷ []) vs

-- A connection that is open, with room for a message of this length.
pub record IsOpen (n : ℕ) (c : Conn) : Type 0 where
  pub is_opened : opened c.fd ≡ true
  pub allocated : length c.packet.data_bytes ≡ c.packet.capacity
  pub room : n ≤ c.packet.capacity
  pub small : c.packet.capacity < 2 ^ 31

-- Behind the length: `done` is in the packet, and `rest` is still to come.
pub record IsFilling (m done rest : List ℕ) (c : Conn) : Type 0 where
  pub is_open : IsOpen (length m) c
  pub split : m ≡ done ++ rest
  pub total : c.total_bytes ≡ 2 + length done
  pub msglen : c.msglen ≡ length m
  pub limit : c.packet.limit ≡ length m
  pub position : c.packet.position ≡ length done
  pub filled : take (length done) c.packet.data_bytes ≡ done

abbrev pub answer_for : List ℕ → Answer
answer_for [] = complete
answer_for (x ∷ rest) = later

pub sizes :
    (m done vs rest : List ℕ)
    → m ≡ done ++ (vs ++ rest)
    → length m ≡ length done + (length vs + length rest)
sizes m done vs rest h =
    ap length h
    ∙ length-append done (vs ++ rest)
    ∙ ap (λ n. length done + n) (length-append vs rest)

-- The connection after so many bytes at the cursor.
abbrev filled_with : Conn → List ℕ → Conn
filled_with c vs = record c {
  total_bytes = c.total_bytes + length vs;
  packet = record c.packet {
    data_bytes = overwrite c.packet.data_bytes c.packet.position vs;
    position = c.packet.position + length vs;
  };
}

pub IsFilling-filled_with :
    (m done vs rest : List ℕ) (c : Conn)
    → IsFilling m done (vs ++ rest) c
    → IsFilling m (done ++ vs) rest (filled_with c vs)
IsFilling-filled_with m done vs rest c f =
    let o = f.is_open in
    record {
      is_open = record {
        is_opened = o.is_opened;
        allocated = length-overwrite c.packet.data_bytes c.packet.position vs ∙ o.allocated;
        room = o.room;
        small = o.small;
      };
      split = f.split ∙ sym (append_assoc done vs rest);
      total = omega (arith, f.total, length-append done vs);
      msglen = f.msglen;
      limit = f.limit;
      position = omega (arith, f.position, length-append done vs);
      filled =
          rw
            (
              length-append done vs,
              f.position,
              take-overwrite c.packet.data_bytes (length done) vs
                  (omega (arith, sizes m done vs rest f.split, o.allocated, o.room)),
              f.filled,
            )
            refl;
    }

pub take_bytes-ok :
    (m done vs rest : List ℕ) (c : Conn)
    → IsFilling m done (vs ++ rest) c
    → take_bytes c vs ≡ ok (answer_for rest, filled_with c vs)
unfolding take_bytes skip remaining
take_bytes-ok m done vs [] c f =
    let e = copy_in-ok c.packet c.packet.position vs in
    ground (arith, e, sizes m done vs [] f.split, f.position, f.limit, f.msglen, f.total, f.is_open)
take_bytes-ok m done vs (x ∷ rest) c f =
    let e = copy_in-ok c.packet c.packet.position vs in
    ground (
      arith,
      e,
      sizes m done vs (x ∷ rest) f.split,
      f.position,
      f.limit,
      f.msglen,
      f.total,
      f.is_open,
    )

-- From a stream, read() for at most `n` bytes hands out some of them, or none yet.
pub data Feeds (s : List ℕ) (n : ℕ) : Input → List ℕ → Type 0 where
  waits : Feeds s n blocked s
  feeds :
      (b : ℕ) (bytes s' : List ℕ)
      → s ≡ (b ∷ bytes) ++ s'
      → suc (length bytes) ≤ n
      → Feeds s n (got (b ∷ bytes)) s'

read_packet-ok :
    (m done : List ℕ) (x : ℕ) (s : List ℕ) (n : ℕ) (input : Input) (s' : List ℕ) (c : Conn)
    → IsFilling m done (x ∷ s) c
    → Feeds (x ∷ s) n input s'
    → (c' : Conn) × (done' : List ℕ) × (read_packet input c ≡ ok (answer_for s', c'))
      × IsFilling m done' s' c'
unfolding read_packet remaining
read_packet-ok m done x s n _ s' c f waits =
    (c, done, ground (arith, ap length f.split, length-append done (x ∷ s), f.limit, f.position), f)
read_packet-ok m done x s n _ _ c f (feeds b bytes s' e h) =
    let f' = subst (λ z. IsFilling m done z c) e f in
    (
      filled_with c (b ∷ bytes),
      done ++ b ∷ bytes,
      ground (
        arith,
        sizes m done (b ∷ bytes) s' f'.split,
        f.limit,
        f.position,
        take_bytes-ok m done (b ∷ bytes) s' c f',
      ),
      IsFilling-filled_with m done (b ∷ bytes) s' c f',
    )

pub read_packet-rest :
    (m done s : List ℕ) (n : ℕ) (input : Input) (s' : List ℕ) (c : Conn)
    → IsFilling m done s c
    → 0 < length s
    → Feeds s n input s'
    → (c' : Conn) × (done' : List ℕ) × (read_packet input c ≡ ok (answer_for s', c'))
      × IsFilling m done' s' c'
read_packet-rest m done [] n input s' c f h feed = absurd (omega arith)
read_packet-rest m done (x ∷ s) n input s' c f h feed =
    read_packet-ok m done x s n input s' c f feed

-- The packet of a new connection has room for every message, so the test that one is too big never holds.
pub tcp_conn_create-IsOpen :
    (allocator memory packet_memory : Bool) (c : Conn) (fd n : ℕ)
    → tcp_conn_create allocator memory packet_memory ≡ some c
    → n < 2 ^ 16
    → IsOpen n (record c { fd = pos fd })
unfolding tcp_conn_create create
tcp_conn_create-IsOpen allocator memory packet_memory c fd n e h =
    let shape = length-replicate {A = ℕ} packet_buffer_size 0 in ground (arith, shape)
