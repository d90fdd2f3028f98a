-- ===== src/Host/Server/Bounds.antt =====
-- The buffer of `tcp_rcvTask` holds every message: what is received, and what its header makes
-- `tcp_PutFifo` copy, stays inside.
use vnf_monitoring.Prelude.{
  ℕ, ◌≤◌, ◌<◌, ◌^◌, ◌≡◌, refl, ◌∙◌, inl, inr, Bool, true, false, Bool-cases, Option, none, some,
  Option-cases, ◌⊎◌, List, [], ◌∷◌, ◌++◌, get_or, drop, arith, length, length-drop, Leaves,
}
use vnf_monitoring.Prelude.Int.{ℤ}
use vnf_monitoring.Host.Fifo.{TcpHeader, Fifo, Malloc, tcp_put_fifo}
use vnf_monitoring.Host.Fifo.Chain.{Placed}
use vnf_monitoring.Host.Fifo.Refine.{IsQueue}
use vnf_monitoring.Host.Fifo.Deliver.{tcp_put_fifo-refines, tcp_put_fifo-fails}
use vnf_monitoring.Host.Sock.{Sock, unused_accept, is_pos, RecvAnswer, tcp_recv}
use vnf_monitoring.Host.Server.{
  Orders, Server, Ready, tcp_msg_ntoh, comhdr_length, buf_size, write_payload, learn_address,
  tcpd_sock_event, rcv_connection, rcv_connections,
}
use vnf_monitoring.Wire.{header_bytes, header_at, u32_bytes, u16_bytes}
use vnf_monitoring.Host.Server.Lengths.{FitBoth, tcp_recv-length, write_payload-safe}

-- The buffer has its size, and the queue is one.
abbrev pub IsGood : Server → Type 0
IsGood s = (length s.buf ≡ buf_size) × ((l : List Placed) × IsQueue s.fifo l)

-- A call of `tcp_PutFifo` with room for the message: whatever `malloc` answers, no access is out of bounds.
tcp_put_fifo-safe :
    (b : Option ℕ) (ok : Bool) (h : TcpHeader) (idx : ℕ) (bytes : List ℕ) (s : Fifo)
    (l : List Placed)
    → IsQueue s l
    → Leaves (λ a. s.cell a ≡ none) b
    → h.msg_size ≤ length bytes
    → (r : Bool) × (t : Fifo) × (k : List Placed) × (tcp_put_fifo
          (record { block_at = b; message_ok = ok })
          h
          idx
          bytes
          s
        ≡ some (r, t))
      × IsQueue t k
tcp_put_fifo-safe none ok h idx bytes s l q free room = (
  false,
  s,
  l,
  (tcp_put_fifo-fails s (record { block_at = none; message_ok = ok }) h idx bytes).0 (inl refl),
  q,
)
tcp_put_fifo-safe (some a) false h idx bytes s l q free room = (
  false,
  s,
  l,
  (tcp_put_fifo-fails s (record { block_at = some a; message_ok = false }) h idx bytes).0
      (inr refl),
  q,
)
tcp_put_fifo-safe (some a) true h idx bytes s l q free room =
    let (t, run, tq) = tcp_put_fifo-refines s l a h idx bytes q free room in (true, t, _, run, tq)

event-result :
    (o : Orders) (env : Malloc) (i : ℕ) (s : Server) (r : Bool) (t : Fifo)
    → tcp_put_fifo env (tcp_msg_ntoh o (header_at s.buf)) i (drop comhdr_length s.buf) s.fifo
      ≡ some (r, t)
    → tcpd_sock_event o env i s
      ≡ some (record s {
        fifo = t;
        buf = header_bytes (tcp_msg_ntoh o (header_at s.buf)) ++ drop comhdr_length s.buf;
      })
unfolding tcpd_sock_event
event-result o env i s r t run = rw (tcpd_sock_event, run) refl

-- The header is written back over the 12 bytes that it was read from.
event-length :
    (h : TcpHeader) (buf : List ℕ)
    → 12 ≤ length buf
    → length (header_bytes h ++ drop 12 buf) ≡ length buf
unfolding header_bytes u32_bytes u16_bytes
event-length h buf room = omega (arith, length-drop 12 buf, room)

tcpd_sock_event-safe :
    (o : Orders) (env : Malloc) (i : ℕ) (s : Server)
    → ((n : ℕ) → o.ntohs n < 2 ^ 16)
    → Leaves (λ a. s.fifo.cell a ≡ none) env.block_at
    → IsGood s
    → (t : Server) × (tcpd_sock_event o env i s ≡ some t) × IsGood t
tcpd_sock_event-safe o env i s small free (size, (l, q)) =
    let (r, t, k, run, tq) =
      tcp_put_fifo-safe env.block_at env.message_ok (tcp_msg_ntoh o (header_at s.buf)) i
        (drop comhdr_length s.buf) s.fifo l q free
        (omega (arith, small (header_at s.buf).msg_size, length-drop 12 s.buf, size)) in
    (
      record s {
        fifo = t;
        buf = header_bytes (tcp_msg_ntoh o (header_at s.buf)) ++ drop comhdr_length s.buf;
      },
      event-result o env i s r t run,
      (event-length (tcp_msg_ntoh o (header_at s.buf)) s.buf (omega (arith, size)) ∙ size, (k, tq)),
    )

connection-dropped :
    (o : Orders) (name_of : ℕ → List ℕ) (env : Malloc) (i : ℕ) (answers : List RecvAnswer)
    (s : Server) (sock : Sock) (n : ℤ) (payload b : List ℕ)
    → tcp_recv o.ntohs i answers s.sock ≡ some (sock, n, payload)
    → write_payload payload s.buf ≡ some b
    → is_pos n ≡ false
    → rcv_connection o name_of env i answers s ≡ some (record s { sock = sock; buf = b })
unfolding rcv_connection
connection-dropped o name_of env i answers s sock n payload b recv write p =
    rw (rcv_connection, recv, write, p) refl

connection-taken :
    (o : Orders) (name_of : ℕ → List ℕ) (env : Malloc) (i : ℕ) (answers : List RecvAnswer)
    (s t : Server) (sock : Sock) (n : ℤ) (payload b : List ℕ)
    → tcp_recv o.ntohs i answers s.sock ≡ some (sock, n, payload)
    → write_payload payload s.buf ≡ some b
    → is_pos n ≡ true
    → tcpd_sock_event o env i (record s { sock = learn_address o name_of i b sock; buf = b })
      ≡ some t
    → rcv_connection o name_of env i answers s ≡ some t
unfolding rcv_connection
connection-taken o name_of env i answers s t sock n payload b recv write p run =
    rw (rcv_connection, recv, write, p, run) refl

-- What the system gives for a connection: `recv` gives no more than asked for; `malloc` gives an
-- address that is free.
abbrev pub IsServed : Orders → Ready → Server → Type 0
IsServed o r s = FitBoth o.ntohs r.answers × Leaves (λ a. s.fifo.cell a ≡ none) r.malloc.block_at

-- The call of `TcpRecv` has asked for bytes that have not come.
abbrev pub Waits : Orders → Ready → Server → Type 0
Waits o r s = tcp_recv o.ntohs r.index r.answers s.sock ≡ none

rcv_connection-safe :
    (o : Orders) (name_of : ℕ → List ℕ) (r : Ready) (s : Server)
    → ((n : ℕ) → o.ntohs n < 2 ^ 16)
    → IsServed o r s
    → IsGood s
    → ((t : Server) × (rcv_connection o name_of r.malloc r.index r.answers s ≡ some t) × IsGood t)
      ⊎ Waits o r s
rcv_connection-safe o name_of r s small (fit, free) (size, q) =
    elim (Option-cases (tcp_recv o.ntohs r.index r.answers s.sock)) [
      | inl e ↦ inr e
      | inr ((sock, n, payload), e) ↦
          let short : length payload < 2 ^ 16 =
            rw e at (tcp_recv-length o.ntohs r.index r.answers s.sock small fit) in
          let (b, write, len) = write_payload-safe payload s.buf size short in
          elim (Bool-cases (is_pos n)) [
            | inr p ↦ inl (
              record s { sock = sock; buf = b },
              connection-dropped o name_of r.malloc r.index r.answers s sock n payload b e write p,
              (len, q),
            )
            | inl p ↦
                let (t, run, good) =
                  tcpd_sock_event-safe o r.malloc r.index
                    (record s { sock = learn_address o name_of r.index b sock; buf = b }) small free
                    (len, q) in
                inl (
                  t,
                  connection-taken o name_of r.malloc r.index r.answers s t sock n payload b e write
                      p run,
                  good,
                )
          ]
    ]

-- Whether the connection is open, so that it is received from, or is passed over.
abbrev pub Opened : Bool → Ready → Server → Type 0
Opened b r s = is_pos (get_or s.sock.alist r.index unused_accept).accept_fd ≡ b

-- The same for each connection of a turn that is open when its turn comes.
abbrev pub AreServed : Orders → (ℕ → List ℕ) → List Ready → Server → Type 0
AreServed o name_of [] s = Unit
AreServed o name_of (r ∷ l) s =
    elim (is_pos (get_or s.sock.alist r.index unused_accept).accept_fd) as (λ b. Type 0) [
      | false ↦ AreServed o name_of l s
      | true ↦
          IsServed o r s
          × Leaves (λ t. AreServed o name_of l t)
              (rcv_connection o name_of r.malloc r.index r.answers s)
    ]

-- The loop is inside `TcpRecv` of a connection, and was in order until then.
pub data Stalls (o : Orders) (name_of : ℕ → List ℕ) : List Ready → Server → Type 0 where
  here :
      (r : Ready) (l : List Ready) (s : Server)
      → IsGood s
      → Opened true r s
      → Waits o r s
      → Stalls o name_of (r ∷ l) s
  passed :
      (r : Ready) (l : List Ready) (s : Server)
      → Opened false r s
      → Stalls o name_of l s
      → Stalls o name_of (r ∷ l) s
  received :
      (r : Ready) (l : List Ready) (s t : Server)
      → Opened true r s
      → rcv_connection o name_of r.malloc r.index r.answers s ≡ some t
      → Stalls o name_of l t
      → Stalls o name_of (r ∷ l) s

-- Whatever bytes the connections that are ready send, and whatever lengths they claim, in the TPKT
-- header and in the message's own, the loop of `tcp_rcvTask` over them makes no access out of bounds:
-- where `recv` gives at most what was asked for and `malloc` a block that is free, the loop either
-- comes to an end, with the buffer of its size and a queue that is one, or it waits inside the
-- `TcpRecv` of a connection for bytes that have not come, with buffer and queue in order.
pub rcv_connections-safe :
    (o : Orders) (name_of : ℕ → List ℕ) (l : List Ready) (s : Server)
    → ((n : ℕ) → o.ntohs n < 2 ^ 16)
    → AreServed o name_of l s
    → IsGood s
    → ((t : Server) × (rcv_connections o name_of l s ≡ some t) × IsGood t) ⊎ Stalls o name_of l s
unfolding rcv_connections
rcv_connections-safe o name_of [] s small a good = inl (s, refl, good)
rcv_connections-safe o name_of (r ∷ l) s small a good =
    elim (Bool-cases (is_pos (get_or s.sock.alist r.index unused_accept).accept_fd)) [
      | inr p ↦ elim (rcv_connections-safe o name_of l s small (rw (AreServed, p) at a) good) [
        | inl (t, run, g) ↦ inl (t, rw (rcv_connections, p) run, g)
        | inr stall ↦ inr (passed r l s p stall)
      ]
      | inl p ↦
          let both_served : IsServed o r s
              × Leaves (λ t. AreServed o name_of l t)
                  (rcv_connection o name_of r.malloc r.index r.answers s) =
            rw (AreServed, p) at a in
          let (served, rest) = both_served in
          elim (rcv_connection-safe o name_of r s small served good) [
            | inr waits ↦ inr (here r l s good p waits)
            | inl (u, first, good_u) ↦
                elim (rcv_connections-safe o name_of l u small (rw first at rest) good_u) [
                  | inl (t, run, g) ↦ inl (t, rw (rcv_connections, p, first) run, g)
                  | inr stall ↦ inr (received r l s u p first stall)
                ]
          ]
    ]
