-- ===== src/Host/Server/Delivery.antt =====
-- A message on its way through the two threads of the host server: from the connection to the queue,
-- and from there to `stateinfo`.
use vnf_monitoring.Prelude.{
  ℕ, ◌+◌, ◌≤◌, ◌<◌, ◌^◌, ◌≡◌, refl, ap, sym, subst, ◌∙◌, inl, inr, true, false, Bool-cases, none,
  some, List, [], ◌∷◌, ◌++◌, ◌==◌, map, ltb, get_or, take, drop, arith, length, length-append,
}
use vnf_monitoring.Prelude.Int.{ℤ}
use vnf_monitoring.Host.State.{zero_system}
use vnf_monitoring.Host.Fifo.{TcpHeader, Block, Fifo, tcp_put_fifo}
use vnf_monitoring.Host.Fifo.Chain.{Placed}
use vnf_monitoring.Host.Fifo.Refine.{IsQueue}
use vnf_monitoring.Host.Fifo.Deliver.{block_of, both, tcp_put_fifo-refines}
use vnf_monitoring.Host.Sock.{Sock, is_pos, RecvAnswer, chunk, tcp_recv, with_tpkt}
use vnf_monitoring.Host.Sock.Send.{ArePieces, joined, tcp_recv-with_tpkt}
use vnf_monitoring.Host.Server.{
  Orders, AreOrders, tcp_msg_ntoh, Server, write_payload, set_address, learn_address,
  tcpd_sock_event, rcv_connection,
}
use vnf_monitoring.Wire.{u32_at, header_bytes, header_at, u32_bytes, u16_bytes}
use vnf_monitoring.Wire.RoundTrip.{IsHeader, take-exact, u32_at-u32_bytes, u16_at-u16_bytes}

-- The buffer behind a message of a header and a body, of which it holds all but the first four bytes.
abbrev filled_buf : List ℕ → TcpHeader → List ℕ → List ℕ
filled_buf buf h body =
    take 4 buf
    ++ (drop 4 (header_bytes h ++ body) ++ drop (4 + length (drop 4 (header_bytes h ++ body))) buf)

four : (l : List ℕ) → 4 ≤ length l → (a b c d : ℕ) × (take 4 l ≡ a ∷ b ∷ c ∷ d ∷ [])
four [] h = absurd (omega (arith, h))
four (a ∷ []) h = absurd (omega (arith, h))
four (a ∷ b ∷ []) h = absurd (omega (arith, h))
four (a ∷ b ∷ c ∷ []) h = absurd (omega (arith, h))
four (a ∷ b ∷ c ∷ d ∷ l) h = (a, b, c, d, refl)

header_at-four :
    (a b c d : ℕ) (h : TcpHeader) (rest : List ℕ)
    → IsHeader h
    → header_at (a ∷ b ∷ c ∷ d ∷ (drop 4 (header_bytes h) ++ rest))
      ≡ record h { tpkt_hdr = u32_at (a ∷ b ∷ c ∷ d ∷ []) }
unfolding header_at header_bytes u32_bytes u16_bytes u32_at
header_at-four a b c d h rest v =
    rw
      (
        header_at,
        u32_at-u32_bytes h.system_id (u16_bytes h.msg_type ++ (u16_bytes h.msg_size ++ rest))
            v.system,
        u16_at-u16_bytes h.msg_type (u16_bytes h.msg_size ++ rest) v.type,
        u16_at-u16_bytes h.msg_size rest v.size,
      )
      refl

-- What the buffer holds: the header with other first bytes, and the body.
filled_buf_lem :
    (buf : List ℕ) (h : TcpHeader) (body : List ℕ)
    → IsHeader h
    → 4 ≤ length buf
    → (n : ℕ) × (rest : List ℕ) × (header_at (filled_buf buf h body) ≡ record h { tpkt_hdr = n })
      × (drop 12 (filled_buf buf h body) ≡ body ++ rest)
unfolding header_bytes u32_bytes u16_bytes
filled_buf_lem buf h body v room =
    let (a, b, c, d, e) = four buf room in
    let rest = drop (4 + length (drop 4 (header_bytes h ++ body))) buf in
    (
      u32_at (a ∷ b ∷ c ∷ d ∷ []),
      rest,
      ap (λ p. header_at (p ++ (drop 4 (header_bytes h ++ body) ++ rest))) e
          ∙ header_at-four a b c d h (body ++ rest) v,
      ap (λ p. drop 12 (p ++ (drop 4 (header_bytes h ++ body) ++ rest))) e,
    )

write_payload-room :
    (payload buf : List ℕ)
    → 4 + length payload ≤ length buf
    → write_payload payload buf ≡ some (take 4 buf ++ (payload ++ drop (4 + length payload) buf))
unfolding write_payload
write_payload-room payload buf room =
    let enough : ltb (length buf) (4 + length payload) ≡ false = ground (arith, room) in
    rw (write_payload, enough) refl

learn_address-stateinfo :
    (o : Orders) (name_of : ℕ → List ℕ) (i : ℕ) (buf : List ℕ) (s : Sock)
    → (learn_address o name_of i buf s).host.stateinfo ≡ s.host.stateinfo
unfolding learn_address set_address
learn_address-stateinfo o name_of i buf s =
    elim (Bool-cases ((get_or s.host.conf.vmc_system i zero_system).systemport == 0)) [
      | inl e ↦ rw (learn_address, e) refl
      | inr e ↦ rw (learn_address, e) refl
    ]

-- The block that the server makes of a message in network order.
abbrev pub block_for : Orders → ℕ → TcpHeader → List ℕ → Block
block_for o i h body = block_of (tcp_msg_ntoh o h) i body

event-run :
    (o : Orders) (i a : ℕ) (s : Server) (f : Fifo)
    → tcp_put_fifo (both a) (tcp_msg_ntoh o (header_at s.buf)) i (drop 12 s.buf) s.fifo
      ≡ some (true, f)
    → tcpd_sock_event o (both a) i s
      ≡ some (record s {
        fifo = f;
        buf = header_bytes (tcp_msg_ntoh o (header_at s.buf)) ++ drop 12 s.buf;
      })
unfolding tcpd_sock_event
event-run o i a s f run = rw (tcpd_sock_event, run) refl

event-puts :
    (o : Orders) (i a n : ℕ) (h : TcpHeader) (body rest : List ℕ) (s : Server) (l : List Placed)
    → o.ntohs h.msg_size ≡ length body
    → header_at s.buf ≡ record h { tpkt_hdr = n }
    → drop 12 s.buf ≡ body ++ rest
    → IsQueue s.fifo l
    → s.fifo.cell a ≡ none
    → (f : Fifo) × (b : List ℕ) × (tcpd_sock_event o (both a) i s
        ≡ some (record s { fifo = f; buf = b }))
      × IsQueue f (l ++ ((a, block_for o i h body) ∷ []))
event-puts o i a n h body rest s l size head behind q free =
    let g : TcpHeader = tcp_msg_ntoh o (record h { tpkt_hdr = n }) in
    let (f, run, fq) =
      tcp_put_fifo-refines s.fifo l a g i (body ++ rest) q free
        (omega (arith, size, length-append body rest)) in
    (
      f,
      header_bytes (tcp_msg_ntoh o (header_at s.buf)) ++ drop 12 s.buf,
      event-run o i a s f (
          ap (λ k. tcp_put_fifo (both a) (tcp_msg_ntoh o k) i (drop 12 s.buf) s.fifo) head
          ∙ ap (λ z. tcp_put_fifo (both a) g i z s.fifo) behind
          ∙ run),
      subst (λ z. IsQueue f (l ++ ((a, block_of g i z) ∷ [])))
          (take-exact (o.ntohs h.msg_size) body rest (sym size)) fq,
    )

connection-run :
    (o : Orders) (name_of : ℕ → List ℕ) (i a : ℕ) (answers : List RecvAnswer) (s t : Server) (n : ℤ)
    (payload buf : List ℕ)
    → tcp_recv o.ntohs i answers s.sock ≡ some (s.sock, n, payload)
    → is_pos n ≡ true
    → write_payload payload s.buf ≡ some buf
    → tcpd_sock_event o
        (both a)
        i
        (record s { sock = learn_address o name_of i buf s.sock; buf = buf })
      ≡ some t
    → rcv_connection o name_of (both a) i answers s ≡ some t
unfolding rcv_connection
connection-run o name_of i a answers s t n payload buf recv p write run =
    rw (rcv_connection, recv, write, p, run) refl

-- A message of a header and a body, the header telling the body's length, comes in under its TPKT header
-- in whatever non-empty pieces: where it fits the buffer and there is memory, `TcpRecv` and
-- `TcpdSock_Event` put one block with the body last in the queue, and `stateinfo` is as before.
pub rcv_connection-puts :
    (o : Orders) (name_of : ℕ → List ℕ) (i a : ℕ) (h : TcpHeader) (body b c : List ℕ)
    (k l : List (List ℕ)) (rest : List RecvAnswer) (s : Server) (q : List Placed)
    → AreOrders o
    → IsHeader h
    → o.ntohs h.msg_size ≡ length body
    → 12 + length body < 2 ^ 16
    → 12 + length body ≤ length s.buf
    → ArePieces (b ∷ k)
    → ArePieces (c ∷ l)
    → joined (b ∷ k) ≡ take 4 (with_tpkt o.htons (header_bytes h ++ body))
    → joined (c ∷ l) ≡ drop 4 (header_bytes h ++ body)
    → IsQueue s.fifo q
    → s.fifo.cell a ≡ none
    → (t : Server) × (rcv_connection o name_of
          (both a)
          i
          (map chunk (b ∷ k) ++ (map chunk (c ∷ l) ++ rest))
          s
        ≡ some t)
      × IsQueue t.fifo (q ++ ((a, block_for o i h body) ∷ []))
      × (t.sock.host.stateinfo ≡ s.sock.host.stateinfo)
unfolding header_bytes u32_bytes u16_bytes
rcv_connection-puts o name_of i a h body b c k l rest s q orders v size short room pb pc eb ec queue
      free =
    let msg = header_bytes h ++ body in
    let (n, p, recv) =
      tcp_recv-with_tpkt o.htons o.ntohs i msg b c k l rest s.sock orders.htons-small
        orders.ntohs-htons (omega arith) (omega (arith, short)) pb pc eb ec in
    let (m, behind, head, place) = filled_buf_lem s.buf h body v (omega (arith, room)) in
    let buf = filled_buf s.buf h body in
    let (f, after, run, fq) =
      event-puts o i a m h body behind
        (record s { sock = learn_address o name_of i buf s.sock; buf = buf }) q size head place
        queue free in
    (
      record s { sock = learn_address o name_of i buf s.sock; fifo = f; buf = after },
      connection-run o name_of i a _ s _ n (drop 4 msg) buf recv p
          (write_payload-room (drop 4 msg) s.buf (omega (arith, room))) run,
      fq,
      learn_address-stateinfo o name_of i buf s.sock,
    )
