-- ===== src/Host/Server/Lengths.antt =====
-- How much `TcpRecv` of src/HOST/src/host_sock.c puts into the buffer of `tcp_rcvTask`.
use vnf_monitoring.Prelude.{
  ℕ, ◌+◌, ◌-◌, ◌≤◌, ◌<◌, ◌^◌, ◌≡◌, refl, inl, inr, true, false, Bool-cases, ◌&&◌, ◌==◌, Option,
  none, some, Option-cases, List, ◌++◌, ltb, take, drop, arith, length, length-append, length-take,
  length-drop, Leaves,
}
use vnf_monitoring.Prelude.Int.{ℤ, pos}
use vnf_monitoring.Host.Sock.{
  Sock, is_pos, RecvAnswer, Received, recv_loop, is_whole, datasize, tpkt_header_size, tcp_recv,
  disconnect_machine,
}
use vnf_monitoring.Host.Sock.Recv.{Fits, Ends, recv_loop-Ends}
use vnf_monitoring.Host.Server.{buf_size, write_payload}

-- What the system promises of `recv` for both loops of `TcpRecv`.
abbrev pub FitBoth : (ℕ → ℕ) → List RecvAnswer → Type 0
FitBoth ntohs answers =
    Fits answers 4
    × Leaves (λ h. Fits h.rest (datasize ntohs h.bytes - 4)) (recv_loop answers 4 (pos 0))

Ends-length : (n : ℕ) (last : ℤ) (r : Received) → Ends n last r → length r.bytes ≤ n
Ends-length n last r (inl (e, same, nz)) = omega (arith, e)
Ends-length n last r (inr (e, np)) = omega (arith, e)

payload-Leaves :
    (i : ℕ) (s : Sock) (h : Received) (total : ℕ) (o : Option Received)
    → total < 2 ^ 16
    → Leaves (Ends (total - 4) (pos 0)) o
    → (f : Received → Sock)
    → Leaves
        (λ r. length r.2 < 2 ^ 16)
        (elim o as (λ z. Option (Sock × ℤ × List ℕ)) [
          | none ↦ none
          | some b ↦ some (f b, b.last, b.bytes)
        ])
payload-Leaves i s h total none small e f = tt
payload-Leaves i s h total (some b) small e f =
    omega (arith, small, Ends-length (total - 4) (pos 0) b e)

-- `TcpRecv` puts fewer than 65536 bytes behind the header's place.
pub tcp_recv-length :
    (ntohs : ℕ → ℕ) (i : ℕ) (answers : List RecvAnswer) (s : Sock)
    → ((n : ℕ) → ntohs n < 2 ^ 16)
    → FitBoth ntohs answers
    → Leaves (λ r. length r.2 < 2 ^ 16) (tcp_recv ntohs i answers s)
unfolding tcp_recv datasize
tcp_recv-length ntohs i answers s small (f, g) = elim (Option-cases (recv_loop answers 4 (pos 0))) [
  | inl e ↦ rw (Leaves, tcp_recv, e) tt
  | inr (h, e) ↦ elim (Bool-cases (is_whole tpkt_header_size h)) [
    | inr part ↦ rw (Leaves, tcp_recv, e, part) (omega arith)
    | inl whole ↦
        rw (tcp_recv, e, whole)
          (payload-Leaves i s h (datasize ntohs h.bytes)
            (recv_loop h.rest (datasize ntohs h.bytes - 4) (pos 0)) (small _)
            (recv_loop-Ends h.rest (datasize ntohs h.bytes - 4) (pos 0) (rw e at g))
            (λ b.
              elim ((tpkt_header_size + length b.bytes == datasize ntohs h.bytes)
                && is_pos b.last) [ true ↦ s | false ↦ disconnect_machine i s ]))
  ]
]

pub write_payload-safe :
    (payload buf : List ℕ)
    → length buf ≡ buf_size
    → length payload < 2 ^ 16
    → (b : List ℕ) × (write_payload payload buf ≡ some b) × (length b ≡ buf_size)
unfolding write_payload
write_payload-safe payload buf size small =
    let enough : ltb (length buf) (4 + length payload) ≡ false = ground (arith, size, small) in
    let rest = drop (4 + length payload) buf in
    (
      take 4 buf ++ (payload ++ rest),
      rw (write_payload, enough) refl,
      omega (
        arith,
        size,
        small,
        length-append (take 4 buf) (payload ++ rest),
        length-append payload rest,
        length-take 4 buf,
        length-drop (4 + length payload) buf,
      ),
    )
