-- ===== src/Agent/Cases.antt =====
-- The outcomes of `TcpSend` and `TcpRecv` of src/VMCT/src/vmct_sock.c for the link.
use vnf_monitoring.Prelude.{
  ℕ, ◌+◌, ◌-◌, inl, inr, not, ◌&&◌, ◌||◌, Bool-cases, Option-cases, List, ◌==◌, length, Leaves,
}
use vnf_monitoring.Prelude.Int.{ℤ, pos}
use vnf_monitoring.Host.Sock.{
  is_pos, RecvAnswer, recv_loop, is_whole, datasize, tpkt_header_size, Poll, wait_writable,
  writable, lost, given_up, tcp_snd_retry, SendAnswer, send_loop,
}
use vnf_monitoring.Agent.{Link, drop_link, client_send, client_recv}
use vnf_monitoring.Agent.Session.{link_of}

-- A send, and a receive, leaves the link as it was or ends it.
pub client_send-cases :
    (P : Link → Type 0) (htons : ℕ → ℕ) (id : ℤ) (polls : List Poll) (answers : List SendAnswer)
    (msg : List ℕ) (s : Link)
    → P s
    → P (drop_link id s)
    → Leaves P (link_of (client_send htons id polls answers msg s))
unfolding client_send
client_send-cases P htons id polls answers msg s h d =
    elim (Bool-cases (not (is_pos s.listen_fd) || (length msg == 0))) [
      | inl e ↦ rw (Leaves, link_of, client_send, e) h
      | inr e ↦ elim (Option-cases (wait_writable polls tcp_snd_retry)) [
        | inl w ↦ rw (Leaves, link_of, client_send, e, w) tt
        | inr (given_up, w) ↦ rw (Leaves, link_of, client_send, e, w) h
        | inr (lost, w) ↦ rw (Leaves, link_of, client_send, e, w) d
        | inr (writable, w) ↦ elim (Option-cases (send_loop answers (length msg) (pos 0))) [
          | inl l ↦ rw (Leaves, link_of, client_send, e, w, l) tt
          | inr ((total, last), l) ↦ elim (Bool-cases ((total == length msg) && is_pos last)) [
            | inl t ↦ rw (Leaves, link_of, client_send, e, w, l, t) h
            | inr t ↦ rw (Leaves, link_of, client_send, e, w, l, t) d
          ]
        ]
      ]
    ]

pub client_recv-cases :
    (P : Link → Type 0) (ntohs : ℕ → ℕ) (id : ℤ) (answers : List RecvAnswer) (s : Link)
    → P s
    → P (drop_link id s)
    → Leaves (λ r. P r.0) (client_recv ntohs id answers s)
unfolding client_recv
client_recv-cases P ntohs id answers s h d =
    elim (Option-cases (recv_loop answers tpkt_header_size (pos 0))) [
      | inl e ↦ rw (Leaves, client_recv, e) tt
      | inr (r, e) ↦ elim (Bool-cases (is_whole tpkt_header_size r)) [
        | inr w ↦ rw (Leaves, client_recv, e, w) d
        | inl w ↦
            elim (Option-cases
              (recv_loop r.rest (datasize ntohs r.bytes - tpkt_header_size) (pos 0))) [
                | inl f ↦ rw (Leaves, client_recv, e, w, f) tt
                | inr (b, f) ↦
                    elim (Bool-cases (
                      (tpkt_header_size + length b.bytes == datasize ntohs r.bytes)
                      && is_pos b.last)) [
                        | inl t ↦ rw (Leaves, client_recv, e, w, f, t) h
                        | inr t ↦ rw (Leaves, client_recv, e, w, f, t) d
                      ]
              ]
      ]
    ]
