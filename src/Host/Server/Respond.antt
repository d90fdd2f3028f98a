-- ===== src/Host/Server/Respond.antt =====
-- The response of `SendVmProcStateRsp` of src/HOST/src/host_task.c: what it leaves alone, and that it ends.
use vnf_monitoring.Prelude.{
  ℕ, zero, suc, ◌≡◌, refl, inl, inr, Bool-cases, not, ◌&&◌, ◌||◌, Option, none, some, Option-cases,
  List, [], ◌∷◌, ◌==◌, get_or, length, Leaves,
}
use vnf_monitoring.Prelude.Int.{ℤ, pos, negsuc}
use vnf_monitoring.Host.Reports.{reset_link}
use vnf_monitoring.Host.State.{VmcSystem}
use vnf_monitoring.Host.Sock.{
  Sock, unused_accept, is_pos, Poll, wait_writable, writable, lost, given_up, ready, sent,
  tcp_snd_retry, SendAnswer, send_loop, tcp_send, disconnect, close_entry,
}
use vnf_monitoring.Host.Server.{Orders, response, send_vm_proc_state_rsp}
use vnf_monitoring.Wire.{header_bytes, u32_bytes, u16_bytes}

-- A send leaves the state as it was, or ends the connection.
tcp_send-cases :
    (P : Sock → Type 0) (htons : ℕ → ℕ) (i : ℕ) (fd : ℤ) (polls : List Poll)
    (answers : List SendAnswer) (msg : List ℕ) (s : Sock)
    → P s
    → P (disconnect i s)
    → Leaves (λ r. P r.0) (tcp_send htons i fd polls answers msg s)
unfolding tcp_send
tcp_send-cases P htons i fd polls answers msg s h d =
    elim (Bool-cases (not (is_pos fd) || (length msg == 0))) [
      | inl e ↦ rw (Leaves, tcp_send, e) h
      | inr e ↦ elim (Option-cases (wait_writable polls tcp_snd_retry)) [
        | inl w ↦ rw (Leaves, tcp_send, e, w) tt
        | inr (given_up, w) ↦ rw (Leaves, tcp_send, e, w) h
        | inr (lost, w) ↦ rw (Leaves, tcp_send, e, w) d
        | inr (writable, w) ↦ elim (Option-cases (send_loop answers (length msg) (pos 0))) [
          | inl l ↦ rw (Leaves, tcp_send, e, w, l) tt
          | inr ((total, last), l) ↦ elim (Bool-cases ((total == length msg) && is_pos last)) [
            | inl t ↦ rw (Leaves, tcp_send, e, w, l, t) h
            | inr t ↦ rw (Leaves, tcp_send, e, w, l, t) d
          ]
        ]
      ]
    ]

disconnect-stateinfo : (i : ℕ) (s : Sock) → (disconnect i s).host.stateinfo ≡ s.host.stateinfo
unfolding disconnect close_entry
disconnect-stateinfo i s =
    elim (Bool-cases (s.is_server && is_pos (get_or s.alist i unused_accept).accept_fd)) [
      | inl e ↦ rw (disconnect, e) refl
      | inr e ↦ rw (disconnect, e) refl
    ]

-- The response, sent to the sender of a known machine, with the machine's counter reset.
abbrev reset_sock : List VmcSystem → Sock → Sock
reset_sock l s = record s { host = record s.host { conf = record s.host.conf { vmc_system = l } } }

sent-stateinfo :
    (o : Orders) (idx systemid : ℕ) (fd : ℤ) (polls : List Poll) (answers : List SendAnswer)
    (t : Sock)
    → Leaves
        (λ u. u.host.stateinfo ≡ t.host.stateinfo)
        (elim (tcp_send o.htons idx fd polls answers (response o systemid) t)
          as (λ z. Option Sock) [ none ↦ none | some (u, r, w) ↦ some u ])
sent-stateinfo o idx systemid fd polls answers t =
    elim (Option-cases (tcp_send o.htons idx fd polls answers (response o systemid) t)) [
      | inl e ↦ rw (Leaves, e) tt
      | inr ((u, r, w), e) ↦
          rw (Leaves, e)
            (rw e at (
              tcp_send-cases (λ u. u.host.stateinfo ≡ t.host.stateinfo) o.htons idx fd polls answers
                (response o systemid) t refl (disconnect-stateinfo idx t)))
    ]

pub send_vm_proc_state_rsp-stateinfo :
    (o : Orders) (idx systemid : ℕ) (polls : List Poll) (answers : List SendAnswer) (s : Sock)
    → Leaves
        (λ t. t.host.stateinfo ≡ s.host.stateinfo)
        (send_vm_proc_state_rsp o idx systemid polls answers s)
unfolding send_vm_proc_state_rsp
send_vm_proc_state_rsp-stateinfo o idx systemid polls answers s =
    elim (Option-cases
      (reset_link (get_or s.alist idx unused_accept).systemaddr s.host.conf.vmc_system)) [
        | inl e ↦ rw (Leaves, send_vm_proc_state_rsp, e) refl
        | inr (l, e) ↦
            rw (send_vm_proc_state_rsp, e) (by_fd l (get_or s.alist idx unused_accept).accept_fd)
      ]
  where
    by_fd :
        (l : List VmcSystem) (fd : ℤ)
        → Leaves
            (λ t. t.host.stateinfo ≡ s.host.stateinfo)
            (elim fd as (λ z. Option Sock) [
              | negsuc n ↦ some (reset_sock l s)
              | pos n ↦
                  elim (tcp_send o.htons idx
                    (pos n)
                    polls
                    answers
                    (response o systemid)
                    (reset_sock l s)) [ none ↦ none | some (u, r, w) ↦ some u ]
            ])
    by_fd l (negsuc n) = refl
    by_fd l (pos n) = sent-stateinfo o idx systemid (pos n) polls answers (reset_sock l s)

response-ends :
    (o : Orders) (idx systemid n : ℕ) (polls : List Poll) (answers : List SendAnswer) (t : Sock)
    → (u : Sock) × (r : ℤ) × (w : List ℕ) × (tcp_send o.htons idx
          (pos n)
          (ready ∷ polls)
          (sent 12 ∷ answers)
          (response o systemid)
          t
        ≡ some (u, r, w))
unfolding tcp_send wait_writable send_loop response header_bytes u32_bytes u16_bytes
response-ends o idx systemid zero polls answers t = (t, negsuc 0, [], refl)
response-ends o idx systemid (suc n) polls answers t = (t, _, _, refl)

by_fd-ends :
    (o : Orders) (idx systemid : ℕ) (fd : ℤ) (polls : List Poll) (answers : List SendAnswer)
    (t : Sock)
    → (u : Sock) × ((elim fd as (λ z. Option Sock) [
      | negsuc n ↦ some t
      | pos n ↦
          elim (tcp_send o.htons idx
            (pos n)
            (ready ∷ polls)
            (sent 12 ∷ answers)
            (response o systemid)
            t) [ none ↦ none | some (u, r, w) ↦ some u ]
    ])
        ≡ some u)
by_fd-ends o idx systemid (negsuc n) polls answers t = (t, refl)
by_fd-ends o idx systemid (pos n) polls answers t =
    let (u, r, w, e) = response-ends o idx systemid n polls answers t in (u, rw e refl)

-- Where the connection is ready and takes the 12 bytes of the response, the call that sends it comes to
-- an end, whether the sender is known or not.
pub send_vm_proc_state_rsp-ends :
    (o : Orders) (idx systemid : ℕ) (polls : List Poll) (answers : List SendAnswer) (s : Sock)
    → (u : Sock) × (send_vm_proc_state_rsp o idx systemid (ready ∷ polls) (sent 12 ∷ answers) s
        ≡ some u)
unfolding send_vm_proc_state_rsp
send_vm_proc_state_rsp-ends o idx systemid polls answers s =
    elim (Option-cases
      (reset_link (get_or s.alist idx unused_accept).systemaddr s.host.conf.vmc_system)) [
        | inl e ↦ (s, rw (send_vm_proc_state_rsp, e) refl)
        | inr (l, e) ↦
            let (u, f) =
              by_fd-ends o idx systemid (get_or s.alist idx unused_accept).accept_fd polls answers
                (reset_sock l s) in
            (u, rw (send_vm_proc_state_rsp, e) f)
      ]
