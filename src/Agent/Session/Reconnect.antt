-- ===== src/Agent/Session/Reconnect.antt =====
-- What the agent's threads keep of the link: one descriptor while it is connected, and a timer for
-- the next `TcpReconnect` while it is not.
use vnf_monitoring.Prelude.{
  ℕ, ◌≡◌, refl, ap, ◌∙◌, inl, inr, true, false, Bool-cases, Option, some, Option-cases, List, [],
  ◌∷◌, leb, length, length-set, get_or, Leaves, arith,
}
use vnf_monitoring.Prelude.Int.{ℤ}
use vnf_monitoring.Host.Sock.{is_pos, fd_clr, RecvAnswer, tcp_snd_retry}
use vnf_monitoring.Agent.{Link, Opened, client_send, client_recv, join_link, tcp_reconnect}
use vnf_monitoring.Agent.Cases.{client_send-cases, client_recv-cases}
use vnf_monitoring.Agent.Session.{
  SendEnv, rcv_start, link_of, reopen, send_proc_state_req, heard, rcv_turn, missed, give_up,
  heartbeat, tmr_cmd_turn, Event, due, readable, expired, step, steps,
}
use vnf_monitoring.Agent.Session.Live.{
  IsId, IsLive, start_reconnect-IsLive, fd_clr-live, drop_link-IsLive,
}

reopen-IsLive :
    (n : ℕ) (opened : Opened) (s : Link)
    → IsLive n s
    → opened.left ≡ []
    → is_pos s.listen_fd ≡ false
    → IsLive n (reopen opened s)
unfolding reopen join_link
reopen-IsLive n opened s (len, inl (p, o)) clean np = absurd (ground (arith, p, np))
reopen-IsLive n opened s (len, inr (q, o, timer)) clean np =
    elim (Bool-cases (is_pos opened.result)) [
      | inl p ↦ rw (reopen, p) (len, inl (p, ap (λ l. opened.result ∷ fd_clr s.listen_fd l) o))
      | inr p ↦ rw (reopen, p, clean) (len, inr (p, ap (fd_clr s.listen_fd) o, timer))
    ]

sent-IsLive :
    (n : ℕ) (htons : ℕ → ℕ) (e : SendEnv) (msg : List ℕ) (s : Link)
    → IsId n e.id
    → IsLive n s
    → Leaves (IsLive n) (link_of (client_send htons e.id e.polls e.answers msg s))
sent-IsLive n htons e msg s i live =
    client_send-cases (IsLive n) htons e.id e.polls e.answers msg s live
      (drop_link-IsLive n e.id s i live)

send_proc_state_req-IsLive :
    (n : ℕ) (htons : ℕ → ℕ) (e : SendEnv) (msg : List ℕ) (s : Link)
    → IsId n e.id
    → e.opened.left ≡ []
    → IsLive n s
    → Leaves (IsLive n) (send_proc_state_req htons e msg s)
unfolding send_proc_state_req
send_proc_state_req-IsLive n htons e msg s i clean live = elim (Bool-cases e.malloc_ok) [
  | inr m ↦ rw (Leaves, send_proc_state_req, m) live
  | inl m ↦ elim (Bool-cases (is_pos s.listen_fd)) [
    | inl p ↦ rw (send_proc_state_req, m, p) (sent-IsLive n htons e msg s i live)
    | inr p ↦ elim (Bool-cases (is_pos e.opened.result)) [
      | inl q ↦
          rw (send_proc_state_req, m, p, q)
            (sent-IsLive n htons e msg (reopen e.opened s) i
              (reopen-IsLive n e.opened s live clean p))
      | inr q ↦ rw (Leaves, send_proc_state_req, m, p, q) (reopen-IsLive n e.opened s live clean p)
    ]
  ]
]

heartbeat-IsLive : (n : ℕ) (id : ℤ) (s : Link) → IsId n id → IsLive n s → IsLive n (heartbeat id s)
unfolding heartbeat give_up missed
heartbeat-IsLive n id s i live = elim (Bool-cases (is_pos s.listen_fd)) [
  | inr p ↦ rw (heartbeat, p) live
  | inl p ↦ elim (Bool-cases (leb tcp_snd_retry (missed s).retry_cnt)) [
    | inr r ↦ rw (heartbeat, p, give_up, r) live
    | inl r ↦
        rw (heartbeat, p, give_up, r)
          (start_reconnect-IsLive n id _ live.0 i refl (fd_clr-live n s p live))
  ]
]

heard-IsLive :
    (n : ℕ) (t : Link) (m : ℤ)
    → IsLive n t
    → Leaves
        (IsLive n)
        (elim (is_pos m) as (λ b. Option Link) [ true ↦ some (heard t) | false ↦ some t ])
unfolding heard
heard-IsLive n t m live = elim (Bool-cases (is_pos m)) [
  | inl p ↦ rw (Leaves, p) live
  | inr p ↦ rw (Leaves, p) live
]

rcv_turn-IsLive :
    (n : ℕ) (ntohs : ℕ → ℕ) (id : ℤ) (answers : List RecvAnswer) (s : Link)
    → IsId n id
    → IsLive n s
    → Leaves (IsLive n) (rcv_turn ntohs id answers s)
unfolding rcv_turn
rcv_turn-IsLive n ntohs id answers s i live = elim (Bool-cases (is_pos s.listen_fd)) [
  | inr p ↦ rw (Leaves, rcv_turn, p) live
  | inl p ↦ elim (Option-cases (client_recv ntohs id answers s)) [
    | inl e ↦ rw (Leaves, rcv_turn, p, e) tt
    | inr ((t, m), e) ↦
        rw (rcv_turn, p, e)
          (heard-IsLive n t m (
            rw e at (
              client_recv-cases (IsLive n) ntohs id answers s live
                (drop_link-IsLive n id s i live))))
  ]
]

tcp_reconnect-IsLive :
    (n : ℕ) (opened : Opened) (id : ℤ) (s : Link)
    → IsId n id
    → opened.left ≡ []
    → length s.used ≡ n
    → s.open_fds ≡ []
    → IsLive n (tcp_reconnect opened id s)
unfolding tcp_reconnect join_link
tcp_reconnect-IsLive n opened id s i clean len o = elim (Bool-cases (is_pos opened.result)) [
  | inl p ↦ rw (tcp_reconnect, p) (len, inl (p, ap (λ l. opened.result ∷ l) o))
  | inr p ↦ rw (tcp_reconnect, p, clean) (start_reconnect-IsLive n id _ len i refl o)
]

tmr_cmd_turn-IsLive :
    (n timer_id : ℕ) (opened : Opened) (id : ℤ) (s : Link)
    → IsId n id
    → opened.left ≡ []
    → IsLive n s
    → is_pos s.listen_fd ≡ false
    → IsLive n (tmr_cmd_turn timer_id opened id s)
unfolding tmr_cmd_turn
tmr_cmd_turn-IsLive n timer_id opened id s i clean (len, inl (p, o)) np =
    absurd (ground (arith, p, np))
tmr_cmd_turn-IsLive n timer_id opened id s i clean (len, inr (q, o, timer)) np =
    elim (Bool-cases (get_or s.used timer_id false)) [
      | inr u ↦ rw (tmr_cmd_turn, u) (len, inr (q, o, timer))
      | inl u ↦
          rw (tmr_cmd_turn, u)
            (tcp_reconnect-IsLive n opened id _ i clean (length-set s.used timer_id false ∙ len) o)
    ]

-- What a run is asked for: the numbers of timers are in range, a timer expires only while the link is
-- down, and a `TcpOpen` that fails does so in `socket` or in the connection, not in an option, behind
-- which the socket stays open.
abbrev pub IsOrderly : ℕ → Event → Link → Type 0
IsOrderly n (due e id msg) s = IsId n e.id × IsId n id × (e.opened.left ≡ [])
IsOrderly n (readable id answers) s = IsId n id
IsOrderly n (expired timer_id opened id) s =
    IsId n id × (is_pos s.listen_fd ≡ false) × (opened.left ≡ [])

step-IsLive :
    (n : ℕ) (htons ntohs : ℕ → ℕ) (ev : Event) (s : Link)
    → IsOrderly n ev s
    → IsLive n s
    → Leaves (IsLive n) (step htons ntohs ev s)
unfolding step
step-IsLive n htons ntohs (due e id msg) s i live =
    elim (Option-cases (send_proc_state_req htons e msg s)) [
      | inl h ↦ rw (Leaves, step, h) tt
      | inr (t, h) ↦
          rw (Leaves, step, h)
            (heartbeat-IsLive n id t i.1
              (rw h at (send_proc_state_req-IsLive n htons e msg s i.0 i.2 live)))
    ]
step-IsLive n htons ntohs (readable id answers) s i live =
    rcv_turn-IsLive n ntohs id answers s i live
step-IsLive n htons ntohs (expired timer_id opened id) s i live =
    tmr_cmd_turn-IsLive n timer_id opened id s i.0 i.2 live i.1

-- Each event of a run is orderly in the state that it meets.
abbrev pub AreOrderly : ℕ → (ℕ → ℕ) → (ℕ → ℕ) → List Event → Link → Type 0
AreOrderly n htons ntohs [] s = Unit
AreOrderly n htons ntohs (ev ∷ l) s =
    IsOrderly n ev s × Leaves (λ t. AreOrderly n htons ntohs l t) (step htons ntohs ev s)

-- Where every timer gets a number within `tmrsync`, none expires while the link is up, and no
-- `TcpOpen` fails with its socket left open, as it does after an option that is refused, a run of the
-- agent's threads from a live link leaves a live one: connected, its descriptor is the only one
-- that is open; not connected, none is, and a timer for the next `TcpReconnect` is marked used.
pub steps-IsLive :
    (n : ℕ) (htons ntohs : ℕ → ℕ) (l : List Event) (s : Link)
    → AreOrderly n htons ntohs l s
    → IsLive n s
    → Leaves (IsLive n) (steps htons ntohs l s)
unfolding steps
steps-IsLive n htons ntohs [] s a live = live
steps-IsLive n htons ntohs (ev ∷ l) s a live = elim (Option-cases (step htons ntohs ev s)) [
  | inl e ↦ rw (Leaves, steps, e) tt
  | inr (t, e) ↦
      rw (steps, e)
        (steps-IsLive n htons ntohs l t (rw e at a.1)
          (rw e at (step-IsLive n htons ntohs ev s a.0 live)))
]

-- `TcpRcvTask` starts with a live link, from one with no descriptor open.
rcv_start-IsLive :
    (n : ℕ) (opened : Opened) (id : ℤ) (s : Link)
    → IsId n id
    → opened.left ≡ []
    → length s.used ≡ n
    → s.open_fds ≡ []
    → IsLive n (rcv_start opened id s)
unfolding rcv_start join_link
rcv_start-IsLive n opened id s i clean len o = elim (Bool-cases (is_pos opened.result)) [
  | inl p ↦ rw (rcv_start, p) (len, inl (p, ap (λ l. opened.result ∷ l) o))
  | inr p ↦ rw (rcv_start, p, clean) (start_reconnect-IsLive n id _ len i p o)
]
