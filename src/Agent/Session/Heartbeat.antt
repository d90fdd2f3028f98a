-- ===== src/Agent/Session/Heartbeat.antt =====
-- The watch of `TcpSessionTask` over the link, and the race of its two ways to reconnect.
use vnf_monitoring.Prelude.{
  ℕ, zero, suc, ◌+◌, ◌≤◌, ◌<◌, ◌≡◌, refl, ap, ◌∙◌, inl, inr, true, false, Bool-cases, some, List,
  [], ◌∷◌, leb, ltb, get_or, All, arith, if◌then◌else◌,
}
use vnf_monitoring.Prelude.Int.{ℤ, pos, negsuc}
use vnf_monitoring.Host.Sock.{is_pos, fd_clr, tcp_snd_retry}
use vnf_monitoring.Agent.{
  Link, Opened, tcptmr_start, tcptmr_stop, start_reconnect, join_link, client_send, tcp_reconnect,
}
use vnf_monitoring.Agent.Session.{
  SendEnv, link_of, reopen, send_proc_state_req, heard, missed, give_up, heartbeat, tmr_cmd_turn,
}

-- Heartbeats with nothing heard in between.
pub silent : ℤ → ℕ → Link → Link
silent id zero s = s
silent id (suc k) s = silent id k (heartbeat id s)

-- The link `n` heartbeats after the last answer.
abbrev pub waiting : ℕ → Link → Link
waiting n s = record s { retry_cnt = n; recv_flag = false }

give_up-low : (id : ℤ) (s : Link) → leb tcp_snd_retry s.retry_cnt ≡ false → give_up id s ≡ s
unfolding give_up
give_up-low id s low = rw (give_up, low) refl

heartbeat-up :
    (id : ℤ) (n : ℕ) (s : Link)
    → is_pos s.listen_fd ≡ true
    → n < 2
    → heartbeat id (waiting n s) ≡ waiting (suc n) s
unfolding heartbeat missed
heartbeat-up id n s p h =
    rw (heartbeat, p)
      (ap {A = Link} (λ t. record t { recv_flag = false })
          (give_up-low id (missed (waiting n s)) (ground (arith, h)))
        ∙ ap (λ m. waiting m s) (omega arith))

fd-tcptmr_start : (id : ℤ) (s : Link) → (tcptmr_start id s).listen_fd ≡ s.listen_fd
unfolding tcptmr_start
fd-tcptmr_start (negsuc n) s = refl
fd-tcptmr_start (pos zero) s = refl
fd-tcptmr_start (pos (suc n)) s = refl

fd-tcptmr_stop : (id : ℤ) (s : Link) → (tcptmr_stop id s).listen_fd ≡ s.listen_fd
unfolding tcptmr_stop
fd-tcptmr_stop (negsuc n) s = refl
fd-tcptmr_stop (pos n) s = refl

fd-start_reconnect : (id : ℤ) (s : Link) → (start_reconnect id s).listen_fd ≡ s.listen_fd
unfolding start_reconnect
fd-start_reconnect id s = elim (Bool-cases (is_pos s.tmr_id)) [
  | inl p ↦
      rw (start_reconnect, p)
        (fd-tcptmr_start id (tcptmr_stop s.tmr_id s) ∙ fd-tcptmr_stop s.tmr_id s)
  | inr p ↦ rw (start_reconnect, p) (fd-tcptmr_start id s)
]

-- The third heartbeat ends the connection.
heartbeat-end :
    (id : ℤ) (s : Link)
    → is_pos s.listen_fd ≡ true
    → (heartbeat id (waiting 2 s)).listen_fd ≡ negsuc 0
unfolding heartbeat give_up missed
heartbeat-end id s p = rw (heartbeat, p) (fd-start_reconnect id _)

silent-down :
    (id : ℤ) (k : ℕ) (s : Link) → s.listen_fd ≡ negsuc 0 → (silent id k s).listen_fd ≡ negsuc 0
unfolding silent heartbeat
silent-down id zero s e = e
silent-down id (suc k) s e = rw (silent, heartbeat, e) (silent-down id k s e)

silent-up :
    (id : ℤ) (k n : ℕ) (s : Link)
    → is_pos s.listen_fd ≡ true
    → n + k < 3
    → silent id k (waiting n s) ≡ waiting (n + k) s
unfolding silent
silent-up id zero n s p h = ap (λ m. waiting m s) (omega arith)
silent-up id (suc k) n s p h =
    ap (silent id k) (heartbeat-up id n s p (omega (arith, h)))
    ∙ silent-up id k (suc n) s p (omega (arith, h))
    ∙ ap (λ m. waiting m s) (omega arith)

-- Counted from the last answer, the link outlives two heartbeats with nothing heard, and is closed by
-- the third; it stays closed for as long as no other part of the agent opens it again.
pub silent_lem :
    (id : ℤ) (k : ℕ) (s : Link)
    → is_pos s.listen_fd ≡ true
    → (silent id k (waiting 0 s)).listen_fd ≡ (if ltb k 3 then s.listen_fd else negsuc 0)
unfolding silent
silent_lem id zero s p = refl
silent_lem id (suc zero) s p = ap Link.listen_fd (silent-up id 1 0 s p (omega arith))
silent_lem id (suc (suc zero)) s p = ap Link.listen_fd (silent-up id 2 0 s p (omega arith))
silent_lem id (suc (suc (suc k))) s p =
    let high : ltb (suc (suc (suc k))) 3 ≡ false = ground arith in
    rw high (
      silent-down id k (heartbeat id (silent id 2 (waiting 0 s))) (
        ap (λ t. (heartbeat id t).listen_fd) (silent-up id 2 0 s p (omega arith))
        ∙ heartbeat-end id s p))

-- Rounds of heartbeats with nothing heard, each with an answer and the heartbeat after it at its end.
pub rounds : ℤ → List ℕ → Link → Link
rounds id [] s = s
rounds id (k ∷ l) s = rounds id l (heartbeat id (heard (silent id k s)))

heard-heartbeat :
    (id : ℤ) (n : ℕ) (s : Link)
    → is_pos s.listen_fd ≡ true
    → heartbeat id (heard (waiting n s)) ≡ waiting 0 s
unfolding heartbeat missed heard
heard-heartbeat id n s p =
    rw (heartbeat, p)
      (ap {A = Link} (λ t. record t { recv_flag = false })
        (give_up-low id (missed (heard (waiting n s))) refl))

-- While the host server answers at least once in every three heartbeats, the link is never closed: it
-- is as it was, its descriptor, its timer and its counters.
pub rounds_lem :
    (id : ℤ) (l : List ℕ) (s : Link)
    → is_pos s.listen_fd ≡ true
    → All (λ k. k ≤ 2) l
    → rounds id l (waiting 0 s) ≡ waiting 0 s
unfolding rounds
rounds_lem id [] s p a = refl
rounds_lem id (k ∷ l) s p a =
    ap (λ t. rounds id l (heartbeat id (heard t))) (silent-up id k 0 s p (omega (arith, a.0)))
    ∙ ap (rounds id l) (heard-heartbeat id (0 + k) s p)
    ∙ rounds_lem id l s p a.1

reopen-up :
    (opened : Opened) (s : Link)
    → is_pos opened.result ≡ true
    → reopen opened s ≡ record s {
      listen_fd = opened.result;
      allset = opened.result ∷ [];
      open_fds = opened.result ∷ fd_clr s.listen_fd s.open_fds;
    }
unfolding reopen join_link
reopen-up opened s p = rw (reopen, p) refl

expired-up :
    (timer_id : ℕ) (again : Opened) (id : ℤ) (t : Link)
    → get_or t.used timer_id false ≡ true
    → is_pos again.result ≡ true
    → ((tmr_cmd_turn timer_id again id t).listen_fd ≡ again.result)
      × ((tmr_cmd_turn timer_id again id t).open_fds ≡ again.result ∷ t.open_fds)
unfolding tmr_cmd_turn tcp_reconnect join_link
expired-up timer_id again id t timer up = (
  rw (tmr_cmd_turn, timer, tcp_reconnect, up) refl,
  rw (tmr_cmd_turn, timer, tcp_reconnect, up) refl,
)

-- A connection is lost, and the timer for `TcpReconnect` runs. The next report finds the link down,
-- opens it again and succeeds, but leaves the timer alone. When it expires, the link is opened once
-- more: the first of the two connections is never closed.
pub tmr_cmd_turn-send_proc_state_req :
    (htons : ℕ → ℕ) (e : SendEnv) (msg bytes : List ℕ) (n : ℤ) (again : Opened) (id : ℤ)
    (timer_id : ℕ) (s : Link)
    → e.malloc_ok ≡ true
    → is_pos s.listen_fd ≡ false
    → is_pos e.opened.result ≡ true
    → is_pos again.result ≡ true
    → get_or s.used timer_id false ≡ true
    → client_send htons e.id e.polls e.answers msg (reopen e.opened s)
      ≡ some (reopen e.opened s, n, bytes)
    → (t : Link) × (send_proc_state_req htons e msg s ≡ some t)
      × (t.listen_fd ≡ e.opened.result)
      × ((tmr_cmd_turn timer_id again id t).listen_fd ≡ again.result)
      × ((tmr_cmd_turn timer_id again id t).open_fds
          ≡ again.result ∷ e.opened.result ∷ fd_clr s.listen_fd s.open_fds)
unfolding send_proc_state_req
tmr_cmd_turn-send_proc_state_req htons e msg bytes n again id timer_id s ok down up2 up3 timer run =
    let same = reopen-up e.opened s up2 in
    let (now, both) =
      expired-up timer_id again id (reopen e.opened s)
        (ap (λ t. get_or t.used timer_id false) same ∙ timer) up3 in
    (
      reopen e.opened s,
      rw (send_proc_state_req, ok, down, up2, run, link_of) refl,
      ap Link.listen_fd same,
      now,
      both ∙ ap (λ t. again.result ∷ t.open_fds) same,
    )
