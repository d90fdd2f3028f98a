-- ===== src/Agent/Session/Live.antt =====
-- A live link: what one start or end of the agent's connection keeps.
use vnf_monitoring.Prelude.{
  ℕ, zero, suc, ◌<◌, ◌≡◌, refl, ap, ◌∙◌, ◌⊎◌, inl, inr, Bool, true, false, Bool-cases, List, [],
  ◌∷◌, length, length-set, set, get_or, arith,
}
use vnf_monitoring.Prelude.Int.{ℤ, pos, negsuc}
use vnf_monitoring.Host.Sock.{is_pos, same_fd, fd_clr}
use vnf_monitoring.Agent.{Link, tcptmr_start, tcptmr_stop, start_reconnect, drop_link}

-- A number that `timer_start` returns, with `n` places in `tmrsync`.
abbrev pub IsId : ℕ → ℤ → Type 0
IsId n id = (k : ℕ) × (id ≡ pos (suc k)) × (suc k < n)

-- Connected, the process has the link's descriptor open and no other. Not connected, it has none, and
-- a timer for `TcpReconnect` counts as used.
abbrev pub IsLive : ℕ → Link → Type 0
IsLive n s =
    (length s.used ≡ n)
    × (((is_pos s.listen_fd ≡ true) × (s.open_fds ≡ s.listen_fd ∷ []))
        ⊎ ((is_pos s.listen_fd ≡ false)
            × (s.open_fds ≡ [])
            × ((k : ℕ) × (s.tmr_id ≡ pos (suc k)) × (get_or s.used (suc k) false ≡ true))))

get_or-set_self : (l : List Bool) (i : ℕ) (v : Bool) → i < length l → get_or (set l i v) i false ≡ v
get_or-set_self [] i v h = absurd (omega arith)
get_or-set_self (x ∷ l) zero v h = refl
get_or-set_self (x ∷ l) (suc i) v h = get_or-set_self l i v (omega arith)

same_fd_self : (fd : ℤ) → same_fd fd fd ≡ true
same_fd_self (pos n) = ground arith
same_fd_self (negsuc n) = ground arith

fd_clr_self : (fd : ℤ) (l : List ℤ) → l ≡ fd ∷ [] → fd_clr fd l ≡ []
fd_clr_self fd l e = rw (e, same_fd_self fd) refl

tcptmr_stop-used : (id : ℤ) (s : Link) → length (tcptmr_stop id s).used ≡ length s.used
unfolding tcptmr_stop
tcptmr_stop-used (negsuc n) s = refl
tcptmr_stop-used (pos n) s = length-set s.used n false

tcptmr_stop-fd :
    (id : ℤ) (s : Link)
    → ((tcptmr_stop id s).listen_fd ≡ s.listen_fd) × ((tcptmr_stop id s).open_fds ≡ s.open_fds)
unfolding tcptmr_stop
tcptmr_stop-fd (negsuc n) s = (refl, refl)
tcptmr_stop-fd (pos n) s = (refl, refl)

started :
    (n k : ℕ) (s : Link)
    → length s.used ≡ n
    → suc k < n
    → is_pos s.listen_fd ≡ false
    → s.open_fds ≡ []
    → IsLive n (record (tcptmr_start (pos (suc k)) s) { tmr_id = pos (suc k) })
unfolding tcptmr_start
started n k s len h np e = (
  length-set s.used (suc k) true ∙ len,
  inr (np, e, (k, refl, get_or-set_self s.used (suc k) true (omega (arith, len, h)))),
)

pub start_reconnect-IsLive :
    (n : ℕ) (id : ℤ) (s : Link)
    → length s.used ≡ n
    → IsId n id
    → is_pos s.listen_fd ≡ false
    → s.open_fds ≡ []
    → IsLive n (start_reconnect id s)
unfolding start_reconnect
start_reconnect-IsLive n id s len (k, e, h) np none_open = elim (Bool-cases (is_pos s.tmr_id)) [
  | inl p ↦
      let (f, o) = tcptmr_stop-fd s.tmr_id s in
      rw (start_reconnect, p, e)
        (started n k (tcptmr_stop s.tmr_id s) (tcptmr_stop-used s.tmr_id s ∙ len) h
          (ap is_pos f ∙ np) (o ∙ none_open))
  | inr p ↦ rw (start_reconnect, p, e) (started n k s len h np none_open)
]

pub fd_clr-live :
    (n : ℕ) (s : Link) → is_pos s.listen_fd ≡ true → IsLive n s → fd_clr s.listen_fd s.open_fds ≡ []
fd_clr-live n s p (len, inl (q, o)) = fd_clr_self s.listen_fd s.open_fds o
fd_clr-live n s p (len, inr (q, o, t)) = absurd (ground (arith, p, q))

pub drop_link-IsLive :
    (n : ℕ) (id : ℤ) (s : Link) → IsId n id → IsLive n s → IsLive n (drop_link id s)
unfolding drop_link
drop_link-IsLive n id s i live = elim (Bool-cases (is_pos s.listen_fd)) [
  | inl p ↦ rw (drop_link, p) (start_reconnect-IsLive n id _ live.0 i refl (fd_clr-live n s p live))
  | inr p ↦ rw (drop_link, p) live
]
