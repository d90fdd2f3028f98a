-- ===== src/Net/Leaks.antt =====
-- Which descriptors are open after `TcpOpen`.
use vnf_monitoring.Prelude.{
  ℕ, ◌≡◌, refl, sym, ap, ◌∙◌, ◌≢◌, ◌⊎◌, inl, inr, Bool, true, false, none, some, List, [], ◌∷◌,
  ◌==◌, ==_iff, if◌then◌else◌, arith, Bool-cases,
}
use vnf_monitoring.Prelude.Int.{ℤ, pos, negsuc}
use vnf_monitoring.Net.{
  SockOption, Call, inet_pton, socket, setsockopt, fcntl_getfl, fcntl_setfl, connect, getsockopt,
  bind, listen, select, close, History, System, LinkInfo, Side, link_mode_client, link_mode_server,
  other_mode, is_negative, is_zero, set_nonblocking, restore_flags, judge_sets, wait_connected,
  connect_timeout, set_options, open_client, open_server, open_mode, open_version, Version,
  link_ip_v4_type, link_ip_v6_type, other_version, tcp_open, agent_tcp_open, server_options,
  host_client_options, agent_client_options, connect_client, prepare_client, client_ready,
  server_ready, listen_server, prepare_server,
}

-- Whether a descriptor is open after a call, if it was or was not before.
abbrev pub open_after : ℕ → Call → Bool → Bool
open_after p (socket (pos n)) b = if p == n then true else b
open_after p (socket (negsuc n)) b = b
open_after p (close (pos n)) b = if p == n then false else b
open_after p (close (negsuc n)) b = b
open_after p (inet_pton r) b = b
open_after p (setsockopt fd o r) b = b
open_after p (fcntl_getfl fd r) b = b
open_after p (fcntl_setfl fd r) b = b
open_after p (connect fd r) b = b
open_after p (getsockopt fd r) b = b
open_after p (bind fd r) b = b
open_after p (listen fd r) b = b
open_after p (select r) b = b

unfoldable pub is_open : ℕ → History → Bool
is_open p [] = false
is_open p (c ∷ h) = open_after p c (is_open p h)

-- The calls in between open and close nothing.
abbrev pub Quiet : History → History → Type 0
Quiet h h' = (p : ℕ) → is_open p h' ≡ is_open p h

module _ (sys : System) (fd : ℤ) where
  set_nonblocking-Quiet : (h : History) → Quiet h (set_nonblocking sys fd h).0
  unfolding set_nonblocking is_open
  set_nonblocking-Quiet h p = ground arith

  restore_flags-Quiet : (h : History) → Quiet h (restore_flags sys fd h).0
  unfolding restore_flags is_open
  restore_flags-Quiet h p = refl

  judge_sets-Quiet : (h : History) → Quiet h (judge_sets sys fd h).0
  unfolding judge_sets restore_flags is_open
  judge_sets-Quiet h p = ground arith

  wait_connected-Quiet : (h : History) → Quiet h (wait_connected sys fd h).0
  unfolding wait_connected is_open
  wait_connected-Quiet h p = ground (arith, judge_sets-Quiet (select (sys.answer select h) ∷ h) p)

  connect_timeout-Quiet : (h : History) → Quiet h (connect_timeout sys fd h).0
  unfolding connect_timeout is_open
  connect_timeout-Quiet h p =
      let h1 = fcntl_getfl fd (sys.answer (fcntl_getfl fd) h) ∷ h in
      let h2 = fcntl_setfl fd (sys.answer (fcntl_setfl fd) h1) ∷ h1 in
      let h3 = connect fd (sys.answer (connect fd) h2) ∷ h2 in
      ground (arith, restore_flags-Quiet h3 p, wait_connected-Quiet h3 p)

-- What a result of `TcpOpen` says of the descriptors: a descriptor that was not open and is now; an
-- error after which the descriptors are as before; or an error of a call upon the new descriptor,
-- which stays open and is lost.
abbrev pub IsNew : ℕ → History → History → Type 0
IsNew n h h' =
    (is_open n h ≡ false) × (is_open n h' ≡ true) × ((p : ℕ) → p ≢ n → is_open p h' ≡ is_open p h)

-- The newest call is one that prepares a socket, and has failed.
abbrev pub PreparingFailed : History → Type 0
PreparingFailed [] = ⊥
PreparingFailed (setsockopt fd o r ∷ h) = is_negative r ≡ true
PreparingFailed (bind fd r ∷ h) = is_negative r ≡ true
PreparingFailed (listen fd r ∷ h) = is_negative r ≡ true
PreparingFailed (inet_pton r ∷ h) = ⊥
PreparingFailed (socket r ∷ h) = ⊥
PreparingFailed (fcntl_getfl fd r ∷ h) = ⊥
PreparingFailed (fcntl_setfl fd r ∷ h) = ⊥
PreparingFailed (connect fd r ∷ h) = ⊥
PreparingFailed (getsockopt fd r ∷ h) = ⊥
PreparingFailed (select r ∷ h) = ⊥
PreparingFailed (close fd ∷ h) = ⊥

abbrev pub Outcome : History → History × ℤ → Type 0
Outcome h (h', r) =
    ((n : ℕ) × (r ≡ pos n) × IsNew n h h')
    ⊎ ((is_negative r ≡ true) × Quiet h h')
    ⊎ ((n : ℕ) × (is_negative r ≡ true) × IsNew n h h' × PreparingFailed h')

-- The code of an option that failed is negative in each of the three lists.
abbrev pub Codes : List (SockOption × ℤ) → Type 0
Codes [] = Unit
Codes ((o, code) ∷ l) = (is_negative code ≡ true) × Codes l

-- The options change no descriptor; upon a failure the call that failed is the newest.
set_options_lem :
    (sys : System) (fd : ℤ) (l : List (SockOption × ℤ)) (h : History)
    → Codes l
    → let (h', failed) = set_options sys fd l h in
      Quiet h h'
      × ((failed ≡ none)
          ⊎ ((code : ℤ) × (failed ≡ some code) × (is_negative code ≡ true) × PreparingFailed h'))
unfolding set_options is_open
set_options_lem sys fd [] h c = (λ p. refl, inl refl)
set_options_lem sys fd ((o, code) ∷ l) h c =
    let r = sys.answer (setsockopt fd o) h in
    elim (Bool-cases (is_negative r)) [
      | inl e ↦ rw (set_options, e) (λ p. refl, inr (code, refl, c.0, e))
      | inr e ↦ rw (set_options, e) (set_options_lem sys fd l (setsockopt fd o r ∷ h) c.1)
    ]

-- `socket` returns no descriptor that is open.
abbrev pub FreshSockets : System → Type 0
FreshSockets sys = (h : History) (n : ℕ) → sys.answer socket h ≡ pos n → is_open n h ≡ false

socket-IsNew : (n : ℕ) (h : History) → is_open n h ≡ false → IsNew n h (socket (pos n) ∷ h)
unfolding is_open
socket-IsNew n h new = (new, ground arith, λ p ne. ground arith)

IsNew-Quiet : (n : ℕ) (h h1 h2 : History) → IsNew n h h1 → Quiet h1 h2 → IsNew n h h2
IsNew-Quiet n h h1 h2 (new, up, others) q = (new, q n ∙ up, λ p ne. q p ∙ others p ne)

-- A new descriptor that is closed leaves the descriptors as before.
close-Quiet : (n : ℕ) (h h1 : History) → IsNew n h h1 → Quiet h (close (pos n) ∷ h1)
unfolding is_open
close-Quiet n h h1 (new, up, others) p = elim (Bool-cases (p == n)) [
  | inl e ↦ let same : p ≡ n = (==_iff p n).0 e in rw e (sym (rw same new))
  | inr e ↦ let ne : p ≢ n = λ same. ground (arith, e, same) in rw e (others p ne)
]

ℤ-cases : (a : ℤ) → ((k : ℕ) × (a ≡ negsuc k)) ⊎ ((n : ℕ) × (a ≡ pos n))
ℤ-cases (pos n) = inr (n, refl)
ℤ-cases (negsuc k) = inl (k, refl)

socket_failed-Quiet : (k : ℕ) (h : History) → Quiet h (socket (negsuc k) ∷ h)
unfolding is_open
socket_failed-Quiet k h p = refl

bind-Quiet : (fd r : ℤ) (h : History) → Quiet h (bind fd r ∷ h)
unfolding is_open
bind-Quiet fd r h p = refl

listen-Quiet : (fd r : ℤ) (h : History) → Quiet h (listen fd r ∷ h)
unfolding is_open
listen-Quiet fd r h p = refl

-- The two ways on after the options.
prepare_client_done :
    (sys : System) (l : List (SockOption × ℤ)) (fd : ℤ) (h : History)
    → (set_options sys fd l h).1 ≡ none
    → prepare_client sys l fd h ≡ connect_client sys fd (set_options sys fd l h).0
unfolding prepare_client client_ready
prepare_client_done sys l fd h done =
    ap (λ o. client_ready sys fd o (set_options sys fd l h).0) done

prepare_client_failed :
    (sys : System) (l : List (SockOption × ℤ)) (fd code : ℤ) (h : History)
    → (set_options sys fd l h).1 ≡ some code
    → prepare_client sys l fd h ≡ ((set_options sys fd l h).0, code)
unfolding prepare_client client_ready
prepare_client_failed sys l fd code h failed =
    ap (λ o. client_ready sys fd o (set_options sys fd l h).0) failed

prepare_server_done :
    (sys : System) (fd : ℤ) (h : History)
    → (set_options sys fd server_options h).1 ≡ none
    → prepare_server sys fd h ≡ listen_server sys fd (set_options sys fd server_options h).0
unfolding prepare_server server_ready
prepare_server_done sys fd h done =
    ap (λ o. server_ready sys fd o (set_options sys fd server_options h).0) done

prepare_server_failed :
    (sys : System) (fd code : ℤ) (h : History)
    → (set_options sys fd server_options h).1 ≡ some code
    → prepare_server sys fd h ≡ ((set_options sys fd server_options h).0, code)
unfolding prepare_server server_ready
prepare_server_failed sys fd code h failed =
    ap (λ o. server_ready sys fd o (set_options sys fd server_options h).0) failed

-- What is done upon a socket that is new since `h`.
module _ (sys : System) (n : ℕ) (h : History) where
  connect_client-Outcome : (h2 : History) → IsNew n h h2 → Outcome h (connect_client sys (pos n) h2)
  unfolding connect_client
  connect_client-Outcome h2 new =
      let h3 = (connect_timeout sys (pos n) h2).0 in
      let h4 = (set_nonblocking sys (pos n) h3).0 in
      let new4 =
        IsNew-Quiet n h h3 h4 (IsNew-Quiet n h h2 h3 new (connect_timeout-Quiet sys (pos n) h2))
          (set_nonblocking-Quiet sys (pos n) h3) in
      elim (Bool-cases (is_negative (connect_timeout sys (pos n) h2).1)) [
        | inl bad ↦ rw bad (inr (inl (refl, close-Quiet n h h4 new4)))
        | inr good ↦ rw good (inl (n, refl, new4))
      ]

  listen_server-Outcome : (h2 : History) → IsNew n h h2 → Outcome h (listen_server sys (pos n) h2)
  unfolding listen_server
  listen_server-Outcome h2 new =
      let h3 = bind (pos n) (sys.answer (bind (pos n)) h2) ∷ h2 in
      let h4 = listen (pos n) (sys.answer (listen (pos n)) h3) ∷ h3 in
      let new3 = IsNew-Quiet n h h2 h3 new (bind-Quiet (pos n) (sys.answer (bind (pos n)) h2) h2) in
      let new4 =
        IsNew-Quiet n h h3 h4 new3 (listen-Quiet (pos n) (sys.answer (listen (pos n)) h3) h3) in
      elim (Bool-cases (is_negative (sys.answer (bind (pos n)) h2))) [
        | inl b ↦ rw b (inr (inr (n, refl, new3, b)))
        | inr b ↦ elim (Bool-cases (is_negative (sys.answer (listen (pos n)) h3))) [
          | inl l ↦ rw (b, l) (inr (inr (n, refl, new4, l)))
          | inr l ↦
              rw (b, l)
                (inl (
                  n,
                  refl,
                  IsNew-Quiet n h h4 (set_nonblocking sys (pos n) h4).0 new4
                      (set_nonblocking-Quiet sys (pos n) h4),
                ))
        ]
      ]

  prepare_client-Outcome :
      (l : List (SockOption × ℤ)) (h1 : History)
      → Codes l
      → IsNew n h h1
      → Outcome h (prepare_client sys l (pos n) h1)
  unfolding prepare_client
  prepare_client-Outcome l h1 codes new =
      let (quiet, how) = set_options_lem sys (pos n) l h1 codes in
      let h2 = (set_options sys (pos n) l h1).0 in
      let new2 = IsNew-Quiet n h h1 h2 new quiet in
      elim how [
        | inl done ↦ rw (prepare_client_done sys l (pos n) h1 done) (connect_client-Outcome h2 new2)
        | inr (code, failed, negative, newest) ↦
            rw (prepare_client_failed sys l (pos n) code h1 failed)
              (inr (inr (n, negative, new2, newest)))
      ]

  prepare_server-Outcome : (h1 : History) → IsNew n h h1 → Outcome h (prepare_server sys (pos n) h1)
  unfolding prepare_server
  prepare_server-Outcome h1 new =
      let (quiet, how) =
        set_options_lem sys (pos n) server_options h1 (refl, (refl, (refl, (refl, tt)))) in
      let h2 = (set_options sys (pos n) server_options h1).0 in
      let new2 = IsNew-Quiet n h h1 h2 new quiet in
      elim how [
        | inl done ↦ rw (prepare_server_done sys (pos n) h1 done) (listen_server-Outcome h2 new2)
        | inr (code, failed, negative, newest) ↦
            rw (prepare_server_failed sys (pos n) code h1 failed)
              (inr (inr (n, negative, new2, newest)))
      ]

module _ (sys : System) (fresh : FreshSockets sys) (l : List (SockOption × ℤ))
    (codes : Codes l) where
  open_client-Outcome : (h : History) → Outcome h (open_client sys l h)
  unfolding open_client
  open_client-Outcome h = elim (ℤ-cases (sys.answer socket h)) [
    | inl (k, e) ↦ rw (open_client, e) (inr (inl (refl, socket_failed-Quiet k h)))
    | inr (n, e) ↦
        rw (open_client, e)
          (prepare_client-Outcome sys n h l (socket (pos n) ∷ h) codes
            (socket-IsNew n h (fresh h n e)))
  ]

  open_server-Outcome : (h : History) → Outcome h (open_server sys h)
  unfolding open_server
  open_server-Outcome h = elim (ℤ-cases (sys.answer socket h)) [
    | inl (k, e) ↦ rw (open_server, e) (inr (inl (refl, socket_failed-Quiet k h)))
    | inr (n, e) ↦
        rw (open_server, e)
          (prepare_server-Outcome sys n h (socket (pos n) ∷ h) (socket-IsNew n h (fresh h n e)))
  ]

  open_mode-Outcome :
      (mode : Side) (h : History) → mode ≢ other_mode → Outcome h (open_mode sys l mode h)
  unfolding open_mode
  open_mode-Outcome link_mode_client h known = open_client-Outcome h
  open_mode-Outcome link_mode_server h known = open_server-Outcome h
  open_mode-Outcome other_mode h known = absurd (known refl)

  -- Behind `inet_pton`, which opens nothing.
  address_read-Outcome :
      (mode : Side) (h : History)
      → mode ≢ other_mode
      → let n = sys.answer inet_pton h in
        Outcome h
          ((if is_zero n then (λ h'. (h', negsuc 0)) else open_mode sys l mode) (inet_pton n ∷ h))
  unfolding is_open
  address_read-Outcome mode h known = elim (Bool-cases (is_zero (sys.answer inet_pton h))) [
    | inl bad ↦ rw bad (inr (inl (refl, λ p. refl)))
    | inr good ↦ rw good (open_mode-Outcome mode (inet_pton (sys.answer inet_pton h) ∷ h) known)
  ]

  open_version-Outcome :
      (v : Version) (mode : Side) (h : History)
      → mode ≢ other_mode
      → Outcome h (open_version sys l v mode h)
  unfolding open_version
  open_version-Outcome other_version mode h known = open_mode-Outcome mode h known
  open_version-Outcome link_ip_v4_type mode h known = address_read-Outcome mode h known
  open_version-Outcome link_ip_v6_type mode h known = address_read-Outcome mode h known

-- `TcpOpen` of the host server and of the agent, for a client or a server: it returns a descriptor
-- that was not open and is now; or an error, and the descriptors are as before; or an error because
-- a call upon the new socket has failed, an option, `bind` or `listen`, and then the socket stays open
-- although no one knows it. Other descriptors are left alone.
pub tcp_open-Outcome :
    (sys : System) (link : LinkInfo) (h : History)
    → FreshSockets sys
    → link.mode ≢ other_mode
    → Outcome h (tcp_open sys link h) × Outcome h (agent_tcp_open sys link h)
unfolding tcp_open agent_tcp_open
tcp_open-Outcome sys link h fresh known = (
  open_version-Outcome sys fresh host_client_options (refl, (refl, tt)) link.version link.mode h
      known,
  open_version-Outcome sys fresh agent_client_options (refl, (refl, (refl, (refl, tt))))
      link.version link.mode h known,
)
