-- ===== src/Net.antt =====
-- The opening of sockets: `TcpOpen`, `connect_timeout`, `setNonblocking` and `compareMaxfd` of
-- src/HOST/src/host_sock.c and src/VMCT/src/vmct_sock.c. What the system answers is a parameter,
-- which may depend on every call made before; the calls are kept, the newest first.
pub mod Leaks
mod Tests
use vnf_monitoring.Prelude.{
  ℕ, zero, suc, ◌≡◌, Bool, true, false, not, ◌&&◌, ◌||◌, Option, none, some, List, [], ◌∷◌,
  if◌then◌else◌,
}
use vnf_monitoring.Prelude.Int.{ℤ, pos, negsuc, ltb_ℤ}

pub data SockOption : Type 0 where
  so_linger so_reuseaddr so_sndbuf so_rcvbuf : SockOption

-- A call with the value that it returned.
pub data Call : Type 0 where
  inet_pton socket : ℤ → Call
  setsockopt : ℤ → SockOption → ℤ → Call
  fcntl_getfl fcntl_setfl connect getsockopt bind listen : ℤ → ℤ → Call
  select : ℤ → Call
  close : ℤ → Call

abbrev pub History : Type 0
History = List Call

-- The value of a call, after those made; and what `connect_timeout` reads besides: whether
-- `errno` is `EINPROGRESS`, the two sets after `select`, and the error of `SO_ERROR`.
pub record System : Type 0 where
  pub answer : (ℤ → Call) → History → ℤ
  pub in_progress : History → Bool
  pub readable : History → Bool
  pub writable : History → Bool
  pub so_error : History → ℤ

-- `LinkInfo_t`, as far as `TcpOpen` reads it.
pub data Version : Type 0 where
  link_ip_v4_type link_ip_v6_type other_version : Version

pub data Side : Type 0 where
  link_mode_client link_mode_server other_mode : Side

pub record LinkInfo : Type 0 where
  pub version : Version
  pub mode : Side

abbrev pub Action : Type 0 → Type 0
Action A = History → History × A

abbrev pub pure : {A : Type 0} → A → Action A
pure a h = (h, a)

infixl 5 ◌>>=◌ ◌>>◌
abbrev pub ◌>>=◌ : {A B : Type 0} → Action A → (A → Action B) → Action B
◌>>=◌ m f h = let (h', a) = m h in f a h'

abbrev pub ◌>>◌ : {A B : Type 0} → Action A → Action B → Action B
m >> k = m >>= λ _. k

abbrev pub gets : {A : Type 0} → (History → A) → Action A
gets f h = (h, f h)

abbrev pub is_negative : ℤ → Bool
is_negative (pos n) = false
is_negative (negsuc n) = true

abbrev pub is_zero : ℤ → Bool
is_zero (pos zero) = true
is_zero (pos (suc n)) = false
is_zero (negsuc n) = false

-- The test for -1 itself.
abbrev pub is_minus_one : ℤ → Bool
is_minus_one (pos n) = false
is_minus_one (negsuc zero) = true
is_minus_one (negsuc (suc n)) = false

-- The options that `TcpOpen` sets, each with the value that it returns if that fails: for the host
-- server's clients, for the agent's, and for the listening sockets of both.
abbrev pub host_client_options : List (SockOption × ℤ)
host_client_options = (so_sndbuf, negsuc 0) ∷ (so_rcvbuf, negsuc 0) ∷ []

abbrev pub agent_client_options : List (SockOption × ℤ)
agent_client_options =
    (so_linger, negsuc 1)
    ∷ (so_reuseaddr, negsuc 2)
    ∷ (so_sndbuf, negsuc 0)
    ∷ (so_rcvbuf, negsuc 0)
    ∷ []

abbrev pub server_options : List (SockOption × ℤ)
server_options =
    (so_linger, negsuc 1)
    ∷ (so_reuseaddr, negsuc 2)
    ∷ (so_sndbuf, negsuc 2)
    ∷ (so_rcvbuf, negsuc 2)
    ∷ []

-- `compareMaxfd`: the new `MaxFD`, which is also the result.
pub compare_maxfd : ℤ → ℤ → ℤ
compare_maxfd max_fd fd = if ltb_ℤ (pos 0) fd && ltb_ℤ max_fd fd then fd else max_fd

module _ (sys : System) where
  abbrev pub call : (ℤ → Call) → Action ℤ
  call c h = let r = sys.answer c h in (c r ∷ h, r)

  -- `SET_NONBLOCKING`, the only mode in use.
  unfoldable pub set_nonblocking : ℤ → Action ℤ
  set_nonblocking fd = do
    flags ← call (fcntl_getfl fd)
    if is_minus_one flags
        then pure (negsuc 0)
        else do n ← call (fcntl_setfl fd); pure (if is_minus_one n then negsuc 0 else pos 0)

  -- The label `done`.
  unfoldable pub restore_flags : ℤ → Action ℤ
  restore_flags fd = do n ← call (fcntl_setfl fd); pure (if is_minus_one n then negsuc 0 else pos 0)

  -- After `select` has found something.
  unfoldable pub judge_sets : ℤ → Action ℤ
  judge_sets fd = do
    r ← gets sys.readable
    w ← gets sys.writable
    if r || w
        then (if r && w
            then (do
              n ← call (getsockopt fd)
              error ← gets sys.so_error
              if is_negative n
                  then pure (negsuc 0)
                  else if is_zero error
                  then restore_flags fd
                  else pure (negsuc 0))
            else restore_flags fd)
        else pure (negsuc 0)

  unfoldable pub wait_connected : ℤ → Action ℤ
  wait_connected fd = do
    n ← call select
    if is_zero n then pure (negsuc 0) else if is_minus_one n then pure (negsuc 0) else judge_sets fd

  unfoldable pub connect_timeout : ℤ → Action ℤ
  connect_timeout fd = do
    flags ← call (fcntl_getfl fd)
    if is_minus_one flags then pure (negsuc 0) else do
      s ← call (fcntl_setfl fd)
      if is_minus_one s then pure (negsuc 0) else do
        n ← call (connect fd)
        progress ← gets sys.in_progress
        if is_negative n && not progress
            then pure (negsuc 0)
            else if is_zero n
            then restore_flags fd
            else wait_connected fd

  -- The options in turn; the code of the first that fails. `setsockopt` returns 0 or -1, so that the
  -- tests for -1 and for a negative value are the same.
  unfoldable pub set_options : ℤ → List (SockOption × ℤ) → Action (Option ℤ)
  set_options fd [] h = (h, none)
  set_options fd ((o, code) ∷ l) h =
      let r = sys.answer (setsockopt fd o) h in
      let h' = setsockopt fd o r ∷ h in
      let later = set_options fd l h' in if is_negative r then (h', some code) else later

  -- `TcpOpen` on a new socket of a client: the connection.
  unfoldable pub connect_client : ℤ → Action ℤ
  connect_client fd = do
    ret ← connect_timeout fd
    set_nonblocking fd
    if is_negative ret then (do call (λ _. close fd); pure (negsuc 0)) else pure fd

  -- By what the options have come to.
  unfoldable pub client_ready : ℤ → Option ℤ → Action ℤ
  client_ready fd none = connect_client fd
  client_ready fd (some code) = pure code

  unfoldable pub prepare_client : List (SockOption × ℤ) → ℤ → Action ℤ
  prepare_client options fd = do failed ← set_options fd options; client_ready fd failed

  unfoldable pub open_client : List (SockOption × ℤ) → Action ℤ
  open_client options = do
    fd ← call socket
    if is_negative fd then pure fd else prepare_client options fd

  -- On a new socket of a server: the address and the queue.
  unfoldable pub listen_server : ℤ → Action ℤ
  listen_server fd = do
    b ← call (bind fd)
    if is_negative b then pure (negsuc 4) else do
      l ← call (listen fd)
      if is_negative l then pure (negsuc 5) else do set_nonblocking fd; pure fd

  unfoldable pub server_ready : ℤ → Option ℤ → Action ℤ
  server_ready fd none = listen_server fd
  server_ready fd (some code) = pure code

  unfoldable pub prepare_server : ℤ → Action ℤ
  prepare_server fd = do failed ← set_options fd server_options; server_ready fd failed

  unfoldable pub open_server : Action ℤ
  open_server = do fd ← call socket; if is_negative fd then pure fd else prepare_server fd

  -- A link of another mode opens nothing and returns 0.
  unfoldable pub open_mode : List (SockOption × ℤ) → Side → Action ℤ
  open_mode options link_mode_client = open_client options
  open_mode options link_mode_server = open_server
  open_mode options other_mode = pure (pos 0)

  -- The address is read for the two versions; another version goes on without.
  unfoldable pub open_version : List (SockOption × ℤ) → Version → Side → Action ℤ
  open_version options other_version mode = open_mode options mode
  open_version options link_ip_v4_type mode = do
    n ← call inet_pton
    if is_zero n then pure (negsuc 0) else open_mode options mode
  open_version options link_ip_v6_type mode = do
    n ← call inet_pton
    if is_zero n then pure (negsuc 0) else open_mode options mode

  unfoldable pub tcp_open : LinkInfo → Action ℤ
  tcp_open link = open_version host_client_options link.version link.mode

  unfoldable pub agent_tcp_open : LinkInfo → Action ℤ
  agent_tcp_open link = open_version agent_client_options link.version link.mode
