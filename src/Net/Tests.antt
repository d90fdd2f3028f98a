-- ===== src/Net/Tests.antt =====
-- Sockets on concrete answers.
use vnf_monitoring.Prelude.{ℕ, suc, ◌+◌, ◌≤◌, ◌≡◌, refl, true, false, [], ◌∷◌, arith}
use vnf_monitoring.Prelude.Int.{ℤ, pos, negsuc}
use vnf_monitoring.Net.{
  Call, inet_pton, socket, setsockopt, fcntl_getfl, fcntl_setfl, connect, getsockopt, bind, listen,
  select, close, History, System, LinkInfo, link_ip_v4_type, link_mode_client, link_mode_server,
  tcp_open, agent_tcp_open, compare_maxfd, open_version, open_mode, open_server, prepare_server,
  server_ready, set_options, listen_server, open_client, prepare_client, client_ready,
  connect_client, connect_timeout, wait_connected, judge_sets, restore_flags, set_nonblocking,
}
use vnf_monitoring.Net.Leaks.{Outcome, FreshSockets, is_open, tcp_open-Outcome}

-- The descriptor after the highest one that was returned.
abbrev next_fd : History → ℕ
next_fd [] = 3
next_fd (socket (pos n) ∷ h) = suc (n + next_fd h)
next_fd (socket (negsuc n) ∷ h) = next_fd h
next_fd (inet_pton r ∷ h) = next_fd h
next_fd (setsockopt fd o r ∷ h) = next_fd h
next_fd (fcntl_getfl fd r ∷ h) = next_fd h
next_fd (fcntl_setfl fd r ∷ h) = next_fd h
next_fd (connect fd r ∷ h) = next_fd h
next_fd (getsockopt fd r ∷ h) = next_fd h
next_fd (bind fd r ∷ h) = next_fd h
next_fd (listen fd r ∷ h) = next_fd h
next_fd (select r ∷ h) = next_fd h
next_fd (close fd ∷ h) = next_fd h

-- What a call returns, on a system on which `bind` fails.
abbrev reply : Call → History → ℤ
reply (socket r) h = pos (next_fd h)
reply (bind fd r) h = negsuc 0
reply (inet_pton r) h = pos 1
reply (setsockopt fd o r) h = pos 0
reply (fcntl_getfl fd r) h = pos 0
reply (fcntl_setfl fd r) h = pos 0
reply (connect fd r) h = negsuc 0
reply (getsockopt fd r) h = pos 0
reply (listen fd r) h = pos 0
reply (select r) h = pos 1
reply (close fd) h = pos 0

abbrev no_bind : System
no_bind = record {
  answer = λ c h. reply (c (pos 0)) h;
  in_progress = λ h. true;
  readable = λ h. false;
  writable = λ h. true;
  so_error = λ h. pos 0;
}

is_open-next_fd : (h : History) (p : ℕ) → next_fd h ≤ p → is_open p h ≡ false
unfolding is_open
is_open-next_fd [] p le = refl
is_open-next_fd (socket (pos n) ∷ h) p le = ground (arith, is_open-next_fd h p)
is_open-next_fd (socket (negsuc n) ∷ h) p le = is_open-next_fd h p le
is_open-next_fd (close (pos n) ∷ h) p le = ground (arith, is_open-next_fd h p)
is_open-next_fd (close (negsuc n) ∷ h) p le = is_open-next_fd h p le
is_open-next_fd (inet_pton r ∷ h) p le = is_open-next_fd h p le
is_open-next_fd (setsockopt fd o r ∷ h) p le = is_open-next_fd h p le
is_open-next_fd (fcntl_getfl fd r ∷ h) p le = is_open-next_fd h p le
is_open-next_fd (fcntl_setfl fd r ∷ h) p le = is_open-next_fd h p le
is_open-next_fd (connect fd r ∷ h) p le = is_open-next_fd h p le
is_open-next_fd (getsockopt fd r ∷ h) p le = is_open-next_fd h p le
is_open-next_fd (bind fd r ∷ h) p le = is_open-next_fd h p le
is_open-next_fd (listen fd r ∷ h) p le = is_open-next_fd h p le
is_open-next_fd (select r ∷ h) p le = is_open-next_fd h p le

no_bind-FreshSockets : FreshSockets no_bind
no_bind-FreshSockets h n e = let le : next_fd h ≤ n = ground (arith, e) in is_open-next_fd h n le

abbrev server : LinkInfo
server = record { version = link_ip_v4_type; mode = link_mode_server }

abbrev client : LinkInfo
client = record { version = link_ip_v4_type; mode = link_mode_client }

tcp_open-Outcome_example :
    Outcome [] (tcp_open no_bind server []) × Outcome [] (agent_tcp_open no_bind server [])
tcp_open-Outcome_example = tcp_open-Outcome no_bind server [] no_bind-FreshSockets (λ e. cc)

-- The address is in use: the error is -5, and descriptor 3 stays open.
bind_fails : (tcp_open no_bind server []).1 ≡ negsuc 4
unfolding tcp_open open_version open_mode open_server prepare_server server_ready set_options
    listen_server
bind_fails = refl

bind_leaks : is_open 3 (tcp_open no_bind server []).0 ≡ true
unfolding tcp_open open_version open_mode open_server prepare_server server_ready set_options
    listen_server is_open
bind_leaks = refl

-- A client's connection that is complete after `select`.
client_connects : (agent_tcp_open no_bind client []).1 ≡ pos 3
unfolding agent_tcp_open open_version open_mode open_client prepare_client client_ready set_options
    connect_client connect_timeout wait_connected judge_sets restore_flags set_nonblocking
client_connects = refl

maxfd_grows : compare_maxfd (pos 3) (pos 7) ≡ pos 7
unfolding compare_maxfd
maxfd_grows = refl
