-- ===== src/Agent/Session.antt =====
-- The agent's threads: the second half of `SendProcStateReq`, `TcpRcvTask`, `TcpSessionTask` and
-- `TmrCmdTask` of src/VMCT/src/vmct_task.c. A turn is the code between two waits.
pub mod Live
pub mod Heartbeat
pub mod Reconnect
use vnf_monitoring.Prelude.{
  ℕ, zero, suc, ◌+◌, ◌%◌, Bool, true, false, Option, none, some, List, [], ◌∷◌, ◌++◌, ◌==◌, leb,
  get_or, set, if◌then◌else◌,
}
use vnf_monitoring.Prelude.Int.{ℤ, pos, negsuc}
use vnf_monitoring.Host.Sock.{is_pos, fd_clr, RecvAnswer, Poll, SendAnswer, tcp_snd_retry}
use vnf_monitoring.Agent.{
  Link, Opened, start_reconnect, client_send, client_recv, join_link, tcp_reconnect,
}

-- What the system answers a `SendProcStateReq`: whether `malloc` succeeds, the outcome of `TcpOpen`
-- and the result of `timer_start`, and those of `select` and `send`.
pub record SendEnv : Type 0 where
  pub malloc_ok : Bool
  pub opened : Opened
  pub id : ℤ
  pub polls : List Poll
  pub answers : List SendAnswer

abbrev pub link_of : Option (Link × ℤ × List ℕ) → Option Link
link_of none = none
link_of (some (s, n, bytes)) = some s

-- The old descriptor is closed in front of `TcpOpen`; its result stands in `ListenFD` whatever it is.
unfoldable pub reopen : Opened → Link → Link
reopen opened s =
    let t = record s { allset = []; open_fds = fd_clr s.listen_fd s.open_fds } in
    elim (is_pos opened.result) [
      | true ↦ join_link opened.result t
      | false ↦ record t { listen_fd = opened.result; open_fds = opened.left ++ t.open_fds }
    ]

-- `SendProcStateReq` from the test of `sndbuf` on.
pub send_proc_state_req : (ℕ → ℕ) → SendEnv → List ℕ → Link → Option Link
send_proc_state_req htons e msg s = elim e.malloc_ok [
  | false ↦ some s
  | true ↦ elim (is_pos s.listen_fd) [
    | true ↦ link_of (client_send htons e.id e.polls e.answers msg s)
    | false ↦ elim (is_pos e.opened.result) [
      | true ↦ link_of (client_send htons e.id e.polls e.answers msg (reopen e.opened s))
      | false ↦ some (reopen e.opened s)
    ]
  ]
]

-- The start of `TcpRcvTask`, in front of its `SendProcStateReq`.
pub rcv_start : Opened → ℤ → Link → Link
rcv_start opened id s =
    let t = record s { allset = [] } in
    elim (is_pos opened.result) [
      | true ↦ join_link opened.result t
      | false ↦
          start_reconnect id
            (record t { listen_fd = opened.result; open_fds = opened.left ++ t.open_fds })
    ]

-- Anything that comes from the host server counts.
pub heard : Link → Link
heard s = record s { retry_cnt = 0; recv_flag = true }

-- A turn of `TcpRcvTask` in which `select` reports the connection.
unfoldable pub rcv_turn : (ℕ → ℕ) → ℤ → List RecvAnswer → Link → Option Link
rcv_turn ntohs id answers s = elim (is_pos s.listen_fd) [
  | false ↦ some s
  | true ↦ elim (client_recv ntohs id answers s) [
    | none ↦ none
    | some (t, n) ↦ elim (is_pos n) [ true ↦ some (heard t) | false ↦ some t ]
  ]
]

-- What `TcpSessionTask` does behind `SendProcStateReq`.
pub missed : Link → Link
missed s = record s { retry_cnt = (if s.recv_flag then 0 else 1) + s.retry_cnt }

pub give_up : ℤ → Link → Link
give_up id s = elim (leb tcp_snd_retry s.retry_cnt) [
  | false ↦ s
  | true ↦ start_reconnect id (record s {
    retry_cnt = 0;
    recv_flag = false;
    allset = [];
    open_fds = fd_clr s.listen_fd s.open_fds;
    listen_fd = negsuc 0;
  })
]

pub heartbeat : ℤ → Link → Link
heartbeat id s = elim (is_pos s.listen_fd) [
  | false ↦ s
  | true ↦ record (give_up id (missed s)) { recv_flag = false }
]

-- A turn of `TcpSessionTask`, which reads the second of the minute, with the flag `TimeSecCheck`. `%`
-- by an interval that is 0 is a fault. The two numbers are those of the timers that `SendProcStateReq`
-- and the rest start.
pub session_turn : (ℕ → ℕ) → ℕ → ℕ → SendEnv → ℤ → List ℕ → Link × Bool → Option (Link × Bool)
session_turn htons zero tm_sec e id msg (s, time_sec_check) = none
session_turn htons (suc n) tm_sec e id msg (s, time_sec_check) = elim (tm_sec % suc n == 1) [
  | false ↦ some (s, false)
  | true ↦ elim time_sec_check [
    | true ↦ some (s, true)
    | false ↦ elim (send_proc_state_req htons e msg s) [
      | none ↦ none
      | some t ↦ some (heartbeat id t, true)
    ]
  ]
]

-- A turn of `TmrCmdTask` for the message `TMR_TCP_RECONNECT_MSG` of the timer `timer_id`.
pub tmr_cmd_turn : ℕ → Opened → ℤ → Link → Link
tmr_cmd_turn timer_id opened id s = elim (get_or s.used timer_id false) [
  | false ↦ s
  | true ↦ tcp_reconnect opened id (record s { used = set s.used timer_id false })
]

-- What happens to the link while the threads run: the work of a due turn of `TcpSessionTask`, a
-- turn of `TcpRcvTask`, and the expiry of a timer.
pub data Event : Type 0 where
  due : SendEnv → ℤ → List ℕ → Event
  readable : ℤ → List RecvAnswer → Event
  expired : ℕ → Opened → ℤ → Event

unfoldable pub step : (ℕ → ℕ) → (ℕ → ℕ) → Event → Link → Option Link
step htons ntohs (due e id msg) s = elim (send_proc_state_req htons e msg s) [
  | none ↦ none
  | some t ↦ some (heartbeat id t)
]
step htons ntohs (readable id answers) s = rcv_turn ntohs id answers s
step htons ntohs (expired timer_id opened id) s = some (tmr_cmd_turn timer_id opened id s)

pub steps : (ℕ → ℕ) → (ℕ → ℕ) → List Event → Link → Option Link
steps htons ntohs [] s = some s
steps htons ntohs (ev ∷ l) s = elim (step htons ntohs ev s) [
  | none ↦ none
  | some t ↦ steps htons ntohs l t
]
