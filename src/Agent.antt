-- ===== src/Agent.antt =====
-- The agent that runs on a machine: its link to the host server, `TcpSend`, `TcpRecv`,
-- `TcptmrStart`, `TcptmrStop` and `TcpReconnect` of src/VMCT/src/vmct_sock.c, built with `__UTM__`.
-- The outcomes of `TcpOpen` and `timer_start` are arguments; `open_fds` lists the descriptors that the
-- process has open. The loops are those of the host server's `TcpSend` and `TcpRecv`.
pub mod Report
pub mod Processes
pub mod Config
pub mod Session
pub mod Cases
pub mod Delivery
mod Tests
use vnf_monitoring.Prelude.{
  ℕ, zero, suc, ◌+◌, ◌-◌, Bool, true, false, not, ◌&&◌, ◌||◌, Option, none, some, List, [], ◌∷◌,
  ◌++◌, ◌==◌, set, take, length,
}
use vnf_monitoring.Prelude.Int.{ℤ, pos, negsuc}
use vnf_monitoring.Host.Sock.{
  is_pos, fd_clr, RecvAnswer, recv_loop, is_whole, datasize, tpkt_header_size, Poll, wait_writable,
  writable, lost, given_up, tcp_snd_retry, SendAnswer, send_loop, with_tpkt,
}

-- `tlinkHOST`, `allsetHOST` and the flags `used` of `tmrsync`, with the descriptors that are open.
pub record Link : Type 0 where
  pub listen_fd : ℤ
  pub allset : List ℤ
  pub open_fds : List ℤ
  pub tmr_id : ℤ
  pub retry_cnt : ℕ
  pub recv_flag : Bool
  pub used : List Bool

-- `TcptmrStart`, where `timer_start` returns `id`.
pub tcptmr_start : ℤ → Link → Link
tcptmr_start (negsuc n) s = s
tcptmr_start (pos zero) s = s
tcptmr_start (pos (suc n)) s = record s { used = set s.used (suc n) true }

-- `TcptmrStop`, which marks the timer unused whatever `timer_stop` returns.
pub tcptmr_stop : ℤ → Link → Link
tcptmr_stop (negsuc n) s = s
tcptmr_stop (pos n) s = record s { used = set s.used n false }

-- A timer that runs is stopped, and the timer for the next `TcpReconnect` started.
pub start_reconnect : ℤ → Link → Link
start_reconnect id s =
    let t : Link = elim (is_pos s.tmr_id) [ true ↦ tcptmr_stop s.tmr_id s | false ↦ s ] in
    record (tcptmr_start id t) { tmr_id = id }

-- The end of the connection in `LINK_MODE_CLIENT`.
pub drop_link : ℤ → Link → Link
drop_link id s = elim (is_pos s.listen_fd) [
  | false ↦ s
  | true ↦
      start_reconnect id
        (record s { listen_fd = negsuc 0; allset = []; open_fds = fd_clr s.listen_fd s.open_fds })
]

-- `TcpSend` in `LINK_MODE_CLIENT`: the new state, the result, and the bytes that went out. The timer
-- of a lost connection gets the number `id`.
pub client_send :
    (ℕ → ℕ) → ℤ → List Poll → List SendAnswer → List ℕ → Link → Option (Link × ℤ × List ℕ)
client_send htons id polls answers msg s = elim (not (is_pos s.listen_fd) || (length msg == 0)) [
  | true ↦ some (s, negsuc 0, [])
  | false ↦ elim (wait_writable polls tcp_snd_retry) [
    | none ↦ none
    | some given_up ↦ some (s, negsuc 0, [])
    | some lost ↦ some (drop_link id s, negsuc 0, [])
    | some writable ↦ elim (send_loop answers (length msg) (pos 0)) [
      | none ↦ none
      | some (total, last) ↦ elim ((total == length msg) && is_pos last) [
        | true ↦ some (s, pos total, with_tpkt htons msg)
        | false ↦ some (drop_link id s, negsuc 0, take total (with_tpkt htons msg))
      ]
    ]
  ]
]

-- `TcpRecv` in `LINK_MODE_CLIENT`: the new state and the result.
pub client_recv : (ℕ → ℕ) → ℤ → List RecvAnswer → Link → Option (Link × ℤ)
client_recv ntohs id answers s = elim (recv_loop answers tpkt_header_size (pos 0)) [
  | none ↦ none
  | some h ↦ elim (is_whole tpkt_header_size h) [
    | false ↦ some (drop_link id s, h.last)
    | true ↦
        let total = datasize ntohs h.bytes in
        elim (recv_loop h.rest (total - tpkt_header_size) (pos 0)) [
          | none ↦ none
          | some b ↦ elim ((tpkt_header_size + length b.bytes == total) && is_pos b.last) [
            | true ↦ some (s, b.last)
            | false ↦ some (drop_link id s, b.last)
          ]
        ]
  ]
]

-- What `TcpOpen` returns, and the descriptors that it leaves open when it fails.
pub record Opened : Type 0 where
  pub result : ℤ
  pub left : List ℤ

-- What follows `TcpOpen` where it succeeds.
pub join_link : ℤ → Link → Link
join_link opened s = record s {
  listen_fd = opened;
  allset = opened ∷ s.allset;
  open_fds = opened ∷ s.open_fds;
}

-- `TcpReconnect`, with the outcome of `TcpOpen`.
pub tcp_reconnect : Opened → ℤ → Link → Link
tcp_reconnect opened id s = elim (is_pos opened.result) [
  | true ↦ join_link opened.result (record s { tmr_id = pos 0 })
  | false ↦
      start_reconnect id
        (record s { tmr_id = pos 0; listen_fd = negsuc 0; open_fds = opened.left ++ s.open_fds })
]
