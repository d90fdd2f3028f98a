-- ===== src/Host/Sock.antt =====
-- The connections of the host server: `TcpAccept`, `TcpSend` and `TcpRecv` of
-- src/HOST/src/host_sock.c. What `accept`, `select`, `send` and `recv` answer is a list of answers
-- in their order; the byte order of a 16-bit number is the parameter `htons` or `ntohs`. `none` is a
-- call that still waits when the answers end.
pub mod Accepting
pub mod Recv
pub mod Send
use vnf_monitoring.Prelude.{
  ℕ, zero, suc, ◌+◌, ◌-◌, ◌*◌, ◌/◌, ◌%◌, ◌^◌, Bool, true, false, not, ◌&&◌, ◌||◌, Option, none,
  some, List, [], ◌∷◌, ◌++◌, ◌==◌, ltb, get_or, set, take, drop, length, modify_first, find_index,
  if◌then◌else◌,
}
use vnf_monitoring.Prelude.Int.{ℤ, pos, negsuc}
use vnf_monitoring.Host.State.{Host, HostConf, zero_system, cleared_state, max_system_num}
use vnf_monitoring.Host.Links.{has_ip}

-- `AcceptList_t`, the fields that the connections use.
pub record Accept : Type 0 where
  pub accept_fd : ℤ
  pub systemidx : ℕ
  pub systemaddr : ℕ
  pub port : ℕ

-- The globals: `tlink.mode`, `alist` and `allset`, the descriptors closed so far, and the state that
-- the other threads share.
pub record Sock : Type 0 where
  pub is_server : Bool
  pub alist : List Accept
  pub allset : List ℤ
  pub closed : List ℤ
  pub host : Host

abbrev pub unused_accept : Accept
unused_accept = record { accept_fd = negsuc 0; systemidx = 0; systemaddr = 0; port = 0 }

-- The test `> 0`.
abbrev pub is_pos : ℤ → Bool
is_pos (pos zero) = false
is_pos (pos (suc n)) = true
is_pos (negsuc n) = false

abbrev pub same_fd : ℤ → ℤ → Bool
same_fd (pos m) (pos n) = m == n
same_fd (negsuc m) (negsuc n) = m == n
same_fd (pos m) (negsuc n) = false
same_fd (negsuc m) (pos n) = false

-- `FD_CLR`
abbrev pub fd_clr : ℤ → List ℤ → List ℤ
fd_clr fd [] = []
fd_clr fd (x ∷ l) = if same_fd fd x then fd_clr fd l else x ∷ fd_clr fd l

-- The end of a connection, as in `TcpSend`: the entry of `alist` is free again, and the system's
-- entry of `vmc_system` is cleared.
unfoldable pub close_entry : ℕ → Accept → Sock → Sock
close_entry i a s = record s {
  alist = set s.alist i (record a { accept_fd = negsuc 0; port = 0 });
  allset = fd_clr a.accept_fd s.allset;
  closed = a.accept_fd ∷ s.closed;
  host = record s.host {
    conf = record s.host.conf { vmc_system = set s.host.conf.vmc_system i zero_system };
  };
}

unfoldable pub disconnect : ℕ → Sock → Sock
disconnect i s =
    let a = get_or s.alist i unused_accept in
    elim (s.is_server && is_pos a.accept_fd) [ true ↦ close_entry i a s | false ↦ s ]

-- As in `TcpRecv`, which also clears the entry of `stateinfo` with the system's address.
pub forget_machine : ℕ → Host → Host
forget_machine i h = record h {
  stateinfo =
      modify_first (has_ip (get_or h.conf.vmc_system i zero_system).systemaddr)
        (λ t. cleared_state h.base_pstate) h.stateinfo;
}

pub disconnect_machine : ℕ → Sock → Sock
disconnect_machine i s =
    let a = get_or s.alist i unused_accept in
    elim (s.is_server && is_pos a.accept_fd) [
      | true ↦ close_entry i a (record s { host = forget_machine i s.host })
      | false ↦ s
    ]

-- `TcpAccept`, with the descriptor that `accept` returns, or `none`, and the peer's port: the result
-- is an index, `MAX_LISTENQ` when the table is full, or -1.
pub free_accept : List Accept → Option ℕ
free_accept l = find_index (λ a. a.port == 0) l

pub tcp_accept : (ℕ → ℕ) → ℤ → Option ℤ → ℕ → Sock → Sock × ℤ
tcp_accept ntohs listen_fd accepted from_port s = elim (is_pos listen_fd) [
  | false ↦ (s, negsuc 0)
  | true ↦ elim accepted [
    | none ↦ (s, negsuc 0)
    | some fd ↦ elim (free_accept s.alist) [
      | none ↦ (record s { closed = fd ∷ s.closed }, pos max_system_num)
      | some i ↦ (
        record s {
          alist = set s.alist i (record (get_or s.alist i unused_accept) {
            accept_fd = fd;
            systemidx = i + 1;
            port = ntohs from_port;
          });
          host = record s.host {
            conf = record s.host.conf {
              vmc_system =
                  set s.host.conf.vmc_system i
                    (record (get_or s.host.conf.vmc_system i zero_system) { systemidx = i + 1 });
            };
          };
        },
        pos i,
      )
    ]
  ]
]

-- What `recv` answers: bytes, none of them at the end of the stream, the interruptions `EINTR` and
-- `EAGAIN`, or another error.
pub data RecvAnswer : Type 0 where
  chunk : List ℕ → RecvAnswer
  interrupted : RecvAnswer
  failed : RecvAnswer

-- The bytes received, the last result of `recv`, and the answers left.
pub record Received : Type 0 where
  pub bytes : List ℕ
  pub last : ℤ
  pub rest : List RecvAnswer

abbrev pub prepend : List ℕ → Received → Received
prepend b r = record r { bytes = b ++ r.bytes }

-- The loop of `TcpRecv` while bytes are missing, with the last result of `recv`.
unfoldable pub recv_loop : List RecvAnswer → ℕ → ℤ → Option Received
recv_loop answers zero last = some (record { bytes = []; last = last; rest = answers })
recv_loop [] (suc n) last = none
recv_loop (chunk [] ∷ answers) (suc n) last =
    some (record { bytes = []; last = pos 0; rest = answers })
recv_loop (chunk (x ∷ b) ∷ answers) (suc n) last =
    elim (recv_loop answers (n - length b) (pos (suc (length b)))) [
      | none ↦ none
      | some r ↦ some (prepend (x ∷ b) r)
    ]
recv_loop (interrupted ∷ answers) (suc n) last = recv_loop answers (suc n) (negsuc 0)
recv_loop (failed ∷ answers) (suc n) last =
    some (record { bytes = []; last = negsuc 0; rest = answers })

abbrev pub tpkt_header_size : ℕ
tpkt_header_size = 4

-- `(tpktHeader[2] << 8) + tpktHeader[3]` in the host's byte order.
unfoldable pub datasize : (ℕ → ℕ) → List ℕ → ℕ
datasize ntohs h = ntohs ((get_or h 2 0 * 2 ^ 8 + get_or h 3 0) % 2 ^ 16)

-- All the bytes came, and the last `recv` gave some.
abbrev pub is_whole : ℕ → Received → Bool
is_whole total r = (length r.bytes == total) && is_pos r.last

-- `TcpRecv`: the new state, the result, and the bytes written to `rBuf` behind the header's place.
unfoldable pub tcp_recv : (ℕ → ℕ) → ℕ → List RecvAnswer → Sock → Option (Sock × ℤ × List ℕ)
tcp_recv ntohs i answers s = elim (recv_loop answers tpkt_header_size (pos 0)) [
  | none ↦ none
  | some h ↦ elim (is_whole tpkt_header_size h) [
    | false ↦ some (disconnect_machine i s, h.last, [])
    | true ↦
        let total = datasize ntohs h.bytes in
        elim (recv_loop h.rest (total - tpkt_header_size) (pos 0)) [
          | none ↦ none
          | some b ↦ some (
            elim ((tpkt_header_size + length b.bytes == total) && is_pos b.last) [
              | true ↦ s
              | false ↦ disconnect_machine i s
            ],
            b.last,
            b.bytes,
          )
        ]
  ]
]

-- What `select` answers in `send_extendedPoll`: the descriptor is ready, or is not in the set, a
-- timeout, `EINTR`, one of `EBADF`, `EPIPE` and `EIO`, or another error.
pub data Poll : Type 0 where
  ready : Poll
  not_set : Poll
  timeout : Poll
  signal : Poll
  bad_fd : Poll
  other_error : Poll

-- What the loop `s_again` comes to: the flag 1, the flag 0, or the return of -1.
pub data Readiness : Type 0 where
  writable : Readiness
  lost : Readiness
  given_up : Readiness

-- `retry` is at least 1 in front of a call of `select`.
unfoldable pub wait_writable : List Poll → ℕ → Option Readiness
wait_writable [] retry = none
wait_writable (ready ∷ polls) retry = some writable
wait_writable (not_set ∷ polls) retry = some given_up
wait_writable (signal ∷ polls) retry = wait_writable polls retry
wait_writable (bad_fd ∷ polls) retry = some lost
wait_writable (other_error ∷ polls) retry = some given_up
wait_writable (timeout ∷ polls) retry =
    let rest = wait_writable polls (retry - 1) in if retry - 1 == 0 then some given_up else rest

-- What `send` answers: the number of bytes that it took, `EINTR` or `EAGAIN`, or another error.
pub data SendAnswer : Type 0 where
  sent : ℕ → SendAnswer
  blocked : SendAnswer
  broken : SendAnswer

-- The loop of `TcpSend` while bytes are left: `tnSend` and the last result of `send`.
unfoldable pub send_loop : List SendAnswer → ℕ → ℤ → Option (ℕ × ℤ)
send_loop answers zero last = some (0, last)
send_loop [] (suc n) last = none
send_loop (sent zero ∷ answers) (suc n) last = some (0, pos 0)
send_loop (sent (suc k) ∷ answers) (suc n) last = elim (send_loop answers (n - k) (pos (suc k))) [
  | none ↦ none
  | some (total, l) ↦ some (suc k + total, l)
]
send_loop (blocked ∷ answers) (suc n) last = send_loop answers (suc n) (negsuc 0)
send_loop (broken ∷ answers) (suc n) last = some (0, negsuc 0)

-- The message with its first four bytes set.
unfoldable pub with_tpkt : (ℕ → ℕ) → List ℕ → List ℕ
with_tpkt htons msg =
    let pkt_len = htons (length msg % 2 ^ 16) in
    4 ∷ 0 ∷ pkt_len / 2 ^ 8 % 2 ^ 8 ∷ pkt_len % 2 ^ 8 ∷ drop 4 msg

abbrev pub tcp_snd_retry : ℕ
tcp_snd_retry = 3

-- `TcpSend` of all of a message of at least four bytes, its header among them: the new state, the
-- result, and the bytes that went out.
unfoldable pub tcp_send :
    (ℕ → ℕ) → ℕ → ℤ → List Poll → List SendAnswer → List ℕ → Sock → Option (Sock × ℤ × List ℕ)
tcp_send htons i fd polls answers msg s = elim (not (is_pos fd) || (length msg == 0)) [
  | true ↦ some (s, negsuc 0, [])
  | false ↦ elim (wait_writable polls tcp_snd_retry) [
    | none ↦ none
    | some given_up ↦ some (s, negsuc 0, [])
    | some lost ↦ some (disconnect i s, negsuc 0, [])
    | some writable ↦ elim (send_loop answers (length msg) (pos 0)) [
      | none ↦ none
      | some (total, last) ↦ elim ((total == length msg) && is_pos last) [
        | true ↦ some (s, pos total, with_tpkt htons msg)
        | false ↦ some (disconnect i s, negsuc 0, take total (with_tpkt htons msg))
      ]
    ]
  ]
]
