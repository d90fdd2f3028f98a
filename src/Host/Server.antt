-- ===== src/Host/Server.antt =====
-- Receiving and processing together: the turns of `tcp_rcvTask` and `fifo_getTask` of
-- src/HOST/src/host_task.c, with `TcpdSock_Event`, `SendVmProcStateRsp` and `FifoGet_Event`. A turn
-- is the code between two waits. `none` is an access out of bounds, or a call that still waits when
-- its answers end.
pub mod Respond
pub mod Lengths
pub mod Bounds
pub mod Delivery
pub mod Processing
use vnf_monitoring.Prelude.{
  ℕ, zero, suc, ◌+◌, ◌<◌, ◌≡◌, ◌^◌, Bool, true, false, not, ◌&&◌, Option, none, some, List, [], ◌∷◌,
  ◌++◌, ◌==◌, ltb, get_or, set, take, drop, length, if◌then◌else◌,
}
use vnf_monitoring.Prelude.Int.{ℤ, pos, negsuc}
use vnf_monitoring.Host.State.{VmcSystem, HostConf, Host, zero_system, max_system_num}
use vnf_monitoring.Host.Fifo.{
  TcpHeader, Block, Cell, Fifo, Malloc, Wait, load, block_release, block_fifo_get, tcp_put_fifo,
}
use vnf_monitoring.Host.Sock.{
  Accept, Sock, unused_accept, is_pos, RecvAnswer, tcp_recv, tcp_accept, Poll, SendAnswer, tcp_send,
}
use vnf_monitoring.Host.Reports.{
  VmProcStateMsg, vm_proc_state_req, set_vm_process_state_info, reset_link,
}
use vnf_monitoring.Wire.{header_bytes, header_at, report_at, vm_proc_state_size}

-- `ntohl`, `ntohs`, `htonl`, `htons`
pub record Orders : Type 0 where
  pub ntohl : ℕ → ℕ
  pub ntohs : ℕ → ℕ
  pub htonl : ℕ → ℕ
  pub htons : ℕ → ℕ

-- What is documented of them: they keep the width, and undo each other.
pub record AreOrders (o : Orders) : Type 0 where
  pub htonl-small : (n : ℕ) → n < 2 ^ 32 → o.htonl n < 2 ^ 32
  pub htons-small : (n : ℕ) → n < 2 ^ 16 → o.htons n < 2 ^ 16
  pub ntohl-htonl : (n : ℕ) → n < 2 ^ 32 → o.ntohl (o.htonl n) ≡ n
  pub ntohs-htons : (n : ℕ) → n < 2 ^ 16 → o.ntohs (o.htons n) ≡ n
  pub ntohl-zero : o.ntohl 0 ≡ 0

-- `TCP_MSG_HTON` and `TCP_MSG_NTOH`
abbrev pub tcp_msg_hton : Orders → TcpHeader → TcpHeader
tcp_msg_hton o h = record h {
  system_id = o.htonl h.system_id;
  msg_type = o.htons h.msg_type;
  msg_size = o.htons h.msg_size;
}

abbrev pub tcp_msg_ntoh : Orders → TcpHeader → TcpHeader
tcp_msg_ntoh o h = record h {
  system_id = o.ntohl h.system_id;
  msg_type = o.ntohs h.msg_type;
  msg_size = o.ntohs h.msg_size;
}

-- The state of the two threads: the connections with the shared state, the queue, and the buffer
-- `buf` of `tcp_rcvTask`.
pub record Server : Type 0 where
  pub sock : Sock
  pub fifo : Fifo
  pub buf : List ℕ

-- `DEFAULT_TCP_COMHDR_LENGTH`, and the size of `buf`.
abbrev pub comhdr_length : ℕ
comhdr_length = 12

abbrev pub buf_size : ℕ
buf_size = 1400000

-- The bytes that `TcpRecv` has put behind the place of the TPKT header.
pub write_payload : List ℕ → List ℕ → Option (List ℕ)
write_payload payload buf =
    if ltb (length buf) (4 + length payload)
    then none
    else some (take 4 buf ++ (payload ++ drop (4 + length payload) buf))

-- The first message of a connection tells the address of its machine. `name_of` is the text of an
-- address behind "VM-".
pub set_address : (ℕ → List ℕ) → ℕ → ℕ → Sock → Sock
set_address name_of i addr s =
    let a = get_or s.alist i unused_accept in
    let v = get_or s.host.conf.vmc_system i zero_system in
    record s {
      alist = set s.alist i (record a { systemaddr = addr });
      host = record s.host {
        conf = record s.host.conf {
          vmc_system =
              set s.host.conf.vmc_system i
                (record v { systemaddr = addr; systemname = name_of addr; systemport = a.port });
        };
      };
    }

pub learn_address : Orders → (ℕ → List ℕ) → ℕ → List ℕ → Sock → Sock
learn_address o name_of i buf s =
    elim ((get_or s.host.conf.vmc_system i zero_system).systemport == 0) [
      | true ↦ set_address name_of i (o.ntohl (report_at (drop comhdr_length buf)).vm_ipaddress) s
      | false ↦ s
    ]

-- `TcpdSock_Event`: the header in the buffer is converted in place. The result of `tcp_PutFifo` is
-- only logged.
pub tcpd_sock_event : Orders → Malloc → ℕ → Server → Option Server
tcpd_sock_event o env i s =
    let h = tcp_msg_ntoh o (header_at s.buf) in
    elim (tcp_put_fifo env h i (drop comhdr_length s.buf) s.fifo) [
      | none ↦ none
      | some (ok, fifo) ↦
          some (record s { fifo = fifo; buf = header_bytes h ++ drop comhdr_length s.buf })
    ]

-- The body of the loop over the connections, for one that is ready.
pub rcv_connection : Orders → (ℕ → List ℕ) → Malloc → ℕ → List RecvAnswer → Server → Option Server
rcv_connection o name_of env i answers s = elim (tcp_recv o.ntohs i answers s.sock) [
  | none ↦ none
  | some (sock, n, payload) ↦ elim (write_payload payload s.buf) [
    | none ↦ none
    | some buf ↦ elim (is_pos n) [
      | false ↦ some (record s { sock = sock; buf = buf })
      | true ↦
          tcpd_sock_event o env i
            (record s { sock = learn_address o name_of i buf sock; buf = buf })
    ]
  ]
]

-- A connection that `select` reports, with what `malloc` and `recv` answer for it.
pub record Ready : Type 0 where
  pub index : ℕ
  pub malloc : Malloc
  pub answers : List RecvAnswer

-- The loop over the connections; one that is closed by now is passed over.
pub rcv_connections : Orders → (ℕ → List ℕ) → List Ready → Server → Option Server
rcv_connections o name_of [] s = some s
rcv_connections o name_of (r ∷ l) s =
    elim (is_pos (get_or s.sock.alist r.index unused_accept).accept_fd) [
      | false ↦ rcv_connections o name_of l s
      | true ↦ elim (rcv_connection o name_of r.malloc r.index r.answers s) [
        | none ↦ none
        | some t ↦ rcv_connections o name_of l t
      ]
    ]

-- What follows `TcpAccept`, by its result. At -1 the entry in front of `alist` is read. The flag says
-- that the turn goes on to the connections.
pub after_accept : ℤ → Sock → Option (Sock × Bool)
after_accept (negsuc n) s = none
after_accept (pos i) s = elim (i == max_system_num) [
  | true ↦ some (s, false)
  | false ↦
      let fd = (get_or s.alist i unused_accept).accept_fd in
      elim (is_pos fd) [
        | true ↦ some (record s { allset = fd ∷ s.allset }, true)
        | false ↦ some (s, false)
      ]
]

-- A turn of `tcp_rcvTask` in which `select` reports something: the descriptor `listen_fd`, with what
-- `accept` answers and the peer's port, or not, and connections.
pub tcp_rcv_turn :
    Orders → (ℕ → List ℕ) → ℤ → Option (Option ℤ × ℕ) → List Ready → Server → Option Server
tcp_rcv_turn o name_of listen_fd none ready s = rcv_connections o name_of ready s
tcp_rcv_turn o name_of listen_fd (some (accepted, from_port)) ready s =
    let (sock, i) = tcp_accept o.ntohs listen_fd accepted from_port s.sock in
    elim (after_accept i sock) [
      | none ↦ none
      | some (t, false) ↦ some (record s { sock = t })
      | some (t, true) ↦ rcv_connections o name_of ready (record s { sock = t })
    ]

-- The response: `VM_PROC_STATE_RSP` without data.
unfoldable pub response : Orders → ℕ → List ℕ
response o systemid =
    header_bytes
      (tcp_msg_hton o (record { tpkt_hdr = 0; system_id = systemid; msg_type = 2; msg_size = 0 }))

-- `SendVmProcStateRsp`
pub send_vm_proc_state_rsp : Orders → ℕ → ℕ → List Poll → List SendAnswer → Sock → Option Sock
send_vm_proc_state_rsp o idx systemid polls answers s =
    let a = get_or s.alist idx unused_accept in
    elim (reset_link a.systemaddr s.host.conf.vmc_system) [
      | none ↦ some s
      | some l ↦
          let t = record s {
            host = record s.host { conf = record s.host.conf { vmc_system = l } };
          } in
          elim a.accept_fd [
            | negsuc n ↦ some t
            | pos n ↦ elim (tcp_send o.htons idx (pos n) polls answers (response o systemid) t) [
              | none ↦ none
              | some (u, r, w) ↦ some u
            ]
          ]
    ]

-- `FifoGet_Event`: the message is read as a `vm_proc_state_msg`, whatever its size.
pub handle_block : Orders → Block → List Poll → List SendAnswer → Sock → Option Sock
handle_block o b polls answers s = elim (b.msgtype == vm_proc_state_req) [
  | false ↦ some s
  | true ↦ elim (send_vm_proc_state_rsp o b.alist_idx b.systemid polls answers s) [
    | none ↦ none
    | some t ↦ elim (ltb (length b.message) vm_proc_state_size) [
      | true ↦ none
      | false ↦
          some
            (record t { host = (set_vm_process_state_info o.ntohl (report_at b.message) t.host).0 })
    ]
  ]
]

-- A turn of `fifo_getTask`.
pub fifo_turn : Orders → Wait → List Poll → List SendAnswer → Server → Option Server
fifo_turn o w polls answers s = elim (block_fifo_get w s.fifo) [
  | none ↦ none
  | some (none, fifo) ↦ some (record s { fifo = fifo })
  | some (some a, fifo) ↦ elim (load a fifo) [
    | none ↦ none
    | some (c, f) ↦ elim (handle_block o c.block polls answers s.sock) [
      | none ↦ none
      | some sock ↦ elim (block_release a f) [
        | none ↦ none
        | some (u, g) ↦ some (record s { sock = sock; fifo = g })
      ]
    ]
  ]
]
