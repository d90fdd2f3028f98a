-- ===== src/Agent/Tests.antt =====
-- The agent, and its report's way to the host server, on concrete values.
use vnf_monitoring.Prelude.{
  codes, ◌<◌, ◌≢◌, ℕ, ◌≡◌, refl, inl, Bool, true, false, none, some, List, [], ◌∷◌, ◌++◌, take,
  drop, length, length-replicate, replicate, Leaves, arith, append-nil,
}
use vnf_monitoring.Prelude.Int.{pos, negsuc}
use vnf_monitoring.Host.State.{cleared_state, zero_system}
use vnf_monitoring.Host.Fifo.{Fifo, timed_out, at_first}
use vnf_monitoring.Host.Fifo.Refine.{IsQueue}
use vnf_monitoring.Host.Fifo.Deliver.{both}
use vnf_monitoring.Host.Reports.Lookup.{IsStored}
use vnf_monitoring.Host.Reports.{to_host}
use vnf_monitoring.Host.Sock.{
  Sock, chunk, failed, ready, sent, recv_loop, wait_writable, send_loop, with_tpkt, unused_accept,
}
use vnf_monitoring.Host.Server.{
  Orders, AreOrders, Server, rcv_connection, fifo_turn, tcp_msg_hton, tcp_msg_ntoh,
}
use vnf_monitoring.Host.Server.Respond.{send_vm_proc_state_rsp-ends}
use vnf_monitoring.Wire.{header_bytes, header_at, report_bytes, report_at, u32_bytes, u16_bytes}
use vnf_monitoring.Agent.{
  Link, Opened, join_link, client_send, client_recv, drop_link, start_reconnect, tcptmr_start,
  tcptmr_stop,
}
use vnf_monitoring.Agent.Report.{
  AgentConf, own_report, to_network, req_header, proc_state_req, id_text, name_text,
}
use vnf_monitoring.Agent.Report.Encode.{IsConf, req-bytes, report_at-proc_state_req}
use vnf_monitoring.Agent.Processes.{read_utm_process_config}
use vnf_monitoring.Agent.Config.{AgentSettings, agent_read_config, initial_settings}
use vnf_monitoring.Agent.Config.Laws.{IsSaneAgent}
use vnf_monitoring.Agent.Config.Total.{agent_read_config_total}
use vnf_monitoring.Host.Config.Total.{AreReadable}
use vnf_monitoring.Host.Config.{Scan, read_digits, before_comment, words_from}
use vnf_monitoring.Agent.Processes.Lines.{file_of, read_utm_process_config-file_of}
use vnf_monitoring.Agent.Delivery.{store_report-proc_state_req}
use vnf_monitoring.Agent.Session.{
  SendEnv, step, rcv_turn, readable, expired, steps, send_proc_state_req, reopen, tmr_cmd_turn,
}
use vnf_monitoring.Agent.Session.Live.{IsLive}
use vnf_monitoring.Agent.Session.Reconnect.{steps-IsLive}
use vnf_monitoring.Agent.Session.Heartbeat.{
  waiting, rounds, rounds_lem, tmr_cmd_turn-send_proc_state_req,
}

-- A host whose own order is that of the network.
abbrev same_order : Orders
same_order = record { ntohl = λ n. n; ntohs = λ n. n; htonl = λ n. n; htons = λ n. n }

same_order-AreOrders : AreOrders same_order
same_order-AreOrders = record {
  htonl-small = λ n h. h;
  htons-small = λ n h. h;
  ntohl-htonl = λ n h. refl;
  ntohs-htons = λ n h. refl;
  ntohl-zero = refl;
}

abbrev link : Link
link = record {
  listen_fd = pos 4;
  allset = pos 4 ∷ [];
  open_fds = pos 4 ∷ [];
  tmr_id = pos 0;
  retry_cnt = 0;
  recv_flag = false;
  used = false ∷ false ∷ false ∷ [];
}

-- The connection was lost, and the timer 1 runs.
abbrev lost_link : Link
lost_link = record link {
  listen_fd = negsuc 0;
  allset = [];
  open_fds = [];
  tmr_id = pos 1;
  used = false ∷ true ∷ false ∷ [];
}

-- A `TcpOpen` that succeeds.
abbrev at_fd : ℕ → Opened
at_fd n = record { result = pos n; left = [] }

abbrev env : SendEnv
env = record {
  malloc_ok = true;
  opened = at_fd 5;
  id = pos 2;
  polls = ready ∷ [];
  answers = sent 5 ∷ [];
}

abbrev message : List ℕ
message = 1 ∷ 2 ∷ 3 ∷ 4 ∷ 5 ∷ []

-- The connection breaks off, and the timer finds the server again.
steps-IsLive_example : Leaves (IsLive 3) (
    steps
      (λ n. n)
      (λ n. n)
      (readable (pos 1) (failed ∷ []) ∷ expired 1 (at_fd 6) (pos 2) ∷ [])
      link)
unfolding step rcv_turn client_recv drop_link start_reconnect tcptmr_start tcptmr_stop recv_loop
steps-IsLive_example =
    steps-IsLive 3 (λ n. n) (λ n. n)
      (readable (pos 1) (failed ∷ []) ∷ expired 1 (at_fd 6) (pos 2) ∷ []) link
      ((0, refl, omega arith), (((1, refl, omega arith), refl, refl), tt)) (refl, inl (refl, refl))

rounds_lem_example : rounds (pos 1) (2 ∷ 0 ∷ 1 ∷ []) (waiting 0 link) ≡ waiting 0 link
rounds_lem_example =
    rounds_lem (pos 1) (2 ∷ 0 ∷ 1 ∷ []) link refl (omega arith, (omega arith, (omega arith, tt)))

sends :
    client_send (λ n. n) (pos 2) (ready ∷ []) (sent 5 ∷ []) message (reopen (at_fd 5) lost_link)
    ≡ some (reopen (at_fd 5) lost_link, pos 5, with_tpkt (λ n. n) message)
unfolding client_send reopen join_link wait_writable send_loop
sends = refl

tmr_cmd_turn-send_proc_state_req_example :
    (t : Link) × (send_proc_state_req (λ n. n) env message lost_link ≡ some t)
    × (t.listen_fd ≡ pos 5)
    × ((tmr_cmd_turn 1 (at_fd 6) (pos 1) t).listen_fd ≡ pos 6)
    × ((tmr_cmd_turn 1 (at_fd 6) (pos 1) t).open_fds ≡ pos 6 ∷ pos 5 ∷ [])
tmr_cmd_turn-send_proc_state_req_example =
    tmr_cmd_turn-send_proc_state_req (λ n. n) env message (with_tpkt (λ n. n) message) (pos 5)
      (at_fd 6) (pos 1) 1 lost_link refl refl refl refl refl sends

abbrev up : List ℕ → Bool
up name = true

abbrev no_text : ℕ → List ℕ
no_text n = []

abbrev conf : AgentConf
conf = record {
  vm_type = 1;
  vmstate_sendtime = 5;
  vmct_id = 7;
  vmct_ip = 20;
  manage_hostip = 49 ∷ [];
  vmct_name = 118 ∷ [];
  processes = (97 ∷ 98 ∷ []) ∷ [];
}

conf-IsConf : IsConf no_text no_text conf
unfolding id_text name_text
conf-IsConf = record {
  ip = omega arith;
  type = omega arith;
  id = (omega arith, ((λ e. omega (arith, e)), tt));
  name = (omega arith, ((λ e. omega (arith, e)), tt));
  manager = (omega arith, ((λ e. omega (arith, e)), tt));
  names = ((omega arith, ((λ e. omega (arith, e)), ((λ e. omega (arith, e)), tt))), tt);
  room = omega arith;
}

abbrev conf_bytes : List ℕ
conf_bytes =
    header_bytes (tcp_msg_hton same_order req_header)
    ++ report_bytes (to_network same_order (own_report up no_text no_text conf))

report_at-proc_state_req_example :
    (msg : List ℕ) × (proc_state_req same_order up no_text no_text conf ≡ some msg)
    × (length msg ≡ 952)
    × (tcp_msg_ntoh same_order (header_at msg) ≡ req_header)
    × (to_host (λ n. n) (report_at (drop 12 msg)) ≡ own_report up no_text no_text conf)
report_at-proc_state_req_example =
    report_at-proc_state_req same_order same_order-AreOrders up no_text no_text conf conf-IsConf

abbrev sock : Sock
sock = record {
  is_server = true;
  alist = record unused_accept { accept_fd = pos 5; port = 80 } ∷ [];
  allset = pos 5 ∷ [];
  closed = [];
  host = record {
    conf = record {
      bp_mode = 2;
      vm_count = 1;
      vmc_mode = 2;
      tcp_mode = 2;
      baremetal_mode = 1;
      cloud_mode = 0;
      vmc_system = zero_system ∷ [];
      vmc_status = [];
    };
    base_pstate = [];
    stateinfo = cleared_state [] ∷ [];
    check_tcpstatus_min = 3;
  };
}

abbrev empty_fifo : Fifo
empty_fifo = record {
  cell = λ a. none;
  p_first = none;
  pp_last = at_first;
  i_depth = 0;
  i_size = 0;
}

empty_fifo-IsQueue : IsQueue empty_fifo []
empty_fifo-IsQueue = record { chain = refl; distinct = tt; last = refl; depth = refl; size = refl }

abbrev server : Server
server = record { sock = sock; fifo = empty_fifo; buf = replicate 1000 0 }

store_report-proc_state_req_example :
    (t u : Server) × (rcv_connection same_order no_text
        (both 8)
        0
        (chunk (take 4 (with_tpkt (λ n. n) conf_bytes)) ∷ chunk (drop 4 conf_bytes) ∷ [])
        server
      ≡ some t)
    × (fifo_turn same_order (timed_out empty_fifo) (ready ∷ []) (sent 12 ∷ []) t ≡ some u)
    × IsQueue u.fifo []
    × IsStored (own_report up no_text no_text conf) (cleared_state [] ∷ []) u.sock.host.stateinfo
unfolding with_tpkt header_bytes u32_bytes u16_bytes
store_report-proc_state_req_example =
    store_report-proc_state_req same_order up no_text no_text no_text conf 0 8 conf_bytes
      (take 4 (with_tpkt (λ n. n) conf_bytes)) (drop 4 conf_bytes) [] [] [] (timed_out empty_fifo)
      (ready ∷ []) (sent 12 ∷ []) server same_order-AreOrders conf-IsConf
      (req-bytes same_order same_order-AreOrders up no_text no_text conf conf-IsConf)
      (omega (arith, length-replicate {A = ℕ} 1000 0)) tt tt
      (append-nil (take 4 (with_tpkt (λ n. n) conf_bytes))) (append-nil (drop 4 conf_bytes))
      empty_fifo-IsQueue refl (λ t run. send_vm_proc_state_rsp-ends same_order 0 1 [] [] t.sock)

plain : (c : ℕ) → 35 < c → (c ≢ 0) × (c ≢ 35) × (c ≢ 10)
plain c h = ((λ e. omega (arith, e, h)), (λ e. omega (arith, e, h)), (λ e. omega (arith, e, h)))

-- "ab" and "c"
read_utm_process_config-file_of_example :
    read_utm_process_config (97 ∷ 98 ∷ 10 ∷ 99 ∷ 10 ∷ []) ≡ some ((97 ∷ 98 ∷ []) ∷ (99 ∷ []) ∷ [])
read_utm_process_config-file_of_example =
    read_utm_process_config-file_of ((97 ∷ 98 ∷ []) ∷ (99 ∷ []) ∷ [])
      (
        (refl, omega arith, (plain 97 (omega arith), (plain 98 (omega arith), tt))),
        ((refl, omega arith, (plain 99 (omega arith), tt)), tt),
      )
      (omega arith)

-- Every number of the file is 7.
abbrev scan : Scan
scan = record { scan_u = λ t. some 7; scan_x = λ t. none; inet_addr = λ t. 1 }

-- "HOST_PORT = 7", a comment, and the name "a"
abbrev lines : List (List ℕ)
lines = codes "HOST_PORT = 7" ∷ codes "# the end" ∷ []

lines-AreReadable : AreReadable scan lines
unfolding read_digits before_comment words_from codes
lines-AreReadable = (
  (
    (omega arith, λ e. ground (arith, e)),
    ((omega arith, λ e. ground (arith, e)), ((omega arith, λ e. ground (arith, e)), tt)),
  ),
  (tt, tt),
)

agent_read_config_total_example :
    (d : AgentSettings) × (agent_read_config scan lines (file_of ((97 ∷ []) ∷ [])) initial_settings
      ≡ some (d, (97 ∷ []) ∷ []))
    × IsSaneAgent d
agent_read_config_total_example =
    agent_read_config_total scan lines ((97 ∷ []) ∷ []) lines-AreReadable
      ((refl, omega arith, (plain 97 (omega arith), tt)), tt) (omega arith)
