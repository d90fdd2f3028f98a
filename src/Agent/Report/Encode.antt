-- ===== src/Agent/Report/Encode.antt =====
-- The agent's message, read back by the host server.
use vnf_monitoring.Prelude.{
  ℕ, zero, suc, ◌-◌, ◌≤◌, ◌<◌, ◌^◌, ◌≡◌, refl, ap, sym, ◌∙◌, inl, inr, Bool, true, Bool-cases,
  append-nil, some, List, [], ◌∷◌, ◌++◌, map, arith, length, length-append, length-map,
  length-replicate, replicate, drop, All,
}
use vnf_monitoring.Host.State.{ProcessState}
use vnf_monitoring.Host.Reports.{host_process, to_host}
use vnf_monitoring.Host.Server.{Orders, AreOrders, tcp_msg_hton, tcp_msg_ntoh}
use vnf_monitoring.Wire.{header_bytes, header_at, report_bytes, report_at, u16_bytes, u32_bytes}
use vnf_monitoring.Wire.RoundTrip.{
  IsText, IsProcess, IsReport, IsHeader, header_at-header_bytes, report_at-report_bytes,
  length-report_bytes,
}
use vnf_monitoring.Agent.Report.{
  AgentConf, max_vm_proc_num, state_of, no_process, id_text, name_text, own_report, network_process,
  network_processes, to_network, req_header, fits, proc_state_req,
}

-- A configuration whose numbers fit their fields, and whose texts fit the message.
pub record IsConf (hex : ℕ → List ℕ) (addr_text : ℕ → List ℕ) (c : AgentConf) : Type 0 where
  pub ip : c.vmct_ip < 2 ^ 32
  pub type : c.vm_type < 2 ^ 16
  pub id : IsText 64 (id_text hex c)
  pub name : IsText 32 (name_text addr_text c)
  pub manager : IsText 16 c.manage_hostip
  pub names : All (IsText 64) c.processes
  pub room : length c.processes ≤ max_vm_proc_num

module _ (o : Orders) (orders : AreOrders o) (up : List ℕ → Bool) where
  -- The 12 states of the message: those of the processes, and the rest.
  abbrev states : ℕ → List (List ℕ) → List ProcessState
  states j names = map (state_of up) names ++ replicate j no_process

  state_of-small : (name : List ℕ) → (state_of up name).process_state < 2 ^ 32
  unfolding state_of
  state_of-small name = elim (Bool-cases (up name)) [
    | inl e ↦ rw (state_of, e) (omega arith)
    | inr e ↦ rw (state_of, e) (omega arith)
  ]

  rest-IsProcess : (j : ℕ) → All IsProcess (network_processes o 0 (replicate j no_process))
  unfolding network_processes
  rest-IsProcess zero = tt
  rest-IsProcess (suc j) = (((omega arith, (λ e. omega arith, tt)), omega arith), rest-IsProcess j)

  network_processes-IsProcess :
      (j : ℕ) (names : List (List ℕ))
      → All (IsText 64) names
      → All IsProcess (network_processes o (length names) (states j names))
  unfolding network_processes network_process state_of
  network_processes-IsProcess j [] a = rest-IsProcess j
  network_processes-IsProcess j (x ∷ names) a = (
    (a.0, orders.htonl-small (state_of up x).process_state (state_of-small x)),
    network_processes-IsProcess j names a.1,
  )

  rest-back :
      (j : ℕ)
      → map (host_process o.ntohl) (network_processes o 0 (replicate j no_process))
        ≡ replicate j no_process
  unfolding network_processes host_process
  rest-back zero = refl
  rest-back (suc j) = rw (orders.ntohl-zero, rest-back j) refl

  states-back :
      (j : ℕ) (names : List (List ℕ))
      → map (host_process o.ntohl) (network_processes o (length names) (states j names))
        ≡ states j names
  unfolding network_processes network_process host_process state_of
  states-back j [] = rest-back j
  states-back j (x ∷ names) =
      rw (orders.ntohl-htonl (state_of up x).process_state (state_of-small x), states-back j names)
        refl

module _ (o : Orders) (orders : AreOrders o) (up : List ℕ → Bool) (hex addr_text : ℕ → List ℕ) where
  own_states-length :
      (c : AgentConf)
      → length c.processes ≤ 12
      → length (map (state_of up) c.processes ++ replicate (12 - length c.processes) no_process)
        ≡ 12
  own_states-length c room = omega (
    arith,
    room,
    length-append (map (state_of up) c.processes) (replicate (12 - length c.processes) no_process),
    length-map c.processes (state_of up),
    length-replicate (12 - length c.processes) no_process,
  )

  network_processes-length :
      (k : ℕ) (l : List ProcessState) → length (network_processes o k l) ≡ length l
  unfolding network_processes
  network_processes-length k [] = refl
  network_processes-length zero (p ∷ l) = ap suc (network_processes-length zero l)
  network_processes-length (suc k) (p ∷ l) = ap suc (network_processes-length k l)

  pub sent-IsReport :
      (c : AgentConf)
      → IsConf hex addr_text c
      → IsReport (to_network o (own_report up hex addr_text c))
  unfolding to_network own_report
  sent-IsReport c v = record {
    ip = orders.htonl-small c.vmct_ip v.ip;
    type = orders.htonl-small c.vm_type (omega (arith, v.type));
    procs = orders.htonl-small (length c.processes) (omega (arith, v.room));
    id = v.id;
    name = v.name;
    manager = v.manager;
    states = network_processes-IsProcess o orders up (12 - length c.processes) c.processes v.names;
    twelve =
        network_processes-length (length c.processes)
          (states o orders up (12 - length c.processes) c.processes)
        ∙ own_states-length c v.room;
  }

  to_host-to_network :
      (c : AgentConf)
      → IsConf hex addr_text c
      → to_host o.ntohl (to_network o (own_report up hex addr_text c))
        ≡ own_report up hex addr_text c
  unfolding to_host to_network own_report
  to_host-to_network c v =
      rw
        (
          orders.ntohl-htonl c.vmct_ip v.ip,
          orders.ntohl-htonl c.vm_type (omega (arith, v.type)),
          orders.ntohl-htonl (length c.processes) (omega (arith, v.room)),
          states-back o orders up (12 - length c.processes) c.processes,
        )
        refl

  pub req-IsHeader : IsHeader (tcp_msg_hton o req_header)
  req-IsHeader = record {
    tpkt = omega arith;
    system = orders.htonl-small 1 (omega arith);
    type = orders.htons-small 1 (omega arith);
    size = orders.htons-small 940 (omega arith);
  }

  req-back : tcp_msg_ntoh o (tcp_msg_hton o req_header) ≡ req_header
  req-back =
      rw
        (
          orders.ntohl-htonl 1 (omega arith),
          orders.ntohs-htons 1 (omega arith),
          orders.ntohs-htons 940 (omega arith),
        )
        refl

  fits-own_report :
      (c : AgentConf) → IsConf hex addr_text c → fits (own_report up hex addr_text c) ≡ true
  unfolding fits own_report
  fits-own_report c v = ground (arith, v.id.0, v.name.0, v.manager.0, own_states-length c v.room)

  pub req-bytes :
      (c : AgentConf)
      → IsConf hex addr_text c
      → proc_state_req o up hex addr_text c
        ≡ some (
            header_bytes (tcp_msg_hton o req_header)
            ++ report_bytes (to_network o (own_report up hex addr_text c)))
  unfolding proc_state_req
  req-bytes c v = rw (proc_state_req, fits-own_report c v) refl

  pub report-back :
      (c : AgentConf)
      → IsConf hex addr_text c
      → to_host o.ntohl (report_at (report_bytes (to_network o (own_report up hex addr_text c))))
        ≡ own_report up hex addr_text c
  report-back c v =
      let m = to_network o (own_report up hex addr_text c) in
      ap (to_host o.ntohl) (
        ap report_at (sym (append-nil (report_bytes m)))
        ∙ report_at-report_bytes m [] (sent-IsReport c v))
      ∙ to_host-to_network c v

  -- For a configuration that fits, and whatever processes run, the agent has a message of 952 bytes: a
  -- header that the server reads as `VM_PROC_STATE_REQ` with 940 bytes from system 1, and bytes that it
  -- reads as the agent's own report: its address, type and texts, and the state of each process.
  pub report_at-proc_state_req :
      (c : AgentConf)
      → IsConf hex addr_text c
      → (msg : List ℕ) × (proc_state_req o up hex addr_text c ≡ some msg)
        × (length msg ≡ 952)
        × (tcp_msg_ntoh o (header_at msg) ≡ req_header)
        × (to_host o.ntohl (report_at (drop 12 msg)) ≡ own_report up hex addr_text c)
  unfolding header_bytes u32_bytes u16_bytes
  report_at-proc_state_req c v =
      let m = to_network o (own_report up hex addr_text c) in
      let h = tcp_msg_hton o req_header in
      let ok = sent-IsReport c v in
      (
        header_bytes h ++ report_bytes m,
        req-bytes c v,
        omega (arith, length-report_bytes m ok.twelve),
        ap (tcp_msg_ntoh o) (header_at-header_bytes h (report_bytes m) req-IsHeader) ∙ req-back,
        report-back c v,
      )
