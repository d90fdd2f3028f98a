-- ===== src/Host/LinkTests.antt =====
-- The connections, the threads, the rows and the database on concrete values.
use vnf_monitoring.Prelude.{
  ℕ, ◌≡◌, refl, true, none, some, List, [], ◌∷◌, ◌-◌, arith, replicate, subst,
}
use vnf_monitoring.Prelude.Int.{ℤ, pos, negsuc}
use vnf_monitoring.Db.Nova.{Row}
use vnf_monitoring.Host.State.{
  VmcStatus, StateInfo, Host, zero_status, zero_system, cleared_state, max_system_num,
}
use vnf_monitoring.Host.Sock.{
  Sock, unused_accept, is_pos, chunk, failed, recv_loop, datasize, with_tpkt, tcp_recv, Received,
}
use vnf_monitoring.Host.Sock.Recv.{Fits}
use vnf_monitoring.Host.Sock.Send.{tcp_recv-with_tpkt}
use vnf_monitoring.Host.Tasks.{reset_watchdog_step, runs}
use vnf_monitoring.Host.Tasks.Rate.{runs-reset_watchdog-stalled}

abbrev reported : ℕ → StateInfo
reported ip = record (cleared_state []) { vm_ip = ip; pcount = 1 }

abbrev host : Host
host = record {
  conf = record {
    bp_mode = 2;
    vm_count = 1;
    vmc_mode = 2;
    tcp_mode = 2;
    baremetal_mode = 1;
    cloud_mode = 0;
    vmc_system = zero_system ∷ zero_system ∷ [];
    vmc_status = record zero_status { vm_ipaddr = 20 } ∷ [];
  };
  base_pstate = [];
  stateinfo = reported 10 ∷ reported 20 ∷ reported 30 ∷ [];
  check_tcpstatus_min = 3;
}

-- One connection, and a free entry.
abbrev sock : Sock
sock = record {
  is_server = true;
  alist =
      record { accept_fd = pos 5; systemidx = 1; systemaddr = 20; port = 80 } ∷ unused_accept ∷ [];
  allset = pos 5 ∷ [];
  closed = [];
  host = host;
}

abbrev row : Row
row = record {
  id = some 3;
  vm_state = some "active";
  power_state = some 1;
  display_name = none;
  ip_address = some 20;
  uuid = none;
  host = none;
}

abbrev no_machines : List VmcStatus
no_machines = replicate max_system_num zero_status

-- A header that breaks off.
cut_header :
    (h : Received)
    → recv_loop (chunk (4 ∷ 0 ∷ []) ∷ failed ∷ []) 4 (pos 0) ≡ some h
    → Fits h.rest (datasize (λ n. n) h.bytes - 4)
unfolding recv_loop datasize
cut_header h e =
    let got : record { bytes = 4 ∷ 0 ∷ []; last = negsuc 0; rest = [] } ≡ h = ground (arith, e) in
    subst (λ x. Fits x.rest (datasize (λ n. n) x.bytes - 4)) got tt

tcp_recv-with_tpkt_example :
    (n : ℤ) × (is_pos n ≡ true)
    × (tcp_recv
          (λ n. n)
          0
          (chunk (4 ∷ 0 ∷ []) ∷ chunk (0 ∷ 6 ∷ []) ∷ chunk (8 ∷ []) ∷ chunk (9 ∷ []) ∷ [])
          sock
        ≡ some (sock, n, 8 ∷ 9 ∷ []))
unfolding with_tpkt
tcp_recv-with_tpkt_example =
    tcp_recv-with_tpkt (λ n. n) (λ n. n) 0 (1 ∷ 2 ∷ 3 ∷ 4 ∷ 8 ∷ 9 ∷ []) (4 ∷ 0 ∷ []) (8 ∷ [])
      ((0 ∷ 6 ∷ []) ∷ []) ((9 ∷ []) ∷ []) [] sock (λ n h. h) (λ n h. refl) (omega arith)
      (omega arith) tt tt refl refl

abbrev minute_part : List (ℕ × ℕ)
minute_part = (14, 3) ∷ (15, 8) ∷ (16, 1) ∷ []

runs-reset_watchdog-stalled_example :
    runs (reset_watchdog_step 500) (record { sectime = 14; check1sec = true }) (15 ∷ 16 ∷ []) ≡ 0
runs-reset_watchdog-stalled_example =
    runs-reset_watchdog-stalled 500 14 (15 ∷ 16 ∷ [])
      ((λ e. omega (arith, e)), ((λ e. omega (arith, e)), tt))
