-- ===== src/Host/Tests.antt =====
-- The host server's state on concrete values.
use vnf_monitoring.Prelude.{
  ℕ, ◌≡◌, refl, ◌⊎◌, ◌↔◌, inl, inr, some, List, [], ◌∷◌, arith, find, Leaves,
}
use vnf_monitoring.Host.State.{
  VmcStatus, StateInfo, VmcSystem, HostConf, Host, zero_status, zero_system, cleared_state,
  bypass_mode_on, bypass_mode_off,
}
use vnf_monitoring.Host.Bypass.{vm_mode, check_vmc_status}
use vnf_monitoring.Host.Bypass.Health.{NeedsBypass, vm_mode_iff}
use vnf_monitoring.Host.Bypass.Agree.{Agrees, check_vmc_status-Agrees}
use vnf_monitoring.Host.Links.{is_system, check_tcp_status}
use vnf_monitoring.Host.Links.Hysteresis.{check_tcp_status-calm}
use vnf_monitoring.Host.Links.Hang.{check_tcp_status-hang}
use vnf_monitoring.Host.Reports.{VmProcStateMsg}

abbrev machine : ℕ → ℕ → VmcStatus
machine id ip = record {
  vm_id = id;
  vm_ipaddr = ip;
  vm_status = 1;
  vm_power_status = 1;
  vm_name = [];
  vm_uuid = [];
  vm_host_name = [];
}

abbrev system : ℕ → ℕ → VmcSystem
system ip link = record zero_system { systemaddr = ip; link_status = link }

abbrev entry : ℕ → StateInfo
entry ip = record (cleared_state []) { vm_ip = ip }

abbrev conf : List VmcSystem → HostConf
conf systems = record {
  bp_mode = 2;
  vm_count = 2;
  vmc_mode = 2;
  tcp_mode = 2;
  baremetal_mode = 1;
  cloud_mode = 0;
  vmc_system = systems;
  vmc_status = machine 1 10 ∷ machine 2 20 ∷ [];
}

abbrev host : List VmcSystem → Host
host systems = record {
  conf = conf systems;
  base_pstate = [];
  stateinfo = entry 20 ∷ entry 0 ∷ [];
  check_tcpstatus_min = 3;
}

-- All reported in time, and the second one hangs.
abbrev calm_host : Host
calm_host = host (system 10 0 ∷ system 20 1 ∷ [])

-- Both hang, and only the first one has an entry.
abbrev hanging_host : Host
hanging_host = record (host (system 10 4 ∷ system 20 3 ∷ [])) {
  stateinfo = entry 10 ∷ entry 0 ∷ [];
}

abbrev report : ℕ → VmProcStateMsg
report ip = record {
  vm_ipaddress = ip;
  vm_type = 2;
  pcount = 1;
  vm_id = [];
  vm_name = [];
  manage_ip = [];
  pstate = [];
}

vm_mode_iff_example :
    (vm_mode 2 (machine 1 10 ∷ zero_status ∷ []) ≡ bypass_mode_on)
    ↔ ((◌≡◌ {A = ℕ} 2 0) ⊎ (NeedsBypass (machine 1 10) ⊎ (NeedsBypass zero_status ⊎ ⊥)))
vm_mode_iff_example = vm_mode_iff 2 (machine 1 10 ∷ zero_status ∷ [])

conf-Agrees : Agrees (conf [])
conf-Agrees = (inr refl, inr refl, inr refl, (λ e. ground (arith, e), λ h. ground (arith, h)))

check_vmc_status-Agrees_example : Leaves (λ r. Agrees r.0) (check_vmc_status (conf []) (some []))
check_vmc_status-Agrees_example = check_vmc_status-Agrees (conf []) (some []) conf-Agrees

check_tcp_status-calm_example :
    (h2 : Host) × (check_tcp_status calm_host ≡ some h2)
    × (h2.conf.tcp_mode ≡ bypass_mode_off)
    × (h2.stateinfo ≡ calm_host.stateinfo)
    × ((find (is_system 10) h2.conf.vmc_system ≡ some (system 10 1))
        × ((find (is_system 20) h2.conf.vmc_system ≡ some (system 20 2)) × Unit {0}))
check_tcp_status-calm_example =
    check_tcp_status-calm calm_host (((λ e. omega (arith, e)), tt), (tt, tt))
      (omega arith, (omega arith, tt))

check_tcp_status-hang_example :
    (h2 : Host) × (check_tcp_status hanging_host ≡ some h2)
    × (h2.conf.tcp_mode ≡ bypass_mode_on)
    × (h2.conf.bp_mode ≡ bypass_mode_on)
check_tcp_status-hang_example =
    check_tcp_status-hang hanging_host (inl (system 10 4, refl, omega arith)) (inr refl, tt)
