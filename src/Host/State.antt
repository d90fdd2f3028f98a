-- ===== src/Host/State.antt =====
-- The data that the host server's threads share: the structures of inc/bpapp.h and
-- src/HOST/hdr/host_conf.h. Text fields are the bytes in front of the terminating zero, addresses
-- and counters numbers; the fields that nothing modelled reads are left out.
use vnf_monitoring.Prelude.{ℕ, List, []}

abbrev pub max_system_num : ℕ
max_system_num = 128

-- `BYPASS_MODE_ON` and `BYPASS_MODE_OFF`
abbrev pub bypass_mode_on : ℕ
bypass_mode_on = 1

abbrev pub bypass_mode_off : ℕ
bypass_mode_off = 2

-- `vm_status` and `vm_power_status`
abbrev pub status_active : ℕ
status_active = 1

abbrev pub status_build : ℕ
status_build = 2

abbrev pub pw_status_nostatus : ℕ
pw_status_nostatus = 0

abbrev pub pw_status_running : ℕ
pw_status_running = 1

abbrev pub pw_status_shutdown : ℕ
pw_status_shutdown = 4

-- `process_state_t`
pub record ProcessState : Type 0 where
  pub process_name : List ℕ
  pub process_state : ℕ

-- `vmc_status_t`
pub record VmcStatus : Type 0 where
  pub vm_id : ℕ
  pub vm_ipaddr : ℕ
  pub vm_status : ℕ
  pub vm_power_status : ℕ
  pub vm_name : List ℕ
  pub vm_uuid : List ℕ
  pub vm_host_name : List ℕ

-- `vmc_stateinfo_t`
pub record StateInfo : Type 0 where
  pub vm_ip : ℕ
  pub vm_type : ℕ
  pub pcount : ℕ
  pub vm_id : List ℕ
  pub vm_name : List ℕ
  pub manage_ip : List ℕ
  pub pstate : List ProcessState

-- `vmc_system_t`
pub record VmcSystem : Type 0 where
  pub systemidx : ℕ
  pub systemid : ℕ
  pub systemaddr : ℕ
  pub systemport : ℕ
  pub is_check : ℕ
  pub link_status : ℕ
  pub systemname : List ℕ

-- `host_config_t`, the part that changes while the server runs.
pub record HostConf : Type 0 where
  pub bp_mode : ℕ
  pub vm_count : ℕ
  pub vmc_mode : ℕ
  pub tcp_mode : ℕ
  pub baremetal_mode : ℕ
  pub cloud_mode : ℕ
  pub vmc_system : List VmcSystem
  pub vmc_status : List VmcStatus

-- The globals of host_conf.c and host_main.c.
pub record Host : Type 0 where
  pub conf : HostConf
  pub base_pstate : List ProcessState
  pub stateinfo : List StateInfo
  pub check_tcpstatus_min : ℕ

-- What `memset` to zero leaves.
abbrev pub zero_status : VmcStatus
zero_status = record {
  vm_id = 0;
  vm_ipaddr = 0;
  vm_status = 0;
  vm_power_status = 0;
  vm_name = [];
  vm_uuid = [];
  vm_host_name = [];
}

abbrev pub zero_system : VmcSystem
zero_system = record {
  systemidx = 0;
  systemid = 0;
  systemaddr = 0;
  systemport = 0;
  is_check = 0;
  link_status = 0;
  systemname = [];
}

-- A cleared entry of `stateinfo`, with the process states `base`.
abbrev pub cleared_state : List ProcessState → StateInfo
cleared_state base = record {
  vm_ip = 0;
  vm_type = 0;
  pcount = 0;
  vm_id = [];
  vm_name = [];
  manage_ip = [];
  pstate = base;
}
