-- ===== src/Host/Reports.antt =====
-- The reports of the machines: `FifoGet_Event`, `SendVmProcStateRsp` and `SetVmProcessStateInfo` of
-- src/HOST/src/host_task.c. The conversion of the byte order is not under src/ and is the
-- parameter `ntohl`.
pub mod Lookup
pub mod Alive
use vnf_monitoring.Prelude.{
  ℕ, ◌%◌, ◌^◌, Bool, true, false, not, Option, none, some, List, [], ◌∷◌, ◌==◌, map, modify_first,
  find_index, find, is_some, if◌then◌else◌,
}
use vnf_monitoring.Host.State.{ProcessState, StateInfo, VmcSystem, HostConf, Host}
use vnf_monitoring.Host.Links.{has_ip}

-- `vm_proc_state_msg`
pub record VmProcStateMsg : Type 0 where
  pub vm_ipaddress : ℕ
  pub vm_type : ℕ
  pub pcount : ℕ
  pub vm_id : List ℕ
  pub vm_name : List ℕ
  pub manage_ip : List ℕ
  pub pstate : List ProcessState

-- `VM_PROC_STATE_REQ`, `IS_CHECK_ON`
abbrev pub vm_proc_state_req : ℕ
vm_proc_state_req = 1

abbrev pub is_check_on : ℕ
is_check_on = 1

unfoldable pub host_process : (ℕ → ℕ) → ProcessState → ProcessState
host_process ntohl p = record p { process_state = ntohl p.process_state }

-- The message in the host's byte order.
unfoldable pub to_host : (ℕ → ℕ) → VmProcStateMsg → VmProcStateMsg
to_host ntohl s = record s {
  vm_ipaddress = ntohl s.vm_ipaddress;
  vm_type = ntohl s.vm_type;
  pcount = ntohl s.pcount;
  pstate = map (host_process ntohl) s.pstate;
}

-- What the message changes in the entry of its machine; the two numbers are cut to 16 bits.
abbrev pub update_entry : VmProcStateMsg → StateInfo → StateInfo
update_entry s t = record t {
  vm_type = s.vm_type % 2 ^ 16;
  pcount = s.pcount % 2 ^ 16;
  pstate = s.pstate;
  vm_id = s.vm_id;
  vm_name = s.vm_name;
  manage_ip = s.manage_ip;
}

-- What it writes to a free entry.
abbrev pub fill_entry : VmProcStateMsg → StateInfo → StateInfo
fill_entry s t = record (update_entry s t) { vm_ip = s.vm_ipaddress }

-- The two loops of `SetVmProcessStateInfo`, for the message in the host's byte order: the new
-- `stateinfo` and the index, or `none` for the -1.
pub store_report : VmProcStateMsg → List StateInfo → List StateInfo × Option ℕ
store_report s l = elim (find_index (has_ip s.vm_ipaddress) l) [
  | some i ↦ (modify_first (has_ip s.vm_ipaddress) (update_entry s) l, some i)
  | none ↦ elim (find_index (has_ip 0) l) [
    | some i ↦ (modify_first (has_ip 0) (fill_entry s) l, some i)
    | none ↦ (l, none)
  ]
]

unfoldable pub set_vm_process_state_info : (ℕ → ℕ) → VmProcStateMsg → Host → Host × Option ℕ
set_vm_process_state_info ntohl s h =
    let (l, i) = store_report (to_host ntohl s) h.stateinfo in (record h { stateinfo = l }, i)

-- The start of `SendVmProcStateRsp`: the counter of the sender's system starts again; `none` for
-- the -1 of an unknown sender, which gets no response.
pub reset_link : ℕ → List VmcSystem → Option (List VmcSystem)
reset_link addr l = elim (find_index (λ s. s.systemaddr == addr) l) [
  | none ↦ none
  | some i ↦ some (
      modify_first (λ s. s.systemaddr == addr)
        (λ s. record s { is_check = is_check_on; link_status = 0 }) l)
]

-- `FifoGet_Event` on a message of the type `msgtype` from the address `addr`: the new state, and
-- whether a response goes out. The result of `SetVmProcessStateInfo` is not used.
pub fifo_get_event : (ℕ → ℕ) → ℕ → ℕ → VmProcStateMsg → Host → Host × Bool
fifo_get_event ntohl msgtype addr s h = elim (msgtype == vm_proc_state_req) [
  | false ↦ (h, false)
  | true ↦ elim (reset_link addr h.conf.vmc_system) [
    | none ↦ ((set_vm_process_state_info ntohl s h).0, false)
    | some l ↦ (
      (set_vm_process_state_info ntohl s (record h { conf = record h.conf { vmc_system = l } })).0,
      true,
    )
  ]
]
