-- ===== src/Host/Rows.antt =====
-- The rows that the host server stores: `ProcessVmProcStateInfo` of src/HOST/src/host_task.c, for
-- the copies of `vmc_status` and `stateinfo` that it makes first. What the two queries of
-- `PQ_SelectCountVMStateInfo` and `PQ_CheckVMStateInfo` answer is a parameter, for the
-- writes made so far.
pub mod Baremetal
pub mod Unique
use vnf_monitoring.Prelude.{
  ℕ, zero, suc, Bool, true, false, not, ◌&&◌, Option, none, some, List, [], ◌∷◌, ◌++◌, ◌==◌, find,
  take, if◌then◌else◌,
}
use vnf_monitoring.Prelude.Int.{ℤ, pos, negsuc}
use vnf_monitoring.Host.State.{
  ProcessState, VmcStatus, StateInfo, HostConf, Host, status_active, pw_status_running,
}
use vnf_monitoring.Host.Links.{has_ip}

-- `vm_process_t`
pub record VmProcess : Type 0 where
  pub time_stamp : List ℕ
  pub vm_id : List ℕ
  pub vm_name : List ℕ
  pub host_id : List ℕ
  pub host_ip : List ℕ
  pub vm_type : ℕ
  pub vm_state : ℕ
  pub vm_power_state : ℕ
  pub bp_state : ℕ
  pub vm_process_count : ℕ
  pub pstate : List ProcessState

-- `VM_TYPE_UTM`, and the texts "-" and "UTM".
abbrev pub vm_type_utm : ℕ
vm_type_utm = 1

abbrev pub text_dash : List ℕ
text_dash = 45 ∷ []

abbrev pub text_utm : List ℕ
text_utm = 85 ∷ 84 ∷ 77 ∷ []

-- What is written: `PQ_InsertVMStateInfo` or `PQ_UpdateVMStateInfo`.
pub data Write : Type 0 where
  insert : VmProcess → Write
  update : VmProcess → Write

-- The row of a machine, with the report of its address, if there is one.
pub machine_row : List ℕ → Host → VmcStatus → VmProcess
machine_row ttime h v =
    let report = find (has_ip v.vm_ipaddr) h.stateinfo in
    record {
      time_stamp = ttime;
      vm_id = v.vm_uuid;
      vm_name = v.vm_name;
      host_id = v.vm_host_name;
      host_ip = elim report [ none ↦ text_dash | some t ↦ t.manage_ip ];
      vm_type = vm_type_utm;
      vm_state = v.vm_status;
      vm_power_state = v.vm_power_status;
      bp_state = h.conf.bp_mode;
      vm_process_count = elim report [ none ↦ 0 | some t ↦ t.pcount ];
      pstate = elim report [ none ↦ h.base_pstate | some t ↦ t.pstate ];
    }

-- The queries before a write, which the cloud mode alone makes.
unfoldable pub write_machine : (VmProcess → ℤ) → (VmProcess → ℤ) → VmProcess → List Write
write_machine select_count check row = elim (select_count row) [
  | negsuc n ↦ []
  | pos zero ↦ insert row ∷ []
  | pos (suc n) ↦ elim (check row) [ pos zero ↦ update row ∷ [] | pos (suc k) ↦ [] | negsuc k ↦ [] ]
]

pub write_machines :
    (List Write → VmProcess → ℤ)
    → (List Write → VmProcess → ℤ)
    → List ℕ
    → Host
    → List Write
    → List VmcStatus
    → List Write
write_machines select_count check ttime h written [] = written
write_machines select_count check ttime h written (v ∷ l) =
    let new =
      if h.conf.cloud_mode == 1
      then write_machine (select_count written) (check written) (machine_row ttime h v)
      else [] in
    write_machines select_count check ttime h (written ++ new) l

-- The row of an entry that belongs to no machine.
pub baremetal_row : List ℕ → Host → StateInfo → VmProcess
baremetal_row ttime h t = record {
  time_stamp = ttime;
  vm_id = t.vm_id;
  vm_name = t.vm_name;
  host_id = text_utm;
  host_ip = t.manage_ip;
  vm_type = t.vm_type;
  vm_state = status_active;
  vm_power_state = pw_status_running;
  bp_state = h.conf.bp_mode;
  vm_process_count = t.pcount;
  pstate = t.pstate;
}

-- The search of an entry's machine.
unfoldable pub is_machine : List VmcStatus → StateInfo → Bool
is_machine [] t = false
is_machine (v ∷ l) t = if t.vm_ip == v.vm_ipaddr then true else is_machine l t

-- The second loop; `v_flag` keeps its value from one entry to the next.
pub write_baremetal : List ℕ → Host → List VmcStatus → Bool → List StateInfo → List Write
write_baremetal ttime h machines v_flag [] = []
write_baremetal ttime h machines v_flag (t ∷ l) = elim (t.vm_ip == 0) [
  | true ↦ write_baremetal ttime h machines v_flag l
  | false ↦ elim (if is_machine machines t then true else v_flag) [
    | true ↦ write_baremetal ttime h machines true l
    | false ↦
        (if h.conf.baremetal_mode == 1 then insert (baremetal_row ttime h t) ∷ [] else [])
        ++ write_baremetal ttime h machines false l
  ]
]

pub process_vm_proc_state_info :
    (List Write → VmProcess → ℤ) → (List Write → VmProcess → ℤ) → List ℕ → Host → List Write
process_vm_proc_state_info select_count check ttime h =
    let machines = take h.conf.vm_count h.conf.vmc_status in
    write_machines select_count check ttime h [] machines
    ++ write_baremetal ttime h machines false h.stateinfo
