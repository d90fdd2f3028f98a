-- ===== src/Agent/Report.antt =====
-- The message that the agent sends: the first half of `SendProcStateReq` of src/VMCT/src/vmct_task.c.
-- `up` tells whether a process runs, `hex` writes a number in hexadecimal, `addr_text` an address;
-- they stand for `proccheckbyname`, `sprintf` and `addr2ntoa`.
pub mod Encode
use vnf_monitoring.Prelude.{
  ℕ, zero, suc, ◌-◌, Bool, true, false, ◌&&◌, Option, none, some, List, [], ◌∷◌, ◌++◌, ◌==◌, ltb,
  map, length, replicate, if◌then◌else◌,
}
use vnf_monitoring.Host.State.{ProcessState}
use vnf_monitoring.Host.Fifo.{TcpHeader}
use vnf_monitoring.Host.Reports.{VmProcStateMsg, vm_proc_state_req}
use vnf_monitoring.Host.Server.{Orders, tcp_msg_hton}
use vnf_monitoring.Wire.{header_bytes, report_bytes, vm_proc_state_size}

-- `vmct_config_t`, with the names of `vmct_proc`.
pub record AgentConf : Type 0 where
  pub vm_type : ℕ
  pub vmstate_sendtime : ℕ
  pub vmct_id : ℕ
  pub vmct_ip : ℕ
  pub manage_hostip : List ℕ
  pub vmct_name : List ℕ
  pub processes : List (List ℕ)

abbrev pub max_vm_proc_num : ℕ
max_vm_proc_num = 12

abbrev pub vm_type_host : ℕ
vm_type_host = 3

-- `PROCESS_STATE_UP` and `PROCESS_STATE_DOWN`
pub state_of : (List ℕ → Bool) → List ℕ → ProcessState
state_of up name = record { process_name = name; process_state = if up name then 1 else 2 }

-- An entry of `pstate` that no process has: the name "-".
abbrev pub no_process : ProcessState
no_process = record { process_name = 45 ∷ []; process_state = 0 }

-- "<name>-<id>" and "vUTM_<address>" on a host machine, else "-".
unfoldable pub id_text : (ℕ → List ℕ) → AgentConf → List ℕ
id_text hex c = if c.vm_type == vm_type_host then c.vmct_name ++ (45 ∷ hex c.vmct_id) else 45 ∷ []

unfoldable pub name_text : (ℕ → List ℕ) → AgentConf → List ℕ
name_text addr_text c =
    if c.vm_type == vm_type_host then 118 ∷ 85 ∷ 84 ∷ 77 ∷ 95 ∷ addr_text c.vmct_ip else 45 ∷ []

-- The message in the host's byte order.
pub own_report : (List ℕ → Bool) → (ℕ → List ℕ) → (ℕ → List ℕ) → AgentConf → VmProcStateMsg
own_report up hex addr_text c = record {
  vm_ipaddress = c.vmct_ip;
  vm_type = c.vm_type;
  pcount = length c.processes;
  vm_id = id_text hex c;
  vm_name = name_text addr_text c;
  manage_ip = c.manage_hostip;
  pstate =
      map (state_of up) c.processes ++ replicate (max_vm_proc_num - length c.processes) no_process;
}

-- `NBO_HTONL` of the numbers, of the states for the configured processes only.
pub network_process : Orders → ProcessState → ProcessState
network_process o p = record p { process_state = o.htonl p.process_state }

pub network_processes : Orders → ℕ → List ProcessState → List ProcessState
network_processes o k [] = []
network_processes o zero (p ∷ l) = p ∷ network_processes o zero l
network_processes o (suc k) (p ∷ l) = network_process o p ∷ network_processes o k l

pub to_network : Orders → VmProcStateMsg → VmProcStateMsg
to_network o m = record m {
  vm_ipaddress = o.htonl m.vm_ipaddress;
  vm_type = o.htonl m.vm_type;
  pcount = o.htonl m.pcount;
  pstate = network_processes o m.pcount m.pstate;
}

-- The header of the message, in the host's byte order.
abbrev pub req_header : TcpHeader
req_header = record {
  tpkt_hdr = 0;
  system_id = 1;
  msg_type = vm_proc_state_req;
  msg_size = vm_proc_state_size;
}

-- The texts fit their arrays with their ends, and the processes theirs; else the agent writes behind
-- an array.
pub fits : VmProcStateMsg → Bool
fits m =
    ltb (length m.vm_id) 64
    && (ltb (length m.vm_name) 32
        && (ltb (length m.manage_ip) 16 && (length m.pstate == max_vm_proc_num)))

-- The bytes handed to `TcpSend`.
pub proc_state_req :
    Orders → (List ℕ → Bool) → (ℕ → List ℕ) → (ℕ → List ℕ) → AgentConf → Option (List ℕ)
proc_state_req o up hex addr_text c =
    let m = own_report up hex addr_text c in
    if fits m
    then some (header_bytes (tcp_msg_hton o req_header) ++ report_bytes (to_network o m))
    else none
