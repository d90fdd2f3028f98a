-- ===== src/Host/Links.antt =====
-- The links to the machines: `CheckTcpStatus` of src/HOST/src/host_task.c, run every minute, counts
-- the minutes since a machine's last report and clears the state of a machine that hangs. The
-- machines are the copy of `vmc_status` that it makes first.
pub mod Hysteresis
pub mod Unlisted
pub mod Hang
use vnf_monitoring.Prelude.{
  ℕ, zero, suc, ◌+◌, ◌%◌, ◌^◌, Bool, true, false, not, ◌&&◌, Option, none, some, List, [], ◌∷◌,
  ◌==◌, ltb, set, take, if◌then◌else◌, find, modify_first,
}
use vnf_monitoring.Host.State.{
  VmcStatus, VmcSystem, StateInfo, HostConf, Host, cleared_state, bypass_mode_on, bypass_mode_off,
}
use vnf_monitoring.Host.Bypass.{apply_tcp_mode}

-- The system of a machine's address; an unused entry of `vmc_system` is passed over.
abbrev pub is_system : ℕ → VmcSystem → Bool
is_system ip s = not (s.systemaddr == 0) && (ip == s.systemaddr)

abbrev pub has_ip : ℕ → StateInfo → Bool
has_ip ip t = t.vm_ip == ip

-- `link_status ++`, on an unsigned short.
abbrev pub count_link : VmcSystem → VmcSystem
count_link s = record s { link_status = (s.link_status + 1) % 2 ^ 16 }

-- What is done for the machine with the number `i` that hangs, with the entry of `stateinfo` found
-- for it. The entry that is cleared is the one at the machine's number, and 12 process states are
-- copied from `basePState[i]` to `pstate[i]`, arrays of 12: out of bounds unless `i` is 0, which is
-- `none`.
pub clear_found : ℕ → Option StateInfo → Host → Option Host
clear_found i none h = some h
clear_found zero (some t) h =
    some (record h { stateinfo = set h.stateinfo 0 (cleared_state h.base_pstate) })
clear_found (suc i) (some t) h = none

pub clear_hung : ℕ → ℕ → Host → Option Host
clear_hung i ip h = clear_found i (find (has_ip ip) h.stateinfo) h

-- The body of the loop over the machines.
pub check_machine : ℕ → VmcStatus → Host → ℕ → Option (Host × ℕ)
check_machine i v h bpmode = elim (find (is_system v.vm_ipaddr) h.conf.vmc_system) [
  | none ↦ some (h, bpmode)
  | some s ↦ elim (ltb s.link_status h.check_tcpstatus_min) [
    | true ↦ some (
      record h {
        conf = record h.conf {
          vmc_system = modify_first (is_system v.vm_ipaddr) count_link h.conf.vmc_system;
        };
      },
      bpmode,
    )
    | false ↦ elim (clear_hung i v.vm_ipaddr h) [
      | none ↦ none
      | some h2 ↦ some (h2, bypass_mode_on)
    ]
  ]
]

pub check_machines : ℕ → List VmcStatus → Host → ℕ → Option (Host × ℕ)
check_machines i [] h bpmode = some (h, bpmode)
check_machines i (v ∷ l) h bpmode = elim (check_machine i v h bpmode) [
  | none ↦ none
  | some (h2, m) ↦ check_machines (i + 1) l h2 m
]

pub check_tcp_status : Host → Option Host
check_tcp_status h =
    elim (check_machines 0 (take h.conf.vm_count h.conf.vmc_status) h bypass_mode_off) [
      | none ↦ none
      | some (h2, m) ↦ some (record h2 { conf = apply_tcp_mode m h2.conf })
    ]
