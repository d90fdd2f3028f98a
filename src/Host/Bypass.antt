-- ===== src/Host/Bypass.antt =====
-- The bypass control of the host server: `GetVmStatusInfoDB` of src/HOST/src/host_conf.c,
-- `CheckVmcStatus` of src/HOST/src/host_task.c, and the section of `CheckTcpStatus` under
-- `BypassMutex`. The command that would switch the network card is compiled out in the source, so
-- `ret` stays 0 and the mode is a field of `hostConf` alone.
pub mod Health
pub mod Agree
use vnf_monitoring.Prelude.{
  ℕ, zero, suc, Bool, true, false, not, ◌&&◌, ◌||◌, Option, none, some, List, [], ◌∷◌, ◌==◌, take,
  replicate, if◌then◌else◌,
}
use vnf_monitoring.Host.State.{
  VmcStatus, HostConf, zero_status, max_system_num, bypass_mode_on, bypass_mode_off, status_active,
  status_build, pw_status_nostatus, pw_status_running, pw_status_shutdown,
}
use vnf_monitoring.Db.Nova.{Row, Selection, query_failed, selected, faulted, select_all_vm_status}

-- The condition of the loop over the machines, with the exception for a machine that is shut down.
abbrev pub asks_bypass : VmcStatus → Bool
asks_bypass v =
    (not (v.vm_status == status_active) && not (v.vm_status == status_build)
      || not (v.vm_power_status == pw_status_running)
        && not (v.vm_power_status == pw_status_nostatus))
    && not (v.vm_power_status == pw_status_shutdown)

-- The loop itself, from the mode so far.
pub scan_mode : List VmcStatus → ℕ → ℕ
scan_mode [] bpmode = bpmode
scan_mode (v ∷ l) bpmode = scan_mode l (if asks_bypass v then bypass_mode_on else bpmode)

-- The mode that the state of the first `vmcount` machines asks for.
pub vm_mode : ℕ → List VmcStatus → ℕ
vm_mode vmcount vm =
    if vmcount == 0 then bypass_mode_on else scan_mode (take vmcount vm) bypass_mode_off

-- `vmcount` and the array after the query, which only the cloud mode makes.
pub poll_vms : HostConf → Option (List Row) → List VmcStatus → Selection
poll_vms c rows vm = if c.cloud_mode == 1 then select_all_vm_status rows vm else selected 0 vm

-- `GetVmStatusInfoDB`: the new configuration and the number of machines. `none` is its end without
-- a change of the mode: the -1 of the query, or a fault in it.
pub get_vm_status_info_db : HostConf → Option (List Row) → Option (HostConf × ℕ)
get_vm_status_info_db c rows = elim (poll_vms c rows c.vmc_status) [
  | query_failed ↦ none
  | faulted ↦ none
  | selected vmcount vm ↦
      let bpmode = vm_mode vmcount vm in
      some (
        record c { vmc_status = vm; bp_mode = bpmode; vmc_mode = bpmode; vm_count = vmcount },
        vmcount,
      )
]

-- The old entry of the machine among the first `vm_count`.
pub find_vm : ℕ → List VmcStatus → Option VmcStatus
find_vm i [] = none
find_vm i (v ∷ l) = if i == v.vm_id then some v else find_vm i l

pub vm_changed : List VmcStatus → VmcStatus → Bool
vm_changed old v = elim (find_vm v.vm_id old) [
  | none ↦ true
  | some o ↦ not (v.vm_status == o.vm_status) || not (v.vm_power_status == o.vm_power_status)
]

pub any_changed : List VmcStatus → List VmcStatus → Bool
any_changed old [] = false
any_changed old (v ∷ l) = vm_changed old v || any_changed old l

-- `s_flag`, which decides on a debug print.
pub status_changed : HostConf → ℕ → List VmcStatus → Bool
status_changed c vmcount vm =
    if vmcount == c.vm_count
    then any_changed (take c.vm_count c.vmc_status) (take vmcount vm)
    else true

-- The end of `CheckVmcStatus`, under `BypassMutex`.
pub apply_vmc_mode : ℕ → List VmcStatus → ℕ → HostConf → HostConf
apply_vmc_mode vmcount vm bpmode c = record c {
  vmc_status = vm;
  vm_count = vmcount;
  vmc_mode = bpmode;
  bp_mode =
      if bpmode == c.bp_mode
      then c.bp_mode
      else if bpmode == bypass_mode_on
      then bpmode
      else if c.tcp_mode == bypass_mode_off
      then bpmode
      else c.bp_mode;
}

-- `CheckVmcStatus`: the new configuration and `s_flag`; `none` is the -1 of the
-- query, with nothing changed, or a fault in it.
pub check_vmc_status : HostConf → Option (List Row) → Option (HostConf × Bool)
check_vmc_status c rows = elim (poll_vms c rows (replicate max_system_num zero_status)) [
  | query_failed ↦ none
  | faulted ↦ none
  | selected vmcount vm ↦
      some (apply_vmc_mode vmcount vm (vm_mode vmcount vm) c, status_changed c vmcount vm)
]

-- The end of `CheckTcpStatus`, under `BypassMutex`.
unfoldable pub apply_tcp_mode : ℕ → HostConf → HostConf
apply_tcp_mode bpmode c = record c {
  tcp_mode = bpmode;
  bp_mode =
      if bpmode == c.bp_mode
      then c.bp_mode
      else if bpmode == bypass_mode_on
      then bpmode
      else if c.vmc_mode == bypass_mode_off
      then bpmode
      else c.bp_mode;
}
