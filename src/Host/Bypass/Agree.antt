-- ===== src/Host/Bypass/Agree.antt =====
-- The three modes of the configuration agree: the bypass is on when one of the two checks asks for
-- it, whatever the order in which the two threads run.
use vnf_monitoring.Prelude.{
  ℕ, ◌≡◌, ◌⊎◌, ◌↔◌, Bool, Option, none, some, Leaves, List, replicate, arith,
}
use vnf_monitoring.Host.State.{
  VmcStatus, HostConf, bypass_mode_on, bypass_mode_off, max_system_num, zero_status,
}
use vnf_monitoring.Db.Nova.{Row, query_failed, faulted, selected}
use vnf_monitoring.Host.Bypass.{
  poll_vms, vm_mode, get_vm_status_info_db, apply_vmc_mode, status_changed, check_vmc_status,
  apply_tcp_mode,
}
use vnf_monitoring.Host.Bypass.Health.{vm_mode-two}

abbrev pub IsMode : ℕ → Type 0
IsMode m = (m ≡ bypass_mode_on) ⊎ (m ≡ bypass_mode_off)

-- The modes are modes, and the card's is on exactly when one of the two checks' is.
abbrev pub Agrees : HostConf → Type 0
Agrees c =
    IsMode c.bp_mode
    × IsMode c.vmc_mode
    × IsMode c.tcp_mode
    × ((c.bp_mode ≡ bypass_mode_on)
        ↔ ((c.vmc_mode ≡ bypass_mode_on) ⊎ (c.tcp_mode ≡ bypass_mode_on)))

apply_vmc_mode-Agrees :
    (vmcount : ℕ) (vm : List VmcStatus) (m : ℕ) (c : HostConf)
    → IsMode m
    → Agrees c
    → Agrees (apply_vmc_mode vmcount vm m c)
unfolding apply_vmc_mode
apply_vmc_mode-Agrees vmcount vm m c h a = ground arith

-- Where the modes agree, they still do after the end of `CheckTcpStatus` with either mode: the bypass
-- is on exactly when the machines or the links ask for it.
apply_tcp_mode-Agrees : (m : ℕ) (c : HostConf) → IsMode m → Agrees c → Agrees (apply_tcp_mode m c)
unfolding apply_tcp_mode
apply_tcp_mode-Agrees m c h a = ground arith

-- Where the modes agree, they still do after a `CheckVmcStatus` that does not fail, whatever the
-- database answers.
pub check_vmc_status-Agrees :
    (c : HostConf) (rows : Option (List Row))
    → Agrees c
    → Leaves (λ r. Agrees r.0) (check_vmc_status c rows)
unfolding check_vmc_status
check_vmc_status-Agrees c rows a =
    elim (poll_vms c rows (replicate max_system_num zero_status))
      as (λ o.
        Leaves {A = HostConf × Bool} (λ r. Agrees r.0)
          (elim o [
            | query_failed ↦ none
            | faulted ↦ none
            | selected n vm ↦ some (apply_vmc_mode n vm (vm_mode n vm) c, status_changed c n vm)
          ])) [
            | query_failed ↦ tt
            | faulted ↦ tt
            | selected n vm ↦ apply_vmc_mode-Agrees n vm (vm_mode n vm) c (vm_mode-two n vm) a
          ]

-- A `GetVmStatusInfoDB` that does not fail makes the modes agree, where `tcp_mode` is off as
-- `InitVariable` leaves it.
get_vm_status_info_db-Agrees :
    (c : HostConf) (rows : Option (List Row))
    → c.tcp_mode ≡ bypass_mode_off
    → Leaves (λ r. Agrees r.0) (get_vm_status_info_db c rows)
unfolding get_vm_status_info_db
get_vm_status_info_db-Agrees c rows a =
    elim (poll_vms c rows c.vmc_status)
      as (λ o.
        Leaves {A = HostConf × ℕ} (λ r. Agrees r.0)
          (elim o [
            | query_failed ↦ none
            | faulted ↦ none
            | selected n vm ↦
                let m = vm_mode n vm in
                some (record c { vmc_status = vm; bp_mode = m; vmc_mode = m; vm_count = n }, n)
          ])) [
            | query_failed ↦ tt
            | faulted ↦ tt
            | selected n vm ↦ (let h = vm_mode-two n vm in ground arith)
          ]
