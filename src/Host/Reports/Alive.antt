-- ===== src/Host/Reports/Alive.antt =====
-- A machine that reports does not hang.
use vnf_monitoring.Prelude.{
  ℕ, ◌≡◌, refl, ◌≢◌, ◌<◌, inl, inr, Bool, true, some, Option-cases, List, [], ◌∷◌, ◌==◌, ◌∙◌,
  modify_first, find_index, find, find-find_index, find-modify_first, arith, sym,
}
use vnf_monitoring.Host.State.{VmcStatus, VmcSystem, Host}
use vnf_monitoring.Host.Links.{is_system}
use vnf_monitoring.Host.Links.Hysteresis.{IsCalm}
use vnf_monitoring.Host.Reports.{
  VmProcStateMsg, set_vm_process_state_info, is_check_on, reset_link, fifo_get_event,
  vm_proc_state_req,
}

-- For an address other than 0 the two searches of `vmc_system` find the same entry.
same-find :
    (addr : ℕ) (l : List VmcSystem)
    → addr ≢ 0
    → find (λ s. s.systemaddr == addr) l ≡ find (is_system addr) l
same-find addr [] ne = refl
same-find addr (s ∷ l) ne = ground (arith, same-find addr l ne)

abbrev pub revived : VmcSystem → VmcSystem
revived s = record s { is_check = is_check_on; link_status = 0 }

reset_link-known :
    (addr : ℕ) (l : List VmcSystem) (s : VmcSystem)
    → addr ≢ 0
    → find (is_system addr) l ≡ some s
    → (l2 : List VmcSystem) × (reset_link addr l ≡ some l2)
      × (find (is_system addr) l2 ≡ some (revived s))
unfolding reset_link
reset_link-known addr l s ne e =
    let p : VmcSystem → Bool = λ s. s.systemaddr == addr in
    let found : find p l ≡ some s = same-find addr l ne ∙ e in
    let l2 = modify_first p revived l in
    (
      l2,
      elim (Option-cases (find_index p l)) [
        | inl h ↦ ground (arith, h, found, find-find_index p l)
        | inr (i, h) ↦ rw (reset_link, h) refl
      ],
      sym (same-find addr l2 ne) ∙ find-modify_first p revived (λ u k. k) l ∙ rw found refl,
    )

-- After a report from the address of a machine with a system, that system's counter is 0, and the
-- sender is answered.
pub fifo_get_event-IsCalm :
    (ntohl : ℕ → ℕ) (m : VmProcStateMsg) (h : Host) (v : VmcStatus) (s : VmcSystem)
    → v.vm_ipaddr ≢ 0
    → find (is_system v.vm_ipaddr) h.conf.vmc_system ≡ some s
    → let r = fifo_get_event ntohl vm_proc_state_req v.vm_ipaddr m h in
      (find (is_system v.vm_ipaddr) r.0.conf.vmc_system ≡ some (revived s))
      × (r.1 ≡ true)
      × (0 < h.check_tcpstatus_min → IsCalm r.0.conf.vmc_system r.0.check_tcpstatus_min v)
unfolding fifo_get_event set_vm_process_state_info
fifo_get_event-IsCalm ntohl m h v s ne e =
    let (l2, done, there) = reset_link-known v.vm_ipaddr h.conf.vmc_system s ne e in
    rw (fifo_get_event, done) (there, refl, λ pos. rw (IsCalm, there) pos)
