-- ===== src/Host/Links/Hysteresis.antt =====
-- A check of the links while every machine reports in time, and one while a machine hangs.
use vnf_monitoring.Prelude.{
  ℕ, ◌+◌, ◌<◌, ◌≡◌, refl, ◌≢◌, inl, inr, none, some, Option-cases, List, [], ◌∷◌, take, find,
  modify_first, find-modify_first, find-modify_first_ne, modify_first-none, All, All-map2, map_some,
  arith, sym, ap, ◌∙◌,
}
use vnf_monitoring.Host.State.{VmcStatus, VmcSystem, Host, bypass_mode_off}
use vnf_monitoring.Host.Bypass.{apply_tcp_mode}
use vnf_monitoring.Host.Links.{
  is_system, count_link, check_machine, check_machines, check_tcp_status,
}

-- The machine's system, if it has one, has had a report within the limit.
abbrev pub IsCalm : List VmcSystem → ℕ → VmcStatus → Type 0
IsCalm systems limit v = elim (find (is_system v.vm_ipaddr) systems) [
  | none ↦ Unit
  | some s ↦ s.link_status < limit
]

abbrev pub AreDistinct : List VmcStatus → Type 0
AreDistinct [] = Unit
AreDistinct (v ∷ l) = All (λ w. w.vm_ipaddr ≢ v.vm_ipaddr) l × AreDistinct l

-- The counters after one check without a machine that hangs.
abbrev pub tick : List VmcStatus → List VmcSystem → List VmcSystem
tick [] systems = systems
tick (v ∷ l) systems = tick l (modify_first (is_system v.vm_ipaddr) count_link systems)

abbrev pub with_systems : Host → List VmcSystem → Host
with_systems h systems = record h { conf = record h.conf { vmc_system = systems } }

-- A count for one address leaves the systems of the others.
pub find-count_link_ne :
    (ip jp : ℕ) (systems : List VmcSystem)
    → jp ≢ ip
    → find (is_system jp) (modify_first (is_system ip) count_link systems)
      ≡ find (is_system jp) systems
find-count_link_ne ip jp systems ne =
    find-modify_first_ne (is_system ip) count_link (is_system jp) (λ s h. ground arith)
      (λ s h. ground arith) systems

pub find-count_link :
    (ip : ℕ) (systems : List VmcSystem)
    → find (is_system ip) (modify_first (is_system ip) count_link systems)
      ≡ map_some count_link (find (is_system ip) systems)
find-count_link ip systems = find-modify_first (is_system ip) count_link (λ s h. h) systems

pub check_machine-calm :
    (i : ℕ) (v : VmcStatus) (h : Host) (m : ℕ)
    → IsCalm h.conf.vmc_system h.check_tcpstatus_min v
    → check_machine i v h m
      ≡ some (with_systems h (modify_first (is_system v.vm_ipaddr) count_link h.conf.vmc_system), m)
unfolding check_machine
check_machine-calm i v h m calm =
    elim (Option-cases (find (is_system v.vm_ipaddr) h.conf.vmc_system)) [
      | inl e ↦
          ground
            (arith, e, modify_first-none (is_system v.vm_ipaddr) count_link h.conf.vmc_system e)
      | inr (s, e) ↦ ground (arith, e, calm)
    ]

-- The others stay calm.
pub IsCalm-count_link :
    (v : VmcStatus) (l : List VmcStatus) (systems : List VmcSystem) (limit : ℕ)
    → All (λ w. w.vm_ipaddr ≢ v.vm_ipaddr) l
    → All (IsCalm systems limit) l
    → All (IsCalm (modify_first (is_system v.vm_ipaddr) count_link systems) limit) l
IsCalm-count_link v l systems limit =
    All-map2 l (λ w ne c. rw (IsCalm, find-count_link_ne v.vm_ipaddr w.vm_ipaddr systems ne) c)

pub check_machines-calm :
    (i : ℕ) (l : List VmcStatus) (h : Host) (m : ℕ)
    → AreDistinct l
    → All (IsCalm h.conf.vmc_system h.check_tcpstatus_min) l
    → check_machines i l h m ≡ some (with_systems h (tick l h.conf.vmc_system), m)
unfolding check_machines
check_machines-calm i [] h m d c = refl
check_machines-calm i (v ∷ l) h m d c =
    let systems = modify_first (is_system v.vm_ipaddr) count_link h.conf.vmc_system in
    rw (check_machines, check_machine-calm i v h m c.0)
      (check_machines-calm (i + 1) l (with_systems h systems) m d.1
        (IsCalm-count_link v l h.conf.vmc_system h.check_tcpstatus_min d.0 c.1))

pub tick_ne :
    (l : List VmcStatus) (ip : ℕ) (systems : List VmcSystem)
    → All (λ w. w.vm_ipaddr ≢ ip) l
    → find (is_system ip) (tick l systems) ≡ find (is_system ip) systems
tick_ne [] ip systems a = refl
tick_ne (v ∷ l) ip systems a =
    tick_ne l ip (modify_first (is_system v.vm_ipaddr) count_link systems) a.1
    ∙ find-count_link_ne v.vm_ipaddr ip systems (λ e. a.0 (sym e))

tick_lem :
    (l : List VmcStatus) (systems : List VmcSystem)
    → AreDistinct l
    → All
        (λ v.
          find (is_system v.vm_ipaddr) (tick l systems)
          ≡ map_some count_link (find (is_system v.vm_ipaddr) systems))
        l
tick_lem [] systems d = tt
tick_lem (v ∷ l) systems d =
    let counted = modify_first (is_system v.vm_ipaddr) count_link systems in
    (
      tick_ne l v.vm_ipaddr counted d.0 ∙ find-count_link v.vm_ipaddr systems,
      All-map2 l
          (λ w ne e.
            e ∙ ap (map_some count_link) (find-count_link_ne v.vm_ipaddr w.vm_ipaddr systems ne))
          d.0 (tick_lem l counted d.1),
    )

-- The machines that a check looks at.
abbrev pub machines_of : Host → List VmcStatus
machines_of h = take h.conf.vm_count h.conf.vmc_status

-- While every machine has reported within the limit and the addresses differ, a check succeeds,
-- finds no reason for the bypass, leaves `stateinfo` alone, and adds one to each machine's counter.
pub check_tcp_status-calm :
    (h : Host)
    → AreDistinct (machines_of h)
    → All (IsCalm h.conf.vmc_system h.check_tcpstatus_min) (machines_of h)
    → (h2 : Host) × (check_tcp_status h ≡ some h2)
      × (h2.conf.tcp_mode ≡ bypass_mode_off)
      × (h2.stateinfo ≡ h.stateinfo)
      × All
          (λ v.
            find (is_system v.vm_ipaddr) h2.conf.vmc_system
            ≡ map_some count_link (find (is_system v.vm_ipaddr) h.conf.vmc_system))
          (machines_of h)
unfolding check_tcp_status apply_tcp_mode
check_tcp_status-calm h d c = (
  record h {
    conf =
        apply_tcp_mode bypass_mode_off
          (with_systems h (tick (machines_of h) h.conf.vmc_system)).conf;
  },
  rw (check_tcp_status, check_machines-calm 0 (machines_of h) h bypass_mode_off d c) refl,
  refl,
  refl,
  tick_lem (machines_of h) h.conf.vmc_system d,
)
