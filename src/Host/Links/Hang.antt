-- ===== src/Host/Links/Hang.antt =====
-- A check of the links while a machine hangs.
use vnf_monitoring.Prelude.{
  ℕ, zero, suc, ◌+◌, ◌≤◌, ◌≡◌, refl, ◌⊎◌, inl, inr, true, false, Bool-cases, Option, none, some,
  Option-cases, List, [], ◌∷◌, ltb, find, modify_first, Any, Any-map, Leaves, arith, ◌∙◌, ◌++◌, All,
  length, ap, drop, ◌≢◌,
}
use vnf_monitoring.Host.State.{
  VmcStatus, VmcSystem, StateInfo, Host, bypass_mode_on, bypass_mode_off,
}
use vnf_monitoring.Host.Bypass.{apply_tcp_mode}
use vnf_monitoring.Host.Links.{
  is_system, has_ip, count_link, clear_found, clear_hung, check_machine, check_machines,
  check_tcp_status,
}
use vnf_monitoring.Host.Links.Unlisted.{IsUnlisted, check_machines-defined}
use vnf_monitoring.Host.Links.Hysteresis.{
  machines_of, AreDistinct, IsCalm, tick, tick_ne, check_machine-calm, IsCalm-count_link,
  find-count_link_ne, with_systems,
}

-- The machine's system has had no report for the limit.
abbrev pub Hangs : VmcStatus → Host → Type 0
Hangs v h =
    (s : VmcSystem) × (find (is_system v.vm_ipaddr) h.conf.vmc_system ≡ some s)
    × (h.check_tcpstatus_min ≤ s.link_status)

-- Clearing an entry leaves the configuration and the limit.
clear_found-keeps :
    (i : ℕ) (found : Option StateInfo) (h : Host)
    → Leaves
        (λ h2. (h2.conf ≡ h.conf) × (h2.check_tcpstatus_min ≡ h.check_tcpstatus_min))
        (clear_found i found h)
unfolding clear_found
clear_found-keeps i none h = (refl, refl)
clear_found-keeps zero (some t) h = (refl, refl)
clear_found-keeps (suc i) (some t) h = tt

-- The check of a machine that hangs.
check_machine-late :
    (i : ℕ) (v : VmcStatus) (h : Host) (m : ℕ)
    → Hangs v h
    → check_machine i v h m
      ≡ elim (clear_hung i v.vm_ipaddr h) [ none ↦ none | some h2 ↦ some (h2, bypass_mode_on) ]
unfolding check_machine
check_machine-late i v h m (s, e, le) =
    let late : ltb s.link_status h.check_tcpstatus_min ≡ false = ground arith in
    rw (check_machine, e, late) refl

-- What the check of a machine leaves: the machines that hang go on to do so, and the mode stays or
-- is on.
abbrev Goes : Host → ℕ → Host × ℕ → Type 0
Goes h m r = ((v : VmcStatus) → Hangs v h → Hangs v r.0) × ((r.1 ≡ bypass_mode_on) ⊎ (r.1 ≡ m))

late-Goes :
    (H : Type 0) (h : Host) (m : ℕ) (o : Option Host)
    → Leaves (λ h2. (h2.conf ≡ h.conf) × (h2.check_tcpstatus_min ≡ h.check_tcpstatus_min)) o
    → Leaves
        (λ r. Goes h m r × (H → r.1 ≡ bypass_mode_on))
        (elim o as (λ x. Option (Host × ℕ)) [ none ↦ none | some h2 ↦ some (h2, bypass_mode_on) ])
late-Goes H h m none k = tt
late-Goes H h m (some h2) (conf, limit) =
    ((λ v hangs. (hangs.0, rw conf hangs.1, rw limit hangs.2), inl refl), λ hangs. refl)

counted-Goes :
    (w : VmcStatus) (h : Host) (m : ℕ) (s : VmcSystem)
    → find (is_system w.vm_ipaddr) h.conf.vmc_system ≡ some s
    → ltb s.link_status h.check_tcpstatus_min ≡ true
    → Goes h m
        (with_systems h (modify_first (is_system w.vm_ipaddr) count_link h.conf.vmc_system), m)
counted-Goes w h m s e early = (
  λ v (t, found, le).
      let ne : v.vm_ipaddr ≢ w.vm_ipaddr =
        λ same. (let f = rw same at found in ground (arith, e, f, early, le)) in
      (t, find-count_link_ne w.vm_ipaddr v.vm_ipaddr h.conf.vmc_system ne ∙ found, le),
  inr refl,
)

check_machine-Goes :
    (i : ℕ) (w : VmcStatus) (h : Host) (m : ℕ)
    → Leaves (λ r. Goes h m r × (Hangs w h → r.1 ≡ bypass_mode_on)) (check_machine i w h m)
unfolding check_machine clear_hung
check_machine-Goes i w h m = elim (Option-cases (find (is_system w.vm_ipaddr) h.conf.vmc_system)) [
  | inl e ↦
      rw (Leaves, check_machine, e)
        ((λ v hangs. hangs, inr refl), λ hangs. ground (arith, hangs.1, e))
  | inr (s, e) ↦ elim (Bool-cases (ltb s.link_status h.check_tcpstatus_min)) [
    | inl early ↦
        rw (Leaves, check_machine, e, early)
          (counted-Goes w h m s e early, λ hangs. ground (arith, hangs.1, hangs.2, e, early))
    | inr late ↦
        rw (check_machine, e, late)
          (late-Goes _ h m (clear_hung i w.vm_ipaddr h)
            (clear_found-keeps i (find (has_ip w.vm_ipaddr) h.stateinfo) h))
  ]
]

-- The rest of the loop keeps the mode, once it is on.
check_machines-on :
    (i : ℕ) (l : List VmcStatus) (h : Host) (m : ℕ)
    → m ≡ bypass_mode_on
    → Leaves (λ r. r.1 ≡ bypass_mode_on) (check_machines i l h m)
unfolding check_machines
check_machines-on i [] h m on = on
check_machines-on i (w ∷ l) h m on = elim (Option-cases (check_machine i w h m)) [
  | inl e ↦ rw (Leaves, check_machines, e) tt
  | inr ((h2, m2), e) ↦
      let step : Leaves (λ r. Goes h m r × (Hangs w h → r.1 ≡ bypass_mode_on)) (some (h2, m2)) =
        rw e at (check_machine-Goes i w h m) in
      rw (Leaves, check_machines, e)
        (check_machines-on (i + 1) l h2 m2 (elim step.0.1 [ inl k ↦ k | inr k ↦ k ∙ on ]))
]

check_machines-hang :
    (i : ℕ) (l : List VmcStatus) (h : Host) (m : ℕ)
    → Any (λ v. Hangs v h) l
    → Leaves (λ r. r.1 ≡ bypass_mode_on) (check_machines i l h m)
unfolding check_machines
check_machines-hang i [] h m a = absurd a
check_machines-hang i (w ∷ l) h m a = elim (Option-cases (check_machine i w h m)) [
  | inl e ↦ rw (Leaves, check_machines, e) tt
  | inr ((h2, m2), e) ↦
      let step : Leaves (λ r. Goes h m r × (Hangs w h → r.1 ≡ bypass_mode_on)) (some (h2, m2)) =
        rw e at (check_machine-Goes i w h m) in
      rw (Leaves, check_machines, e)
        (elim a [
          | inl hangs ↦ check_machines-on (i + 1) l h2 m2 (step.1 hangs)
          | inr rest ↦ check_machines-hang (i + 1) l h2 m2 (Any-map l (λ v. step.0.0 v) rest)
        ])
]

-- When a machine hangs, and no machine but the first has an entry in `stateinfo`, the check comes to
-- its end and turns the bypass on.
pub check_tcp_status-hang :
    (h : Host)
    → Any (λ v. Hangs v h) (machines_of h)
    → All (IsUnlisted h.stateinfo) (drop 1 (machines_of h))
    → (h2 : Host) × (check_tcp_status h ≡ some h2)
      × (h2.conf.tcp_mode ≡ bypass_mode_on)
      × (h2.conf.bp_mode ≡ bypass_mode_on)
unfolding check_tcp_status apply_tcp_mode
check_tcp_status-hang h a u =
    let ((h2, m), e) = check_machines-defined (machines_of h) h bypass_mode_off u in
    let on : m ≡ bypass_mode_on =
      rw e at (check_machines-hang 0 (machines_of h) h bypass_mode_off a) in
    (
      record h2 { conf = apply_tcp_mode m h2.conf },
      rw (check_tcp_status, e) refl,
      on,
      ground (arith, on),
    )

-- The machines in front of the first one that hangs are only counted.
check_machines-before :
    (i : ℕ) (before rest : List VmcStatus) (h : Host) (m : ℕ)
    → AreDistinct before
    → All (IsCalm h.conf.vmc_system h.check_tcpstatus_min) before
    → check_machines i (before ++ rest) h m
      ≡ check_machines (i + length before) rest (with_systems h (tick before h.conf.vmc_system)) m
unfolding check_machines
check_machines-before i [] rest h m d c = ap (λ k. check_machines k rest h m) (omega arith)
check_machines-before i (w ∷ before) rest h m d c =
    let systems = modify_first (is_system w.vm_ipaddr) count_link h.conf.vmc_system in
    rw (check_machines, check_machine-calm i w h m c.0)
      (check_machines-before (i + 1) before rest (with_systems h systems) m d.1
          (IsCalm-count_link w before h.conf.vmc_system h.check_tcpstatus_min d.0 c.1)
        ∙ ap (λ k. check_machines k rest (with_systems h (tick before systems)) m) (omega arith))

check_machine-unsafe :
    (i : ℕ) (v : VmcStatus) (h : Host) (m : ℕ) (t : StateInfo)
    → Hangs v h
    → find (has_ip v.vm_ipaddr) h.stateinfo ≡ some t
    → i ≢ 0
    → check_machine i v h m ≡ none
unfolding clear_hung clear_found
check_machine-unsafe zero v h m t hangs e ne = absurd (ne refl)
check_machine-unsafe (suc i) v h m t hangs e ne = check_machine-late (suc i) v h m hangs ∙ rw e refl

-- When the first machine that hangs is not the first machine, and has an entry in `stateinfo`, the
-- check accesses `basePState` and `pstate` out of bounds.
pub check_tcp_status-unsafe :
    (h : Host) (w v : VmcStatus) (before rest : List VmcStatus) (t : StateInfo)
    → machines_of h ≡ w ∷ before ++ v ∷ rest
    → AreDistinct (w ∷ before)
    → All (IsCalm h.conf.vmc_system h.check_tcpstatus_min) (w ∷ before)
    → All (λ u. u.vm_ipaddr ≢ v.vm_ipaddr) (w ∷ before)
    → Hangs v h
    → find (has_ip v.vm_ipaddr) h.stateinfo ≡ some t
    → check_tcp_status h ≡ none
unfolding check_tcp_status check_machines
check_tcp_status-unsafe h w v before rest t e d c ne (s, found, le) t_found =
    let ticked = with_systems h (tick (w ∷ before) h.conf.vmc_system) in
    let loop : check_machines 0 (machines_of h) h bypass_mode_off ≡ none = rw e (
      check_machines-before 0 (w ∷ before) (v ∷ rest) h bypass_mode_off d c
      ∙ rw
          (
            check_machines,
            check_machine-unsafe (0 + length (w ∷ before)) v ticked bypass_mode_off t
                (s, tick_ne (w ∷ before) v.vm_ipaddr h.conf.vmc_system ne ∙ found, le) t_found
                (λ z. omega arith),
          )
          refl) in
    rw (check_tcp_status, loop) refl
