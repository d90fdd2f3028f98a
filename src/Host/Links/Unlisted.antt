-- ===== src/Host/Links/Unlisted.antt =====
-- A check of the links that stays inside its arrays: where no machine but the first has an entry.
use vnf_monitoring.Prelude.{
  ℕ, ◌+◌, ◌≡◌, refl, ◌⊎◌, inl, inr, Bool-cases, none, some, Option-cases, List, [], ◌∷◌, ltb, find,
  modify_first, arith, All, All-map, drop, set, ℕ_discrete, ◌≢◌,
}
use vnf_monitoring.Host.State.{
  ProcessState, VmcStatus, VmcSystem, StateInfo, Host, cleared_state, bypass_mode_on,
}
use vnf_monitoring.Host.Links.{
  is_system, has_ip, count_link, clear_found, clear_hung, check_machine, check_machines,
}
use vnf_monitoring.Host.Links.Hysteresis.{with_systems}

-- A machine without an entry in `stateinfo`; no system has the address 0.
abbrev pub IsUnlisted : List StateInfo → VmcStatus → Type 0
IsUnlisted l v = (v.vm_ipaddr ≡ 0) ⊎ (find (has_ip v.vm_ipaddr) l ≡ none)

no-system : (l : List VmcSystem) → find (is_system 0) l ≡ none
no-system [] = refl
no-system (s ∷ l) = ground (arith, no-system l)

-- The check of a machine without an entry leaves `stateinfo` as it is.
check_machine-unlisted :
    (i : ℕ) (v : VmcStatus) (h : Host) (m : ℕ)
    → IsUnlisted h.stateinfo v
    → (h2 : Host) × (m2 : ℕ) × (check_machine i v h m ≡ some (h2, m2))
      × (h2.stateinfo ≡ h.stateinfo)
unfolding check_machine clear_hung clear_found
check_machine-unlisted i v h m u =
    elim (Option-cases (find (is_system v.vm_ipaddr) h.conf.vmc_system)) [
      | inl e ↦ (h, m, rw (check_machine, e) refl, refl)
      | inr (s, e) ↦ elim (Bool-cases (ltb s.link_status h.check_tcpstatus_min)) [
        | inl early ↦ (
          with_systems h (modify_first (is_system v.vm_ipaddr) count_link h.conf.vmc_system),
          m,
          rw (check_machine, e, early) refl,
          refl,
        )
        | inr late ↦ elim u [
          | inr unlisted ↦
              (h, bypass_mode_on, rw (check_machine, e, late, clear_hung, unlisted) refl, refl)
          | inl nowhere ↦
              let found = rw nowhere at e in
              absurd (ground (arith, found, no-system h.conf.vmc_system))
        ]
      ]
    ]

check_machines-unlisted :
    (i : ℕ) (l : List VmcStatus) (h : Host) (m : ℕ)
    → All (IsUnlisted h.stateinfo) l
    → (r : Host × ℕ) × (check_machines i l h m ≡ some r)
unfolding check_machines
check_machines-unlisted i [] h m u = ((h, m), refl)
check_machines-unlisted i (v ∷ l) h m u =
    let (h2, m2, run, same) = check_machine-unlisted i v h m u.0 in
    rw (check_machines, run) (check_machines-unlisted (i + 1) l h2 m2 (rw same (u.1)))

-- Clearing the first entry of `stateinfo` gives no machine an entry.
find-cleared :
    (ip : ℕ) (base : List ProcessState) (l : List StateInfo)
    → ip ≢ 0
    → find (has_ip ip) l ≡ none
    → find (has_ip ip) (set l 0 (cleared_state base)) ≡ none
find-cleared ip base [] ne e = e
find-cleared ip base (t ∷ l) ne e = ground (arith, ne, e)

IsUnlisted-cleared :
    (base : List ProcessState) (l : List StateInfo) (v : VmcStatus)
    → IsUnlisted l v
    → IsUnlisted (set l 0 (cleared_state base)) v
IsUnlisted-cleared base l v (inl zero_ip) = inl zero_ip
IsUnlisted-cleared base l v (inr e) = elim (ℕ_discrete v.vm_ipaddr 0) [
  | yes zero_ip ↦ inl zero_ip
  | no ne ↦ inr (find-cleared v.vm_ipaddr base l ne e)
]

-- The first machine may have an entry: its number is 0, where the copy stays within the arrays.
check_machine-first :
    (v : VmcStatus) (h : Host) (m : ℕ)
    → (h2 : Host) × (m2 : ℕ) × (check_machine 0 v h m ≡ some (h2, m2))
      × ((w : VmcStatus) → IsUnlisted h.stateinfo w → IsUnlisted h2.stateinfo w)
unfolding check_machine clear_hung clear_found
check_machine-first v h m = elim (Option-cases (find (is_system v.vm_ipaddr) h.conf.vmc_system)) [
  | inl e ↦ (h, m, rw (check_machine, e) refl, λ w u. u)
  | inr (s, e) ↦ elim (Bool-cases (ltb s.link_status h.check_tcpstatus_min)) [
    | inl early ↦ (
      with_systems h (modify_first (is_system v.vm_ipaddr) count_link h.conf.vmc_system),
      m,
      rw (check_machine, e, early) refl,
      λ w u. u,
    )
    | inr late ↦ elim (Option-cases (find (has_ip v.vm_ipaddr) h.stateinfo)) [
      | inl gone ↦ (h, bypass_mode_on, rw (check_machine, e, late, clear_hung, gone) refl, λ w u. u)
      | inr (t, there) ↦ (
        record h { stateinfo = set h.stateinfo 0 (cleared_state h.base_pstate) },
        bypass_mode_on,
        rw (check_machine, e, late, clear_hung, there) refl,
        λ w. IsUnlisted-cleared h.base_pstate h.stateinfo w,
      )
    ]
  ]
]

pub check_machines-defined :
    (l : List VmcStatus) (h : Host) (m : ℕ)
    → All (IsUnlisted h.stateinfo) (drop 1 l)
    → (r : Host × ℕ) × (check_machines 0 l h m ≡ some r)
unfolding check_machines
check_machines-defined [] h m u = ((h, m), refl)
check_machines-defined (v ∷ l) h m u =
    let (h2, m2, run, keeps) = check_machine-first v h m in
    rw (check_machines, run) (check_machines-unlisted 1 l h2 m2 (All-map l keeps u))
