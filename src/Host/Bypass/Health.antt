-- ===== src/Host/Bypass/Health.antt =====
-- When the state of the machines asks for the bypass.
use vnf_monitoring.Prelude.{
  ℕ, zero, suc, ◌≡◌, ◌≢◌, refl, ◌⊎◌, ◌↔◌, inl, inr, Bool, true, false, List, [], ◌∷◌, take,
  if◌then◌else◌, sym, ◌∙◌, Any, arith,
}
use vnf_monitoring.Host.State.{
  VmcStatus, bypass_mode_on, bypass_mode_off, status_active, status_build, pw_status_nostatus,
  pw_status_running, pw_status_shutdown,
}
use vnf_monitoring.Host.Bypass.{asks_bypass, scan_mode, vm_mode}

-- A machine needs the bypass: it is not shut down, and is neither active nor being built, or has a
-- power state other than running and none.
abbrev pub NeedsBypass : VmcStatus → Type 0
NeedsBypass v =
    (v.vm_power_status ≢ pw_status_shutdown)
    × (((v.vm_status ≢ status_active) × (v.vm_status ≢ status_build))
        ⊎ ((v.vm_power_status ≢ pw_status_running) × (v.vm_power_status ≢ pw_status_nostatus)))

asks_bypass_iff : (v : VmcStatus) → (asks_bypass v ≡ true) ↔ NeedsBypass v
asks_bypass_iff v = ground arith

scan_mode-on : (l : List VmcStatus) → scan_mode l bypass_mode_on ≡ bypass_mode_on
unfolding scan_mode
scan_mode-on [] = refl
scan_mode-on (v ∷ l) = ground (arith, scan_mode-on l)

scan_mode-two :
    (l : List VmcStatus)
    → (scan_mode l bypass_mode_off ≡ bypass_mode_on)
      ⊎ (scan_mode l bypass_mode_off ≡ bypass_mode_off)
unfolding scan_mode
scan_mode-two [] = inr refl
scan_mode-two (v ∷ l) = ground (arith, scan_mode-on l, scan_mode-two l)

-- One machine in front of a list.
scan_mode-if :
    {P Q : Type 0} (b : Bool) (l : List VmcStatus)
    → ((b ≡ true) ↔ P)
    → ((scan_mode l bypass_mode_off ≡ bypass_mode_on) ↔ Q)
    → (scan_mode l (if b then bypass_mode_on else bypass_mode_off) ≡ bypass_mode_on) ↔ (P ⊎ Q)
scan_mode-if true l hp hq = (λ e. inl (hp.0 refl), λ h. scan_mode-on l)
scan_mode-if false l hp hq =
    (λ e. inr (hq.0 e), λ h. elim h [ inl p ↦ (let e = hp.1 p in ground arith) | inr q ↦ hq.1 q ])

scan_mode_iff :
    (l : List VmcStatus) → (scan_mode l bypass_mode_off ≡ bypass_mode_on) ↔ Any NeedsBypass l
unfolding scan_mode
scan_mode_iff [] = (λ e. omega arith, λ h. absurd h)
scan_mode_iff (v ∷ l) = scan_mode-if (asks_bypass v) l (asks_bypass_iff v) (scan_mode_iff l)

vm_mode-suc :
    (n : ℕ) (vm : List VmcStatus) → vm_mode (suc n) vm ≡ scan_mode (take (suc n) vm) bypass_mode_off
unfolding vm_mode
vm_mode-suc n vm = ground arith

-- The machines ask for the bypass exactly when there are none, or when one of them needs it: it is
-- not shut down, and is neither active nor being built, or has a power state other than running and
-- none.
pub vm_mode_iff :
    (vmcount : ℕ) (vm : List VmcStatus)
    → (vm_mode vmcount vm ≡ bypass_mode_on) ↔ ((vmcount ≡ 0) ⊎ Any NeedsBypass (take vmcount vm))
unfolding vm_mode
vm_mode_iff zero vm = (λ e. inl refl, λ h. refl)
vm_mode_iff (suc n) vm = (
  λ e. inr ((scan_mode_iff (take (suc n) vm)).0 (sym (vm_mode-suc n vm) ∙ e)),
  λ h. elim h [
    | inl e ↦ omega arith
    | inr s ↦ vm_mode-suc n vm ∙ (scan_mode_iff (take (suc n) vm)).1 s
  ],
)

pub vm_mode-two :
    (vmcount : ℕ) (vm : List VmcStatus)
    → (vm_mode vmcount vm ≡ bypass_mode_on) ⊎ (vm_mode vmcount vm ≡ bypass_mode_off)
unfolding vm_mode
vm_mode-two zero vm = inl refl
vm_mode-two (suc n) vm = rw (vm_mode-suc n vm) (scan_mode-two (take (suc n) vm))
