-- ===== src/Host/Tasks/Configured.antt =====
-- The check of the machines, at the intervals that a configuration can have.
use vnf_monitoring.Prelude.{
  ℕ, ◌+◌, ◌%◌, ◌≡◌, refl, inl, inr, false, ◌&&◌, Bool-cases, some, List, [], ◌∷◌, ◌==◌, arith,
}
use vnf_monitoring.Host.Tasks.{check_vm_status_step, runs}
use vnf_monitoring.Host.Tasks.Rate.{readings, seconds_where, AreApart, runs-check_vm_status}
use vnf_monitoring.Host.Config.{Scan, Settings, read_config}
use vnf_monitoring.Host.Config.Laws.{IsInterval, IsSane, read_config-IsSane}

-- The clock goes through every second of the minute.
abbrev pub Ticks : ℕ → List (ℕ × ℕ) → Type 0
Ticks before [] = Unit
Ticks before ((sec, more) ∷ l) = (sec ≡ (before + 1) % 60) × Ticks sec l

not-twice : (n before : ℕ) → IsInterval n → before % n ≡ 0 → (before + 1) % 60 % n ≡ 0 → ⊥
not-twice n before (inl e) a b =
    let five : before % 5 ≡ 0 = rw e at a in
    let next : (before + 1) % 60 % 5 ≡ 0 = rw e at b in omega (arith, five, next)
not-twice n before (inr (inl e)) a b =
    let ten : before % 10 ≡ 0 = rw e at a in
    let next : (before + 1) % 60 % 10 ≡ 0 = rw e at b in omega (arith, ten, next)
not-twice n before (inr (inr (inl e))) a b =
    let twenty : before % 20 ≡ 0 = rw e at a in
    let next : (before + 1) % 60 % 20 ≡ 0 = rw e at b in omega (arith, twenty, next)
not-twice n before (inr (inr (inr (inl e)))) a b =
    let thirty : before % 30 ≡ 0 = rw e at a in
    let next : (before + 1) % 60 % 30 ≡ 0 = rw e at b in omega (arith, thirty, next)
not-twice n before (inr (inr (inr (inr e)))) a b =
    let sixty : before % 60 ≡ 0 = rw e at a in
    let next : (before + 1) % 60 % 60 ≡ 0 = rw e at b in omega (arith, sixty, next)

one-apart :
    (n before sec : ℕ)
    → IsInterval n
    → sec ≡ (before + 1) % 60
    → ((before % n == 0) && (sec % n == 0)) ≡ false
one-apart n before sec i e = elim (Bool-cases ((before % n == 0) && (sec % n == 0))) [
  | inr f ↦ f
  | inl t ↦
      let now : sec % n ≡ 0 = ground (arith, t) in
      absurd (not-twice n before i (ground (arith, t)) (rw e at now))
]

Ticks-AreApart :
    (n before : ℕ) (l : List (ℕ × ℕ))
    → IsInterval n
    → Ticks before l
    → AreApart (λ sec. sec % n == 0) (before % n == 0) l
Ticks-AreApart n before [] i t = tt
Ticks-AreApart n before ((sec, more) ∷ l) i t =
    (one-apart n before sec i t.0, Ticks-AreApart n sec l i t.1)

start-AreApart :
    (n before : ℕ) (l : List (ℕ × ℕ))
    → IsInterval n
    → Ticks before l
    → AreApart (λ sec. sec % n == 0) false l
start-AreApart n before [] i t = tt
start-AreApart n before ((sec, more) ∷ l) i t = (refl, Ticks-AreApart n sec l i t.1)

-- With any configuration that `read_config` accepts, and a clock that leaves no second out, the machines
-- are checked exactly once in each second that the interval divides, however often it is read.
pub runs-read_config :
    (sc : Scan) (lines : List (List ℕ)) (c d : Settings) (before : ℕ) (l : List (ℕ × ℕ))
    → IsSane c
    → read_config sc lines c ≡ some d
    → Ticks before l
    → runs (check_vm_status_step d.check_vmcstatus_sec) false (readings l)
      ≡ seconds_where (λ sec. sec % d.check_vmcstatus_sec == 0) l
runs-read_config sc lines c d before l s run t =
    let sane : IsSane d = rw run at (read_config-IsSane sc lines c s) in
    runs-check_vm_status d.check_vmcstatus_sec l
      (start-AreApart d.check_vmcstatus_sec before l sane.due t)
