-- ===== src/Host/Tasks/Rate.antt =====
-- How often the threads do their work.
use vnf_monitoring.Prelude.{
  ℕ, zero, suc, ◌+◌, ◌%◌, ◌≡◌, refl, ◌≢◌, ◌<◌, Bool, true, false, ◌&&◌, List, [], ◌∷◌, ◌++◌, ◌==◌,
  if◌then◌else◌, replicate, length, All, arith, ◌∙◌,
}
use vnf_monitoring.Host.Tasks.{
  edge, check_vm_status_step, check_tcp_status_step, process_vm_state_step, watchdog_start,
  reset_watchdog_step, runs,
}

-- The readings when each second is read once, and some number of times more.
abbrev pub readings : List (ℕ × ℕ) → List ℕ
readings [] = []
readings ((sec, more) ∷ l) = replicate (suc more) sec ++ readings l

abbrev pub seconds_where : (ℕ → Bool) → List (ℕ × ℕ) → ℕ
seconds_where p [] = 0
seconds_where p ((sec, more) ∷ l) = (if p sec then 1 else 0) + seconds_where p l

-- No two seconds in a row, nor the first one after a reading with the result `before`, pass the test.
abbrev pub AreApart : (ℕ → Bool) → Bool → List (ℕ × ℕ) → Type 0
AreApart p before [] = Unit
AreApart p before ((sec, more) ∷ l) = ((before && p sec) ≡ false) × AreApart p (p sec) l

abbrev edge_step : (ℕ → Bool) → Bool → ℕ → Bool × Bool
edge_step p flag sec = edge (p sec) flag

module _ {ℓ} {S : Type ℓ} (step : S → ℕ → S × Bool) where
  runs-next :
      (s t : S) (b : Bool) (sec : ℕ) (secs : List ℕ)
      → step s sec ≡ (t, b)
      → runs step s (sec ∷ secs) ≡ (if b then 1 else 0) + runs step t secs
  unfolding runs
  runs-next s t b sec secs e = rw (runs, e) refl

edge-same : (b : Bool) → edge b b ≡ (b, false)
unfolding edge
edge-same true = refl
edge-same false = refl

edge-rise : (b flag : Bool) → (flag && b) ≡ false → edge b flag ≡ (b, b)
unfolding edge
edge-rise true true h = absurd (ground (arith, h))
edge-rise true false h = refl
edge-rise false flag h = refl

-- Reading the same second again does nothing.
runs-again :
    (p : ℕ → Bool) (sec more : ℕ) (rest : List ℕ)
    → runs (edge_step p) (p sec) (replicate more sec ++ rest) ≡ runs (edge_step p) (p sec) rest
runs-again p sec zero rest = refl
runs-again p sec (suc more) rest =
    runs-next (edge_step p) (p sec) (p sec) false sec (replicate more sec ++ rest)
      (edge-same (p sec))
    ∙ omega (arith, runs-again p sec more rest)

runs-edge :
    (p : ℕ → Bool) (before : Bool) (l : List (ℕ × ℕ))
    → AreApart p before l
    → runs (edge_step p) before (readings l) ≡ seconds_where p l
unfolding runs
runs-edge p before [] a = refl
runs-edge p before ((sec, more) ∷ l) a =
    runs-next (edge_step p) before (p sec) (p sec) sec (replicate more sec ++ readings l)
      (edge-rise (p sec) before a.0)
    ∙ omega (arith, runs-again p sec more (readings l), runs-edge p (p sec) l a.1)

-- The machines are checked once in each second that the interval divides, however often it is read,
-- when no two seconds read one after the other are such.
pub runs-check_vm_status :
    (sec_interval : ℕ) (l : List (ℕ × ℕ))
    → AreApart (λ sec. sec % sec_interval == 0) false l
    → runs (check_vm_status_step sec_interval) false (readings l)
      ≡ seconds_where (λ sec. sec % sec_interval == 0) l
unfolding check_vm_status_step
runs-check_vm_status sec_interval l a = runs-edge (λ sec. sec % sec_interval == 0) false l a

-- The links are checked once in each second 15, however often it is read, when no two seconds read
-- one after the other are 15.
runs-check_tcp_status :
    (l : List (ℕ × ℕ))
    → AreApart (λ sec. sec == 15) false l
    → runs check_tcp_status_step false (readings l) ≡ seconds_where (λ sec. sec == 15) l
unfolding check_tcp_status_step
runs-check_tcp_status l a = runs-edge (λ sec. sec == 15) false l a

-- The states are stored once in each second that is 2 modulo 5, however often it is read, when no two
-- seconds read one after the other are such.
runs-process_vm_state :
    (l : List (ℕ × ℕ))
    → AreApart (λ sec. sec % 5 == 2) false l
    → runs process_vm_state_step false (readings l) ≡ seconds_where (λ sec. sec % 5 == 2) l
unfolding process_vm_state_step
runs-process_vm_state l a = runs-edge (λ sec. sec % 5 == 2) false l a

-- Each second is read at least twice, and differs from the one before it.
abbrev pub AreTwice : ℕ → List (ℕ × ℕ) → Type 0
AreTwice before [] = Unit
AreTwice before ((sec, more) ∷ l) = (sec ≢ before) × (0 < more) × AreTwice sec l

watchdog-first :
    (msec before sec : ℕ)
    → msec ≢ 0
    → sec ≢ before
    → reset_watchdog_step msec (watchdog_start before) sec
      ≡ (record { sectime = sec; check1sec = true }, true)
unfolding reset_watchdog_step watchdog_start
watchdog-first msec before sec on ne =
    let changed : (before == sec) ≡ false = ground (arith, ne) in
    let wanted : (msec == 0) ≡ false = ground (arith, on) in
    rw (reset_watchdog_step, changed, wanted) refl

watchdog-again :
    (msec sec : ℕ) (flag : Bool)
    → reset_watchdog_step msec (record { sectime = sec; check1sec = flag }) sec
      ≡ (watchdog_start sec, false)
unfolding reset_watchdog_step watchdog_start
watchdog-again msec sec flag =
    let same : (sec == sec) ≡ true = ground arith in rw (reset_watchdog_step, same) refl

watchdog-same :
    (msec sec more : ℕ) (flag : Bool) (rest : List ℕ)
    → runs
        (reset_watchdog_step msec)
        (record { sectime = sec; check1sec = flag })
        (replicate (suc more) sec ++ rest)
      ≡ runs (reset_watchdog_step msec) (watchdog_start sec) rest
unfolding watchdog_start
watchdog-same msec sec zero flag rest =
    runs-next (reset_watchdog_step msec) (record { sectime = sec; check1sec = flag })
      (watchdog_start sec) false sec rest (watchdog-again msec sec flag)
    ∙ omega arith
watchdog-same msec sec (suc more) flag rest =
    runs-next (reset_watchdog_step msec) (record { sectime = sec; check1sec = flag })
      (watchdog_start sec) false sec (replicate (suc more) sec ++ rest)
      (watchdog-again msec sec flag)
    ∙ omega (arith, watchdog-same msec sec more false rest)

-- The watchdog is reset once a second when it is in use, every second is read twice or more, and
-- each second differs from the one before it.
runs-reset_watchdog :
    (msec before : ℕ) (l : List (ℕ × ℕ))
    → msec ≢ 0
    → AreTwice before l
    → runs (reset_watchdog_step msec) (watchdog_start before) (readings l) ≡ length l
unfolding runs
runs-reset_watchdog msec before [] on a = refl
runs-reset_watchdog msec before ((sec, zero) ∷ l) on a = absurd (omega (arith, a.1))
runs-reset_watchdog msec before ((sec, suc more) ∷ l) on a =
    runs-next (reset_watchdog_step msec) (watchdog_start before)
      (record { sectime = sec; check1sec = true }) true sec (replicate (suc more) sec ++ readings l)
      (watchdog-first msec before sec on a.0)
    ∙ omega (
      arith,
      watchdog-same msec sec more true (readings l),
      runs-reset_watchdog msec sec l on a.2,
    )

watchdog-stuck :
    (msec sectime sec : ℕ)
    → sectime ≢ sec
    → reset_watchdog_step msec (record { sectime = sectime; check1sec = true }) sec
      ≡ (record { sectime = sectime; check1sec = true }, false)
unfolding reset_watchdog_step
watchdog-stuck msec sectime sec ne =
    let changed : (sectime == sec) ≡ false = ground (arith, ne) in
    rw (reset_watchdog_step, changed) refl

-- After a reset, readings of other seconds than that of the reset bring no further reset.
pub runs-reset_watchdog-stalled :
    (msec sectime : ℕ) (secs : List ℕ)
    → All (λ sec. sectime ≢ sec) secs
    → runs (reset_watchdog_step msec) (record { sectime = sectime; check1sec = true }) secs ≡ 0
unfolding runs
runs-reset_watchdog-stalled msec sectime [] a = refl
runs-reset_watchdog-stalled msec sectime (sec ∷ secs) a =
    runs-next (reset_watchdog_step msec) (record { sectime = sectime; check1sec = true })
      (record { sectime = sectime; check1sec = true }) false sec secs
      (watchdog-stuck msec sectime sec a.0)
    ∙ omega (arith, runs-reset_watchdog-stalled msec sectime secs a.1)
