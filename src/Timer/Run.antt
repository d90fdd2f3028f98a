-- ===== src/Timer/Run.antt =====
-- Any sequence of calls of src/CMLB/src/timer.c after `timer_init`.
use vnf_monitoring.Prelude.{
  ℕ, zero, suc, ◌+◌, ◌*◌, ◌-◌, ◌^◌, ◌≤◌, ◌<◌, ◌≡◌, refl, sym, Option, none, some, List, [], ◌∷◌,
  arith, count, length,
}
use vnf_monitoring.Prelude.Int.{ℤ, pos, negsuc}
use vnf_monitoring.Timer.Ids.{func_init_tid}
use vnf_monitoring.Timer.Ids.Inv.{free_ids}
use vnf_monitoring.Timer.Ids.Init.{ids_from, func_init_tid-IsValid, maxtnum-func_init_tid}
use vnf_monitoring.Timer.Entries.{Callback, Env, period_of}
use vnf_monitoring.Timer.Api.{Timers, TimerType, timer_init, timer_start, timer_stop, timer_reset}
use vnf_monitoring.Timer.Safety.{IsSound}
use vnf_monitoring.Timer.Safety.Start.{timer_start-IsSound}
use vnf_monitoring.Timer.Safety.Stop.{timer_stop-IsSound}
use vnf_monitoring.Timer.Safety.Reset.{timer_reset-IsSound}

count-ids_from :
    (a i n : ℕ)
    → (count a (ids_from i n) ≤ 1) × (0 < count a (ids_from i n) → (i ≤ a) × (a < i + n))
unfolding ids_from
count-ids_from a i zero = (omega arith, λ h. absurd (omega arith))
count-ids_from a i (suc n) = ground (arith, count-ids_from a (i + 1) n)

length-ids_from : (i n : ℕ) → length (ids_from i n) ≡ n
unfolding ids_from
length-ids_from i zero = refl
length-ids_from i (suc n) = omega (arith, length-ids_from (i + 1) n)

-- After `timer_init` with room for at least one timer, all ids are free and no timer runs.
pub timer_init-IsSound :
    (max : ℕ)
    → 1 ≤ max
    → (st : Timers) × (timer_init (pos max) ≡ some st)
      × IsSound st
      × (st.entries ≡ [])
      × (free_ids st.pool ≡ ids_from 1 max)
unfolding timer_init
timer_init-IsSound max h =
    let (v, free) = func_init_tid-IsValid max h in
    let st : Timers = record { pool = func_init_tid max; entries = []; max_tmr_num = max } in
    (
      st,
      ground arith,
      record {
        pool = v;
        same_max = sym (maxtnum-func_init_tid max);
        once = λ a. rw free (omega (arith, (count-ids_from a 1 max).0));
        in_range = λ a. rw free (λ p. ground (arith, (count-ids_from a 1 max).1));
        room = rw free (omega (arith, length-ids_from 1 max));
      },
      refl,
      free,
    )

pub data Call : Type 0 where
  start : Env → ℤ → Option Callback → ℤ → ℤ → ℤ → TimerType → Call
  stop : ℤ → Call
  reset : Env → ℤ → ℤ → Call

-- The calls in order; `none` if one of them accesses `tid_list` out of range.
pub run : Timers → List Call → Option Timers
run st [] = some st
run st (start env msecs cb a1 a2 a3 type ∷ calls) =
    elim (timer_start st env msecs cb a1 a2 a3 type) [ none ↦ none | some (t, r) ↦ run t calls ]
run st (stop i ∷ calls) = elim (timer_stop st i) [ none ↦ none | some (t, r) ↦ run t calls ]
run st (reset env i msecs ∷ calls) = run (timer_reset st env i msecs).0 calls

-- From a sound state no sequence of calls accesses `tid_list` out of range, and the state stays sound.
pub run-IsSound :
    (calls : List Call) (st : Timers)
    → IsSound st
    → (t : Timers) × (run st calls ≡ some t) × IsSound t
unfolding run
run-IsSound [] st s = (st, refl, s)
run-IsSound (start env msecs cb a1 a2 a3 type ∷ calls) st s =
    let (t, r, e, s') = timer_start-IsSound st s env msecs cb a1 a2 a3 type in
    let (u, done, s'') = run-IsSound calls t s' in (u, rw (e, run) done, s'')
run-IsSound (stop i ∷ calls) st s =
    let (t, r, e, s') = timer_stop-IsSound st s i in
    let (u, done, s'') = run-IsSound calls t s' in (u, rw (e, run) done, s'')
run-IsSound (reset env i msecs ∷ calls) st s =
    run-IsSound calls (timer_reset st env i msecs).0 (timer_reset-IsSound st s env i msecs)

-- Up to 2147483 ms the period is the time in microseconds; from there on to 4294967 ms it is negative.
pub period_of_lem :
    (msecs : ℕ)
    → (msecs ≤ 2147483 → period_of msecs ≡ pos (msecs * 1000))
      × (2147484 ≤ msecs → msecs ≤ 4294967 → period_of msecs ≡ negsuc (2 ^ 32 - 1 - msecs * 1000))
unfolding period_of
period_of_lem msecs = (λ h. ground arith, λ h k. ground arith)
