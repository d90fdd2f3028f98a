-- ===== src/Timer/Expiry.antt =====
-- The expiry of timers, `cmp_timer_value` of src/CMLB/src/timer.c: one pass over the list, with
-- no other call in between.
pub mod Elapsed
pub mod Pass
use vnf_monitoring.Prelude.{
  ℕ, zero, suc, ◌+◌, ◌-◌, ◌*◌, Bool, true, false, Option, none, some, List, [], ◌∷◌, ◌==◌, ltb,
  if◌then◌else◌,
}
use vnf_monitoring.Prelude.Int.{ℤ, pos, negsuc}
use vnf_monitoring.Timer.Entries.{TimeVal, TimerEntry, Env, int32}
use vnf_monitoring.Timer.Api.{Timers, timer_stop, timer_reset}

-- `TMR_REPEAT`, as an `arg3`.
abbrev pub is_repeat : ℤ → Bool
is_repeat (pos n) = n == 4097
is_repeat (negsuc n) = false

-- The `int` difference of two numbers.
abbrev pub minus : ℕ → ℕ → ℤ
minus m n = if ltb m n then negsuc (n - m - 1) else pos (m - n)

-- `usecs`, at the time `tp`, to which 10 ms are added.
unfoldable pub usecs : TimeVal → TimerEntry → ℤ
usecs tp e =
    let tv_usec = tp.tv_usec + 10000 in
    if ltb e.tv_sec tp.tv_sec
    then int32 ((tp.tv_sec - (e.tv_sec + 1)) * 1000000 + (1000000 - e.tv_usec) + tv_usec)
    else minus tv_usec e.tv_usec

-- `m > n`
abbrev pub above : ℤ → ℤ → Bool
above (pos m) (pos n) = ltb n m
above (pos m) (negsuc n) = true
above (negsuc m) (pos n) = false
above (negsuc m) (negsuc n) = ltb m n

unfoldable pub is_due : TimeVal → TimerEntry → Bool
unfolding usecs
is_due tp e = above (usecs tp e) e.period

-- What a visit of an entry comes to: the next entry is read, with the flag that the action was called;
-- the loop is left; or the next entry is read from the entry just freed.
pub data Visit : Type 0 where
  onward : Timers → Bool → Visit
  ended : Visit
  dangling : Timers → Visit

-- The body of the loop; `none` is an access outside `tid_list`.
unfoldable pub visit : TimeVal → Env → TimerEntry → Timers → Option Visit
visit tp env e st = elim (is_due tp e) [
  | false ↦ some (onward st false)
  | true ↦ elim e.action [
    | none ↦ some ended
    | some f ↦ elim (is_repeat e.arg3) [
      | true ↦ some (onward (timer_reset st env (pos e.id) e.arg2).0 true)
      | false ↦ elim (timer_stop st (pos e.id)) [
        | none ↦ none
        | some (t, none) ↦ some (onward t true)
        | some (t, some u) ↦ some (dangling t)
      ]
    ]
  ]
]

-- How a pass ends: with the new state and the ids whose actions were called; with no answer of
-- `gettimeofday` left; with an access outside `tid_list`; or with a read of the next entry from one that
-- was freed, in the state behind `timer_stop`.
pub data PassEnd : Type 0 where
  finished : Timers → List ℕ → PassEnd
  unanswered : PassEnd
  outside : PassEnd
  use_after_free : Timers → PassEnd

abbrev pub with_called : Bool → ℕ → PassEnd → PassEnd
with_called called i (finished u l) = finished u (if called then i ∷ l else l)
with_called called i unanswered = unanswered
with_called called i outside = outside
with_called called i (use_after_free t) = use_after_free t

-- The pass from an entry on, with the answers of `gettimeofday` and the environment of a restart.
unfoldable pub cmp_timer_value : List (Option TimeVal × Env) → List TimerEntry → Timers → PassEnd
cmp_timer_value answers [] st = finished st []
cmp_timer_value [] (e ∷ l) st = unanswered
cmp_timer_value ((none, env) ∷ answers) (e ∷ l) st = cmp_timer_value answers (e ∷ l) st
cmp_timer_value ((some tp, env) ∷ answers) (e ∷ l) st = elim (visit tp env e st) [
  | none ↦ outside
  | some ended ↦ finished st []
  | some (dangling t) ↦ use_after_free t
  | some (onward t called) ↦ with_called called e.id (cmp_timer_value answers l t)
]
