-- ===== src/Timer/Safety/Reset.antt =====
-- `timer_reset` of src/CMLB/src/timer.c restarts a running timer and touches nothing else.
use vnf_monitoring.Prelude.{
  ℕ, ◌≢◌, ◌≤◌, ◌≡◌, refl, some, List, [], ◌∷◌, ltb, ◌==◌, if◌then◌else◌, ◌||◌, arith, Option-cases,
  Bool-cases, inl, inr,
}
use vnf_monitoring.Prelude.Int.{ℤ, pos, negsuc}
use vnf_monitoring.Timer.Entries.{TimeVal, TimerEntry, Env, period_of, search_timer_list, ids}
use vnf_monitoring.Timer.Api.{Timers, timer_reset, restart}
use vnf_monitoring.Timer.Safety.Lists.{search_timer_list-some, ids-restart}
use vnf_monitoring.Timer.Safety.{IsSound}

-- The entry `e`, restarted.
abbrev pub restarted : ℤ → TimeVal → TimerEntry → TimerEntry
restarted period tp e = record e { period = period; tv_sec = tp.tv_sec; tv_usec = tp.tv_usec }

module _ (i : ℕ) (period : ℤ) (tp : TimeVal) where
  search-restart_self :
      (l : List TimerEntry) (s : TimerEntry)
      → search_timer_list i l ≡ some s
      → search_timer_list i (restart i period tp l) ≡ some (restarted period tp s)
  unfolding search_timer_list restart
  search-restart_self [] s h = cc
  search-restart_self (e ∷ l) s h = ground (arith, search-restart_self l s)

  search-restart_ne :
      (j : ℕ) (l : List TimerEntry)
      → j ≢ i
      → search_timer_list j (restart i period tp l) ≡ search_timer_list j l
  unfolding search_timer_list restart
  search-restart_ne j [] h = refl
  search-restart_ne j (e ∷ l) h = ground (arith, search-restart_ne j l)

same_ids-IsSound :
    {st : Timers}
    → IsSound st
    → (l : List TimerEntry) → ids l ≡ ids st.entries
    → IsSound (record st { entries = l })
same_ids-IsSound s l e = record {
  pool = s.pool;
  same_max = s.same_max;
  once = λ a. rw e (s.once a);
  in_range = λ a. rw e (s.in_range a);
  room = rw e s.room;
}

-- The period that `timer_reset` sets.
abbrev pub reset_period : ℕ → ℤ
reset_period msecs = if msecs == 0 then pos 0 else period_of msecs

timer_reset-running :
    (st : Timers) (env : Env) (i msecs : ℕ) (tp : TimeVal) (e : TimerEntry)
    → 1 ≤ i
    → i ≤ st.max_tmr_num
    → search_timer_list i st.entries ≡ some e
    → env.now ≡ some tp
    → timer_reset st env (pos i) (pos msecs)
      ≡ (record st { entries = restart i (reset_period msecs) tp st.entries }, some tt)
unfolding timer_reset
timer_reset-running st env i msecs tp e low high found clock = ground arith

-- In a sound state, with a clock that answers, `timer_reset` on a running timer succeeds: the state
-- stays sound with the same pool and the same ids in the same order, the timer's entry has the new
-- period and starts now, and the entry of every other id is unchanged.
pub timer_reset-restarts :
    (st : Timers)
    → IsSound st
    → (env : Env) (i msecs : ℕ) (tp : TimeVal) (e : TimerEntry)
    → search_timer_list i st.entries ≡ some e
    → env.now ≡ some tp
    → (t : Timers) × (timer_reset st env (pos i) (pos msecs) ≡ (t, some tt))
      × IsSound t
      × (t.pool ≡ st.pool)
      × (ids t.entries ≡ ids st.entries)
      × (search_timer_list i t.entries ≡ some (restarted (reset_period msecs) tp e))
      × ((j : ℕ) → j ≢ i → search_timer_list j t.entries ≡ search_timer_list j st.entries)
timer_reset-restarts st s env i msecs tp e found clock =
    let (low, high) =
      s.in_range i (omega (arith, (search_timer_list-some i st.entries e found).0)) in
    let l = restart i (reset_period msecs) tp st.entries in
    let same = ids-restart i (reset_period msecs) tp st.entries in
    (
      record st { entries = l },
      timer_reset-running st env i msecs tp e low high found clock,
      same_ids-IsSound s l same,
      refl,
      same,
      search-restart_self i (reset_period msecs) tp st.entries e found,
      λ j ne. search-restart_ne i (reset_period msecs) tp j st.entries ne,
    )

-- Whatever it answers, `timer_reset` leaves a sound state.
pub timer_reset-IsSound :
    (st : Timers) → IsSound st → (env : Env) (i msecs : ℤ) → IsSound (timer_reset st env i msecs).0
unfolding timer_reset
timer_reset-IsSound st s env (negsuc n) msecs = s
timer_reset-IsSound st s env (pos i) (negsuc n) = s
timer_reset-IsSound st s env (pos i) (pos msecs) =
    elim (Bool-cases (ltb i 1 || ltb st.max_tmr_num i)) [
      | inl bad ↦ rw bad s
      | inr fine ↦ elim (Option-cases (search_timer_list i st.entries)) [
        | inl gone ↦ rw (fine, gone) s
        | inr (e, found) ↦ elim (Option-cases env.now) [
          | inl broken ↦ rw (fine, found, broken) s
          | inr (tp, clock) ↦
              rw (fine, found, clock)
                (same_ids-IsSound s (restart i (reset_period msecs) tp st.entries)
                  (ids-restart i (reset_period msecs) tp st.entries))
        ]
      ]
    ]
