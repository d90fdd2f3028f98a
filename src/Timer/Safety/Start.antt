-- ===== src/Timer/Safety/Start.antt =====
-- `timer_start` of src/CMLB/src/timer.c hands out an id that no running timer has.
use vnf_monitoring.Prelude.{
  ℕ, suc, ◌+◌, ◌≤◌, ◌≡◌, refl, ap, Option, none, some, List, [], ◌∷◌, ◌++◌, ◌==◌, if◌then◌else◌,
  arith, count, count-append, length, length-append, dec_lt, Bool-cases, inl, inr,
}
use vnf_monitoring.Prelude.Int.{ℤ, pos, negsuc}
use vnf_monitoring.Timer.Ids.{TidPool}
use vnf_monitoring.Timer.Ids.Inv.{free_ids, IsValid}
use vnf_monitoring.Timer.Ids.Assign.{func_assign_tid-some, func_assign_tid-full}
use vnf_monitoring.Timer.Entries.{Callback, tmr_expire_func, TimerEntry, Env, period_of, ids}
use vnf_monitoring.Timer.Api.{
  Timers, TimerType, tmr_callback, tmr_socket, tmr_msgqueue, tmr_other, timer_start, start_with,
  null_callback,
}
use vnf_monitoring.Timer.Safety.Lists.{insert_timer_list-cases}
use vnf_monitoring.Timer.Safety.{IsSound}

-- What `timer_start` answers, beside the soundness of the state that it leaves.
abbrev pub Started : Timers → TimerType → Option (Timers × Option ℕ) → Type 0
Started st type none = ⊥
Started st type (some (t, none)) = IsSound t × (t.entries ≡ st.entries)
Started st tmr_socket (some (t, some i)) =
    IsSound t
    × (1 ≤ i)
    × (i ≤ st.max_tmr_num)
    × (count i (ids st.entries) ≡ 0)
    × (t.entries ≡ st.entries)
Started st type (some (t, some i)) =
    IsSound t
    × (1 ≤ i)
    × (i ≤ st.max_tmr_num)
    × (count i (ids st.entries) ≡ 0)
    × (ids t.entries ≡ ids st.entries ++ (i ∷ []))

module _ {st : Timers} (s : IsSound st) (i : ℕ) (q : TidPool) (v : IsValid q)
    (max : q.maxtnum ≡ st.pool.maxtnum) (front : free_ids st.pool ≡ i ∷ free_ids q) where
  taken_counts :
      (a : ℕ) → count a (free_ids st.pool) ≡ (if i == a then 1 else 0) + count a (free_ids q)
  taken_counts a = ap (count a) front

  taken_length : length (free_ids st.pool) ≡ suc (length (free_ids q))
  taken_length = ap length front

  taken_range : (1 ≤ i) × (i ≤ st.max_tmr_num) × (count i (ids st.entries) ≡ 0)
  taken_range = ground (arith, taken_counts i, s.once i, s.in_range i)

  lost-IsSound : IsSound (record st { pool = q })
  lost-IsSound = record {
    pool = v;
    same_max = omega (arith, max, s.same_max);
    once = λ a. ground (arith, taken_counts a, s.once a);
    in_range = λ a h. ground (arith, taken_counts a, s.in_range a);
    room = omega (arith, taken_length, s.room);
  }

  linked-IsSound :
      (l : List TimerEntry)
      → ids l ≡ ids st.entries ++ (i ∷ [])
      → IsSound (record st { pool = q; entries = l })
  linked-IsSound l e = record {
    pool = v;
    same_max = omega (arith, max, s.same_max);
    once = λ a.
        ground (
          arith,
          taken_counts a,
          s.once a,
          ap (count a) e,
          count-append a (ids st.entries) (i ∷ []),
        );
    in_range = λ a h. ground (
      arith,
      taken_counts a,
      s.in_range a,
      ap (count a) e,
      count-append a (ids st.entries) (i ∷ []),
    );
    room =
        omega
          (arith, taken_length, s.room, ap length e, length-append {0} (ids st.entries) (i ∷ []));
  }

  start_with-Started :
      (env : Env) (period : ℤ) (cb : Option Callback) (a1 a2 a3 : ℤ) (type : TimerType)
      → Started st type (start_with (record st { pool = q }) env i period cb a1 a2 a3 type)
  unfolding start_with
  start_with-Started env period cb a1 a2 a3 tmr_socket =
      (lost-IsSound, taken_range.0, taken_range.1, taken_range.2, refl)
  start_with-Started env period cb a1 a2 a3 tmr_callback =
      elim (insert_timer_list-cases env i period cb a1 a2 a3 st.entries) [
        | inl failed ↦ rw failed (lost-IsSound, refl)
        | inr (l, done, e) ↦
            rw done (linked-IsSound l e, taken_range.0, taken_range.1, taken_range.2, e)
      ]
  start_with-Started env period cb a1 a2 a3 tmr_msgqueue =
      elim (insert_timer_list-cases env i period (some tmr_expire_func) a1 a2 a3 st.entries) [
        | inl failed ↦ rw failed (lost-IsSound, refl)
        | inr (l, done, e) ↦
            rw done (linked-IsSound l e, taken_range.0, taken_range.1, taken_range.2, e)
      ]
  start_with-Started env period cb a1 a2 a3 tmr_other =
      elim (insert_timer_list-cases env i period cb a1 a2 a3 st.entries) [
        | inl failed ↦ rw failed (lost-IsSound, refl)
        | inr (l, done, e) ↦
            rw done (linked-IsSound l e, taken_range.0, taken_range.1, taken_range.2, e)
      ]

-- In a sound state `timer_start` never leaves `tid_list`, and leaves a sound state. An id that it
-- returns lies in range and belongs to no running timer; the new timer stands last in the list, but
-- for a socket timer, which is not linked in. On failure no timer is added.
pub timer_start-Started :
    (st : Timers)
    → IsSound st
    → (env : Env) (msecs : ℤ) (cb : Option Callback) (a1 a2 a3 : ℤ) (type : TimerType)
    → Started st type (timer_start st env msecs cb a1 a2 a3 type)
unfolding timer_start
timer_start-Started st s env (negsuc n) cb a1 a2 a3 type = (s, refl)
timer_start-Started st s env (pos n) cb a1 a2 a3 type = elim (Bool-cases (null_callback type cb)) [
  | inl bad ↦ rw bad (s, refl)
  | inr fine ↦ elim (dec_lt 0 st.pool.tremainder) [
    | no empty ↦ rw (fine, func_assign_tid-full st.pool (omega arith)) (s, refl)
    | yes room ↦
        let (i, q, e, v, max, front) = func_assign_tid-some s.pool room in
        rw (fine, e) (start_with-Started s i q v max front env (period_of n) cb a1 a2 a3 type)
  ]
]

-- Whatever it answers, `timer_start` leaves a sound state.
pub timer_start-IsSound :
    (st : Timers)
    → IsSound st
    → (env : Env) (msecs : ℤ) (cb : Option Callback) (a1 a2 a3 : ℤ) (type : TimerType)
    → (t : Timers) × (r : Option ℕ) × (timer_start st env msecs cb a1 a2 a3 type ≡ some (t, r))
      × IsSound t
timer_start-IsSound st s env msecs cb a1 a2 a3 type =
    sound type (timer_start st env msecs cb a1 a2 a3 type)
      (timer_start-Started st s env msecs cb a1 a2 a3 type)
  where
    sound :
        (type : TimerType) (r : Option (Timers × Option ℕ))
        → Started st type r
        → (t : Timers) × (o : Option ℕ) × (r ≡ some (t, o)) × IsSound t
    sound type none h = absurd h
    sound type (some (t, none)) h = (t, none, refl, h.0)
    sound tmr_socket (some (t, some i)) h = (t, some i, refl, h.0)
    sound tmr_callback (some (t, some i)) h = (t, some i, refl, h.0)
    sound tmr_msgqueue (some (t, some i)) h = (t, some i, refl, h.0)
    sound tmr_other (some (t, some i)) h = (t, some i, refl, h.0)
