-- ===== src/Timer/Safety/Stop.antt =====
-- `timer_stop` of src/CMLB/src/timer.c ends a running timer and frees its id.
use vnf_monitoring.Prelude.{
  ℕ, ◌≤◌, ◌<◌, ◌≡◌, refl, ap, Option, none, some, List, [], ◌∷◌, ◌++◌, arith, count, count-append,
  length, length-append, dec_lt, Option-cases, inl, inr, ◌⊎◌,
}
use vnf_monitoring.Prelude.Int.{ℤ, pos, negsuc, ◌≤ℤ◌, ◌<ℤ◌}
use vnf_monitoring.Timer.Ids.{TidPool, func_cancel_tid}
use vnf_monitoring.Timer.Ids.Inv.{free_ids, IsValid, length-free_ids}
use vnf_monitoring.Timer.Ids.Cancel.{func_cancel_tid-some}
use vnf_monitoring.Timer.Entries.{TimerEntry, search_timer_list, delete_timer_list, unlink, ids}
use vnf_monitoring.Timer.Api.{Timers, timer_stop, give_back}
use vnf_monitoring.Timer.Safety.Lists.{
  search_timer_list-none, search_timer_list-some, count-unlink, length-unlink,
}
use vnf_monitoring.Timer.Safety.{IsSound}

-- What `timer_stop` answers for the id `i`, beside the soundness of the state that it leaves.
abbrev pub Stopped : Timers → ℕ → Option (Timers × Option (Unit {0})) → Type 0
Stopped st i none = ⊥
Stopped st i (some (t, none)) = IsSound t × (t ≡ st) × (count i (ids st.entries) ≡ 0)
Stopped st i (some (t, some _)) =
    IsSound t
    × (count i (ids st.entries) ≡ 1)
    × (t.entries ≡ unlink i st.entries)
    × (count i (ids t.entries) ≡ 0)
    × (free_ids t.pool ≡ free_ids st.pool ++ (i ∷ []))

delete_timer_list-none :
    (i : ℕ) (l : List TimerEntry) → count i (ids l) ≡ 0 → delete_timer_list (pos i) l ≡ none
unfolding delete_timer_list
delete_timer_list-none i l h = elim (Option-cases (search_timer_list i l)) [
  | inl gone ↦ ground arith
  | inr (s, found) ↦ absurd (omega (arith, (search_timer_list-some i l s found).0))
]

delete_timer_list-some :
    (i : ℕ) (l : List TimerEntry)
    → 1 ≤ i
    → 0 < count i (ids l)
    → delete_timer_list (pos i) l ≡ some (unlink i l)
unfolding delete_timer_list
delete_timer_list-some i l low h = elim (Option-cases (search_timer_list i l)) [
  | inl gone ↦ absurd (omega (arith, search_timer_list-none i l gone))
  | inr (s, found) ↦ ground arith
]

-- In a sound state the pool has a place for the id of a running timer.
module _ {st : Timers} (s : IsSound st) (i : ℕ) (running : 0 < count i (ids st.entries)) where
  id_range : (1 ≤ i) × (i ≤ st.max_tmr_num)
  id_range = s.in_range i (omega arith)

  given_out : st.pool.tremainder < st.pool.maxtnum
  given_out =
      omega (arith, s.room, length-free_ids s.pool, length-unlink i st.entries running, s.same_max)

  stopped-IsSound :
      (q : TidPool)
      → IsValid q
      → q.maxtnum ≡ st.pool.maxtnum
      → free_ids q ≡ free_ids st.pool ++ (i ∷ [])
      → IsSound (record st { pool = q; entries = unlink i st.entries })
  stopped-IsSound q v max e = record {
    pool = v;
    same_max = omega (arith, max, s.same_max);
    once = λ a. ground (
      arith,
      s.once a,
      ap (count a) e,
      count-append a (free_ids st.pool) (i ∷ []),
      count-unlink a i st.entries running,
    );
    in_range = λ a h. ground (
      arith,
      s.in_range a,
      ap (count a) e,
      count-append a (free_ids st.pool) (i ∷ []),
      count-unlink a i st.entries running,
    );
    room = omega (
      arith,
      s.room,
      ap length e,
      length-append {0} (free_ids st.pool) (i ∷ []),
      length-unlink i st.entries running,
    );
  }

timer_stop-idle :
    (st : Timers) (i : ℕ) → count i (ids st.entries) ≡ 0 → timer_stop st (pos i) ≡ some (st, none)
unfolding timer_stop
timer_stop-idle st i idle = ground (arith, delete_timer_list-none i st.entries)

timer_stop-running :
    (st : Timers) (i : ℕ)
    → 1 ≤ i
    → i ≤ st.max_tmr_num
    → 0 < count i (ids st.entries)
    → timer_stop st (pos i) ≡ give_back (record st { entries = unlink i st.entries }) (pos i)
unfolding timer_stop
timer_stop-running st i low high running = ground (arith, delete_timer_list-some i st.entries)

give_back-some :
    (st : Timers) (i : ℕ) (q : TidPool)
    → func_cancel_tid st.pool (pos i) ≡ some (q, some tt)
    → give_back st (pos i) ≡ some (record st { pool = q }, some tt)
unfolding give_back
give_back-some st i q e = rw (e, give_back)

-- In a sound state `timer_stop` never leaves `tid_list`, and leaves a sound state. It succeeds exactly
-- when a timer runs under the id: that timer is then the only one unlinked, and its id becomes the
-- last free one. Otherwise nothing changes.
pub timer_stop-Stopped : (st : Timers) → IsSound st → (i : ℕ) → Stopped st i (timer_stop st (pos i))
timer_stop-Stopped st s i = elim (dec_lt 0 (count i (ids st.entries))) [
  | no idle ↦ rw (timer_stop-idle st i (omega arith)) (s, refl, omega arith)
  | yes running ↦
      let (low, high) = id_range s i running in
      let (q, done, v, max, back) =
        func_cancel_tid-some s.pool (given_out s i running) i low (omega (arith, s.same_max)) in
      rw
        (
          timer_stop-running st i low high running,
          give_back-some (record st { entries = unlink i st.entries }) i q done,
        )
        (
          stopped-IsSound s i running q v max back,
          omega (arith, s.once i),
          refl,
          ground (arith, s.once i, count-unlink i i st.entries running),
          back,
        )
]

-- Ids outside 1 … `MaxTmrNum` are refused.
pub timer_stop-out_of_range :
    (st : Timers) (i : ℤ)
    → ((i ≤ℤ pos 0) ⊎ (pos st.max_tmr_num <ℤ i))
    → timer_stop st i ≡ some (st, none)
unfolding timer_stop
timer_stop-out_of_range st (negsuc n) h = refl
timer_stop-out_of_range st (pos i) h = ground arith

-- Whatever it answers, `timer_stop` leaves a sound state.
pub timer_stop-IsSound :
    (st : Timers)
    → IsSound st
    → (i : ℤ) → (t : Timers) × (r : Option (Unit {0})) × (timer_stop st i ≡ some (t, r)) × IsSound t
timer_stop-IsSound st s (negsuc n) =
    (st, none, timer_stop-out_of_range st (negsuc n) (inl (omega arith)), s)
timer_stop-IsSound st s (pos i) = sound (timer_stop st (pos i)) (timer_stop-Stopped st s i)
  where
    sound :
        (r : Option (Timers × Option (Unit {0})))
        → Stopped st i r
        → (t : Timers) × (o : Option (Unit {0})) × (r ≡ some (t, o)) × IsSound t
    sound none h = absurd h
    sound (some (t, none)) h = (t, none, refl, h.0)
    sound (some (t, some u)) h = (t, some u, refl, h.0)
