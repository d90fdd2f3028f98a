-- ===== src/Timer/Safety/Lists.antt =====
-- How the operations on the list of running timers change the ids in it.
use vnf_monitoring.Prelude.{
  ℕ, ◌+◌, ◌<◌, ◌≡◌, refl, ap, Option, none, some, List, [], ◌∷◌, ◌++◌, ◌==◌, if◌then◌else◌, arith,
  count, length, Bool-cases, Option-cases, inl, inr, ◌⊎◌,
}
use vnf_monitoring.Prelude.Int.{ℤ}
use vnf_monitoring.Timer.Entries.{
  Callback, TimeVal, TimerEntry, Env, search_timer_list, insert_timer_list, unlink, ids, new_entry,
}
use vnf_monitoring.Timer.Api.{restart}

pub ids-append : (k l : List TimerEntry) → ids (k ++ l) ≡ ids k ++ ids l
ids-append [] l = refl
ids-append (e ∷ k) l = ap (λ r. e.id ∷ r) (ids-append k l)

-- A linked-in entry adds its id at the end.
pub insert_timer_list-cases :
    (env : Env) (i : ℕ) (period : ℤ) (cb : Option Callback) (a1 a2 a3 : ℤ) (l : List TimerEntry)
    → (insert_timer_list env i period cb a1 a2 a3 l ≡ none)
      ⊎ ((k : List TimerEntry) × (insert_timer_list env i period cb a1 a2 a3 l ≡ some k)
          × (ids k ≡ ids l ++ (i ∷ [])))
unfolding insert_timer_list
insert_timer_list-cases env i period cb a1 a2 a3 l = elim (Bool-cases env.malloc_ok) [
  | inr full ↦ inl (rw full)
  | inl room ↦ elim (Option-cases env.now) [
    | inl broken ↦ inl (rw (room, broken))
    | inr (tp, at) ↦
        inr (l ++ (new_entry i period cb a1 a2 a3 tp ∷ []), rw (room, at), ids-append l _)
  ]
]

-- A search fails exactly when no timer has the id.
pub search_timer_list-none :
    (i : ℕ) (l : List TimerEntry) → search_timer_list i l ≡ none → count i (ids l) ≡ 0
unfolding search_timer_list
search_timer_list-none i [] h = refl
search_timer_list-none i (e ∷ l) h = ground (arith, search_timer_list-none i l)

pub search_timer_list-some :
    (i : ℕ) (l : List TimerEntry) (s : TimerEntry)
    → search_timer_list i l ≡ some s
    → (0 < count i (ids l)) × (s.id ≡ i)
unfolding search_timer_list
search_timer_list-some i [] s h = cc
search_timer_list-some i (e ∷ l) s h = ground (arith, search_timer_list-some i l s)

-- Unlinking takes away one occurrence of the id, and no other id.
pub count-unlink :
    (a i : ℕ) (l : List TimerEntry)
    → 0 < count i (ids l)
    → count a (ids (unlink i l)) + (if a == i then 1 else 0) ≡ count a (ids l)
unfolding unlink
count-unlink a i [] h = absurd (omega arith)
count-unlink a i (e ∷ l) h = ground (arith, count-unlink a i l)

pub length-unlink :
    (i : ℕ) (l : List TimerEntry)
    → 0 < count i (ids l)
    → length (ids (unlink i l)) + 1 ≡ length (ids l)
unfolding unlink
length-unlink i [] h = absurd (omega arith)
length-unlink i (e ∷ l) h = ground (arith, length-unlink i l)

pub ids-restart :
    (i : ℕ) (period : ℤ) (tp : TimeVal) (l : List TimerEntry) → ids (restart i period tp l) ≡ ids l
unfolding restart
ids-restart i period tp [] = refl
ids-restart i period tp (e ∷ l) = ground (arith, ids-restart i period tp l)
