-- ===== src/Timer/Expiry/Pass.antt =====
-- What a pass over the timers of src/CMLB/src/timer.c does.
use vnf_monitoring.Prelude.{
  ℕ, ◌<◌, ◌++◌, ◌≡◌, refl, ◌∙◌, inl, inr, true, false, Bool-cases, Option, none, some, Option-cases,
  List, [], ◌∷◌, arith, count, if◌then◌else◌, ltb, ◌||◌, ◌⊎◌,
}
use vnf_monitoring.Prelude.Int.{ℤ, pos, negsuc}
use vnf_monitoring.Timer.Entries.{Callback, TimeVal, TimerEntry, Env, search_timer_list, ids}
use vnf_monitoring.Timer.Api.{Timers, timer_stop, timer_reset}
use vnf_monitoring.Timer.Ids.Inv.{free_ids}
use vnf_monitoring.Timer.Safety.{IsSound}
use vnf_monitoring.Timer.Safety.Lists.{ids-restart}
use vnf_monitoring.Timer.Safety.Reset.{timer_reset-IsSound}
use vnf_monitoring.Timer.Safety.Stop.{Stopped, timer_stop-Stopped}
use vnf_monitoring.Timer.Expiry.{
  is_repeat, is_due, onward, dangling, visit, finished, use_after_free, cmp_timer_value,
}

-- An answer for each entry.
abbrev pub answered : List (TimeVal × Env) → List (Option TimeVal × Env)
answered [] = []
answered ((tp, env) ∷ l) = (some tp, env) ∷ answered l

-- The ids of the timers that are due.
abbrev pub due_ids : List (TimeVal × Env) → List TimerEntry → List ℕ
due_ids times [] = []
due_ids [] (e ∷ l) = []
due_ids ((tp, env) ∷ times) (e ∷ l) =
    if is_due tp e then e.id ∷ due_ids times l else due_ids times l

-- There is an answer for each entry, and each timer that is due repeats and has an action.
abbrev pub Repeat : List (TimeVal × Env) → List TimerEntry → Type 0
Repeat times [] = Unit
Repeat [] (e ∷ l) = ⊥
Repeat ((tp, env) ∷ times) (e ∷ l) =
    ((is_due tp e ≡ false) ⊎ ((is_repeat e.arg3 ≡ true) × ((f : Callback) × (e.action ≡ some f))))
    × Repeat times l

ids-timer_reset :
    (st : Timers) (env : Env) (i msecs : ℤ)
    → ids (timer_reset st env i msecs).0.entries ≡ ids st.entries
unfolding timer_reset
ids-timer_reset st env (negsuc n) msecs = refl
ids-timer_reset st env (pos i) (negsuc n) = refl
ids-timer_reset st env (pos i) (pos msecs) = elim (Bool-cases (ltb i 1 || ltb st.max_tmr_num i)) [
  | inl e ↦ rw (timer_reset, e) refl
  | inr e ↦ elim (Option-cases (search_timer_list i st.entries)) [
    | inl f ↦ rw (timer_reset, e, f) refl
    | inr (s, f) ↦ elim (Option-cases env.now) [
      | inl g ↦ rw (timer_reset, e, f, g) refl
      | inr (tp, g) ↦ rw (timer_reset, e, f, g) (ids-restart i _ tp st.entries)
    ]
  ]
]

visit-repeat :
    (tp : TimeVal) (env : Env) (e : TimerEntry) (f : Callback) (st : Timers)
    → is_due tp e ≡ true
    → is_repeat e.arg3 ≡ true
    → e.action ≡ some f
    → visit tp env e st ≡ some (onward (timer_reset st env (pos e.id) e.arg2).0 true)
unfolding visit
visit-repeat tp env e f st due r a = rw (visit, due, a, r) refl

visit-idle :
    (tp : TimeVal) (env : Env) (e : TimerEntry) (st : Timers)
    → is_due tp e ≡ false
    → visit tp env e st ≡ some (onward st false)
unfolding visit
visit-idle tp env e st due = rw (visit, due) refl

-- `timer_reset` for each timer that is due, with its `arg2`.
abbrev pub resets : List (TimeVal × Env) → List TimerEntry → Timers → Timers
resets times [] st = st
resets [] (e ∷ l) st = st
resets ((tp, env) ∷ times) (e ∷ l) st =
    resets times l (if is_due tp e then (timer_reset st env (pos e.id) e.arg2).0 else st)

-- Where each timer that is due repeats, a pass comes to its end: the actions of exactly those timers are
-- called, each once and in the order of the list, exactly those timers are reset to the time in their
-- `arg2`, the state stays sound, and no timer is lost.
pub cmp_timer_value-Repeat :
    (times : List (TimeVal × Env)) (l : List TimerEntry) (st : Timers)
    → IsSound st
    → Repeat times l
    → (t : Timers) × (cmp_timer_value (answered times) l st ≡ finished t (due_ids times l))
      × (t ≡ resets times l st)
      × IsSound t
      × (ids t.entries ≡ ids st.entries)
unfolding cmp_timer_value
cmp_timer_value-Repeat [] [] st s r = (st, refl, refl, s, refl)
cmp_timer_value-Repeat ((tp, env) ∷ times) [] st s r = (st, refl, refl, s, refl)
cmp_timer_value-Repeat [] (e ∷ l) st s r = absurd r
cmp_timer_value-Repeat ((tp, env) ∷ times) (e ∷ l) st s r = elim (Bool-cases (is_due tp e)) [
  | inr idle ↦
      let (t, run, reset, sound, same) = cmp_timer_value-Repeat times l st s r.1 in
      (
        t,
        rw (cmp_timer_value, visit-idle tp env e st idle, run, idle) refl,
        rw idle reset,
        sound,
        same,
      )
  | inl due ↦ elim r.0 [
    | inl idle ↦ absurd (ground (arith, due, idle))
    | inr (again, (f, act)) ↦
        let u : Timers = (timer_reset st env (pos e.id) e.arg2).0 in
        let (t, run, reset, sound, same) =
          cmp_timer_value-Repeat times l u (timer_reset-IsSound st s env (pos e.id) e.arg2) r.1 in
        (
          t,
          rw (cmp_timer_value, visit-repeat tp env e f st due again act, run, due) refl,
          rw due reset,
          sound,
          same ∙ ids-timer_reset st env (pos e.id) e.arg2,
        )
  ]
]

stop-frees :
    (st : Timers) (i : ℕ) (o : Option (Timers × Option (Unit {0})))
    → 0 < count i (ids st.entries)
    → Stopped st i o
    → (t : Timers) × (u : Unit {0}) × (o ≡ some (t, some u))
stop-frees st i none running h = absurd h
stop-frees st i (some (t, none)) running h = absurd (omega (arith, running, h.2))
stop-frees st i (some (t, some u)) running h = (t, u, refl)

visit-frees :
    (tp : TimeVal) (env : Env) (e : TimerEntry) (f : Callback) (st t : Timers) (u : Unit {0})
    → is_due tp e ≡ true
    → is_repeat e.arg3 ≡ false
    → e.action ≡ some f
    → timer_stop st (pos e.id) ≡ some (t, some u)
    → visit tp env e st ≡ some (dangling t)
unfolding visit
visit-frees tp env e f st t u due once a stop = rw (visit, due, a, once, stop) refl

-- A pass that comes to a running timer which is due and does not repeat stops it: no timer has its id
-- any more, the id is the last free one, and the state stays sound. The pass then ends with a read of
-- the next entry from the one that it has freed, whatever timers there are and whatever the time.
pub cmp_timer_value-freed :
    (tp : TimeVal) (env : Env) (e : TimerEntry) (f : Callback)
    (answers : List (Option TimeVal × Env)) (l : List TimerEntry) (st : Timers)
    → IsSound st
    → 0 < count e.id (ids st.entries)
    → is_due tp e ≡ true
    → is_repeat e.arg3 ≡ false
    → e.action ≡ some f
    → (t : Timers) × (timer_stop st (pos e.id) ≡ some (t, some tt))
      × (cmp_timer_value ((some tp, env) ∷ answers) (e ∷ l) st ≡ use_after_free t)
      × (count e.id (ids t.entries) ≡ 0)
      × (free_ids t.pool ≡ free_ids st.pool ++ (e.id ∷ []))
      × IsSound t
unfolding cmp_timer_value
cmp_timer_value-freed tp env e f answers l st s running due once act =
    let stopped = timer_stop-Stopped st s e.id in
    let (t, u, stop) = stop-frees st e.id (timer_stop st (pos e.id)) running stopped in
    let after : Stopped st e.id (some (t, some u)) = rw stop at stopped in
    (
      t,
      stop,
      rw (cmp_timer_value, visit-frees tp env e f st t u due once act stop) refl,
      after.3,
      after.4,
      after.0,
    )
