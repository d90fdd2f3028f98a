-- ===== src/Timer/Api.antt =====
-- `timer_init`, `timer_start`, `timer_stop` and `timer_reset` of src/CMLB/src/timer.c. Each runs
-- under `time_mutex` from its first line to its last, so one call is one step; the mode of
-- `timer_stop` says only who holds the mutex.
-- The outer `none` is an access outside `tid_list`, the inner one the source's -1.
use vnf_monitoring.Prelude.{
  ℕ, Bool, true, false, Option, none, some, List, [], ◌∷◌, ltb, ◌==◌, if◌then◌else◌, ◌||◌,
}
use vnf_monitoring.Prelude.Int.{ℤ, pos, negsuc}
use vnf_monitoring.Timer.Ids.{TidPool, func_init_tid, func_assign_tid, func_cancel_tid}
use vnf_monitoring.Timer.Entries.{
  Callback, tmr_expire_func, TimeVal, TimerEntry, Env, period_of, search_timer_list,
  delete_timer_list, insert_timer_list,
}

pub record Timers : Type 0 where
  pub pool : TidPool
  pub entries : List TimerEntry
  pub max_tmr_num : ℕ

-- `TMR_CALLBACK`, `TMR_SOCKET`, `TMR_MSGQUEUE`, and any other value.
pub data TimerType : Type 0 where
  tmr_callback tmr_socket tmr_msgqueue tmr_other : TimerType

abbrev pub Answer : Type 0 → Type 0
Answer A = Option (Timers × Option A)

-- `timer_init`, where `malloc`, the mutex and the thread are made; `none` is -1.
unfoldable pub timer_init : ℤ → Option Timers
timer_init (negsuc n) = none
timer_init (pos max) =
    if ltb max 1
    then none
    else some (record { pool = func_init_tid max; entries = []; max_tmr_num = max })

-- The end of `timer_start`: the entry is linked in, or the call fails with the id taken.
unfoldable pub link_entry : Timers → ℕ → Option (List TimerEntry) → Answer ℕ
link_entry st i none = some (st, none)
link_entry st i (some l) = some (record st { entries = l }, some i)

-- From the line that has the id `i` on.
unfoldable pub start_with :
    Timers → Env → ℕ → ℤ → Option Callback → ℤ → ℤ → ℤ → TimerType → Answer ℕ
unfolding link_entry
start_with st env i period callback a1 a2 a3 tmr_socket = some (st, some i)
start_with st env i period callback a1 a2 a3 tmr_msgqueue =
    link_entry st i (insert_timer_list env i period (some tmr_expire_func) a1 a2 a3 st.entries)
start_with st env i period callback a1 a2 a3 tmr_callback =
    link_entry st i (insert_timer_list env i period callback a1 a2 a3 st.entries)
start_with st env i period callback a1 a2 a3 tmr_other =
    link_entry st i (insert_timer_list env i period callback a1 a2 a3 st.entries)

-- `type == TMR_CALLBACK && callback == NULL`
unfoldable pub null_callback : TimerType → Option Callback → Bool
null_callback tmr_callback none = true
null_callback _ _ = false

unfoldable pub timer_start : Timers → Env → ℤ → Option Callback → ℤ → ℤ → ℤ → TimerType → Answer ℕ
timer_start st env (negsuc n) callback a1 a2 a3 type = some (st, none)
timer_start st env (pos msecs) callback a1 a2 a3 type =
    if null_callback type callback then some (st, none) else elim (func_assign_tid st.pool) [
      | none ↦ none
      | some (pool, none) ↦ some (record st { pool = pool }, none)
      | some (pool, some i) ↦
          start_with (record st { pool = pool }) env i (period_of msecs) callback a1 a2 a3 type
    ]

-- The end of `timer_stop`: the entry is gone, and its id goes back to the pool.
unfoldable pub give_back : Timers → ℤ → Answer (Unit {0})
give_back st i = elim (func_cancel_tid st.pool i) [
  | none ↦ none
  | some (pool, r) ↦ some (record st { pool = pool }, r)
]

unfoldable pub timer_stop : Timers → ℤ → Answer (Unit {0})
timer_stop st (negsuc n) = some (st, none)
timer_stop st (pos i) =
    if ltb i 1 || ltb st.max_tmr_num i
    then some (st, none)
    else elim (delete_timer_list (pos i) st.entries) [
      | none ↦ some (st, none)
      | some l ↦ give_back (record st { entries = l }) (pos i)
    ]

-- `period` and the start time of the first entry with the id are set.
unfoldable pub restart : ℕ → ℤ → TimeVal → List TimerEntry → List TimerEntry
restart i period tp [] = []
restart i period tp (e ∷ l) =
    if e.id == i
    then record e { id = i; period = period; tv_sec = tp.tv_sec; tv_usec = tp.tv_usec } ∷ l
    else e ∷ restart i period tp l

unfoldable pub timer_reset : Timers → Env → ℤ → ℤ → Timers × Option (Unit {0})
timer_reset st env (negsuc n) msecs = (st, none)
timer_reset st env (pos i) (negsuc n) = (st, none)
timer_reset st env (pos i) (pos msecs) =
    let period = if msecs == 0 then pos 0 else period_of msecs in
    if ltb i 1 || ltb st.max_tmr_num i then (st, none) else elim (search_timer_list i st.entries) [
      | none ↦ (st, some tt)
      | some s ↦ elim env.now [
        | none ↦ (st, none)
        | some tp ↦ (record st { entries = restart i period tp st.entries }, some tt)
      ]
    ]
