-- ===== src/Timer/Entries.antt =====
-- The list of running timers of src/CMLB/src/timer.c, between the sentinels `head` and `tail`:
-- `timer_list`, `search_timer_list`, `delete_timer_list`, `insert_timer_list`. The list is the
-- entries in order; an entry's identity is its id, of which `Timer.Safety` shows that no two agree.
-- `malloc` and `gettimeofday` are the environment's.
use vnf_monitoring.Prelude.{
  ℕ, ◌+◌, ◌-◌, ◌*◌, ◌/◌, ◌%◌, ◌^◌, Bool, Option, none, some, List, [], ◌∷◌, ◌++◌, map, ltb, ◌==◌,
  if◌then◌else◌,
}
use mathlib.Core.Option
use vnf_monitoring.Prelude.Int.{ℤ, pos, negsuc}

-- `CB`: the module's own `tmr_expire_func`, or a function of the caller, known by a number.
pub data Callback : Type 0 where
  tmr_expire_func : Callback
  user : ℕ → Callback

-- `struct timeval`
pub record TimeVal : Type 0 where
  pub tv_sec : ℕ
  pub tv_usec : ℕ

-- `struct _timer_list`, without its links; `action` is `none` for a null pointer.
pub record TimerEntry : Type 0 where
  pub id : ℕ
  pub period : ℤ
  pub tv_sec : ℕ
  pub tv_usec : ℕ
  pub arg1 : ℤ
  pub arg2 : ℤ
  pub arg3 : ℤ
  pub action : Option Callback

-- What the system calls answer: whether `malloc` succeeds, and the time, `none` on failure.
pub record Env : Type 0 where
  pub malloc_ok : Bool
  pub now : Option TimeVal

-- A 32-bit `int` from the number that its bits stand for.
unfoldable pub int32 : ℕ → ℤ
int32 n = let m = n % 2 ^ 32 in if ltb m (2 ^ 31) then pos m else negsuc (2 ^ 32 - 1 - m)

-- `((msecs / 1000) * 1000000) + ((msecs % 1000) * 1000)` for `msecs` ≥ 0, in `int` arithmetic.
unfoldable pub period_of : ℕ → ℤ
unfolding int32
period_of msecs = int32 (msecs / 1000 * 1000000 + msecs % 1000 * 1000)

-- `none` is `tail`.
unfoldable pub search_timer_list : ℕ → List TimerEntry → Option TimerEntry
search_timer_list i [] = none
search_timer_list i (e ∷ l) = if e.id == i then some e else search_timer_list i l

-- The first entry with the id is unlinked.
unfoldable pub unlink : ℕ → List TimerEntry → List TimerEntry
unlink i [] = []
unlink i (e ∷ l) = if e.id == i then l else e ∷ unlink i l

-- `none` is -1.
unfoldable pub delete_timer_list : ℤ → List TimerEntry → Option (List TimerEntry)
delete_timer_list (negsuc n) l = none
delete_timer_list (pos i) l =
    if i == 0
    then none
    else elim (search_timer_list i l) [ none ↦ none | some s ↦ some (unlink i l) ]

-- The fields that `insert_timer_list` fills in, at the time `tp`.
abbrev pub new_entry : ℕ → ℤ → Option Callback → ℤ → ℤ → ℤ → TimeVal → TimerEntry
new_entry i period callback a1 a2 a3 tp = record {
  id = i;
  period = period;
  tv_sec = tp.tv_sec;
  tv_usec = tp.tv_usec;
  arg1 = a1;
  arg2 = a2;
  arg3 = a3;
  action = callback;
}

-- A new entry goes in front of `tail`; `none` is -1. (`tail` is never `head`.)
unfoldable pub insert_timer_list :
    Env → ℕ → ℤ → Option Callback → ℤ → ℤ → ℤ → List TimerEntry → Option (List TimerEntry)
insert_timer_list env i period callback a1 a2 a3 l =
    if env.malloc_ok
    then Option.map (λ tp. l ++ (new_entry i period callback a1 a2 a3 tp ∷ [])) env.now
    else none

abbrev pub ids : List TimerEntry → List ℕ
ids l = map (λ e. e.id) l
