-- ===== src/Timer/Safety.antt =====
-- The running timers and the free ids of src/CMLB/src/timer.c never share an id.
pub mod Lists
pub mod Start
pub mod Stop
pub mod Reset
use vnf_monitoring.Prelude.{
  ℕ, ◌+◌, ◌≤◌, ◌<◌, ◌≡◌, refl, sym, ap, ◌∙◌, Bool, true, false, Option, none, some, List, [], ◌∷◌,
  ◌++◌, ltb, leb, ◌==◌, if◌then◌else◌, ◌||◌, arith, count, count-append, length, length-append,
  dec_lt, Option-cases, inl, inr, ◌⊎◌,
}
use vnf_monitoring.Prelude.Int.{ℤ, pos, negsuc, ◌≤ℤ◌, ◌<ℤ◌}
use vnf_monitoring.Timer.Ids.{TidPool, func_init_tid, func_assign_tid, func_cancel_tid}
use vnf_monitoring.Timer.Ids.Inv.{free_ids, IsValid, length-free_ids}
use vnf_monitoring.Timer.Ids.Assign.{func_assign_tid-some, func_assign_tid-full}
use vnf_monitoring.Timer.Ids.Cancel.{func_cancel_tid-some}
use vnf_monitoring.Timer.Entries.{
  Callback, tmr_expire_func, TimeVal, TimerEntry, Env, period_of, search_timer_list,
  delete_timer_list, insert_timer_list, unlink, ids,
}
use vnf_monitoring.Timer.Api.{
  Timers, TimerType, tmr_callback, tmr_socket, tmr_msgqueue, tmr_other, timer_init, timer_start,
  timer_stop, timer_reset, start_with, link_entry, null_callback, give_back, restart,
}
use vnf_monitoring.Timer.Safety.Lists

-- Every id is free, or on a running timer, or lost; never two of these, and never twice.
pub record IsSound (st : Timers) : Type 0 where
  pub pool : IsValid st.pool
  pub same_max : st.max_tmr_num ≡ st.pool.maxtnum
  pub once : (a : ℕ) → count a (free_ids st.pool) + count a (ids st.entries) ≤ 1
  pub in_range :
      (a : ℕ)
      → 0 < count a (free_ids st.pool) + count a (ids st.entries)
      → (1 ≤ a) × (a ≤ st.max_tmr_num)
  pub room : length (free_ids st.pool) + length (ids st.entries) ≤ st.max_tmr_num
