-- ===== src/Timer/Tests.antt =====
-- The timers on concrete pools and lists.
use vnf_monitoring.Prelude.{
  count, ◌++◌, ◌*◌, ◌+◌, ◌<◌, ◌↔◌, inr, ◌≡◌, refl, true, false, some, [], ◌∷◌, arith,
}
use vnf_monitoring.Prelude.Int.{pos}
use vnf_monitoring.Timer.Ids.{TidPool, func_assign_tid, func_cancel_tid}
use vnf_monitoring.Timer.Ids.Spec.{take_id, put_id}
use vnf_monitoring.Timer.Ids.Inv.{free_ids, IsValid, Answers}
use vnf_monitoring.Timer.Ids.Assign.{func_assign_tid-refines}
use vnf_monitoring.Timer.Ids.Cancel.{func_cancel_tid-refines}
use vnf_monitoring.Timer.Expiry.{is_due, usecs, finished, use_after_free, cmp_timer_value}
use vnf_monitoring.Timer.Api.{timer_stop}
use vnf_monitoring.Timer.Expiry.Elapsed.{is_due_iff}
use vnf_monitoring.Timer.Expiry.Pass.{answered, cmp_timer_value-Repeat, cmp_timer_value-freed}
use vnf_monitoring.Timer.Entries.{TimeVal, TimerEntry, Env, user, int32, period_of, ids}
use vnf_monitoring.Timer.Api.{Timers, tmr_callback, timer_start, timer_reset}
use vnf_monitoring.Timer.Safety.{IsSound}
use vnf_monitoring.Timer.Safety.Start.{Started, timer_start-Started}
use vnf_monitoring.Timer.Run.{start, stop, run, run-IsSound}

-- Of three ids the first is taken.
abbrev one_taken : TidPool
one_taken = record {
  assign_ptr = 1;
  cancel_ptr = 0;
  comeback = false;
  maxtnum = 3;
  tremainder = 2;
  tid_list =
      record { flag = true; id = 1 }
      ∷ record { flag = false; id = 2 }
      ∷ record { flag = false; id = 3 }
      ∷ [];
}

one_taken-IsValid : IsValid one_taken
one_taken-IsValid = record {
  assign_in = omega arith;
  cancel_in = omega arith;
  cells = refl;
  straight = λ e. (omega arith, omega arith);
  wrapped = λ e. absurd (ground (arith, e));
  unused = (refl, (refl, tt));
}

abbrev clock : Env
clock = record { malloc_ok = true; now = some (record { tv_sec = 9; tv_usec = 5 }) }

abbrev entry : TimerEntry
entry = record {
  id = 1;
  period = pos 50000;
  tv_sec = 8;
  tv_usec = 7;
  action = some (user 7);
  arg1 = pos 1;
  arg2 = pos 2;
  arg3 = pos 3;
}

-- The state with that pool, where one timer runs.
abbrev running : Timers
running = record { pool = one_taken; entries = entry ∷ []; max_tmr_num = 3 }

running-IsSound : IsSound running
running-IsSound = record {
  pool = one_taken-IsValid;
  same_max = refl;
  once = λ a. ground arith;
  in_range = λ a. ground arith;
  room = omega arith;
}

func_assign_tid-refines_example : Answers one_taken (3 ∷ [], some 2) (func_assign_tid one_taken)
unfolding take_id
func_assign_tid-refines_example = func_assign_tid-refines {p = one_taken} one_taken-IsValid

func_cancel_tid-refines_example :
    Answers one_taken (2 ∷ 3 ∷ 1 ∷ [], some tt) (func_cancel_tid one_taken (pos 1))
unfolding put_id
func_cancel_tid-refines_example =
    func_cancel_tid-refines {p = one_taken} one_taken-IsValid 1 (omega arith) (omega arith)

timer_start-Started_example :
    Started running tmr_callback
      (timer_start running clock (pos 70) (some (user 4)) (pos 0) (pos 0) (pos 0) tmr_callback)
timer_start-Started_example =
    timer_start-Started running running-IsSound clock (pos 70) (some (user 4)) (pos 0) (pos 0)
      (pos 0) tmr_callback

run-IsSound_example :
    (t : Timers) × (run running (
        start clock (pos 70) (some (user 4)) (pos 0) (pos 0) (pos 0) tmr_callback
        ∷ stop (pos 1)
        ∷ [])
      ≡ some t)
    × IsSound t
run-IsSound_example =
    run-IsSound
      (start clock (pos 70) (some (user 4)) (pos 0) (pos 0) (pos 0) tmr_callback
        ∷ stop (pos 1)
        ∷ [])
      running running-IsSound

-- 51 ms after the start of `entry`.
abbrev late : TimeVal
late = record { tv_sec = 8; tv_usec = 51007 }

is_due_iff_example : (is_due late entry ≡ true) ↔ (50 * 1000 < 51000 + 10000)
unfolding period_of int32
is_due_iff_example =
    is_due_iff late entry 51000 50 (omega arith) (omega arith) refl (omega arith) (omega arith) refl

abbrev repeating : Timers
repeating = record running { entries = record entry { arg3 = pos 4097 } ∷ [] }

repeating-IsSound : IsSound repeating
repeating-IsSound = record {
  pool = one_taken-IsValid;
  same_max = refl;
  once = λ a. ground arith;
  in_range = λ a. ground arith;
  room = omega arith;
}

cmp_timer_value-Repeat_example :
    (t : Timers) × (cmp_timer_value
        (answered ((late, clock) ∷ []))
        (record entry { arg3 = pos 4097 } ∷ [])
        repeating
      ≡ finished t (1 ∷ []))
    × (t ≡ (timer_reset repeating clock (pos 1) (pos 2)).0)
    × IsSound t
    × (ids t.entries ≡ 1 ∷ [])
unfolding is_due usecs
cmp_timer_value-Repeat_example =
    cmp_timer_value-Repeat ((late, clock) ∷ []) (record entry { arg3 = pos 4097 } ∷ []) repeating
      repeating-IsSound (inr (refl, (user 7, refl)), tt)

cmp_timer_value-freed_example :
    (t : Timers) × (timer_stop running (pos 1) ≡ some (t, some tt))
    × (cmp_timer_value ((some late, clock) ∷ []) (entry ∷ []) running ≡ use_after_free t)
    × (count 1 (ids t.entries) ≡ 0)
    × (free_ids t.pool ≡ free_ids running.pool ++ (1 ∷ []))
    × IsSound t
unfolding is_due usecs
cmp_timer_value-freed_example =
    cmp_timer_value-freed late clock entry (user 7) [] [] running running-IsSound (omega arith) refl
      refl refl
