-- ===== src/Timer/Expiry/Elapsed.antt =====
-- When a timer of src/CMLB/src/timer.c is due.
use vnf_monitoring.Prelude.{ℕ, ◌+◌, ◌*◌, ◌≤◌, ◌<◌, ◌^◌, ◌≡◌, ◌∙◌, ◌↔◌, true, arith}
use vnf_monitoring.Prelude.Int.{pos}
use vnf_monitoring.Timer.Entries.{TimeVal, TimerEntry, int32, period_of}
use vnf_monitoring.Timer.Run.{period_of_lem}
use vnf_monitoring.Timer.Expiry.{usecs, is_due}

-- A time in microseconds.
abbrev pub micros : ℕ → ℕ → ℕ
micros sec usec = sec * 1000000 + usec

-- From its start on, and for less than 2^31 microseconds, `usecs` is the time since the start and 10 ms.
usecs_lem :
    (tp : TimeVal) (e : TimerEntry) (d : ℕ)
    → tp.tv_usec < 1000000
    → e.tv_usec < 1000000
    → micros tp.tv_sec tp.tv_usec ≡ micros e.tv_sec e.tv_usec + d
    → d + 10000 < 2 ^ 31
    → usecs tp e ≡ pos (d + 10000)
unfolding usecs int32
usecs_lem tp e d small small2 later short = ground arith

-- A timer of up to 2147483 ms is due at a time less than 2147 s after its start exactly when more than its time
-- has gone by, 10 ms added: never earlier than 10 ms before its time, and always from then on.
pub is_due_iff :
    (tp : TimeVal) (e : TimerEntry) (d msecs : ℕ)
    → tp.tv_usec < 1000000
    → e.tv_usec < 1000000
    → micros tp.tv_sec tp.tv_usec ≡ micros e.tv_sec e.tv_usec + d
    → d + 10000 < 2 ^ 31
    → msecs ≤ 2147483
    → e.period ≡ period_of msecs
    → (is_due tp e ≡ true) ↔ (msecs * 1000 < d + 10000)
unfolding is_due
is_due_iff tp e d msecs small small2 later short low p =
    let at : usecs tp e ≡ pos (d + 10000) = usecs_lem tp e d small small2 later short in
    let limit : e.period ≡ pos (msecs * 1000) = p ∙ (period_of_lem msecs).0 low in
    rw (is_due, at, limit) (ground arith)
