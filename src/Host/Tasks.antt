-- ===== src/Host/Tasks.antt =====
-- The loops of the periodic threads in src/HOST/src/host_task.c: `CheckVmStatusTask`,
-- `CheckTcpStatusTask`, `ResetWatchdogTask` and `ProcessVmStateTask`. A step is one turn of a loop,
-- which reads the second of the minute; it yields the new flag and whether the work is done.
pub mod Rate
pub mod Configured
use vnf_monitoring.Prelude.{
  ℕ, zero, suc, ◌+◌, ◌%◌, Bool, true, false, not, ◌&&◌, List, [], ◌∷◌, ◌==◌, if◌then◌else◌,
}

-- The shape of the loops with a flag `FiveSecCheck`, `check1min` or `check5sec`.
pub edge : Bool → Bool → Bool × Bool
edge true flag = (true, not flag)
edge false flag = (false, false)

-- `sec_interval` is `CHECK_VMCSTATUS_SEC`, not 0.
pub check_vm_status_step : ℕ → Bool → ℕ → Bool × Bool
check_vm_status_step sec_interval five_sec_check tm_sec =
    edge (tm_sec % sec_interval == 0) five_sec_check

pub check_tcp_status_step : Bool → ℕ → Bool × Bool
check_tcp_status_step check1min tm_sec = edge (tm_sec == 15) check1min

pub process_vm_state_step : Bool → ℕ → Bool × Bool
process_vm_state_step check5sec tm_sec = edge (tm_sec % 5 == 2) check5sec

-- `sectime` and `check1sec`
pub record Watchdog : Type 0 where
  pub sectime : ℕ
  pub check1sec : Bool

-- The start of `ResetWatchdogTask`.
pub watchdog_start : ℕ → Watchdog
watchdog_start tm_sec = record { sectime = tm_sec; check1sec = false }

-- `watchdog_msec` is `CHECK_WATCHDOG_MSEC`.
pub reset_watchdog_step : ℕ → Watchdog → ℕ → Watchdog × Bool
reset_watchdog_step watchdog_msec w tm_sec = elim (w.sectime == tm_sec) [
  | true ↦ (record w { check1sec = false }, false)
  | false ↦ elim (not w.check1sec && not (watchdog_msec == 0)) [
    | true ↦ (record w { sectime = tm_sec; check1sec = true }, true)
    | false ↦ (w, false)
  ]
]

-- How often the work is done while the seconds are read.
pub runs {ℓ} : {S : Type ℓ} → (S → ℕ → S × Bool) → S → List ℕ → ℕ
runs step s [] = 0
runs step s (sec ∷ secs) = (if (step s sec).1 then 1 else 0) + runs step (step s sec).0 secs
