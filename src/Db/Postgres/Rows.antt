-- ===== src/Db/Postgres/Rows.antt =====
-- The row of a machine on its way to the database: the calls that `ProcessVmProcStateInfo` of
-- src/HOST/src/host_task.c makes of src/PQMB, with the answers that decide about the next call.
-- `none` is the end of the program at `atoi` of the null pointer.
use vnf_monitoring.Prelude.{zero, suc, Option, none, some}
use vnf_monitoring.Prelude.Int.{ℤ, pos, negsuc}
use vnf_monitoring.Host.Rows.{VmProcess}
use vnf_monitoring.Db.Postgres.{
  Library, Action, pure, ◌>>=◌, pq_select_count_vm_state_info, pq_check_vm_state_info,
  pq_insert_vm_state_info, pq_update_vm_state_info,
}

module _ (lib : Library) (v : VmProcess) where
  -- What follows the answer of the second query.
  unfoldable pub store_checked : Option ℤ → Action (Option ℤ)
  store_checked none = pure none
  store_checked (some (pos zero)) = do r ← pq_update_vm_state_info lib v; pure (some r)
  store_checked (some (pos (suc k))) = pure (some (pos 0))
  store_checked (some (negsuc k)) = pure (some (pos 0))

  -- What follows the answer of the first query.
  unfoldable pub store_counted : Option ℤ → Action (Option ℤ)
  store_counted none = pure none
  store_counted (some (negsuc n)) = pure (some (pos 0))
  store_counted (some (pos zero)) = do r ← pq_insert_vm_state_info lib v; pure (some r)
  store_counted (some (pos (suc n))) = do k ← pq_check_vm_state_info lib v; store_checked k

  unfoldable pub store_machine : Action (Option ℤ)
  store_machine = do n ← pq_select_count_vm_state_info lib v; store_counted n
