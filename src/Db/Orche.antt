-- ===== src/Db/Orche.antt =====
-- The statements of src/DBMB/src/dbmb_main.c with the handlers under them: the row for the
-- orchestrator, its clock, and the query for the cloud's machines. What a result holds is a
-- parameter, for the calls so far.
use vnf_monitoring.Prelude.{ℕ, Option, none, some, List, if◌then◌else◌, codes}
use vnf_monitoring.Prelude.Int.{ℤ, pos, negsuc}
use vnf_monitoring.Host.State.{VmcStatus}
use vnf_monitoring.Host.Rows.{VmProcess}
use vnf_monitoring.Db.Mysql.{Library, History}
use vnf_monitoring.Db.Statements.{orche_insert_text}
use vnf_monitoring.Db.Handles.{
  Db, Action, pure, ◌>>=◌, handler1, exec_query, exec_orche_db, is_zero,
}
use vnf_monitoring.Db.Nova.{Row, Selection, select_all_vm_status}

abbrev gets : {A : Type 0} → (Db → A) → Action A
gets f d = (d, f d)

module _ (lib : Library) where
  pub orche_insert_vm_state_info : VmProcess → Action ℤ
  orche_insert_vm_state_info v = do
    retval ← exec_orche_db lib (orche_insert_text v)
    pure (if is_zero retval then retval else negsuc 0)

  -- The first field of the first row; `none` for a result with no row.
  pub check_time_orche_hlr : (History → Option ℤ) → Action ℤ
  check_time_orche_hlr first_field = do
    retval ← exec_orche_db lib (codes "SELECT TIME_TO_SEC(now())")
    field ← gets (λ d. first_field d.calls)
    pure (if is_zero retval then elim field [ none ↦ pos 0 | some n ↦ n ] else retval)

  -- `SelectAllVMStatus`, for the text of its query.
  pub select_machines : List ℕ → (History → List Row) → List VmcStatus → Action Selection
  select_machines text rows vm = do
    retval ← exec_query lib handler1 text
    found ← gets (λ d. rows d.calls)
    pure (select_all_vm_status (if is_zero retval then some found else none) vm)
