-- ===== src/Db/Postgres.antt =====
-- src/PQMB/src/pqmb_main.c: the three connections to the orchestrator's database, and the statements.
-- The client library, libpq, is not part of the repository: what it answers is a parameter, which
-- may depend on every call made before, and the calls are kept, the newest first.
pub mod Results
pub mod Rows
use vnf_monitoring.Prelude.{
  ℕ, zero, suc, ◌≡◌, Bool, true, false, Option, none, some, List, [], ◌∷◌, ◌==◌, if◌then◌else◌,
  codes,
}
use vnf_monitoring.Prelude.Int.{ℤ, pos, negsuc}
use vnf_monitoring.Host.Rows.{VmProcess}
use vnf_monitoring.Db.Mysql.{Parm}
use vnf_monitoring.Db.Handles.{is_negative}
use vnf_monitoring.Db.Statements.{insert_text, update_text, count_text, process_count_text}

-- A call, with the pointers that it is given and that it returned; `none` is the null pointer.
pub data Call : Type 0 where
  login : Parm → Option ℕ → Call
  finish : ℕ → Call
  exec : Option ℕ → List ℕ → Option ℕ → Call
  clear : Option ℕ → Call

abbrev pub History : Type 0
History = List Call

-- `PGRES_COMMAND_OK`, `PGRES_TUPLES_OK`, and all others.
pub data ResultStatus : Type 0 where
  command_ok tuples_ok other_status : ResultStatus

abbrev pub is_command_ok : ResultStatus → Bool
is_command_ok command_ok = true
is_command_ok tuples_ok = false
is_command_ok other_status = false

abbrev pub is_tuples_ok : ResultStatus → Bool
is_tuples_ok tuples_ok = true
is_tuples_ok command_ok = false
is_tuples_ok other_status = false

-- The answers: the pointer of `PQsetdbLogin`, whether `PQstatus` is `CONNECTION_BAD`, the result of
-- `PQexec`, its status, and the number that `atoi` reads in its first field, or `none` where it has no
-- row: `PQgetvalue` is the null pointer then.
pub record Library : Type 0 where
  pub new_connection : Parm → History → Option ℕ
  pub is_bad : Option ℕ → History → Bool
  pub result : Option ℕ → List ℕ → History → Option ℕ
  pub result_status : ℕ → History → ResultStatus
  pub first_number : Option ℕ → History → Option ℤ

-- `pgconn1`, `pgconn2` and `pgManager`.
pub data Conn : Type 0 where
  pgconn1 pgconn2 pg_manager : Conn

-- The globals, and the calls made so far.
pub record Pq : Type 0 where
  pub conn1 : Option ℕ
  pub conn2 : Option ℕ
  pub manager : Option ℕ
  pub pq_db_parm : Parm
  pub calls : History

abbrev pub conn_of : Conn → Pq → Option ℕ
conn_of pgconn1 d = d.conn1
conn_of pgconn2 d = d.conn2
conn_of pg_manager d = d.manager

abbrev pub set_conn : Conn → Option ℕ → Pq → Pq
set_conn pgconn1 v d = record d { conn1 = v }
set_conn pgconn2 v d = record d { conn2 = v }
set_conn pg_manager v d = record d { manager = v }

abbrev pub Action : Type 0 → Type 0
Action A = Pq → Pq × A

abbrev pub pure : {A : Type 0} → A → Action A
pure a d = (d, a)

infixl 5 ◌>>=◌ ◌>>◌
abbrev pub ◌>>=◌ : {A B : Type 0} → Action A → (A → Action B) → Action B
◌>>=◌ m f d = let (d', a) = m d in f a d'

abbrev pub ◌>>◌ : {B : Type 0} → Action (Unit {0}) → Action B → Action B
m >> k = m >>= λ _. k

abbrev pub ignore : {A : Type 0} → Action A → Action (Unit {0})
ignore m d = ((m d).0, tt)

abbrev pub gets : {A : Type 0} → (Pq → A) → Action A
gets f d = (d, f d)

abbrev pub modify : (Pq → Pq) → Action (Unit {0})
modify f d = (f d, tt)

abbrev pub emit : Call → Action (Unit {0})
emit c = modify (λ d. record d { calls = c ∷ d.calls })

-- One part of `PQ_CloseDatabase`.
unfoldable pub close_conn : Conn → Action (Unit {0})
close_conn c = do
  p ← gets (conn_of c)
  elim p [ none ↦ pure tt | some q ↦ do emit (finish q); modify (set_conn c none) ]

unfoldable pub pq_close_database : Action (Unit {0})
pq_close_database = do close_conn pgconn1; close_conn pgconn2; close_conn pg_manager

module _ (lib : Library) where
  -- One part of `OpenDatabase`: a connection that is bad stays in its variable.
  unfoldable pub open_conn : Conn → Action ℤ
  open_conn c = do
    w ← gets Pq.pq_db_parm
    p ← gets (λ d. lib.new_connection w d.calls)
    emit (login w p)
    modify (set_conn c p)
    bad ← gets (λ d. lib.is_bad p d.calls)
    pure (if bad then negsuc 0 else pos 0)

  unfoldable pub open_database : Action ℤ
  open_database = do
    r ← open_conn pgconn1
    if is_negative r
        then pure r
        else do r' ← open_conn pgconn2; if is_negative r' then pure r' else open_conn pg_manager

  unfoldable pub pq_database_init : Parm → Action ℤ
  pq_database_init w d = open_database (record d { pq_db_parm = w })

  abbrev pub pq_exec : Conn → List ℕ → Action (Option ℕ)
  pq_exec c text d =
      let r = lib.result (conn_of c d) text d.calls in
      (record d { calls = exec (conn_of c d) text r ∷ d.calls }, r)

  -- `PQresultStatus`, which is asked of a result that is not null.
  abbrev pub asked_status : Option ℕ → Action ResultStatus
  asked_status none d = (d, other_status)
  asked_status (some q) d = (d, lib.result_status q d.calls)

  -- `PQ_ExecQuery1`; the result is cleared on both branches.
  unfoldable pub pq_exec_query : Conn → List ℕ → Action ℤ
  pq_exec_query c text = do
    r ← pq_exec c text
    s ← asked_status r
    if is_command_ok s
        then (do emit (clear r); pure (pos 0))
        else do emit (clear r); pure (negsuc 0)

  -- `PQ_ExecSelectQuery1`: the result is the caller's, also upon an error.
  unfoldable pub pq_exec_select_query : Conn → List ℕ → Action (ℤ × Option ℕ)
  pq_exec_select_query c text = do
    r ← pq_exec c text
    s ← asked_status r
    pure (if is_tuples_ok s then pos 0 else negsuc 0, r)

  pub pq_exec_query2 : List ℕ → Action ℤ
  pq_exec_query2 = pq_exec_query pgconn2

  pub pq_exec_dbm : List ℕ → Action ℤ
  pq_exec_dbm = pq_exec_query pg_manager

  pub pq_exec_select_query2 : List ℕ → Action (ℤ × Option ℕ)
  pq_exec_select_query2 = pq_exec_select_query pgconn2

  pub pq_exec_select_query_dbm : List ℕ → Action (ℤ × Option ℕ)
  pq_exec_select_query_dbm = pq_exec_select_query pg_manager

  -- What `PQ_SelectCountVMStateInfo` and `PQ_CheckVMStateInfo` share: the number in the first field.
  -- `none` is `atoi` of the null pointer, where the program ends with the result not cleared.
  unfoldable pub select_number : List ℕ → Action (Option ℤ)
  select_number text = do
    (retval, r) ← pq_exec_select_query pgconn1 text
    if is_negative retval then (do emit (clear r); pure (some (negsuc 0))) else do
      n ← gets (λ d. lib.first_number r d.calls)
      elim n [ none ↦ pure none | some k ↦ do emit (clear r); pure (some k) ]

  -- `PQ_CheckPgHandler1`, for the value of `pgconn1`.
  unfoldable pub check_conn : Option ℕ → Action ℤ
  check_conn none = pure (negsuc 0)
  check_conn (some q) = do
    (retval, r) ← pq_exec_select_query pgconn1 (codes "SELECT NOW()")
    emit (clear r)
    pure (if is_negative retval then negsuc 0 else pos 0)

  unfoldable pub pq_check_pg_handler1 : Action ℤ
  pq_check_pg_handler1 = do h ← gets Pq.conn1; check_conn h

  unfoldable pub pq_select_count_vm_state_info : VmProcess → Action (Option ℤ)
  pq_select_count_vm_state_info v = select_number (count_text v)

  unfoldable pub pq_check_vm_state_info : VmProcess → Action (Option ℤ)
  pq_check_vm_state_info v = select_number (process_count_text v)

  unfoldable pub pq_insert_vm_state_info : VmProcess → Action ℤ
  pq_insert_vm_state_info v = pq_exec_query pgconn1 (insert_text v)

  unfoldable pub pq_update_vm_state_info : VmProcess → Action ℤ
  pq_update_vm_state_info v = pq_exec_query pgconn1 (update_text v)
