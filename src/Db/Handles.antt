-- ===== src/Db/Handles.antt =====
-- The connections of src/DBMB/src/dbmb_main.c: the four global handlers, how they are opened and
-- closed, and the queries that open a lost one again. A function that the source writes out for
-- each handler is written once, with the handler as its argument.
pub mod Owned
pub mod Exec
pub mod Retry
pub mod Runs
pub mod Caller
use vnf_monitoring.Prelude.{
  ℕ, zero, suc, ◌≡◌, refl, ◌≢◌, Bool, true, false, ◌||◌, Option, none, some, List, [], ◌∷◌, ite,
  if_pos, if_neg, if◌then◌else◌, codes,
}
use vnf_monitoring.Prelude.Int.{ℤ, pos, negsuc, ltb_ℤ}
use vnf_monitoring.Db.Mysql.{Call, init, connect, query, close, History, Library, Parm}

-- The global variables `handler1`, `handler2`, `DBManager` and `orchehandler`.
pub data Slot : Type 0 where
  handler1 handler2 db_manager orchehandler : Slot

unfoldable pub Slot-discrete : Discrete Slot
Slot-discrete = hlevel

abbrev pub Handlers : Type 0
Handlers = Slot → Option ℕ

unfoldable pub put : Slot → Option ℕ → Handlers → Handlers
put s v f t = ite (Slot-discrete s t) v (f t)

-- The globals: the handlers, `DBParm` and `OrcheDBParm`; and the calls made so far.
pub record Db : Type 0 where
  pub held : Handlers
  pub db_parm : Parm
  pub orche_db_parm : Parm
  pub calls : History

abbrev pub Action : Type 0 → Type 0
Action A = Db → Db × A

abbrev pub pure : {A : Type 0} → A → Action A
pure a d = (d, a)

infixl 5 ◌>>=◌ ◌>>◌
abbrev pub ◌>>=◌ : {A B : Type 0} → Action A → (A → Action B) → Action B
◌>>=◌ m f d = let (d', a) = m d in f a d'

abbrev pub ◌>>◌ : {B : Type 0} → Action (Unit {0}) → Action B → Action B
m >> k = m >>= λ _. k

-- A call whose result is not used.
abbrev pub ignore : {A : Type 0} → Action A → Action (Unit {0})
ignore m d = ((m d).0, tt)

abbrev pub get_held : Slot → Action (Option ℕ)
get_held s d = (d, d.held s)

abbrev pub assign : Slot → Option ℕ → Action (Unit {0})
assign s v d = (record d { held = put s v d.held }, tt)

-- One call of the library.
abbrev pub emit : Call → Action (Unit {0})
emit c d = (record d { calls = c ∷ d.calls }, tt)

-- The parameters that the source names where it connects a handler.
abbrev pub parm_of : Slot → Db → Parm
parm_of handler1 d = d.db_parm
parm_of handler2 d = d.db_parm
parm_of db_manager d = d.db_parm
parm_of orchehandler d = d.orche_db_parm

abbrev pub is_negative : ℤ → Bool
is_negative (pos n) = false
is_negative (negsuc n) = true

abbrev pub is_zero : ℤ → Bool
is_zero (pos n) = elim n [ zero ↦ true | suc m ↦ false ]
is_zero (negsuc n) = false

abbrev pub same_ℤ : ℤ → ℤ → Bool
same_ℤ a b = if ltb_ℤ a b then false else if ltb_ℤ b a then false else true

-- `CloseDatabase1`, `CloseDatabase2`, `CloseDBM`
unfoldable pub close_handler : Slot → Action (Unit {0})
close_handler s = do
  p ← get_held s
  elim p [ none ↦ pure tt | some q ↦ do emit (close q); assign s none ]

-- The text of a commit.
abbrev pub commit : List ℕ
commit = codes "commit"

unfoldable pub close_orche_db : Action (Unit {0})
close_orche_db = close_handler orchehandler

-- A call of one of the functions that work on the four handlers.
pub data Request : Type 0 where
  starts starts_orche : Parm → Request
  executes1 executes2 executes_dbm executes_orche : List ℕ → Request
  commits commits2 commits_dbm closes closes_orche : Request

module _ (lib : Library) where
  abbrev pub mysql_init : Option ℕ → Action (Option ℕ)
  mysql_init p d = let q = lib.init_object p d.calls in (record d { calls = init q ∷ d.calls }, q)

  abbrev pub mysql_real_connect : Option ℕ → (Db → Parm) → Action Bool
  mysql_real_connect p parm d =
      let ok = lib.connects d.calls in (record d { calls = connect p (parm d) ok ∷ d.calls }, ok)

  abbrev pub mysql_real_query : Option ℕ → List ℕ → Action ℤ
  mysql_real_query p text d =
      let d' = record d { calls = query p text ∷ d.calls } in (d', lib.real_query d'.calls)

  -- The four codes upon which a connection is opened again.
  unfoldable pub is_lost : ℤ → Bool
  is_lost e =
      same_ℤ e lib.cr_server_gone_error
      || same_ℤ e lib.cr_server_lost
      || same_ℤ e lib.cr_unknown_error
      || same_ℤ e lib.cr_commands_out_of_sync

  -- `OpenDatabase1`, `OpenDatabase2`, `OpenDBM`
  unfoldable pub open_handler : Slot → Action ℤ
  unfolding close_handler
  open_handler s = do
    p ← get_held s
    q ← mysql_init p
    assign s q
    ok ← mysql_real_connect q (parm_of s)
    elim ok [ true ↦ pure (pos 0) | false ↦ do close_handler s; pure (negsuc 0) ]

  -- The branch of a query that failed: upon one of the four codes the handler is opened again.
  unfoldable pub report_error : Slot → Action ℤ
  report_error s d =
      let e = lib.errno d.calls in
      if is_lost e then (do close_handler s; ignore (open_handler s); pure e) d else (d, e)

  -- The end of each query function. The query is not repeated, and the code is the result.
  unfoldable pub send : Slot → List ℕ → Action ℤ
  send s text = do
    p ← get_held s
    r ← mysql_real_query p text
    if is_zero r then pure r else report_error s

  -- A handler that is null is opened, in two attempts.
  unfoldable pub ensure_open : Slot → Action (Unit {0})
  ensure_open s = do
    p ← get_held s
    elim p [
      | some q ↦ pure tt
      | none ↦ do r ← open_handler s; if is_negative r then ignore (open_handler s) else pure tt
    ]

  -- `ExecQuery1` and `ExecQuery2`, which go on after two attempts that failed.
  unfoldable pub exec_query : Slot → List ℕ → Action ℤ
  exec_query s text = do ensure_open s; send s text

  -- `ExecDBM` and `ExecOrcheDB`, which give up after one attempt that failed.
  unfoldable pub exec_dbm : Slot → List ℕ → Action ℤ
  exec_dbm s text = do
    p ← get_held s
    elim p [
      | some q ↦ send s text
      | none ↦ do r ← open_handler s; if is_negative r then pure (negsuc 0) else send s text
    ]

  unfoldable pub commit_id : Action ℤ
  commit_id = exec_query handler1 commit

  unfoldable pub commit_id2 : Action ℤ
  commit_id2 = exec_query handler2 commit

  unfoldable pub commit_dbm : Action ℤ
  commit_dbm = exec_dbm db_manager commit

  unfoldable pub exec_orche_db : List ℕ → Action ℤ
  exec_orche_db = exec_dbm orchehandler

  unfoldable pub close_database : Action (Unit {0})
  close_database = do close_handler handler1; close_handler handler2; close_handler db_manager

  -- The three handlers are opened in turn; the first that fails ends the call.
  unfoldable pub open_database : Action ℤ
  open_database = do
    r ← open_handler handler1
    if is_negative r then pure r else do
      r' ← open_handler handler2
      if is_negative r' then pure r' else open_handler db_manager

  -- `DatabaseInit` and `OrcheDatabaseInit`
  unfoldable pub database_init : Parm → Action ℤ
  database_init w d = open_database (record d { db_parm = w })

  unfoldable pub open_orche_db : Action ℤ
  open_orche_db = open_handler orchehandler

  unfoldable pub orche_database_init : Parm → Action ℤ
  orche_database_init w d = open_orche_db (record d { orche_db_parm = w })

  unfoldable pub orche_close_database : Action (Unit {0})
  orche_close_database = close_orche_db

  -- The calls that work on the four handlers.
  unfoldable pub serve : Request → Action (Unit {0})
  serve (starts w) = ignore (database_init w)
  serve (starts_orche w) = ignore (orche_database_init w)
  serve (executes1 text) = ignore (exec_query handler1 text)
  serve (executes2 text) = ignore (exec_query handler2 text)
  serve (executes_dbm text) = ignore (exec_dbm db_manager text)
  serve (executes_orche text) = ignore (exec_orche_db text)
  serve commits = ignore commit_id
  serve commits2 = ignore commit_id2
  serve commits_dbm = ignore commit_dbm
  serve closes = close_database
  serve closes_orche = orche_close_database

  unfoldable pub serve_all : List Request → Db → Db
  serve_all [] d = d
  serve_all (r ∷ l) d = serve_all l (serve r d).0
