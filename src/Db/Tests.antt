-- ===== src/Db/Tests.antt =====
-- The database blocks on concrete values.
use vnf_monitoring.Prelude.{
  ℕ, suc, ◌+◌, ◌≡◌, refl, ◌⊎◌, Bool, true, false, Option, none, some, List, [], ◌∷◌, ◌≤◌, ◌≢◌,
  if◌then◌else◌, arith, codes,
}
use vnf_monitoring.Prelude.Int.{ℤ, pos, negsuc}
use vnf_monitoring.Db.Mysql.{
  init, connect, query, close, History, Library, IsDocumented, Parm, status, absent, connected,
  queries, null_queries,
}
use vnf_monitoring.Db.Handles.{
  Slot, handler1, db_manager, Request, starts, executes1, executes_orche, commits_dbm, closes,
  exec_dbm, exec_query, open_handler, serve_all, is_lost, serve, database_init, open_database,
  close_handler, ensure_open, send, report_error, exec_orche_db, close_database, commit_dbm, put,
  Slot-discrete,
}
use vnf_monitoring.Db.Handles.Owned.{IsOwned}
use vnf_monitoring.Db.Handles.Exec.{Sent, SentNull, Quiet, exec_dbm_lem}
use vnf_monitoring.Db.Handles.Retry.{exec_query_lem}
use vnf_monitoring.Db.Handles.Runs.{booted, booted-IsOwned, serve_all-IsOwned}
use vnf_monitoring.Db.Handles.Caller.{exec_handle, exec_handle-lost}

abbrev parm : Parm
parm = record {
  address = codes "10.0.0.1";
  user_id = codes "nova";
  password = codes "secret";
  db_name = codes "nova";
  port = 3306;
}

-- The object after the highest one that a call returned.
abbrev next_object : History → ℕ
next_object [] = 0
next_object (init (some p) ∷ h) = suc (p + next_object h)
next_object (init none ∷ h) = next_object h
next_object (connect none w ok ∷ h) = next_object h
next_object (connect (some q) w ok ∷ h) = suc (q + next_object h)
next_object (query q text ∷ h) = next_object h
next_object (close q ∷ h) = next_object h

abbrev object_for : Option ℕ → History → Option ℕ
object_for (some p) h = some p
object_for none h = some (next_object h)

-- A server that answers every call in the same way.
abbrev server : Bool → ℤ → ℤ → Library
server up result code = record {
  init_object = object_for;
  connects = λ h. up;
  real_query = λ h. result;
  errno = λ h. code;
  cr_server_gone_error = pos 2006;
  cr_server_lost = pos 2013;
  cr_unknown_error = pos 2000;
  cr_commands_out_of_sync = pos 2014;
}

status-next_object : (h : History) (p : ℕ) → next_object h ≤ p → status p h ≡ absent
unfolding status
status-next_object [] p le = refl
status-next_object (init none ∷ h) p le = status-next_object h p le
status-next_object (init (some q) ∷ h) p le = ground (arith, status-next_object h p)
status-next_object (connect none w ok ∷ h) p le = status-next_object h p le
status-next_object (connect (some q) w true ∷ h) p le = ground (arith, status-next_object h p)
status-next_object (connect (some q) w false ∷ h) p le = ground (arith, status-next_object h p)
status-next_object (query q text ∷ h) p le = status-next_object h p le
status-next_object (close q ∷ h) p le = ground (arith, status-next_object h p)

server-IsDocumented : (up : Bool) (result code : ℤ) → IsDocumented (server up result code)
server-IsDocumented up result code = record {
  same = λ p h. refl;
  fresh = λ h. (next_object h, refl, status-next_object h (next_object h) (omega arith));
}

-- A server that takes connections and loses each of them at the first query.
abbrev losing : Library
losing = server true (pos 1) (pos 2006)

abbrev requests : List Request
requests =
    starts parm ∷ executes1 (codes "q") ∷ executes_orche (codes "r") ∷ closes ∷ commits_dbm ∷ []

serve_all-IsOwned_example : IsOwned (serve_all losing requests (booted parm))
serve_all-IsOwned_example =
    serve_all-IsOwned losing parm requests (server-IsDocumented true (pos 1) (pos 2006))

-- Each query is sent once, although each loses its connection.
sent_once :
    queries (serve_all losing requests (booted parm)).calls
    ≡ codes "commit" ∷ codes "r" ∷ codes "q" ∷ []
unfolding serve_all serve database_init open_database open_handler close_handler exec_query
    ensure_open send report_error exec_orche_db exec_dbm close_database commit_dbm is_lost put
    Slot-discrete codes
sent_once = refl

-- The server is away: nothing is sent, and the answer is -1.
exec_dbm_lem_example :
    let d = booted parm in
    let (d', r) = exec_dbm (server false (pos 0) (pos 0)) db_manager (codes "q") d in
    Sent (codes "q") d (d', r)
    ⊎ (IsOwned d'
        × (r ≡ negsuc 0)
        × (d.held db_manager ≡ none)
        × (d'.held db_manager ≡ none)
        × Quiet d d')
exec_dbm_lem_example =
    exec_dbm_lem (server false (pos 0) (pos 0)) db_manager (codes "q") (booted parm)
      (server-IsDocumented false (pos 0) (pos 0)) (booted-IsOwned parm)

exec_query_lem_example :
    let lib = server false (pos 1) (pos 2006) in
    let d = booted parm in
    let (d', r) = exec_query lib handler1 (codes "q") d in
    Sent (codes "q") d (d', r)
    ⊎ (SentNull (codes "q") d (d', r)
        × (d.held handler1 ≡ none)
        × ((open_handler lib handler1 d).1 ≡ negsuc 0)
        × ((open_handler lib handler1 (open_handler lib handler1 d).0).1 ≡ negsuc 0))
exec_query_lem_example =
    exec_query_lem (server false (pos 1) (pos 2006)) handler1 (codes "q") (booted parm)
      (server-IsDocumented false (pos 1) (pos 2006)) (booted-IsOwned parm)

-- The query of a handler that cannot be opened goes through the null pointer.
null_query :
    null_queries (exec_query (server false (pos 1) (pos 2006)) handler1 [] (booted parm)).0.calls
    ≡ 1
unfolding open_handler close_handler exec_query ensure_open send report_error is_lost put
    Slot-discrete
null_query = refl

-- The caller's connection 0 is closed, and connection 2 is nobody's.
exec_handle-lost_example :
    let d = record (booted parm) { calls = connect (some 0) parm true ∷ init (some 0) ∷ [] } in
    let asked = query (some 0) (codes "q") ∷ d.calls in
    let closed = close 0 ∷ asked in
    let (d', r) = exec_handle losing (some 0) (codes "q") d in
    (r ≡ losing.errno asked)
    × (status 0 d'.calls ≡ absent)
    × (status 2 d'.calls ≡ (if losing.connects (init (some 2) ∷ closed) then connected else absent))
    × ((s : Slot) → d'.held s ≢ some 2)
unfolding is_lost
exec_handle-lost_example =
    exec_handle-lost losing 0 2 (codes "q")
      (record (booted parm) { calls = connect (some 0) parm true ∷ init (some 0) ∷ [] }) refl refl
      refl (omega arith) (λ s e. ground (arith, e))
