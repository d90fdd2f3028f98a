-- ===== src/Db/Handles/Runs.antt =====
-- Any calls in any order, from the start of the process on.
use vnf_monitoring.Prelude.{ℕ, refl, inl, inr, none, List, [], ◌∷◌, Bool-cases}
use vnf_monitoring.Db.Mysql.{Library, IsDocumented, Parm, status}
use vnf_monitoring.Db.Handles.{
  Slot, handler1, handler2, db_manager, orchehandler, Db, Request, starts, starts_orche, executes1,
  executes2, executes_dbm, executes_orche, commits, commits2, commits_dbm, closes, closes_orche,
  open_handler, exec_query, exec_dbm, commit_id, commit_id2, commit_dbm, exec_orche_db,
  close_database, orche_close_database, close_orche_db, open_orche_db, open_database, database_init,
  orche_database_init, is_negative, serve, serve_all,
}
use vnf_monitoring.Db.Handles.Owned.{IsOwned, close_handler-IsOwned, open_handler-Opens}
use vnf_monitoring.Db.Handles.Exec.{exec_dbm_lem}
use vnf_monitoring.Db.Handles.Retry.{exec_query_lem}

module _ (lib : Library) (doc : IsDocumented lib) where
  exec_query-IsOwned :
      (s : Slot) (text : List ℕ) (d : Db) → IsOwned d → IsOwned (exec_query lib s text d).0
  exec_query-IsOwned s text d own = elim (exec_query_lem lib s text d doc own) [
    | inl sent ↦ sent.0
    | inr (sent, _, _, _) ↦ sent.0
  ]

  exec_dbm-IsOwned :
      (s : Slot) (text : List ℕ) (d : Db) → IsOwned d → IsOwned (exec_dbm lib s text d).0
  exec_dbm-IsOwned s text d own = elim (exec_dbm_lem lib s text d doc own) [
    | inl sent ↦ sent.0
    | inr refused ↦ refused.0
  ]

  open_handler-IsOwned : (s : Slot) (d : Db) → IsOwned d → IsOwned (open_handler lib s d).0
  open_handler-IsOwned s d own = (open_handler-Opens lib s d doc own).0

  close_database-IsOwned : (d : Db) → IsOwned d → IsOwned (close_database lib d).0
  unfolding close_database
  close_database-IsOwned d own =
      close_handler-IsOwned db_manager _
        (close_handler-IsOwned handler2 _ (close_handler-IsOwned handler1 d own))

  open_database-IsOwned : (d : Db) → IsOwned d → IsOwned (open_database lib d).0
  unfolding open_database
  open_database-IsOwned d own =
      let d1 = (open_handler lib handler1 d).0 in
      let own1 = open_handler-IsOwned handler1 d own in
      let own2 = open_handler-IsOwned handler2 d1 own1 in
      elim (Bool-cases (is_negative (open_handler lib handler1 d).1)) [
        | inl e ↦ rw e own1
        | inr e ↦ elim (Bool-cases (is_negative (open_handler lib handler2 d1).1)) [
          | inl f ↦ rw (e, f) own2
          | inr f ↦
              rw (e, f) (open_handler-IsOwned db_manager (open_handler lib handler2 d1).0 own2)
        ]
      ]

  parms-IsOwned :
      (v w : Parm) (d : Db) → IsOwned d → IsOwned (record d { db_parm = v; orche_db_parm = w })
  parms-IsOwned v w d own = record {
    live = own.live;
    apart = own.apart;
    kept = own.kept;
    tidy = own.tidy;
  }

  serve-IsOwned : (r : Request) (d : Db) → IsOwned d → IsOwned (serve lib r d).0
  unfolding serve database_init orche_database_init commit_id commit_id2 commit_dbm exec_orche_db
      orche_close_database close_orche_db open_orche_db
  serve-IsOwned (starts w) d own = open_database-IsOwned _ (parms-IsOwned w d.orche_db_parm d own)
  serve-IsOwned (starts_orche w) d own =
      open_handler-IsOwned orchehandler _ (parms-IsOwned d.db_parm w d own)
  serve-IsOwned (executes1 text) d own = exec_query-IsOwned handler1 text d own
  serve-IsOwned (executes2 text) d own = exec_query-IsOwned handler2 text d own
  serve-IsOwned (executes_dbm text) d own = exec_dbm-IsOwned db_manager text d own
  serve-IsOwned (executes_orche text) d own = exec_dbm-IsOwned orchehandler text d own
  serve-IsOwned commits d own = exec_query-IsOwned handler1 _ d own
  serve-IsOwned commits2 d own = exec_query-IsOwned handler2 _ d own
  serve-IsOwned commits_dbm d own = exec_dbm-IsOwned db_manager _ d own
  serve-IsOwned closes d own = close_database-IsOwned d own
  serve-IsOwned closes_orche d own = close_handler-IsOwned orchehandler d own

  runs_from-IsOwned : (l : List Request) (d : Db) → IsOwned d → IsOwned (serve_all lib l d)
  unfolding serve_all
  runs_from-IsOwned [] d own = own
  runs_from-IsOwned (r ∷ l) d own = runs_from-IsOwned l (serve lib r d).0 (serve-IsOwned r d own)

-- The globals before any call.
abbrev pub booted : Parm → Db
booted w = record { held = λ s. none; db_parm = w; orche_db_parm = w; calls = [] }

pub booted-IsOwned : (w : Parm) → IsOwned (booted w)
unfolding status
booted-IsOwned w = record {
  live = λ s p e. cc;
  apart = λ s t p e f. cc;
  kept = λ p used. absurd (used refl);
  tidy = tt;
}

-- Whatever the client library answers, after any calls in any order each handler that is not null is
-- connected, no two handlers share a connection, every object that is in use is a handler's, and no
-- object was used or closed when it was not open.
pub serve_all-IsOwned :
    (lib : Library) (w : Parm) (l : List Request)
    → IsDocumented lib
    → IsOwned (serve_all lib l (booted w))
serve_all-IsOwned lib w l doc = runs_from-IsOwned lib doc l (booted w) (booted-IsOwned w)
