-- ===== src/Db/Handles/Caller.antt =====
-- The connections that a caller keeps itself: `OpenDBHandler`, `CloseDBHandler`, `ExecQuery` and
-- `ExecCommit` of src/DBMB/src/dbmb_main.c. The handler is an argument, so what the functions assign
-- to it is not seen by the caller.
use vnf_monitoring.Prelude.{
  ℕ, ◌≡◌, refl, ◌≢◌, true, false, Option, none, some, List, ◌∷◌, if◌then◌else◌, arith, Bool-cases,
  inl, inr,
}
use vnf_monitoring.Prelude.Int.{ℤ, negsuc}
use vnf_monitoring.Db.Mysql.{init, connect, query, close, Library, status, connected, absent}
use vnf_monitoring.Db.Handles.{
  Slot, Db, Action, pure, ◌>>=◌, ◌>>◌, ignore, emit, mysql_init, mysql_real_connect,
  mysql_real_query, is_lost, is_zero, commit,
}

pub close_db_handler : Option ℕ → Action (Unit {0})
close_db_handler none = pure tt
close_db_handler (some q) = emit (close q)

module _ (lib : Library) where
  pub open_db_handler : Action (Option ℕ)
  open_db_handler = do
    q ← mysql_init lib none
    ok ← mysql_real_connect lib q (λ d. d.db_parm)
    elim ok [ true ↦ pure q | false ↦ do close_db_handler q; pure none ]

  -- The call of the library upon a handler, and what follows an error.
  pub ask : Option ℕ → List ℕ → Action ℤ
  ask h text = do
    r ← mysql_real_query lib h text
    if is_zero r then pure r else λ d.
        let e = lib.errno d.calls in
        if is_lost lib e then (do close_db_handler h; ignore open_db_handler; pure e) d else (d, e)

  -- `ExecQuery`
  pub exec_handle : Option ℕ → List ℕ → Action ℤ
  exec_handle none text = do
    h ← open_db_handler
    elim h [ none ↦ pure (negsuc 0) | some q ↦ ask (some q) text ]
  exec_handle (some q) text = ask (some q) text

  pub exec_commit : Option ℕ → Action ℤ
  exec_commit h = exec_handle h commit

-- The new object of `open_db_handler`, and what becomes of an older one.
module _ (lib : Library) (d : Db) (q : ℕ) (given : lib.init_object none d.calls ≡ some q) where
  open_db_handler_up :
      lib.connects (init (some q) ∷ d.calls) ≡ true
      → open_db_handler lib d
        ≡ (record d { calls = connect (some q) d.db_parm true ∷ init (some q) ∷ d.calls }, some q)
  unfolding open_db_handler
  open_db_handler_up up = rw (given, up, given) refl

  open_db_handler_down :
      lib.connects (init (some q) ∷ d.calls) ≡ false
      → open_db_handler lib d ≡ (
        record d { calls = close q ∷ connect (some q) d.db_parm false ∷ init (some q) ∷ d.calls },
        none,
      )
  unfolding open_db_handler close_db_handler
  open_db_handler_down down = rw (given, down, given) refl

-- A query through the caller's connection `p` that fails with one of the four codes closes `p`, and
-- connects a new object `q` if that succeeds. The caller gets the code alone, and none of the four
-- global handlers holds `q`: unless `q` has the address of `p`, the caller is left with a closed
-- connection, and the new one stays open and is nobody's.
pub exec_handle-lost :
    (lib : Library) (p q : ℕ) (text : List ℕ) (d : Db)
    → let asked = query (some p) text ∷ d.calls in
      let closed = close p ∷ asked in
      let (d', r) = exec_handle lib (some p) text d in
      is_zero (lib.real_query asked) ≡ false
      → is_lost lib (lib.errno asked) ≡ true
      → lib.init_object none closed ≡ some q
      → q ≢ p
      → ((s : Slot) → d.held s ≢ some q)
      → (r ≡ lib.errno asked)
        × (status p d'.calls ≡ absent)
        × (status q d'.calls
            ≡ (if lib.connects (init (some q) ∷ closed) then connected else absent))
        × ((s : Slot) → d'.held s ≢ some q)
unfolding exec_handle ask close_db_handler status
exec_handle-lost lib p q text d bad lost given n free =
    let closed = close p ∷ query (some p) text ∷ d.calls in
    let after_close = record d { calls = closed } in
    elim (Bool-cases (lib.connects (init (some q) ∷ closed))) [
      | inl up ↦
          rw (bad, lost, up, open_db_handler_up lib after_close q given up)
            (refl, ground arith, ground arith, free)
      | inr down ↦
          rw (bad, lost, down, open_db_handler_down lib after_close q given down)
            (refl, ground arith, ground arith, free)
    ]
