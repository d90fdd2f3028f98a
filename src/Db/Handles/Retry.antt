-- ===== src/Db/Handles/Retry.antt =====
-- `ExecQuery1` and `ExecQuery2` of src/DBMB/src/dbmb_main.c, which try twice to open a null handler
-- and send the query whatever comes of it.
use vnf_monitoring.Prelude.{
  ℕ, suc, ◌≡◌, refl, ap, ◌∙◌, ◌⊎◌, inl, inr, none, some, List, ◌∷◌, Option-cases,
}
use vnf_monitoring.Prelude.Int.{pos, negsuc}
use vnf_monitoring.Db.Mysql.{Library, IsDocumented}
use vnf_monitoring.Db.Handles.{Slot, Db, open_handler, ensure_open, exec_query}
use vnf_monitoring.Db.Handles.Owned.{IsOwned, open_handler-Opens}
use vnf_monitoring.Db.Handles.Exec.{
  Quiet, open_handler-Quiet, Sent, SentNull, send-Sent, send-SentNull,
}

-- The calls that `ensure_open` comes down to.
ensure_open_held :
    (lib : Library) (s : Slot) (q : ℕ) (d : Db) → d.held s ≡ some q → (ensure_open lib s d).0 ≡ d
unfolding ensure_open
ensure_open_held lib s q d e = rw (ensure_open, e) refl

ensure_open_once :
    (lib : Library) (s : Slot) (d : Db)
    → d.held s ≡ none
    → (open_handler lib s d).1 ≡ pos 0
    → (ensure_open lib s d).0 ≡ (open_handler lib s d).0
unfolding ensure_open
ensure_open_once lib s d e r = rw (ensure_open, e, r) refl

ensure_open_twice :
    (lib : Library) (s : Slot) (d : Db)
    → d.held s ≡ none
    → (open_handler lib s d).1 ≡ negsuc 0
    → (ensure_open lib s d).0 ≡ (open_handler lib s (open_handler lib s d).0).0
unfolding ensure_open
ensure_open_twice lib s d e r = rw (ensure_open, e, r) refl

-- What the attempts to open a null handler lead to.
ensure_open_lem :
    (lib : Library) (s : Slot) (d : Db)
    → IsDocumented lib
    → IsOwned d
    → let d' = (ensure_open lib s d).0 in
      IsOwned d'
      × Quiet d d'
      × (((q : ℕ) × (d'.held s ≡ some q))
          ⊎ ((d'.held s ≡ none)
              × (d.held s ≡ none)
              × ((open_handler lib s d).1 ≡ negsuc 0)
              × ((open_handler lib s (open_handler lib s d).0).1 ≡ negsuc 0)))
ensure_open_lem lib s d doc own = elim (Option-cases (d.held s)) [
  | inr (q, e) ↦ rw (ensure_open_held lib s q d e) (own, (refl, refl), inl (q, e))
  | inl e ↦
      let (own', how) = open_handler-Opens lib s d doc own in
      let (texts, nulls) = open_handler-Quiet lib s d in
      elim how [
        | inl (r, held) ↦ rw (ensure_open_once lib s d e r) (own', (texts, nulls), inl held)
        | inr (r, held) ↦
            let d2 = (open_handler lib s d).0 in
            let (own2, how2) = open_handler-Opens lib s d2 doc own' in
            let (texts2, nulls2) = open_handler-Quiet lib s d2 in
            rw (ensure_open_twice lib s d e r) (
              own2,
              (texts2 ∙ texts, nulls2 ∙ nulls),
              elim how2 [ inl (r2, held2) ↦ inl held2 | inr (r2, held2) ↦ inr (held2, e, r, r2) ],
            )
      ]
]

-- A call with a handler in order sends its text once, through a connection, unless the handler is
-- null and two attempts to open it fail: then the text goes through the null pointer. The handlers
-- are in order afterwards.
pub exec_query_lem :
    (lib : Library) (s : Slot) (text : List ℕ) (d : Db)
    → IsDocumented lib
    → IsOwned d
    → let (d', r) = exec_query lib s text d in
      Sent text d (d', r)
      ⊎ (SentNull text d (d', r)
          × (d.held s ≡ none)
          × ((open_handler lib s d).1 ≡ negsuc 0)
          × ((open_handler lib s (open_handler lib s d).0).1 ≡ negsuc 0))
unfolding exec_query
exec_query_lem lib s text d doc own =
    let d1 = (ensure_open lib s d).0 in
    let (own1, (texts, nulls), how) = ensure_open_lem lib s d doc own in
    elim how [
      | inl (q, e) ↦
          let (own2, sent, none_null) = send-Sent lib s q text d1 doc own1 e in
          inl (own2, sent ∙ ap (◌∷◌ text) texts, none_null ∙ nulls)
      | inr (gone, null, first, second) ↦
          let (own2, sent, one_null) = send-SentNull lib s text d1 doc own1 gone in
          inr ((own2, sent ∙ ap (◌∷◌ text) texts, one_null ∙ ap suc nulls), null, first, second)
    ]
