-- ===== src/Db/Handles/Exec.antt =====
-- The query functions: what they send, what they answer, and that the handlers stay in order.
use vnf_monitoring.Prelude.{
  ℕ, suc, ◌≡◌, refl, ap, ◌∙◌, ◌⊎◌, inl, inr, false, none, some, List, ◌∷◌, Bool-cases, Option-cases,
}
use vnf_monitoring.Prelude.Int.{ℤ, negsuc}
use vnf_monitoring.Db.Mysql.{
  init, connect, query, Library, IsDocumented, status, queries, null_queries,
}
use vnf_monitoring.Db.Handles.{
  parm_of, put, Slot, Db, close_handler, open_handler, is_lost, report_error, send, exec_dbm,
  is_zero,
}
use vnf_monitoring.Db.Handles.Owned.{IsOwned, close_handler-IsOwned, open_handler-Opens}

-- No query is among the new calls.
abbrev pub Quiet : Db → Db → Type 0
Quiet d d' = (queries d'.calls ≡ queries d.calls) × (null_queries d'.calls ≡ null_queries d.calls)

pub close_handler-Quiet : (s : Slot) (d : Db) → Quiet d (close_handler s d).0
unfolding close_handler
close_handler-Quiet s d = elim (Option-cases (d.held s)) [
  | inl e ↦ rw (e, close_handler) (refl, refl)
  | inr (q, e) ↦ rw (e, close_handler) (refl, refl)
]

pub open_handler-Quiet : (lib : Library) (s : Slot) (d : Db) → Quiet d (open_handler lib s d).0
unfolding open_handler
open_handler-Quiet lib s d =
    let q = lib.init_object (d.held s) d.calls in
    let begun = init q ∷ d.calls in
    let named = record d { held = put s q d.held; calls = begun } in
    elim (Bool-cases (lib.connects begun)) [
      | inl e ↦ rw e (refl, refl)
      | inr e ↦ rw e (
          close_handler-Quiet s
            (record named { calls = connect q (parm_of s named) false ∷ begun }))
    ]

-- A handler that is opened again after an error.
report_error-Quiet : (lib : Library) (s : Slot) (d : Db) → Quiet d (report_error lib s d).0
unfolding report_error
report_error-Quiet lib s d = elim (Bool-cases (is_lost lib (lib.errno d.calls))) [
  | inl e ↦
      let (q1, n1) = close_handler-Quiet s d in
      let (q2, n2) = open_handler-Quiet lib s (close_handler s d).0 in rw e (q2 ∙ q1, n2 ∙ n1)
  | inr e ↦ rw e (refl, refl)
]

report_error-IsOwned :
    (lib : Library) (s : Slot) (d : Db)
    → IsDocumented lib
    → IsOwned d
    → IsOwned (report_error lib s d).0
unfolding report_error
report_error-IsOwned lib s d doc own = elim (Bool-cases (is_lost lib (lib.errno d.calls))) [
  | inl e ↦
      rw e (open_handler-Opens lib s (close_handler s d).0 doc (close_handler-IsOwned s d own)).0
  | inr e ↦ rw e own
]

-- A query upon a handler that is connected.
query-IsOwned :
    (s : Slot) (q : ℕ) (text : List ℕ) (d : Db)
    → IsOwned d
    → d.held s ≡ some q
    → IsOwned (record d { calls = query (some q) text ∷ d.calls })
unfolding status
query-IsOwned s q text d own e = record {
  live = own.live;
  apart = own.apart;
  kept = own.kept;
  tidy = (own.live s q e, own.tidy);
}

-- What a query function has done that reached the library: one query, with the text.
abbrev pub Sent : List ℕ → Db → Db × ℤ → Type 0
Sent text d (d', r) =
    IsOwned d'
    × (queries d'.calls ≡ text ∷ queries d.calls)
    × (null_queries d'.calls ≡ null_queries d.calls)

pub send-Sent :
    (lib : Library) (s : Slot) (q : ℕ) (text : List ℕ) (d : Db)
    → IsDocumented lib
    → IsOwned d
    → d.held s ≡ some q
    → Sent text d (send lib s text d)
unfolding send
send-Sent lib s q text d doc own e =
    let asked = record d { calls = query (some q) text ∷ d.calls } in
    let fine = query-IsOwned s q text d own e in
    elim (Bool-cases (is_zero (lib.real_query asked.calls))) [
      | inl good ↦ rw (e, good) (fine, refl, refl)
      | inr bad ↦
          let (texts, nulls) = report_error-Quiet lib s asked in
          rw (e, bad) (report_error-IsOwned lib s asked doc fine, texts, nulls)
    ]

-- The query that goes through the null pointer.
null_query-IsOwned :
    (text : List ℕ) (d : Db) → IsOwned d → IsOwned (record d { calls = query none text ∷ d.calls })
unfolding status
null_query-IsOwned text d own = record {
  live = own.live;
  apart = own.apart;
  kept = own.kept;
  tidy = (tt, own.tidy);
}

abbrev pub SentNull : List ℕ → Db → Db × ℤ → Type 0
SentNull text d (d', r) =
    IsOwned d'
    × (queries d'.calls ≡ text ∷ queries d.calls)
    × (null_queries d'.calls ≡ suc (null_queries d.calls))

pub send-SentNull :
    (lib : Library) (s : Slot) (text : List ℕ) (d : Db)
    → IsDocumented lib
    → IsOwned d
    → d.held s ≡ none
    → SentNull text d (send lib s text d)
unfolding send
send-SentNull lib s text d doc own e =
    let asked = record d { calls = query none text ∷ d.calls } in
    let fine = null_query-IsOwned text d own in
    elim (Bool-cases (is_zero (lib.real_query asked.calls))) [
      | inl good ↦ rw (e, good) (fine, refl, refl)
      | inr bad ↦
          let (texts, nulls) = report_error-Quiet lib s asked in
          rw (e, bad) (report_error-IsOwned lib s asked doc fine, texts, nulls)
    ]

-- A call with a handler in order: if the handler is null and cannot be opened, the answer is -1, the
-- handler stays null and nothing is sent; in every other case the text is sent once, through a
-- connection. The handlers are in order afterwards.
pub exec_dbm_lem :
    (lib : Library) (s : Slot) (text : List ℕ) (d : Db)
    → IsDocumented lib
    → IsOwned d
    → let (d', r) = exec_dbm lib s text d in
      Sent text d (d', r)
      ⊎ (IsOwned d' × (r ≡ negsuc 0) × (d.held s ≡ none) × (d'.held s ≡ none) × Quiet d d')
unfolding exec_dbm
exec_dbm_lem lib s text d doc own = elim (Option-cases (d.held s)) [
  | inr (q, e) ↦ rw (e, exec_dbm) (inl (send-Sent lib s q text d doc own e))
  | inl e ↦
      let (own', how) = open_handler-Opens lib s d doc own in
      let (texts, nulls) = open_handler-Quiet lib s d in
      elim how [
        | inl (r, (q, held)) ↦
            let (still, sent, none_null) =
              send-Sent lib s q text (open_handler lib s d).0 doc own' held in
            rw (e, exec_dbm, r) (inl (still, sent ∙ ap (◌∷◌ text) texts, none_null ∙ nulls))
        | inr (r, held) ↦ rw (e, exec_dbm, r) (inr (own', refl, refl, held, (texts, nulls)))
      ]
]
