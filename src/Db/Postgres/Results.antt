-- ===== src/Db/Postgres/Results.antt =====
-- Every result that the library hands out is cleared once, whatever it answers.
use vnf_monitoring.Prelude.{
  ℕ, ◌≡◌, refl, inl, inr, Bool, true, false, Option, none, some, List, [], ◌∷◌, ◌==◌, if◌then◌else◌,
  arith, Bool-cases, Option-cases,
}
use vnf_monitoring.Prelude.Int.{ℤ, negsuc}
use vnf_monitoring.Db.Postgres.{
  Call, login, finish, exec, clear, History, Library, Conn, pgconn1, Pq, conn_of, is_command_ok,
  is_tuples_ok, pq_exec_query, pq_exec_select_query, select_number,
}

-- Whether a result is open after a call, if it was or was not before.
abbrev pub open_after : ℕ → Call → Bool → Bool
open_after p (login w q) b = b
open_after p (finish q) b = b
open_after p (exec conn text none) b = b
open_after p (exec conn text (some q)) b = if p == q then true else b
open_after p (clear none) b = b
open_after p (clear (some q)) b = if p == q then false else b

unfoldable pub is_open : ℕ → History → Bool
is_open p [] = false
is_open p (c ∷ h) = open_after p c (is_open p h)

-- A result is cleared only while it is open; to clear the null pointer does nothing.
abbrev pub ClearsOpen : History → Call → Type 0
ClearsOpen h (login w q) = Unit {0}
ClearsOpen h (finish q) = Unit {0}
ClearsOpen h (exec conn text r) = Unit {0}
ClearsOpen h (clear none) = Unit {0}
ClearsOpen h (clear (some q)) = is_open q h ≡ true

abbrev pub Orderly : History → Type 0
Orderly [] = Unit
Orderly (c ∷ h) = ClearsOpen h c × Orderly h

-- A result that `PQexec` returns is not one that is open already.
abbrev pub FreshResults : Library → Type 0
FreshResults lib =
    (conn : Option ℕ) (text : List ℕ) (h : History) (q : ℕ)
    → lib.result conn text h ≡ some q
    → is_open q h ≡ false

-- No result is left open by the new calls, none that was open is cleared, and none is cleared twice.
abbrev pub Balanced : Pq → Pq → Type 0
Balanced d d' =
    ((p : ℕ) → is_open p d'.calls ≡ is_open p d.calls) × (Orderly d.calls → Orderly d'.calls)

-- The two calls that each of the functions comes down to.
abbrev pub asked : Library → Conn → List ℕ → Pq → History
asked lib c text d =
    let r = lib.result (conn_of c d) text d.calls in clear r ∷ exec (conn_of c d) text r ∷ d.calls

is_open_exec :
    (q : ℕ) (conn : Option ℕ) (text : List ℕ) (h : History)
    → is_open q (exec conn text (some q) ∷ h) ≡ true
unfolding is_open
is_open_exec q conn text h = ground arith

-- What the functions call, on every branch.
module _ (lib : Library) (c : Conn) (text : List ℕ) (d : Pq) where
  pub pq_exec_query-calls : (pq_exec_query lib c text d).0.calls ≡ asked lib c text d
  unfolding pq_exec_query
  pq_exec_query-calls = elim (Option-cases (lib.result (conn_of c d) text d.calls)) [
    | inl r ↦ rw (pq_exec_query, r) refl
    | inr (q, r) ↦
        elim (Bool-cases
          (is_command_ok (lib.result_status q (exec (conn_of c d) text (some q) ∷ d.calls)))) [
            | inl e ↦ rw (pq_exec_query, r, e) refl
            | inr e ↦ rw (pq_exec_query, r, e) refl
          ]
  ]

-- A result with rows has a first field, so that `atoi` reads a number.
abbrev pub HasRows : Library → Type 0
HasRows lib =
    (q : ℕ) (h : History)
    → is_tuples_ok (lib.result_status q h) ≡ true
    → (n : ℤ) × (lib.first_number (some q) h ≡ some n)

-- With a row, the result is cleared and a number returned.
pub select_number-calls :
    (lib : Library) (text : List ℕ) (d : Pq)
    → HasRows lib
    → ((select_number lib text d).0.calls ≡ asked lib pgconn1 text d)
      × ((n : ℤ) × ((select_number lib text d).1 ≡ some n))
unfolding select_number pq_exec_select_query
select_number-calls lib text d rows = elim (Option-cases (lib.result d.conn1 text d.calls)) [
  | inl r ↦ rw (select_number, r) (refl, (negsuc 0, refl))
  | inr (q, r) ↦
      let h = exec d.conn1 text (some q) ∷ d.calls in
      elim (Bool-cases (is_tuples_ok (lib.result_status q h))) [
        | inl e ↦
            let (n, first) = rows q h e in
            (rw (select_number, r, e, first, r) refl, (n, rw (select_number, r, e, first) refl))
        | inr e ↦ (rw (select_number, r, e) refl, (negsuc 0, rw (select_number, r, e) refl))
      ]
]

-- Without a row, the program ends with the result of the query open.
pub select_number-crash :
    (lib : Library) (text : List ℕ) (d : Pq) (q : ℕ)
    → lib.result d.conn1 text d.calls ≡ some q
    → is_tuples_ok (lib.result_status q (exec d.conn1 text (some q) ∷ d.calls)) ≡ true
    → lib.first_number (some q) (exec d.conn1 text (some q) ∷ d.calls) ≡ none
    → ((select_number lib text d).1 ≡ none) × (is_open q (select_number lib text d).0.calls ≡ true)
unfolding select_number pq_exec_select_query
select_number-crash lib text d q r e no_row = (
  rw (select_number, r, e, no_row) refl,
  rw (select_number, r, e, no_row) (is_open_exec q d.conn1 text d.calls),
)
