-- ===== src/Db/Handles/Owned.antt =====
-- Who owns the connections: each handler that is not null is connected, no two share an object, and
-- every object in use is a handler's.
use vnf_monitoring.Prelude.{
  ℕ, ◌≡◌, refl, sym, ◌∙◌, ap, ◌≢◌, ◌⊎◌, inl, inr, Bool, true, false, Option, none, some, ◌∷◌,
  ℕ_discrete, if_pos, if_neg, arith, Bool-cases, Option-cases,
}
use vnf_monitoring.Prelude.Int.{ℤ, pos, negsuc}
use vnf_monitoring.Db.Mysql.{
  init, connect, close, History, Library, Parm, IsDocumented, Status, absent, ready, connected,
  status, Tidy,
}
use vnf_monitoring.Db.Handles.{
  parm_of, Slot, Slot-discrete, Handlers, put, Db, close_handler, open_handler,
}

pub record IsOwned (d : Db) : Type 0 where
  pub live : (s : Slot) (p : ℕ) → d.held s ≡ some p → status p d.calls ≡ connected
  pub apart : (s t : Slot) (p : ℕ) → d.held s ≡ some p → d.held t ≡ some p → s ≡ t
  pub kept : (p : ℕ) → status p d.calls ≢ absent → (s : Slot) × (d.held s ≡ some p)
  pub tidy : Tidy d.calls

pub put_self : (s : Slot) (v : Option ℕ) (f : Handlers) → put s v f s ≡ v
unfolding put
put_self s v f = if_pos (Slot-discrete s s) refl v (f s)

pub put_other : (s t : Slot) (v : Option ℕ) (f : Handlers) → s ≢ t → put s v f t ≡ f t
unfolding put
put_other s t v f n = if_neg (Slot-discrete s t) n v (f t)

-- What a handler holds after a write, by whether it is the one written.
pub put_cases :
    (s t : Slot) (v : Option ℕ) (f : Handlers)
    → ((s ≡ t) × (put s v f t ≡ v)) ⊎ ((s ≢ t) × (put s v f t ≡ f t))
unfolding put
put_cases s t v f = elim (Slot-discrete s t) [
  | yes e ↦ inl (e, if_pos (Slot-discrete s t) e v (f t))
  | no n ↦ inr (n, if_neg (Slot-discrete s t) n v (f t))
]

-- What the calls upon `q` make of an object that is, or is not, `q`.
status_close_ne : (p q : ℕ) (h : History) → p ≢ q → status p (close q ∷ h) ≡ status p h
unfolding status
status_close_ne p q h n = ground arith

module _ (p q : ℕ) (w : Parm) (h : History) where
  status_connect_ne :
      (ok : Bool) → p ≢ q → status p (connect (some q) w ok ∷ init (some q) ∷ h) ≡ status p h
  unfolding status
  status_connect_ne true n = ground arith
  status_connect_ne false n = ground arith

status_close_self : (q : ℕ) (h : History) → status q (close q ∷ h) ≡ absent
unfolding status
status_close_self q h = ground arith

status_init_self : (q : ℕ) (h : History) → status q (init (some q) ∷ h) ≡ ready
unfolding status
status_init_self q h = ground arith

status_connect_self :
    (q : ℕ) (w : Parm) (h : History) → status q (connect (some q) w true ∷ h) ≡ connected
unfolding status
status_connect_self q w h = ground arith

ready_used :
    (q : ℕ) (w : Parm) (h : History)
    → status q (connect (some q) w false ∷ init (some q) ∷ h) ≢ absent
unfolding status
ready_used q w h e = ground arith

not_both : {x : Status} → x ≡ connected → x ≡ absent → ⊥
not_both up gone = cc

some_inj : {p q : ℕ} → some p ≡ some q → p ≡ q
some_inj e = cc

-- A step that concerns the handler `s` and the object `q` alone, and leaves `q` either unused or the
-- connection of `s`.
module _ (s : Slot) (q : ℕ) (d d' : Db) (own : IsOwned d)
    (others : (t : Slot) → s ≢ t → d.held t ≢ some q)
    (elsewhere : (p : ℕ) → d.held s ≡ some p → p ≡ q)
    (frame : (t : Slot) → s ≢ t → d'.held t ≡ d.held t)
    (same : (p : ℕ) → p ≢ q → status p d'.calls ≡ status p d.calls)
    (now : ((d'.held s ≡ none) × (status q d'.calls ≡ absent))
      ⊎ ((d'.held s ≡ some q) × (status q d'.calls ≡ connected))) where
  its_object : (p : ℕ) → d'.held s ≡ some p → (p ≡ q) × (status q d'.calls ≡ connected)
  its_object p e = elim now [ inl (gone, _) ↦ cc | inr (here, up) ↦ (some_inj (sym e ∙ here), up) ]

  not_its : (t : Slot) (p : ℕ) → s ≢ t → d'.held t ≡ some p → p ≢ q
  not_its t p n e same_object = others t n (sym (frame t n) ∙ e ∙ ap some same_object)

  step-live : (t : Slot) (p : ℕ) → d'.held t ≡ some p → status p d'.calls ≡ connected
  step-live t p e = elim (Slot-discrete s t) [
    | yes at ↦ let (is_q, up) = its_object p (ap d'.held at ∙ e) in rw is_q up
    | no n ↦ same p (not_its t p n e) ∙ own.live t p (sym (frame t n) ∙ e)
  ]

  step-apart : (t u : Slot) (p : ℕ) → d'.held t ≡ some p → d'.held u ≡ some p → t ≡ u
  step-apart t u p e f = elim (Slot-discrete s t) [
    | yes at ↦ elim (Slot-discrete s u) [
      | yes at' ↦ sym at ∙ at'
      | no n ↦ absurd (not_its u p n f (its_object p (ap d'.held at ∙ e)).0)
    ]
    | no n ↦ elim (Slot-discrete s u) [
      | yes at' ↦ absurd (not_its t p n e (its_object p (ap d'.held at' ∙ f)).0)
      | no n' ↦ own.apart t u p (sym (frame t n) ∙ e) (sym (frame u n') ∙ f)
    ]
  ]

  step-kept : (p : ℕ) → status p d'.calls ≢ absent → (t : Slot) × (d'.held t ≡ some p)
  step-kept p used = elim (ℕ_discrete p q) [
    | yes is_q ↦ elim now [
      | inl (_, gone) ↦ absurd (used (rw is_q gone))
      | inr (here, _) ↦ (s, here ∙ ap some (sym is_q))
    ]
    | no n ↦
        let (t, e) = own.kept p (λ gone. used (same p n ∙ gone)) in
        (t, frame t (λ at. n (elsewhere p (ap d.held at ∙ e))) ∙ e)
  ]

  step-IsOwned : Tidy d'.calls → IsOwned d'
  step-IsOwned tidy = record { live = step-live; apart = step-apart; kept = step-kept; tidy = tidy }

close_handler_held :
    (s : Slot) (q : ℕ) (d : Db)
    → d.held s ≡ some q
    → close_handler s d ≡ (record d { held = put s none d.held; calls = close q ∷ d.calls }, tt)
unfolding close_handler
close_handler_held s q d e = rw e refl

pub close_handler-IsOwned : (s : Slot) (d : Db) → IsOwned d → IsOwned (close_handler s d).0
unfolding close_handler
close_handler-IsOwned s d own = elim (Option-cases (d.held s)) [
  | inl e ↦ rw e own
  | inr (q, e) ↦ rw e (
      step-IsOwned s q d (record d { held = put s none d.held; calls = close q ∷ d.calls }) own
        (λ t n f. n (own.apart s t q e f)) (λ p f. some_inj (sym f ∙ e))
        (λ t n. put_other s t none d.held n) (λ p n. status_close_ne p q d.calls n)
        (inl (put_self s none d.held, status_close_self q d.calls))
        (λ gone. ground (arith, own.live s q e, gone), own.tidy))
]

-- The call succeeds and the handler is connected, or fails and the handler is null.
abbrev pub Opens : Slot → Db × ℤ → Type 0
Opens s (d', r) =
    IsOwned d'
    × (((r ≡ pos 0) × ((p : ℕ) × (d'.held s ≡ some p))) ⊎ ((r ≡ negsuc 0) × (d'.held s ≡ none)))

-- What `open_handler` does, once it is known which object it works on.
module _ (lib : Library) (s : Slot) (q : ℕ) (d : Db) (own : IsOwned d)
    (others : (t : Slot) → s ≢ t → d.held t ≢ some q)
    (elsewhere : (p : ℕ) → d.held s ≡ some p → p ≡ q)
    (given : lib.init_object (d.held s) d.calls ≡ some q) where
  abbrev begun : History
  begun = init (some q) ∷ d.calls

  abbrev w : Parm
  w = parm_of s (record d { held = put s (some q) d.held; calls = begun })

  abbrev up : Db
  up = record d { held = put s (some q) d.held; calls = connect (some q) w true ∷ begun }

  abbrev down : Db
  down = record d {
    held = put s none (put s (some q) d.held);
    calls = close q ∷ connect (some q) w false ∷ begun;
  }

  abbrev half : Db
  half = record d { held = put s (some q) d.held; calls = connect (some q) w false ∷ begun }

  up-IsOwned : IsOwned up
  up-IsOwned =
      step-IsOwned s q d up own others elsewhere (λ t n. put_other s t (some q) d.held n)
        (λ p n. status_connect_ne p q w d.calls true n)
        (inr (put_self s (some q) d.held, status_connect_self q w begun))
        (status_init_self q d.calls, (tt, own.tidy))

  down-IsOwned : IsOwned down
  down-IsOwned =
      step-IsOwned s q d down own others elsewhere
        (λ t n. put_other s t none (put s (some q) d.held) n ∙ put_other s t (some q) d.held n)
        (λ p n.
          status_close_ne p q (connect (some q) w false ∷ begun) n
          ∙ status_connect_ne p q w d.calls false n)
        (inl (
          put_self s none (put s (some q) d.held),
          status_close_self q (connect (some q) w false ∷ begun),
        ))
        (ready_used q w d.calls, (status_init_self q d.calls, (tt, own.tidy)))

  open_with-Opens : Opens s (open_handler lib s d)
  unfolding open_handler
  open_with-Opens = elim (Bool-cases (lib.connects begun)) [
    | inl e ↦ rw (given, e) (up-IsOwned, inl (refl, (q, put_self s (some q) d.held)))
    | inr e ↦
        rw (given, e, close_handler_held s q half (put_self s (some q) d.held))
          (down-IsOwned, inr (refl, put_self s none (put s (some q) d.held)))
  ]

-- A call on a null handler works on a new object, any other on the handler's own.
pub open_handler-Opens :
    (lib : Library) (s : Slot) (d : Db)
    → IsDocumented lib
    → IsOwned d
    → Opens s (open_handler lib s d)
open_handler-Opens lib s d doc own = elim (Option-cases (d.held s)) [
  | inl e ↦
      let (q, got, unused) = doc.fresh d.calls in
      open_with-Opens lib s q d own (λ t n f. not_both (own.live t q f) unused) (λ p f. cc)
        (rw e got)
  | inr (q, e) ↦
      open_with-Opens lib s q d own (λ t n f. n (own.apart s t q e f)) (λ p f. some_inj (sym f ∙ e))
        (rw e (doc.same q d.calls))
]
