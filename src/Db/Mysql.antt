-- ===== src/Db/Mysql.antt =====
-- The MySQL client library as src/DBMB/src/dbmb_main.c calls it. The library is not part of the
-- repository: what it answers is a parameter, which may depend on every call made before, and the
-- calls are kept, the newest first, so that their order can be judged.
use vnf_monitoring.Prelude.{
  ℕ, suc, ◌≡◌, ◌≢◌, Bool, true, false, Option, none, some, List, [], ◌∷◌, ◌==◌, if◌then◌else◌,
}
use vnf_monitoring.Prelude.Int.{ℤ}

-- `DBParm_t`
pub record Parm : Type 0 where
  pub address : List ℕ
  pub user_id : List ℕ
  pub password : List ℕ
  pub db_name : List ℕ
  pub port : ℕ

-- A call, with the object that it is given; `none` is the null pointer. `init` has the object that
-- the call returned; `connect` has the parameters, and whether it succeeded.
pub data Call : Type 0 where
  init : Option ℕ → Call
  connect : Option ℕ → Parm → Bool → Call
  query : Option ℕ → List ℕ → Call
  close : ℕ → Call

abbrev pub History : Type 0
History = List Call

-- The answers, for the calls so far: the object of `mysql_init` for its argument, the success of
-- `mysql_real_connect`, the values of `mysql_real_query` and `mysql_errno`; and the four codes of
-- errmsg.h that the source names.
pub record Library : Type 0 where
  pub init_object : Option ℕ → History → Option ℕ
  pub connects : History → Bool
  pub real_query : History → ℤ
  pub errno : History → ℤ
  pub cr_server_gone_error : ℤ
  pub cr_server_lost : ℤ
  pub cr_unknown_error : ℤ
  pub cr_commands_out_of_sync : ℤ

-- What the calls have made of an object.
pub data Status : Type 0 where
  absent ready connected : Status

abbrev pub after : ℕ → Call → Status → Status
after p (init none) s = s
after p (init (some q)) s = if p == q then ready else s
after p (connect none w ok) s = s
after p (connect (some q) w true) s = if p == q then connected else s
after p (connect (some q) w false) s = s
after p (query q text) s = s
after p (close q) s = if p == q then absent else s

unfoldable pub status : ℕ → History → Status
status p [] = absent
status p (c ∷ h) = after p c (status p h)

-- The calls that the library's manual permits: a connection is made on an object that was
-- initialised and is not connected, a query goes through a connection, and what is closed was not
-- closed before.
abbrev pub Permitted : History → Call → Type 0
Permitted h (init q) = Unit {0}
Permitted h (connect none w ok) = ⊥
Permitted h (connect (some q) w ok) = status q h ≡ ready
Permitted h (query none text) = ⊥
Permitted h (query (some q) text) = status q h ≡ connected
Permitted h (close q) = status q h ≢ absent

-- A query through the null pointer.
abbrev pub is_null_query : Call → Bool
is_null_query (query none text) = true
is_null_query (init q) = false
is_null_query (connect q w ok) = false
is_null_query (query (some q) text) = false
is_null_query (close q) = false

-- Every call is permitted, or is a query through the null pointer.
abbrev pub Tidy : History → Type 0
Tidy [] = Unit
Tidy (c ∷ h) = (if is_null_query c then Unit {0} else Permitted h c) × Tidy h

abbrev pub null_queries : History → ℕ
null_queries [] = 0
null_queries (c ∷ h) = let n = null_queries h in if is_null_query c then suc n else n

-- The queries with their texts.
abbrev pub queries : History → List (List ℕ)
queries [] = []
queries (query q text ∷ h) = text ∷ queries h
queries (init q ∷ h) = queries h
queries (connect q w ok ∷ h) = queries h
queries (close q ∷ h) = queries h

-- What the manual says of `mysql_init`, while there is memory: an object that it is given comes
-- back, and a new one is none that is in use.
pub record IsDocumented (lib : Library) : Type 0 where
  pub same : (p : ℕ) (h : History) → lib.init_object (some p) h ≡ some p
  pub fresh : (h : History) → (p : ℕ) × (lib.init_object none h ≡ some p) × (status p h ≡ absent)
