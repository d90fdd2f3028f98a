-- ===== src/Host/Config.antt =====
-- The configuration file: `Isdigit`, `Gettoken`, `Lineparser` and the loop of `read_config` of
-- src/HOST/src/host_conf.c. Texts are the bytes in front of the terminating zero; `none` is a write
-- behind the end of an array or a read of a variable that was never set. `sscanf` of a number and
-- `inet_addr` are parameters.
pub mod Laws
pub mod Total
pub mod Lines
use vnf_monitoring.Prelude.{
  ℕ, zero, suc, ◌+◌, ◌*◌, ◌%◌, ◌^◌, Bool, true, false, ◌&&◌, ◌||◌, Option, none, some, List, [],
  ◌∷◌, ◌++◌, ◌==◌, ltb, leb, length, take, drop, codes, if◌then◌else◌,
}

-- What `sscanf` makes of a text, `none` where it converts nothing, and `inet_addr`.
pub record Scan : Type 0 where
  pub scan_u : List ℕ → Option ℕ
  pub scan_x : List ℕ → Option ℕ
  pub inet_addr : List ℕ → ℕ

-- What the file sets: fields of `hostConf` and `tlink`, and the three intervals. The last two of
-- these are the bits of an `int`.
pub record Settings : Type 0 where
  pub addr : List ℕ
  pub host_ip : ℕ
  pub port : ℕ
  pub host_port : ℕ
  pub nova_dbaddr : List ℕ
  pub nova_dbpass : List ℕ
  pub nova_dbuserid : List ℕ
  pub nova_dbname : List ℕ
  pub orche_dbaddr : List ℕ
  pub orche_dbuserid : List ℕ
  pub orche_dbpass : List ℕ
  pub orche_dbname : List ℕ
  pub orche_dbschema : List ℕ
  pub orche_dbport : ℕ
  pub check_vmcstatus_sec : ℕ
  pub check_tcpstatus_min : ℕ
  pub check_watchdog_msec : ℕ
  pub baremetal_mode : ℕ
  pub cloud_mode : ℕ

-- The host server's `InitVariable`, and the intervals of src/HOST/src/host_main.c.
abbrev pub default_settings : Settings
default_settings = record {
  addr = codes "127.0.0.1";
  host_ip = 0;
  port = 17000;
  host_port = 0;
  nova_dbaddr = codes "127.0.0.1";
  nova_dbpass = codes "openstack";
  nova_dbuserid = codes "root";
  nova_dbname = codes "nova";
  orche_dbaddr = codes "127.0.0.1";
  orche_dbuserid = codes "bypass";
  orche_dbpass = codes "by!234";
  orche_dbname = codes "sdi";
  orche_dbschema = [];
  orche_dbport = 5432;
  check_vmcstatus_sec = 5;
  check_tcpstatus_min = 3;
  check_watchdog_msec = 2000;
  baremetal_mode = 0;
  cloud_mode = 0;
}

abbrev pub all_of : (ℕ → Bool) → List ℕ → Bool
all_of p [] = true
all_of p (c ∷ l) = p c && all_of p l

abbrev pub same_text : List ℕ → List ℕ → Bool
same_text [] [] = true
same_text [] (d ∷ l) = false
same_text (c ∷ k) [] = false
same_text (c ∷ k) (d ∷ l) = (c == d) && same_text k l

-- `isdigit`, `isxdigit` and `isspace` in the C locale.
abbrev pub is_digit : ℕ → Bool
is_digit c = leb 48 c && leb c 57

abbrev pub is_xdigit : ℕ → Bool
is_xdigit c = is_digit c || ((leb 65 c && leb c 70) || (leb 97 c && leb c 102))

abbrev pub is_space : ℕ → Bool
is_space c = (c == 32) || (leb 9 c && leb c 13)

abbrev pub has_0x : List ℕ → Bool
has_0x (c ∷ d ∷ l) = (c == 48) && ((d == 120) || (d == 88))
has_0x l = false

-- `Isdigit`: `none` for 0, else what `*c` is then, `none` where it was not set.
unfoldable pub read_digits : Scan → List ℕ → Option (Option ℕ)
read_digits sc s =
    if has_0x s
    then (if all_of is_xdigit (drop 2 s) then some (sc.scan_x s) else none)
    else (if all_of is_digit s then some (sc.scan_u s) else none)

-- The sections of `Gettoken`. A text goes to an array of `n` bytes; a number changes a setting, and a
-- text that is no number changes nothing.
abbrev pub Section : Type 0
Section = List ℕ → Settings → Option Settings

unfoldable pub text_to : ℕ → (List ℕ → Settings → Settings) → Section
text_to n f value c = if ltb (length value) n then some (f value c) else none

unfoldable pub number_to : Scan → (ℕ → Settings → Settings) → Section
number_to sc f value c = elim (read_digits sc value) [
  | none ↦ some c
  | some none ↦ none
  | some (some d) ↦ some (f d c)
]

-- The interval of the check of the machines.
unfoldable pub interval : ℕ → ℕ
interval d =
    if leb d 5
    then 5
    else (if leb d 10 then 10 else (if leb d 20 then 20 else (if leb d 30 then 30 else 60)))

pub mode_of : ℕ → ℕ
mode_of d = if ltb 0 d then 1 else 0

-- The names, and what their sections do.
unfoldable pub sections : Scan → List (List ℕ × Section)
sections sc =
    (codes "HOST_ADDRESS", text_to 128 (λ v c. record c { addr = v; host_ip = sc.inet_addr v }))
    ∷ (codes "HOST_PORT", number_to sc (λ d c. record c { port = d; host_port = d % 2 ^ 16 }))
    ∷ (codes "NOVA_DB_ADDRESS", text_to 32 (λ v c. record c { nova_dbaddr = v }))
    ∷ (codes "NOVA_DB_PASSWORD", text_to 32 (λ v c. record c { nova_dbpass = v }))
    ∷ (codes "NOVA_DB_USERNAME", text_to 32 (λ v c. record c { nova_dbuserid = v }))
    ∷ (codes "NOVA_DB_SCHEMA", text_to 32 (λ v c. record c { nova_dbname = v }))
    ∷ (codes "ORCHE_DB_ADDRESS", text_to 32 (λ v c. record c { orche_dbaddr = v }))
    ∷ (codes "ORCHE_DB_USERNAME", text_to 32 (λ v c. record c { orche_dbuserid = v }))
    ∷ (codes "ORCHE_DB_PASSWORD", text_to 32 (λ v c. record c { orche_dbpass = v }))
    ∷ (codes "ORCHE_DB_NAME", text_to 32 (λ v c. record c { orche_dbname = v }))
    ∷ (codes "ORCHE_DB_SCHEMA", text_to 32 (λ v c. record c { orche_dbschema = v }))
    ∷ (codes "ORCHE_DB_PORT", number_to sc (λ d c. record c { orche_dbport = d }))
    ∷ (
      codes "CHECK_VMC_STATUS_SEC",
      number_to sc (λ d c. record c { check_vmcstatus_sec = interval d }),
    )
    ∷ (codes "CHECK_TCP_STATUS_MIN", number_to sc (λ d c. record c { check_tcpstatus_min = d }))
    ∷ (
      codes "BYPASS_WATCHDOG_TIME",
      number_to sc (λ d c. record c { check_watchdog_msec = d * 1000 % 2 ^ 32 }),
    )
    ∷ (codes "HOST_BAREMETAL_MODE", number_to sc (λ d c. record c { baremetal_mode = mode_of d }))
    ∷ (codes "HOST_CLOUDE_MODE", number_to sc (λ d c. record c { cloud_mode = mode_of d }))
    ∷ []

-- `Gettoken`: each section in turn, where the name is its own.
unfoldable pub run_sections : List (List ℕ × Section) → List ℕ → List ℕ → Settings → Option Settings
run_sections [] name value c = some c
run_sections ((key, f) ∷ l) name value c = elim (same_text name key) [
  | false ↦ run_sections l name value c
  | true ↦ elim (f value c) [ none ↦ none | some d ↦ run_sections l name value d ]
]

unfoldable pub gettoken : Scan → List ℕ → List ℕ → Settings → Option Settings
gettoken sc name value c = run_sections (sections sc) name value c

-- The loop of `Lineparser`: the text in front of a `#` or the end.
unfoldable pub before_comment : List ℕ → List ℕ
before_comment [] = []
before_comment (c ∷ l) = if (c == 35) || (c == 0) then [] else c ∷ before_comment l

-- The words that `%s` reads one after the other; `word` is the one that has begun.
abbrev pub flush : List ℕ → List (List ℕ)
flush [] = []
flush (c ∷ l) = (c ∷ l) ∷ []

unfoldable pub words_from : List ℕ → List ℕ → List (List ℕ)
words_from word [] = flush word
words_from word (c ∷ l) =
    if is_space c then flush word ++ words_from [] l else words_from (word ++ (c ∷ [])) l

abbrev pub max_str_length : ℕ
max_str_length = 256

-- Each of the words has room in its array.
abbrev pub have_room : List (List ℕ) → Bool
have_room [] = true
have_room (w ∷ l) = ltb (length w) max_str_length && have_room l

-- What follows `sscanf`: three words, of five at most, are a name, a sign and a value.
unfoldable pub parse_words : Scan → List (List ℕ) → Settings → Option Settings
parse_words sc (name ∷ sign ∷ value ∷ []) c = gettoken sc name value c
parse_words sc l c = some c

unfoldable pub store_words : Scan → List (List ℕ) → Settings → Option Settings
store_words sc words c = elim (have_room words) [ false ↦ none | true ↦ parse_words sc words c ]

-- `Lineparser`
unfoldable pub lineparser : Scan → List ℕ → Settings → Option Settings
lineparser sc buf c = store_words sc (take 5 (words_from [] (before_comment buf))) c

-- The loop of `read_config` over the lines that `fgets` gives.
unfoldable pub read_config : Scan → List (List ℕ) → Settings → Option Settings
read_config sc [] c = some c
read_config sc (line ∷ l) c = elim (lineparser sc line c) [
  | none ↦ none
  | some d ↦ read_config sc l d
]
