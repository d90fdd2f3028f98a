-- ===== src/Host/Config/Total.antt =====
-- The lines that `read_config` of src/HOST/src/host_conf.c reads without a write behind an array.
use vnf_monitoring.Prelude.{
  ℕ, ◌<◌, ◌≤◌, ◌≡◌, ◌≢◌, refl, inl, inr, true, Bool-cases, Option, none, some, Option-cases, List,
  [], ◌∷◌, ltb, length, All, arith, take, Leaves,
}
use vnf_monitoring.Host.Config.{
  Scan, Settings, read_digits, Section, text_to, number_to, sections, run_sections, same_text,
  gettoken, before_comment, words_from, have_room, parse_words, store_words, lineparser,
  read_config,
}
use vnf_monitoring.Host.Config.Laws.{IsSane, read_config-IsSane}

abbrev pub IsDefined : {A : Type 0} → Option A → Type 0
IsDefined {A} o = (a : A) × (o ≡ some a)

-- A word that fits the shortest of the arrays with its end, and is a number only if `sscanf` reads it
-- as one.
abbrev pub IsReadable : Scan → List ℕ → Type 0
IsReadable sc w = (length w < 32) × (read_digits sc w ≢ some none)

abbrev pub words_of : List ℕ → List (List ℕ)
words_of line = take 5 (words_from [] (before_comment line))

-- The words of each line.
abbrev pub AreReadable : Scan → List (List ℕ) → Type 0
AreReadable sc lines = All (λ line. All (IsReadable sc) (words_of line)) lines

abbrev Reads : Scan → Section → Type 0
Reads sc f = (v : List ℕ) (c : Settings) → IsReadable sc v → IsDefined (f v c)

text_to-Reads :
    (sc : Scan) (n : ℕ) (f : List ℕ → Settings → Settings) → 32 ≤ n → Reads sc (text_to n f)
unfolding text_to
text_to-Reads sc n f big v c r =
    let room : ltb (length v) n ≡ true = ground (arith, big, r.0) in
    (f v c, rw (text_to, room) refl)

number_to-Reads : (sc : Scan) (f : ℕ → Settings → Settings) → Reads sc (number_to sc f)
unfolding number_to
number_to-Reads sc f v c r = elim (Option-cases (read_digits sc v)) [
  | inl e ↦ (c, rw (number_to, e) refl)
  | inr (none, e) ↦ absurd (r.1 e)
  | inr (some d, e) ↦ (f d c, rw (number_to, e) refl)
]

-- A pair, written without its brackets.
infixr 20 ◌∷∷◌
abbrev ◌∷∷◌ : {X Y : Type 0} → X → Y → X × Y
x ∷∷ y = (x, y)

sections-Read : (sc : Scan) → All (λ e. Reads sc e.1) (sections sc)
unfolding sections
sections-Read sc =
    (text_to-Reads sc 128 _ (omega arith))
    ∷∷ (number_to-Reads sc _)
    ∷∷ (text_to-Reads sc 32 _ (omega arith))
    ∷∷ (text_to-Reads sc 32 _ (omega arith))
    ∷∷ (text_to-Reads sc 32 _ (omega arith))
    ∷∷ (text_to-Reads sc 32 _ (omega arith))
    ∷∷ (text_to-Reads sc 32 _ (omega arith))
    ∷∷ (text_to-Reads sc 32 _ (omega arith))
    ∷∷ (text_to-Reads sc 32 _ (omega arith))
    ∷∷ (text_to-Reads sc 32 _ (omega arith))
    ∷∷ (text_to-Reads sc 32 _ (omega arith))
    ∷∷ (number_to-Reads sc _)
    ∷∷ (number_to-Reads sc _)
    ∷∷ (number_to-Reads sc _)
    ∷∷ (number_to-Reads sc _)
    ∷∷ (number_to-Reads sc _)
    ∷∷ (number_to-Reads sc _)
    ∷∷ tt

run_sections-IsDefined :
    (sc : Scan) (l : List (List ℕ × Section)) (name value : List ℕ) (c : Settings)
    → All (λ e. Reads sc e.1) l
    → IsReadable sc value
    → IsDefined (run_sections l name value c)
unfolding run_sections
run_sections-IsDefined sc [] name value c k r = (c, refl)
run_sections-IsDefined sc ((key, f) ∷ l) name value c k r = elim (Bool-cases (same_text name key)) [
  | inr e ↦ rw (run_sections, e) (run_sections-IsDefined sc l name value c k.1 r)
  | inl e ↦
      let (d, g) = k.0 value c r in
      rw (run_sections, e, g) (run_sections-IsDefined sc l name value d k.1 r)
]

parse_words-IsDefined :
    (sc : Scan) (l : List (List ℕ)) (c : Settings)
    → All (IsReadable sc) l
    → IsDefined (parse_words sc l c)
unfolding parse_words gettoken
parse_words-IsDefined sc [] c r = (c, refl)
parse_words-IsDefined sc (a ∷ []) c r = (c, refl)
parse_words-IsDefined sc (a ∷ b ∷ []) c r = (c, refl)
parse_words-IsDefined sc (name ∷ sign ∷ value ∷ []) c (r0, (r1, (r2, u))) =
    run_sections-IsDefined sc (sections sc) name value c (sections-Read sc) r2
parse_words-IsDefined sc (a ∷ b ∷ d ∷ e ∷ l) c r = (c, refl)

pub have_room-AreReadable :
    (sc : Scan) (l : List (List ℕ)) → All (IsReadable sc) l → have_room l ≡ true
have_room-AreReadable sc [] r = refl
have_room-AreReadable sc (w ∷ l) (r, rest) = ground (arith, r.0, have_room-AreReadable sc l rest)

lineparser-IsDefined :
    (sc : Scan) (line : List ℕ) (c : Settings)
    → All (IsReadable sc) (words_of line)
    → IsDefined (lineparser sc line c)
unfolding lineparser store_words
lineparser-IsDefined sc line c r =
    rw (lineparser, store_words, have_room-AreReadable sc (words_of line) r)
      (parse_words-IsDefined sc (words_of line) c r)

read_config-IsDefined :
    (sc : Scan) (lines : List (List ℕ)) (c : Settings)
    → AreReadable sc lines
    → IsDefined (read_config sc lines c)
unfolding read_config
read_config-IsDefined sc [] c r = (c, refl)
read_config-IsDefined sc (line ∷ l) c r =
    let (d, e) = lineparser-IsDefined sc line c r.0 in
    rw (read_config, e) (read_config-IsDefined sc l d r.1)

-- Where each of the words of the lines has at most 31 bytes, and `sscanf` reads a number from each
-- that `Isdigit` accepts, `read_config` comes to its end without a write behind an array or a use of
-- a number that was not read; and if the settings that it finds are sane, so are those that it
-- leaves: the interval is 5, 10, 20, 30 or 60 seconds, each mode is 0 or 1, and each text has room
-- for its end.
pub read_config_total :
    (sc : Scan) (lines : List (List ℕ)) (c : Settings)
    → AreReadable sc lines
    → IsSane c
    → (d : Settings) × (read_config sc lines c ≡ some d) × IsSane d
read_config_total sc lines c r s =
    let (d, e) = read_config-IsDefined sc lines c r in
    let sane : Leaves IsSane (some d) = rw e at (read_config-IsSane sc lines c s) in (d, e, sane)
