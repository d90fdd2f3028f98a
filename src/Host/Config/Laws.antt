-- ===== src/Host/Config/Laws.antt =====
-- What a configuration satisfies that `read_config` reads without a write behind an array.
use vnf_monitoring.Prelude.{
  ℕ, ◌≤◌, ◌<◌, ◌≡◌, refl, ◌⊎◌, inl, inr, Bool-cases, none, some, Option-cases, List, [], ◌∷◌, ltb,
  leb, length, All, Leaves, arith, take,
}
use vnf_monitoring.Host.Config.{
  Scan, Settings, read_digits, Section, text_to, number_to, interval, mode_of, sections,
  run_sections, same_text, gettoken, before_comment, words_from, have_room, parse_words,
  store_words, lineparser, read_config,
}

abbrev pub IsInterval : ℕ → Type 0
IsInterval n = (n ≡ 5) ⊎ ((n ≡ 10) ⊎ ((n ≡ 20) ⊎ ((n ≡ 30) ⊎ (n ≡ 60))))

-- The interval is one of five, the modes are flags, and the texts fit their arrays with their ends.
pub record IsSane (c : Settings) : Type 0 where
  pub due : IsInterval c.check_vmcstatus_sec
  pub baremetal : c.baremetal_mode ≤ 1
  pub cloud : c.cloud_mode ≤ 1
  pub address : length c.addr < 128
  pub nova :
      All
        (λ t. length t < 32)
        (c.nova_dbaddr ∷ c.nova_dbpass ∷ c.nova_dbuserid ∷ c.nova_dbname ∷ [])
  pub orche :
      All
        (λ t. length t < 32)
        (c.orche_dbaddr ∷ c.orche_dbuserid ∷ c.orche_dbpass ∷ c.orche_dbname ∷ c.orche_dbschema
          ∷ [])

abbrev Keeps : Section → Type 0
Keeps f = (v : List ℕ) (c : Settings) → IsSane c → Leaves IsSane (f v c)

text_to-Keeps :
    (n : ℕ) (f : List ℕ → Settings → Settings)
    → ((v : List ℕ) (c : Settings) → length v < n → IsSane c → IsSane (f v c))
    → Keeps (text_to n f)
unfolding text_to
text_to-Keeps n f h v c s = elim (Bool-cases (ltb (length v) n)) [
  | inl e ↦ rw (Leaves, text_to, e) (h v c (ground (arith, e)) s)
  | inr e ↦ rw (Leaves, text_to, e) tt
]

number_to-Keeps :
    (sc : Scan) (f : ℕ → Settings → Settings)
    → ((d : ℕ) (c : Settings) → IsSane c → IsSane (f d c))
    → Keeps (number_to sc f)
unfolding number_to
number_to-Keeps sc f h v c s = elim (Option-cases (read_digits sc v)) [
  | inl e ↦ rw (Leaves, number_to, e) s
  | inr (none, e) ↦ rw (Leaves, number_to, e) tt
  | inr (some d, e) ↦ rw (Leaves, number_to, e) (h d c s)
]

pub interval-IsInterval : (d : ℕ) → IsInterval (interval d)
unfolding interval
interval-IsInterval d = elim (Bool-cases (leb d 5)) [
  | inl a ↦ rw (interval, a) (inl refl)
  | inr a ↦ elim (Bool-cases (leb d 10)) [
    | inl b ↦ rw (interval, a, b) (inr (inl refl))
    | inr b ↦ elim (Bool-cases (leb d 20)) [
      | inl e ↦ rw (interval, a, b, e) (inr (inr (inl refl)))
      | inr e ↦ elim (Bool-cases (leb d 30)) [
        | inl f ↦ rw (interval, a, b, e, f) (inr (inr (inr (inl refl))))
        | inr f ↦ rw (interval, a, b, e, f) (inr (inr (inr (inr refl))))
      ]
    ]
  ]
]

mode_of-flag : (d : ℕ) → mode_of d ≤ 1
unfolding mode_of
mode_of-flag d = elim (Bool-cases (ltb 0 d)) [
  | inl e ↦ rw (mode_of, e) (omega arith)
  | inr e ↦ rw (mode_of, e) (omega arith)
]

-- A pair, written without its brackets.
infixr 20 ◌∷∷◌
abbrev ◌∷∷◌ : {X Y : Type 0} → X → Y → X × Y
x ∷∷ y = (x, y)

sections-Keep : (sc : Scan) → All (λ e. Keeps e.1) (sections sc)
unfolding sections
sections-Keep sc =
    (text_to-Keeps 128 _ (λ v c h s. record {
      due = s.due;
      baremetal = s.baremetal;
      cloud = s.cloud;
      address = h;
      nova = s.nova;
      orche = s.orche;
    }))
    ∷∷ (number_to-Keeps sc _ (λ d c s. record {
      due = s.due;
      baremetal = s.baremetal;
      cloud = s.cloud;
      address = s.address;
      nova = s.nova;
      orche = s.orche;
    }))
    ∷∷ (text_to-Keeps 32 _ (λ v c h s. record {
      due = s.due;
      baremetal = s.baremetal;
      cloud = s.cloud;
      address = s.address;
      nova = (h, s.nova.1);
      orche = s.orche;
    }))
    ∷∷ (text_to-Keeps 32 _ (λ v c h s. record {
      due = s.due;
      baremetal = s.baremetal;
      cloud = s.cloud;
      address = s.address;
      nova = (s.nova.0, (h, s.nova.1.1));
      orche = s.orche;
    }))
    ∷∷ (text_to-Keeps 32 _ (λ v c h s. record {
      due = s.due;
      baremetal = s.baremetal;
      cloud = s.cloud;
      address = s.address;
      nova = (s.nova.0, (s.nova.1.0, (h, s.nova.1.1.1)));
      orche = s.orche;
    }))
    ∷∷ (text_to-Keeps 32 _ (λ v c h s. record {
      due = s.due;
      baremetal = s.baremetal;
      cloud = s.cloud;
      address = s.address;
      nova = (s.nova.0, (s.nova.1.0, (s.nova.1.1.0, (h, tt))));
      orche = s.orche;
    }))
    ∷∷ (text_to-Keeps 32 _ (λ v c h s. record {
      due = s.due;
      baremetal = s.baremetal;
      cloud = s.cloud;
      address = s.address;
      nova = s.nova;
      orche = (h, s.orche.1);
    }))
    ∷∷ (text_to-Keeps 32 _ (λ v c h s. record {
      due = s.due;
      baremetal = s.baremetal;
      cloud = s.cloud;
      address = s.address;
      nova = s.nova;
      orche = (s.orche.0, (h, s.orche.1.1));
    }))
    ∷∷ (text_to-Keeps 32 _ (λ v c h s. record {
      due = s.due;
      baremetal = s.baremetal;
      cloud = s.cloud;
      address = s.address;
      nova = s.nova;
      orche = (s.orche.0, (s.orche.1.0, (h, s.orche.1.1.1)));
    }))
    ∷∷ (text_to-Keeps 32 _ (λ v c h s. record {
      due = s.due;
      baremetal = s.baremetal;
      cloud = s.cloud;
      address = s.address;
      nova = s.nova;
      orche = (s.orche.0, (s.orche.1.0, (s.orche.1.1.0, (h, s.orche.1.1.1.1))));
    }))
    ∷∷ (text_to-Keeps 32 _ (λ v c h s. record {
      due = s.due;
      baremetal = s.baremetal;
      cloud = s.cloud;
      address = s.address;
      nova = s.nova;
      orche = (s.orche.0, (s.orche.1.0, (s.orche.1.1.0, (s.orche.1.1.1.0, (h, tt)))));
    }))
    ∷∷ (number_to-Keeps sc _ (λ d c s. record {
      due = s.due;
      baremetal = s.baremetal;
      cloud = s.cloud;
      address = s.address;
      nova = s.nova;
      orche = s.orche;
    }))
    ∷∷ (number_to-Keeps sc _ (λ d c s. record {
      due = interval-IsInterval d;
      baremetal = s.baremetal;
      cloud = s.cloud;
      address = s.address;
      nova = s.nova;
      orche = s.orche;
    }))
    ∷∷ (number_to-Keeps sc _ (λ d c s. record {
      due = s.due;
      baremetal = s.baremetal;
      cloud = s.cloud;
      address = s.address;
      nova = s.nova;
      orche = s.orche;
    }))
    ∷∷ (number_to-Keeps sc _ (λ d c s. record {
      due = s.due;
      baremetal = s.baremetal;
      cloud = s.cloud;
      address = s.address;
      nova = s.nova;
      orche = s.orche;
    }))
    ∷∷ (number_to-Keeps sc _ (λ d c s. record {
      due = s.due;
      baremetal = mode_of-flag d;
      cloud = s.cloud;
      address = s.address;
      nova = s.nova;
      orche = s.orche;
    }))
    ∷∷ (number_to-Keeps sc _ (λ d c s. record {
      due = s.due;
      baremetal = s.baremetal;
      cloud = mode_of-flag d;
      address = s.address;
      nova = s.nova;
      orche = s.orche;
    }))
    ∷∷ tt

run_sections-IsSane :
    (l : List (List ℕ × Section)) (name value : List ℕ) (c : Settings)
    → All (λ e. Keeps e.1) l
    → IsSane c
    → Leaves IsSane (run_sections l name value c)
unfolding run_sections
run_sections-IsSane [] name value c k s = s
run_sections-IsSane ((key, f) ∷ l) name value c k s = elim (Bool-cases (same_text name key)) [
  | inr e ↦ rw (run_sections, e) (run_sections-IsSane l name value c k.1 s)
  | inl e ↦ elim (Option-cases (f value c)) [
    | inl g ↦ rw (Leaves, run_sections, e, g) tt
    | inr (d, g) ↦
        rw (run_sections, e, g) (run_sections-IsSane l name value d k.1 (rw g at (k.0 value c s)))
  ]
]

parse_words-IsSane :
    (sc : Scan) (l : List (List ℕ)) (c : Settings) → IsSane c → Leaves IsSane (parse_words sc l c)
unfolding parse_words gettoken
parse_words-IsSane sc [] c s = s
parse_words-IsSane sc (a ∷ []) c s = s
parse_words-IsSane sc (a ∷ b ∷ []) c s = s
parse_words-IsSane sc (name ∷ sign ∷ value ∷ []) c s =
    run_sections-IsSane (sections sc) name value c (sections-Keep sc) s
parse_words-IsSane sc (a ∷ b ∷ d ∷ e ∷ l) c s = s

lineparser-IsSane :
    (sc : Scan) (line : List ℕ) (c : Settings) → IsSane c → Leaves IsSane (lineparser sc line c)
unfolding lineparser store_words
lineparser-IsSane sc line c s =
    elim (Bool-cases (have_room (take 5 (words_from [] (before_comment line))))) [
      | inr e ↦ rw (Leaves, lineparser, store_words, e) tt
      | inl e ↦
          rw (lineparser, store_words, e)
            (parse_words-IsSane sc (take 5 (words_from [] (before_comment line))) c s)
    ]

-- When `read_config` comes to its end without a write behind an array, the settings that it leaves are
-- sane if those that it finds are.
pub read_config-IsSane :
    (sc : Scan) (lines : List (List ℕ)) (c : Settings)
    → IsSane c
    → Leaves IsSane (read_config sc lines c)
unfolding read_config
read_config-IsSane sc [] c s = s
read_config-IsSane sc (line ∷ l) c s = elim (Option-cases (lineparser sc line c)) [
  | inl e ↦ rw (Leaves, read_config, e) tt
  | inr (d, e) ↦
      rw (read_config, e) (read_config-IsSane sc l d (rw e at (lineparser-IsSane sc line c s)))
]
