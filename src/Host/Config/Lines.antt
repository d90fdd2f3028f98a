-- ===== src/Host/Config/Lines.antt =====
-- How `Lineparser` reads a line that sets something.
use vnf_monitoring.Prelude.{
  ℕ, suc, ◌<◌, ◌≡◌, refl, ap, ◌∙◌, true, false, ◌||◌, Bool-cases, inl, inr, List, [], ◌∷◌, ◌++◌,
  ◌==◌, ltb, length, All, arith, append_assoc, append-nil, take,
}
use vnf_monitoring.Host.Config.{
  Scan, Settings, gettoken, before_comment, flush, is_space, words_from, have_room, parse_words,
  store_words, lineparser, max_str_length,
}

before_comment-append : (l r : List ℕ) → before_comment (l ++ (35 ∷ r)) ≡ before_comment l
unfolding before_comment
before_comment-append [] r = refl
before_comment-append (c ∷ l) r = elim (Bool-cases ((c == 35) || (c == 0))) [
  | inl e ↦ rw e refl
  | inr e ↦ rw (e, before_comment-append l r) refl
]

-- A `#` and what follows it change nothing, wherever in the line it stands.
lineparser-comment :
    (sc : Scan) (l r : List ℕ) (c : Settings) → lineparser sc (l ++ (35 ∷ r)) c ≡ lineparser sc l c
unfolding lineparser
lineparser-comment sc l r c =
    ap (λ z. store_words sc (take 5 (words_from [] z)) c) (before_comment-append l r)

-- A word: bytes that are no space, no `#` and not 0, fewer than its array has.
abbrev pub IsPlain : ℕ → Type 0
IsPlain c = (is_space c ≡ false) × (((c == 35) || (c == 0)) ≡ false)

abbrev pub IsWord : List ℕ → Type 0
IsWord [] = ⊥
IsWord (c ∷ w) = All IsPlain (c ∷ w) × (suc (length w) < max_str_length)

before_comment-plain :
    (w l : List ℕ) → All IsPlain w → before_comment (w ++ l) ≡ w ++ before_comment l
unfolding before_comment
before_comment-plain [] l a = refl
before_comment-plain (c ∷ w) l a = rw (a.0.1, before_comment-plain w l a.1) refl

words_from-plain :
    (w : List ℕ) (word l : List ℕ)
    → All IsPlain w
    → words_from word (w ++ l) ≡ words_from (word ++ w) l
unfolding words_from
words_from-plain [] word l a = rw (append-nil word) refl
words_from-plain (c ∷ w) word l a = rw a.0.0 (
    words_from-plain w (word ++ (c ∷ [])) l a.1
    ∙ ap (λ z. words_from z l) (append_assoc word (c ∷ []) w))

plain : (w : List ℕ) → IsWord w → All IsPlain w
plain [] a = absurd a
plain (c ∷ w) a = a.0

flush-word : (w : List ℕ) (l : List (List ℕ)) → IsWord w → flush w ++ l ≡ w ∷ l
flush-word [] l a = absurd a
flush-word (c ∷ w) l a = refl

word-room : (w : List ℕ) → IsWord w → ltb (length w) max_str_length ≡ true
word-room [] a = absurd a
word-room (c ∷ w) a = ground (arith, a.1)

-- The line "<name> = <value>" with its line feed.
abbrev pub setting_line : List ℕ → List ℕ → List ℕ
setting_line name value = name ++ (32 ∷ 61 ∷ 32 ∷ (value ++ (10 ∷ [])))

setting-words :
    (name value : List ℕ)
    → IsWord name
    → IsWord value
    → words_from [] (before_comment (setting_line name value)) ≡ name ∷ (61 ∷ []) ∷ value ∷ []
unfolding before_comment words_from
setting-words name value n v =
    ap (words_from []) (
      before_comment-plain name (32 ∷ 61 ∷ 32 ∷ (value ++ (10 ∷ []))) (plain name n)
      ∙ ap (λ z. name ++ (32 ∷ 61 ∷ 32 ∷ z)) (before_comment-plain value (10 ∷ []) (plain value v)))
    ∙ words_from-plain name [] (32 ∷ 61 ∷ 32 ∷ (value ++ (10 ∷ []))) (plain name n)
    ∙ flush-word name _ n
    ∙ ap (λ z. name ∷ (61 ∷ []) ∷ z)
        (words_from-plain value [] (10 ∷ []) (plain value v) ∙ flush-word value [] v)

-- A line that is a name, an equals sign and a value does what `Gettoken` does for the name and the
-- value, exactly as they were written.
pub lineparser-setting_line :
    (sc : Scan) (name value : List ℕ) (c : Settings)
    → IsWord name
    → IsWord value
    → lineparser sc (setting_line name value) c ≡ gettoken sc name value c
unfolding lineparser store_words parse_words
lineparser-setting_line sc name value c n v =
    ap (λ z. store_words sc (take 5 z) c) (setting-words name value n v)
    ∙ rw (store_words, have_room, word-room name n, word-room value v) refl
