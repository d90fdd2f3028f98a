-- ===== src/Prelude/Search.antt =====
-- The first element of a list that passes a test, and a change of it.
use Prim.Native.Nat.{ℕ, zero, suc, ◌<◌}
use mathlib.Core.Path.{◌≡◌, refl, subst}
use mathlib.Core.Logic.{◌⊎◌, inl, inr}
use mathlib.Core.Bool.{Bool, true, false}
use mathlib.Core.Option.{Option, none, some}
use mathlib.Core.List.{List, [], ◌∷◌}
use native.Mathlib.Omega.{arith}
use vnf_monitoring.Prelude.Tests.{if◌then◌else◌, Bool-cases, Option-cases}
use vnf_monitoring.Prelude.Lists.{length, set, get_elem?}

module _ {ℓ} {A : Type ℓ} where
  abbrev pub find : (A → Bool) → List A → Option A
  find p [] = none
  find p (x ∷ l) = if p x then some x else find p l

  abbrev pub modify_first : (A → Bool) → (A → A) → List A → List A
  modify_first p f [] = []
  modify_first p f (x ∷ l) = if p x then f x ∷ l else x ∷ modify_first p f l

  abbrev pub is_some : Option A → Bool
  is_some none = false
  is_some (some a) = true

  abbrev pub map_some : (A → A) → Option A → Option A
  map_some f none = none
  map_some f (some a) = some (f a)

module _ {ℓ} {A : Type ℓ} (p : A → Bool) (f : A → A) where
  pub find-modify_first :
      ((x : A) → p x ≡ true → p (f x) ≡ true)
      → (l : List A) → find p (modify_first p f l) ≡ map_some f (find p l)
  find-modify_first h [] = refl
  find-modify_first h (x ∷ l) = elim (Bool-cases (p x)) [
    | inl e ↦ rw (e, h x e)
    | inr e ↦ rw (e, e, find-modify_first h l)
  ]

  pub find-modify_first_ne :
      (q : A → Bool)
      → ((x : A) → p x ≡ true → q x ≡ false)
      → ((x : A) → p x ≡ true → q (f x) ≡ false)
      → (l : List A) → find q (modify_first p f l) ≡ find q l
  find-modify_first_ne q h g [] = refl
  find-modify_first_ne q h g (x ∷ l) = elim (Bool-cases (p x)) [
    | inl e ↦ rw (e, h x e, g x e)
    | inr e ↦ rw (e, find-modify_first_ne q h g l)
  ]

  pub modify_first-none : (l : List A) → find p l ≡ none → modify_first p f l ≡ l
  modify_first-none [] e = refl
  modify_first-none (x ∷ l) e = elim (Bool-cases (p x)) [
    | inl h ↦ ground (arith, h, e)
    | inr h ↦ ground (arith, h, e, modify_first-none l)
  ]

  pub length-modify_first : (l : List A) → length (modify_first p f l) ≡ length l
  length-modify_first [] = refl
  length-modify_first (x ∷ l) = elim (Bool-cases (p x)) [
    | inl e ↦ rw e
    | inr e ↦ rw (e, length-modify_first l)
  ]

abbrev pub All {ℓ} : {A : Type ℓ} → (A → Type 0) → List A → Type 0
All P [] = Unit
All P (x ∷ l) = P x × All P l

abbrev pub Any {ℓ} : {A : Type ℓ} → (A → Type 0) → List A → Type 0
Any P [] = ⊥
Any P (x ∷ l) = P x ⊎ Any P l

module _ {ℓ} {A : Type ℓ} {P Q : A → Type 0} where
  pub Any-map : (l : List A) → ((x : A) → P x → Q x) → Any P l → Any Q l
  Any-map [] f a = a
  Any-map (x ∷ l) f (inl h) = inl (f x h)
  Any-map (x ∷ l) f (inr a) = inr (Any-map l f a)

  pub All-map : (l : List A) → ((x : A) → P x → Q x) → All P l → All Q l
  All-map [] f a = tt
  All-map (x ∷ l) f a = (f x a.0, All-map l f a.1)

module _ {ℓ} {A : Type ℓ} {P Q R : A → Type 0} where
  pub All-map2 : (l : List A) → ((x : A) → P x → Q x → R x) → All P l → All Q l → All R l
  All-map2 [] f a b = tt
  All-map2 (x ∷ l) f a b = (f x a.0 b.0, All-map2 l f a.1 b.1)

module _ {ℓ} {A : Type ℓ} where
  abbrev pub find_index : (A → Bool) → List A → Option ℕ
  find_index p [] = none
  find_index p (x ∷ l) =
      if p x then some 0 else (elim (find_index p l) [ none ↦ none | some i ↦ some (suc i) ])

  pub find-find_index : (p : A → Bool) (l : List A) → is_some (find_index p l) ≡ is_some (find p l)
  find-find_index p [] = refl
  find-find_index p (x ∷ l) = ground (arith, find-find_index p l)

module _ {ℓ} {A : Type ℓ} (P : A → Type 0) where
  pub All-set : (l : List A) (i : ℕ) (v : A) → P v → All P l → All P (set l i v)
  All-set [] i v h a = tt
  All-set (x ∷ l) zero v h a = (h, a.1)
  All-set (x ∷ l) (suc i) v h a = (a.0, All-set l i v h a.1)

  pub All-get_elem? : (l : List A) (i : ℕ) (x : A) → All P l → get_elem? l i ≡ some x → P x
  All-get_elem? [] i x a e = ground (arith, e)
  All-get_elem? (y ∷ l) zero x a e = let same : y ≡ x = ground (arith, e) in subst P same a.0
  All-get_elem? (y ∷ l) (suc i) x a e = All-get_elem? l i x a.1 e

module _ {ℓ} {A : Type ℓ} where
  pub find_index-some :
      (p : A → Bool) (l : List A) (i : ℕ)
      → find_index p l ≡ some i
      → (x : A) × (get_elem? l i ≡ some x) × (p x ≡ true)
  find_index-some p [] i e = ground (arith, e)
  find_index-some p (x ∷ l) i e = elim (Bool-cases (p x)) [
    | inl h ↦ (x, ground (arith, e, h), h)
    | inr h ↦ elim (Option-cases (find_index p l)) [
      | inl n ↦ ground (arith, e, h, n)
      | inr (j, n) ↦ let (y, g, t) = find_index-some p l j n in (y, ground (arith, e, h, n, g), t)
    ]
  ]

  pub get_elem?-length : (l : List A) (i : ℕ) (x : A) → get_elem? l i ≡ some x → i < length l
  get_elem?-length [] i x e = ground (arith, e)
  get_elem?-length (y ∷ l) zero x e = omega arith
  get_elem?-length (y ∷ l) (suc i) x e = omega (arith, get_elem?-length l i x e)
