-- ===== src/Prelude/Segments.antt =====
-- Runs of consecutive array cells, and how often a number occurs in a list.
use Prim.Native.Nat.{ℕ, zero, suc, ◌+◌, ◌-◌, ◌≤◌, ◌<◌}
use mathlib.Core.Path.{◌≡◌, refl, ap}
use mathlib.Core.List.{List, [], ◌∷◌, ◌++◌}
use mathlib.Core.Option.{some}
use native.Mathlib.Omega.{arith}
use vnf_monitoring.Prelude.Lists.{length, get_elem?, set}
use vnf_monitoring.Prelude.Tests.{◌==◌, if◌then◌else◌}

module _ {ℓ} {A : Type ℓ} where
  -- The `n` cells from index `i` on, fewer where the array ends.
  abbrev pub segment : List A → ℕ → ℕ → List A
  segment [] i n = []
  segment (x ∷ xs) (suc i) n = segment xs i n
  segment (x ∷ xs) zero zero = []
  segment (x ∷ xs) zero (suc n) = x ∷ segment xs zero n

  pub segment-zero : (xs : List A) (i : ℕ) → segment xs i 0 ≡ []
  segment-zero [] i = refl
  segment-zero (x ∷ xs) zero = refl
  segment-zero (x ∷ xs) (suc i) = segment-zero xs i

  pub segment-all : (xs : List A) → segment xs 0 (length xs) ≡ xs
  segment-all [] = refl
  segment-all (x ∷ xs) = ap (λ l. x ∷ l) (segment-all xs)

  pub segment-cons :
      (xs : List A) (i n : ℕ) {x : A}
      → get_elem? xs i ≡ some x
      → segment xs i (suc n) ≡ x ∷ segment xs (suc i) n
  segment-cons [] i n h = ground arith
  segment-cons (y ∷ xs) zero n h = ground arith
  segment-cons (y ∷ xs) (suc i) n h = segment-cons xs i n h

  -- A write in front of a run leaves it alone.
  pub segment-set_before :
      (xs : List A) (i n k : ℕ) (v : A) → k < i → segment (set xs k v) i n ≡ segment xs i n
  segment-set_before [] i n k v h = refl
  segment-set_before (x ∷ xs) zero n k v h = absurd (omega arith)
  segment-set_before (x ∷ xs) (suc i) n zero v h = refl
  segment-set_before (x ∷ xs) (suc i) n (suc k) v h = segment-set_before xs i n k v (omega arith)

  -- So does a write behind it.
  pub segment-set_after :
      (xs : List A) (i n k : ℕ) (v : A) → i + n ≤ k → segment (set xs k v) i n ≡ segment xs i n
  segment-set_after [] i n k v h = refl
  segment-set_after (x ∷ xs) zero zero zero v h = refl
  segment-set_after (x ∷ xs) zero zero (suc k) v h = refl
  segment-set_after (x ∷ xs) zero (suc n) zero v h = absurd (omega arith)
  segment-set_after (x ∷ xs) zero (suc n) (suc k) v h =
      ap (λ l. x ∷ l) (segment-set_after xs zero n k v (omega arith))
  segment-set_after (x ∷ xs) (suc i) n zero v h = absurd (omega arith)
  segment-set_after (x ∷ xs) (suc i) n (suc k) v h = segment-set_after xs i n k v (omega arith)

  -- A write just behind a run makes it longer by the value written.
  pub segment-set_end :
      (xs : List A) (i n k : ℕ) (v : A)
      → k ≡ i + n
      → k < length xs
      → segment (set xs k v) i (suc n) ≡ segment xs i n ++ (v ∷ [])
  segment-set_end [] i n k v e h = absurd (omega arith)
  segment-set_end (x ∷ xs) (suc i) n zero v e h = absurd (omega arith)
  segment-set_end (x ∷ xs) (suc i) n (suc k) v e h =
      segment-set_end xs i n k v (omega arith) (omega arith)
  segment-set_end (x ∷ xs) zero zero zero v e h = ap (λ l. v ∷ l) (segment-zero xs 0)
  segment-set_end (x ∷ xs) zero zero (suc k) v e h = absurd (omega arith)
  segment-set_end (x ∷ xs) zero (suc n) zero v e h = absurd (omega arith)
  segment-set_end (x ∷ xs) zero (suc n) (suc k) v e h =
      ap (λ l. x ∷ l) (segment-set_end xs zero n k v (omega arith) (omega arith))

  pub length-segment : (xs : List A) (i n : ℕ) → i + n ≤ length xs → length (segment xs i n) ≡ n
  length-segment [] i n h = omega arith
  length-segment (x ∷ xs) (suc i) n h = length-segment xs i n (omega arith)
  length-segment (x ∷ xs) zero zero h = refl
  length-segment (x ∷ xs) zero (suc n) h = ap suc (length-segment xs zero n (omega arith))

  pub get_elem?-some : (xs : List A) (i : ℕ) → i < length xs → (x : A) × (get_elem? xs i ≡ some x)
  get_elem?-some [] i h = absurd (omega arith)
  get_elem?-some (x ∷ xs) zero h = (x, refl)
  get_elem?-some (x ∷ xs) (suc i) h = get_elem?-some xs i (omega arith)

module _ {ℓ} {A : Type ℓ} where
  -- A run in which a cell was overwritten that is no more part of it.
  pub segment-front :
      (xs : List A) (i n : ℕ) (x v : A)
      → 0 < n
      → get_elem? xs i ≡ some x
      → segment xs i n ≡ x ∷ segment (set xs i v) (i + 1) (n - 1)
  segment-front xs i zero x v p h = absurd (omega arith)
  segment-front xs i (suc n) x v p h =
      rw (segment-set_before xs (i + 1) (suc n - 1) i v (omega arith))
        (ground (arith, segment-cons xs i n h))

-- How often `a` occurs.
abbrev pub count : ℕ → List ℕ → ℕ
count a [] = 0
count a (b ∷ k) = (if b == a then 1 else 0) + count a k

pub count-append : (a : ℕ) (k l : List ℕ) → count a (k ++ l) ≡ count a k + count a l
count-append a [] l = omega arith
count-append a (b ∷ k) l = omega (arith, count-append a k l)
