-- ===== src/Prelude/Decimal.antt =====
-- Decimal texts: how numbers are printed, and the number that a text stands for.
use Prim.Native.Nat.{ℕ, zero, suc, ◌+◌, ◌-◌, ◌*◌, ◌/◌, ◌%◌, ◌^◌, ◌≤◌}
use mathlib.Core.Path.{◌≡◌, refl}
use mathlib.Core.Logic.{inl, inr}
use mathlib.Core.List.{List, [], ◌∷◌, ◌++◌}
use native.Mathlib.Omega.{arith}
use vnf_monitoring.Prelude.Tests.{ltb, if◌then◌else◌, Bool-cases}
use vnf_monitoring.Prelude.Lists.{length, length-append}

-- `%u`, for a number of at most `f` digits.
unfoldable pub digits : ℕ → ℕ → List ℕ
digits zero n = []
digits (suc f) n =
    let more = digits f (n / 10) in (if ltb n 10 then [] else more) ++ (48 + n % 10) ∷ []

pub length-digits : (f n : ℕ) → length (digits f n) ≤ f
unfolding digits
length-digits zero n = omega arith
length-digits (suc f) n = elim (Bool-cases (ltb n 10)) [
  | inl e ↦ rw (digits, e) (omega arith)
  | inr e ↦
      rw (digits, e)
        (omega
          (arith, length-digits f (n / 10), length-append (digits f (n / 10)) ((48 + n % 10) ∷ [])))
]

-- The last `w` digits, with zeros in front.
unfoldable pub pad : ℕ → ℕ → List ℕ
pad zero n = []
pad (suc w) n = pad w (n / 10) ++ (48 + n % 10) ∷ []

-- `%0wd`, for a number that is not negative and has ten digits at most.
unfoldable pub padded : ℕ → ℕ → List ℕ
unfolding pad digits
padded w n = if ltb n (10 ^ w) then pad w n else digits 10 n

-- The number of a text of digits, after the digits read so far.
unfoldable pub value : ℕ → List ℕ → ℕ
value acc [] = acc
value acc (c ∷ l) = value (acc * 10 + (c - 48)) l

pub length-pad : (w n : ℕ) → length (pad w n) ≡ w
unfolding pad
length-pad zero n = refl
length-pad (suc w) n =
    omega (arith, length-pad w (n / 10), length-append (pad w (n / 10)) ((48 + n % 10) ∷ []))
