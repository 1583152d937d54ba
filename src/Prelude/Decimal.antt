-- ===== src/Prelude/Decimal.antt =====
-- Python's `str` of a natural number, and the number that decimal digits stand for.
use Prim.Native.Nat.{ℕ, zero, suc, ◌+◌, ◌-◌, ◌*◌, ◌/◌, ◌%◌, ◌<◌}
use mathlib.Core.Path.{◌≡◌, refl, sym, ap, ◌∙◌}
use mathlib.Core.List.{[], ◌∷◌, ◌++◌}
use native.Mathlib.Omega.{arith}
use mathlib.Core.Logic.{inl, inr}
use korvex.Prelude.Tests.{ltb, if◌then◌else◌, Bool-cases}
use korvex.Prelude.Text.{Text}

-- The digits of n; more fuel than n is enough.
digits : ℕ → ℕ → Text
digits zero n = []
digits (suc f) n =
    let front = digits f (n / 10) in if ltb n 10 then (48 + n) ∷ [] else front ++ (48 + n % 10) ∷ []

-- str(n)
unfoldable pub show : ℕ → Text
unfolding digits
show n = digits (suc n) n

value_from : ℕ → Text → ℕ
value_from acc [] = acc
value_from acc (c ∷ s) = value_from (acc * 10 + (c - 48)) s

-- int(s), for a text of decimal digits
unfoldable pub value : Text → ℕ
unfolding value_from
value s = value_from 0 s

value_from-append :
    (acc c : ℕ) (s : Text) → value_from acc (s ++ c ∷ []) ≡ value_from acc s * 10 + (c - 48)
unfolding value_from
value_from-append acc c [] = refl
value_from-append acc c (d ∷ s) = value_from-append (acc * 10 + (d - 48)) c s

value-digits : (f n : ℕ) → n < f → value_from 0 (digits f n) ≡ n
unfolding digits value_from
value-digits zero n h = elim h [ ]
value-digits (suc f) n h = elim (Bool-cases (ltb n 10)) [
  | inl small ↦ rw small (omega arith)
  | inr large ↦
      rw (large, value_from-append 0 (48 + n % 10) (digits f (n / 10)))
        (rw (value-digits f (n / 10) (ground arith)) (omega arith))
]

-- Reading the digits of a number gives the number back.
pub value-show : (n : ℕ) → value (show n) ≡ n
unfolding value show
value-show n = value-digits (suc n) n (omega arith)

pub show_injective : (m n : ℕ) → show m ≡ show n → m ≡ n
show_injective m n e = sym (value-show m) ∙ ap value e ∙ value-show n
