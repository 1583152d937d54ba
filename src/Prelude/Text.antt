-- ===== src/Prelude/Text.antt =====
-- Python's `str`, as the list of its code points, with the methods that the program calls.
-- A header of a request is decoded from Latin-1, where `lower` and `strip` below are exact; a code
-- point past 255 has no case and is no space here.
use Prim.Native.Nat.{ℕ, ◌+◌, ◌-◌}
use Prim.Native.Char.{code}
use Prim.Native.String.{String}
use mathlib.Core.Path.{◌≡◌, refl, ap₂}
use mathlib.Core.Logic.{◌↔◌}
use mathlib.Core.Bool.{Bool, true, false, not, ◌&&◌, ◌||◌}
use mathlib.Core.Option.{Option, none, some}
use mathlib.Core.List.{List, [], ◌∷◌, ◌++◌, map}
use native.Mathlib.Omega.{arith}
use korvex.Prelude.Tests.{leb, ◌==◌, if◌then◌else◌}

abbrev pub Text : Type 0
Text = List ℕ

-- A literal of the source.
abbrev pub codes : String → Text
codes String.[] = []
codes (String.◌∷◌ c s) = code c ∷ codes s

unfoldable pub eq_text : Text → Text → Bool
eq_text [] [] = true
eq_text (x ∷ xs) (y ∷ ys) = x == y && eq_text xs ys
eq_text _ _ = false

pub eq_text_sound : (a b : Text) → eq_text a b ≡ true → a ≡ b
unfolding eq_text
eq_text_sound [] [] h = refl
eq_text_sound (x ∷ xs) (y ∷ ys) h = ground (arith, eq_text_sound xs ys)
eq_text_sound [] (y ∷ ys) h = ground arith
eq_text_sound (x ∷ xs) [] h = ground arith

pub eq_text_refl : (a : Text) → eq_text a a ≡ true
unfolding eq_text
eq_text_refl [] = refl
eq_text_refl (x ∷ xs) = ground (arith, eq_text_refl xs)

pub eq_text_iff : (a b : Text) → (eq_text a b ≡ true) ↔ (a ≡ b)
eq_text_iff a b = (eq_text_sound a b, λ e. rw e (eq_text_refl b))

-- str.lower(), on one Latin-1 code point: A-Z, and the accented capitals but the multiplication sign.
unfoldable pub lower_code : ℕ → ℕ
lower_code c =
    if (leb b'A' c && leb c b'Z') || (leb 192 c && leb c 222 && not (c == 215)) then c + 32 else c

pub lower_code_idem : (c : ℕ) → lower_code (lower_code c) ≡ lower_code c
unfolding lower_code
lower_code_idem c = ground arith

unfoldable pub lower : Text → Text
unfolding lower_code
lower = map lower_code

pub lower_idem : (s : Text) → lower (lower s) ≡ lower s
unfolding lower
lower_idem [] = refl
lower_idem (c ∷ s) = ap₂ ◌∷◌ (lower_code_idem c) (lower_idem s)

-- str.upper(), on one Latin-1 code point.
unfoldable pub upper_code : ℕ → Text
upper_code c =
    if (leb b'a' c && leb c b'z') || (leb 224 c && leb c 254 && not (c == 247))
    then (c - 32) ∷ []
    else if c == 223
    then b'S' ∷ b'S' ∷ []
    else if c == 255
    then 376 ∷ []
    else if c == 181
    then 924 ∷ []
    else c ∷ []

unfoldable pub upper : Text → Text
unfolding upper_code
upper [] = []
upper (c ∷ s) = upper_code c ++ upper s

abbrev pub is_empty : Text → Bool
is_empty [] = true
is_empty (c ∷ s) = false

abbrev pub grow : ℕ → List Text → List Text
grow x [] = (x ∷ []) ∷ []
grow x (part ∷ parts) = (x ∷ part) ∷ parts

-- s.split(c), for one character: the parts between its occurrences.
unfoldable pub split : ℕ → Text → List Text
split c [] = [] ∷ []
split c (x ∷ s) = let rest = split c s in if x == c then [] ∷ rest else grow x rest

-- s.lstrip(), s.rstrip() and s.strip(), of the characters that `p` holds of.
unfoldable pub lstrip : (ℕ → Bool) → Text → Text
lstrip p [] = []
lstrip p (c ∷ s) = let rest = lstrip p s in if p c then rest else c ∷ s

unfoldable pub rstrip : (ℕ → Bool) → Text → Text
rstrip p [] = []
rstrip p (c ∷ s) = let rest = rstrip p s in if p c && is_empty rest then [] else c ∷ rest

unfoldable pub strip : (ℕ → Bool) → Text → Text
unfolding lstrip rstrip
strip p s = rstrip p (lstrip p s)

-- What str.strip() takes away: the spaces of Latin-1.
unfoldable pub is_space : ℕ → Bool
is_space c = (leb 9 c && leb c 13) || (leb 28 c && leb c 32) || c == 133 || c == 160

unfoldable pub starts_with : Text → Text → Bool
starts_with [] s = true
starts_with (c ∷ p) [] = false
starts_with (c ∷ p) (d ∷ s) = c == d && starts_with p s

-- ", ".join(texts)
unfoldable pub comma_join : List Text → Text
comma_join [] = []
comma_join (s ∷ []) = s
comma_join (s ∷ t ∷ texts) = s ++ codes ", " ++ comma_join (t ∷ texts)

-- s or ""
abbrev pub or_empty : Option Text → Text
or_empty none = []
or_empty (some s) = s
