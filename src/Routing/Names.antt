-- ===== src/Routing/Names.antt =====
-- Each route is kept under a name of its own.
use korvex.Prelude.{
  ℕ, zero, suc, ◌+◌, ◌≤◌, ◌<◌, true, false, List, [], ◌∷◌, ◌++◌, ◌≡◌, ◌≢◌, refl, ap, inl, inr,
  arith,
}
use korvex.Prelude.Decimal.{show, show_injective}
use korvex.Prelude.Lists.{length, length-append}
use korvex.Prelude.Tests.{leb, if◌then◌else◌, Bool-cases}
use korvex.Prelude.Text.{Text, eq_text, eq_text_sound, eq_text_iff}
use korvex.Routing.{is_among, candidate, first_free, route_name}

-- What is left of the taken names once one is found.
abbrev others : Text → List Text → List Text
others x [] = []
others x (t ∷ ts) = let rest = others x ts in if eq_text x t then rest else t ∷ rest

length-others-le : (x : Text) (ts : List Text) → length (others x ts) ≤ length ts
length-others-le x [] = omega arith
length-others-le x (t ∷ ts) = ground (arith, length-others-le x ts)

length-others :
    (x : Text) (ts : List Text) → is_among x ts ≡ true → length (others x ts) < length ts
unfolding is_among
length-others x [] h = cc
length-others x (t ∷ ts) h = ground (arith, length-others x ts, length-others-le x ts)

others-keep :
    (x y : Text) (ts : List Text)
    → eq_text x y ≡ false
    → is_among y ts ≡ true
    → is_among y (others x ts) ≡ true
unfolding is_among
others-keep x y [] ne h = h
others-keep x y (t ∷ ts) ne h =
    ground (arith, eq_text_iff x t, eq_text_iff y t, eq_text_iff x y, others-keep x y ts ne)

tail_of : {x y : ℕ} {xs ys : Text} → x ∷ xs ≡ y ∷ ys → xs ≡ ys
tail_of h = cc

append-cancel : (xs : Text) {ys zs : Text} → xs ++ ys ≡ xs ++ zs → ys ≡ zs
append-cancel [] h = h
append-cancel (x ∷ xs) h = append-cancel xs (tail_of h)

longer : (base : Text) (c : ℕ) (rest : Text) → base ≢ base ++ c ∷ rest
longer base c rest e = omega (arith, ap length e, length-append base (c ∷ rest))

apart_if : (a b : Text) → a ≢ b → eq_text a b ≡ false
apart_if a b ne = elim (Bool-cases (eq_text a b)) [
  | inl same ↦ elim (ne (eq_text_sound a b same)) [ ]
  | inr other ↦ other
]

numbered : (base : Text) (n m : ℕ) → n < m → base ++ b'#' ∷ show n ≢ base ++ b'#' ∷ show m
numbered base n m lt e = omega (arith, lt, show_injective n m (tail_of (append-cancel base e)))

above : (m : ℕ) → 1 < m → leb m 1 ≡ false
above m lt = ground (arith, lt)

candidate-apart :
    (base : Text) (n m : ℕ) → 1 ≤ n → n < m → eq_text (candidate base n) (candidate base m) ≡ false
unfolding candidate
candidate-apart base n m one lt = elim (Bool-cases (leb n 1)) [
  | inl first ↦
      rw (first, above m (omega (arith, one, lt)))
        (apart_if base (base ++ b'#' ∷ show m) (longer base b'#' (show m)))
  | inr later ↦
      rw (later, above m (omega (arith, one, lt)))
        (apart_if (base ++ b'#' ∷ show n) (base ++ b'#' ∷ show m) (numbered base n m lt))
]

-- Every name from `n` on that is taken is among `ts`.
abbrev Holds : Text → List Text → ℕ → List Text → Type 0
Holds base taken n ts =
    (m : ℕ)
    → n ≤ m
    → is_among (candidate base m) taken ≡ true
    → is_among (candidate base m) ts ≡ true

Holds-next :
    (base : Text) (taken : List Text) (n : ℕ) (ts : List Text)
    → 1 ≤ n
    → Holds base taken n ts
    → Holds base taken (n + 1) (others (candidate base n) ts)
Holds-next base taken n ts one sub m le h =
    others-keep (candidate base n) (candidate base m) ts
      (candidate-apart base n m one (omega (arith, le))) (sub m (omega (arith, le)) h)

none_left : (x : Text) (ts : List Text) → length ts ≤ 0 → is_among x ts ≡ false
unfolding is_among
none_left x [] le = refl
none_left x (t ∷ ts) le = ground (arith, le)

first_free-is_among :
    (base : Text) (taken : List Text) (fuel n : ℕ) (ts : List Text)
    → length ts ≤ fuel
    → 1 ≤ n
    → Holds base taken n ts
    → is_among (first_free base taken fuel n) taken ≡ false
unfolding first_free
first_free-is_among base taken zero n ts le one sub =
    elim (Bool-cases (is_among (candidate base n) taken)) [
      | inl used ↦ ground (arith, sub n (omega arith) used, none_left (candidate base n) ts le)
      | inr free ↦ free
    ]
first_free-is_among base taken (suc fuel) n ts le one sub =
    elim (Bool-cases (is_among (candidate base n) taken)) [
      | inl used ↦ rw used (
          first_free-is_among base taken fuel (n + 1) (others (candidate base n) ts)
            (omega (arith, le, length-others (candidate base n) ts (sub n (omega arith) used)))
            (omega (arith, one)) (Holds-next base taken n ts one sub))
      | inr free ↦ rw free free
    ]

-- The name that a route is given is not taken.
pub route_name-free :
    (base : Text) (taken : List Text) → is_among (route_name base taken) taken ≡ false
unfolding route_name
route_name-free base taken =
    first_free-is_among base taken (length taken) 1 taken (omega arith) (omega arith) (λ m le h. h)
