-- ===== src/Prelude/Dict.antt =====
-- Python's `dict` with text keys, in insertion order: a key that is there keeps its place.
use mathlib.Core.Path.{◌≡◌, refl}
use mathlib.Core.Bool.{Bool, false}
use mathlib.Core.Option.{Option, none, some}
use mathlib.Core.List.{List, [], ◌∷◌}
use native.Mathlib.Omega.{arith}
use korvex.Prelude.Lists.{is_some}
use korvex.Prelude.Tests.{if◌then◌else◌}
use korvex.Prelude.Text.{Text, eq_text, eq_text_iff, eq_text_refl}

abbrev pub Dict {ℓ} : Type ℓ → Type ℓ
Dict V = List (Text × V)

module _ {ℓ} {V : Type ℓ} where
  -- d.get(k)
  unfoldable pub find : Text → Dict V → Option V
  find k [] = none
  find k ((j, v) ∷ d) = if eq_text j k then some v else find k d

  -- d[k] = v
  unfoldable pub put : Text → V → Dict V → Dict V
  put k v [] = (k, v) ∷ []
  put k v ((j, w) ∷ d) = if eq_text j k then (j, v) ∷ d else (j, w) ∷ put k v d

  pub find-put :
      (k j : Text) (v : V) (d : Dict V)
      → find j (put k v d) ≡ (if eq_text k j then some v else find j d)
  unfolding find put
  find-put k j v [] = refl
  find-put k j v ((i, w) ∷ d) =
      ground (arith, eq_text_iff i k, eq_text_iff i j, eq_text_iff k j, find-put k j v d)

  pub find-put_self : (k : Text) (v : V) (d : Dict V) → find k (put k v d) ≡ some v
  find-put_self k v d = ground (arith, find-put k k v d, eq_text_refl k)

  -- k in d
  unfoldable pub contains_key : Text → Dict V → Bool
  unfolding find
  contains_key k d = is_some (find k d)

  -- {**a, **b}
  unfoldable pub merge : Dict V → Dict V → Dict V
  merge a [] = a
  merge a ((k, v) ∷ b) = merge (put k v a) b

  abbrev pub first_some : Option V → Option V → Option V
  first_some none o = o
  first_some (some v) o = some v

  abbrev pub IsUnique : Dict V → Type 0
  IsUnique [] = Unit
  IsUnique ((k, v) ∷ d) = (contains_key k d ≡ false) × IsUnique d

  pub find-merge :
      (j : Text) (a b : Dict V) → IsUnique b → find j (merge a b) ≡ first_some (find j b) (find j a)
  unfolding find merge contains_key
  find-merge j a [] u = refl
  find-merge j a ((k, v) ∷ b) (fresh, u) =
      ground (arith, find-merge j (put k v a) b u, find-put k j v a, eq_text_iff k j)
