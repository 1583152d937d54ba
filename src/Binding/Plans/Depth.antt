-- ===== src/Binding/Plans/Depth.antt =====
-- korvex/_schema.py: `plan_for` comes to an end, since it refuses a function that depends on itself.
use korvex.Prelude.{ℕ, ◌+◌, List, [], ◌∷◌}
use korvex.Prelude.Dict.{Dict}
use korvex.Prelude.Lists.{any}
use korvex.Prelude.Tests.{leb, ◌==◌, if◌then◌else◌}
use korvex.Binding.{Source}
use korvex.Binding.Annotations.{Planned, no_fuel}
use korvex.Prelude.Tests.{leb}
use korvex.Binding.{Source}
use korvex.Binding.Plans.{leb}

abbrev pub HasEnd {ℓ} : {A : Type ℓ} → Planned A → Type 0
HasEnd no_fuel = ⊥
HasEnd _ = Unit

-- How many of the functions `fs` are not in the chain.
unfoldable pub unmet : List ℕ → List ℕ → ℕ
unmet chain [] = 0
unmet chain (f ∷ fs) = (if any (λ g. g == f) chain then 0 else 1) + unmet chain fs
