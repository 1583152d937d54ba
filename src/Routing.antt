-- ===== src/Routing.antt =====
-- korvex/_routing.py: how the routes of a group show in OpenAPI, `_Docs`, and the names that routes
-- are kept under, `_route_name`. A response's description and model are of the type `A`.
pub mod Decorators
pub mod Kept
pub mod Names
pub mod Register
pub mod Shown
use korvex.Prelude.{
  ℕ, zero, suc, ◌+◌, Bool, true, false, not, ◌&&◌, ◌||◌, List, [], ◌∷◌, ◌++◌, Option, none, some,
}
use korvex.Prelude.Decimal.{show}
use korvex.Prelude.Dict.{Dict, merge}
use korvex.Prelude.Lists.{any, keep_if, length}
use korvex.Prelude.Tests.{leb, ◌==◌, if◌then◌else◌}
use korvex.Prelude.Text.{Text, eq_text}

-- `_check_status`, for an `int`
unfoldable pub is_status : ℕ → Bool
is_status status = leb 100 status && leb status 599

-- `_has_body`
unfoldable pub has_body : ℕ → Bool
has_body status = leb 200 status && not (status == 204 || status == 205 || status == 304)

-- tag in tags
unfoldable pub is_among : Text → List Text → Bool
is_among t tags = any (eq_text t) tags

unfoldable pub docs_tags : List Text → List Text → List Text
unfolding is_among
docs_tags mine others = mine ++ keep_if (λ t. not (is_among t mine)) others

pub record Docs {ℓ} (A : Type ℓ) : Type ℓ where
  pub tags : List Text
  pub deprecated : Bool
  pub responses : Dict A
  pub include : Bool

-- A group's with a route's, or with a nested group's.
unfoldable pub merge_docs {ℓ} : {A : Type ℓ} → Docs A → Docs A → Docs A
unfolding docs_tags
merge_docs d other = record {
  tags = docs_tags d.tags other.tags;
  deprecated = d.deprecated || other.deprecated;
  responses = merge d.responses other.responses;
  include = d.include && other.include;
}

-- The names that `_route_name` tries: the function's own, and then with `#2`, `#3`...
unfoldable pub candidate : Text → ℕ → Text
candidate base n = if leb n 1 then base else base ++ b'#' ∷ show n

-- Its loop, from the `n`th name; `fuel` bounds the names that are tried.
unfoldable pub first_free : Text → List Text → ℕ → ℕ → Text
unfolding is_among candidate
first_free base taken zero n = candidate base n
first_free base taken (suc fuel) n =
    let rest = first_free base taken fuel (n + 1) in
    if is_among (candidate base n) taken then rest else candidate base n

-- As many names as are taken are enough.
unfoldable pub route_name : Text → List Text → Text
unfolding first_free
route_name base taken = first_free base taken (length taken) 1
