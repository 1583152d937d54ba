-- ===== src/Headers.antt =====
-- korvex/_response.py: the class `Headers`, ordered, case-insensitive, with repeated names.
-- A `set` or `remove` rebuilds the list of items; an `add` appends to it.
pub mod Laws
pub mod Spec
use korvex.Prelude.{Bool, true, false, not, List, [], ◌∷◌, ◌++◌, map, Option, none, some}
use korvex.Prelude.Lists.{head?, is_some}
use korvex.Prelude.Tests.{if◌then◌else◌}
use korvex.Prelude.Text.{Text, eq_text, lower}

pub record Headers : Type 0 where
  pub items : List (Text × Text)

-- n.lower() == m.lower()
unfoldable pub same_name : Text → Text → Bool
same_name n m = eq_text (lower n) (lower m)

unfoldable pub values_of : Text → List (Text × Text) → List Text
values_of name [] = []
values_of name ((n, v) ∷ items) =
    let rest = values_of name items in if same_name n name then v ∷ rest else rest

unfoldable pub without : Text → List (Text × Text) → List (Text × Text)
without name [] = []
without name ((n, v) ∷ items) =
    let rest = without name items in if same_name n name then rest else (n, v) ∷ rest

unfoldable pub get_all : Headers → Text → List Text
get_all h name = values_of name h.items

unfoldable pub get : Headers → Text → Option Text
get h name = head? (get_all h name)

unfoldable pub set : Headers → Text → Text → Headers
set h name value = record { items = without name h.items ++ (name, value) ∷ [] }

unfoldable pub remove : Headers → Text → Headers
remove h name = record { items = without name h.items }

unfoldable pub add : Headers → Text → Text → Headers
add h name value = record { items = h.items ++ (name, value) ∷ [] }

-- name in headers
unfoldable pub contains : Headers → Text → Bool
contains h name = is_some (get h name)
