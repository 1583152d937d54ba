-- ===== src/Request/MultiDict.antt =====
-- korvex/_requests.py: `MultiDict`, the values of a query string or a form, by name, and
-- `UploadedFile`.
use korvex.Prelude.{ℕ, List, [], ◌∷◌, ◌++◌, map, Option, none, some}
use korvex.Prelude.Dict.{Dict, find}
use korvex.Prelude.Lists.{head?}
use korvex.Prelude.Text.{Text}

pub record UploadedFile : Type 0 where
  pub filename : Text
  pub content_type : Text
  pub content : List ℕ

pub record MultiDict {ℓ} (V : Type ℓ) : Type ℓ where
  pub lists : Dict (List V)

module _ {V : Type 0} where
  abbrev pub or_none : Option (List V) → List V
  or_none none = []
  or_none (some vs) = vs

  -- Every value of a name, an empty list where there is none.
  unfoldable pub get_all : MultiDict V → Text → List V
  get_all d name = or_none (find name d.lists)

  -- d[name]: `none` for the KeyError.
  unfoldable pub get_item : MultiDict V → Text → Option V
  unfolding get_all
  get_item d name = head? (get_all d name)

  unfoldable pub items_of : Dict (List V) → List (Text × V)
  items_of [] = []
  items_of ((name, vs) ∷ d) = map (λ v. (name, v)) vs ++ items_of d

  unfoldable pub multi_items : MultiDict V → List (Text × V)
  unfolding items_of
  multi_items d = items_of d.lists
