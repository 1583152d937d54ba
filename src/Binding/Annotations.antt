-- ===== src/Binding/Annotations.antt =====
-- korvex/_schema.py and korvex/_params.py: the annotations of a function's parameters, `_unwrap` and
-- `_library`. What `typing` and `inspect` say of a function is data here; a function is its identity.
use korvex.Prelude.{ℕ, ◌+◌, ◌*◌, Bool, true, false, not, List, [], ◌∷◌, Option, none, some}
use korvex.Prelude.Lists.{keep_if, length}
use korvex.Prelude.Tests.{leb, ◌==◌, if◌then◌else◌}
use korvex.Prelude.Text.{Text, is_empty}
use korvex.Binding.{
  Scalar, str_type, Inner, scalar, file, Param, Source, path, query, header, cookie, form,
  form_model, body, request,
}

-- A class that stands in an annotation; `other_type` is any other object.
pub data Bare : Type 0 where
  scalar_type : Scalar → Bare
  uploaded_file none_type request_type websocket_type connection_type : Bare
  model_type other_type : ℕ → Bare

pub data Hint : Type 0 where
  bare list_of : Bare → Hint

-- `Union[...]` is flat.
pub data Annotation : Type 0 where
  plain : Hint → Annotation
  union : List Hint → Annotation

-- `Source` of _params.py, where no default is REQUIRED, and `Dependency`
pub data Marker (V : Type 0) : Type 0 where
  source : (kind : Source) (default : Option V) (alias : Option Text) → Marker V
  depends : (func : ℕ) (cache : Bool) → Marker V

pub data Default (V : Type 0) : Type 0 where
  empty : Default V
  marker_default : Marker V → Default V
  value_default : V → Default V

-- A parameter, with what `_split` gives of its annotation.
pub record Parameter (V : Type 0) : Type 0 where
  pub name : Text
  pub catch_all : Bool
  pub tp : Option Annotation
  pub marker : Option (Marker V)
  pub default : Default V

pub record Signature (V : Type 0) : Type 0 where
  pub parameters : List (Parameter V)
  pub readable : Bool
  pub generator : Bool

-- Why a TypeError is raised.
pub data Reason : Type 0 where
  cycle unreadable two_sources two_defaults form_in_websocket bad_type cookie_list wants_websocket
        wants_request bad_path_type body_in_websocket unknown_source two_bodies two_models
        model_and_form :
      Reason

pub data Planned {ℓ} (A : Type ℓ) : Type ℓ where
  planned : A → Planned A
  refused : Reason → Planned A
  no_fuel : Planned A

abbrev pub then_plan : {A B : Type 0} → Planned A → (A → Planned B) → Planned B
then_plan (planned a) f = f a
then_plan (refused r) f = refused r
then_plan no_fuel f = no_fuel

-- a is not type(None)
abbrev pub is_value_hint : Hint → Bool
is_value_hint (bare none_type) = false
is_value_hint _ = true

-- Inner type, whether it is a list, and whether it accepts None.
pub record Unwrapped : Type 0 where
  pub inner : Annotation
  pub is_list : Bool
  pub optional : Bool

abbrev pub unlisted : Bool → Hint → Unwrapped
unlisted optional (bare b) = record { inner = plain (bare b); is_list = false; optional = optional }
unlisted optional (list_of b) = record {
  inner = plain (bare b);
  is_list = true;
  optional = optional;
}

abbrev pub members : List Hint → List Hint → Bool → Unwrapped
members hs (h ∷ []) optional = unlisted optional h
members hs _ optional = record { inner = union hs; is_list = false; optional = optional }

-- `_unwrap`
unfoldable pub unwrap : Annotation → Unwrapped
unwrap (plain h) = unlisted false h
unwrap (union hs) =
    let args = keep_if is_value_hint hs in members hs args (not (leb (length hs) (length args)))

-- Whether `_library` gives one.
unfoldable pub has_library : Annotation → Bool
has_library (plain (bare (model_type m))) = true
has_library (plain (list_of (model_type m))) = true
has_library _ = false

-- A model type's identity, and another one for the list of it.
abbrev pub model_of : Annotation → ℕ
model_of (plain (bare (model_type m))) = 2 * m
model_of (plain (list_of (model_type m))) = 2 * m + 1
model_of _ = 0

abbrev pub is_scalar : Annotation → Bool
is_scalar (plain (bare (scalar_type s))) = true
is_scalar _ = false

-- The type that the values of a parameter are converted to: of a model or of the request, none are.
abbrev pub inner_of : Annotation → Inner
inner_of (plain (bare (scalar_type s))) = scalar s
inner_of (plain (bare uploaded_file)) = file
inner_of _ = scalar str_type

abbrev pub scalar_code : Scalar → ℕ
scalar_code Scalar.str_type = 0
scalar_code Scalar.int_type = 1
scalar_code Scalar.float_type = 2
scalar_code Scalar.bool_type = 3
scalar_code Scalar.uuid_type = 4
scalar_code Scalar.date_type = 5
scalar_code Scalar.datetime_type = 6

abbrev pub same_scalar : Scalar → Scalar → Bool
same_scalar s t = scalar_code s == scalar_code t

abbrev pub is_scalar_of : Scalar → Annotation → Bool
is_scalar_of s (plain (bare (scalar_type t))) = same_scalar s t
is_scalar_of s _ = false

abbrev pub source_code : Source → ℕ
source_code path = 0
source_code query = 1
source_code header = 2
source_code cookie = 3
source_code form = 4
source_code form_model = 5
source_code body = 6
source_code request = 7

abbrev pub is_from : {V : Type 0} → Source → Param V → Bool
is_from s p = source_code p.source == source_code s

-- name.replace("_", "-")
abbrev pub hyphens : Text → Text
hyphens [] = []
hyphens (c ∷ s) = (if c == b'_' then b'-' else c) ∷ hyphens s

-- marker.alias or ...
unfoldable pub key_of : Option Text → Source → Text → Text
key_of none kind name = if source_code kind == 2 then hyphens name else name
key_of (some alias) kind name =
    if not (is_empty alias) then alias else if source_code kind == 2 then hyphens name else name
