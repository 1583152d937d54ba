-- ===== src/Binding.antt =====
-- korvex/_schema.py: the parameters of a handler or a dependency, and how one raw value of a request
-- becomes an argument. A Python object is of the type `V`; the constructors that the code calls
-- (`int`, `float`, `uuid.UUID`, `fromisoformat`) are the parameter `parse`, `none` for what they raise.
-- Text is compared in lower case, exact on Latin-1.
pub mod Values
pub mod Patterns
pub mod Annotations
pub mod Slots
pub mod Plans
pub mod Forms
pub mod Reading
pub mod Resolve
use korvex.Prelude.{ℕ, Bool, true, false, not, ◌&&◌, ◌||◌, List, [], ◌∷◌, ◌++◌, Option, none, some}
use korvex.Prelude.Decimal.{show}
use korvex.Prelude.Dict.{Dict, put}
use korvex.Prelude.Lists.{any, keep_if}
use korvex.Prelude.Tests.{◌==◌, if◌then◌else◌}
use korvex.Prelude.Text.{Text, codes, eq_text, lower, is_empty}
use korvex.Errors.{FieldError}
use korvex.Request.{Value, int_value, uuid_value, str_value}
use korvex.Request.MultiDict.{UploadedFile}

-- `SCALARS`
pub data Scalar : Type 0 where
  str_type int_type float_type bool_type uuid_type date_type datetime_type : Scalar

-- The type of each value of a parameter: a scalar, or a form's file.
pub data Inner : Type 0 where
  scalar : Scalar → Inner
  file : Inner

pub data Source : Type 0 where
  path query header cookie form form_model body request : Source

-- What a parameter reads, with the model of a body or of a form by its identity.
pub record Param (V : Type 0) : Type 0 where
  pub name : Text
  pub source : Source
  pub required : Bool
  pub default : V
  pub key : Text
  pub inner : Inner
  pub many : Bool
  pub model : ℕ

-- The Python objects that the code makes.
pub record Objects (V : Type 0) : Type 0 where
  pub of_text : Text → V
  pub of_bool : Bool → V
  pub of_number : ℕ → V
  pub of_uuid : Text → V
  pub of_file : UploadedFile → V
  pub of_list : List V → V
  pub parse : Scalar → Text → Option V

-- A raw value: text, or a file of a form.
pub data Raw : Type 0 where
  text : Text → Raw
  upload : UploadedFile → Raw

abbrev pub source_name : Source → Text
source_name path = codes "path"
source_name query = codes "query"
source_name header = codes "header"
source_name cookie = codes "cookie"
source_name form = codes "form"
source_name form_model = codes "form_model"
source_name body = codes "body"
source_name request = codes "request"

-- `_TYPE_NAMES`, and "file"
abbrev pub type_name : Inner → Text
type_name file = codes "file"
type_name (scalar str_type) = codes "string"
type_name (scalar int_type) = codes "integer"
type_name (scalar float_type) = codes "number"
type_name (scalar bool_type) = codes "boolean"
type_name (scalar uuid_type) = codes "UUID"
type_name (scalar date_type) = codes "date (YYYY-MM-DD)"
type_name (scalar datetime_type) = codes "datetime (ISO 8601)"

unfoldable pub is_true : Text → Bool
is_true s = any (eq_text s) (codes "true" ∷ codes "1" ∷ codes "yes" ∷ codes "on" ∷ [])

unfoldable pub is_false : Text → Bool
is_false s = any (eq_text s) (codes "false" ∷ codes "0" ∷ codes "no" ∷ codes "off" ∷ [])

-- value.replace("Z", "+00:00")
unfoldable pub with_offset : Text → Text
with_offset [] = []
with_offset (c ∷ s) =
    let rest = with_offset s in if c == b'Z' then codes "+00:00" ++ rest else c ∷ rest

-- The keyword arguments so far, and the errors.
pub record Args (V : Type 0) : Type 0 where
  pub kwargs : Dict V
  pub errors : List FieldError

abbrev pub no_args : {V : Type 0} → Args V
no_args = record { kwargs = []; errors = [] }

-- kwargs[name] = v
unfoldable pub gives : {V : Type 0} → Text → V → Args V → Args V
gives name v a = record a { kwargs = put name v a.kwargs }

-- errors.extend(es)
unfoldable pub fails : {V : Type 0} → List FieldError → Args V → Args V
fails es a = record a { errors = a.errors ++ es }

module _ {V : Type 0} where
  -- `_error` with the type "missing", and `_invalid`
  unfoldable pub missing_error : Param V → FieldError
  missing_error p = record {
    loc = source_name p.source ∷ p.key ∷ [];
    msg = codes "Field required";
    kind = codes "missing";
  }

  unfoldable pub invalid : Param V → FieldError
  invalid p = record {
    loc = source_name p.source ∷ p.key ∷ [];
    msg = codes "Input should be a valid " ++ type_name p.inner;
    kind = codes "type_error";
  }

module _ {V : Type 0} (objects : Objects V) where
  -- `_convert`: `none` for its ValueError.
  unfoldable pub convert : Scalar → Text → Option V
  unfolding is_true is_false with_offset
  convert bool_type s =
      if is_true (lower s)
      then some (objects.of_bool true)
      else if is_false (lower s)
      then some (objects.of_bool false)
      else none
  convert datetime_type s = objects.parse datetime_type (with_offset s)
  convert str_type s = some (objects.of_text s)
  convert tp s = objects.parse tp s

  -- `_convert_field`
  unfoldable pub convert_field : Inner → Raw → Option V
  unfolding convert
  convert_field file (upload f) = some (objects.of_file f)
  convert_field (scalar tp) (text s) = convert tp s
  convert_field _ _ = none

  unfoldable pub convert_all : Inner → List Raw → Option (List V)
  unfolding convert_field
  convert_all tp [] = some []
  convert_all tp (r ∷ rs) = elim (convert_field tp r) [
    | none ↦ none
    | some v ↦ elim (convert_all tp rs) [ none ↦ none | some vs ↦ some (v ∷ vs) ]
  ]

  abbrev pub listed : Option (List V) → Option V
  listed none = none
  listed (some vs) = some (objects.of_list vs)

  -- The values that were sent, as the argument.
  unfoldable pub converted : Param V → Raw → List Raw → Option V
  unfolding convert_all convert_field
  converted p r rs =
      if p.many then listed (convert_all p.inner (r ∷ rs)) else convert_field p.inner r

  abbrev pub take_as : Param V → Option V → Args V → Args V
  take_as p none a = fails (invalid p ∷ []) a
  take_as p (some v) a = gives p.name v a

  -- `_take`
  unfoldable pub take : Param V → List Raw → Args V → Args V
  unfolding converted invalid missing_error gives fails
  take p [] a = if p.required then fails (missing_error p ∷ []) a else gives p.name p.default a
  take p (r ∷ rs) a = take_as p (converted p r rs) a

  -- isinstance(value, inner), for a path value that the Rust core or a host pattern gave.
  abbrev pub is_instance : Value → Inner → Bool
  is_instance (int_value n) (scalar int_type) = true
  is_instance (uuid_value s) (scalar uuid_type) = true
  is_instance (str_value s) (scalar str_type) = true
  is_instance _ _ = false

  abbrev pub object_of : Value → V
  object_of (int_value n) = objects.of_number n
  object_of (uuid_value s) = objects.of_uuid s
  object_of (str_value s) = objects.of_text s

  -- str(value)
  abbrev pub text_of : Value → Text
  text_of (int_value n) = show n
  text_of (uuid_value s) = s
  text_of (str_value s) = s

  unfoldable pub path_argument : Param V → Value → Option V
  unfolding convert_field
  path_argument p value =
      if is_instance value p.inner
      then some (object_of value)
      else convert_field p.inner (text (text_of value))

-- The key by which `_unique` tells errors apart.
unfoldable pub same_loc : List Text → List Text → Bool
same_loc [] [] = true
same_loc (s ∷ ss) (t ∷ ts) = eq_text s t && same_loc ss ts
same_loc _ _ = false

unfoldable pub same_error : FieldError → FieldError → Bool
unfolding same_loc
same_error e f = same_loc e.loc f.loc && eq_text e.kind f.kind

-- The loop of `_unique`, over the errors that were seen.
unfoldable pub unique_from : List FieldError → List FieldError → List FieldError
unfolding same_error
unique_from seen [] = []
unique_from seen (e ∷ es) =
    let known = unique_from seen es in
    let new = e ∷ unique_from (e ∷ seen) es in if any (same_error e) seen then known else new

-- `_unique`
unfoldable pub unique : List FieldError → List FieldError
unfolding unique_from
unique es = unique_from [] es
