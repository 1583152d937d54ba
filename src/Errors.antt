-- ===== src/Errors.antt =====
-- korvex/_errors.py: the exceptions that become responses, each with the classes that
-- `_find_exception_handler` looks through.
use korvex.Prelude.{ℕ, List, [], ◌∷◌, Option, none, some}
use korvex.Prelude.Text.{Text}
use korvex.Response.{Response}

pub data Class : Type 0 where
  http_exception validation_error abort_class exception : Class
  other_class : ℕ → Class

-- `loc`, `msg` and `type` of a validation error.
pub record FieldError : Type 0 where
  pub loc : List Text
  pub msg : Text
  pub kind : Text

-- `classes` are those of type(exc).__mro__ that a handler can be registered for, closest first: with
-- them, an exception of a subclass has the constructor of the class it extends.
pub data Exn : Type 0 where
  http : (classes : List Class) (status : ℕ) (detail : Text) (headers : List (Text × Text)) → Exn
  validation : (classes : List Class) → List FieldError → Exn
  abort : (classes : List Class) → Response → Exn
  other : (classes : List Class) → Exn

abbrev pub mro : Exn → List Class
mro (http classes status detail headers) = classes
mro (validation classes errors) = classes
mro (abort classes response) = classes
mro (other classes) = classes

-- The classes of a plain HTTPException, and of a plain ValidationError.
abbrev pub http_classes : List Class
http_classes = http_exception ∷ exception ∷ []

abbrev pub validation_classes : List Class
validation_classes = validation_error ∷ http_exception ∷ exception ∷ []

-- The status of an HTTPException, a ValidationError's 422 included.
abbrev pub http_status : Exn → Option ℕ
http_status (http classes status detail headers) = some status
http_status (validation classes errors) = some 422
http_status _ = none

-- HTTPException(status, detail, headers=...): without a detail, the reason of the status, which
-- `http.HTTPStatus` gives.
unfoldable pub http_error : (ℕ → Text) → ℕ → Option Text → List (Text × Text) → Exn
http_error phrase status none headers = http http_classes status (phrase status) headers
http_error phrase status (some detail) headers = http http_classes status detail headers
