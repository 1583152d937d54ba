-- ===== src/Cors.antt =====
-- korvex/middleware/_cors.py: the two hooks of `cors()`. What the call computes from its arguments is
-- a record; `none` stands for `"*"`.
pub mod Answers
use korvex.Prelude.{Bool, true, false, not, ◌&&◌, ◌||◌, ℕ, List, [], ◌∷◌, Option, none, some, map}
use korvex.Prelude.Decimal.{show}
use korvex.Prelude.Lists.{any, keep_if, is_some}
use korvex.Prelude.Tests.{ltb, ◌==◌, if◌then◌else◌}
use korvex.Prelude.Text.{
  Text, codes, eq_text, lower, upper, split, strip, is_space, is_empty, or_empty, comma_join,
}
use korvex.Headers
use korvex.Request.{Request}
use korvex.Response
use korvex.Response.{Response, make, set_header, add_header}

pub record Cors : Type 0 where
  pub any_origin : Bool
  pub origins : List Text
  pub methods : List Text
  pub any_header : Bool
  pub headers : List Text
  pub allow_credentials : Bool
  pub expose_headers : List Text
  pub max_age : ℕ

-- x in xs
unfoldable pub has : Text → List Text → Bool
has x xs = any (eq_text x) xs

unfoldable pub before_text : Text → Text → Bool
before_text [] t = true
before_text (c ∷ s) [] = false
before_text (c ∷ s) (d ∷ t) = ltb c d || (c == d && before_text s t)

-- sorted(set(xs)), one element more
unfoldable pub insert_sorted : Text → List Text → List Text
insert_sorted x [] = x ∷ []
insert_sorted x (y ∷ ys) =
    let rest = insert_sorted x ys in
    if eq_text x y then y ∷ ys else if before_text x y then x ∷ y ∷ ys else y ∷ rest

unfoldable pub sorted_set : List Text → List Text
unfolding insert_sorted before_text
sorted_set [] = []
sorted_set (x ∷ xs) = insert_sorted x (sorted_set xs)

abbrev pub or_all : Option (List Text) → List Text
or_all none = []
or_all (some xs) = xs

unfoldable pub cors :
    Option (List Text) → List Text → Option (List Text) → Bool → List Text → ℕ → Cors
unfolding sorted_set
cors allow_origins allow_methods allow_headers allow_credentials expose_headers max_age = record {
  any_origin = not (is_some allow_origins);
  origins = or_all allow_origins;
  methods = sorted_set (map upper allow_methods);
  any_header = not (is_some allow_headers);
  headers = map lower (or_all allow_headers);
  allow_credentials = allow_credentials;
  expose_headers = expose_headers;
  max_age = max_age;
}

-- The value of Access-Control-Allow-Origin for `origin`, or None.
unfoldable pub allowed_origin : Cors → Text → Option Text
unfolding has
allowed_origin c origin =
    if c.any_origin
    then some (if c.allow_credentials then origin else codes "*")
    else if has origin c.origins
    then some origin
    else none

unfoldable pub common_headers : Cors → Response → Text → Response
unfolding set_header add_header
common_headers c response origin_value =
    let named = set_header response (codes "Access-Control-Allow-Origin") origin_value in
    let varied =
      if eq_text origin_value (codes "*")
      then named
      else add_header named (codes "Vary") (codes "Origin") in
    if c.allow_credentials
    then set_header varied (codes "Access-Control-Allow-Credentials") (codes "true")
    else varied

-- The names of Access-Control-Request-Headers.
unfoldable pub requested_headers : Request → List Text
requested_headers request =
    keep_if (λ h. not (is_empty h))
      (map (λ h. lower (strip is_space h))
        (split b','
          (or_empty (Headers.get request.headers (codes "access-control-request-headers")))))

-- any(h not in headers for h in requested), where that matters
unfoldable pub headers_allowed : Cors → List Text → Bool
unfolding has
headers_allowed c requested = c.any_header || not (any (λ h. not (has h c.headers)) requested)

unfoldable pub granting : Cors → Text → List Text → Response
unfolding common_headers make
granting c origin_value requested =
    let common = common_headers c (make [] 204 []) origin_value in
    let methods = set_header common (codes "Access-Control-Allow-Methods") (comma_join c.methods) in
    let headers =
      if any (λ h. true) requested
      then set_header methods (codes "Access-Control-Allow-Headers") (comma_join requested)
      else methods in
    set_header headers (codes "Access-Control-Max-Age") (show c.max_age)

-- The answer of a preflight, from what its origin is allowed, and whether its method and its headers
-- are.
abbrev pub answer_for : Cors → Option Text → (method_in headers_in : Bool) → List Text → Response
answer_for c none method_in headers_in requested =
    Response.text (codes "Disallowed CORS origin") 400 []
answer_for c (some origin_value) false headers_in requested =
    Response.text (codes "Disallowed CORS method") 400 []
answer_for c (some origin_value) true false requested =
    Response.text (codes "Disallowed CORS headers") 400 []
answer_for c (some origin_value) true true requested = granting c origin_value requested

unfoldable pub preflight_answer : Cors → Text → Text → List Text → Response
unfolding has headers_allowed granting allowed_origin
preflight_answer c origin requested_method requested =
    answer_for c (allowed_origin c origin) (has (upper requested_method) c.methods)
      (headers_allowed c requested) requested

-- The before hook `preflight`.
unfoldable pub preflight : Cors → Request → Option Response
unfolding preflight_answer requested_headers
preflight c request =
    if not (eq_text request.method (codes "OPTIONS"))
    then none
    else elim (Headers.get request.headers (codes "origin")) [
      | none ↦ none
      | some origin ↦ elim (Headers.get request.headers (codes "access-control-request-method")) [
        | none ↦ none
        | some requested_method ↦
            some (preflight_answer c origin requested_method (requested_headers request))
      ]
    ]

unfoldable pub exposed : Cors → Response → Response
exposed c response =
    if any (λ h. true) c.expose_headers
    then set_header response (codes "Access-Control-Expose-Headers") (comma_join c.expose_headers)
    else response

-- `add_headers`, from the value for the origin and from the origin.
abbrev pub add_value : Cors → Response → Option Text → Response
add_value c response none = response
add_value c response (some origin_value) = exposed c (common_headers c response origin_value)

unfoldable pub add_for : Cors → Response → Option Text → Response
unfolding allowed_origin common_headers exposed
add_for c response none = response
add_for c response (some origin) =
    if Headers.contains response.headers (codes "Access-Control-Allow-Origin")
    then response
    else add_value c response (allowed_origin c origin)

-- The after hook `add_headers`.
unfoldable pub add_headers : Cors → Request → Response → Response
unfolding add_for
add_headers c request response = add_for c response (Headers.get request.headers (codes "origin"))
