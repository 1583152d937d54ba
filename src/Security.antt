-- ===== src/Security.antt =====
-- korvex/security.py: the schemes that read a credential from a request. Their `openapi` methods are
-- not modelled. A request's query and cookies are given parsed, each key with its first value.
pub mod Tokens
use korvex.Prelude.{ℕ, Bool, true, false, not, ◌&&◌, ◌||◌, List, [], ◌∷◌, ◌++◌, Option, none, some}
use korvex.Prelude.Dict.{Dict, find}
use korvex.Prelude.Tests.{◌==◌, if◌then◌else◌}
use korvex.Prelude.Text.{Text, codes, eq_text, lower, strip, is_space, is_empty, or_empty}
use korvex.Headers
use korvex.Errors.{Exn, http_error}
use korvex.Request.{Request}
use korvex.App.{Outcome, returned, raised}

-- s.partition(c), for one character: what is before and after it.
unfoldable pub partition : ℕ → Text → Text × Text
partition c [] = ([], [])
partition c (x ∷ s) = let rest = partition c s in if x == c then ([], s) else (x ∷ rest.0, rest.1)

abbrev pub non_empty : Text → Option Text
non_empty [] = none
non_empty (c ∷ s) = some (c ∷ s)

-- The token of an Authorization header.
unfoldable pub token_of : Text → Option Text
unfolding partition
token_of header =
    let parts = partition b' ' header in
    if eq_text (lower parts.0) (codes "bearer") then non_empty (strip is_space parts.1) else none

-- `_bearer_token`
unfoldable pub bearer_token : Request → Option Text
unfolding token_of
bearer_token request = token_of (or_empty (Headers.get request.headers (codes "authorization")))

-- Where an `APIKey` is read.
pub data Location : Type 0 where
  in_header : Location
  in_query : Location
  in_cookie : Location

-- The kinds of scheme, which read the credential: `Bearer` and `OAuth2Password` in the same way.
pub data Kind : Type 0 where
  bearer : Kind
  api_key : Location → Text → Kind
  oauth2_password : Kind

pub record Scheme : Type 0 where
  pub kind : Kind
  pub required : Bool

abbrev pub challenge : Kind → Text
challenge (api_key location key) = codes "APIKey"
challenge _ = codes "Bearer"

unfoldable pub given : Location → Option Text → List (Location × Text)
given location none = []
given location (some []) = []
given location (some (c ∷ key)) = (location, c ∷ key) ∷ []

abbrev pub only_one : Bool → List (Location × Text) → Option Scheme
only_one required ((location, key) ∷ []) =
    some (record { kind = api_key location key; required = required })
only_one required _ = none

-- APIKey(header=, query=, cookie=), with `none` for its TypeError.
unfoldable pub make_api_key : (header query cookie : Option Text) → Bool → Option Scheme
unfolding given
make_api_key header query cookie required =
    only_one required (given in_header header ++ given in_query query ++ given in_cookie cookie)

unfoldable pub credential : (query cookies : Dict Text) → Request → Kind → Option Text
unfolding bearer_token
credential query cookies request bearer = bearer_token request
credential query cookies request oauth2_password = bearer_token request
credential query cookies request (api_key in_header key) = Headers.get request.headers key
credential query cookies request (api_key in_query key) = find key query
credential query cookies request (api_key in_cookie key) = find key cookies

-- The answer for a credential, where None and the empty text count as none.
abbrev pub judged : (ℕ → Text) → Scheme → Option Text → Outcome (Option Text)
judged phrase scheme (some (c ∷ s)) = returned (some (c ∷ s))
judged phrase scheme _ =
    if scheme.required
    then raised (
        http_error phrase 401 (some (codes "Not authenticated"))
          ((codes "WWW-Authenticate", challenge scheme.kind) ∷ []))
    else returned none

-- `SecurityScheme.__call__`
unfoldable pub call :
    (ℕ → Text) → (query cookies : Dict Text) → Request → Scheme → Outcome (Option Text)
unfolding credential
call phrase query cookies request scheme =
    judged phrase scheme (credential query cookies request scheme.kind)
