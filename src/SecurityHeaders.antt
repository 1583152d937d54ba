-- ===== src/SecurityHeaders.antt =====
-- korvex/middleware/_security_headers.py: `security_headers()` and its after hook. `none` stands for
-- None, and `hsts` is a number from 0 on, so the ValueError for a negative one cannot arise.
pub mod Kept
use korvex.Prelude.{ℕ, Bool, true, false, ◌&&◌, List, [], ◌∷◌, ◌++◌, Option, none, some}
use korvex.Prelude.Decimal.{show}
use korvex.Prelude.Tests.{if◌then◌else◌}
use korvex.Prelude.Text.{Text, codes, eq_text}
use korvex.Request.{Request}
use korvex.Response.{Response, default_header}

pub record Options : Type 0 where
  pub hsts : Option ℕ
  pub hsts_subdomains : Bool
  pub hsts_preload : Bool
  pub content_security_policy : Option Text
  pub frame_options : Option Text
  pub content_type_options : Bool
  pub referrer_policy : Option Text
  pub cross_origin_opener_policy : Option Text
  pub permissions_policy : Option Text

-- The header of an option, which None and the empty text leave out.
unfoldable pub header_of : Text → Option Text → List (Text × Text)
header_of name none = []
header_of name (some []) = []
header_of name (some (c ∷ value)) = (name, c ∷ value) ∷ []

unfoldable pub always : Options → List (Text × Text)
unfolding header_of
always o =
    header_of (codes "X-Frame-Options") o.frame_options
    ++ (if o.content_type_options
        then (codes "X-Content-Type-Options", codes "nosniff") ∷ []
        else [])
    ++ header_of (codes "Referrer-Policy") o.referrer_policy
    ++ header_of (codes "Cross-Origin-Opener-Policy") o.cross_origin_opener_policy
    ++ header_of (codes "Content-Security-Policy") o.content_security_policy
    ++ header_of (codes "Permissions-Policy") o.permissions_policy

unfoldable pub transport : Options → Option Text
transport o = elim o.hsts [
  | none ↦ none
  | some age ↦ some (
      codes "max-age="
      ++ show age
      ++ (if o.hsts_subdomains then codes "; includeSubDomains" else [])
      ++ (if o.hsts_preload then codes "; preload" else []))
]

unfoldable pub set_defaults : List (Text × Text) → Response → Response
set_defaults [] response = response
set_defaults ((name, value) ∷ rest) response =
    set_defaults rest (default_header response name value)

abbrev pub with_transport : Option Text → Bool → Response → Response
with_transport (some value) true response =
    default_header response (codes "Strict-Transport-Security") value
with_transport _ _ response = response

-- The after hook `add_security_headers`.
unfoldable pub add_security_headers : Options → Request → Response → Response
unfolding always transport set_defaults
add_security_headers o request response =
    with_transport (transport o) (eq_text request.scheme (codes "https"))
      (set_defaults (always o) response)
