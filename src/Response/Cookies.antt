-- ===== src/Response/Cookies.antt =====
-- korvex/_response.py: `set_cookie` and `delete_cookie`. What `http.cookies` writes for a cookie and
-- its attributes is the parameter `output`.
use korvex.Prelude.{ℕ, Bool, false, [], ◌∷◌, Option, none, some}
use korvex.Prelude.Text.{Text, codes}
use korvex.Response.{Response, add_header}

-- A `Morsel`, with the attributes that are set.
pub record Morsel : Type 0 where
  pub name : Text
  pub value : Text
  pub path : Text
  pub max_age : Option ℕ
  pub domain : Option Text
  pub secure : Bool
  pub httponly : Bool
  pub samesite : Option Text

-- if text: an attribute that is None or empty is left out
abbrev pub given : Option Text → Option Text
given (some (c ∷ s)) = some (c ∷ s)
given _ = none

unfoldable pub set_cookie : (Morsel → Text) → Morsel → Response → Response
unfolding add_header
set_cookie output m r =
    add_header r (codes "Set-Cookie")
      (output (record m { domain = given m.domain; samesite = given m.samesite }))

unfoldable pub delete_cookie :
    (Morsel → Text) → (name path : Text) → Option Text → Response → Response
unfolding set_cookie
delete_cookie output name path domain r =
    set_cookie output
      (record {
        name = name;
        value = [];
        path = path;
        max_age = some 0;
        domain = domain;
        secure = false;
        httponly = false;
        samesite = some (codes "lax");
      })
      r
