-- ===== src/Request.antt =====
-- korvex/_requests.py: what hooks and handlers read of a `Connection`. Its query string and cookies
-- are given parsed; `client` is the address and the port.
pub mod MultiDict
use korvex.Prelude.{ℕ, Option}
use korvex.Prelude.Dict.{Dict}
use korvex.Prelude.Text.{Text}
use korvex.Headers.{Headers}

-- A captured path parameter: `int`, `UUID` or `str`.
pub data Value : Type 0 where
  int_value : ℕ → Value
  uuid_value : Text → Value
  str_value : Text → Value

pub record Request : Type 0 where
  pub method : Text
  pub path : Text
  pub headers : Headers
  pub path_params : Dict Value
  pub client : Option (Text × ℕ)
  pub scheme : Text
