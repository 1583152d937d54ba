-- ===== src/Response.antt =====
-- korvex/_response.py: `Response` and `StreamingResponse`, and the constructors that the rest of the
-- program calls. A response is an object that hooks change in place: a changed response is a new
-- record. `header_pairs` takes a mapping's items or the pairs themselves; both are a list of pairs
-- here, so its TypeError for an item that is no pair cannot arise.
pub mod Types
pub mod Cookies
use korvex.Prelude.{ℕ, ◌+◌, ◌*◌, ◌/◌, ◌%◌, Bool, List, [], ◌∷◌, ◌++◌, Option, none, some}
use korvex.Prelude.Tests.{ltb, if◌then◌else◌}
use korvex.Prelude.Text.{Text, codes}
use korvex.Headers
use korvex.Headers.{Headers}

-- What a `StreamingResponse` adds: the chunks that it yields, as bytes, and `_on_close`, each
-- callback by the identity of the dependency run that it closes.
pub record Stream : Type 0 where
  pub chunks : List (List ℕ)
  pub on_close : List ℕ

pub record Response : Type 0 where
  pub status : ℕ
  pub headers : Headers
  pub body : List ℕ
  pub streaming : Option Stream

-- str.encode(): UTF-8, one code point.
unfoldable pub encode_code : ℕ → List ℕ
encode_code c =
    if ltb c 128
    then c ∷ []
    else if ltb c 2048
    then (192 + c / 64) ∷ (128 + c % 64) ∷ []
    else if ltb c 65536
    then (224 + c / 4096) ∷ (128 + c / 64 % 64) ∷ (128 + c % 64) ∷ []
    else (240 + c / 262144) ∷ (128 + c / 4096 % 64) ∷ (128 + c / 64 % 64) ∷ (128 + c % 64) ∷ []

unfoldable pub encode : Text → List ℕ
encode [] = []
encode (c ∷ s) = encode_code c ++ encode s

-- Response(body, status=status, headers=pairs), for a `bytes` body.
unfoldable pub make : List ℕ → ℕ → List (Text × Text) → Response
make body status pairs = record {
  status = status;
  headers = record { items = pairs };
  body = body;
  streaming = none;
}

-- headers.set(name, value), on the response's headers
unfoldable pub set_header : Response → Text → Text → Response
set_header r name value = record r { headers = Headers.set r.headers name value }

unfoldable pub add_header : Response → Text → Text → Response
add_header r name value = record r { headers = Headers.add r.headers name value }

unfoldable pub remove_header : Response → Text → Response
remove_header r name = record r { headers = Headers.remove r.headers name }

-- if name not in response.headers: response.headers.set(name, value)
unfoldable pub default_header : Response → Text → Text → Response
unfolding set_header
default_header r name value = if Headers.contains r.headers name then r else set_header r name value

unfoldable pub with_type : Text → Text → ℕ → List (Text × Text) → Response
unfolding make default_header encode encode_code
with_type body content_type status pairs =
    default_header (make (encode body) status pairs) (codes "Content-Type") content_type

unfoldable pub text : Text → ℕ → List (Text × Text) → Response
unfolding with_type
text body status pairs = with_type body (codes "text/plain; charset=utf-8") status pairs

-- Response.json(data, ...), for the text that `json.dumps(data)` gives.
unfoldable pub json : Text → ℕ → List (Text × Text) → Response
unfolding with_type
json dumped status pairs = with_type dumped (codes "application/json") status pairs

unfoldable pub redirect : Text → ℕ → List (Text × Text) → Response
unfolding make set_header
redirect location status pairs = set_header (make [] status pairs) (codes "Location") location

-- Response.stream(chunks, ...), for chunks of bytes.
unfoldable pub stream : List (List ℕ) → ℕ → List (Text × Text) → Response
unfolding make
stream chunks status pairs = record (make [] status pairs) {
  streaming = some (record { chunks = chunks; on_close = [] });
}
