-- ===== src/App/Send.antt =====
-- korvex/_app.py: `__call__` for an HTTP request, `_send_stream` and `_raw_headers`. The server may
-- stop taking messages: `taken` is how many it takes before `send` raises, none where it takes all.
-- Header names and values stay text; their Latin-1 encoding changes nothing else.
use korvex.Prelude.{ℕ, Bool, true, false, List, [], ◌∷◌, ◌++◌, Option, none, some}
use korvex.Prelude.Decimal.{show}
use korvex.Prelude.Lists.{length, take}
use korvex.Prelude.Tests.{if◌then◌else◌}
use korvex.Prelude.Text.{codes, eq_text}
use korvex.Headers.{Headers}
use korvex.Request.{Request}
use korvex.Response.{Response, Stream, default_header}
use korvex.App.{State, Action, App}
use korvex.App.Respond.{Dumps, finish, respond}

-- http.response.start and http.response.body
pub data Message : Type 0 where
  start : (status : ℕ) (headers : Headers) → Message
  body : (bytes : List ℕ) (more : Bool) → Message

-- `_raw_headers`: a HEAD answer that is not streamed gets the Content-Length of its body.
abbrev with_length : Response → Option Stream → Response
with_length r (some stream) = r
with_length r none = default_header r (codes "Content-Length") (show (length r.body))

unfoldable pub raw_headers : Bool → Response → Headers
unfolding default_header
raw_headers head r = (if head then with_length r r.streaming else r).headers

abbrev pub chunk_messages : List (List ℕ) → List Message
chunk_messages [] = []
chunk_messages (chunk ∷ chunks) = body chunk true ∷ chunk_messages chunks

abbrev pub takes : Option ℕ → List Message → List Message
takes none messages = messages
takes (some n) messages = take n messages

module _ {W : Type 0} (close : ℕ → W → W) (taken : Option ℕ) where
  -- `_send_stream`: whether all was sent or not, what waited for the response runs.
  unfoldable pub send_stream : Bool → Response → Stream → State W → List Message × State W
  send_stream head r stream s = (
    takes taken (
        start r.status (raw_headers head r)
        ∷ ((if head then [] else chunk_messages stream.chunks) ++ body [] false ∷ [])),
    finish close stream.on_close s,
  )

  unfoldable pub send_response : Bool → Response → Option Stream → State W → List Message × State W
  unfolding send_stream
  send_response head r (some stream) s = send_stream head r stream s
  send_response head r none s = (
    takes taken
        (start r.status (raw_headers head r) ∷ body (if head then [] else r.body) false ∷ []),
    s,
  )

  -- `__call__`, for the routing `dispatch`.
  unfoldable pub call :
      Dumps
      → App W
      → (Request → Action W (Option Response))
      → Request
      → State W
      → List Message × State W
  unfolding send_response
  call dumps app dispatch request s =
      let (r, s') = respond dumps close app dispatch 0 request s in
      send_response (eq_text request.method (codes "HEAD")) r r.streaming s'
