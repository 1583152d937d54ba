-- ===== src/Response/Types.antt =====
-- The content type of the responses that `Response.text` and `Response.json` make.
use korvex.Prelude.{◌≡◌, some, arith}
use korvex.Prelude.Tests.{if◌then◌else◌}
use korvex.Prelude.Text.{Text}
use korvex.Headers
use korvex.Headers.{Headers}
use korvex.Headers.Laws.{get-set}
use korvex.Response.{Response, default_header, set_header}

-- A default never changes a header that is there, nor any other name, and is there afterwards.
pub get-default_header :
    (r : Response) (n v m : Text)
    → Headers.get (default_header r n v).headers m ≡ (
        if Headers.contains r.headers n
        then Headers.get r.headers m
        else if Headers.same_name n m
        then some v
        else Headers.get r.headers m)
unfolding default_header set_header
get-default_header r n v m = ground (arith, get-set r.headers n v m)

pub status-default_header : (r : Response) (n v : Text) → (default_header r n v).status ≡ r.status
unfolding default_header set_header
status-default_header r n v = ground arith

pub body-default_header : (r : Response) (n v : Text) → (default_header r n v).body ≡ r.body
unfolding default_header set_header
body-default_header r n v = ground arith

pub streaming-default_header :
    (r : Response) (n v : Text) → (default_header r n v).streaming ≡ r.streaming
unfolding default_header set_header
streaming-default_header r n v = ground arith

pub ruleset default_laws =
    (get-default_header, status-default_header, body-default_header, streaming-default_header)
