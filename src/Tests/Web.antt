-- ===== src/Tests/Web.antt =====
-- Headers, the middleware that sets them, the security schemes and connections.
use korvex.Prelude.{ℕ, ◌≤◌, true, false, List, [], ◌∷◌, none, some, ◌≡◌, refl, ◌⊎◌, ◌↔◌}
use korvex.Prelude.Dict.{first_some}
use korvex.Prelude.Tests.{if◌then◌else◌}
use korvex.Prelude.Text.{Text, codes, eq_text}
use korvex.Headers
use korvex.Headers.{Headers, get_all, same_name}
use korvex.Headers.Spec.{Edit, setting, removing, adding, run_at, get_all-run}
use korvex.Request.{Request}
use korvex.Response.{Response, make}
use korvex.Cors.{Cors, cors, allowed_origin, preflight, requested_headers}
use korvex.Cors.Answers.{granted, says, preflight-says}
use korvex.SecurityHeaders.{Options, always, transport, add_security_headers}
use korvex.SecurityHeaders.Kept.{value_in, transport_for, get-add_security_headers}
use korvex.RequestId.{is_safe, assign, send_back, send_back-assign}
use korvex.App.{returned}
use korvex.Security.{Scheme, bearer, call}
use korvex.Security.Tokens.{call-judged, Sends, refusal}
use korvex.Websocket.{Operation, new_socket, connect, got_text, disconnect}
use korvex.Websocket.Closing.{run-closes_once, close_count}
use korvex.Prelude.Text.{lower}
use korvex.Prelude.Text.{lower_code}
use korvex.Prelude.Text.{is_empty}

abbrev sample : Headers
sample = record { items = (codes "A", codes "1") ∷ (codes "b", codes "2") ∷ [] }

abbrev edits : List Edit
edits = adding (codes "a") (codes "3") ∷ setting (codes "B") (codes "4") ∷ removing (codes "c") ∷ []

get_all-run_example :
    get_all (korvex.Headers.Spec.run edits sample) (codes "a")
    ≡ run_at (codes "a") edits (get_all sample (codes "a"))
get_all-run_example = get_all-run edits sample (codes "a")

abbrev asking : Request
asking = record {
  method = codes "OPTIONS";
  path = codes "/";
  headers = record {
    items =
        (codes "Origin", codes "https://a.example")
        ∷ (codes "Access-Control-Request-Method", codes "get")
        ∷ (codes "Authorization", codes "bearer abc")
        ∷ (codes "X-Request-ID", codes "id-1")
        ∷ [];
  };
  path_params = [];
  client = none;
  scheme = codes "https";
}

abbrev shared : Cors
shared = cors (some (codes "https://a.example" ∷ [])) (codes "GET" ∷ []) (some []) true [] 600

abbrev plain : Response
plain = make [] 200 []

preflight-says_example :
    (r : Response) × (preflight shared asking ≡ some r)
    × (says r ≡ (
        if granted shared (codes "https://a.example") (codes "get") (requested_headers asking)
        then (204, allowed_origin shared (codes "https://a.example"))
        else (400, none)))
unfolding Headers.get Headers.get_all Headers.values_of Headers.same_name eq_text lower lower_code
preflight-says_example =
    preflight-says shared asking (codes "https://a.example") (codes "get") refl refl refl

abbrev options : Options
options = record {
  hsts = some 60;
  hsts_subdomains = true;
  hsts_preload = false;
  content_security_policy = none;
  frame_options = some (codes "DENY");
  content_type_options = true;
  referrer_policy = none;
  cross_origin_opener_policy = none;
  permissions_policy = none;
}

get-add_security_headers_example :
    Headers.get (add_security_headers options asking plain).headers (codes "x-frame-options")
    ≡ first_some (Headers.get plain.headers (codes "x-frame-options")) (
        first_some (value_in (always options) (codes "x-frame-options")) (
          value_in
            (transport_for (transport options) (eq_text asking.scheme (codes "https")))
            (codes "x-frame-options")))
get-add_security_headers_example =
    get-add_security_headers options asking plain (codes "x-frame-options")

send_back-assign_example :
    (id : Text) × (Headers.get
        (send_back
          (codes "X-Request-ID")
          (assign (codes "X-Request-ID") true (codes "f00d") asking)
          plain).headers
        (codes "x-request-id")
      ≡ (if same_name (codes "X-Request-ID") (codes "x-request-id")
          then some id
          else Headers.get plain.headers (codes "x-request-id")))
    × (((true ≡ true)
          × (Headers.get asking.headers (codes "X-Request-ID") ≡ some id)
          × (is_safe id ≡ true))
        ⊎ ((id ≡ codes "f00d")
            × ((true ≡ false)
                ⊎ (Headers.get asking.headers (codes "X-Request-ID") ≡ none)
                ⊎ ((own : Text) × (Headers.get asking.headers (codes "X-Request-ID") ≡ some own)
                    × (is_safe own ≡ false)))))
    × (send_back (codes "X-Request-ID") none plain ≡ plain)
send_back-assign_example =
    send_back-assign (codes "X-Request-ID") true (codes "f00d") asking plain (codes "x-request-id")

abbrev phrases : ℕ → Text
phrases status = codes "Error"

abbrev scheme : Scheme
scheme = record { kind = bearer; required = true }

call-judged_example :
    ((call phrases [] [] asking scheme ≡ returned (some (codes "abc")))
      ↔ (Sends [] [] asking scheme.kind (codes "abc") × (is_empty (codes "abc") ≡ false)))
    × (((t : Text) × (call phrases [] [] asking scheme ≡ returned (some t)))
        ⊎ (call phrases [] [] asking scheme ≡ refusal phrases scheme))
call-judged_example = call-judged phrases [] [] asking scheme (codes "abc")

abbrev operations : List Operation
operations =
    korvex.Websocket.accepts none []
    ∷ korvex.Websocket.receives
    ∷ korvex.Websocket.closes 1000 []
    ∷ korvex.Websocket.closes 1001 []
    ∷ []

run-closes_once_example :
    close_count
      (korvex.Websocket.run operations
        (new_socket (connect ∷ got_text (codes "hi") ∷ disconnect none ∷ []))).sent
    ≤ (if (korvex.Websocket.run operations
          (new_socket (connect ∷ got_text (codes "hi") ∷ disconnect none ∷ []))).closed
        then 1
        else 0)
run-closes_once_example =
    run-closes_once operations (connect ∷ got_text (codes "hi") ∷ disconnect none ∷ [])
