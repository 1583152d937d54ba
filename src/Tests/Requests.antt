-- ===== src/Tests/Requests.antt =====
-- One request through an app: its hooks, its route and what waits for its response.
use korvex.Prelude.{ℕ, ◌+◌, [], ◌∷◌, reverse, Option, none, some, ◌≡◌, ◌≢◌, refl}
use korvex.Prelude.Tests.{if◌then◌else◌}
use korvex.Prelude.Text.{Text, codes, eq_text, lower, split, rstrip}
use korvex.Headers
use korvex.Errors.{http, other, exception}
use korvex.Request.{Request}
use korvex.Response.{Response, make}
use korvex.Router.{found, missing}
use korvex.Hosts
use korvex.Hosts.{Host, literal, host_for, host_labels}
use korvex.App.{
  returned, raised, State, Action, replaced, status_key, App, BeforeHook, AfterHook,
  ExceptionHandler, after_request,
}
use korvex.App.Respond.{
  Dumps, Handlers, run_before, route_or_error, first_response, respond, after_then, run_after,
}
use korvex.App.Closing.{accounted}
use korvex.App.Send.{call}
use korvex.App.Call.{call-closes, respond-after_request, raising_hook_loses}
use korvex.App.Handlers.{first_handler, keys_of, answer_with, handle_error-eq}
use korvex.App.Dispatch.{Lookup, Routing, dispatch}
use korvex.App.Handshake.{Endpoint, bound, broke, websocket, Ends, websocket-Ends}
use korvex.Websocket.{new_socket, connect}
use korvex.Websocket
use korvex.App.Routes.{dispatch-owner}
use korvex.App.Respond.{settle}
use korvex.Prelude.Text.{eq_text}
use korvex.Prelude.{false}
use korvex.Errors.{http_classes}
use korvex.Errors.{Exn}
use korvex.App.Respond.{handle_error}
use korvex.Errors.{other_class}

abbrev dumps : Dumps
dumps = record { detail = λ s. s; errors = λ es. codes "errors"; phrase = λ status. codes "Error" }

abbrev closing : ℕ → ℕ → ℕ
closing ident w = w + ident

abbrev request : Request
request = record {
  method = codes "GET";
  path = codes "/";
  headers = record { items = (codes "host", codes "a.b") ∷ [] };
  path_params = [];
  client = none;
  scheme = codes "http";
}

abbrev streamed : Response
streamed = record (make [] 200 []) {
  streaming = some (record { chunks = (b'x' ∷ []) ∷ []; on_close = 7 ∷ [] });
}

abbrev start : State ℕ
start = record { user = 0; closed = [] }

abbrev streams : Request → Action ℕ (Option Response)
streams _ s = (returned (some streamed), s)

abbrev replaces : AfterHook ℕ
replaces _ response s = (returned (replaced response (make [] 204 [])), s)

abbrev fails : AfterHook ℕ
fails _ response s = (raised (other (exception ∷ [])), s)

abbrev refuses : BeforeHook ℕ
refuses _ s = (raised (http http_classes 404 (codes "no") []), s)

abbrev app : App ℕ
app = record { before = []; after = replaces ∷ []; handlers = [] }

abbrev guarded : App ℕ
guarded = record { before = refuses ∷ []; after = []; handlers = [] }

call-closes_example :
    (call closing none dumps app streams request start).1.closed
    ≡ accounted dumps closing (first_response dumps app streams 0 request start)
unfolding first_response settle route_or_error run_before make
call-closes_example =
    call-closes dumps closing none app streams request start
      ((λ request r s. (refl, refl, refl)), tt)

respond-after_request_example :
    respond dumps closing (after_request ℕ fails app) streams 0 request start
    ≡ after_then dumps closing
        (fails request
          (first_response dumps app streams 0 request start).0
          (first_response dumps app streams 0 request start).1)
        (run_after dumps closing (reverse app.after) request)
respond-after_request_example =
    respond-after_request dumps closing none app fails streams 0 request start

raising_hook_loses_example :
    (call closing none dumps (after_request ℕ fails app) streams request start).1.closed ≡ []
unfolding first_response settle route_or_error run_before
raising_hook_loses_example =
    raising_hook_loses dumps closing none app fails streams request (other (exception ∷ [])) start
      start refl refl

abbrev not_found : ExceptionHandler ℕ
not_found _ exn s = (returned (make (codes "gone") 404 []), s)

abbrev handlers : Handlers ℕ
handlers = (status_key 404, not_found) ∷ []

-- A subclass of HTTPException.
abbrev missing_task : Exn
missing_task = http (other_class 7 ∷ http_classes) 404 (codes "no") []

handle_error-eq_example :
    handle_error dumps handlers request missing_task start
    ≡ answer_with dumps (first_handler handlers (keys_of missing_task)) request missing_task start
handle_error-eq_example = handle_error-eq dumps handlers request missing_task start

abbrev stops : Request → Action ℕ (Option Response)
stops _ s = (raised (other (exception ∷ [])), s)

refused_first : (run_before guarded.before request start).0 ≢ returned none
unfolding run_before
refused_first h = cc

abbrev site : Host
site = record { pattern = codes "a.b"; labels = literal (codes "a") ∷ literal (codes "b") ∷ [] }

abbrev nowhere : Lookup
nowhere path method = missing

abbrev root : Lookup
root path method = found (codes "root") [] []

abbrev by_pattern : Lookup → Host → Lookup
by_pattern others host = if eq_text host.pattern (codes "a.b") then nowhere else others

abbrev routing : Lookup → Routing ℕ
routing others = record {
  hosts = site ∷ [];
  host_lookup = by_pattern others;
  lookup = nowhere;
  routes = [];
}

abbrev phrases : ℕ → Text
phrases status = codes "Error"

dispatch-owner_example :
    dispatch phrases (record (routing root) { host_lookup = by_pattern nowhere }) request start
    ≡ dispatch phrases (routing root) request start
unfolding eq_text host_for host_labels Hosts.match lower Headers.get Headers.get_all
    Headers.values_of Headers.same_name split rstrip
dispatch-owner_example =
    dispatch-owner phrases (routing root) request site [] (by_pattern nowhere) start refl refl

-- It accepts, and its handler raises.
abbrev echo : Endpoint ℕ
echo = record {
  bind = λ k s. (bound, k, s);
  handle = λ k s. (broke, (korvex.Websocket.accept none [] k).1, s);
  tear_down = λ s. (false, s);
}

websocket-Ends_example : Ends (websocket [] (some echo) request (new_socket (connect ∷ [])) start).0
websocket-Ends_example = websocket-Ends [] (some echo) request (new_socket (connect ∷ [])) start
