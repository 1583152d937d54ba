-- ===== src/App/Respond.antt =====
-- korvex/_app.py: `_respond` and what it calls, `_handle_error`, `_find_exception_handler`,
-- `_server_error` and `_finish`. A logged message changes nothing else and is left out.
use korvex.Prelude.{ℕ, List, [], ◌∷◌, ◌++◌, reverse, Option, none, some}
use korvex.Prelude.Tests.{◌==◌, if◌then◌else◌}
use korvex.Prelude.Text.{Text, codes}
use korvex.Errors.{
  Class, exception, Exn, http, validation, abort, other, mro, http_status, http_error, FieldError,
}
use korvex.Request.{Request}
use korvex.Response
use korvex.Response.{Response, Stream}
use korvex.App.{
  Outcome, returned, raised, State, Action, Change, kept, replaced, Key, status_key, class_key,
  BeforeHook, AfterHook, ExceptionHandler, App, handler_of,
}

-- json.dumps({"detail": ...}), of a text and of a list of errors, and `http.HTTPStatus`'s reasons.
pub record Dumps : Type 0 where
  pub detail : Text → Text
  pub errors : List FieldError → Text
  pub phrase : ℕ → Text

unfoldable pub server_error : Dumps → Response
server_error dumps = Response.json (dumps.detail (codes "Internal Server Error")) 500 []

-- The response that an exception without a handler is answered with.
unfoldable pub default_answer : Dumps → Exn → Response
unfolding server_error
default_answer dumps (http classes status detail headers) =
    Response.json (dumps.detail detail) status headers
default_answer dumps (validation classes errors) = Response.json (dumps.errors errors) 422 []
default_answer dumps (abort classes response) = response
default_answer dumps (other classes) = server_error dumps

abbrev pub waiting_in : Option Stream → List ℕ
waiting_in none = []
waiting_in (some stream) = stream.on_close

-- `_on_close` of a response, empty where it is not streamed.
abbrev pub waiting : Response → List ℕ
waiting r = waiting_in r.streaming

-- An exception handler that raises in turn is answered with a plain 500.
abbrev pub answered : Dumps → Outcome Response → Response
answered dumps (returned r) = r
answered dumps (raised exn) = server_error dumps

-- A handler that returns something that is no response.
abbrev pub type_error : Exn
type_error = other (exception ∷ [])

-- `_exception_handlers`
abbrev pub Handlers : Type 0 → Type 0
Handlers W = List (Key × ExceptionHandler W)

module _ {W : Type 0} where
  -- `_finish`: what waits for a streamed response runs, and waits no more.
  unfoldable pub finish : (ℕ → W → W) → List ℕ → State W → State W
  finish close [] s = s
  finish close (run ∷ runs) s =
      finish close runs (record { user = close run s.user; closed = s.closed ++ run ∷ [] })

  unfoldable pub first_class : Handlers W → List Class → Option (ExceptionHandler W)
  first_class handlers [] = none
  first_class handlers (c ∷ classes) = elim (handler_of W (class_key c) handlers) [
    | some f ↦ some f
    | none ↦ first_class handlers classes
  ]

  unfoldable pub by_status : Handlers W → Option ℕ → Option (ExceptionHandler W)
  by_status handlers none = none
  by_status handlers (some status) = handler_of W (status_key status) handlers

  unfoldable pub find_exception_handler : Handlers W → Exn → Option (ExceptionHandler W)
  unfolding first_class by_status
  find_exception_handler handlers exn = elim (by_status handlers (http_status exn)) [
    | some f ↦ some f
    | none ↦ first_class handlers (mro exn)
  ]

  unfoldable pub handled : Dumps → Handlers W → Request → Exn → State W → Response × State W
  unfolding find_exception_handler server_error
  handled dumps handlers request exn s = elim (find_exception_handler handlers exn) [
    | none ↦ (default_answer dumps exn, s)
    | some f ↦ let (o, s') = f request exn s in (answered dumps o, s')
  ]

  -- An `Abort` carries its own response.
  unfoldable pub handle_error : Dumps → Handlers W → Request → Exn → State W → Response × State W
  unfolding handled
  handle_error dumps handlers request (abort classes response) s = (response, s)
  handle_error dumps handlers request exn s = handled dumps handlers request exn s

  -- One before hook, and the rest of the loop.
  abbrev pub before_then :
      Outcome (Option Response) × State W
      → (State W → Outcome (Option Response) × State W)
      → Outcome (Option Response) × State W
  before_then (raised exn, s) k = (raised exn, s)
  before_then (returned (some response), s) k = (returned (some response), s)
  before_then (returned none, s) k = k s

  unfoldable pub run_before : List (BeforeHook W) → Request → Action W (Option Response)
  run_before [] request s = (returned none, s)
  run_before (hook ∷ hooks) request s = before_then (hook request s) (run_before hooks request)

  -- One after hook, and the rest of the loop.
  abbrev pub after_then :
      Dumps
      → (ℕ → W → W)
      → Outcome Change × State W
      → (Response → State W → Response × State W)
      → Response × State W
  after_then dumps close (raised exn, s) k = (server_error dumps, s)
  after_then dumps close (returned (kept response), s) k = k response s
  after_then dumps close (returned (replaced old new), s) k = k new (finish close (waiting old) s)

  -- The loop over the after hooks, in the order in which they run.
  unfoldable pub run_after :
      Dumps → (ℕ → W → W) → List (AfterHook W) → Request → Response → State W → Response × State W
  run_after dumps close [] request response s = (response, s)
  run_after dumps close (hook ∷ hooks) request response s =
      after_then dumps close (hook request response s) (run_after dumps close hooks request)

  -- What was raised, or the response: none where the handler gave something else.
  unfoldable pub settle :
      Dumps → Handlers W → Request → Outcome (Option Response) × State W → Response × State W
  settle dumps handlers request (raised exn, s) = handle_error dumps handlers request exn s
  settle dumps handlers request (returned (some response), s) = (response, s)
  settle dumps handlers request (returned none, s) =
      handle_error dumps handlers request type_error s

  -- The route, or the error that the server decided on (`error`, 0 for none).
  unfoldable pub route_or_error :
      Dumps → Action W (Option Response) → ℕ → Action W (Option Response)
  route_or_error dumps dispatch error s =
      if error == 0 then dispatch s else (raised (http_error dumps.phrase error none []), s)

  -- The response before the after hooks.
  unfoldable pub first_response :
      Dumps
      → App W
      → (Request → Action W (Option Response))
      → ℕ
      → Request
      → State W
      → Response × State W
  unfolding settle route_or_error
  first_response dumps app dispatch error request s = settle dumps app.handlers request (
      before_then (run_before app.before request s) (route_or_error dumps (dispatch request) error))

  -- `_respond`, for the routing `dispatch`.
  unfoldable pub respond :
      Dumps
      → (ℕ → W → W)
      → App W
      → (Request → Action W (Option Response))
      → ℕ
      → Request
      → State W
      → Response × State W
  respond dumps close app dispatch error request s =
      let (response, s') = first_response dumps app dispatch error request s in
      run_after dumps close (reverse app.after) request response s'
