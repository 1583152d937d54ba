-- ===== src/App/Call.antt =====
-- What a server gets of one request, and what is closed by then.
use korvex.Prelude.{ℕ, Bool, [], ◌∷◌, ◌++◌, reverse, Option, none, some, ◌≡◌, sym, ap, ◌∙◌}
use mathlib.Core.List.{append-nil, reverse-append}
use korvex.Prelude.Lists.{All}
use korvex.Prelude.Text.{codes, eq_text}
use korvex.Errors.{Exn}
use korvex.Request.{Request}
use korvex.Response
use korvex.Response.{Response, Stream}
use korvex.Response.Types.{streaming-default_header}
use korvex.App.{raised, State, Action, AfterHook, App, after_request}
use korvex.App.Respond.{
  Dumps, server_error, waiting, waiting_in, after_then, run_after, first_response, respond,
}
use korvex.App.Closing.{closed-finish, IsCareful, accounted, run_after-accounted}
use korvex.App.Send.{send_response, call}

waiting-server_error : (dumps : Dumps) → waiting (server_error dumps) ≡ []
unfolding server_error Response.json
waiting-server_error dumps = ap waiting_in (streaming-default_header _ _ _)

module _ {W : Type 0} (dumps : Dumps) (close : ℕ → W → W) (taken : Option ℕ) where
  closed-send_response :
      (head : Bool) (r : Response) (streaming : Option Stream) (s : State W)
      → (send_response close taken head r streaming s).1.closed ≡ s.closed ++ waiting_in streaming
  unfolding send_response
  closed-send_response head r none s = sym (append-nil s.closed)
  closed-send_response head r (some stream) s = closed-finish dumps close stream.on_close s

  closed-call :
      (app : App W) (dispatch : Request → Action W (Option Response)) (request : Request)
      (s : State W)
      → (call close taken dumps app dispatch request s).1.closed
        ≡ accounted dumps close (respond dumps close app dispatch 0 request s)
  unfolding call
  closed-call app dispatch request s =
      let (r, s') = respond dumps close app dispatch 0 request s in
      closed-send_response (eq_text request.method (codes "HEAD")) r r.streaming s'

  accounted-respond :
      (app : App W) (dispatch : Request → Action W (Option Response)) (request : Request)
      (s : State W)
      → All (IsCareful dumps close) (reverse app.after)
      → accounted dumps close (respond dumps close app dispatch 0 request s)
        ≡ accounted dumps close (first_response dumps app dispatch 0 request s)
  unfolding respond
  accounted-respond app dispatch request s careful =
      run_after-accounted dumps close (reverse app.after) request
        (first_response dumps app dispatch 0 request s).0
        (first_response dumps app dispatch 0 request s).1 careful

  -- Where every after hook is careful, each dependency run that the route's response waits for is
  -- closed exactly once by the end of the request, in order and behind those closed before, whether
  -- a hook replaced the response or not and however few of its messages the server took.
  pub call-closes :
      (app : App W) (dispatch : Request → Action W (Option Response)) (request : Request)
      (s : State W)
      → All (IsCareful dumps close) (reverse app.after)
      → (call close taken dumps app dispatch request s).1.closed
        ≡ accounted dumps close (first_response dumps app dispatch 0 request s)
  call-closes app dispatch request s careful =
      closed-call app dispatch request s ∙ accounted-respond app dispatch request s careful

  -- An after hook declared last runs first: it gets the response of the hooks before the route, the
  -- route or the exception handlers, none of which it changes, and the hooks declared before it get
  -- what it leaves.
  pub respond-after_request :
      (app : App W) (hook : AfterHook W) (dispatch : Request → Action W (Option Response))
      (error : ℕ) (request : Request) (s : State W)
      → respond dumps close (after_request W hook app) dispatch error request s
        ≡ after_then dumps close
            (hook request
              (first_response dumps app dispatch error request s).0
              (first_response dumps app dispatch error request s).1)
            (run_after dumps close (reverse app.after) request)
  unfolding respond run_after after_request first_response
  respond-after_request app hook dispatch error request s =
      rw (reverse-append app.after (hook ∷ []))

  -- Where the after hook that runs first raises and closes nothing, no dependency run that the
  -- route's response waits for is closed by the end of the request, however many there are.
  pub raising_hook_loses :
      (app : App W) (hook : AfterHook W) (dispatch : Request → Action W (Option Response))
      (request : Request) (exn : Exn) (s left : State W)
      → hook request
          (first_response dumps app dispatch 0 request s).0
          (first_response dumps app dispatch 0 request s).1
        ≡ (raised exn, left)
      → left.closed ≡ (first_response dumps app dispatch 0 request s).1.closed
      → (call close taken dumps (after_request W hook app) dispatch request s).1.closed
        ≡ (first_response dumps app dispatch 0 request s).1.closed
  raising_hook_loses app hook dispatch request exn s left raises same =
      closed-call (after_request W hook app) dispatch request s
      ∙ rw (respond-after_request app hook dispatch 0 request s, raises)
          (rw (waiting-server_error dumps) (append-nil left.closed ∙ same))
