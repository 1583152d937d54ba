-- ===== src/App/Handshake.antt =====
-- korvex/_app.py: the way of a WebSocket connection, `_websocket` once its route is looked up, with
-- `_websocket_hooks_allow` and `_close_quietly`. What the route does is its `Endpoint`, on the
-- connection and the state: `bind` resolves the dependencies and reads the arguments, `handle` is the
-- handler, and `tear_down` is `run.close`, which says whether it raised a new
-- error; called again, it has nothing left to do.
use korvex.Prelude.{
  ℕ, Bool, true, false, List, [], ◌∷◌, Option, none, some, ◌≡◌, refl, ◌⊎◌, inl, inr,
}
use korvex.Prelude.Tests.{if◌then◌else◌}
use korvex.Request.{Request}
use korvex.Response.{Response}
use korvex.App.{Outcome, returned, raised, State, BeforeHook}
use korvex.Websocket
use korvex.Websocket.{
  Incoming, Socket, Reply, gave, waits, after, next_of, connecting, wait_connect, closing,
  close_unless, close,
}

-- HTTPException and Abort refuse; WebSocketDisconnect, and any other exception.
pub data Bound : Type 0 where
  bound : Bound
  refused : Bound
  bind_gone : Bound
  bind_broke : Bound

pub data Handled : Type 0 where
  finished : Handled
  gone : Handled
  broke : Handled

pub record Endpoint (W : Type 0) : Type 0 where
  pub bind : Socket → State W → Bound × Socket × State W
  pub handle : Socket → State W → Handled × Socket × State W
  pub tear_down : State W → Bool × State W

module _ {W : Type 0} where
  abbrev pub allow_then :
      Outcome (Option Response) × State W → (State W → Bool × State W) → Bool × State W
  allow_then (returned none, s) k = k s
  allow_then (returned (some response), s) k = (false, s)
  allow_then (raised exn, s) k = (false, s)

  -- `_websocket_hooks_allow`: a hook that answers or raises refuses.
  unfoldable pub hooks_allow : List (BeforeHook W) → Request → State W → Bool × State W
  hooks_allow [] request s = (true, s)
  hooks_allow (hook ∷ hooks) request s = allow_then (hook request s) (hooks_allow hooks request)

  -- `_close_quietly`
  unfoldable pub close_quietly : Endpoint W → State W → State W
  close_quietly e s = (e.tear_down s).1

  -- The except and else clauses, and the close that follows.
  unfoldable pub ended : Endpoint W → Handled → Socket → State W → (Reply Bool × Socket) × State W
  unfolding close_quietly close
  ended e finished socket s = (close 1000 [] socket, close_quietly e s)
  ended e gone socket s = (close 1000 [] socket, close_quietly e s)
  ended e broke socket s =
      (close (if socket.accepted then 1011 else 1000) [] socket, close_quietly e s)

  -- A refusal: where the teardown raises, that is an unhandled error.
  abbrev pub refused_by : Endpoint W → Socket → Bool × State W → (Reply Bool × Socket) × State W
  refused_by e socket (true, s) = ended e broke socket s
  refused_by e socket (false, s) = (close 1000 [] socket, s)

  abbrev pub handled_by : Endpoint W → Handled × Socket × State W → (Reply Bool × Socket) × State W
  handled_by e (how, socket, s) = ended e how socket s

  abbrev pub bound_by : Endpoint W → Bound × Socket × State W → (Reply Bool × Socket) × State W
  bound_by e (bound, socket, s) = handled_by e (e.handle socket s)
  bound_by e (refused, socket, s) = refused_by e socket (e.tear_down s)
  bound_by e (bind_gone, socket, s) = ended e gone socket s
  bound_by e (bind_broke, socket, s) = ended e broke socket s

  abbrev pub allowed :
      Bool → Option (Endpoint W) → Socket → State W → (Reply Bool × Socket) × State W
  allowed true (some e) socket s = bound_by e (e.bind socket s)
  allowed _ _ socket s = (close 1000 [] socket, s)

  -- `_websocket`: how the last `close` ended, the connection and the state.
  unfoldable pub websocket :
      List (BeforeHook W)
      → Option (Endpoint W)
      → Request
      → Socket
      → State W
      → (Reply Bool × Socket) × State W
  unfolding hooks_allow ended close
  websocket hooks endpoint request socket s =
      let (allows, s') = hooks_allow hooks request s in allowed allows endpoint socket s'

-- Closed, or waiting for the server.
abbrev pub Ends : Reply Bool × Socket → Type 0
Ends result = (result.1.closed ≡ true) ⊎ (result.0 ≡ waits)

next_of-Ends :
    (code : ℕ) (ms : List Incoming) (k : Socket) → Ends (after (next_of ms k) (closing code []))
next_of-Ends code [] k = inr refl
next_of-Ends code (m ∷ ms) k = inl refl

connecting-Ends :
    (code : ℕ) (b : Bool) (k : Socket) → Ends (after (connecting b k) (closing code []))
unfolding Websocket.next_message
connecting-Ends code true k = inl refl
connecting-Ends code false k = next_of-Ends code k.inbox (record k { connected = true })

close_unless-Ends :
    (code : ℕ) (b : Bool) (k : Socket) → k.closed ≡ b → Ends (close_unless b code [] k)
unfolding wait_connect
close_unless-Ends code true k closed = inl closed
close_unless-Ends code false k closed = connecting-Ends code k.connected k

close-Ends : (code : ℕ) (k : Socket) → Ends (close code [] k)
unfolding close
close-Ends code k = close_unless-Ends code k.closed k refl

module _ {W : Type 0} where
  ended-Ends :
      (e : Endpoint W) (how : Handled) (k : Socket) (s : State W) → Ends (ended e how k s).0
  unfolding ended
  ended-Ends e finished k s = close-Ends 1000 k
  ended-Ends e gone k s = close-Ends 1000 k
  ended-Ends e broke k s = close-Ends (if k.accepted then 1011 else 1000) k

  refused_by-Ends :
      (e : Endpoint W) (k : Socket) (torn : Bool × State W) → Ends (refused_by e k torn).0
  refused_by-Ends e k (true, s) = ended-Ends e broke k s
  refused_by-Ends e k (false, s) = close-Ends 1000 k

  bound_by-Ends : (e : Endpoint W) (did : Bound × Socket × State W) → Ends (bound_by e did).0
  bound_by-Ends e (bound, k, s) = ended-Ends e (e.handle k s).0 (e.handle k s).1 (e.handle k s).2
  bound_by-Ends e (refused, k, s) = refused_by-Ends e k (e.tear_down s)
  bound_by-Ends e (bind_gone, k, s) = ended-Ends e gone k s
  bound_by-Ends e (bind_broke, k, s) = ended-Ends e broke k s

  allowed-Ends :
      (b : Bool) (endpoint : Option (Endpoint W)) (k : Socket) (s : State W)
      → Ends (allowed b endpoint k s).0
  allowed-Ends true (some e) k s = bound_by-Ends e (e.bind k s)
  allowed-Ends true none k s = close-Ends 1000 k
  allowed-Ends false none k s = close-Ends 1000 k
  allowed-Ends false (some e) k s = close-Ends 1000 k

  -- However a connection goes (refused by a hook or a dependency, without a route, its handler done or
  -- raising, and whatever that did to the connection), it is closed at the end, unless the close waits
  -- for the server's first message.
  pub websocket-Ends :
      (hooks : List (BeforeHook W)) (endpoint : Option (Endpoint W)) (request : Request)
      (socket : Socket) (s : State W)
      → Ends (websocket hooks endpoint request socket s).0
  unfolding websocket
  websocket-Ends hooks endpoint request socket s =
      allowed-Ends (hooks_allow hooks request s).0 endpoint socket (hooks_allow hooks request s).1
