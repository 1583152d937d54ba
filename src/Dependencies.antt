-- ===== src/Dependencies.antt =====
-- korvex/_schema.py: the teardown of the dependencies that yield, `Run.open` and `Run.close`; and the
-- part of `_dispatch` (korvex/_app.py) that decides when it runs.
-- A generator is what it does when it is resumed or closed, each on the state of the program; which
-- generators were resumed, in order, is recorded beside it. Sync and async generators differ only in
-- being awaited.
pub mod Teardown
use korvex.Prelude.{ℕ, Bool, true, false, not, List, [], ◌∷◌, ◌++◌, reverse, Option, none, some}
use korvex.Prelude.Tests.{◌==◌, if◌then◌else◌}
use korvex.Response.{Response}

-- An exception object, by its identity.
pub record Error : Type 0 where
  pub ident : ℕ
  pub context : Option ℕ

-- How resuming a generator ends: StopIteration, an exception, or another yield.
pub data Resumed : Type 0 where
  stopped : Resumed
  threw : Error → Resumed
  yielded : Resumed

module _ (W : Type 0) where
  pub record Generator : Type 0 where
    pub ident : ℕ
    -- `__anext__()`, or `athrow(error)`
    pub resume : Option Error → W → Resumed × W
    -- `aclose()`, which may raise
    pub close : W → Option Error × W

  pub record World : Type 0 where
    pub user : W
    pub resumed : List ℕ

-- The new RuntimeError of a generator that yields again; each has an identity of its own.
abbrev pub yielded_twice : (ℕ → ℕ) → ℕ → Error
yielded_twice fresh g = record { ident = fresh g; context = none }

unfoldable pub is_same : Error → Option Error → Bool
is_same e none = false
is_same e (some d) = e.ident == d.ident

abbrev context_of : Option ℕ → Option Error → Option ℕ
context_of (some c) raised = some c
context_of none none = none
context_of none (some e) = some e.ident

-- A new error remembers the one that was raised before.
unfoldable pub chained : Error → Option Error → Error
chained e raised = record e { context = context_of e.context raised }

-- Where the loop goes on with what is raised so far, and where it is left.
pub data Round (W : Type 0) : Type 0 where
  next : Option Error → World W → Round W
  left : Error → World W → Round W

abbrev pub round_then :
    {W : Type 0}
    → Round W
    → (Option Error → World W → Option Error × World W)
    → Option Error × World W
round_then (next raised s) k = k raised s
round_then (left e s) k = (some e, s)

-- `raise raised`, unless it is what the caller raises on.
abbrev pub raises : Option Error → Option Error → Option Error
raises error none = none
raises error (some e) = if is_same e error then none else some e

module _ {W : Type 0} (fresh : ℕ → ℕ) where
  abbrev pub closed_again : ℕ → Option Error × W → List ℕ → Round W
  closed_again g (none, w) ran =
      next (some (yielded_twice fresh g)) (record { user = w; resumed = ran })
  closed_again g (some e, w) ran = left e (record { user = w; resumed = ran })

  abbrev pub resumed_as : Generator W → Option Error → Resumed × W → List ℕ → Round W
  resumed_as g raised (stopped, w) ran = next raised (record { user = w; resumed = ran })
  resumed_as g raised (threw e, w) ran =
      next (if is_same e raised then raised else some (chained e raised))
        (record { user = w; resumed = ran })
  resumed_as g raised (yielded, w) ran = closed_again g.ident (g.close w) ran

  -- One round of the loop of `close`.
  unfoldable pub tear_down : Generator W → Option Error → World W → Round W
  unfolding is_same chained
  tear_down g raised s = resumed_as g raised (g.resume raised s.user) (s.resumed ++ g.ident ∷ [])

  -- The loop, over the generators in the order of their teardown.
  unfoldable pub close_loop :
      List (Generator W) → Option Error → Option Error → World W → Option Error × World W
  unfolding tear_down
  close_loop [] error raised s = (raises error raised, s)
  close_loop (g ∷ gs) error raised s = round_then (tear_down g raised s) (close_loop gs error)

  -- `Run.close(error)`: what it raises, and the state. The teardowns are in the order they started.
  unfoldable pub close : List (Generator W) → Option Error → World W → Option Error × World W
  unfolding close_loop
  close teardowns error s = close_loop (reverse teardowns) error error s

-- What calling the handler gave: its response, streamed or not, or an exception.
pub data Called : Type 0 where
  gave : Response → Called
  failed : Error → Called

-- What `_dispatch` gives then: a response, with whether the run is left to the stream's end.
pub data Dispatched : Type 0 where
  sends : Response → (later : Bool) → Dispatched
  raises_on : Error → Dispatched

abbrev pub is_streamed : Response → Bool
is_streamed r = elim r.streaming [ none ↦ false | some stream ↦ true ]

abbrev pub raised_on : Error → Option Error → Dispatched
raised_on exn none = raises_on exn
raised_on exn (some e) = raises_on e

abbrev pub sent_on : Response → Option Error → Dispatched
sent_on r none = sends r false
sent_on r (some e) = raises_on e

module _ {W : Type 0} (fresh : ℕ → ℕ) where
  -- `_dispatch`, once the handler was called: for the teardowns that wait.
  unfoldable pub after_call : List (Generator W) → Called → World W → Dispatched × World W
  unfolding close
  after_call teardowns (failed exn) s =
      let (e, s') = close fresh teardowns (some exn) s in (raised_on exn e, s')
  after_call [] (gave r) s = (sends r false, s)
  after_call (g ∷ gs) (gave r) s =
      let (e, s') = close fresh (g ∷ gs) none s in
      if is_streamed r then (sends r true, s) else (sent_on r e, s')
