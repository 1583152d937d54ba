-- ===== src/App/Closing.antt =====
-- The dependency runs that wait for a streamed response: closed once each, in `_respond` or when the
-- response is sent, unless an after hook raises.
use korvex.Prelude.{ℕ, List, [], ◌∷◌, ◌++◌, ◌≡◌, refl, sym, ◌∙◌}
use mathlib.Core.List.{append-nil, append_assoc}
use korvex.Prelude.Lists.{All}
use korvex.Request.{Request}
use korvex.Response.{Response}
use korvex.App.{Outcome, returned, raised, State, Change, kept, replaced, AfterHook}
use korvex.App.Respond.{Dumps, finish, waiting, after_then, run_after}

module _ {W : Type 0} (dumps : Dumps) (close : ℕ → W → W) where
  pub closed-finish :
      (runs : List ℕ) (s : State W) → (finish close runs s).closed ≡ s.closed ++ runs
  unfolding finish
  closed-finish [] s = sym (append-nil s.closed)
  closed-finish (run ∷ runs) s =
      closed-finish runs (record { user = close run s.user; closed = s.closed ++ run ∷ [] })
      ∙ append_assoc s.closed (run ∷ []) runs

  -- What an after hook does with the runs of its response, seen from outside: it leaves `_on_close`
  -- alone, another response has none of its own, it closes none itself, and it does not raise.
  abbrev pub Leaves : Response → List ℕ → Outcome Change × State W → Type 0
  Leaves r closed (raised exn, s) = ⊥
  Leaves r closed (returned (kept r'), s) = (waiting r' ≡ waiting r) × (s.closed ≡ closed)
  Leaves r closed (returned (replaced old new), s) =
      (waiting old ≡ waiting r) × (waiting new ≡ []) × (s.closed ≡ closed)

  abbrev pub IsCareful : AfterHook W → Type 0
  IsCareful hook =
      (request : Request) (r : Response) (s : State W) → Leaves r s.closed (hook request r s)

  -- The runs closed so far, and those that still wait.
  abbrev pub accounted : Response × State W → List ℕ
  accounted (r, s) = s.closed ++ waiting r

  after_then-accounted :
      (r : Response) (closed : List ℕ) (did : Outcome Change × State W)
      (k : Response → State W → Response × State W)
      → ((r' : Response) (s' : State W) → accounted (k r' s') ≡ s'.closed ++ waiting r')
      → Leaves r closed did
      → accounted (after_then dumps close did k) ≡ closed ++ waiting r
  after_then-accounted r closed (raised exn, s) k rest h = absurd h
  after_then-accounted r closed (returned (kept r'), s) k rest (same, left) =
      rest r' s ∙ rw (same, left) refl
  after_then-accounted r closed (returned (replaced old new), s) k rest (same, fresh, left) =
      rest new (finish close (waiting old) s)
      ∙ rw (closed-finish (waiting old) s, fresh, same, left) (append-nil (closed ++ waiting r))

  -- Where every after hook is careful, the loop over them neither loses nor repeats a run: those
  -- closed afterwards, and then those that wait in the response to send, are those closed before,
  -- and then those that waited in the response of the route.
  pub run_after-accounted :
      (hooks : List (AfterHook W)) (request : Request) (r : Response) (s : State W)
      → All IsCareful hooks
      → accounted (run_after dumps close hooks request r s) ≡ s.closed ++ waiting r
  unfolding run_after
  run_after-accounted [] request r s h = refl
  run_after-accounted (hook ∷ hooks) request r s (p, h) =
      after_then-accounted r s.closed (hook request r s) (run_after dumps close hooks request)
        (λ r' s'. run_after-accounted hooks request r' s' h) (p request r s)
