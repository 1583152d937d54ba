-- ===== src/Dependencies/Teardown.antt =====
-- Every dependency that yielded is torn down once, last first, whatever the others raise.
use korvex.Prelude.{
  ℕ, Bool, false, List, [], ◌∷◌, ◌++◌, map, reverse, Option, none, some, ◌≡◌, refl, sym, ap, ◌∙◌,
  inl, inr,
}
use mathlib.Core.List.{append-nil, append_assoc, reverse-append}
use korvex.Prelude.Lists.{All}
use korvex.Prelude.Tests.{if◌then◌else◌, Bool-cases}
use korvex.Response.{Response}
use korvex.Dependencies.{
  Error, Resumed, stopped, threw, yielded, Generator, World, is_same, Round, next, left,
  closed_again, resumed_as, tear_down, round_then, raises, close_loop, close, Called, gave, failed,
  Dispatched, sends, raises_on, raised_on, sent_on, is_streamed, after_call,
}

abbrev pub is_left : Dispatched → Bool
is_left (sends r later) = later
is_left (raises_on e) = false

raises_new :
    (error raised : Option Error) (e : Error)
    → raises error raised ≡ some e
    → is_same e error ≡ false
raises_new error none e h = cc
raises_new error (some r) e h = elim (Bool-cases (is_same r error)) [ inl same ↦ cc | inr new ↦ cc ]

raised_on-left :
    (exn : Error) (raised : Option Error) {ran : List ℕ} (base more : List ℕ)
    → ran ≡ base ++ more
    → ran ≡ base ++ (if is_left (raised_on exn raised) then [] else more)
raised_on-left exn none base more h = h
raised_on-left exn (some e) base more h = h

sent_on-left :
    (r : Response) (raised : Option Error) {ran : List ℕ} (base more : List ℕ)
    → ran ≡ base ++ more
    → ran ≡ base ++ (if is_left (sent_on r raised) then [] else more)
sent_on-left r none base more h = h
sent_on-left r (some e) base more h = h

module _ {W : Type 0} where
  -- A generator that yields again can be closed.
  abbrev pub Closes : Generator W → Type 0
  Closes g = (w : W) → (g.close w).0 ≡ none

  abbrev pub idents : List (Generator W) → List ℕ
  idents gs = map (λ g. g.ident) gs

module _ {W : Type 0} (fresh : ℕ → ℕ) where
  closed_again-resumed :
      (g : ℕ) (closing : Option Error × W) (ran : List ℕ)
      (k : Option Error → World W → Option Error × World W) (more : List ℕ)
      → ((raised : Option Error) (s : World W) → (k raised s).1.resumed ≡ s.resumed ++ more)
      → closing.0 ≡ none
      → (round_then (closed_again fresh g closing ran) k).1.resumed ≡ ran ++ more
  closed_again-resumed g (none, w) ran k more rest closes = rest _ _
  closed_again-resumed g (some e, w) ran k more rest closes = cc

  resumed_as-resumed :
      (g : Generator W) (raised : Option Error) (did : Resumed × W) (ran : List ℕ)
      (k : Option Error → World W → Option Error × World W) (more : List ℕ)
      → ((raised : Option Error) (s : World W) → (k raised s).1.resumed ≡ s.resumed ++ more)
      → Closes g
      → (round_then (resumed_as fresh g raised did ran) k).1.resumed ≡ ran ++ more
  resumed_as-resumed g raised (stopped, w) ran k more rest closes = rest _ _
  resumed_as-resumed g raised (threw e, w) ran k more rest closes = rest _ _
  resumed_as-resumed g raised (yielded, w) ran k more rest closes =
      closed_again-resumed g.ident (g.close w) ran k more rest (closes w)

  close_loop-resumed :
      (gs : List (Generator W)) (error raised : Option Error) (s : World W)
      → All Closes gs
      → (close_loop fresh gs error raised s).1.resumed ≡ s.resumed ++ idents gs
  unfolding close_loop tear_down
  close_loop-resumed [] error raised s h = sym (append-nil s.resumed)
  close_loop-resumed (g ∷ gs) error raised s (p, h) =
      resumed_as-resumed g raised (g.resume raised s.user) (s.resumed ++ g.ident ∷ [])
        (close_loop fresh gs error) (idents gs)
        (λ raised' s'. close_loop-resumed gs error raised' s' h) p
      ∙ append_assoc s.resumed (g.ident ∷ []) (idents gs)

  -- `close` resumes each dependency that yielded exactly once, last first, whether the handler failed
  -- or not and whatever the teardowns raise; this needs that a generator that yields again can be
  -- closed without an error.
  pub close-resumed :
      (teardowns : List (Generator W)) (error : Option Error) (s : World W)
      → All Closes (reverse teardowns)
      → (close fresh teardowns error s).1.resumed ≡ s.resumed ++ idents (reverse teardowns)
  unfolding close
  close-resumed teardowns error s h = close_loop-resumed (reverse teardowns) error error s h

  data IsNext : Round W → Type 0 where
    goes_on : {raised : Option Error} {s : World W} → IsNext (next raised s)

  closed_again-IsNext :
      (g : ℕ) (closing : Option Error × W) (ran : List ℕ)
      → closing.0 ≡ none
      → IsNext (closed_again fresh g closing ran)
  closed_again-IsNext g (none, w) ran closes = goes_on
  closed_again-IsNext g (some e, w) ran closes = cc

  resumed_as-IsNext :
      (g : Generator W) (raised : Option Error) (did : Resumed × W) (ran : List ℕ)
      → Closes g
      → IsNext (resumed_as fresh g raised did ran)
  resumed_as-IsNext g raised (stopped, w) ran closes = goes_on
  resumed_as-IsNext g raised (threw e, w) ran closes = goes_on
  resumed_as-IsNext g raised (yielded, w) ran closes =
      closed_again-IsNext g.ident (g.close w) ran (closes w)

  tear_down-IsNext :
      (g : Generator W) (raised : Option Error) (s : World W)
      → Closes g
      → IsNext (tear_down fresh g raised s)
  unfolding tear_down
  tear_down-IsNext g raised s closes =
      resumed_as-IsNext g raised (g.resume raised s.user) (s.resumed ++ g.ident ∷ []) closes

  round_then-new :
      (round : Round W) (k : Option Error → World W → Option Error × World W) (error : Option Error)
      (e : Error)
      → ((raised : Option Error) (s : World W) → (k raised s).0 ≡ some e → is_same e error ≡ false)
      → IsNext round
      → (round_then round k).0 ≡ some e
      → is_same e error ≡ false
  round_then-new (next raised s) k error e rest on eq = rest raised s eq
  round_then-new (left _ _) k error e rest on eq = elim on [ ]

  close_loop-new :
      (gs : List (Generator W)) (error raised : Option Error) (s : World W) (e : Error)
      → All Closes gs
      → (close_loop fresh gs error raised s).0 ≡ some e
      → is_same e error ≡ false
  unfolding close_loop
  close_loop-new [] error raised s e h eq = raises_new error raised e eq
  close_loop-new (g ∷ gs) error raised s e (p, h) eq =
      round_then-new (tear_down fresh g raised s) (close_loop fresh gs error) error e
        (λ raised' s' eq'. close_loop-new gs error raised' s' e h eq')
        (tear_down-IsNext g raised s p) eq

  -- What `close` raises is never the error it was given, which the caller raises on: it is new. This
  -- needs that a generator that yields again can be closed without an error.
  pub close-new :
      (teardowns : List (Generator W)) (error : Option Error) (s : World W) (e : Error)
      → All Closes (reverse teardowns)
      → (close fresh teardowns error s).0 ≡ some e
      → is_same e error ≡ false
  unfolding close
  close-new teardowns error s e h eq = close_loop-new (reverse teardowns) error error s e h eq

  close_loop-left :
      (gs : List (Generator W)) (g : Generator W) (error : Option Error) (s : World W) (e : Error)
      (w w' : W)
      → g.resume error s.user ≡ (yielded, w)
      → g.close w ≡ (some e, w')
      → close_loop fresh (g ∷ gs) error error s
        ≡ (some e, record { user = w'; resumed = s.resumed ++ g.ident ∷ [] })
  unfolding close_loop tear_down
  close_loop-left gs g error s e w w' again fails = rw (again, fails) refl

  -- When the dependency that started last yields again and closing it raises, `close` raises that
  -- error, and no other dependency is resumed.
  pub close-skips_rest :
      (teardowns : List (Generator W)) (g : Generator W) (error : Option Error) (s : World W)
      (e : Error) (w w' : W)
      → g.resume error s.user ≡ (yielded, w)
      → g.close w ≡ (some e, w')
      → close fresh (teardowns ++ g ∷ []) error s
        ≡ (some e, record { user = w'; resumed = s.resumed ++ g.ident ∷ [] })
  unfolding close close_loop tear_down
  close-skips_rest teardowns g error s e w w' again fails =
      ap (λ gs. close_loop fresh gs error error s) (reverse-append teardowns (g ∷ []))
      ∙ close_loop-left (reverse teardowns) g error s e w w' again fails

  -- Once the handler was called, every dependency that waits was torn down, last first, unless a
  -- streamed response is to be sent, which leaves them all to the stream's end; this needs that a
  -- generator that yields again can be closed without an error.
  pub after_call-resumed :
      (teardowns : List (Generator W)) (did : Called) (s : World W)
      → All Closes (reverse teardowns)
      → (after_call fresh teardowns did s).1.resumed
        ≡ s.resumed
          ++ (if is_left (after_call fresh teardowns did s).0
              then []
              else idents (reverse teardowns))
  unfolding after_call
  after_call-resumed teardowns (failed exn) s h =
      raised_on-left exn (close fresh teardowns (some exn) s).0 s.resumed
        (idents (reverse teardowns)) (close-resumed teardowns (some exn) s h)
  after_call-resumed [] (gave r) s h = sym (append-nil s.resumed)
  after_call-resumed (g ∷ gs) (gave r) s h = elim (Bool-cases (is_streamed r)) [
    | inl later ↦ rw later (sym (append-nil s.resumed))
    | inr now ↦ rw now (
        sent_on-left r (close fresh (g ∷ gs) none s).0 s.resumed (idents (reverse (g ∷ gs)))
          (close-resumed (g ∷ gs) none s h))
  ]
