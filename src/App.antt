-- ===== src/App.antt =====
-- korvex/_app.py: what an `App` keeps of hooks and exception handlers, and how one request becomes
-- one response. User code (hooks, handlers) is a function of the state that it can change: its own,
-- of type `W`, and what the framework records there. A call that raises gives the exception and the
-- state that it left.
pub mod Respond
pub mod Closing
pub mod Send
pub mod Call
pub mod Handlers
pub mod Handshake
pub mod Dispatch
pub mod Routes
use korvex.Prelude.{ℕ, Bool, true, false, List, [], ◌∷◌, ◌++◌, reverse, Option, none, some}
use korvex.Prelude.Tests.{◌==◌, if◌then◌else◌}
use korvex.Prelude.Text.{Text}
use korvex.Errors.{
  Class, http_exception, validation_error, abort_class, exception, other_class, Exn,
}
use korvex.Request.{Request}
use korvex.Response.{Response, Stream}

pub data Outcome {ℓ} (A : Type ℓ) : Type ℓ where
  returned : A → Outcome A
  raised : Exn → Outcome A

-- The user's state, and the dependency runs that `_finish` closed, the last one last.
pub record State (W : Type 0) : Type 0 where
  pub user : W
  pub closed : List ℕ

abbrev pub Action : Type 0 → Type 0 → Type 0
Action W A = State W → Outcome A × State W

-- What an after hook did: None or the response itself, as the hook left it, or another response,
-- with what it left of the first.
pub data Change : Type 0 where
  kept : Response → Change
  replaced : (old new : Response) → Change

-- A key of `_exception_handlers`.
pub data Key : Type 0 where
  status_key : ℕ → Key
  class_key : Class → Key

unfoldable pub same_class : Class → Class → Bool
same_class http_exception http_exception = true
same_class validation_error validation_error = true
same_class abort_class abort_class = true
same_class exception exception = true
same_class (other_class a) (other_class b) = a == b
same_class _ _ = false

unfoldable pub same_key : Key → Key → Bool
unfolding same_class
same_key (status_key a) (status_key b) = a == b
same_key (class_key a) (class_key b) = same_class a b
same_key _ _ = false

module _ (W : Type 0) where
  abbrev pub BeforeHook : Type 0
  BeforeHook = Request → Action W (Option Response)

  abbrev pub AfterHook : Type 0
  AfterHook = Request → Response → Action W Change

  abbrev pub ExceptionHandler : Type 0
  ExceptionHandler = Request → Exn → Action W Response

  -- `before` in the order declared; `after` too, and it runs in reverse.
  pub record App : Type 0 where
    pub before : List BeforeHook
    pub after : List AfterHook
    pub handlers : List (Key × ExceptionHandler)

  -- @app.before_request, @app.after_request: `_add_hook`
  unfoldable pub before_request : BeforeHook → App → App
  before_request hook app = record app { before = app.before ++ hook ∷ [] }

  unfoldable pub after_request : AfterHook → App → App
  after_request hook app = record app { after = app.after ++ hook ∷ [] }

  unfoldable pub put_handler :
      Key → ExceptionHandler → List (Key × ExceptionHandler) → List (Key × ExceptionHandler)
  put_handler key f [] = (key, f) ∷ []
  put_handler key f ((k, g) ∷ rest) =
      if same_key k key then (k, f) ∷ rest else (k, g) ∷ put_handler key f rest

  -- @app.exception_handler(key)
  unfoldable pub exception_handler : Key → ExceptionHandler → App → App
  unfolding put_handler
  exception_handler key f app = record app { handlers = put_handler key f app.handlers }

  unfoldable pub handler_of : Key → List (Key × ExceptionHandler) → Option ExceptionHandler
  handler_of key [] = none
  handler_of key ((k, f) ∷ rest) = if same_key k key then some f else handler_of key rest
