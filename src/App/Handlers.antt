-- ===== src/App/Handlers.antt =====
-- Which exception handler answers, and what a client learns of an error.
use korvex.Prelude.{
  ℕ, true, List, [], ◌∷◌, ◌++◌, map, Option, none, some, ◌≡◌, ◌≢◌, refl, ap, ◌∙◌, ◌↔◌, arith,
}
use korvex.Prelude.Tests.{if◌then◌else◌, ==_iff}
use korvex.Errors.{
  Class, http_exception, validation_error, abort_class, exception, other_class, Exn, http,
  validation, abort, other, mro, http_status,
}
use korvex.Request.{Request}
use korvex.Response.{Response}
use korvex.App.{
  Outcome, returned, raised, State, Action, Key, status_key, class_key, same_class, same_key,
  ExceptionHandler, App, handler_of, put_handler, exception_handler,
}
use korvex.App.Respond.{
  Dumps, Handlers, answered, first_class, by_status, find_exception_handler, handled, handle_error,
  before_then, run_before, route_or_error, settle, first_response, respond,
}
use korvex.App.Respond.{default_answer}

same_class_sound : (a b : Class) → same_class a b ≡ true → a ≡ b
unfolding same_class
same_class_sound http_exception http_exception h = refl
same_class_sound validation_error validation_error h = refl
same_class_sound abort_class abort_class h = refl
same_class_sound exception exception h = refl
same_class_sound (other_class a) (other_class b) h = ap other_class ((==_iff a b).0 h)
same_class_sound _ _ h = cc

same_class_refl : (a : Class) → same_class a a ≡ true
unfolding same_class
same_class_refl (other_class a) = (==_iff a a).1 refl
same_class_refl http_exception = refl
same_class_refl validation_error = refl
same_class_refl abort_class = refl
same_class_refl exception = refl

pub same_key_iff : (a b : Key) → (same_key a b ≡ true) ↔ (a ≡ b)
unfolding same_key
same_key_iff (status_key a) (status_key b) =
    (λ h. ap status_key ((==_iff a b).0 h), λ e. ground arith)
same_key_iff (class_key a) (class_key b) =
    (λ h. ap class_key (same_class_sound a b h), λ e. ground (arith, same_class_refl a))
same_key_iff (status_key a) (class_key b) = (λ h. cc, λ e. cc)
same_key_iff (class_key a) (status_key b) = (λ h. cc, λ e. cc)

abbrev status_keys : Option ℕ → List Key
status_keys none = []
status_keys (some status) = status_key status ∷ []

-- The keys that may answer an exception, the most specific first.
pub keys_of : Exn → List Key
keys_of exn = status_keys (http_status exn) ++ map class_key (mro exn)

module _ {W : Type 0} where
  handler-put :
      (key k : Key) (f : ExceptionHandler W) (handlers : Handlers W)
      → handler_of W k (put_handler W key f handlers)
        ≡ (if same_key key k then some f else handler_of W k handlers)
  unfolding handler_of put_handler
  handler-put key k f [] = refl
  handler-put key k f ((j, g) ∷ rest) =
      ground
        (arith, handler-put key k f rest, same_key_iff j key, same_key_iff j k, same_key_iff key k)

  -- The handler of the first key that has one.
  pub first_handler : Handlers W → List Key → Option (ExceptionHandler W)
  first_handler handlers [] = none
  first_handler handlers (key ∷ keys) = elim (handler_of W key handlers) [
    | some f ↦ some f
    | none ↦ first_handler handlers keys
  ]

  first_class-eq :
      (handlers : Handlers W) (classes : List Class)
      → first_class handlers classes ≡ first_handler handlers (map class_key classes)
  unfolding first_class first_handler
  first_class-eq handlers [] = refl
  first_class-eq handlers (c ∷ classes) = ground (arith, first_class-eq handlers classes)

  find_exception_handler-eq :
      (handlers : Handlers W) (exn : Exn)
      → find_exception_handler handlers exn ≡ first_handler handlers (keys_of exn)
  unfolding find_exception_handler by_status first_handler keys_of
  find_exception_handler-eq handlers (http classes status detail headers) =
      ground (arith, first_class-eq handlers classes)
  find_exception_handler-eq handlers (validation classes errors) =
      ground (arith, first_class-eq handlers classes)
  find_exception_handler-eq handlers (abort classes response) = first_class-eq handlers classes
  find_exception_handler-eq handlers (other classes) = first_class-eq handlers classes

  -- What answers an exception, with the handler that is found for it, if there is one: its own response
  -- for an Abort, and else the handler's, with the plain 500 where it raises, or the default.
  pub answer_with :
      Dumps → Option (ExceptionHandler W) → Request → Exn → State W → Response × State W
  answer_with dumps o request (abort classes response) s = (response, s)
  answer_with dumps none request exn s = (default_answer dumps exn, s)
  answer_with dumps (some f) request exn s =
      (answered dumps (f request exn s).0, (f request exn s).1)

  handled-answer :
      (dumps : Dumps) (handlers : Handlers W) (request : Request) (exn : Exn) (s : State W)
      → handle_error dumps handlers request exn s
        ≡ answer_with dumps (find_exception_handler handlers exn) request exn s
  unfolding handle_error handled answer_with
  handled-answer dumps handlers request (abort classes response) s = refl
  handled-answer dumps handlers request (http classes status detail headers) s = ground arith
  handled-answer dumps handlers request (validation classes errors) s = ground arith
  handled-answer dumps handlers request (other classes) s = ground arith

  -- An exception that is an Abort is answered with its own response, whatever is registered. Any other is
  -- answered by the handler of the first of its keys that has one, with the plain 500 where this handler
  -- raises, and by default where none has: its keys are its status, if it is an HTTPException, and then
  -- its classes, closest first.
  pub handle_error-eq :
      (dumps : Dumps) (handlers : Handlers W) (request : Request) (exn : Exn) (s : State W)
      → handle_error dumps handlers request exn s
        ≡ answer_with dumps (first_handler handlers (keys_of exn)) request exn s
  handle_error-eq dumps handlers request exn s =
      handled-answer dumps handlers request exn s
      ∙ ap (λ o. answer_with dumps o request exn s) (find_exception_handler-eq handlers exn)

  find_exception_handler-put_status :
      (handlers : Handlers W) (n : ℕ) (f : ExceptionHandler W) (exn : Exn)
      → http_status exn ≡ some n
      → find_exception_handler (put_handler W (status_key n) f handlers) exn ≡ some f
  unfolding find_exception_handler by_status
  find_exception_handler-put_status handlers n f exn e =
      let here = handler-put (status_key n) (status_key n) f handlers in
      let same = (same_key_iff (status_key n) (status_key n)).1 refl in
      rw (e, find_exception_handler) (rw (here, same) refl)

  handle_error-handled :
      (dumps : Dumps) (handlers : Handlers W) (request : Request) (exn : Exn) (n : ℕ) (s : State W)
      → http_status exn ≡ some n
      → handle_error dumps handlers request exn s ≡ handled dumps handlers request exn s
  unfolding handle_error
  handle_error-handled dumps handlers request (http classes status detail headers) n s e = refl
  handle_error-handled dumps handlers request (validation classes errors) n s e = refl
  handle_error-handled dumps handlers request (abort classes response) n s e = cc
  handle_error-handled dumps handlers request (other classes) n s e = refl

  registered_handled :
      (dumps : Dumps) (handlers : Handlers W) (n : ℕ) (f : ExceptionHandler W) (request : Request)
      (exn : Exn) (s : State W)
      → http_status exn ≡ some n
      → handled dumps (put_handler W (status_key n) f handlers) request exn s
        ≡ (answered dumps (f request exn s).0, (f request exn s).1)
  unfolding handled
  registered_handled dumps handlers n f request exn s e =
      rw (find_exception_handler-put_status handlers n f exn e, handled) refl

  before_then-stops :
      (did : Outcome (Option Response) × State W)
      (k k' : State W → Outcome (Option Response) × State W)
      → did.0 ≢ returned none
      → before_then did k ≡ before_then did k'
  before_then-stops (raised exn, s) k k' h = refl
  before_then-stops (returned (some response), s) k k' h = refl
  before_then-stops (returned none, s) k k' h = absurd (h refl)

  -- Once a handler is registered for a status, whatever was registered before, an HTTPException of
  -- that status that a before hook, the route or its dependencies raise is answered by it: with its
  -- response, or with the plain 500 where it raises.
  pub registered_status_answers :
      (dumps : Dumps) (app : App W) (n : ℕ) (f : ExceptionHandler W)
      (dispatch : Request → Action W (Option Response)) (error : ℕ) (request : Request) (exn : Exn)
      (s left : State W)
      → http_status exn ≡ some n
      → before_then
          (run_before app.before request s)
          (route_or_error dumps (dispatch request) error)
        ≡ (raised exn, left)
      → first_response dumps (exception_handler W (status_key n) f app) dispatch error request s
        ≡ (answered dumps (f request exn left).0, (f request exn left).1)
  unfolding first_response exception_handler settle
  registered_status_answers dumps app n f dispatch error request exn s left e raises =
      rw (raises, settle)
        (handle_error-handled dumps (put_handler W (status_key n) f app.handlers) request exn n left
            e
          ∙ registered_handled dumps app.handlers n f request exn left e)

  -- Where a before hook answers or raises, the route is not reached: its handler and dependencies,
  -- whatever they are, change neither the response nor the state.
  pub before_hides_route :
      (dumps : Dumps) (close : ℕ → W → W) (app : App W)
      (dispatch other_dispatch : Request → Action W (Option Response)) (error : ℕ)
      (request : Request) (s : State W)
      → (run_before app.before request s).0 ≢ returned none
      → respond dumps close app dispatch error request s
        ≡ respond dumps close app other_dispatch error request s
  unfolding respond first_response
  before_hides_route dumps close app dispatch other_dispatch error request s answers =
      rw
        (before_then-stops (run_before app.before request s)
          (route_or_error dumps (dispatch request) error)
          (route_or_error dumps (other_dispatch request) error) answers)
        refl
