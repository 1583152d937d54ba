-- ===== src/Lifespan.antt =====
-- korvex/_app.py: the startup and shutdown hooks, `_lifespan` and `_run_hooks`, and `LoopLocal`, the
-- attributes that they open for each event loop. A hook is a function of the state of the program,
-- which it leaves changed also where it raises; a message names the event, and not the error.
pub mod Events
use korvex.Prelude.{ℕ, Bool, true, false, List, [], ◌∷◌, ◌++◌, reverse, Option, none, some}
use korvex.Prelude.Dict.{Dict, find, put}
use korvex.Prelude.Tests.{◌==◌, if◌then◌else◌}
use korvex.Prelude.Text.{Text, eq_text}

-- What the server sends, and what it is answered.
pub data Event : Type 0 where
  startup : Event
  shutdown : Event

pub data Answer : Type 0 where
  failed : Event → Answer
  complete : Event → Answer

abbrev pub answer_to : Event → Bool → Answer
answer_to event true = complete event
answer_to event false = failed event

module _ (W : Type 0) where
  -- Whether it returned, and the state that it left.
  abbrev pub Hook : Type 0
  Hook = W → Bool × W

  pub record Hooks : Type 0 where
    pub on_startup : List Hook
    pub on_shutdown : List Hook

  -- @app.on_startup, @app.on_shutdown: `_add_hook`
  unfoldable pub on_startup : Hook → Hooks → Hooks
  on_startup hook h = record h { on_startup = h.on_startup ++ hook ∷ [] }

  unfoldable pub on_shutdown : Hook → Hooks → Hooks
  on_shutdown hook h = record h { on_shutdown = h.on_shutdown ++ hook ∷ [] }

module _ {W : Type 0} where
  abbrev pub hook_then : Bool × W → (W → Bool × W) → Bool × W
  hook_then (true, w) k = k w
  hook_then (false, w) k = (false, w)

  -- `_run_hooks`: whether all of them returned.
  unfoldable pub run_hooks : List (Hook W) → W → Bool × W
  run_hooks [] w = (true, w)
  run_hooks (hook ∷ hooks) w = hook_then (hook w) (run_hooks hooks)

  abbrev pub unless_failed : Bool → Answer → (W → List Answer × W) → W → List Answer × W
  unless_failed true answer k w = let (answers, w') = k w in (answer ∷ answers, w')
  unless_failed false answer k w = (answer ∷ [], w)

  -- `_lifespan`, for the events that come: it ends with the first failure to start, or a shutdown.
  unfoldable pub lifespan : Hooks W → List Event → W → List Answer × W
  unfolding run_hooks
  lifespan h [] w = ([], w)
  lifespan h (startup ∷ events) w =
      let (went, w') = run_hooks h.on_startup w in
      unless_failed went (answer_to startup went) (lifespan h events) w'
  lifespan h (shutdown ∷ events) w =
      let (went, w') = run_hooks (reverse h.on_shutdown) w in (answer_to shutdown went ∷ [], w')

-- `LoopLocal`: the attributes of each event loop, by its identity.
abbrev pub LoopLocal {ℓ} : Type ℓ → Type ℓ
LoopLocal A = List (ℕ × Dict A)

module _ {A : Type 0} where
  -- `_values`, empty for a loop that is new
  unfoldable pub values : ℕ → LoopLocal A → Dict A
  values loop [] = []
  values loop ((l, d) ∷ rest) = if l == loop then d else values loop rest

  unfoldable pub put_values : ℕ → Dict A → LoopLocal A → LoopLocal A
  put_values loop d [] = (loop, d) ∷ []
  put_values loop d ((l, e) ∷ rest) =
      if l == loop then (l, d) ∷ rest else (l, e) ∷ put_values loop d rest

  -- `__getattr__`: `none` for the AttributeError.
  unfoldable pub get_attribute : ℕ → Text → LoopLocal A → Option A
  unfolding values
  get_attribute loop name locals = find name (values loop locals)

  -- `__setattr__`
  unfoldable pub set_attribute : ℕ → Text → A → LoopLocal A → LoopLocal A
  unfolding values put_values
  set_attribute loop name a locals = put_values loop (put name a (values loop locals)) locals

  unfoldable pub without_name : Text → Dict A → Dict A
  without_name name [] = []
  without_name name ((k, a) ∷ d) =
      let rest = without_name name d in if eq_text k name then rest else (k, a) ∷ rest

  abbrev pub deleted : ℕ → Text → LoopLocal A → Option A → Option (LoopLocal A)
  deleted loop name locals none = none
  deleted loop name locals (some a) =
      some (put_values loop (without_name name (values loop locals)) locals)

  -- `__delattr__`: `none` for the AttributeError.
  unfoldable pub delete_attribute : ℕ → Text → LoopLocal A → Option (LoopLocal A)
  unfolding get_attribute without_name put_values
  delete_attribute loop name locals = deleted loop name locals (get_attribute loop name locals)
