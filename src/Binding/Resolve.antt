-- ===== src/Binding/Resolve.antt =====
-- korvex/_schema.py: `Plan.bind` and `Run.resolve`, which call each other: a plan's dependencies are
-- resolved first, each with its own plan. A function is its identity; `plan_of` is the plan of one,
-- that of an override too, all for the pattern of one route; `fuel` bounds how deep plans nest.
-- User code is `invoke`: what a function returns, yields first or raises, on the state of the program.
pub mod Steps
pub mod Bound
pub mod Started
pub mod Once
pub mod Again
pub mod Settled
pub mod Given
pub mod Endless
use korvex.Prelude.{
  ℕ, zero, suc, Bool, true, false, not, ◌&&◌, ◌||◌, List, [], ◌∷◌, ◌++◌, Option, none, some,
}
use korvex.Prelude.Dict.{Dict, find, put}
use korvex.Prelude.Lists.{any, keep_if, is_some, head?}
use korvex.Prelude.Tests.{◌==◌, if◌then◌else◌}
use korvex.Prelude.Text.{Text, codes, strip, is_space, is_empty, lower}
use korvex.Headers
use korvex.Headers.{Headers}
use korvex.Errors.{FieldError, Exn, http, validation, validation_classes, abort, other, exception}
use korvex.Request.{Value}
use korvex.Request.MultiDict
use korvex.Request.MultiDict.{MultiDict}
use korvex.Binding.{
  Scalar, str_type, bool_type, Inner, scalar, file, Param, Objects, Raw, text, upload, Args,
  no_args, gives, fails, take, invalid, path_argument, unique, is_true, is_false,
}
use korvex.Prelude.Tests.{leb}
use korvex.Binding.{take_as}
use korvex.Prelude.Lists.{is_nil}
use korvex.Binding.Reading.{Read, got, raised, Plan, Dep, Input, Models, read_arguments}

-- How an evaluation ends: with a value, with an exception, or without fuel.
pub data Result {ℓ} (A : Type ℓ) : Type ℓ where
  ok : A → Result A
  failed : Exn → Result A
  exhausted : Result A

-- What calling a function does: a generator can also end before its first yield.
pub data Called (V : Type 0) : Type 0 where
  value : V → Called V
  stopped : Called V
  threw : Exn → Called V

-- `Run`, with the state of the program, and the calls that gave a value: each function with whether it
-- was asked for with `cache`, in order.
pub record Run (V W : Type 0) : Type 0 where
  pub values : List (ℕ × V)
  pub teardowns : List ℕ
  pub calls : List (ℕ × Bool)
  pub user : W

module _ {V : Type 0} where
  -- self.values.get(func)
  unfoldable pub value_of : ℕ → List (ℕ × V) → Option V
  value_of f [] = none
  value_of f ((g, v) ∷ vs) = if g == f then some v else value_of f vs

  unfoldable pub put_value : ℕ → V → List (ℕ × V) → List (ℕ × V)
  put_value f v [] = (f, v) ∷ []
  put_value f v ((g, w) ∷ vs) = if g == f then (g, v) ∷ vs else (g, w) ∷ put_value f v vs

  abbrev pub named : Option Text → V → Args V → Args V
  named none v a = a
  named (some name) v a = gives name v a

  -- At the end of `Plan.bind`
  unfoldable pub finish : Args V → Result (Dict V)
  unfolding unique
  finish a =
      if is_nil a.errors
      then ok a.kwargs
      else failed (validation validation_classes (unique a.errors))

  -- `Plan.binds`, with a form's or a body's parameters, and `bool(plan.params or plan.dependencies)`
  abbrev pub no_body : Option (Param V) → Bool
  no_body o = not (is_some o)

  unfoldable pub reads_nothing : Plan V → Bool
  reads_nothing plan =
      is_nil plan.path
      && is_nil plan.query
      && is_nil plan.headers
      && is_nil plan.cookies
      && is_nil plan.form
      && is_nil plan.form_models
      && no_body plan.body

  unfoldable pub has_arguments : Plan V → Bool
  unfolding reads_nothing
  has_arguments plan =
      not (reads_nothing plan) || not (is_nil plan.request) || not (is_nil plan.dependencies)

  abbrev pub finished : Read (Args V) → Result (Dict V)
  finished (got a) = finish a
  finished (raised e) = failed e

-- The user's code, with each function's plan.
pub record Program (V W : Type 0) : Type 0 where
  pub plan_of : ℕ → Plan V
  pub override : ℕ → ℕ
  pub invoke : ℕ → Dict V → W → Called V × W
  pub new_state : W

module _ {V W : Type 0} where
  abbrev pub and_then :
      {A B : Type 0} → Result A × Run V W → (A → Run V W → Result B × Run V W) → Result B × Run V W
  and_then (ok a, run) f = f a run
  and_then (failed e, run) f = (failed e, run)
  and_then (exhausted, run) f = (exhausted, run)

  -- A dependency's ValidationError is collected; another exception ends the binding.
  unfoldable pub dep_step : Dep → Args V → Result V × Run V W → Result (Args V) × Run V W
  unfolding gives fails
  dep_step d a (ok v, run) = (ok (named d.name v a), run)
  dep_step d a (failed (validation cs es), run) = (ok (fails es a), run)
  dep_step d a (failed (http cs s t hs), run) = (failed (http cs s t hs), run)
  dep_step d a (failed (abort cs r), run) = (failed (abort cs r), run)
  dep_step d a (failed (other cs), run) = (failed (other cs), run)
  dep_step d a (exhausted, run) = (exhausted, run)

  -- for dep in self.dependencies
  unfoldable pub deps_loop :
      (Dep → Run V W → Result V × Run V W) → List Dep → Args V → Run V W → Result (Args V) × Run V W
  unfolding dep_step
  deps_loop resolve [] a run = (ok a, run)
  deps_loop resolve (d ∷ ds) a run = and_then (dep_step d a (resolve d run)) (deps_loop resolve ds)

  module _ (program : Program V W) where
    abbrev pub kept : ℕ → Bool → V → List (ℕ × V) → List (ℕ × V)
    kept f cache v vs = if cache then put_value f v vs else vs

    -- A generator that yielded waits for its teardown.
    abbrev pub started : ℕ → List ℕ → List ℕ
    started f fs = if (program.plan_of f).generator then fs ++ (f ∷ []) else fs

    unfoldable pub called_as : ℕ → Bool → Called V × W → Run V W → Result V × Run V W
    unfolding put_value
    called_as f cache (value v, w) run = (
      ok v,
      record {
        values = kept f cache v run.values;
        teardowns = started f run.teardowns;
        calls = run.calls ++ ((f, cache) ∷ []);
        user = w;
      },
    )
    called_as f cache (stopped, w) run = (failed (other (exception ∷ [])), record run { user = w })
    called_as f cache (threw e, w) run = (failed e, record run { user = w })

    unfoldable pub call_with : ℕ → Bool → Dict V → Run V W → Result V × Run V W
    unfolding called_as
    call_with f cache kwargs run = called_as f cache (program.invoke f kwargs run.user) run

    abbrev pub resolve_as :
        (Plan V → Run V W → Result (Dict V) × Run V W)
        → ℕ
        → Bool
        → Option V
        → Run V W
        → Result V × Run V W
    resolve_as bind_args f cache (some v) run = (ok v, run)
    resolve_as bind_args f cache none run =
        if has_arguments (program.plan_of f)
        then and_then (bind_args (program.plan_of f) run) (call_with f cache)
        else call_with f cache [] run

    abbrev pub stored : ℕ → Bool → Run V W → Option V
    stored f cache run = if cache then value_of f run.values else none

    -- `Run.resolve`, where `bind_args` is `Plan.bind`
    unfoldable pub resolve :
        (Plan V → Run V W → Result (Dict V) × Run V W) → Dep → Run V W → Result V × Run V W
    unfolding call_with value_of has_arguments
    resolve bind_args d run =
        let f = program.override d.func in resolve_as bind_args f d.cache (stored f d.cache run) run

    module _ (objects : Objects V) (models : Models V) (input : Input V) where
      abbrev pub read_with : Plan V → Args V → Run V W → Result (Dict V) × Run V W
      read_with plan a run = (finished (read_arguments objects models input plan a), run)

      -- `Plan.bind`
      unfoldable pub bind : ℕ → Plan V → Run V W → Result (Dict V) × Run V W
      unfolding deps_loop resolve read_arguments finish
      bind zero plan run = (exhausted, run)
      bind (suc n) plan run =
          and_then (deps_loop (resolve (bind n)) plan.dependencies no_args run) (read_with plan)

    -- `Run.__init__`
    abbrev pub new_run : Run V W
    new_run = record { values = []; teardowns = []; calls = []; user = program.new_state }
