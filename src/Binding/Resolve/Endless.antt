-- ===== src/Binding/Resolve/Endless.antt =====
-- korvex/_schema.py: `Run.resolve` with an override that depends on the function that it replaces.
use mathlib.Core.Path.{subst}
use korvex.Prelude.{
  ap, sym, ◌∙◌, ℕ, zero, suc, Bool, true, false, List, ◌∷◌, Option, none, some, ◌≡◌, refl, arith,
}
use korvex.Prelude.Lists.{is_nil}
use korvex.Binding.{Args, Objects, no_args}
use korvex.Binding.Reading.{Dep, Plan, Input, Models}
use korvex.Binding.Resolve.{
  Result, ok, failed, exhausted, Run, Program, and_then, dep_step, deps_loop, call_with, resolve,
  resolve_as, bind, has_arguments, stored, value_of, read_with,
}
use korvex.Binding.{Dict}

module _ {V W : Type 0} where
  abbrev IsExhausted : {A : Type 0} → Result A × Run V W → Type 0
  IsExhausted (ok a, run) = ⊥
  IsExhausted (failed e, run) = ⊥
  IsExhausted (exhausted, run) = Unit

  and_then-IsExhausted :
      {A B : Type 0} (s : Result A × Run V W) (f : A → Run V W → Result B × Run V W)
      → IsExhausted s
      → IsExhausted (and_then s f)
  and_then-IsExhausted (ok a, run) f h = absurd h
  and_then-IsExhausted (failed e, run) f h = absurd h
  and_then-IsExhausted (exhausted, run) f h = tt

  dep_step-IsExhausted :
      (d : Dep) (a : Args V) (s : Result V × Run V W) → IsExhausted s → IsExhausted (dep_step d a s)
  unfolding dep_step
  dep_step-IsExhausted d a (ok v, run) h = absurd h
  dep_step-IsExhausted d a (failed e, run) h = absurd h
  dep_step-IsExhausted d a (exhausted, run) h = tt

  deps_loop-IsExhausted :
      (resolver : Dep → Run V W → Result V × Run V W) (d : Dep) (ds : List Dep) (a : Args V)
      (run : Run V W)
      → IsExhausted (resolver d run)
      → IsExhausted (deps_loop resolver (d ∷ ds) a run)
  unfolding deps_loop
  deps_loop-IsExhausted resolver d ds a run h =
      and_then-IsExhausted (dep_step d a (resolver d run)) (deps_loop resolver ds)
        (dep_step-IsExhausted d a (resolver d run) h)

  exhausted-eq : {A : Type 0} (s : Result A × Run V W) → IsExhausted s → s.0 ≡ exhausted
  exhausted-eq (ok a, run) h = absurd h
  exhausted-eq (failed e, run) h = absurd h
  exhausted-eq (exhausted, run) h = refl

  module _ (program : Program V W) (objects : Objects V) (models : Models V) (input : Input V) where
    resolve_as-IsExhausted :
        (binder : Plan V → Run V W → Result (Dict V) × Run V W) (f : ℕ) (cache : Bool)
        (o : Option V) (run : Run V W)
        → o ≡ none
        → has_arguments (program.plan_of f) ≡ true
        → IsExhausted (binder (program.plan_of f) run)
        → IsExhausted (resolve_as program binder f cache o run)
    resolve_as-IsExhausted binder f cache (some v) run e args h = cc
    resolve_as-IsExhausted binder f cache none run e args h =
        rw args
          (and_then-IsExhausted (binder (program.plan_of f) run) (call_with program f cache) h)

    has_arguments-depends :
        (plan : Plan V) (d : Dep) (ds : List Dep)
        → plan.dependencies ≡ d ∷ ds
        → has_arguments plan ≡ true
    unfolding has_arguments
    has_arguments-depends plan d ds e =
        let some_dep : is_nil plan.dependencies ≡ false = ap is_nil e in ground (arith, some_dep)

    stored-none :
        (f : ℕ) (cache : Bool) (run : Run V W)
        → value_of f run.values ≡ none
        → stored program f cache run ≡ none
    stored-none f true run h = h
    stored-none f false run h = refl

    resolve-IsExhausted :
        (binder : Plan V → Run V W → Result (Dict V) × Run V W) (d : Dep) (run : Run V W)
        → value_of (program.override d.func) run.values ≡ none
        → has_arguments (program.plan_of (program.override d.func)) ≡ true
        → IsExhausted (binder (program.plan_of (program.override d.func)) run)
        → IsExhausted (resolve program binder d run)
    unfolding resolve
    resolve-IsExhausted binder d run fresh args h =
        let f = program.override d.func in
        resolve_as-IsExhausted binder f d.cache (stored program f d.cache run) run
          (stored-none f d.cache run fresh) args h

    bind-IsExhausted :
        (n : ℕ) (plan : Plan V) (d : Dep) (ds : List Dep) (run : Run V W)
        → plan.dependencies ≡ d ∷ ds
        → program.plan_of (program.override d.func) ≡ plan
        → value_of (program.override d.func) run.values ≡ none
        → IsExhausted (bind program objects models input n plan run)
    unfolding bind
    bind-IsExhausted zero plan d ds run e same fresh = tt
    bind-IsExhausted (suc n) plan d ds run e same fresh =
        let binder = bind program objects models input n in
        let args : has_arguments (program.plan_of (program.override d.func)) ≡ true =
          ap has_arguments same ∙ has_arguments-depends plan d ds e in
        let deeper =
          subst (λ p. IsExhausted (binder p run)) (sym same)
            (bind-IsExhausted n plan d ds run e same fresh) in
        and_then-IsExhausted (deps_loop (resolve program binder) plan.dependencies no_args run)
          (read_with program objects models input plan)
          (subst (λ l. IsExhausted (deps_loop (resolve program binder) l no_args run)) (sym e)
            (deps_loop-IsExhausted (resolve program binder) d ds no_args run
              (resolve-IsExhausted binder d run fresh args deeper)))

    -- Where a plan depends first on a function whose override has this same plan, and the override has no
    -- value yet, no fuel is enough to bind it: the override is asked for its own value without end.
    pub bind-exhausted :
        (n : ℕ) (plan : Plan V) (d : Dep) (ds : List Dep) (run : Run V W)
        → plan.dependencies ≡ d ∷ ds
        → program.plan_of (program.override d.func) ≡ plan
        → value_of (program.override d.func) run.values ≡ none
        → (bind program objects models input n plan run).0 ≡ exhausted
    bind-exhausted n plan d ds run e same fresh =
        exhausted-eq (bind program objects models input n plan run)
          (bind-IsExhausted n plan d ds run e same fresh)
