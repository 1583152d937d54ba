-- ===== src/Binding/Resolve/Started.antt =====
-- korvex/_schema.py: `Run.teardowns`, the generators that started.
use korvex.Prelude.{ℕ, zero, suc, Bool, List, [], ◌∷◌, ◌++◌, Option, none, some, ◌≡◌, refl, arith}
use korvex.Prelude.Lists.{All}
use korvex.Prelude.Tests.{Bool-cases, if◌then◌else◌}
use korvex.Binding.{Objects, no_args}
use korvex.Binding.Reading.{Dep, Plan, Input, Models}
use korvex.Binding.Resolve.{
  Result, Run, Program, Called, value, stopped, threw, deps_loop, called_as, call_with, resolve,
  resolve_as, bind, has_arguments, read_with, new_run, started, stored,
}
use korvex.Binding.Resolve.Steps.{and_then-follows, deps_loop-follows}
use korvex.Prelude.{sym}
use korvex.Binding.{Dict}
use korvex.Prelude.{◌∙◌}
use korvex.Prelude.{inl}
use korvex.Prelude.{ap}
use korvex.Prelude.{inr}

module _ {V W : Type 0} (program : Program V W) where
  -- The generators of the calls that gave a value, in order.
  unfoldable pub generators : List (ℕ × Bool) → List ℕ
  generators [] = []
  generators ((f, cache) ∷ calls) =
      let rest = generators calls in if (program.plan_of f).generator then f ∷ rest else rest

  generators-append :
      (xs : List (ℕ × Bool)) (f : ℕ) (cache : Bool)
      → generators (xs ++ (f, cache) ∷ []) ≡ started program f (generators xs)
  unfolding generators
  generators-append [] f cache = ground arith
  generators-append ((g, c) ∷ xs) f cache = ground (arith, generators-append xs f cache)

  record Registers (a b : Run V W) : Type 0 where
    registered : a.teardowns ≡ generators a.calls → b.teardowns ≡ generators b.calls

  Registers-refl : (a : Run V W) → Registers a a
  Registers-refl a = record { registered = λ h. h }

  Registers-trans : (a b c : Run V W) → Registers a b → Registers b c → Registers a c
  Registers-trans a b c p q = record { registered = λ h. q.registered (p.registered h) }

  called_as-Registers :
      (f : ℕ) (cache : Bool) (s : Called V × W) (a : Run V W)
      → Registers a ((called_as program f cache s a).1)
  unfolding called_as
  called_as-Registers f cache (value v, w) a = record {
    registered = λ h. sym (generators-append a.calls f cache ∙ ap (started program f) (sym h));
  }
  called_as-Registers f cache (stopped, w) a = record { registered = λ h. h }
  called_as-Registers f cache (threw e, w) a = record { registered = λ h. h }

  call_with-Registers :
      (f : ℕ) (cache : Bool) (kwargs : Dict V) (a : Run V W)
      → Registers a ((call_with program f cache kwargs a).1)
  unfolding call_with
  call_with-Registers f cache kwargs a =
      called_as-Registers f cache (program.invoke f kwargs a.user) a

  resolve_as-Registers :
      (binder : Plan V → Run V W → Result (Dict V) × Run V W) (f : ℕ) (cache : Bool) (o : Option V)
      (a : Run V W)
      → Registers a ((binder (program.plan_of f) a).1)
      → Registers a ((resolve_as program binder f cache o a).1)
  resolve_as-Registers binder f cache (some v) a h = Registers-refl a
  resolve_as-Registers binder f cache none a h =
      elim (Bool-cases (has_arguments (program.plan_of f))) [
        | inl e ↦ rw e (
            and_then-follows Registers Registers-refl Registers-trans a
              (binder (program.plan_of f) a) (call_with program f cache) h
              (call_with-Registers f cache))
        | inr e ↦ rw e (call_with-Registers f cache [] a)
      ]

  all-Registers :
      (binder : Plan V → Run V W → Result (Dict V) × Run V W) (ds : List Dep)
      → ((plan : Plan V) (a : Run V W) → Registers a ((binder plan a).1))
      → All (λ d. (a : Run V W) → Registers a ((resolve program binder d a).1)) ds
  unfolding resolve
  all-Registers binder [] ih = tt
  all-Registers binder (d ∷ ds) ih = (
    λ a.
        let f = program.override d.func in
        resolve_as-Registers binder f d.cache (stored program f d.cache a) a
          (ih (program.plan_of f) a),
    all-Registers binder ds ih,
  )

  module _ (objects : Objects V) (models : Models V) (input : Input V) where
    bind-Registers :
        (n : ℕ) (plan : Plan V) (a : Run V W)
        → Registers a ((bind program objects models input n plan a).1)
    unfolding bind
    bind-Registers zero plan a = Registers-refl a
    bind-Registers (suc n) plan a =
        let binder = bind program objects models input n in
        and_then-follows Registers Registers-refl Registers-trans a
          (deps_loop (resolve program binder) plan.dependencies no_args a)
          (read_with program objects models input plan)
          (deps_loop-follows Registers Registers-refl Registers-trans (resolve program binder)
            plan.dependencies no_args a (all-Registers binder plan.dependencies (bind-Registers n)))
          (λ args run. Registers-refl run)

    -- Whether a request's arguments are bound or an exception is raised, the teardowns that wait are the
    -- generators of the calls that gave a value, each as often as it was called and in this order.
    pub bind-registers :
        (n : ℕ) (plan : Plan V)
        → let run = (bind program objects models input n plan (new_run program)).1 in
          run.teardowns ≡ generators run.calls
    unfolding generators
    bind-registers n plan = (bind-Registers n plan (new_run program)).registered refl
