-- ===== src/Binding/Resolve/Again.antt =====
-- korvex/_schema.py: `Run.values`, from which a function that was called is answered again.
use korvex.Prelude.{ℕ, true, [], Option, none, some, ◌≡◌, refl, ◌∙◌, ap, arith}
use mathlib.Core.Path.{subst}
use korvex.Prelude.Lists.{is_some}
use korvex.Prelude.Tests.{Bool-cases}
use korvex.Binding.{Objects}
use korvex.Binding.Reading.{Plan, Input, Models}
use korvex.Binding.Resolve.{
  Result, ok, failed, exhausted, Run, Program, Called, value, stopped, threw, and_then, called_as,
  call_with, resolve, resolve_as, bind, has_arguments, value_of,
}
use korvex.Binding.Resolve.Bound.{AllBelow}
use korvex.Binding.{Dict}
use korvex.Prelude.{inl}
use korvex.Prelude.{inr}
use korvex.Binding.{Text}
use korvex.Binding.Resolve.Once.{value_of-put, bind-Later}

module _ {V W : Type 0} where
  module _ (program : Program V W) where
    -- A value is kept where it is asked for with `cache`.
    abbrev Holds : ℕ → Result V × Run V W → Type 0
    Holds f (ok v, run) = value_of f run.values ≡ some v
    Holds f (failed e, run) = Unit
    Holds f (exhausted, run) = Unit

    called_as-Holds :
        (f : ℕ) (s : Called V × W) (a : Run V W) → Holds f (called_as program f true s a)
    unfolding called_as
    called_as-Holds f (value v, w) a = ground (arith, value_of-put f f v a.values)
    called_as-Holds f (stopped, w) a = tt
    called_as-Holds f (threw e, w) a = tt

    call_with-Holds :
        (f : ℕ) (kwargs : Dict V) (a : Run V W) → Holds f (call_with program f true kwargs a)
    unfolding call_with
    call_with-Holds f kwargs a = called_as-Holds f (program.invoke f kwargs a.user) a

    bound-Holds :
        (f : ℕ) (s : Result (Dict V) × Run V W) → Holds f (and_then s (call_with program f true))
    bound-Holds f (ok kwargs, run) = call_with-Holds f kwargs run
    bound-Holds f (failed e, run) = tt
    bound-Holds f (exhausted, run) = tt

    resolve_as-Holds :
        (binder : Plan V → Run V W → Result (Dict V) × Run V W) (f : ℕ) (o : Option V) (a : Run V W)
        → value_of f a.values ≡ o
        → Holds f (resolve_as program binder f true o a)
    resolve_as-Holds binder f (some v) a h = h
    resolve_as-Holds binder f none a h = elim (Bool-cases (has_arguments (program.plan_of f))) [
      | inl e ↦ rw e (bound-Holds f (binder (program.plan_of f) a))
      | inr e ↦ rw e (call_with-Holds f [] a)
    ]

    resolve-Holds :
        (binder : Plan V → Run V W → Result (Dict V) × Run V W) (f : ℕ) (name : Option Text)
        (a : Run V W)
        → Holds
            (program.override f)
            (resolve program binder (record { name = name; func = f; cache = true }) a)
    unfolding resolve
    resolve-Holds binder f name a =
        let g = program.override f in resolve_as-Holds binder g (value_of g a.values) a refl

    resolve-stored :
        (binder : Plan V → Run V W → Result (Dict V) × Run V W) (f : ℕ) (name : Option Text) (v : V)
        (a : Run V W)
        → value_of (program.override f) a.values ≡ some v
        → resolve program binder (record { name = name; func = f; cache = true }) a ≡ (ok v, a)
    unfolding resolve
    resolve-stored binder f name v a h = rw h refl

    module _ (objects : Objects V) (models : Models V) (input : Input V) (rank : ℕ → ℕ)
        (acyclic : (f : ℕ)
          → AllBelow rank program.override (rank f) (program.plan_of f).dependencies) where
      -- Where a rank falls from each function to those that its plan depends on, as they are overridden,
      -- and a dependency that is asked for with `cache` gave a value, then after any binding of the same
      -- request it gives this value again, under any parameter's name, and nothing is called.
      pub resolve-again :
          (binder : Plan V → Run V W → Result (Dict V) × Run V W) (f : ℕ)
          (name other_name : Option Text) (a b : Run V W) (v : V) (n k : ℕ) (plan : Plan V)
          → AllBelow rank program.override k plan.dependencies
          → resolve program binder (record { name = name; func = f; cache = true }) a ≡ (ok v, b)
          → let c = (bind program objects models input n plan b).1 in
            resolve program binder (record { name = other_name; func = f; cache = true }) c
            ≡ (ok v, c)
      resolve-again binder f name other_name a b v n k plan h e =
          let g = program.override f in
          let c = (bind program objects models input n plan b).1 in
          let held : value_of g b.values ≡ some v =
            subst (Holds g) e (resolve-Holds binder f name a) in
          let later = bind-Later rank program objects models input acyclic n k plan b h in
          resolve-stored binder f other_name v c (later.stays g (ap is_some held) ∙ held)
