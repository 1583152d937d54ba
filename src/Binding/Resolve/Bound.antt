-- ===== src/Binding/Resolve/Bound.antt =====
-- korvex/_schema.py: `Plan.bind` and `Run.resolve` come to an end where no function depends on itself.
use korvex.Prelude.{ℕ, zero, suc, Bool, List, [], ◌∷◌, Option, none, some, ◌≤◌, ◌<◌, arith}
use korvex.Prelude.Lists.{All}
use korvex.Prelude.Tests.{Bool-cases}
use korvex.Errors.{http, validation, abort, other}
use korvex.Binding.{Args, Objects, no_args}
use korvex.Binding.Reading.{Dep, Plan, Input, Models, got, raised, read_arguments}
use korvex.Binding.Resolve.{
  Result, ok, failed, exhausted, Run, Program, value, stopped, threw, and_then, dep_step, deps_loop,
  called_as, call_with, resolve, resolve_as, bind, has_arguments, finish, finished, stored,
  read_with,
}
use korvex.Binding.Resolve.{is_nil}
use korvex.Binding.Reading.{Read}
use korvex.Binding.Resolve.{Called}
use korvex.Binding.{Dict}
use korvex.Prelude.{inl}
use korvex.Prelude.{inr}

abbrev pub IsDone {ℓ} : {A : Type ℓ} → Result A → Type 0
IsDone exhausted = ⊥
IsDone _ = Unit

-- Every function that is depended on, as it is overridden, has a rank below `k`.
abbrev pub AllBelow : (rank override : ℕ → ℕ) → ℕ → List Dep → Type 0
AllBelow rank override k ds = All (λ d. rank (override d.func) < k) ds

pub AllBelow-weaken :
    (rank override : ℕ → ℕ) (j k : ℕ) (ds : List Dep)
    → AllBelow rank override j ds
    → j ≤ k
    → AllBelow rank override k ds
AllBelow-weaken rank override j k [] h le = h
AllBelow-weaken rank override j k (d ∷ ds) (h, hs) le =
    (omega (arith, h, le), AllBelow-weaken rank override j k ds hs le)

module _ {V : Type 0} where
  finish-IsDone : (a : Args V) → IsDone (finish a)
  unfolding finish
  finish-IsDone a = elim (Bool-cases (is_nil a.errors)) [
    | inl e ↦ rw (e, finish) tt
    | inr e ↦ rw (e, finish) tt
  ]

  pub finished-IsDone : (r : Read (Args V)) → IsDone (finished r)
  finished-IsDone (got a) = finish-IsDone a
  finished-IsDone (raised e) = tt

module _ {V W : Type 0} where
  abbrev pub Ends : {A : Type 0} → Result A × Run V W → Type 0
  Ends s = IsDone (s.0)

  dep_step-Ends : (d : Dep) (a : Args V) (s : Result V × Run V W) → Ends s → Ends (dep_step d a s)
  unfolding dep_step
  dep_step-Ends d a (ok v, run) h = tt
  dep_step-Ends d a (failed (http cs s t hs), run) h = tt
  dep_step-Ends d a (failed (validation cs es), run) h = tt
  dep_step-Ends d a (failed (abort cs r), run) h = tt
  dep_step-Ends d a (failed (other cs), run) h = tt
  dep_step-Ends d a (exhausted, run) h = h

  pub and_then-Ends :
      {A B : Type 0} (s : Result A × Run V W) (f : A → Run V W → Result B × Run V W)
      → Ends s
      → ((a : A) (run : Run V W) → Ends (f a run))
      → Ends (and_then s f)
  and_then-Ends (ok a, run) f h hf = hf a run
  and_then-Ends (failed e, run) f h hf = tt
  and_then-Ends (exhausted, run) f h hf = h

  pub deps_loop-Ends :
      (resolver : Dep → Run V W → Result V × Run V W) (ds : List Dep) (a : Args V) (run : Run V W)
      → All (λ d. (run : Run V W) → Ends (resolver d run)) ds
      → Ends (deps_loop resolver ds a run)
  unfolding deps_loop
  deps_loop-Ends resolver [] a run h = tt
  deps_loop-Ends resolver (d ∷ ds) a run (h, hs) =
      and_then-Ends (dep_step d a (resolver d run)) (deps_loop resolver ds)
        (dep_step-Ends d a (resolver d run) (h run)) (λ a run. deps_loop-Ends resolver ds a run hs)

  module _ (program : Program V W) where
    called_as-Ends :
        (f : ℕ) (cache : Bool) (s : Called V × W) (run : Run V W)
        → Ends (called_as program f cache s run)
    unfolding called_as
    called_as-Ends f cache (value v, w) run = tt
    called_as-Ends f cache (stopped, w) run = tt
    called_as-Ends f cache (threw e, w) run = tt

    call_with-Ends :
        (f : ℕ) (cache : Bool) (kwargs : Dict V) (run : Run V W)
        → Ends (call_with program f cache kwargs run)
    unfolding call_with
    call_with-Ends f cache kwargs run =
        called_as-Ends f cache (program.invoke f kwargs run.user) run

    resolve_as-Ends :
        (binder : Plan V → Run V W → Result (Dict V) × Run V W) (f : ℕ) (cache : Bool)
        (o : Option V) (run : Run V W)
        → Ends (binder (program.plan_of f) run)
        → Ends (resolve_as program binder f cache o run)
    resolve_as-Ends binder f cache (some v) run h = tt
    resolve_as-Ends binder f cache none run h =
        elim (Bool-cases (has_arguments (program.plan_of f))) [
          | inl e ↦ rw e (
              and_then-Ends (binder (program.plan_of f) run) (call_with program f cache) h
                (call_with-Ends f cache))
          | inr e ↦ rw e (call_with-Ends f cache [] run)
        ]

    module _ (objects : Objects V) (models : Models V) (input : Input V) where
      pub resolve-Ends :
          (n : ℕ) (d : Dep) (run : Run V W)
          → ((run : Run V W)
              → Ends (
                  bind program objects models input n
                    (program.plan_of (program.override d.func))
                    run))
          → Ends (resolve program (bind program objects models input n) d run)
      unfolding resolve
      resolve-Ends n d run h =
          resolve_as-Ends (bind program objects models input n) (program.override d.func) d.cache
            (stored program (program.override d.func) d.cache run) run (h run)

      -- A plan is bound where each of its dependencies is resolved.
      pub bind-Ends :
          (n : ℕ) (plan : Plan V)
          → All
              (λ d.
                (run : Run V W)
                → Ends (resolve program (bind program objects models input n) d run))
              plan.dependencies
          → (run : Run V W) → Ends (bind program objects models input (suc n) plan run)
      unfolding bind
      bind-Ends n plan h run =
          and_then-Ends
            (deps_loop (resolve program (bind program objects models input n)) plan.dependencies
              no_args run)
            (read_with program objects models input plan)
            (deps_loop-Ends (resolve program (bind program objects models input n))
              plan.dependencies no_args run h)
            (λ a run. finished-IsDone (read_arguments objects models input plan a))

      module _ (rank : ℕ → ℕ)
          (acyclic : (f : ℕ)
            → AllBelow rank program.override (rank f) (program.plan_of f).dependencies) where
        abbrev InnerEnds : ℕ → Type 0
        InnerEnds n =
            (d : Dep)
            → rank (program.override d.func) < n
            → (run : Run V W)
            → Ends (
                bind program objects models input n (program.plan_of (program.override d.func)) run)

        all-Ends :
            (n : ℕ) (ds : List Dep)
            → InnerEnds n
            → AllBelow rank program.override n ds
            → All
                (λ d.
                  (run : Run V W)
                  → Ends (resolve program (bind program objects models input n) d run))
                ds
        all-Ends n [] ih h = tt
        all-Ends n (d ∷ ds) ih (h, hs) = (λ run. resolve-Ends n d run (ih d h), all-Ends n ds ih hs)

        bind-Ends_step :
            (n : ℕ) (plan : Plan V)
            → InnerEnds n
            → AllBelow rank program.override n plan.dependencies
            → (run : Run V W) → Ends (bind program objects models input (suc n) plan run)
        bind-Ends_step n plan ih h run = bind-Ends n plan (all-Ends n plan.dependencies ih h) run

        -- Where a rank falls from each function to those that its plan depends on, as they are overridden,
        -- fuel above the ranks of a plan's dependencies is enough: `Plan.bind` ends with the arguments or
        -- with an exception.
        pub bind-IsDone :
            (n : ℕ) (plan : Plan V)
            → AllBelow rank program.override n plan.dependencies
            → (run : Run V W) → IsDone ((bind program objects models input (suc n) plan run).0)
        bind-IsDone zero plan h run =
            bind-Ends_step zero plan (λ d lt run. absurd (omega (arith, lt))) h run
        bind-IsDone (suc n) plan h run =
            bind-Ends_step (suc n) plan
              (λ d lt run.
                bind-IsDone n (program.plan_of (program.override d.func))
                  (AllBelow-weaken rank program.override (rank (program.override d.func)) n
                    (program.plan_of (program.override d.func)).dependencies
                    (acyclic (program.override d.func)) (omega (arith, lt)))
                  run)
              h run
