-- ===== src/Binding/Plans/Registered.antt =====
-- korvex/_schema.py: what `plan_for` registers, `Plan.bind` binds: the recursion of a request is no deeper
-- than the one at registration was.
use mathlib.Core.Path.{subst}
use korvex.Prelude.{
  ℕ, zero, suc, ◌≤◌, ◌≡◌, refl, sym, ap, ◌∙◌, Bool, true, false, List, [], ◌∷◌, none, inl, inr,
  arith,
}
use korvex.Prelude.Dict.{Dict}
use korvex.Prelude.Lists.{All, All-append, length}
use korvex.Prelude.Tests.{leb, Bool-cases, if◌then◌else◌}
use korvex.Binding.{Scalar, Objects}
use korvex.Binding.Reading.{Dep, Plan, Input, Models}
use korvex.Binding.Annotations.{
  Signature, Parameter, Reason, Planned, planned, refused, no_fuel, then_plan,
}
use korvex.Binding.Slots.{Slot, read_slot, dep_slot, no_slot, Place, slot}
use korvex.Binding.Resolve.{Run, Program, bind, resolve}
use korvex.Binding.Resolve.Bound.{Ends, IsDone, resolve-Ends, bind-Ends}
use korvex.Binding.Plans.{
  Needs, Gathered, check_body, add_dep, add_slot, params_loop, route_loop, make_checked, gather,
  new_gathered, place_for, plan_for,
}
use korvex.Binding.Plans.Ends.{is_in}
use korvex.Binding.Plans.Same.{plan_for-Agrees}
use korvex.Binding.Plans.{join_needs}
use korvex.Binding.Plans.{own_needs}
use korvex.Binding.Plans.{make_plan}
use korvex.Binding.Plans.{from}
use korvex.Binding.{Source}

module _ {V : Type 0} (P : Dep → Type 0) where
  abbrev GatheredHolds : Planned (Gathered V) → Type 0
  GatheredHolds (planned g) = All P g.deps
  GatheredHolds (refused r) = Unit
  GatheredHolds no_fuel = Unit

  abbrev PlanHolds : Planned (Plan V × Needs) → Type 0
  PlanHolds (planned (plan, needs)) = All P plan.dependencies
  PlanHolds (refused r) = Unit
  PlanHolds no_fuel = Unit

  then_plan-GatheredHolds :
      (a : Planned (Gathered V)) (f : Gathered V → Planned (Gathered V))
      → GatheredHolds a
      → ((g : Gathered V) → All P g.deps → GatheredHolds (f g))
      → GatheredHolds (then_plan a f)
  then_plan-GatheredHolds (planned g) f h hf = hf g h
  then_plan-GatheredHolds (refused r) f h hf = tt
  then_plan-GatheredHolds no_fuel f h hf = tt

  PlanHolds-if :
      (b : Bool) (x y : Planned (Plan V × Needs))
      → PlanHolds x
      → PlanHolds y
      → PlanHolds (if b then x else y)
  PlanHolds-if true x y hx hy = hx
  PlanHolds-if false x y hx hy = hy

  PlanHolds-checked :
      (plan : Plan V) (a : Planned Needs)
      → All P plan.dependencies
      → PlanHolds (then_plan a (λ (n : Needs). planned (plan, n)))
  PlanHolds-checked plan (planned n) h = h
  PlanHolds-checked plan (refused r) h = tt
  PlanHolds-checked plan no_fuel h = tt

  make_checked-PlanHolds :
      (handler : Bool) (sig : Signature V) (a : Planned (Gathered V))
      → GatheredHolds a
      → PlanHolds (then_plan a (make_checked handler sig))
  unfolding make_checked
  make_checked-PlanHolds handler sig (refused r) h = tt
  make_checked-PlanHolds handler sig no_fuel h = tt
  make_checked-PlanHolds handler sig (planned g) h =
      let needs = join_needs g.needs (own_needs g.params) in
      let plan = make_plan sig g.params g.deps in
      PlanHolds-if (leb 2 (length (from Source.body g.params))) (refused Reason.two_bodies) _ tt (
        PlanHolds-if handler (then_plan (check_body needs) (λ (n : Needs). planned (plan, n)))
          (planned (plan, needs)) (PlanHolds-checked plan (check_body needs) h) h)

  -- A dependency is planned where `P` holds of it.
  module _ (plan_dep : ℕ → Planned (Plan V × Needs))
      (planned-P : (d : Dep) (x : Plan V × Needs) → plan_dep d.func ≡ planned x → P d) where
    add_dep-GatheredHolds :
        (d : Dep) (g : Gathered V) (a : Planned (Plan V × Needs))
        → plan_dep d.func ≡ a
        → All P g.deps
        → GatheredHolds (then_plan a (add_dep d g))
    add_dep-GatheredHolds d g (planned (plan, needs)) e h =
        All-append P g.deps (d ∷ []) h (planned-P d (plan, needs) e, tt)
    add_dep-GatheredHolds d g (refused r) e h = tt
    add_dep-GatheredHolds d g no_fuel e h = tt

    add_slot-GatheredHolds :
        (g : Gathered V) (s : Slot V) → All P g.deps → GatheredHolds (add_slot plan_dep g s)
    unfolding add_slot
    add_slot-GatheredHolds g (read_slot p) h = h
    add_slot-GatheredHolds g no_slot h = h
    add_slot-GatheredHolds g (dep_slot d) h = add_dep-GatheredHolds d g (plan_dep d.func) refl h

    then_slot-GatheredHolds :
        (g : Gathered V) (s : Planned (Slot V))
        → All P g.deps
        → GatheredHolds (then_plan s (add_slot plan_dep g))
    then_slot-GatheredHolds g (planned s) h = add_slot-GatheredHolds g s h
    then_slot-GatheredHolds g (refused r) h = tt
    then_slot-GatheredHolds g no_fuel h = tt

    params_loop-GatheredHolds :
        (place : Place V) (ps : List (Parameter V)) (g : Gathered V)
        → All P g.deps
        → GatheredHolds (params_loop plan_dep place ps g)
    unfolding params_loop
    params_loop-GatheredHolds place [] g h = h
    params_loop-GatheredHolds place (p ∷ ps) g h =
        then_plan-GatheredHolds (then_plan (slot place p) (add_slot plan_dep g))
          (params_loop plan_dep place ps) (then_slot-GatheredHolds g (slot place p) h)
          (params_loop-GatheredHolds place ps)

    route_loop-GatheredHolds :
        (ds : List (ℕ × Bool)) (g : Gathered V)
        → All P g.deps
        → GatheredHolds (route_loop plan_dep ds g)
    unfolding route_loop
    route_loop-GatheredHolds [] g h = h
    route_loop-GatheredHolds ((f, cache) ∷ ds) g h =
        let d = dep_slot (record { name = none; func = f; cache = cache }) in
        then_plan-GatheredHolds (add_slot plan_dep g d) (route_loop plan_dep ds)
          (add_slot-GatheredHolds g d h) (route_loop-GatheredHolds ds)

    gather-PlanHolds :
        (place : Place V) (ds : List (ℕ × Bool)) (ps : List (Parameter V)) (handler : Bool)
        (sig : Signature V)
        → PlanHolds (then_plan (gather plan_dep place ds ps) (make_checked handler sig))
    gather-PlanHolds place ds ps handler sig =
        make_checked-PlanHolds handler sig (gather plan_dep place ds ps) (
          then_plan-GatheredHolds (route_loop plan_dep ds new_gathered)
            (params_loop plan_dep place ps) (route_loop-GatheredHolds ds new_gathered tt)
            (params_loop-GatheredHolds place ps))

module _ {V W : Type 0} (signature_of : ℕ → Signature V) (route_params : Dict Scalar)
    (websocket : Bool) (nothing : V) (program : Program V W) (objects : Objects V)
    (models : Models V) (input : Input V) (most : ℕ)
    (no_overrides : (g : ℕ) → program.override g ≡ g)
    (registered : (g : ℕ) (x : Plan V × Needs)
      → plan_for signature_of route_params websocket nothing most [] false [] g ≡ planned x
      → program.plan_of g ≡ x.0) where
  abbrev Resolves : ℕ → Dep → Type 0
  Resolves n d =
      (run : Run V W) → Ends (resolve program (bind program objects models input n) d run)

  plan_for-PlanHolds :
      (n : ℕ) (chain : List ℕ) (handler : Bool) (deps : List (ℕ × Bool)) (f : ℕ)
      → ((d : Dep) (x : Plan V × Needs)
          → plan_for signature_of route_params websocket nothing n (f ∷ chain) false [] d.func
            ≡ planned x
          → Resolves n d)
      → PlanHolds
          (Resolves n)
          (plan_for signature_of route_params websocket nothing (suc n) chain handler deps f)
  unfolding plan_for
  plan_for-PlanHolds n chain handler deps f h = elim (Bool-cases (is_in chain f)) [
    | inl e ↦ rw (e, PlanHolds) tt
    | inr e ↦ elim (Bool-cases (signature_of f).readable) [
      | inl r ↦
          rw (e, r, PlanHolds)
            (gather-PlanHolds (Resolves n)
              (plan_for signature_of route_params websocket nothing n (f ∷ chain) false []) h
              (place_for signature_of route_params websocket nothing handler) deps
              (signature_of f).parameters handler (signature_of f))
      | inr r ↦ rw (e, r, PlanHolds) tt
    ]
  ]

  planned-Resolves :
      (n : ℕ) (chain : List ℕ) (d : Dep) (x : Plan V × Needs)
      → n ≤ most
      → plan_for signature_of route_params websocket nothing n chain false [] d.func ≡ planned x
      → ((run : Run V W) → Ends (bind program objects models input n (x.0) run))
      → Resolves n d
  planned-Resolves n chain d x le e h =
      let same : program.plan_of d.func ≡ x.0 = registered d.func x (
        plan_for-Agrees signature_of route_params websocket nothing n most chain [] false [] d.func
          le (λ g k. cc) x e) in
      λ run. resolve-Ends program objects models input n d run (
        subst (λ p. (run : Run V W) → Ends (bind program objects models input n p run))
          (sym (ap program.plan_of (no_overrides d.func) ∙ same)) h)

  -- Where the plan of each function is the one that `plan_for` makes with enough fuel, and nothing is
  -- overridden, a plan that `plan_for` makes is bound, on any request, to the arguments or to an
  -- exception with the fuel that it was made with.
  pub plan_for-IsDone :
      (n : ℕ) (chain : List ℕ) (handler : Bool) (deps : List (ℕ × Bool)) (f : ℕ) (plan : Plan V)
      (needs : Needs)
      → n ≤ most
      → plan_for signature_of route_params websocket nothing n chain handler deps f
        ≡ planned (plan, needs)
      → (run : Run V W) → IsDone ((bind program objects models input n plan run).0)
  unfolding plan_for
  plan_for-IsDone zero chain handler deps f plan needs le e run = cc
  plan_for-IsDone (suc n) chain handler deps f plan needs le e run =
      let holds = plan_for-PlanHolds n chain handler deps f (λ d x k.
        planned-Resolves n (f ∷ chain) d x (omega (arith, le)) k
          (plan_for-IsDone n (f ∷ chain) false [] d.func (x.0) (x.1) (omega (arith, le)) k)) in
      bind-Ends program objects models input n plan (subst (PlanHolds (Resolves n)) e holds) run
