-- ===== src/Binding/Plans.antt =====
-- korvex/_schema.py: `plan_for`, which reads a function's annotations once, when its route is registered:
-- where each parameter comes from, and what is refused with TypeError. The plan of a dependency is
-- worked out in the same way and kept by its function, so that the cache of plans, which saves only
-- work, has no part here. `fuel` bounds how deep dependencies nest.
pub mod Ends
pub mod Same
pub mod Registered
pub mod Depth
use korvex.Prelude.{
  ℕ, zero, suc, Bool, true, false, not, ◌&&◌, ◌||◌, List, [], ◌∷◌, ◌++◌, Option, none, some,
}
use korvex.Prelude.Dict.{Dict, find}
use korvex.Prelude.Lists.{any, is_some, keep_if, head?}
use korvex.Prelude.Tests.{◌==◌, if◌then◌else◌}
use korvex.Prelude.Text.{Text, codes, eq_text}
use korvex.Binding.{Scalar, str_type, Inner, scalar, file, Param, Source}
use korvex.Binding.Reading.{Dep, Plan}
use korvex.Binding.Patterns.{path_params}
use korvex.Binding.Annotations.{
  Bare, scalar_type, uploaded_file, none_type, request_type, websocket_type, connection_type,
  model_type, other_type, Hint, bare, list_of, Annotation, plain, union, Marker, depends, Default,
  empty, marker_default, value_default, Parameter, Signature, Reason, Planned, planned, refused,
  no_fuel, then_plan, Unwrapped, unwrap, has_library, model_of, is_scalar, inner_of, same_scalar,
  source_code, is_from, key_of,
}
use korvex.Binding.Annotations.{is_scalar_of}
use korvex.Prelude.Lists.{is_nil}
use korvex.Prelude.Tests.{leb}
use korvex.Prelude.Lists.{length}
use korvex.Binding.Slots.{Slot, read_slot, dep_slot, no_slot, Place, slot}

-- What `_check_body` walks over a plan and its dependencies for, gathered on the way: the models in the
-- body, and whether a form is read.
pub record Needs : Type 0 where
  pub bodies : List ℕ
  pub reads_form : Bool

pub record Gathered (V : Type 0) : Type 0 where
  pub params : List (Param V)
  pub deps : List Dep
  pub needs : Needs

-- len(bodies) > 1
unfoldable pub has_two : List ℕ → Bool
has_two [] = false
has_two (m ∷ ms) = any (λ k. not (k == m)) ms

-- `_check_body`
unfoldable pub check_body : Needs → Planned Needs
unfolding has_two
check_body needs =
    if has_two needs.bodies
    then refused Reason.two_models
    else if not (is_nil needs.bodies) && needs.reads_form
    then refused Reason.model_and_form
    else planned needs

unfoldable pub join_needs : Needs → Needs → Needs
join_needs a b = record { bodies = a.bodies ++ b.bodies; reads_form = a.reads_form || b.reads_form }

module _ {V : Type 0} where
  abbrev pub from : Source → List (Param V) → List (Param V)
  from s ps = keep_if (is_from s) ps

  abbrev pub models_of : List (Param V) → List ℕ
  models_of [] = []
  models_of (p ∷ ps) = p.model ∷ models_of ps

  abbrev pub names_in : List (Param V) → List Text
  names_in [] = []
  names_in (p ∷ ps) = p.name ∷ names_in ps

  -- What the parameters themselves read of the body.
  unfoldable pub own_needs : List (Param V) → Needs
  own_needs ps = record {
    bodies = models_of (from Source.body ps);
    reads_form = not (is_nil (from Source.form ps)) || not (is_nil (from Source.form_model ps));
  }

  -- `Plan.__init__`
  unfoldable pub make_plan : Signature V → List (Param V) → List Dep → Plan V
  make_plan sig ps ds = record {
    dependencies = ds;
    path = from Source.path ps;
    query = from Source.query ps;
    headers = from Source.header ps;
    cookies = from Source.cookie ps;
    form = from Source.form ps;
    form_models = from Source.form_model ps;
    body = head? (from Source.body ps);
    request = names_in (from Source.request ps);
    generator = sig.generator;
  }

  abbrev pub add_dep : Dep → Gathered V → Plan V × Needs → Planned (Gathered V)
  add_dep d g (plan, needs) =
      planned
        (record { params = g.params; deps = g.deps ++ d ∷ []; needs = join_needs g.needs needs })

  -- A dependency is planned when it is met.
  unfoldable pub add_slot :
      (ℕ → Planned (Plan V × Needs)) → Gathered V → Slot V → Planned (Gathered V)
  unfolding join_needs
  add_slot plan_dep g no_slot = planned g
  add_slot plan_dep g (read_slot p) =
      planned (record { params = g.params ++ p ∷ []; deps = g.deps; needs = g.needs })
  add_slot plan_dep g (dep_slot d) = then_plan (plan_dep d.func) (add_dep d g)

  unfoldable pub params_loop :
      (ℕ → Planned (Plan V × Needs))
      → Place V
      → List (Parameter V)
      → Gathered V
      → Planned (Gathered V)
  unfolding add_slot slot
  params_loop plan_dep place [] g = planned g
  params_loop plan_dep place (p ∷ ps) g =
      then_plan (then_plan (slot place p) (add_slot plan_dep g)) (params_loop plan_dep place ps)

  -- for marker in dependencies
  unfoldable pub route_loop :
      (ℕ → Planned (Plan V × Needs)) → List (ℕ × Bool) → Gathered V → Planned (Gathered V)
  unfolding add_slot
  route_loop plan_dep [] g = planned g
  route_loop plan_dep ((f, cache) ∷ ds) g =
      then_plan (add_slot plan_dep g (dep_slot (record { name = none; func = f; cache = cache })))
        (route_loop plan_dep ds)

  abbrev pub new_gathered : Gathered V
  new_gathered = record {
    params = [];
    deps = [];
    needs = record { bodies = []; reads_form = false };
  }

  -- At the end of `plan_for`: one parameter can be the body, and a handler's whole plan is checked.
  unfoldable pub make_checked : Bool → Signature V → Gathered V → Planned (Plan V × Needs)
  unfolding make_plan own_needs join_needs check_body
  make_checked handler sig g =
      let plan = make_plan sig g.params g.deps in
      let needs = join_needs g.needs (own_needs g.params) in
      if leb 2 (length (from Source.body g.params))
      then refused Reason.two_bodies
      else if handler
      then then_plan (check_body needs) (λ needs. planned (plan, needs))
      else planned (plan, needs)

  abbrev pub gather :
      (ℕ → Planned (Plan V × Needs))
      → Place V
      → List (ℕ × Bool)
      → List (Parameter V)
      → Planned (Gathered V)
  gather plan_dep place deps ps =
      then_plan (route_loop plan_dep deps new_gathered) (params_loop plan_dep place ps)

  -- What one route says, and every function's signature.
  module _ (signature_of : ℕ → Signature V) (route_params : Dict Scalar) (websocket : Bool)
      (nothing : V) where
    abbrev pub place_for : Bool → Place V
    place_for handler = record {
      route_params = route_params;
      websocket = websocket;
      handler = handler;
      nothing = nothing;
    }

    -- `plan_for`, with the functions that depend on this one, `_chain`.
    unfoldable pub plan_for : ℕ → List ℕ → Bool → List (ℕ × Bool) → ℕ → Planned (Plan V × Needs)
    unfolding params_loop route_loop make_checked
    plan_for zero chain handler deps f = no_fuel
    plan_for (suc n) chain handler deps f = elim (any (λ g. g == f) chain) [
      | true ↦ refused Reason.cycle
      | false ↦ elim (signature_of f).readable [
        | false ↦ refused Reason.unreadable
        | true ↦
            then_plan
              (gather (plan_for n (f ∷ chain) false []) (place_for handler) deps
                (signature_of f).parameters)
              (make_checked handler (signature_of f))
      ]
    ]
