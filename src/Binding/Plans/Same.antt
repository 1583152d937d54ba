-- ===== src/Binding/Plans/Same.antt =====
-- korvex/_schema.py: a plan that `plan_for` makes does not depend on what led to its function.
use korvex.Prelude.{
  ℕ, zero, suc, ◌≤◌, ◌≡◌, refl, sym, Bool, true, false, List, [], ◌∷◌, inl, inr, arith,
}
use korvex.Prelude.Dict.{Dict}
use korvex.Prelude.Tests.{◌==◌, Bool-cases}
use korvex.Binding.{Scalar}
use korvex.Binding.Reading.{Plan}
use korvex.Binding.Annotations.{Signature, Parameter, Planned, planned, refused, no_fuel, then_plan}
use korvex.Binding.Slots.{read_slot, dep_slot, no_slot, Place, slot}
use korvex.Binding.Plans.{
  Needs, Gathered, add_dep, add_slot, params_loop, route_loop, make_checked, gather, new_gathered,
  place_for, plan_for,
}
use korvex.Binding.Plans.Ends.{is_in}
use korvex.Binding.{none}
use korvex.Binding.Annotations.{Reason}

-- What is planned on the left is planned on the right.
abbrev pub Agrees : {A : Type 0} → Planned A → Planned A → Type 0
Agrees {A} a b = (x : A) → a ≡ planned x → b ≡ planned x

abbrev AgreesAll : {A B : Type 0} → (A → Planned B) → (A → Planned B) → Type 0
AgreesAll {A} f g = (x : A) → Agrees (f x) (g x)

then_plan-Agrees :
    {A B : Type 0} (a b : Planned A) (f g : A → Planned B)
    → Agrees a b
    → AgreesAll f g
    → Agrees (then_plan a f) (then_plan b g)
then_plan-Agrees (planned x) b f g h k y e = rw (h x refl) (k x y e)
then_plan-Agrees (refused r) b f g h k y e = cc
then_plan-Agrees no_fuel b f g h k y e = cc

Agrees-refl : {A : Type 0} (a : Planned A) → Agrees a a
Agrees-refl a x e = e

module _ {V : Type 0} (small large : ℕ → Planned (Plan V × Needs))
    (agree : AgreesAll small large) where
  add_slot-Agrees : (g : Gathered V) → AgreesAll (add_slot small g) (add_slot large g)
  unfolding add_slot
  add_slot-Agrees g (read_slot p) = Agrees-refl _
  add_slot-Agrees g no_slot = Agrees-refl _
  add_slot-Agrees g (dep_slot d) =
      then_plan-Agrees (small d.func) (large d.func) (add_dep d g) (add_dep d g) (agree d.func)
        (λ x. Agrees-refl (add_dep d g x))

  params_loop-Agrees :
      (place : Place V) (ps : List (Parameter V))
      → AgreesAll (params_loop small place ps) (params_loop large place ps)
  unfolding params_loop
  params_loop-Agrees place [] g = Agrees-refl _
  params_loop-Agrees place (p ∷ ps) g =
      then_plan-Agrees (then_plan (slot place p) (add_slot small g))
        (then_plan (slot place p) (add_slot large g)) (params_loop small place ps)
        (params_loop large place ps)
        (then_plan-Agrees (slot place p) (slot place p) (add_slot small g) (add_slot large g)
          (Agrees-refl (slot place p)) (add_slot-Agrees g))
        (params_loop-Agrees place ps)

  route_loop-Agrees : (ds : List (ℕ × Bool)) → AgreesAll (route_loop small ds) (route_loop large ds)
  unfolding route_loop
  route_loop-Agrees [] g = Agrees-refl _
  route_loop-Agrees ((f, cache) ∷ ds) g =
      let d = dep_slot (record { name = none; func = f; cache = cache }) in
      then_plan-Agrees (add_slot small g d) (add_slot large g d) (route_loop small ds)
        (route_loop large ds) (add_slot-Agrees g d) (route_loop-Agrees ds)

  gather-Agrees :
      (place : Place V) (ds : List (ℕ × Bool)) (ps : List (Parameter V))
      → Agrees (gather small place ds ps) (gather large place ds ps)
  gather-Agrees place ds ps =
      then_plan-Agrees (route_loop small ds new_gathered) (route_loop large ds new_gathered)
        (params_loop small place ps) (params_loop large place ps)
        (route_loop-Agrees ds new_gathered) (params_loop-Agrees place ps)

-- The checks at the start of `plan_for`.
abbrev checked : {A : Type 0} → Bool → Bool → Planned A → Planned A
checked in_chain readable p = elim in_chain [
  | true ↦ refused Reason.cycle
  | false ↦ elim readable [ false ↦ refused Reason.unreadable | true ↦ p ]
]

checked-Agrees :
    {A : Type 0} (b c readable : Bool) (p q : Planned A)
    → (c ≡ true → b ≡ true)
    → Agrees p q
    → Agrees (checked b readable p) (checked c readable q)
checked-Agrees true c readable p q h k x e = cc
checked-Agrees false true readable p q h k x e = let e : true ≡ false = sym (h refl) in cc
checked-Agrees false false true p q h k x e = k x e
checked-Agrees false false false p q h k x e = cc

module _ {V : Type 0} (signature_of : ℕ → Signature V) (route_params : Dict Scalar)
    (websocket : Bool) (nothing : V) where
  pub plan_for-Agrees :
      (m n : ℕ) (chain shorter : List ℕ) (handler : Bool) (deps : List (ℕ × Bool)) (f : ℕ)
      → m ≤ n
      → ((g : ℕ) → is_in shorter g ≡ true → is_in chain g ≡ true)
      → Agrees
          (plan_for signature_of route_params websocket nothing m chain handler deps f)
          (plan_for signature_of route_params websocket nothing n shorter handler deps f)
  unfolding plan_for
  plan_for-Agrees zero n chain shorter handler deps f le sub = λ x e. cc
  plan_for-Agrees (suc m) zero chain shorter handler deps f le sub =
      λ x e. absurd (omega (arith, le))
  plan_for-Agrees (suc m) (suc n) chain shorter handler deps f le sub =
      let small = plan_for signature_of route_params websocket nothing m (f ∷ chain) false [] in
      let large = plan_for signature_of route_params websocket nothing n (f ∷ shorter) false [] in
      let place = place_for signature_of route_params websocket nothing handler in
      let ps = (signature_of f).parameters in
      checked-Agrees (is_in chain f) (is_in shorter f) (signature_of f).readable
        (then_plan (gather small place deps ps) (make_checked handler (signature_of f)))
        (then_plan (gather large place deps ps) (make_checked handler (signature_of f))) (sub f)
        (then_plan-Agrees (gather small place deps ps) (gather large place deps ps)
          (make_checked handler (signature_of f)) (make_checked handler (signature_of f))
          (gather-Agrees small large
            (λ g.
              plan_for-Agrees m n (f ∷ chain) (f ∷ shorter) false [] g (omega (arith, le))
                (λ j k. joined j k (sub j)))
            place deps ps)
          (λ g. Agrees-refl (make_checked handler (signature_of f) g)))
    where
      joined :
          (j : ℕ)
          → is_in (f ∷ shorter) j ≡ true
          → (is_in shorter j ≡ true → is_in chain j ≡ true)
          → is_in (f ∷ chain) j ≡ true
      joined j k h = elim (Bool-cases (f == j)) [
        | inl e ↦ ground (arith, e)
        | inr e ↦
            let there : is_in chain j ≡ true = h (ground (arith, e, k)) in ground (arith, there)
      ]
