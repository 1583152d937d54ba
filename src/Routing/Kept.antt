-- ===== src/Routing/Kept.antt =====
-- What a registration leaves of the routes that are there.
use korvex.Prelude.{
  ℕ, Bool, true, false, not, ◌&&◌, [], ◌∷◌, Option, ◌⊎◌, none, some, ◌≡◌, refl, sym, ap, inl, inr,
  arith,
}
use mathlib.Core.Path.{subst}
use korvex.Prelude.Dict.{Dict, find, find-put}
use korvex.Prelude.Tests.{if◌then◌else◌, Bool-cases}
use korvex.Prelude.Text.{Text, eq_text, eq_text_iff, eq_text_sound}
use korvex.Router.{Core, Router}
use korvex.Router.Group
use korvex.Router.Group.{RouteGroup, full_path}
use korvex.Routing.{is_among, route_name, is_status, has_body}
use korvex.Routing.Names.{route_name-free}
use korvex.Routing.Register.{
  Func, Refusal, Registered, registered, refused, keys, is_name, is_free, made, Registry,
  check_name, names_with, add_route, limits_with, routed, planned, register, route,
}
use korvex.Routing.Register.{no_body}
use korvex.Routing.Register.{name_taken}
use korvex.Routing.Register.{bad_name}
use korvex.Routing.Register.{bad_status}

guard-inv :
    {A : Type 0} (b : Bool) (why : Refusal) (x : Registered A) (r : A)
    → (if b then refused why else x) ≡ registered r
    → (b ≡ false) × (x ≡ registered r)
guard-inv true why x r h = cc
guard-inv false why x r h = (refl, h)

true_of_not : (b : Bool) → not b ≡ false → b ≡ true
true_of_not true h = refl
true_of_not false h = cc

find-absent : {A : Type 0} (k : Text) (d : Dict A) → is_among k (keys d) ≡ false → find k d ≡ none
unfolding find is_among
find-absent k [] h = refl
find-absent k ((j, v) ∷ d) h = ground (arith, eq_text_iff j k, eq_text_iff k j, find-absent k d)

same_registered : {A : Type 0} {a b : A} → registered a ≡ registered b → a ≡ b
same_registered h = cc

planned-inv {ℓ κ} :
    {A : Type ℓ} {B : Type κ} (o : Option A) (k : A → Registered B) (r : B)
    → planned o k ≡ registered r
    → (a : A) × (o ≡ some a) × (k a ≡ registered r)
planned-inv none k r h = cc
planned-inv (some plan) k r h = (plan, refl, h)

routed-inv {ℓ κ} :
    {A : Type ℓ} {B : Type κ} (o : Option A) (k : A → Registered B) (r : B)
    → routed o k ≡ registered r
    → (a : A) × (k a ≡ registered r)
routed-inv none k r h = cc
routed-inv (some router) k r h = (router, h)

module _ (core : Core) {P : Type 0} (plan_of : Func → Text → Option P) (returns : P → Bool) where
  -- What a registration that succeeds gives.
  register-inv :
      (g : RouteGroup) (path method : Text) (name : Option Text) (status : ℕ) (max_body : Option ℕ)
      (func : Func) (r r' : Registry core P)
      → register core plan_of returns g path method name status max_body func r ≡ registered r'
      → (plan : P) × (router : Router core) × (plan_of func (full_path g path) ≡ some plan)
        × (check_name name (full_path g path) r ≡ true)
        × (add_route
              (route_name func.qualname (keys r.routes))
              (made func plan status name)
              name
              (full_path g path)
              (record r {
                router = router;
                body_limits = limits_with max_body method (full_path g path) r.body_limits;
              })
            ≡ r')
  unfolding register
  register-inv g path method name status max_body func r r' h =
      let (plan, planned, h1) = planned-inv (plan_of func (full_path g path)) _ r' h in
      let (body, h2) = guard-inv (returns plan && not (has_body status)) no_body _ r' h1 in
      let (free, h3) = guard-inv (not (check_name name (full_path g path) r)) name_taken _ r' h2 in
      let (router, h4) =
        routed-inv
          (Group.route core path (route_name func.qualname (keys r.routes)) method [] g r.router)
          (λ router. registered (
            add_route (route_name func.qualname (keys r.routes)) (made func plan status name) name
              (full_path g path)
              (record r {
                router = router;
                body_limits = limits_with max_body method (full_path g path) r.body_limits;
              })))
          r' h3 in
      (
        plan,
        router,
        planned,
        true_of_not (check_name name (full_path g path) r) free,
        same_registered h4,
      )

-- `check_name`, on the names.
abbrev name_free : Option Text → Text → Dict Text → Bool
name_free none path names = true
name_free (some m) path names = is_free path (find m names)

check-free :
    {core : Core} {P : Type 0} (name : Option Text) (path : Text) (r : Registry core P)
    → check_name name path r ≡ true
    → name_free name path r.explicit_names ≡ true
unfolding check_name
check-free none path r h = refl
check-free (some m) path r h = h

is_free-same : (path where_ : Text) → eq_text where_ path ≡ true → path ≡ where_
is_free-same path where_ h = sym (eq_text_sound where_ path h)

-- name == n, for a name that may not be given.
abbrev pub is_called : Option Text → Text → Bool
is_called none n = false
is_called (some m) n = eq_text m n

find-names_with :
    (name : Option Text) (path n : Text) (names : Dict Text)
    → find n (names_with name path names) ≡ (if is_called name n then some path else find n names)
find-names_with none path n names = refl
find-names_with (some m) path n names = find-put m n path names

-- What is free is new, or at its path already.
is_free-cases :
    (path : Text) (taken : Option Text)
    → is_free path taken ≡ true
    → (taken ≡ none) ⊎ (some path ≡ taken)
is_free-cases path none h = inl refl
is_free-cases path (some where_) h = inr (ap some (is_free-same path where_ h))

-- An explicit name is new, or keeps its path.
names-stay :
    (name : Option Text) (path n : Text) (names : Dict Text)
    → name_free name path names ≡ true
    → (find n names ≡ none) ⊎ (find n (names_with name path names) ≡ find n names)
names-stay none path n names free = inr refl
names-stay (some m) path n names free = elim (Bool-cases (eq_text m n)) [
  | inl same ↦
      rw (find-put m n path names, same)
        (subst (λ k. (find k names ≡ none) ⊎ (some path ≡ find k names)) (eq_text_sound m n same)
          (is_free-cases path (find m names) free))
  | inr other ↦ inr (rw (find-put m n path names, other) refl)
]

module _ (core : Core) {P : Type 0} (plan_of : Func → Text → Option P) (returns : P → Bool) where
  -- A registration that succeeds puts the route, with its plan, under a key that no route had, and
  -- changes what is under no other key; it gives its explicit name, if it has one, its path, and leaves
  -- every other name as it was, so that a name that was taken before keeps its path in any case.
  pub route-keeps :
      (g : RouteGroup) (path method : Text) (name : Option Text) (status : ℕ) (max_body : Option ℕ)
      (func : Func) (r r' : Registry core P) (key n : Text)
      → route core plan_of returns g path method name status max_body func r ≡ registered r'
      → (plan : P) × (plan_of func (full_path g path) ≡ some plan)
        × (find (route_name func.qualname (keys r.routes)) r.routes ≡ none)
        × (find key r'.routes ≡ (
            if eq_text (route_name func.qualname (keys r.routes)) key
            then some (made func plan status name)
            else find key r.routes))
        × (find n r'.explicit_names
            ≡ (if is_called name n then some (full_path g path) else find n r.explicit_names))
        × ((find n r.explicit_names ≡ none) ⊎ (find n r'.explicit_names ≡ find n r.explicit_names))
  unfolding route add_route
  route-keeps g path method name status max_body func r r' key n h =
      let (good, h1) = guard-inv (not (is_name name)) bad_name _ r' h in
      let (fine, h2) = guard-inv (not (is_status status)) bad_status _ r' h1 in
      let (plan, router, planned, free, eq) =
        register-inv core plan_of returns g path method name status max_body func r r' h2 in
      let new = route_name func.qualname (keys r.routes) in
      let names = r.explicit_names in
      (
        plan,
        planned,
        find-absent new r.routes (route_name-free func.qualname (keys r.routes)),
        subst
            (λ x.
              find key x.routes
              ≡ (if eq_text new key then some (made func plan status name) else find key r.routes))
            eq (find-put new key (made func plan status name) r.routes),
        subst
            (λ x.
              find n x.explicit_names
              ≡ (if is_called name n then some (full_path g path) else find n names))
            eq (find-names_with name (full_path g path) n names),
        subst (λ x. (find n names ≡ none) ⊎ (find n x.explicit_names ≡ find n names)) eq
            (names-stay name (full_path g path) n names
              (check-free name (full_path g path) r free)),
      )
