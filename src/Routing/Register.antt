-- ===== src/Routing/Register.antt =====
-- korvex/_routing.py and korvex/_app.py: how a route is registered, `Group.route` with
-- `App._check_name` and `App._add_route`, for the routes of the app itself (not of a host). What
-- `plan_for` makes of a function's annotations is the parameter `plan_of`, `none` where it raises;
-- of a plan, `returns` says whether it has a return model. `Docs` are merged by the caller.
use korvex.Prelude.{ℕ, Bool, true, false, not, ◌&&◌, List, [], ◌∷◌, ◌++◌, map, Option, none, some}
use korvex.Prelude.Dict.{Dict, find, put}
use korvex.Prelude.Lists.{is_some}
use korvex.Prelude.Tests.{if◌then◌else◌}
use korvex.Prelude.Text.{Text, eq_text}
use korvex.Router.{Core, Router}
use korvex.Router.Group
use korvex.Router.Group.{RouteGroup, full_path}
use korvex.Routing.{is_status, has_body, route_name}

-- A function, by its module and qualified name and by its `__name__`.
pub record Func : Type 0 where
  pub qualname : Text
  pub short : Text

-- `_Route`
pub record Route (P : Type 0) : Type 0 where
  pub func : Func
  pub plan : P
  pub status : ℕ
  pub name : Option Text
  pub explicit : Bool

-- The ValueError and TypeError of `route`, and what the plan or the router raises.
pub data Refusal : Type 0 where
  bad_name : Refusal
  bad_status : Refusal
  bad_plan : Refusal
  no_body : Refusal
  name_taken : Refusal
  bad_path : Refusal

pub data Registered {ℓ} (A : Type ℓ) : Type ℓ where
  registered : A → Registered A
  refused : Refusal → Registered A

abbrev pub keys {ℓ} : {A : Type ℓ} → Dict A → List Text
keys d = map (λ e. e.0) d

-- Not given, or not empty.
abbrev pub is_name : Option Text → Bool
is_name (some []) = false
is_name _ = true

-- The name that `url_for` knows a route by.
abbrev pub known_as : Option Text → Func → Text
known_as none f = f.short
known_as (some name) f = name

abbrev pub is_free : Text → Option Text → Bool
is_free path none = true
is_free path (some taken) = eq_text taken path

abbrev pub made : {P : Type 0} → Func → P → ℕ → Option Text → Route P
made func plan status name = record {
  func = func;
  plan = plan;
  status = status;
  name = some (known_as name func);
  explicit = is_some name;
}

abbrev pub names_with : Option Text → Text → Dict Text → Dict Text
names_with none path names = names
names_with (some name) path names = put name path names

abbrev pub limits_with : Option ℕ → Text → Text → List (Text × Text × ℕ) → List (Text × Text × ℕ)
limits_with none method path limits = limits
limits_with (some max_body) method path limits = limits ++ (method, path, max_body) ∷ []

pub record Registry (core : Core) (P : Type 0) : Type 0 where
  pub routes : Dict (Route P)
  pub explicit_names : Dict Text
  pub router : Router core
  pub body_limits : List (Text × Text × ℕ)

module _ {core : Core} {P : Type 0} where
  -- `_check_name`: no name, or one that is not taken by another path.
  unfoldable pub check_name : Option Text → Text → Registry core P → Bool
  check_name none path r = true
  check_name (some name) path r = is_free path (find name r.explicit_names)

  -- `_add_route`
  unfoldable pub add_route : Text → Route P → Option Text → Text → Registry core P → Registry core P
  add_route key route name path r = record r {
    routes = put key route r.routes;
    explicit_names = names_with name path r.explicit_names;
  }

abbrev pub routed {ℓ κ} : {A : Type ℓ} {B : Type κ} → Option A → (A → Registered B) → Registered B
routed none k = refused bad_path
routed (some router) k = k router

abbrev pub planned {ℓ κ} : {A : Type ℓ} {B : Type κ} → Option A → (A → Registered B) → Registered B
planned none k = refused bad_plan
planned (some plan) k = k plan

module _ (core : Core) {P : Type 0} (plan_of : Func → Text → Option P) (returns : P → Bool) where
  -- `register`, the decorator that `route` returns, once the name and the status were checked.
  unfoldable pub register :
      RouteGroup
      → Text
      → Text
      → Option Text
      → ℕ
      → Option ℕ
      → Func
      → Registry core P
      → Registered (Registry core P)
  unfolding check_name add_route full_path Group.route has_body route_name
  register g path method name status max_body func r =
      let key = route_name func.qualname (keys r.routes) in
      let full = full_path g path in
      planned (plan_of func full) (λ plan.
        if returns plan && not (has_body status)
        then refused no_body
        else if not (check_name name full r)
        then refused name_taken
        else routed (Group.route core path key method [] g r.router) (λ router. registered (
            add_route key (made func plan status name) name full (record r {
              router = router;
              body_limits = limits_with max_body method full r.body_limits;
            }))))

  -- `Group.route`
  unfoldable pub route :
      RouteGroup
      → Text
      → Text
      → Option Text
      → ℕ
      → Option ℕ
      → Func
      → Registry core P
      → Registered (Registry core P)
  unfolding register is_status
  route g path method name status max_body func r =
      if not (is_name name)
      then refused bad_name
      else if not (is_status status)
      then refused bad_status
      else register g path method name status max_body func r
