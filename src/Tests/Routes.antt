-- ===== src/Tests/Routes.antt =====
-- Routers, host patterns and registered routes.
use korvex.Prelude.{
  ℕ, ◌≤◌, Bool, true, false, List, [], ◌∷◌, ◌++◌, map, Option, none, some, ◌≡◌, ◌↔◌, refl,
}
use korvex.Prelude.Dict.{Dict, find}
use korvex.Prelude.Lists.{length}
use korvex.Prelude.Tests.{if◌then◌else◌}
use korvex.Prelude.Text.{Text, codes, eq_text, strip, lstrip}
use korvex.Router.{Core, Found, found, missing, Router, match, cache_size}
use korvex.Router.Cache.{Call, matching, routing, ConstraintsAreNew, match-run}
use korvex.Router.Group.{RouteGroup, make_group, full_path, group, is_slash, full_path-group}
use korvex.Hosts
use korvex.Hosts.{Host, param, literal, host_for, has_params}
use korvex.Hosts.Match.{Fits, match_iff}
use korvex.Routing.{Docs, route_name}
use korvex.Routing.Register.{Func, Registry, keys, made, route}
use korvex.Routing.Kept.{route-keeps, is_called}
use korvex.Prelude.Dict.{put}
use korvex.Router.Group.{prefixed}
use korvex.Router.Group.{make_group-IsPrefix}
use korvex.Prelude.{◌⊎◌}

-- A base class that answers the last path that was routed, whatever the method.
abbrev last_path : Core
last_path = record {
  Table = Option (Text × Text);
  route = λ path handler method middleware table. some (some (path, handler));
  remove = λ path method table. some (true, none);
  constraint = λ name pattern table. some table;
  match = λ path method table. elim table [
    | none ↦ missing
    | some entry ↦ if eq_text entry.0 path then found entry.1 [] [] else missing
  ];
}

last_path-law : ConstraintsAreNew last_path
last_path-law name pattern path method table table' h = cc

abbrev empty : Router last_path
empty = record { table = none; cache = []; version = 0 }

abbrev calls : List Call
calls = matching (codes "/a") (codes "GET") ∷ routing (codes "/a") (codes "a") (codes "GET") [] ∷ []

match-run_example :
    ((match last_path (codes "/a") (codes "GET") (korvex.Router.Cache.run last_path calls empty)).0
      ≡ last_path.match
          (codes "/a")
          (codes "GET")
          (korvex.Router.Cache.run last_path calls empty).table)
    × (length (korvex.Router.Cache.run last_path calls empty).cache ≤ cache_size)
match-run_example = match-run last_path last_path-law calls empty (codes "/a") (codes "GET") refl

abbrev tenants : Host
tenants = record {
  pattern = codes "{t}.a.b";
  labels = param (codes "t") ∷ literal (codes "a") ∷ literal (codes "b") ∷ [];
}

abbrev acme : List Text
acme = codes "acme" ∷ codes "a" ∷ codes "b" ∷ []

match_iff_example :
    ((ps : Dict Text) × (Hosts.match tenants acme ≡ some ps)) ↔ Fits tenants.labels acme
match_iff_example = match_iff tenants acme

abbrev patterns : List Text
patterns = codes "{t}.a.b" ∷ codes "acme.a.b" ∷ []

abbrev api : RouteGroup
api = make_group (codes "api/") []

full_path-group_example :
    full_path (group api (codes "/v1/") []) (codes "users")
    ≡ api.prefix
      ++ prefixed (strip is_slash (codes "/v1/"))
      ++ b'/' ∷ lstrip is_slash (codes "users")
full_path-group_example =
    full_path-group api (codes "/v1/") [] (codes "users") (make_group-IsPrefix (codes "api/") [])

abbrev taken : List Text
taken = codes "m.f" ∷ codes "m.f#2" ∷ []

abbrev docs : Text → Docs ℕ
docs tag = record {
  tags = tag ∷ [];
  deprecated = false;
  responses = (codes "404", 1) ∷ [];
  include = true;
}

abbrev func : Func
func = record { qualname = codes "m.f"; short = codes "f" }

abbrev registry : Registry last_path ℕ
registry = record {
  routes = (codes "m.f", made func 1 200 (some (codes "home"))) ∷ [];
  explicit_names = (codes "home", codes "/a") ∷ [];
  router = empty;
  body_limits = [];
}

abbrev plans : Func → Text → Option ℕ
plans f path = some 7

abbrev after_route : Registry last_path ℕ
after_route = record {
  routes =
      (codes "m.f", made func 1 200 (some (codes "home")))
      ∷ (codes "m.f#2", made func 7 200 none)
      ∷ [];
  explicit_names = (codes "home", codes "/a") ∷ [];
  router = record { table = some (codes "/api/b", codes "m.f#2"); cache = []; version = 1 };
  body_limits = [];
}

route-keeps_example :
    (plan : ℕ) × (plans func (full_path api (codes "b")) ≡ some plan)
    × (find (route_name func.qualname (keys registry.routes)) registry.routes ≡ none)
    × (find (codes "m.f") after_route.routes ≡ (
        if eq_text (route_name func.qualname (keys registry.routes)) (codes "m.f")
        then some (made func plan 200 none)
        else find (codes "m.f") registry.routes))
    × (find (codes "home") after_route.explicit_names ≡ (
        if is_called none (codes "home")
        then some (full_path api (codes "b"))
        else find (codes "home") registry.explicit_names))
    × ((find (codes "home") registry.explicit_names ≡ none)
        ⊎ (find (codes "home") after_route.explicit_names
            ≡ find (codes "home") registry.explicit_names))
unfolding route find eq_text put make_group korvex.Prelude.Decimal.show strip
route-keeps_example =
    route-keeps last_path plans (λ p. false) api (codes "b") (codes "GET") none 200 none func
      registry after_route (codes "m.f") (codes "home") refl
