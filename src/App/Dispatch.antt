-- ===== src/App/Dispatch.antt =====
-- korvex/_app.py: `_dispatch` up to the call of the handler, `_match` and `_host_params_for`.
-- A router is its `match`, from a path and a method to the answer; Router.antt shows that the cached
-- one is the base class's. What a route does once it is chosen (binding its parameters, resolving its
-- dependencies, calling its handler) is its `invoke`, from the request and the arguments.
use korvex.Prelude.{ℕ, ◌&&◌, List, [], ◌∷◌, Option, none, some}
use korvex.Prelude.Dict.{Dict, find, merge}
use korvex.Prelude.Lists.{any}
use korvex.Prelude.Tests.{if◌then◌else◌}
use korvex.Prelude.Text.{comma_join, Text, codes, eq_text}
use korvex.Errors.{Exn, other, exception, http_error}
use korvex.Request.{Request, Value, str_value}
use korvex.Response.{Response}
use korvex.Router.{Found, found, missing, not_allowed}
use korvex.Hosts
use korvex.Hosts.{Host, host_labels}
use korvex.App.{Outcome, returned, raised, Action}

abbrev pub Lookup : Type 0
Lookup = Text → Text → Found

-- MethodNotAllowed, where nothing catches it.
abbrev pub uncaught : Exn
uncaught = other (exception ∷ [])

abbrev pub Chosen : Type 0
Chosen = Outcome (Option (Text × Dict Value))

-- What the second `match`, of a HEAD request as GET, gives.
abbrev pub chosen : Found → Chosen
chosen (found handler params middleware) = returned (some (handler, params))
chosen missing = returned none
chosen (not_allowed allowed) = raised uncaught

unfoldable pub allowed_or_405 : (ℕ → Text) → Lookup → Text → Text → List Text → Chosen
unfolding comma_join
allowed_or_405 phrase lookup path method allowed =
    if eq_text method (codes "HEAD") && any (λ m. eq_text m (codes "GET")) allowed
    then chosen (lookup path (codes "GET"))
    else raised (http_error phrase 405 none ((codes "Allow", comma_join allowed) ∷ []))

abbrev chosen_or : Found → (List Text → Chosen) → Chosen
chosen_or (found handler params middleware) k = returned (some (handler, params))
chosen_or missing k = returned none
chosen_or (not_allowed allowed) k = k allowed

-- `_match`
unfoldable pub match_route : (ℕ → Text) → Lookup → Text → Text → Chosen
unfolding allowed_or_405
match_route phrase lookup path method =
    chosen_or (lookup path method) (allowed_or_405 phrase lookup path method)

-- A route's function takes the host parameters that it names, none for all of them.
unfoldable pub host_params_for : Option (List Text) → Dict Value → Dict Value
host_params_for none params = params
host_params_for (some taken) [] = []
host_params_for (some taken) ((k, v) ∷ params) =
    let rest = host_params_for (some taken) params in
    if any (eq_text k) taken then (k, v) ∷ rest else rest

abbrev pub as_values : Dict Text → Dict Value
as_values [] = []
as_values ((k, s) ∷ params) = (k, str_value s) ∷ as_values params

module _ (W : Type 0) where
  -- `host_args`, and the rest of the request's way.
  pub record Route : Type 0 where
    pub host_args : Option (List Text)
    pub invoke : Request → Dict Value → Dict Value → Action W (Option Response)

  pub record Routing : Type 0 where
    pub hosts : List Host
    pub host_lookup : Host → Lookup
    pub lookup : Lookup
    pub routes : Dict Route

-- The route's name, its path parameters, and the host's where the route is the host's own.
pub record Selected : Type 0 where
  pub handler : Text
  pub path_params : Dict Value
  pub host_params : Dict Value

abbrev pub selected : Dict Text → Option (Text × Dict Value) → Option Selected
selected params none = none
selected params (some (handler, path_params)) =
    some (record { handler = handler; path_params = path_params; host_params = as_values params })

abbrev pub select_then : Dict Text → Chosen → Outcome (Option Selected) → Outcome (Option Selected)
select_then params (raised exn) next = raised exn
select_then params (returned none) next = next
select_then params (returned (some c)) next = returned (selected params (some c))

-- {**params, **path_params}, where there are host parameters.
abbrev pub with_host : Dict Value → Dict Value → Dict Value → Dict Value
with_host [] params path_params = path_params
with_host (p ∷ host_params) params path_params = merge params path_params

module _ {W : Type 0} (phrase : ℕ → Text) (app : Routing W) where
  -- The app's own routes.
  unfoldable pub select_main : Text → Text → Outcome (Option Selected)
  select_main path method =
      select_then [] (match_route phrase app.lookup path method) (returned none)

  -- The routes of the host that owns the request, and then the app's own.
  unfoldable pub select : Request → Outcome (Option Selected)
  unfolding select_main
  select request = elim (Hosts.host_for app.hosts (host_labels request)) [
    | none ↦ select_main request.path request.method
    | some owner ↦
        select_then owner.1
          (match_route phrase (app.host_lookup owner.0) request.path request.method)
          (select_main request.path request.method)
  ]

  -- What dependencies read, and what the handler is called with.
  unfoldable pub call_route : Request → Selected → Option (Route W) → Action W (Option Response)
  unfolding host_params_for
  call_route request choice none s = (raised uncaught, s)
  call_route request choice (some route) s =
      let values = with_host choice.host_params choice.host_params choice.path_params in
      let arguments =
        with_host choice.host_params (host_params_for route.host_args choice.host_params)
          choice.path_params in
      route.invoke (record request { path_params = values }) values arguments s

  abbrev dispatched : Request → Outcome (Option Selected) → Action W (Option Response)
  dispatched request (raised exn) s = (raised exn, s)
  dispatched request (returned none) s = (raised (http_error phrase 404 none []), s)
  dispatched request (returned (some choice)) s =
      call_route request choice (find choice.handler app.routes) s

  -- `_dispatch`
  unfoldable pub dispatch : Request → Action W (Option Response)
  unfolding select call_route
  dispatch request s = dispatched request (select request) s
