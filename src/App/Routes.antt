-- ===== src/App/Routes.antt =====
-- Which routes answer a request, and the parameters that they are given.
use korvex.Prelude.{ℕ, ◌&&◌, List, [], ◌∷◌, none, some, ◌≡◌, refl, arith}
use korvex.Prelude.Dict.{Dict, find, first_some, IsUnique, find-merge}
use korvex.Prelude.Lists.{any}
use korvex.Prelude.Tests.{if◌then◌else◌}
use korvex.Prelude.Text.{Text, codes, comma_join, eq_text, eq_text_iff}
use korvex.Errors.{http_error}
use korvex.Request.{Request, Value}
use korvex.Router.{missing, not_allowed}
use korvex.Hosts.{Host, host_for, host_labels}
use korvex.App.{raised, State}
use korvex.App.Dispatch.{
  Lookup, chosen, match_route, host_params_for, Routing, select_main, select, with_host, dispatch,
}

-- Where GET has a route for the path and HEAD has none of its own, a HEAD request is given the GET
-- route with its parameters; any other method without a route is refused with a 405 whose Allow
-- lists the methods of the path.
pub match_route-not_allowed :
    (phrase : ℕ → Text) (lookup : Lookup) (path method : Text) (allowed : List Text)
    → lookup path method ≡ not_allowed allowed
    → match_route phrase lookup path method ≡ (
        if eq_text method (codes "HEAD") && any (λ m. eq_text m (codes "GET")) allowed
        then chosen (lookup path (codes "GET"))
        else raised (http_error phrase 405 none ((codes "Allow", comma_join allowed) ∷ [])))
unfolding match_route
match_route-not_allowed phrase lookup path method allowed e = rw (e, match_route) refl

module _ {W : Type 0} (phrase : ℕ → Text) (app : Routing W) where
  -- A request that a host pattern owns is routed by that host's routes and the app's own alone: the
  -- routes of the other host patterns, whatever they are, change neither its response nor the state.
  pub dispatch-owner :
      (request : Request) (owner : Host) (params : Dict Text) (host_lookup : Host → Lookup)
      (s : State W)
      → host_for app.hosts (host_labels request) ≡ some (owner, params)
      → host_lookup owner ≡ app.host_lookup owner
      → dispatch phrase (record app { host_lookup = host_lookup }) request s
        ≡ dispatch phrase app request s
  unfolding dispatch select
  dispatch-owner request owner params host_lookup s owns same =
      rw (owns, dispatch, select) (rw same refl)

  -- A request without an owner is routed by the app's own routes alone.
  select_of_no_owner :
      (request : Request)
      → host_for app.hosts (host_labels request) ≡ none
      → select phrase app request ≡ select_main phrase app request.path request.method
  unfolding select
  select_of_no_owner request e = rw (e, select) refl

  -- Where neither the owner's routes nor the app's own have the path, the answer is a 404.
  pub dispatch-404 :
      (request : Request) (owner : Host) (params : Dict Text) (s : State W)
      → host_for app.hosts (host_labels request) ≡ some (owner, params)
      → app.host_lookup owner request.path request.method ≡ missing
      → app.lookup request.path request.method ≡ missing
      → dispatch phrase app request s ≡ (raised (http_error phrase 404 none []), s)
  unfolding dispatch select select_main match_route
  dispatch-404 request owner params s owns no_host no_main =
      rw (owns, dispatch, select) (rw (no_host, match_route) (rw (no_main, match_route) refl))

-- A dependency or handler reads a name from the path's parameters first, and from the host's where
-- the path has none of that name.
pub find-with_host :
    (name : Text) (host_params params path_params : Dict Value)
    → IsUnique path_params
    → find name (with_host host_params params path_params) ≡ (elim host_params [
      | [] ↦ find name path_params
      | p ∷ ps ↦ first_some (find name path_params) (find name params)
    ])
find-with_host name [] params path_params u = refl
find-with_host name (p ∷ host_params) params path_params u = find-merge name params path_params u

find-host_params_for :
    (name : Text) (taken : List Text) (params : Dict Value)
    → find name (host_params_for (some taken) params)
      ≡ (if any (eq_text name) taken then find name params else none)
unfolding find host_params_for
find-host_params_for name taken [] = ground arith
find-host_params_for name taken ((k, v) ∷ params) =
    ground (arith, find-host_params_for name taken params, eq_text_iff k name)
