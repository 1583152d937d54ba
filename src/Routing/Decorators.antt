-- ===== src/Routing/Decorators.antt =====
-- korvex/_routing.py: the decorators `get`, `post`... of `_RouteDecorators`,
-- which are `route` with their method. Their OpenAPI options are left out.
use korvex.Prelude.{ℕ, Bool, Option}
use korvex.Prelude.Text.{Text, codes}
use korvex.Router.{Core}
use korvex.Router.Group.{RouteGroup}
use korvex.Routing.Register.{Func, Registry, Registered, route}

module _ (core : Core) {P : Type 0} (plan_of : Func → Text → Option P) (returns : P → Bool) where
  -- @get(path)
  unfoldable pub get :
      RouteGroup
      → Text
      → Option Text
      → ℕ
      → Option ℕ
      → Func
      → Registry core P
      → Registered (Registry core P)
  unfolding route
  get g path name status max_body func r =
      route core plan_of returns g path (codes "GET") name status max_body func r

  -- @post(path)
  unfoldable pub post :
      RouteGroup
      → Text
      → Option Text
      → ℕ
      → Option ℕ
      → Func
      → Registry core P
      → Registered (Registry core P)
  unfolding route
  post g path name status max_body func r =
      route core plan_of returns g path (codes "POST") name status max_body func r

  -- @put(path)
  unfoldable pub put :
      RouteGroup
      → Text
      → Option Text
      → ℕ
      → Option ℕ
      → Func
      → Registry core P
      → Registered (Registry core P)
  unfolding route
  put g path name status max_body func r =
      route core plan_of returns g path (codes "PUT") name status max_body func r

  -- @patch(path)
  unfoldable pub patch :
      RouteGroup
      → Text
      → Option Text
      → ℕ
      → Option ℕ
      → Func
      → Registry core P
      → Registered (Registry core P)
  unfolding route
  patch g path name status max_body func r =
      route core plan_of returns g path (codes "PATCH") name status max_body func r

  -- @delete(path)
  unfoldable pub delete :
      RouteGroup
      → Text
      → Option Text
      → ℕ
      → Option ℕ
      → Func
      → Registry core P
      → Registered (Registry core P)
  unfolding route
  delete g path name status max_body func r =
      route core plan_of returns g path (codes "DELETE") name status max_body func r

  -- @head(path)
  unfoldable pub head :
      RouteGroup
      → Text
      → Option Text
      → ℕ
      → Option ℕ
      → Func
      → Registry core P
      → Registered (Registry core P)
  unfolding route
  head g path name status max_body func r =
      route core plan_of returns g path (codes "HEAD") name status max_body func r

  -- @options(path)
  unfoldable pub options :
      RouteGroup
      → Text
      → Option Text
      → ℕ
      → Option ℕ
      → Func
      → Registry core P
      → Registered (Registry core P)
  unfolding route
  options g path name status max_body func r =
      route core plan_of returns g path (codes "OPTIONS") name status max_body func r
