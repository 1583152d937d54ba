-- ===== src/Router/Shortcuts.antt =====
-- korvex/router.py: `_Shortcuts`, the methods `get`, `post`... of routers and groups, which are `route`
-- with their method; here on the route of a group.
use korvex.Prelude.{List, Option}
use korvex.Prelude.Text.{Text, codes}
use korvex.Router.{Core, Router}
use korvex.Router.Group.{RouteGroup, route}

module _ (core : Core) where
  unfoldable pub get : Text → Text → List Text → RouteGroup → Router core → Option (Router core)
  unfolding route
  get path handler middleware g r = route core path handler (codes "GET") middleware g r

  unfoldable pub post : Text → Text → List Text → RouteGroup → Router core → Option (Router core)
  unfolding route
  post path handler middleware g r = route core path handler (codes "POST") middleware g r

  unfoldable pub put : Text → Text → List Text → RouteGroup → Router core → Option (Router core)
  unfolding route
  put path handler middleware g r = route core path handler (codes "PUT") middleware g r

  unfoldable pub patch : Text → Text → List Text → RouteGroup → Router core → Option (Router core)
  unfolding route
  patch path handler middleware g r = route core path handler (codes "PATCH") middleware g r

  unfoldable pub delete : Text → Text → List Text → RouteGroup → Router core → Option (Router core)
  unfolding route
  delete path handler middleware g r = route core path handler (codes "DELETE") middleware g r

  unfoldable pub head : Text → Text → List Text → RouteGroup → Router core → Option (Router core)
  unfolding route
  head path handler middleware g r = route core path handler (codes "HEAD") middleware g r

  unfoldable pub options : Text → Text → List Text → RouteGroup → Router core → Option (Router core)
  unfolding route
  options path handler middleware g r = route core path handler (codes "OPTIONS") middleware g r
