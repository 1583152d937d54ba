-- ===== src/Router.antt =====
-- korvex/router.py: `Router`, the lookup cache over the matching of `korvex._core`.
-- The matching itself is written in Rust: it is the parameter `core`, whose operations are those of
-- korvex/_core.pyi. An operation that raises ValueError gives `none` and leaves the table as it was.
pub mod Cache
pub mod Group
pub mod Shortcuts
use korvex.Prelude.{ℕ, ◌+◌, ◌≡◌, Bool, true, false, ◌&&◌, List, [], ◌∷◌, Option, none, some}
use korvex.Prelude.Dict.{Dict}
use korvex.Prelude.Lists.{take}
use korvex.Prelude.Tests.{if◌then◌else◌}
use korvex.Prelude.Text.{Text, eq_text}
use korvex.Request.{Value}

-- The answer of `match`: a route with its captured values and middleware, None, or the exception
-- MethodNotAllowed with the methods of the path.
pub data Found : Type 0 where
  found : Text → Dict Value → List Text → Found
  missing : Found
  not_allowed : List Text → Found

pub record Core : Type 1 where
  pub Table : Type 0
  pub route : Text → Text → Text → List Text → Table → Option Table
  pub remove : Text → Text → Table → Option (Bool × Table)
  pub constraint : Text → Text → Table → Option Table
  pub match : Text → Text → Table → Found

abbrev pub cache_size : ℕ
cache_size = 1024

-- What one lookup was answered.
pub record Entry : Type 0 where
  pub path : Text
  pub method : Text
  pub answer : Found

-- functools.lru_cache: the entries, the last used first.
unfoldable pub is_for : Text → Text → Entry → Bool
is_for path method e = eq_text e.path path && eq_text e.method method

unfoldable pub cached : Text → Text → List Entry → Option Entry
cached path method [] = none
cached path method (e ∷ es) = if is_for path method e then some e else cached path method es

unfoldable pub without_entry : Text → Text → List Entry → List Entry
without_entry path method [] = []
without_entry path method (e ∷ es) =
    let rest = without_entry path method es in if is_for path method e then rest else e ∷ rest

-- An exception is not kept.
abbrev pub is_result : Found → Bool
is_result (not_allowed methods) = false
is_result _ = true

module _ (core : Core) where
  open core use {Table}

  pub record Router : Type 0 where
    pub table : Table
    pub cache : List Entry
    pub version : ℕ

  -- The base class's `match`, through the cache.
  unfoldable pub match : Text → Text → Router → Found × Router
  match path method r = elim (cached path method r.cache) [
    | some e ↦ (e.answer, record r { cache = e ∷ without_entry path method r.cache })
    | none ↦
        let answer = core.match path method r.table in
        if is_result answer
        then (
          answer,
          record r {
            cache =
                take cache_size
                  (record { path = path; method = method; answer = answer } ∷ r.cache);
          },
        )
        else (answer, r)
  ]

  -- Adding or removing a route clears the cache.
  unfoldable pub cleared : Table → Router → Router
  cleared table r = record { table = table; cache = []; version = r.version + 1 }

  unfoldable pub route : Text → Text → Text → List Text → Router → Option Router
  unfolding cleared
  route path handler method middleware r =
      elim (core.route path handler method middleware r.table) [
        | none ↦ none
        | some table ↦ some (cleared table r)
      ]

  unfoldable pub remove : Text → Text → Router → Option (Bool × Router)
  unfolding cleared
  remove path method r = elim (core.remove path method r.table) [
    | none ↦ none
    | some (removed, table) ↦ some (removed, cleared table r)
  ]

  -- Inherited from the base class: the cache stays.
  unfoldable pub constraint : Text → Text → Router → Option Router
  constraint name pattern r = elim (core.constraint name pattern r.table) [
    | none ↦ none
    | some table ↦ some (record r { table = table })
  ]
