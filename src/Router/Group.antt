-- ===== src/Router/Group.antt =====
-- korvex/router.py: `RouteGroup`, which registers routes under a shared prefix and middleware. The
-- shortcuts `get`, `post`... of `_Shortcuts` are `route` with their method.
use korvex.Prelude.{
  ℕ, ◌≤◌, Bool, true, false, ◌&&◌, List, [], ◌∷◌, ◌++◌, Option, ◌≡◌, refl, sym, ap, ◌∙◌, inl, inr,
  arith,
}
use mathlib.Core.List.{append-nil}
use korvex.Prelude.Lists.{length}
use korvex.Prelude.Tests.{◌==◌, if◌then◌else◌, Bool-cases}
use korvex.Prelude.Text.{Text, strip, lstrip, rstrip, is_empty}
use korvex.Router
use korvex.Router.{Core, Router}

-- c == "/"
abbrev pub is_slash : ℕ → Bool
is_slash c = c == b'/'

pub record RouteGroup : Type 0 where
  pub prefix : Text
  pub middleware : List Text

abbrev pub prefixed : Text → Text
prefixed [] = []
prefixed (c ∷ s) = b'/' ∷ c ∷ s

-- RouteGroup(router, prefix, middleware=middleware)
unfoldable pub make_group : Text → List Text → RouteGroup
make_group prefix middleware = record {
  prefix = prefixed (strip is_slash prefix);
  middleware = middleware;
}

unfoldable pub full_path : RouteGroup → Text → Text
full_path g path = g.prefix ++ b'/' ∷ lstrip is_slash path

-- A nested group.
unfoldable pub group : RouteGroup → Text → List Text → RouteGroup
unfolding make_group
group g prefix middleware =
    make_group (g.prefix ++ b'/' ∷ strip is_slash prefix) (g.middleware ++ middleware)

module _ (core : Core) where
  -- `route` of a group, on its router: `none` for a ValueError.
  unfoldable pub route :
      Text → Text → Text → List Text → RouteGroup → Router core → Option (Router core)
  unfolding full_path Router.route
  route path handler method middleware g r =
      Router.route core (full_path g path) handler method (g.middleware ++ middleware) r

-- A prefix as `make_group` leaves it: empty, or one slash before a text that neither starts nor ends
-- with one.
abbrev pub IsPrefix : Text → Type 0
IsPrefix s = prefixed (strip is_slash s) ≡ s

lstrip-stays : (p : ℕ → Bool) (c : ℕ) (s : Text) → p c ≡ false → lstrip p (c ∷ s) ≡ c ∷ s
unfolding lstrip
lstrip-stays p c s stays = rw stays refl

rstrip-stays : (p : ℕ → Bool) (c : ℕ) (s : Text) → p c ≡ false → rstrip p (c ∷ s) ≡ c ∷ rstrip p s
unfolding rstrip
rstrip-stays p c s stays = rw stays refl

lstrip-rstrip : (p : ℕ → Bool) (s : Text) → lstrip p (rstrip p (lstrip p s)) ≡ rstrip p (lstrip p s)
unfolding lstrip rstrip
lstrip-rstrip p [] = refl
lstrip-rstrip p (c ∷ s) = elim (Bool-cases (p c)) [
  | inl strips ↦ rw strips (lstrip-rstrip p s)
  | inr stays ↦
      rw (lstrip-stays p c s stays, rstrip-stays p c s stays, lstrip-stays p c (rstrip p s) stays)
        refl
]

rstrip-rstrip : (p : ℕ → Bool) (s : Text) → rstrip p (rstrip p s) ≡ rstrip p s
unfolding rstrip
rstrip-rstrip p [] = refl
rstrip-rstrip p (c ∷ s) = elim (Bool-cases (p c && is_empty (rstrip p s))) [
  | inl strips ↦ rw strips refl
  | inr stays ↦ rw (stays, rstrip-rstrip p s, stays) refl
]

strip-strip : (p : ℕ → Bool) (s : Text) → strip p (strip p s) ≡ strip p s
unfolding strip
strip-strip p s = ap (rstrip p) (lstrip-rstrip p s) ∙ rstrip-rstrip p (lstrip p s)

strip-prefixed : (s : Text) → strip is_slash s ≡ s → strip is_slash (prefixed s) ≡ s
unfolding strip lstrip
strip-prefixed [] h = h
strip-prefixed (c ∷ s) h = h

-- Every group, nested or not, has such a prefix, however its own was written.
pub make_group-IsPrefix :
    (prefix : Text) (middleware : List Text) → IsPrefix (make_group prefix middleware).prefix
unfolding make_group
make_group-IsPrefix prefix middleware =
    ap prefixed (strip-prefixed (strip is_slash prefix) (strip-strip is_slash prefix))

length-lstrip : (p : ℕ → Bool) (s : Text) → length (lstrip p s) ≤ length s
unfolding lstrip
length-lstrip p [] = omega arith
length-lstrip p (c ∷ s) = elim (Bool-cases (p c)) [
  | inl strips ↦ rw strips (omega (arith, length-lstrip p s))
  | inr stays ↦ rw stays (omega arith)
]

length-rstrip : (p : ℕ → Bool) (s : Text) → length (rstrip p s) ≤ length s
unfolding rstrip
length-rstrip p [] = omega arith
length-rstrip p (c ∷ s) = elim (Bool-cases (p c && is_empty (rstrip p s))) [
  | inl strips ↦ rw strips (omega arith)
  | inr stays ↦ rw stays (omega (arith, length-rstrip p s))
]

strip-slash :
    (c : ℕ) (s : Text)
    → is_slash c ≡ true
    → strip is_slash (c ∷ s) ≡ rstrip is_slash (lstrip is_slash s)
unfolding strip lstrip
strip-slash c s slash = rw slash refl

-- A text that is stripped does not start with a slash.
no_slash : (c : ℕ) (s : Text) → strip is_slash (c ∷ s) ≡ c ∷ s → is_slash c ≡ false
no_slash c s h = elim (Bool-cases (is_slash c)) [
  | inl slash ↦ ground (
    arith,
    ap length (sym (strip-slash c s slash) ∙ h),
    length-rstrip is_slash (lstrip is_slash s),
    length-lstrip is_slash s,
  )
  | inr other ↦ other
]

rstrip-stripped : (s : Text) → strip is_slash s ≡ s → rstrip is_slash s ≡ s
unfolding strip
rstrip-stripped [] h = h
rstrip-stripped (c ∷ s) h =
    ap (rstrip is_slash) (sym (lstrip-stays is_slash c s (no_slash c s h))) ∙ h

rstrip-append_empty : (p : ℕ → Bool) (x y : Text) → rstrip p y ≡ [] → rstrip p (x ++ y) ≡ rstrip p x
unfolding rstrip
rstrip-append_empty p [] y h = h
rstrip-append_empty p (c ∷ x) y h = rw (rstrip-append_empty p x y h) refl

kept_end : (x : Text) (d : ℕ) (t : Text) (b : Bool) → (b && is_empty (x ++ d ∷ t)) ≡ false
kept_end [] d t true = refl
kept_end [] d t false = refl
kept_end (c ∷ x) d t true = refl
kept_end (c ∷ x) d t false = refl

rstrip-append_kept :
    (p : ℕ → Bool) (x y : Text) (d : ℕ) (t : Text)
    → rstrip p y ≡ d ∷ t
    → rstrip p (x ++ y) ≡ x ++ d ∷ t
unfolding rstrip
rstrip-append_kept p [] y d t h = h
rstrip-append_kept p (c ∷ x) y d t h =
    rw (rstrip-append_kept p x y d t h, kept_end x d t (p c)) refl

slash_before :
    (s : Text)
    → rstrip is_slash s ≡ s
    → rstrip is_slash (b'/' ∷ s) ≡ (if is_empty s then [] else b'/' ∷ s)
unfolding rstrip
slash_before s h = ap (λ r. if is_empty r then [] else b'/' ∷ r) h

slash_kept :
    (d : ℕ) (t : Text)
    → rstrip is_slash (d ∷ t) ≡ d ∷ t
    → rstrip is_slash (b'/' ∷ d ∷ t) ≡ b'/' ∷ d ∷ t
slash_kept d t h = slash_before (d ∷ t) h

rstrip-joined :
    (a b : Text)
    → rstrip is_slash a ≡ a
    → strip is_slash b ≡ b
    → rstrip is_slash (a ++ b'/' ∷ b) ≡ a ++ prefixed b
unfolding rstrip
rstrip-joined a [] ha hb = rstrip-append_empty is_slash a (b'/' ∷ []) refl ∙ ha ∙ sym (append-nil a)
rstrip-joined a (d ∷ t) ha hb =
    rstrip-append_kept is_slash a (b'/' ∷ d ∷ t) b'/' (d ∷ t)
      (slash_kept d t (rstrip-stripped (d ∷ t) hb))

strip-joined :
    (a b : Text)
    → strip is_slash a ≡ a
    → strip is_slash b ≡ b
    → prefixed (strip is_slash (prefixed a ++ b'/' ∷ b)) ≡ prefixed a ++ prefixed b
unfolding strip lstrip
strip-joined [] b ha hb = ap prefixed hb
strip-joined (c ∷ s) b ha hb =
    ap (λ x. prefixed (rstrip is_slash x))
      (lstrip-stays is_slash c (s ++ b'/' ∷ b) (no_slash c s ha))
    ∙ ap prefixed (rstrip-joined (c ∷ s) b (rstrip-stripped (c ∷ s) ha) hb)

-- A path under a nested group is under the outer group's prefix, then the nested group's without its
-- outer slashes, if that is not empty, and then the path without its leading slashes.
pub full_path-group :
    (g : RouteGroup) (prefix : Text) (middleware : List Text) (path : Text)
    → IsPrefix g.prefix
    → full_path (group g prefix middleware) path
      ≡ g.prefix ++ prefixed (strip is_slash prefix) ++ b'/' ∷ lstrip is_slash path
unfolding full_path group make_group
full_path-group g prefix middleware path h =
    let outer = strip is_slash g.prefix in
    let inner = strip is_slash prefix in
    let rest = b'/' ∷ lstrip is_slash path in
    ap (λ x. prefixed (strip is_slash (x ++ b'/' ∷ inner)) ++ rest) (sym h)
    ∙ ap (λ x. x ++ rest)
        (strip-joined outer inner (strip-strip is_slash g.prefix) (strip-strip is_slash prefix))
    ∙ ap (λ x. x ++ prefixed inner ++ rest) h
