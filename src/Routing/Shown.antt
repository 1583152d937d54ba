-- ===== src/Routing/Shown.antt =====
-- What a route shows of its groups.
use korvex.Prelude.{
  Bool, true, false, not, ◌&&◌, ◌||◌, List, [], ◌∷◌, ◌++◌, ◌≡◌, Option, none, some, refl, sym, ap,
  ◌∙◌, inl, inr, arith,
}
use mathlib.Core.List.{append_assoc}
use korvex.Prelude.Dict.{find, merge, first_some, IsUnique, find-merge}
use korvex.Prelude.Lists.{keep_if}
use korvex.Prelude.Tests.{if◌then◌else◌, Bool-cases}
use korvex.Prelude.Text.{Text, eq_text_iff}
use korvex.Routing.{is_among, docs_tags, Docs, merge_docs}

is_among-append :
    (t : Text) (xs ys : List Text) → is_among t (xs ++ ys) ≡ is_among t xs || is_among t ys
unfolding is_among
is_among-append t [] ys = refl
is_among-append t (x ∷ xs) ys = ground (arith, is_among-append t xs ys)

keep_if-append {ℓ} :
    {A : Type ℓ} (p : A → Bool) (xs ys : List A)
    → keep_if p (xs ++ ys) ≡ keep_if p xs ++ keep_if p ys
keep_if-append p [] ys = refl
keep_if-append p (x ∷ xs) ys = elim (Bool-cases (p x)) [
  | inl in_ ↦ rw (in_, keep_if-append p xs ys) refl
  | inr out ↦ rw (out, keep_if-append p xs ys) refl
]

is_among-keep_if :
    (t : Text) (p : Text → Bool) (xs : List Text)
    → is_among t (keep_if p xs) ≡ (is_among t xs && p t)
unfolding is_among
is_among-keep_if t p [] = refl
is_among-keep_if t p (x ∷ xs) = ground (arith, eq_text_iff t x, is_among-keep_if t p xs)

or_true : (a : Bool) → (a || true) ≡ true
or_true true = refl
or_true false = refl

or_false : (a : Bool) → (a || false) ≡ a
or_false true = refl
or_false false = refl

either : (a b : Bool) → (a || (b && not a)) ≡ (a || b)
either true b = refl
either false true = refl
either false false = refl

is_among-docs_tags :
    (t : Text) (mine others : List Text)
    → is_among t (docs_tags mine others) ≡ (is_among t mine || is_among t others)
unfolding docs_tags
is_among-docs_tags t mine others =
    is_among-append t mine (keep_if (λ u. not (is_among u mine)) others)
    ∙ ap (λ b. is_among t mine || b) (is_among-keep_if t (λ u. not (is_among u mine)) others)
    ∙ either (is_among t mine) (is_among t others)

keep_if-twice :
    (mine others : List Text) (xs : List Text)
    → keep_if (λ t. not (is_among t (docs_tags mine others))) xs
      ≡ keep_if (λ t. not (is_among t mine)) (keep_if (λ t. not (is_among t others)) xs)
keep_if-twice mine others [] = refl
keep_if-twice mine others (x ∷ xs) = elim (Bool-cases (is_among x others)) [
  | inl theirs ↦
      rw (is_among-docs_tags x mine others, theirs, or_true (is_among x mine))
        (keep_if-twice mine others xs)
  | inr new ↦
      rw (is_among-docs_tags x mine others, new, or_false (is_among x mine))
        (ap (λ r. if not (is_among x mine) then x ∷ r else r) (keep_if-twice mine others xs))
]

docs_tags_assoc : (a b c : List Text) → docs_tags (docs_tags a b) c ≡ docs_tags a (docs_tags b c)
unfolding docs_tags
docs_tags_assoc a b c =
    append_assoc a (keep_if (λ t. not (is_among t a)) b)
      (keep_if (λ t. not (is_among t (docs_tags a b))) c)
    ∙ ap (λ r. a ++ (keep_if (λ t. not (is_among t a)) b ++ r)) (keep_if-twice a b c)
    ∙ ap (λ r. a ++ r)
        (sym (keep_if-append (λ t. not (is_among t a)) b (keep_if (λ t. not (is_among t b)) c)))

or_assoc : (a b c : Bool) → ((a || b) || c) ≡ (a || (b || c))
or_assoc true b c = refl
or_assoc false b c = refl

and_assoc : (a b c : Bool) → ((a && b) && c) ≡ (a && (b && c))
and_assoc true b c = refl
and_assoc false b c = refl

first_some_assoc {ℓ} :
    {A : Type ℓ} (a b c : Option A) → first_some a (first_some b c) ≡ first_some (first_some a b) c
first_some_assoc none b c = refl
first_some_assoc (some x) b c = refl

-- Groups nested in groups show the same tags, in the same order, however the merges are grouped; the
-- responses are the last given for each status, and a route is deprecated or left out if any is.
pub merge_docs_assoc {ℓ} :
    {A : Type ℓ} (a b c : Docs A) (status : Text)
    → IsUnique b.responses
    → IsUnique c.responses
    → IsUnique (merge b.responses c.responses)
    → ((merge_docs (merge_docs a b) c).tags ≡ (merge_docs a (merge_docs b c)).tags)
      × ((merge_docs (merge_docs a b) c).deprecated ≡ (merge_docs a (merge_docs b c)).deprecated)
      × (find status (merge_docs (merge_docs a b) c).responses
          ≡ find status (merge_docs a (merge_docs b c)).responses)
      × ((merge_docs (merge_docs a b) c).include ≡ (merge_docs a (merge_docs b c)).include)
unfolding merge_docs
merge_docs_assoc a b c status ub uc ubc = (
  docs_tags_assoc a.tags b.tags c.tags,
  or_assoc a.deprecated b.deprecated c.deprecated,
  rw
      (
        find-merge status (merge a.responses b.responses) c.responses uc,
        find-merge status a.responses b.responses ub,
        find-merge status a.responses (merge b.responses c.responses) ubc,
        find-merge status b.responses c.responses uc,
      )
      (first_some_assoc (find status c.responses) (find status b.responses)
        (find status a.responses)),
  and_assoc a.include b.include c.include,
)
