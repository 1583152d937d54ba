-- ===== src/SecurityHeaders/Kept.antt =====
-- What a response says once the security headers were added.
use korvex.Prelude.{
  Bool, true, false, List, [], ◌∷◌, Option, none, some, ◌≡◌, refl, ap, ◌∙◌, inl, inr,
}
use korvex.Prelude.Dict.{first_some}
use korvex.Prelude.Lists.{head?, is_some}
use korvex.Prelude.Tests.{if◌then◌else◌, Bool-cases}
use korvex.Prelude.Text.{Text, codes, eq_text}
use korvex.Headers
use mathlib.Core.Path.{ap₂}
use korvex.Headers.{Headers, values_of, same_name}
use korvex.Headers.Laws.{same_name_right}
use korvex.Request.{Request}
use korvex.Response.{Response, default_header}
use korvex.Response.Types.{get-default_header}
use korvex.SecurityHeaders.{
  Options, always, transport, set_defaults, with_transport, add_security_headers,
}

-- The first value of a name among pairs.
abbrev pub value_in : List (Text × Text) → Text → Option Text
value_in pairs m = head? (values_of m pairs)

-- The Strict-Transport-Security that a request gets.
abbrev pub transport_for : Option Text → Bool → List (Text × Text)
transport_for (some value) true = (codes "Strict-Transport-Security", value) ∷ []
transport_for _ _ = []

values_of-same :
    (n m : Text) (items : List (Text × Text))
    → same_name n m ≡ true
    → values_of n items ≡ values_of m items
unfolding values_of
values_of-same n m [] h = refl
values_of-same n m ((k, v) ∷ items) h =
    ap₂ (λ b rest. if b then v ∷ rest else rest) (same_name_right n m k h)
      (values_of-same n m items h)

get-same : (h : Headers) (n m : Text) → same_name n m ≡ true → Headers.get h n ≡ Headers.get h m
unfolding Headers.get Headers.get_all
get-same h n m same = ap head? (values_of-same n m h.items same)

default_same :
    (mine : Option Text) (v : Text)
    → (if is_some mine then mine else some v) ≡ first_some mine (some v)
default_same none v = refl
default_same (some x) v = refl

default_other : (b : Bool) (mine : Option Text) → (if b then mine else mine) ≡ first_some mine none
default_other true none = refl
default_other true (some x) = refl
default_other false none = refl
default_other false (some x) = refl

value_in-default :
    (r : Response) (n v m : Text)
    → Headers.get (default_header r n v).headers m
      ≡ first_some (Headers.get r.headers m) (value_in ((n, v) ∷ []) m)
unfolding values_of Headers.contains
value_in-default r n v m = elim (Bool-cases (same_name n m)) [
  | inl same ↦
      rw (get-default_header r n v m, same, get-same r.headers n m same)
        (default_same (Headers.get r.headers m) v)
  | inr other ↦
      rw (get-default_header r n v m, other)
        (default_other (is_some (Headers.get r.headers n)) (Headers.get r.headers m))
]

first_some_assoc :
    (a b c : Option Text) → first_some (first_some a b) c ≡ first_some a (first_some b c)
first_some_assoc none b c = refl
first_some_assoc (some x) b c = refl

value_in-cons :
    (n v : Text) (rest : List (Text × Text)) (m : Text)
    → first_some (value_in ((n, v) ∷ []) m) (value_in rest m) ≡ value_in ((n, v) ∷ rest) m
unfolding values_of
value_in-cons n v rest m = elim (Bool-cases (same_name n m)) [
  | inl same ↦ rw same refl
  | inr other ↦ rw other refl
]

first_some-none : (o : Option Text) → o ≡ first_some o none
first_some-none none = refl
first_some-none (some v) = refl

get-set_defaults :
    (pairs : List (Text × Text)) (r : Response) (m : Text)
    → Headers.get (set_defaults pairs r).headers m
      ≡ first_some (Headers.get r.headers m) (value_in pairs m)
unfolding set_defaults values_of
get-set_defaults [] r m = first_some-none (Headers.get r.headers m)
get-set_defaults ((n, v) ∷ rest) r m =
    get-set_defaults rest (default_header r n v) m
    ∙ ap (λ o. first_some o (value_in rest m)) (value_in-default r n v m)
    ∙ first_some_assoc (Headers.get r.headers m) (value_in ((n, v) ∷ []) m) (value_in rest m)
    ∙ ap (first_some (Headers.get r.headers m)) (value_in-cons n v rest m)

with_transport-eq :
    (value : Option Text) (https : Bool) (r : Response)
    → with_transport value https r ≡ set_defaults (transport_for value https) r
unfolding set_defaults
with_transport-eq (some value) true r = refl
with_transport-eq (some value) false r = refl
with_transport-eq none https r = refl

-- After the after hook, each header of a response is the one that it had if it had one, and else the
-- one that the options give it: Strict-Transport-Security only where the request came over https.
pub get-add_security_headers :
    (o : Options) (request : Request) (r : Response) (m : Text)
    → Headers.get (add_security_headers o request r).headers m
      ≡ first_some (Headers.get r.headers m) (
          first_some
            (value_in (always o) m)
            (value_in (transport_for (transport o) (eq_text request.scheme (codes "https"))) m))
unfolding add_security_headers
get-add_security_headers o request r m =
    let https = eq_text request.scheme (codes "https") in
    ap (λ x. Headers.get x.headers m)
      (with_transport-eq (transport o) https (set_defaults (always o) r))
    ∙ get-set_defaults (transport_for (transport o) https) (set_defaults (always o) r) m
    ∙ ap (λ x. first_some x (value_in (transport_for (transport o) https) m))
        (get-set_defaults (always o) r m)
    ∙ first_some_assoc (Headers.get r.headers m) (value_in (always o) m)
        (value_in (transport_for (transport o) https) m)
