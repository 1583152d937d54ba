-- ===== src/Tests/Links.antt =====
-- Patterns, plans and links: the tests of what a route is registered and linked with.
use korvex.Prelude.{
  ℕ, zero, suc, ◌≡◌, refl, Bool, true, false, List, [], ◌∷◌, ◌++◌, Option, none, some, inl, inr,
  arith,
}
use mathlib.Core.Path.{subst}
use korvex.Prelude.Dict.{Dict, find, put, contains_key}
use korvex.Prelude.Lists.{All}
use korvex.Prelude.Tests.{◌==◌, if◌then◌else◌, Bool-cases}
use korvex.Prelude.Text.{Text, codes, eq_text}
use korvex.Hosts.{Host, Label}
use korvex.Binding.Annotations.{Signature, depends, Default}
use korvex.Binding.Patterns.{find_params}
use korvex.Binding.Patterns.Pieces.{Piece, IsPiece, show_pattern, params_of, find_params-pattern}
use korvex.Urls.{Target, Value, Source, Known, lookup, build_index, all_at, targets_of}
use korvex.Urls.Paths.{path_for}
use korvex.Urls.Reached.{path_for-reaches}
use korvex.Urls.Lookup.{lookup-place}
use korvex.Urls.Links.{url_for}
use korvex.Urls.Hosted.{IsLink, url_for-IsLink}
use korvex.Tests.Binding.{text_objects}
use korvex.Binding.Patterns.{is_word}
use korvex.Prelude.Tests.{==_iff}
use korvex.Prelude.{ap}
use korvex.Prelude.Tests.{ltb}
use korvex.Prelude.Tests.{leb}
use korvex.Prelude.{◌/◌}
use korvex.Prelude.{◌*◌}
use korvex.Prelude.{◌<◌}
use korvex.Hosts.{is_alnum}
use korvex.Prelude.Lists.{any}
use korvex.Prelude.{◌+◌}
use korvex.Prelude.{◌-◌}
use korvex.Prelude.{◌||◌}
use korvex.Prelude.{◌%◌}

abbrev user_pattern : List Piece
user_pattern =
    Piece.literal (codes "u")
    ∷ Piece.param (codes "id") (some (codes "int"))
    ∷ Piece.wildcard (codes "p")
    ∷ []

user_pattern-IsPiece : All IsPiece user_pattern
unfolding is_word
user_pattern-IsPiece = (
  ((refl, refl), tt),
  (((refl, (refl, (refl, tt))), (refl, (refl, (refl, (refl, tt))))), ((refl, (refl, tt)), tt)),
)

find_params-pattern_example : find_params 0 (show_pattern user_pattern) ≡ params_of user_pattern
find_params-pattern_example = find_params-pattern user_pattern user_pattern-IsPiece

-- The second function asks for the first, and the first for the second.
abbrev asking_for : ℕ → Signature Text
asking_for f = record {
  parameters =
      record {
        name = codes "x";
        catch_all = false;
        tp = none;
        marker = none;
        default = Default.marker_default (depends (if f == 0 then 1 else 0) true);
      }
      ∷ [];
  readable = true;
  generator = false;
}

-- `quote` and `unquote`, on codes below 256: a letter, a digit, one of `_.-~` and what `safe` holds are
-- kept, and any other is a percent sign and two hexadecimal digits. Codes from 256 on are kept too.
hex_digit : ℕ → ℕ
hex_digit d = if ltb d 10 then 48 + d else 55 + d

of_hex : ℕ → ℕ
of_hex c = if ltb c 58 then c - 48 else c - 55

keeps : Text → ℕ → Bool
keeps safe c =
    leb 256 c || (is_alnum c || (any (λ d. d == c) (codes "_.-~") || any (λ d. d == c) safe))

percent : Text → Text → Text
percent safe [] = []
percent safe (c ∷ s) =
    let rest = percent safe s in
    if keeps safe c then c ∷ rest else b'%' ∷ hex_digit (c / 16) ∷ hex_digit (c % 16) ∷ rest

of_pair : Text → ℕ
of_pair (a ∷ b ∷ s) = of_hex a * 16 + of_hex b
of_pair _ = b'%'

-- After `skip` more characters of an escape.
plain_from : ℕ → Text → Text
plain_from skip [] = []
plain_from (suc skip) (c ∷ s) = plain_from skip s
plain_from zero (c ∷ s) =
    (if c == b'%' then of_pair s else c) ∷ plain_from (if c == b'%' then 2 else 0) s

of_hex-hex_digit : (d : ℕ) → d < 16 → of_hex (hex_digit d) ≡ d
unfolding of_hex hex_digit
of_hex-hex_digit d h = ground arith

kept_plain :
    (safe : Text) (c : ℕ)
    → any (λ d. d == b'%') safe ≡ false
    → keeps safe c ≡ true
    → (c == b'%') ≡ false
unfolding keeps is_alnum
kept_plain safe c h k = elim (Bool-cases (c == b'%')) [
  | inl e ↦
      let same : c ≡ b'%' = (==_iff c b'%').0 e in
      let kept : keeps safe b'%' ≡ true = subst (λ x. keeps safe x ≡ true) same k in cc (h, kept)
  | inr e ↦ e
]

unkept_small : (safe : Text) (c : ℕ) → keeps safe c ≡ false → c < 256
unfolding keeps
unkept_small safe c h = ground arith

escape_pair :
    (safe : Text) (c : ℕ)
    → keeps safe c ≡ false
    → of_hex (hex_digit (c / 16)) * 16 + of_hex (hex_digit (c % 16)) ≡ c
escape_pair safe c h =
    let small = unkept_small safe c h in
    let high = of_hex-hex_digit (c / 16) (omega (arith, small)) in
    let low = of_hex-hex_digit (c % 16) (omega arith) in rw (high, low) (omega arith)

plain_from-percent :
    (safe s r : Text)
    → any (λ d. d == b'%') safe ≡ false
    → plain_from 0 (percent safe s ++ r) ≡ s ++ plain_from 0 r
unfolding plain_from percent of_pair
plain_from-percent safe [] r h = refl
plain_from-percent safe (c ∷ s) r h = elim (Bool-cases (keeps safe c)) [
  | inl e ↦ rw (e, kept_plain safe c h e) (ap (λ t. c ∷ t) (plain_from-percent safe s r h))
  | inr e ↦ rw (e, escape_pair safe c e, of_pair) (ap (λ t. c ∷ t) (plain_from-percent safe s r h))
]

abbrev user_target : Target
user_target = record {
  name = codes "user";
  key = codes "k";
  websocket = false;
  method = codes "GET";
  pattern = codes "/users/{id}";
  host = none;
  host_id = 0;
  router = 0;
}

-- A router with this one route.
abbrev always : ℕ → Text → Text → Option Text
always router path method = some (codes "k")

path_for-reaches_example :
    always 0 (plain_from 0 (codes "/users/a%25")) (codes "GET") ≡ some (codes "k")
unfolding path_for percent plain_from contains_key eq_text keeps is_alnum hex_digit
path_for-reaches_example =
    path_for-reaches percent (plain_from 0) (λ safe s r h. plain_from-percent safe s r h)
      (λ r. refl) refl text_objects always user_target none
      ((codes "id", Value.text (codes "a%")) ∷ []) (codes "/users/a%25") refl

abbrev known : Bool → Dict Known
known websocket = (codes "k", record { name = some (codes "user"); explicit = true }) ∷ []

abbrev site : List Source
site =
    record {
      routes = record { pattern = codes "/users/{id}"; method = codes "GET"; key = codes "k" } ∷ [];
      router = 0;
      websocket = false;
      host = none;
      host_id = 0;
    }
    ∷ []

lookup-place_example :
    (user_target.name ≡ codes "user")
    × (all_at user_target (targets_of (build_index known site) (codes "user")) ≡ true)
unfolding lookup build_index find put eq_text
lookup-place_example = lookup-place known site (codes "user") user_target refl

abbrev tenants : Host
tenants = record {
  pattern = codes "{t}.io";
  labels = Label.param (codes "t") ∷ Label.literal (codes "io") ∷ [];
}

abbrev tenant_target : Target
tenant_target = record user_target { host = some tenants; host_id = 1; pattern = codes "/" }

url_for-IsLink_example :
    IsLink text_objects percent always
      (codes "https")
      (codes "www.io:80")
      tenant_target
      none
      tenants
      ((codes "t", Value.text (codes "acme")) ∷ [])
      (codes "https://acme.io:80/")
unfolding url_for path_for contains_key eq_text
url_for-IsLink_example =
    url_for-IsLink text_objects percent always (codes "https") (codes "www.io:80") tenant_target
      none tenants ((codes "t", Value.text (codes "acme")) ∷ []) (codes "https://acme.io:80/") refl
      refl
