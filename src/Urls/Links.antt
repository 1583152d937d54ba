-- ===== src/Urls/Links.antt =====
-- korvex/_urls.py: `url_for`, the full URL of a route for a request: its scheme and its Host header, what
-- `everything` of the route's plan gives, and the parameters.
use korvex.Prelude.{ℕ, Bool, true, false, not, ◌&&◌, ◌||◌, List, [], ◌∷◌, ◌++◌, Option, none, some}
use korvex.Prelude.Dict.{Dict, find}
use korvex.Prelude.Lists.{length}
use korvex.Prelude.Tests.{leb, ◌==◌, if◌then◌else◌}
use korvex.Prelude.Text.{Text, codes, eq_text, is_empty, or_empty}
use korvex.Hosts
use korvex.Hosts.{Host, Label, param, literal, is_alnum, is_label, every, match_labels}
use korvex.Binding.{Inner, Param, Objects}
use korvex.Urls.{Target, Problem, Made, made, raised, then_make, Value, text_of, is_digit, is_hex}
use korvex.Urls.Paths.{of_value, all_in, fits_type, annotated, path_for}

-- The longest start of a text whose characters `p` holds of, and what follows it.
abbrev pub span : (ℕ → Bool) → Text → Text
span p [] = []
span p (c ∷ s) = let rest = span p s in if p c then c ∷ rest else []

abbrev pub after_span : (ℕ → Bool) → Text → Text
after_span p [] = []
after_span p (c ∷ s) = let rest = after_span p s in if p c then rest else c ∷ s

-- Nothing, or a colon and at most five digits.
abbrev pub is_port : Text → Bool
is_port [] = true
is_port (c ∷ s) = c == b':' && (every is_digit s && (leb 1 (length s) && leb (length s) 5))

abbrev pub is_name_code : ℕ → Bool
is_name_code c = is_alnum c || (c == b'_' || (c == b'.' || c == b'-'))

abbrev pub is_address_code : ℕ → Bool
is_address_code c = is_hex c || (c == b':' || c == b'.')

abbrev pub closes : Text → Bool
closes [] = false
closes (c ∷ s) = c == b']' && is_port s

-- `_HOST`
unfoldable pub is_host : Text → Bool
unfolding is_alnum
is_host [] = false
is_host (c ∷ s) =
    if c == b'['
    then not (is_empty (span is_address_code s)) && closes (after_span is_address_code s)
    else not (is_empty (span is_name_code (c ∷ s))) && is_port (after_span is_name_code (c ∷ s))

-- The text after the last colon, where there is one.
unfoldable pub after_colon : Text → Option Text
after_colon [] = none
after_colon (c ∷ s) = elim (after_colon s) [
  | some r ↦ some r
  | none ↦ if c == b':' then some s else none
]

abbrev pub ends_in : ℕ → Text → Bool
ends_in x [] = false
ends_in x (c ∷ []) = c == x
ends_in x (c ∷ d ∷ s) = ends_in x (d ∷ s)

unfoldable pub port_of : Text → Text
unfolding after_colon
port_of header = if ends_in b']' header then [] else or_empty (after_colon header)

abbrev pub with_port : Text → Text
with_port port = if is_empty port then [] else b':' ∷ port

unfoldable pub scheme_for : Bool → Text → Text
scheme_for websocket scheme =
    let secure = eq_text scheme (codes "https") || eq_text scheme (codes "wss") in
    if websocket
    then (if secure then codes "wss" else codes "ws")
    else (if secure then codes "https" else codes "http")

-- params.pop(name), where a key stands once.
abbrev pub pop : Text → Dict Value → Dict Value
pop name [] = []
pop name ((k, v) ∷ d) = let rest = pop name d in if eq_text k name then rest else (k, v) ∷ rest

unfoldable pub dot_join : List Text → Text
dot_join [] = []
dot_join (s ∷ []) = s
dot_join (s ∷ t ∷ ss) = s ++ b'.' ∷ dot_join (t ∷ ss)

-- The labels of the host, and the parameters that are left.
pub record Netloc : Type 0 where
  pub labels : List Text
  pub params : Dict Value

module _ {V : Type 0} (objects : Objects V) where
  unfoldable pub label_text : Dict Inner → Text → Text → Made Text
  unfolding is_label fits_type
  label_text types name s =
      if not (is_label s)
      then raised Problem.bad_label
      else if fits_type objects (find name types) s
      then made s
      else raised Problem.bad_type

  abbrev pub add_label : Text → Netloc → Made Netloc
  add_label s n = made (record { labels = s ∷ n.labels; params = n.params })

  unfoldable pub host_loop : Dict Inner → List Label → Dict Value → Made Netloc
  unfolding text_of label_text
  host_loop types [] params = made (record { labels = []; params = params })
  host_loop types (literal s ∷ ls) params = then_make (host_loop types ls params) (add_label s)
  host_loop types (param name ∷ ls) params =
      then_make (then_make (of_value (find name params)) (label_text types name))
        (λ s. then_make (host_loop types ls (pop name params)) (add_label s))

  module _ (quote : Text → Text → Text) (match : ℕ → Text → Text → Option Text) where
    abbrev pub with_netloc : Text → Text → Target → Option (List (Param V)) → Dict Value → Made Text
    with_netloc scheme netloc t everything params =
        then_make (path_for objects quote match t everything params)
          (λ p. made (scheme ++ (codes "://" ++ (netloc ++ p))))

    abbrev pub url_at :
        Text → Text → Target → Option (List (Param V)) → Option Host → Dict Value → Made Text
    url_at scheme header t everything none params =
        with_netloc (scheme_for t.websocket scheme) header t everything params
    url_at scheme header t everything (some host) params =
        if not (all_in (Hosts.params_of host.labels) params)
        then raised Problem.missing_host
        else then_make (host_loop (annotated objects everything) host.labels params) (λ n.
          with_netloc (scheme_for t.websocket scheme)
            (dot_join n.labels ++ with_port (port_of header)) t everything n.params)

    -- `url_for`
    unfoldable pub url_for :
        Text → Option Text → Target → Option (List (Param V)) → Dict Value → Made Text
    unfolding is_host scheme_for port_of host_loop dot_join path_for Hosts.params_of
    url_for scheme host t everything params =
        if not (is_host (or_empty host))
        then raised Problem.bad_header
        else url_at scheme (or_empty host) t everything t.host params
