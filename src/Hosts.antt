-- ===== src/Hosts.antt =====
-- korvex/_routing.py: the host patterns of `_Host` and the host of a request; korvex/_app.py:
-- `host()` and `_host_for`. An identifier is an ASCII one here: a pattern with another is refused.
pub mod Match
pub mod Order
use korvex.Prelude.{
  ℕ, suc, ◌≡◌, Bool, true, false, not, ◌&&◌, ◌||◌, List, [], ◌∷◌, ◌++◌, Option, none, some, map,
}
use korvex.Prelude.Dict.{Dict, put}
use korvex.Prelude.Lists.{length, keep_if}
use korvex.Prelude.Tests.{leb, ◌==◌, if◌then◌else◌}
use korvex.Prelude.Text.{or_empty, Text, codes, eq_text, lower, split, rstrip, is_empty}
use korvex.Headers
use korvex.Request.{Request}

-- One label of a pattern: `{name}`, or a literal.
pub data Label : Type 0 where
  param : Text → Label
  literal : Text → Label

pub record Host : Type 0 where
  pub pattern : Text
  pub labels : List Label

abbrev is_dot : ℕ → Bool
is_dot c = c == b'.'

-- pattern.lower().rstrip(".")
unfoldable pub normalized : Text → Text
normalized pattern = rstrip is_dot (lower pattern)

unfoldable pub is_letter : ℕ → Bool
is_letter c = (leb b'a' c && leb c b'z') || (leb b'A' c && leb c b'Z')

unfoldable pub is_alnum : ℕ → Bool
unfolding is_letter
is_alnum c = is_letter c || (leb b'0' c && leb c b'9')

abbrev pub every : (ℕ → Bool) → Text → Bool
every p [] = true
every p (c ∷ s) = p c && every p s

unfoldable pub is_identifier : Text → Bool
unfolding is_alnum
is_identifier [] = false
is_identifier (c ∷ s) = (is_letter c || c == b'_') && every (λ d. is_alnum d || d == b'_') s

unfoldable pub is_label : Text → Bool
unfolding is_alnum
is_label s = not (is_empty s) && every (λ c. is_alnum c || c == b'-' || c == b'_') s

-- The name in `{name}`.
before_brace : Text → Option Text
before_brace [] = none
before_brace (d ∷ []) = if d == b'}' then some [] else none
before_brace (d ∷ e ∷ s) = elim (before_brace (e ∷ s)) [ none ↦ none | some n ↦ some (d ∷ n) ]

unfoldable pub braced : Text → Option Text
unfolding before_brace
braced [] = none
braced (c ∷ s) = if c == b'{' then before_brace s else none

unfoldable pub read_label : Text → Option Label
unfolding braced is_identifier is_label
read_label s = elim (braced s) [
  | some name ↦
      if is_identifier name
      then some (param name)
      else if is_label s
      then some (literal s)
      else none
  | none ↦ if is_label s then some (literal s) else none
]

unfoldable pub read_labels : List Text → Option (List Label)
unfolding read_label
read_labels [] = some []
read_labels (s ∷ parts) = elim (read_label s) [
  | none ↦ none
  | some label ↦ elim (read_labels parts) [ none ↦ none | some labels ↦ some (label ∷ labels) ]
]

-- `_Host(pattern)`: none for its ValueError.
unfoldable pub make_host : Text → Option Host
unfolding normalized read_labels
make_host pattern = elim (read_labels (split b'.' (normalized pattern))) [
  | none ↦ none
  | some labels ↦ some (record { pattern = normalized pattern; labels = labels })
]

-- `params`: the names of the parameters, in order.
unfoldable pub params_of : List Label → List Text
params_of [] = []
params_of (param name ∷ labels) = name ∷ params_of labels
params_of (literal s ∷ labels) = params_of labels

-- The loop of `match`, over the labels of the pattern and of the host.
unfoldable pub match_labels : List Label → List Text → Dict Text → Option (Dict Text)
match_labels (param name ∷ labels) (s ∷ given) params =
    let rest = match_labels labels given (put name s params) in if is_empty s then none else rest
match_labels (literal expected ∷ labels) (s ∷ given) params =
    let rest = match_labels labels given params in if eq_text s expected then rest else none
match_labels _ _ params = some params

unfoldable pub match : Host → List Text → Option (Dict Text)
unfolding match_labels
match host given =
    if length given == length host.labels then match_labels host.labels given [] else none

unfoldable pub host_for : List Host → List Text → Option (Host × Dict Text)
host_for [] given = none
host_for (host ∷ hosts) given = elim (match host given) [
  | some params ↦ some (host, params)
  | none ↦ host_for hosts given
]

abbrev pub none_of : List Text → Bool
none_of [] = true
none_of (x ∷ xs) = false

abbrev pub has_params : Host → Bool
has_params host = not (none_of (params_of host.labels))

-- self._hosts.sort(key=lambda h: bool(h.params)), a stable sort on a Boolean
unfoldable pub sort_hosts : List Host → List Host
sort_hosts hosts = keep_if (λ h. not (has_params h)) hosts ++ keep_if has_params hosts

unfoldable pub host_named : Text → List Host → Option Host
host_named pattern [] = none
host_named pattern (h ∷ hosts) =
    if eq_text h.pattern pattern then some h else host_named pattern hosts

-- `host(pattern)`: the host of the group, and the hosts afterwards; none for a ValueError.
unfoldable pub add_host : Text → List Host → Option (Host × List Host)
unfolding sort_hosts host_named
add_host pattern hosts = elim (host_named (normalized pattern) hosts) [
  | some found ↦ some (found, hosts)
  | none ↦ elim (make_host pattern) [
    | none ↦ none
    | some new ↦ some (new, sort_hosts (hosts ++ new ∷ []))
  ]
]

-- host.rsplit(":", 1)[0]: what stands before the last colon, or all of it.
before_colon : Text → Option Text
before_colon [] = none
before_colon (c ∷ s) = elim (before_colon s) [
  | some front ↦ some (c ∷ front)
  | none ↦ if c == b':' then some [] else none
]

abbrev or_all : Text → Option Text → Text
or_all s none = s
or_all s (some front) = front

-- host[: host.find("]") + 1], empty where there is none.
through_bracket : Text → Option Text
through_bracket [] = none
through_bracket (c ∷ s) =
    if c == b']'
    then some (c ∷ [])
    else elim (through_bracket s) [ none ↦ none | some front ↦ some (c ∷ front) ]

unfoldable pub labels_of : Text → List Text
unfolding before_colon through_bracket
labels_of [] = split b'.' []
labels_of (c ∷ s) =
    if c == b'['
    then or_all [] (through_bracket (c ∷ s)) ∷ []
    else split b'.' (rstrip is_dot (or_all (c ∷ s) (before_colon (c ∷ s))))

-- `_host_labels`
unfoldable pub host_labels : Request → List Text
unfolding labels_of
host_labels request = labels_of (lower (or_empty (Headers.get request.headers (codes "host"))))
