-- ===== src/Binding/Patterns.antt =====
-- korvex/_schema.py: `path_params`, the parameters of a route's pattern, with the search for `_PATH_PARAM`
-- that `re.findall` does.
pub mod Pieces
use korvex.Prelude.{
  ℕ, zero, suc, ◌+◌, ◌-◌, Bool, true, false, ◌&&◌, ◌||◌, List, [], ◌∷◌, Option, none, some,
}
use korvex.Prelude.Dict.{Dict, put}
use korvex.Prelude.Lists.{length, is_nil}
use korvex.Prelude.Tests.{leb, ◌==◌, if◌then◌else◌}
use korvex.Prelude.Text.{Text, codes, eq_text, is_empty}
use korvex.Binding.{Scalar, str_type, int_type, uuid_type}
use korvex.Binding.{not}

-- `\w`, on Latin-1
unfoldable pub is_word : ℕ → Bool
is_word c =
    (leb 48 c && leb c 57)
    || ((leb 65 c && leb c 90)
        || (c == 95
            || ((leb 97 c && leb c 122)
                || (c == 170
                    || ((leb 178 c && leb c 179)
                        || (c == 181
                            || ((leb 185 c && leb c 186)
                                || ((leb 188 c && leb c 190)
                                    || ((leb 192 c && leb c 214)
                                        || ((leb 216 c && leb c 246)
                                            || (leb 248 c && leb c 255)))))))))))

-- The longest word at the start of a text, and what follows it.
unfoldable pub word : Text → Text
unfolding is_word
word [] = []
word (c ∷ s) = let rest = word s in if is_word c then c ∷ rest else []

unfoldable pub after_word : Text → Text
unfolding is_word
after_word [] = []
after_word (c ∷ s) = let rest = after_word s in if is_word c then rest else c ∷ s

-- The name and the constraint that one match gives.
pub record PathParam : Type 0 where
  pub name : Text
  pub constraint : Option Text

-- A match at the start of a text, with its length less one.
abbrev pub Match : Type 0
Match = Option (PathParam × ℕ)

-- `}` after a name and its constraint
abbrev pub closed_by : Text → Text → Text → Match
closed_by name constraint [] = none
closed_by name constraint (c ∷ s) =
    if c == b'}' && not (is_empty constraint)
    then some
        (record { name = name; constraint = some constraint }, length name + length constraint + 2)
    else none

-- What follows the name of a `{...}`.
unfoldable pub named_by : Text → Text → Match
unfolding word after_word
named_by name [] = none
named_by name (c ∷ s) =
    if is_empty name
    then none
    else if c == b'}'
    then some (record { name = name; constraint = none }, length name + 1)
    else if c == b':'
    then closed_by name (word s) (after_word s)
    else none

abbrev pub wildcard_by : Text → Match
wildcard_by name =
    if is_empty name then none else some (record { name = name; constraint = none }, length name)

unfoldable pub match_at : ℕ → Text → Match
unfolding named_by word after_word
match_at c s =
    if c == b'{'
    then named_by (word s) (after_word s)
    else if c == b'*'
    then wildcard_by (word s)
    else none

abbrev pub skip_of : Match → ℕ
skip_of none = 0
skip_of (some (p, n)) = n

abbrev pub put_match : Match → List PathParam → List PathParam
put_match none ps = ps
put_match (some (p, n)) ps = p ∷ ps

-- `_PATH_PARAM.findall`, after `skip` more characters of the last match
unfoldable pub find_params : ℕ → Text → List PathParam
unfolding match_at
find_params skip [] = []
find_params (suc skip) (c ∷ s) = find_params skip s
find_params zero (c ∷ s) = let m = match_at c s in put_match m (find_params (skip_of m) s)

-- _CONSTRAINT_TYPES.get(constraint or "", str)
unfoldable pub type_of : Option Text → Scalar
type_of none = str_type
type_of (some c) =
    if eq_text c (codes "int")
    then int_type
    else if eq_text c (codes "uuid")
    then uuid_type
    else str_type

unfoldable pub put_params : List PathParam → Dict Scalar → Dict Scalar
unfolding type_of
put_params [] d = d
put_params (p ∷ ps) d = put_params ps (put p.name (type_of p.constraint) d)

-- `path_params`
unfoldable pub path_params : Text → Dict Scalar
unfolding find_params put_params
path_params pattern = put_params (find_params 0 pattern) []
