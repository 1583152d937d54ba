-- ===== src/Urls.antt =====
-- korvex/_urls.py: the names that routes are known by, `build_index` and `lookup`, and what `url_for` checks
-- of a parameter's value. Routers and hosts are compared by their identities; what `routes()` of a
-- router lists is data here.
pub mod Paths
pub mod Links
pub mod Labels
pub mod Hosted
pub mod Lookup
pub mod Reached
use korvex.Prelude.{
  ℕ, ◌+◌, ◌*◌, ◌-◌, Bool, true, false, not, ◌&&◌, ◌||◌, List, [], ◌∷◌, ◌++◌, Option, none, some,
}
use korvex.Prelude.Decimal
use korvex.Prelude.Dict.{Dict, find, put}
use korvex.Prelude.Lists.{any, is_nil, is_some, length}
use korvex.Prelude.Tests.{leb, ltb, ◌==◌, if◌then◌else◌}
use korvex.Prelude.Text.{Text, codes, eq_text, is_empty, split}
use korvex.Hosts.{Host, every}

-- `host_id` is the identity of the host, or of None.
pub record Target : Type 0 where
  pub name : Text
  pub key : Text
  pub websocket : Bool
  pub method : Text
  pub pattern : Text
  pub host : Option Host
  pub host_id : ℕ
  pub router : ℕ

pub record Index : Type 0 where
  pub explicit : Dict (List Target)
  pub default : Dict (List Target)
  pub by_key : List ((Bool × ℕ × Text) × Target)

-- A route that a router lists, and one of the sources of `build_index`.
pub record Listed : Type 0 where
  pub pattern : Text
  pub method : Text
  pub key : Text

pub record Source : Type 0 where
  pub routes : List Listed
  pub router : ℕ
  pub websocket : Bool
  pub host : Option Host
  pub host_id : ℕ

-- The name of a route in the app's table, and whether it is explicit.
pub record Known : Type 0 where
  pub name : Option Text
  pub explicit : Bool

abbrev pub or_nil : Option (List Target) → List Target
or_nil none = []
or_nil (some ts) = ts

abbrev pub listed_under : Text → Dict (List Target) → List Target
listed_under name d = or_nil (find name d)

-- d.setdefault(name, []).append(t)
unfoldable pub add_target : Text → Target → Dict (List Target) → Dict (List Target)
add_target name t d = put name (listed_under name d ++ t ∷ []) d

abbrev pub same_flag : Bool → Bool → Bool
same_flag true b = b
same_flag false b = not b

abbrev pub same_key : Bool × ℕ × Text → Bool × ℕ × Text → Bool
same_key (w, r, k) (v, q, j) = same_flag w v && (r == q && eq_text k j)

unfoldable pub put_key :
    Bool × ℕ × Text → Target → List ((Bool × ℕ × Text) × Target) → List ((Bool × ℕ × Text) × Target)
put_key k t [] = (k, t) ∷ []
put_key k t ((j, u) ∷ d) = if same_key j k then (j, t) ∷ d else (j, u) ∷ put_key k t d

unfoldable pub add_known : Source → Listed → Text → Bool → Index → Index
unfolding add_target put_key
add_known s r name explicit index =
    let t : Target = record {
      name = name;
      key = r.key;
      websocket = s.websocket;
      method = r.method;
      pattern = r.pattern;
      host = s.host;
      host_id = s.host_id;
      router = s.router;
    } in
    record {
      explicit = if explicit then add_target name t index.explicit else index.explicit;
      default = if explicit then index.default else add_target name t index.default;
      by_key = put_key (s.websocket, s.router, r.key) t index.by_key;
    }

-- The docs, and what has no name, are left out.
abbrev pub add_route : Source → Listed → Option Known → Index → Index
add_route s r none index = index
add_route s r (some k) index = elim k.name [
  | none ↦ index
  | some name ↦ add_known s r name k.explicit index
]

-- `table` is the app's, of the WebSocket routes or of the others.
module _ (table : Bool → Dict Known) where
  unfoldable pub add_routes : Source → List Listed → Index → Index
  unfolding add_known
  add_routes s [] index = index
  add_routes s (r ∷ rs) index =
      add_routes s rs (add_route s r (find r.key (table s.websocket)) index)

  unfoldable pub add_sources : List Source → Index → Index
  unfolding add_routes
  add_sources [] index = index
  add_sources (s ∷ ss) index = add_sources ss (add_routes s s.routes index)

  -- `build_index`
  unfoldable pub build_index : List Source → Index
  unfolding add_sources
  build_index sources = add_sources sources (record { explicit = []; default = []; by_key = [] })

-- Why an exception is raised.
pub data Problem : Type 0 where
  unknown_name several_routes missing_or_extra bad_part has_slash bad_constraint bad_type not_text
        unfit reaches_other bad_header missing_host bad_label :
      Problem

pub data Made {ℓ} (A : Type ℓ) : Type ℓ where
  made : A → Made A
  raised : Problem → Made A

abbrev pub then_make : {A B : Type 0} → Made A → (A → Made B) → Made B
then_make (made a) f = f a
then_make (raised p) f = raised p

unfoldable pub same_place : Target → Target → Bool
same_place t u =
    same_flag t.websocket u.websocket && (t.host_id == u.host_id && eq_text t.pattern u.pattern)

abbrev pub all_at : Target → List Target → Bool
all_at t [] = true
all_at t (u ∷ us) = same_place t u && all_at t us

abbrev pub or_list : List Target → List Target → List Target
or_list [] us = us
or_list (t ∷ ts) us = t ∷ ts

unfoldable pub targets_of : Index → Text → List Target
targets_of index name = or_list (listed_under name index.explicit) (listed_under name index.default)

abbrev pub one_of : List Target → Made Target
one_of [] = raised Problem.unknown_name
one_of (t ∷ ts) = if all_at t ts then made t else raised Problem.several_routes

-- `lookup`
unfoldable pub lookup : Index → Text → Made Target
unfolding targets_of same_place
lookup index name = one_of (targets_of index name)

-- A value: `shown` is what `str` or `isoformat` gives of a number, a UUID, a date or a datetime.
pub data Value : Type 0 where
  text : Text → Value
  boolean : Bool → Value
  shown : Text → Value
  other : Value

-- `_text`
unfoldable pub text_of : Value → Made Text
text_of (text s) = made s
text_of (boolean true) = made (codes "true")
text_of (boolean false) = made (codes "false")
text_of (shown s) = made s
text_of other = raised Problem.not_text

abbrev pub is_digit : ℕ → Bool
is_digit c = leb 48 c && leb c 57

abbrev pub is_hex : ℕ → Bool
is_hex c = is_digit c || ((leb 65 c && leb c 70) || (leb 97 c && leb c 102))

abbrev pub is_digits : Text → Bool
is_digits s = not (is_empty s) && every is_digit s

-- `_INT`, and the range of 64 bits
unfoldable pub is_int64 : Text → Bool
is_int64 [] = false
is_int64 (c ∷ s) =
    if c == b'-'
    then is_digits s && leb (Decimal.value s) 9223372036854775808
    else if c == b'+'
    then is_digits s && ltb (Decimal.value s) 9223372036854775808
    else is_digits (c ∷ s) && ltb (Decimal.value (c ∷ s)) 9223372036854775808

abbrev pub groups_fit : List ℕ → List Text → Bool
groups_fit [] [] = true
groups_fit (n ∷ ns) (s ∷ ss) = length s == n && (every is_hex s && groups_fit ns ss)
groups_fit _ _ = false

-- `_UUID`
unfoldable pub is_uuid : Text → Bool
unfolding split
is_uuid s = groups_fit (8 ∷ 4 ∷ 4 ∷ 4 ∷ 12 ∷ []) (split 45 s)

-- `_check_constraint`, of the constraint in the pattern
unfoldable pub fits_constraint : Option Text → Text → Bool
unfolding is_int64 is_uuid
fits_constraint none s = true
fits_constraint (some c) s =
    if eq_text c (codes "int")
    then is_int64 s
    else if eq_text c (codes "uuid")
    then is_uuid s
    else true
