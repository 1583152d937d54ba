-- ===== src/Urls/Paths.antt =====
-- korvex/_urls.py: `path_for`, the path of a route with its parameters, each checked and escaped. `quote` of
-- `urllib.parse` and the match of the Rust router are parameters; `found` is the key of the route that
-- a path reaches, `none` where there is none for it or for the method.
use korvex.Prelude.{ℕ, Bool, true, not, ◌&&◌, ◌||◌, List, [], ◌∷◌, ◌++◌, Option, none, some}
use korvex.Prelude.Dict.{Dict, find, put, contains_key}
use korvex.Prelude.Lists.{any, is_some, length}
use korvex.Prelude.Tests.{◌==◌, if◌then◌else◌}
use korvex.Prelude.Text.{Text, codes, eq_text, is_empty, split, strip}
use korvex.Binding.{Scalar, str_type, Inner, scalar, Source, Param, Objects, convert_field}
use korvex.Binding
use korvex.Binding.Patterns.{PathParam, find_params, match_at}
use korvex.Urls.{Target, Problem, Made, made, raised, then_make, Value, text_of, fits_constraint}

abbrev pub names_of : List PathParam → List Text
names_of [] = []
names_of (p ∷ ps) = p.name ∷ names_of ps

-- The names in a pattern, in order.
unfoldable pub expected : Text → List Text
unfolding find_params
expected pattern = names_of (find_params 0 pattern)

abbrev pub all_in : List Text → Dict Value → Bool
all_in [] d = true
all_in (name ∷ names) d = contains_key name d && all_in names d

abbrev pub none_extra : Dict Value → List Text → Bool
none_extra [] names = true
none_extra ((name, v) ∷ d) names = any (eq_text name) names && none_extra d names

-- A segment of a pattern.
pub data Segment : Type 0 where
  literal : Text → Segment
  param : Text → Option Text → Segment
  wildcard : Text → Segment

abbrev pub segment_as : ℕ → Text → Option (PathParam × ℕ) → Segment
segment_as c s none = literal (c ∷ s)
segment_as c s (some (p, n)) =
    if n == length s
    then (if c == b'*' then wildcard p.name else param p.name p.constraint)
    else literal (c ∷ s)

-- `_PARAM.fullmatch` and `_WILDCARD.fullmatch`
unfoldable pub segment_of : Text → Segment
unfolding match_at
segment_of [] = literal []
segment_of (c ∷ s) = segment_as c s (match_at c s)

abbrev pub segments_of : List Text → List Segment
segments_of [] = []
segments_of (s ∷ ss) = segment_of s ∷ segments_of ss

abbrev pub is_slash : ℕ → Bool
is_slash c = c == b'/'

-- target.pattern.strip("/").split("/"), of a pattern that has a segment
unfoldable pub pattern_segments : Text → List Segment
unfolding strip split segment_of
pattern_segments pattern =
    let stripped = strip is_slash pattern in
    if is_empty stripped then [] else segments_of (split 47 stripped)

-- "/".join
unfoldable pub slash_join : List Text → Text
slash_join [] = []
slash_join (s ∷ []) = s
slash_join (s ∷ t ∷ ss) = s ++ b'/' ∷ slash_join (t ∷ ss)

-- Not "", "." or "..".
unfoldable pub is_part : Text → Bool
is_part s = not (is_empty s || (eq_text s (codes ".") || eq_text s (codes "..")))

abbrev pub all_parts : List Text → Bool
all_parts [] = true
all_parts (s ∷ ss) = is_part s && all_parts ss

abbrev pub of_value : Option Value → Made Text
of_value none = raised Problem.missing_or_extra
of_value (some v) = text_of v

-- The characters that a literal segment keeps, `_LITERAL_SAFE`.
abbrev pub literal_safe : Text
literal_safe = codes "!$&'()*+,;=:@"

abbrev pub path_from : List Text → Text
path_from ss = b'/' ∷ slash_join ss

-- The escaped segments, and the plain ones.
pub record Built : Type 0 where
  pub encoded : List Text
  pub decoded : List Text

abbrev pub no_segments : Built
no_segments = record { encoded = []; decoded = [] }

module _ {V : Type 0} (objects : Objects V) where
  -- `_annotated`, of what `everything` gives, `none` where the route has no plan.
  unfoldable pub types_from : List (Param V) → Dict Inner → Dict Inner
  types_from [] d = d
  types_from (p ∷ ps) d =
      types_from ps (elim p.source [ Source.path ↦ put p.key p.inner d | _ ↦ d ])

  abbrev pub annotated : Option (List (Param V)) → Dict Inner
  annotated none = []
  annotated (some ps) = types_from ps []

  -- `_check_type`
  unfoldable pub fits_type : Option Inner → Text → Bool
  unfolding convert_field
  fits_type none s = true
  fits_type (some (scalar str_type)) s = true
  fits_type (some tp) s = is_some (convert_field objects tp (Binding.text s))

module _ {V : Type 0} (objects : Objects V) (quote : Text → Text → Text) where
  abbrev pub quoted : List Text → List Text
  quoted [] = []
  quoted (s ∷ ss) = quote [] s ∷ quoted ss

  -- A parameter's segment: its text must be parts of a path, and no slash unless it is a wildcard.
  unfoldable pub param_text : Dict Inner → Text → Option Text → Text → Made Text
  unfolding is_part fits_constraint fits_type
  param_text types name constraint s =
      if not (is_part s)
      then raised Problem.bad_part
      else if any is_slash s
      then raised Problem.has_slash
      else if not (fits_constraint constraint s)
      then raised Problem.bad_constraint
      else if fits_type objects (find name types) s
      then made s
      else raised Problem.bad_type

  unfoldable pub wildcard_text : Dict Inner → Text → Text → Made Text
  unfolding is_part fits_type split
  wildcard_text types name s =
      if not (all_parts (split 47 s))
      then raised Problem.bad_part
      else if fits_type objects (find name types) s
      then made s
      else raised Problem.bad_type

  -- One segment: escaped, and plain.
  unfoldable pub build_segment : Dict Inner → Dict Value → Segment → Made (Text × Text)
  unfolding text_of param_text wildcard_text slash_join split
  build_segment types params (literal s) = made (quote literal_safe s, s)
  build_segment types params (param name constraint) =
      then_make (of_value (find name params))
        (λ s. then_make (param_text types name constraint s) (λ s. made (quote [] s, s)))
  build_segment types params (wildcard name) = then_make (of_value (find name params)) (λ s.
      then_make (wildcard_text types name s) (λ s. made (slash_join (quoted (split 47 s)), s)))

  abbrev pub add_segment : Text × Text → Built → Made Built
  add_segment (e, d) b = made (record { encoded = e ∷ b.encoded; decoded = d ∷ b.decoded })

  unfoldable pub build : Dict Inner → Dict Value → List Segment → Made Built
  unfolding build_segment
  build types params [] = made no_segments
  build types params (s ∷ ss) =
      then_make (build_segment types params s)
        (λ x. then_make (build types params ss) (add_segment x))

  module _ (match : ℕ → Text → Text → Option Text) where
    abbrev pub reached_as : Target → Option Text → Made Text → Made Text
    reached_as t none p = raised Problem.unfit
    reached_as t (some key) p = if eq_text key t.key then p else raised Problem.reaches_other

    -- `_check_reached`, for the plain path; the escaped one is returned.
    abbrev pub reached : Target → Built → Made Text
    reached t b =
        reached_as t (match t.router (path_from b.decoded) t.method) (made (path_from b.encoded))

    -- `path_for`
    unfoldable pub path_for : Target → Option (List (Param V)) → Dict Value → Made Text
    unfolding expected pattern_segments types_from build
    path_for t everything params =
        let names = expected t.pattern in
        if all_in names params && none_extra params names
        then then_make (build (annotated objects everything) params (pattern_segments t.pattern))
            (reached t)
        else raised Problem.missing_or_extra
