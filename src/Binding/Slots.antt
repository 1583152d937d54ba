-- ===== src/Binding/Slots.antt =====
-- korvex/_schema.py: the loop of `plan_for` over the parameters of a function: where each comes from, by its
-- marker, its class, its name or its type, and what is refused with TypeError.
use korvex.Prelude.{ℕ, Bool, true, false, not, ◌&&◌, ◌||◌, List, [], ◌∷◌, Option, none, some}
use korvex.Prelude.Dict.{Dict, find}
use korvex.Prelude.Lists.{any, is_some}
use korvex.Prelude.Tests.{◌==◌, if◌then◌else◌}
use korvex.Prelude.Text.{Text, codes, eq_text}
use korvex.Binding.{Scalar, str_type, Inner, scalar, Param, Source}
use korvex.Binding.Reading.{Dep}
use korvex.Binding.Annotations.{
  scalar_type, uploaded_file, request_type, websocket_type, connection_type, bare, Annotation,
  plain, Marker, depends, Default, empty, marker_default, value_default, Parameter, Reason, Planned,
  planned, refused, then_plan, Unwrapped, unwrap, has_library, model_of, is_scalar, inner_of,
  source_code, key_of,
}
use korvex.Binding.Annotations.{is_scalar_of}

-- What a parameter adds to the plan.
pub data Slot (V : Type 0) : Type 0 where
  read_slot : Param V → Slot V
  dep_slot : Dep → Slot V
  no_slot : Slot V

-- What the route gives: `websocket` and `handler` are the arguments of `plan_for`, and `nothing` is None.
pub record Place (V : Type 0) : Type 0 where
  pub route_params : Dict Scalar
  pub websocket : Bool
  pub handler : Bool
  pub nothing : V

-- The bare type of an annotation that is one, after `_unwrap`.
abbrev pub is_allowed : Source → Annotation → Bool
is_allowed kind (plain (bare (scalar_type s))) = true
is_allowed kind (plain (bare uploaded_file)) = source_code kind == 4
is_allowed kind _ = false

abbrev pub is_optional : Option Unwrapped → Bool
is_optional none = false
is_optional (some u) = u.optional

abbrev pub unwrapped : Option Annotation → Option Unwrapped
unwrapped none = none
unwrapped (some tp) = some (unwrap tp)

-- A model that is filled from a form's fields.
abbrev pub is_form_model : Source → Unwrapped → Bool
is_form_model kind u = source_code kind == 4 && (not u.is_list && has_library u.inner)

abbrev pub request_names : Bool → List Text
request_names websocket =
    if websocket
    then codes "request" ∷ codes "websocket" ∷ codes "ws" ∷ []
    else codes "request" ∷ []

abbrev pub inner_type : Option Annotation → Option Annotation
inner_type none = none
inner_type (some tp) = some ((unwrap tp).inner)

abbrev pub unwrapped_param : Option Annotation → Inner × Bool × ℕ
unwrapped_param none = (scalar str_type, false, 0)
unwrapped_param (some tp) = (inner_of ((unwrap tp).inner), (unwrap tp).is_list, model_of tp)

abbrev pub or_default {ℓ} : {A : Type ℓ} → A → Option A → A
or_default a none = a
or_default a (some b) = b

module _ {V : Type 0} where
  -- `marker.default is not REQUIRED`: the marker, and the default.
  abbrev pub with_marker : Marker V → Option V → Planned (Option (Marker V) × Option V)
  with_marker (Marker.source kind none alias) d = planned (some (Marker.source kind none alias), d)
  with_marker (Marker.source kind (some v) alias) none =
      planned (some (Marker.source kind (some v) alias), some v)
  with_marker (Marker.source kind (some v) alias) (some w) = refused Reason.two_defaults
  with_marker (depends f cache) d = planned (some (depends f cache), d)

  abbrev pub with_option : Option (Marker V) → Option V → Planned (Option (Marker V) × Option V)
  with_option none d = planned (none, d)
  with_option (some m) d = with_marker m d

  -- A parameter's marker and default, of its annotation or of its default.
  unfoldable pub marked : Option (Marker V) → Default V → Planned (Option (Marker V) × Option V)
  marked (some m) (marker_default n) = refused Reason.two_sources
  marked none (marker_default m) = with_marker m none
  marked m empty = with_option m none
  marked m (value_default v) = with_option m (some v)

  -- `_param`, with what `_unwrap` gives
  unfoldable pub make_param :
      V → Text → Source → Option Annotation → Bool → Option V → Text → Param V
  unfolding unwrap
  make_param nothing name kind tp required d key =
      let u : Inner × Bool × ℕ = unwrapped_param tp in
      record {
        name = name;
        source = kind;
        required = required;
        default = or_default nothing d;
        key = key;
        inner = u.0;
        many = u.1;
        model = u.2;
      }

  -- not (has_default or optional)
  abbrev pub is_required : Option V → Option Annotation → Bool
  is_required d tp = not (is_some d || is_optional (unwrapped tp))

  -- The checks of a parameter with a marker that says its source, in order.
  abbrev pub checked : Place V → Source → Bool → Annotation → Param V → Planned (Slot V)
  checked place kind is_list inner p =
      if not (is_allowed kind inner)
      then refused Reason.bad_type
      else if source_code kind == 3 && is_list
      then refused Reason.cookie_list
      else if source_code kind == 4 && place.websocket
      then refused Reason.form_in_websocket
      else planned (read_slot p)

  unfoldable pub source_slot :
      Place V → Text → Source → Option Text → Option Annotation → Option V → Planned (Slot V)
  unfolding unwrap has_library make_param key_of
  source_slot place name kind alias none d =
      let p =
        make_param place.nothing name kind (some (plain (bare (scalar_type str_type))))
          (not (is_some d)) d (key_of alias kind name) in
      checked place kind false (plain (bare (scalar_type str_type))) p
  source_slot place name kind alias (some tp) d =
      let u = unwrap tp in
      let required = is_required d (some tp) in
      if is_form_model kind u
      then (if place.websocket
          then refused Reason.form_in_websocket
          else planned (
              read_slot
                (make_param place.nothing name Source.form_model (some u.inner) required d name)))
      else checked place kind u.is_list u.inner
          (make_param place.nothing name kind (some tp) required d (key_of alias kind name))

  abbrev pub request_slot : Place V → Text → Option Annotation → Planned (Slot V)
  request_slot place name tp =
      planned (read_slot (make_param place.nothing name Source.request tp true none name))

  -- A parameter of the route, which a handler gets anyway unless it has to be converted.
  abbrev pub path_slot : Place V → Text → Option Annotation → Scalar → Planned (Slot V)
  path_slot place name none given =
      if place.handler
      then planned no_slot
      else planned (
          read_slot (
            make_param place.nothing name Source.path (some (plain (bare (scalar_type given)))) true
              none name))
  path_slot place name (some tp) given =
      let inner = (unwrap tp).inner in
      if not (is_scalar inner)
      then refused Reason.bad_path_type
      else if not place.handler
          || (not (is_scalar_of given inner) && not (is_scalar_of str_type inner))
      then planned (read_slot (make_param place.nothing name Source.path (some tp) true none name))
      else planned no_slot

  -- A model in the body, a scalar in the query string, or what cannot be told.
  abbrev pub other_slot : Place V → Text → Option Annotation → Option V → Planned (Slot V)
  other_slot place name none none = refused Reason.unknown_source
  other_slot place name none (some v) = planned no_slot
  other_slot place name (some tp) d =
      let u = unwrap tp in
      let required = is_required d (some tp) in
      if has_library tp || (u.optional && has_library u.inner)
      then (if place.websocket
          then refused Reason.body_in_websocket
          else planned (
              read_slot (
                make_param place.nothing name Source.body
                  (some (if has_library tp then tp else u.inner)) required d (codes "body"))))
      else if is_scalar u.inner
      then planned
          (read_slot (make_param place.nothing name Source.query (some tp) required d name))
      else refused Reason.unknown_source

  abbrev pub route_slot :
      Place V → Text → Option Annotation → Option V → Option Scalar → Planned (Slot V)
  route_slot place name tp d none = other_slot place name tp d
  route_slot place name tp d (some given) = path_slot place name tp given

  -- By the class of the annotation, by the parameter's name, or else.
  abbrev pub unmarked_as :
      Place V → Text → Option Annotation → Option V → Option Annotation → Planned (Slot V)
  unmarked_as place name tp d (some (plain (bare websocket_type))) =
      if place.websocket then request_slot place name tp else refused Reason.wants_websocket
  unmarked_as place name tp d (some (plain (bare request_type))) =
      if place.websocket then refused Reason.wants_request else request_slot place name tp
  unmarked_as place name tp d (some (plain (bare connection_type))) = request_slot place name tp
  unmarked_as place name tp d _ =
      if not (is_some tp) && (not (is_some d) && any (eq_text name) (request_names place.websocket))
      then request_slot place name none
      else route_slot place name tp d (find name place.route_params)

  unfoldable pub slot_of :
      Place V → Text → Option Annotation → Option (Marker V) × Option V → Planned (Slot V)
  unfolding source_slot unwrap has_library make_param
  slot_of place name tp (some (depends f cache), d) =
      planned (dep_slot (record { name = some name; func = f; cache = cache }))
  slot_of place name tp (some (Marker.source kind e alias), d) =
      source_slot place name kind alias tp d
  slot_of place name tp (none, d) = unmarked_as place name tp d (inner_type tp)

  -- The body of the loop over the parameters.
  unfoldable pub slot : Place V → Parameter V → Planned (Slot V)
  unfolding marked slot_of
  slot place p =
      if p.catch_all
      then planned no_slot
      else then_plan (marked p.marker p.default) (slot_of place p.name p.tp)
