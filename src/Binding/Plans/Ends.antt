-- ===== src/Binding/Plans/Ends.antt =====
-- korvex/_schema.py: what the parameters of a function can add to its plan in `plan_for`.
use korvex.Prelude.{ℕ, Bool, true, false, not, ◌&&◌, ◌||◌, List, Option, none, some, ◌≡◌}
use korvex.Prelude.Lists.{any, is_some}
use korvex.Prelude.Tests.{◌==◌, if◌then◌else◌}
use korvex.Binding.{Scalar, str_type, Source, Param}
use korvex.Binding.Annotations.{
  scalar_type, uploaded_file, none_type, request_type, websocket_type, connection_type, model_type,
  other_type, bare, list_of, Annotation, plain, union, depends, Default, empty, marker_default,
  value_default, Reason, unwrap, key_of, is_scalar, has_library, source_code, Parameter, Marker,
  Planned, planned, refused, no_fuel, then_plan,
}
use korvex.Binding.Slots.{
  Slot, read_slot, dep_slot, no_slot, Place, slot, slot_of, checked, make_param, is_required,
  is_allowed, is_form_model, source_slot, path_slot, other_slot, route_slot, unmarked_as, marked,
  with_marker, request_slot, inner_type,
}
use korvex.Binding.Annotations.{depends}
use korvex.Binding.Annotations.{Default}
use korvex.Binding.{Source}
use korvex.Binding.Slots.{source_slot}
use korvex.Binding.{Text}
use korvex.Binding.Annotations.{marker_default}
use korvex.Binding.Annotations.{Annotation}
use korvex.Binding.Annotations.{value_default}
use korvex.Binding.{Param}
use korvex.Binding.Slots.{is_form_model}
use korvex.Binding.Slots.{path_slot}
use korvex.Binding.Slots.{other_slot}
use korvex.Binding.Slots.{route_slot}
use korvex.Binding.Slots.{checked}
use korvex.Binding.Annotations.{unwrap}
use korvex.Binding.Annotations.{is_scalar}
use korvex.Binding.Annotations.{has_library}
use korvex.Binding.Plans.{find}

abbrev pub is_in : List ℕ → ℕ → Bool
is_in chain f = any (λ g. g == f) chain

module _ {V : Type 0} (fs : List ℕ) where
  -- A dependency that a slot holds is one of the functions.
  abbrev pub SlotIn : Planned (Slot V) → Type 0
  SlotIn (planned (dep_slot d)) = is_in fs d.func ≡ true
  SlotIn (planned (read_slot p)) = Unit
  SlotIn (planned no_slot) = Unit
  SlotIn (refused r) = Unit
  SlotIn no_fuel = ⊥

  SlotIn-if :
      (b : Bool) (x y : Planned (Slot V)) → SlotIn x → SlotIn y → SlotIn (if b then x else y)
  SlotIn-if true x y hx hy = hx
  SlotIn-if false x y hx hy = hy

  abbrev pub MarkerIn : Option (Marker V) → Type 0
  MarkerIn (some (depends f cache)) = is_in fs f ≡ true
  MarkerIn (some (Marker.source kind d alias)) = Unit
  MarkerIn none = Unit

  abbrev pub DefaultIn : Default V → Type 0
  DefaultIn (marker_default m) = MarkerIn (some m)
  DefaultIn Default.empty = Unit
  DefaultIn (value_default v) = Unit

  checked-SlotIn :
      (place : Place V) (kind : Source) (is_list : Bool) (inner : Annotation) (p : Param V)
      → SlotIn (checked place kind is_list inner p)
  checked-SlotIn place kind is_list inner p =
      SlotIn-if (not (is_allowed kind inner)) (refused Reason.bad_type) _ tt (
        SlotIn-if (source_code kind == 3 && is_list) (refused Reason.cookie_list) _ tt (
          SlotIn-if (source_code kind == 4 && place.websocket) (refused Reason.form_in_websocket)
            (planned (read_slot p)) tt tt))

  source_slot-SlotIn :
      (place : Place V) (name : Text) (kind : Source) (alias : Option Text) (tp : Option Annotation)
      (d : Option V)
      → SlotIn (source_slot place name kind alias tp d)
  unfolding source_slot
  source_slot-SlotIn place name kind alias none d =
      checked-SlotIn place kind false (plain (bare (scalar_type str_type))) (
        make_param place.nothing name kind (some (plain (bare (scalar_type str_type))))
          (not (is_some d)) d (key_of alias kind name))
  source_slot-SlotIn place name kind alias (some tp) d =
      SlotIn-if (is_form_model kind (unwrap tp)) _ _
        (SlotIn-if place.websocket (refused Reason.form_in_websocket) (planned (read_slot _)) tt tt)
        (checked-SlotIn place kind (unwrap tp).is_list (unwrap tp).inner (
          make_param place.nothing name kind (some tp) (is_required d (some tp)) d
            (key_of alias kind name)))

  path_slot-SlotIn :
      (place : Place V) (name : Text) (tp : Option Annotation) (given : Scalar)
      → SlotIn (path_slot place name tp given)
  path_slot-SlotIn place name none given =
      SlotIn-if place.handler (planned no_slot) (planned (read_slot _)) tt tt
  path_slot-SlotIn place name (some tp) given =
      SlotIn-if (not (is_scalar (unwrap tp).inner)) (refused Reason.bad_path_type) _ tt
        (SlotIn-if _ (planned (read_slot _)) (planned no_slot) tt tt)

  other_slot-SlotIn :
      (place : Place V) (name : Text) (tp : Option Annotation) (d : Option V)
      → SlotIn (other_slot place name tp d)
  other_slot-SlotIn place name none none = tt
  other_slot-SlotIn place name none (some v) = tt
  other_slot-SlotIn place name (some tp) d =
      SlotIn-if (has_library tp || ((unwrap tp).optional && has_library (unwrap tp).inner)) _ _
        (SlotIn-if place.websocket (refused Reason.body_in_websocket) (planned (read_slot _)) tt tt)
        (SlotIn-if (is_scalar (unwrap tp).inner) (planned (read_slot _))
          (refused Reason.unknown_source) tt tt)

  route_slot-SlotIn :
      (place : Place V) (name : Text) (tp : Option Annotation) (d : Option V) (o : Option Scalar)
      → SlotIn (route_slot place name tp d o)
  route_slot-SlotIn place name tp d none = other_slot-SlotIn place name tp d
  route_slot-SlotIn place name tp d (some given) = path_slot-SlotIn place name tp given

  named_slot-SlotIn :
      (place : Place V) (name : Text) (tp : Option Annotation) (d : Option V) (b : Bool)
      → SlotIn (
          if b
          then request_slot place name none
          else route_slot place name tp d (find name place.route_params))
  named_slot-SlotIn place name tp d b =
      SlotIn-if b (request_slot place name none) _ tt
        (route_slot-SlotIn place name tp d (find name place.route_params))

  unmarked-SlotIn :
      (place : Place V) (name : Text) (tp : Option Annotation) (d : Option V)
      (inner : Option Annotation)
      → SlotIn (unmarked_as place name tp d inner)
  unmarked-SlotIn place name tp d (some (plain (bare websocket_type))) =
      SlotIn-if place.websocket (request_slot place name tp) (refused Reason.wants_websocket) tt tt
  unmarked-SlotIn place name tp d (some (plain (bare request_type))) =
      SlotIn-if place.websocket (refused Reason.wants_request) (request_slot place name tp) tt tt
  unmarked-SlotIn place name tp d (some (plain (bare connection_type))) = tt
  unmarked-SlotIn place name tp d (some (plain (bare (scalar_type s)))) =
      named_slot-SlotIn place name tp d _
  unmarked-SlotIn place name tp d (some (plain (bare uploaded_file))) =
      named_slot-SlotIn place name tp d _
  unmarked-SlotIn place name tp d (some (plain (bare none_type))) =
      named_slot-SlotIn place name tp d _
  unmarked-SlotIn place name tp d (some (plain (bare (model_type m)))) =
      named_slot-SlotIn place name tp d _
  unmarked-SlotIn place name tp d (some (plain (bare (other_type m)))) =
      named_slot-SlotIn place name tp d _
  unmarked-SlotIn place name tp d (some (plain (list_of b))) = named_slot-SlotIn place name tp d _
  unmarked-SlotIn place name tp d (some (union hs)) = named_slot-SlotIn place name tp d _
  unmarked-SlotIn place name tp d none = named_slot-SlotIn place name tp d _

  -- What says where a parameter comes from depends on one of the functions.
  abbrev MarkedIn : Planned (Option (Marker V) × Option V) → Type 0
  MarkedIn (planned (m, d)) = MarkerIn m
  MarkedIn (refused r) = Unit
  MarkedIn no_fuel = ⊥

  with_marker-MarkedIn :
      (m : Marker V) (d : Option V) → MarkerIn (some m) → MarkedIn (with_marker m d)
  with_marker-MarkedIn (Marker.source kind none alias) d h = tt
  with_marker-MarkedIn (Marker.source kind (some v) alias) none h = tt
  with_marker-MarkedIn (Marker.source kind (some v) alias) (some w) h = tt
  with_marker-MarkedIn (depends f cache) d h = h

  marked-MarkedIn :
      (m : Option (Marker V)) (d : Default V) → MarkerIn m → DefaultIn d → MarkedIn (marked m d)
  unfolding marked
  marked-MarkedIn (some m) (marker_default n) h k = tt
  marked-MarkedIn (some m) empty h k = with_marker-MarkedIn m none h
  marked-MarkedIn (some m) (value_default v) h k = with_marker-MarkedIn m (some v) h
  marked-MarkedIn none (marker_default n) h k = with_marker-MarkedIn n none k
  marked-MarkedIn none empty h k = tt
  marked-MarkedIn none (value_default v) h k = tt

  slot_of-SlotIn :
      (place : Place V) (name : Text) (tp : Option Annotation) (m : Option (Marker V))
      (d : Option V)
      → MarkerIn m
      → SlotIn (slot_of place name tp (m, d))
  unfolding slot_of
  slot_of-SlotIn place name tp (some (depends f cache)) d h = h
  slot_of-SlotIn place name tp (some (Marker.source kind e alias)) d h =
      source_slot-SlotIn place name kind alias tp d
  slot_of-SlotIn place name tp none d h = unmarked-SlotIn place name tp d (inner_type tp)

  then_slot-SlotIn :
      (place : Place V) (name : Text) (tp : Option Annotation)
      (m : Planned (Option (Marker V) × Option V))
      → MarkedIn m
      → SlotIn (then_plan m (slot_of place name tp))
  then_slot-SlotIn place name tp (planned (m, d)) h = slot_of-SlotIn place name tp m d h
  then_slot-SlotIn place name tp (refused r) h = tt
  then_slot-SlotIn place name tp no_fuel h = h

  abbrev pub ParameterIn : Parameter V → Type 0
  ParameterIn p = MarkerIn p.marker × DefaultIn p.default

  pub slot-SlotIn : (place : Place V) (p : Parameter V) → ParameterIn p → SlotIn (slot place p)
  unfolding slot
  slot-SlotIn place p (h, k) = SlotIn-if p.catch_all (planned no_slot) _ tt (
      then_slot-SlotIn place p.name p.tp (marked p.marker p.default)
        (marked-MarkedIn p.marker p.default h k))
