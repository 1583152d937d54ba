-- ===== src/Binding/Forms.antt =====
-- korvex/_schema.py: the raw values of a request, and what `Model.from_form` takes of a form's fields before a
-- library is called.
use korvex.Prelude.{Bool, true, false, not, ◌||◌, List, [], ◌∷◌, Option, none, some}
use korvex.Prelude.Dict.{Dict, put}
use korvex.Prelude.Lists.{keep_if}
use korvex.Prelude.Tests.{if◌then◌else◌}
use korvex.Prelude.Text.{Text, is_empty, lower}
use korvex.Request.MultiDict
use korvex.Request.MultiDict.{MultiDict}
use korvex.Binding.{str_type, bool_type, Inner, scalar, file, Raw, text, upload, is_true, is_false}
use korvex.Prelude.Lists.{is_nil}

-- What a form's field gives a model: text, a file, a Boolean, or the list of all its values.
pub data Item : Type 0 where
  single : Raw → Item
  flag : Bool → Item

pub data Datum : Type 0 where
  one : Item → Datum
  several : List Item → Datum

abbrev pub texts : List Text → List Raw
texts [] = []
texts (s ∷ ss) = text s ∷ texts ss

abbrev pub none_or_one : Option Text → List Raw
none_or_one none = []
none_or_one (some s) = text s ∷ []

-- v != ""
abbrev pub is_given : Raw → Bool
is_given (text s) = not (is_empty s)
is_given (upload f) = true

-- The values of a form's field, where an empty one counts only as text or as a file.
abbrev pub form_values : Inner → List Raw → List Raw
form_values (scalar str_type) rs = rs
form_values file rs = rs
form_values (scalar tp) rs = keep_if is_given rs

-- `_lenient_bool`
unfoldable pub lenient_bool : Raw → Item
unfolding is_true is_false
lenient_bool (upload f) = single (upload f)
lenient_bool (text s) =
    if is_true (lower s)
    then flag true
    else if is_false (lower s)
    then flag false
    else single (text s)

abbrev pub item : Inner → Raw → Item
item (scalar bool_type) r = lenient_bool r
item _ r = single r

abbrev pub items_of : Inner → List Raw → List Item
items_of tp [] = []
items_of tp (r ∷ rs) = item tp r ∷ items_of tp rs

-- Of a field's annotation, only `str` keeps the empty values.
abbrev pub model_values : Inner → List Raw → List Raw
model_values (scalar str_type) rs = rs
model_values _ rs = keep_if is_given rs

abbrev pub put_datum : Text → Bool → List Item → Dict Datum → Dict Datum
put_datum key many [] d = d
put_datum key true (x ∷ xs) d = put key (several (x ∷ xs)) d
put_datum key false (x ∷ xs) d = put key (one x) d

-- `Model.from_form`, before the library is called.
unfoldable pub form_data : List (Text × Inner × Bool) → MultiDict Raw → Dict Datum → Dict Datum
unfolding lenient_bool MultiDict.get_all
form_data [] f d = d
form_data ((key, tp, many) ∷ fields) f d =
    form_data fields f
      (put_datum key many (items_of tp (model_values tp (MultiDict.get_all f key))) d)

-- any(form.get_all(key) for key, _ in model._fields())
unfoldable pub any_sent : List (Text × Inner × Bool) → MultiDict Raw → Bool
unfolding MultiDict.get_all
any_sent [] f = false
any_sent ((key, tp, many) ∷ fields) f = not (is_nil (MultiDict.get_all f key)) || any_sent fields f
