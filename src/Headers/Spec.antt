-- ===== src/Headers/Spec.antt =====
-- What `Headers` promises: for each name, whatever its case, the list of its values. A run of
-- operations on the items of the class is compared with a run on that list alone.
use korvex.Prelude.{◌≡◌, refl, List, [], ◌∷◌, ◌++◌}
use korvex.Prelude.Tests.{if◌then◌else◌}
use korvex.Prelude.Text.{Text}
use korvex.Headers.{Headers, same_name, get_all, set, remove, add}
use korvex.Headers.Laws.{get_all-set, get_all-remove, get_all-add}

-- A call of one of the three methods that change a `Headers`.
pub data Edit : Type 0 where
  setting : Text → Text → Edit
  removing : Text → Edit
  adding : Text → Text → Edit

abbrev pub apply : Edit → Headers → Headers
apply (setting n v) h = set h n v
apply (removing n) h = remove h n
apply (adding n v) h = add h n v

abbrev pub run : List Edit → Headers → Headers
run [] h = h
run (e ∷ es) h = run es (apply e h)

-- The same call, on the values of the one name `m`.
abbrev pub apply_at : Text → Edit → List Text → List Text
apply_at m (setting n v) vs = if same_name n m then v ∷ [] else vs
apply_at m (removing n) vs = if same_name n m then [] else vs
apply_at m (adding n v) vs = vs ++ (if same_name n m then v ∷ [] else [])

abbrev pub run_at : Text → List Edit → List Text → List Text
run_at m [] vs = vs
run_at m (e ∷ es) vs = run_at m es (apply_at m e vs)

get_all-apply :
    (e : Edit) (h : Headers) (m : Text) → get_all (apply e h) m ≡ apply_at m e (get_all h m)
get_all-apply (setting n v) h m = get_all-set h n v m
get_all-apply (removing n) h m = get_all-remove h n m
get_all-apply (adding n v) h m = get_all-add h n v m

-- After any sequence of `set`, `remove` and `add` calls on any headers, `get_all` of any name gives
-- what the same sequence gives on the list of that name's values: `set` puts one value in place of
-- all, `remove` takes all away, `add` puts one behind, each in any case of the name, and calls for
-- other names change nothing.
pub get_all-run :
    (es : List Edit) (h : Headers) (m : Text) → get_all (run es h) m ≡ run_at m es (get_all h m)
get_all-run [] h m = refl
get_all-run (e ∷ es) h m = rw (get_all-run es (apply e h) m) (rw (get_all-apply e h m))
