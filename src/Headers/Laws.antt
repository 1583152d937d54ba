-- ===== src/Headers/Laws.antt =====
-- What a header reads after each operation of `Headers`, for every name and every case of it.
use korvex.Prelude.{◌≡◌, refl, true, List, [], ◌∷◌, ◌++◌, arith}
use mathlib.Core.List.{append-nil}
use korvex.Prelude.Tests.{if◌then◌else◌}
use korvex.Prelude.Text.{Text, eq_text_refl, eq_text_sound, lower, lower_idem}
use korvex.Headers.{Headers, same_name, values_of, without, get_all, set, remove, add}
use korvex.Headers.{get}
use korvex.Headers.{head?}
use korvex.Headers.{contains}
use korvex.Headers.{some}
use korvex.Headers.{none}
use korvex.Headers.{is_some}
use korvex.Headers.{false}

pub same_name_refl : (n : Text) → same_name n n ≡ true
unfolding same_name
same_name_refl n = eq_text_refl (lower n)

-- A name in any case is the same name.
pub same_name-lower : (n : Text) → same_name (lower n) n ≡ true
unfolding same_name
same_name-lower n = rw lower_idem (eq_text_refl (lower n))

pub same_name_left : (n m k : Text) → same_name n m ≡ true → same_name n k ≡ same_name m k
unfolding same_name
same_name_left n m k h = rw (eq_text_sound (lower n) (lower m) h)

pub same_name_right : (n m k : Text) → same_name n m ≡ true → same_name k n ≡ same_name k m
unfolding same_name
same_name_right n m k h = rw (eq_text_sound (lower n) (lower m) h)

values_of-append :
    (name : Text) (xs ys : List (Text × Text))
    → values_of name (xs ++ ys) ≡ values_of name xs ++ values_of name ys
unfolding values_of
values_of-append name [] ys = refl
values_of-append name ((n, v) ∷ xs) ys = ground (arith, values_of-append name xs ys)

values_of-without :
    (n m : Text) (xs : List (Text × Text))
    → values_of m (without n xs) ≡ (if same_name n m then [] else values_of m xs)
unfolding values_of without
values_of-without n m [] = ground arith
values_of-without n m ((k, v) ∷ xs) =
    ground (arith, values_of-without n m xs, same_name_left k n m, same_name_right n m k)

-- Every value of `m` after `h.remove(n)`.
pub get_all-remove :
    (h : Headers) (n m : Text)
    → get_all (remove h n) m ≡ (if same_name n m then [] else get_all h m)
unfolding get_all remove
get_all-remove h n m = values_of-without n m h.items

-- Every value of `m` after `h.add(n, v)`.
pub get_all-add :
    (h : Headers) (n v m : Text)
    → get_all (add h n v) m ≡ get_all h m ++ (if same_name n m then v ∷ [] else [])
unfolding get_all add values_of
get_all-add h n v m = values_of-append m h.items ((n, v) ∷ [])

-- Every value of `m` after `h.set(n, v)`.
pub get_all-set :
    (h : Headers) (n v m : Text)
    → get_all (set h n v) m ≡ (if same_name n m then v ∷ [] else get_all h m)
unfolding get_all set values_of
get_all-set h n v m = ground (
  arith,
  values_of-append m (without n h.items) ((n, v) ∷ []),
  values_of-without n m h.items,
  append-nil (values_of m h.items),
)

pub get-set :
    (h : Headers) (n v m : Text) → get (set h n v) m ≡ (if same_name n m then some v else get h m)
unfolding get
get-set h n v m = ground (arith, get_all-set h n v m)

pub get-remove :
    (h : Headers) (n m : Text) → get (remove h n) m ≡ (if same_name n m then none else get h m)
unfolding get
get-remove h n m = ground (arith, get_all-remove h n m)

head?-append {ℓ} :
    {A : Type ℓ} (xs ys : List A)
    → head? (xs ++ ys) ≡ (if is_some (head? xs) then head? xs else head? ys)
head?-append [] ys = refl
head?-append (x ∷ xs) ys = refl

-- An added value is read only where there was none.
pub get-add :
    (h : Headers) (n v m : Text)
    → get (add h n v) m ≡ (if contains h m then get h m else if same_name n m then some v else none)
unfolding get contains
get-add h n v m =
    rw (get_all-add h n v m, head?-append (get_all h m) (if same_name n m then v ∷ [] else []))
      (ground arith)

pub contains-set :
    (h : Headers) (n v m : Text)
    → contains (set h n v) m ≡ (if same_name n m then true else contains h m)
unfolding contains
contains-set h n v m = ground (arith, get-set h n v m)

pub contains-add :
    (h : Headers) (n v m : Text)
    → contains (add h n v) m ≡ (if same_name n m then true else contains h m)
unfolding contains
contains-add h n v m = ground (arith, get-add h n v m)

-- `name in headers` says whether there is a value.
pub get_of_not_contains : (h : Headers) (m : Text) → contains h m ≡ false → get h m ≡ none
unfolding contains
get_of_not_contains h m e = ground arith

pub ruleset header_laws = (
  get_all-set, get_all-remove, get_all-add, get-set, get-remove, get-add, contains-set,
  contains-add,
)
