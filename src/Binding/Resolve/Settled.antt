-- ===== src/Binding/Resolve/Settled.antt =====
-- korvex/_schema.py: what each step of `Plan.bind` leaves of a parameter: an argument, or an error.
use korvex.Prelude.{
  Bool, true, false, not, ◌||◌, List, [], ◌∷◌, ◌++◌, Option, none, some, ◌≡◌, refl, arith,
}
use korvex.Prelude.Dict.{Dict, find-put, contains_key}
use korvex.Prelude.Lists.{All, All-append, is_nil}
use korvex.Prelude.Tests.{Bool-cases}
use korvex.Prelude.Text.{Text, eq_text_refl}
use korvex.Errors.{FieldError}
use korvex.Binding.{
  Param, Objects, Raw, Args, gives, fails, take, take_as, converted, missing_error, invalid,
}
use korvex.Binding.Reading.{Read, got, raised, Plan, Decoded, decoded, refused, then_read}
use korvex.Binding.Resolve.{Result, ok, failed, exhausted, Run, and_then, finish, finished}
use korvex.Prelude.{inl}
use korvex.Prelude.{inr}

abbrev pub names_of : {V : Type 0} → List (Param V) → List Text
names_of [] = []
names_of (p ∷ ps) = p.name ∷ names_of ps

pub names_of-nil : {V : Type 0} (ps : List (Param V)) → is_nil ps ≡ true → names_of ps ≡ []
names_of-nil [] h = refl
names_of-nil (p ∷ ps) h = cc

abbrev pub name_of : {V : Type 0} → Option (Param V) → List Text
name_of none = []
name_of (some p) = p.name ∷ []

pub is_nil-append {ℓ} :
    {A : Type ℓ} (xs : List A) (x : A) (ys : List A) → is_nil (xs ++ x ∷ ys) ≡ false
is_nil-append [] x ys = refl
is_nil-append (z ∷ xs) x ys = refl

-- The names of the parameters that read the request, in the order in which they are bound.
unfoldable pub read_names : {V : Type 0} → Plan V → List Text
read_names plan =
    names_of plan.path
    ++ ((names_of plan.query ++ (names_of plan.headers ++ names_of plan.cookies))
        ++ ((names_of plan.form_models ++ names_of plan.form)
            ++ (name_of plan.body ++ plan.request)))

module _ {V : Type 0} where
  -- An argument is there, or an error.
  abbrev pub settled : Text → Args V → Bool
  settled name a = contains_key name a.kwargs || not (is_nil a.errors)

  abbrev pub AllSettled : Args V → List Text → Type 0
  AllSettled a names = All (λ name. settled name a ≡ true) names

  pub record Extends (names : List Text) (a b : Args V) : Type 0 where
    pub stays : (name : Text) → settled name a ≡ true → settled name b ≡ true
    pub adds : AllSettled b names

  pub Extends-refl : (a : Args V) → Extends [] a a
  Extends-refl a = record { stays = λ name h. h; adds = tt }

  pub AllSettled-stays :
      (a b : Args V) (names : List Text)
      → ((name : Text) → settled name a ≡ true → settled name b ≡ true)
      → AllSettled a names
      → AllSettled b names
  AllSettled-stays a b [] f h = tt
  AllSettled-stays a b (name ∷ names) f (h, hs) = (f name h, AllSettled-stays a b names f hs)

  pub Extends-trans :
      (xs ys : List Text) (a b c : Args V)
      → Extends xs a b
      → Extends ys b c
      → Extends (xs ++ ys) a c
  Extends-trans xs ys a b c p q = record {
    stays = λ name h. q.stays name (p.stays name h);
    adds =
        All-append (λ name. settled name c ≡ true) xs ys (AllSettled-stays b c xs q.stays p.adds)
          q.adds;
  }

  pub gives-Extends : (name : Text) (v : V) (a : Args V) → Extends (name ∷ []) a (gives name v a)
  unfolding gives contains_key
  gives-Extends name v a = record {
    stays = λ j h. ground (arith, find-put name j v a.kwargs, h);
    adds = (ground (arith, find-put name name v a.kwargs, eq_text_refl name), tt);
  }

  pub fails-Extends :
      (name : Text) (e : FieldError) (es : List FieldError) (a : Args V)
      → Extends (name ∷ []) a (fails (e ∷ es) a)
  unfolding fails
  fails-Extends name e es a =
      let more : is_nil (a.errors ++ e ∷ es) ≡ false = is_nil-append a.errors e es in
      record { stays = λ j h. ground (arith, h, more); adds = (ground (arith, more), tt) }

  abbrev pub AllGiven : List Text → Result (Dict V) → Type 0
  AllGiven names (ok kwargs) = All (λ name. contains_key name kwargs ≡ true) names
  AllGiven names (failed e) = Unit
  AllGiven names exhausted = Unit

  pub AllSettled-given :
      (a : Args V) (names : List Text)
      → is_nil a.errors ≡ true
      → AllSettled a names
      → All (λ name. contains_key name a.kwargs ≡ true) names
  AllSettled-given a [] e h = tt
  AllSettled-given a (name ∷ names) e (h, hs) =
      (ground (arith, e, h), AllSettled-given a names e hs)

  pub finish-AllGiven :
      (names : List Text) (a : Args V) → AllSettled a names → AllGiven names (finish a)
  unfolding finish
  finish-AllGiven names a h = elim (Bool-cases (is_nil a.errors)) [
    | inl e ↦ rw (e, finish) (AllSettled-given a names e h)
    | inr e ↦ rw (e, finish) tt
  ]

  pub and_then-AllGiven :
      {W : Type 0} (names : List Text) (s : Result (Args V) × Run V W)
      (f : Args V → Run V W → Result (Dict V) × Run V W)
      → ((a : Args V) (run : Run V W) → AllGiven names ((f a run).0))
      → AllGiven names ((and_then s f).0)
  and_then-AllGiven names (ok a, run) f h = h a run
  and_then-AllGiven names (failed e, run) f h = tt
  and_then-AllGiven names (exhausted, run) f h = tt

  -- A library that refuses a value gives an error.
  abbrev pub SaysWhy : Decoded V → Type 0
  SaysWhy (decoded v) = Unit
  SaysWhy (refused []) = ⊥
  SaysWhy (refused (e ∷ es)) = Unit

  abbrev pub ReadExtends : List Text → Args V → Read (Args V) → Type 0
  ReadExtends names a (got b) = Extends names a b
  ReadExtends names a (raised e) = Unit

  pub finished-AllGiven :
      (names : List Text) (a : Args V) (r : Read (Args V))
      → ReadExtends names a r
      → AllGiven names (finished r)
  finished-AllGiven names a (got b) h = finish-AllGiven names b h.adds
  finished-AllGiven names a (raised e) h = tt

  pub after-Extends :
      (xs ys : List Text) (a b : Args V) (r : Read (Args V))
      → Extends xs a b
      → ReadExtends ys b r
      → ReadExtends (xs ++ ys) a r
  after-Extends xs ys a b (got c) p q = Extends-trans xs ys a b c p q
  after-Extends xs ys a b (raised e) p q = tt

  pub then_read-Extends :
      (xs ys : List Text) (a : Args V) (r : Read (Args V)) (f : Args V → Read (Args V))
      → ReadExtends xs a r
      → ((b : Args V) → ReadExtends ys b (f b))
      → ReadExtends (xs ++ ys) a (then_read r f)
  then_read-Extends xs ys a (got b) f h hf = after-Extends xs ys a b (f b) h (hf b)
  then_read-Extends xs ys a (raised e) f h hf = tt

  pub then_raw-Extends :
      {A : Type 0} (names : List Text) (a : Args V) (r : Read A) (f : A → Read (Args V))
      → ((x : A) → ReadExtends names a (f x))
      → ReadExtends names a (then_read r f)
  then_raw-Extends names a (got x) f h = h x
  then_raw-Extends names a (raised e) f h = tt

  module _ (objects : Objects V) where
    pub take_as-Extends :
        (p : Param V) (o : Option V) (a : Args V) → Extends (p.name ∷ []) a (take_as objects p o a)
    take_as-Extends p none a = fails-Extends p.name (invalid p) [] a
    take_as-Extends p (some v) a = gives-Extends p.name v a

    pub take-Extends :
        (p : Param V) (rs : List Raw) (a : Args V) → Extends (p.name ∷ []) a (take objects p rs a)
    unfolding take
    take-Extends p [] a = elim (Bool-cases p.required) [
      | inl e ↦ rw (e, take) (fails-Extends p.name (missing_error p) [] a)
      | inr e ↦ rw (e, take) (gives-Extends p.name p.default a)
    ]
    take-Extends p (r ∷ rs) a = take_as-Extends p (converted objects p r rs) a
