-- ===== src/Binding/Reading.antt =====
-- korvex/_schema.py: what `Plan.bind` reads of the request for the parameters of a plan, after its
-- dependencies: the loops over the sources, in order, and `Model.from_form`. The models' libraries are
-- the parameter `Models`. A path parameter is a scalar, as `plan_for` makes it.
use korvex.Prelude.{ℕ, Bool, true, not, ◌&&◌, ◌||◌, List, [], ◌∷◌, Option, none, some}
use korvex.Prelude.Dict.{Dict, find}
use korvex.Prelude.Tests.{◌==◌, if◌then◌else◌}
use korvex.Prelude.Text.{Text, codes, is_empty}
use korvex.Headers
use korvex.Headers.{Headers}
use korvex.Errors.{FieldError, Exn, other, exception}
use korvex.Request.{Value}
use korvex.Request.MultiDict
use korvex.Request.MultiDict.{MultiDict}
use korvex.Binding.{Inner, Param, Objects, Raw, Args, gives, fails, take, path_argument}
use korvex.Prelude.Tests.{leb}
use korvex.Binding.{take_as}
use korvex.Prelude.Lists.{is_nil}
use korvex.Binding.Forms.{Datum, texts, none_or_one, form_values, form_data, any_sent}

-- What reading the request does.
pub data Read {ℓ} (A : Type ℓ) : Type ℓ where
  got : A → Read A
  raised : Exn → Read A

-- A model's decoding of a body, or of what a form's fields give.
pub data Decoded (V : Type 0) : Type 0 where
  decoded : V → Decoded V
  refused : List FieldError → Decoded V

-- `Dep`
pub record Dep : Type 0 where
  pub name : Option Text
  pub func : ℕ
  pub cache : Bool

-- `Plan`: the parameters of each source, and whether the function is a generator.
pub record Plan (V : Type 0) : Type 0 where
  pub dependencies : List Dep
  pub path : List (Param V)
  pub query : List (Param V)
  pub headers : List (Param V)
  pub cookies : List (Param V)
  pub form : List (Param V)
  pub form_models : List (Param V)
  pub body : Option (Param V)
  pub request : List Text
  pub generator : Bool

-- What a plan reads of a request. `form` is what `request.form()` gives.
pub record Input (V : Type 0) : Type 0 where
  pub path_values : Dict Value
  pub query : MultiDict Text
  pub headers : Headers
  pub cookies : Dict Text
  pub body : Read (List ℕ)
  pub form : Read (MultiDict Raw)
  pub itself : V

-- The models of the two libraries, by identity: the form field and annotation of each of their
-- fields, and what they make of a body and of a form.
pub record Models (V : Type 0) : Type 0 where
  pub fields : ℕ → List (Text × Inner × Bool)
  pub decode : ℕ → List ℕ → Decoded V
  pub decode_form : ℕ → Dict Datum → Decoded V

-- not raw.strip()
abbrev pub is_blank : List ℕ → Bool
is_blank [] = true
is_blank (c ∷ s) = (c == 32 || (leb 9 c && leb c 13)) && is_blank s

-- not self.headers.get(...): absent, or empty
abbrev pub is_falsy : Option Text → Bool
is_falsy none = true
is_falsy (some s) = is_empty s

-- The call that reads a path value that is not there raises KeyError.
abbrev pub raise : {A : Type 0} → Read A
raise = raised (other (exception ∷ []))

abbrev pub then_read : {A B : Type 0} → Read A → (A → Read B) → Read B
then_read (got a) f = f a
then_read (raised e) f = raised e

-- What the plan reads of the request itself.
module _ {V : Type 0} (objects : Objects V) (models : Models V) (input : Input V) where
  abbrev pub with_path : Param V → Option Value → (Args V → Read (Args V)) → Args V → Read (Args V)
  with_path p none rest a = raise
  with_path p (some v) rest a = rest (take_as objects p (path_argument objects p v) a)

  unfoldable pub path_loop : List (Param V) → Args V → Read (Args V)
  unfolding path_argument
  path_loop [] a = got a
  path_loop (p ∷ ps) a = with_path p (find p.name input.path_values) (path_loop ps) a

  unfoldable pub query_loop : List (Param V) → Args V → Args V
  unfolding take MultiDict.get_all
  query_loop [] a = a
  query_loop (p ∷ ps) a =
      query_loop ps (take objects p (texts (MultiDict.get_all input.query p.key)) a)

  unfoldable pub header_loop : List (Param V) → Args V → Args V
  unfolding take Headers.get_all
  header_loop [] a = a
  header_loop (p ∷ ps) a =
      header_loop ps (take objects p (texts (Headers.get_all input.headers p.key)) a)

  unfoldable pub cookie_loop : List (Param V) → Args V → Args V
  unfolding take
  cookie_loop [] a = a
  cookie_loop (p ∷ ps) a =
      cookie_loop ps (take objects p (none_or_one (find p.key input.cookies)) a)

  abbrev pub decoded_as : Param V → Decoded V → Args V → Args V
  decoded_as p (decoded v) a = gives p.name v a
  decoded_as p (refused es) a = fails es a

  unfoldable pub form_model : Param V → MultiDict Raw → Args V → Args V
  unfolding form_data any_sent gives fails
  form_model p f a =
      if not p.required && not (any_sent (models.fields p.model) f)
      then gives p.name p.default a
      else decoded_as p (models.decode_form p.model (form_data (models.fields p.model) f [])) a

  unfoldable pub form_model_loop : List (Param V) → MultiDict Raw → Args V → Args V
  unfolding form_model
  form_model_loop [] f a = a
  form_model_loop (p ∷ ps) f a = form_model_loop ps f (form_model p f a)

  unfoldable pub form_loop : List (Param V) → MultiDict Raw → Args V → Args V
  unfolding take MultiDict.get_all
  form_loop [] f a = a
  form_loop (p ∷ ps) f a =
      form_loop ps f (take objects p (form_values p.inner (MultiDict.get_all f p.key)) a)

  -- `_read_form`
  unfoldable pub read_form : Read (MultiDict Raw)
  unfolding Headers.get
  read_form =
      if is_falsy (Headers.get input.headers (codes "content-type"))
      then then_read input.body
          (λ raw. if is_blank raw then got (record { lists = [] }) else input.form)
      else input.form

  unfoldable pub form_part : Plan V → Args V → Read (Args V)
  unfolding read_form form_model_loop form_loop
  form_part plan a =
      if is_nil plan.form && is_nil plan.form_models
      then got a
      else then_read read_form
          (λ f. got (form_loop plan.form f (form_model_loop plan.form_models f a)))

  abbrev pub body_from : Param V → Args V → List ℕ → Read (Args V)
  body_from p a raw =
      if is_blank raw && not p.required
      then got (gives p.name p.default a)
      else got (decoded_as p (models.decode p.model raw) a)

  unfoldable pub body_part : Option (Param V) → Args V → Read (Args V)
  unfolding gives fails
  body_part none a = got a
  body_part (some p) a = then_read input.body (body_from p a)

  unfoldable pub request_loop : List Text → Args V → Args V
  unfolding gives
  request_loop [] a = a
  request_loop (name ∷ names) a = request_loop names (gives name input.itself a)

  -- `Plan.bind` after the dependencies, before the errors are raised
  unfoldable pub read_arguments : Plan V → Args V → Read (Args V)
  unfolding path_loop query_loop header_loop cookie_loop form_part body_part request_loop
  read_arguments plan a = then_read (path_loop plan.path a) (λ b.
      then_read
        (form_part plan
          (cookie_loop plan.cookies (header_loop plan.headers (query_loop plan.query b))))
        (λ c. then_read (body_part plan.body c) (λ d. got (request_loop plan.request d))))
