-- ===== src/Binding/Resolve/Given.antt =====
-- korvex/_schema.py: the keyword arguments that `Plan.bind` gives, for the parameters that read the
-- request itself.
use mathlib.Core.Path.{subst}
use korvex.Prelude.{
  ℕ, zero, suc, true, not, ◌&&◌, List, [], ◌∷◌, ◌++◌, Option, none, some, ◌≡◌, arith,
}
use korvex.Prelude.Dict.{Dict, find, contains_key}
use korvex.Prelude.Lists.{All, is_nil}
use korvex.Prelude.Tests.{Bool-cases}
use korvex.Prelude.Text.{Text}
use korvex.Request.{Value}
use korvex.Headers
use korvex.Request.MultiDict
use korvex.Request.MultiDict.{MultiDict}
use korvex.Binding.{Param, Objects, Raw, Args, gives, take, take_as, path_argument}
use korvex.Binding.Reading.{
  Read, got, Plan, Input, Models, Decoded, decoded, refused, with_path, path_loop, query_loop,
  header_loop, cookie_loop, decoded_as, form_model, form_model_loop, form_loop, form_part,
  read_form, body_from, body_part, request_loop, read_arguments,
}
use korvex.Binding.Resolve.{ok, Run, Program, deps_loop, bind}
use korvex.Prelude.{inl}
use korvex.Prelude.{inr}
use korvex.Binding.Forms.{texts}
use korvex.Binding.Forms.{none_or_one}
use korvex.Binding.Forms.{form_values}
use korvex.Binding.Forms.{Datum}
use korvex.Binding.Forms.{any_sent}
use korvex.Binding.Forms.{form_data}
use korvex.Binding.Reading.{is_blank}
use korvex.Binding.Resolve.{resolve}
use korvex.Binding.{no_args}
use korvex.Binding.Resolve.{read_with}
use korvex.Binding.Resolve.Settled.{
  names_of, names_of-nil, name_of, read_names, Extends-refl, Extends-trans, gives-Extends,
  fails-Extends, AllGiven, and_then-AllGiven, SaysWhy, ReadExtends, finished-AllGiven,
  after-Extends, then_read-Extends, then_raw-Extends, take_as-Extends, take-Extends,
}
use korvex.Binding.Resolve.Settled.{Extends}

module _ {V : Type 0} where
  module _ (objects : Objects V) where
    module _ (models : Models V) (input : Input V) where
      with_path-Extends :
          (p : Param V) (o : Option Value) (names : List Text) (rest : Args V → Read (Args V))
          (a : Args V)
          → ((b : Args V) → ReadExtends names b (rest b))
          → ReadExtends (p.name ∷ names) a (with_path objects models input p o rest a)
      with_path-Extends p none names rest a h = tt
      with_path-Extends p (some v) names rest a h =
          let b = take_as objects p (path_argument objects p v) a in
          after-Extends (p.name ∷ []) names a b (rest b)
            (take_as-Extends objects p (path_argument objects p v) a) (h b)

      path_loop-Extends :
          (ps : List (Param V)) (a : Args V)
          → ReadExtends (names_of ps) a (path_loop objects models input ps a)
      unfolding path_loop
      path_loop-Extends [] a = Extends-refl a
      path_loop-Extends (p ∷ ps) a =
          with_path-Extends p (find p.name input.path_values) (names_of ps)
            (path_loop objects models input ps) a (path_loop-Extends ps)

      query_loop-Extends :
          (ps : List (Param V)) (a : Args V)
          → Extends (names_of ps) a (query_loop objects models input ps a)
      unfolding query_loop
      query_loop-Extends [] a = Extends-refl a
      query_loop-Extends (p ∷ ps) a =
          let rs = texts (MultiDict.get_all input.query p.key) in
          let b = take objects p rs a in
          Extends-trans (p.name ∷ []) (names_of ps) a b (query_loop objects models input ps b)
            (take-Extends objects p rs a) (query_loop-Extends ps b)

      header_loop-Extends :
          (ps : List (Param V)) (a : Args V)
          → Extends (names_of ps) a (header_loop objects models input ps a)
      unfolding header_loop
      header_loop-Extends [] a = Extends-refl a
      header_loop-Extends (p ∷ ps) a =
          let rs = texts (Headers.get_all input.headers p.key) in
          let b = take objects p rs a in
          Extends-trans (p.name ∷ []) (names_of ps) a b (header_loop objects models input ps b)
            (take-Extends objects p rs a) (header_loop-Extends ps b)

      cookie_loop-Extends :
          (ps : List (Param V)) (a : Args V)
          → Extends (names_of ps) a (cookie_loop objects models input ps a)
      unfolding cookie_loop
      cookie_loop-Extends [] a = Extends-refl a
      cookie_loop-Extends (p ∷ ps) a =
          let rs = none_or_one (find p.key input.cookies) in
          let b = take objects p rs a in
          Extends-trans (p.name ∷ []) (names_of ps) a b (cookie_loop objects models input ps b)
            (take-Extends objects p rs a) (cookie_loop-Extends ps b)

      form_loop-Extends :
          (ps : List (Param V)) (f : MultiDict Raw) (a : Args V)
          → Extends (names_of ps) a (form_loop objects models input ps f a)
      unfolding form_loop
      form_loop-Extends [] f a = Extends-refl a
      form_loop-Extends (p ∷ ps) f a =
          let rs = form_values p.inner (MultiDict.get_all f p.key) in
          let b = take objects p rs a in
          Extends-trans (p.name ∷ []) (names_of ps) a b (form_loop objects models input ps f b)
            (take-Extends objects p rs a) (form_loop-Extends ps f b)

      decoded_as-Extends :
          (p : Param V) (r : Decoded V) (a : Args V)
          → SaysWhy r
          → Extends (p.name ∷ []) a (decoded_as objects models input p r a)
      decoded_as-Extends p (decoded v) a h = gives-Extends p.name v a
      decoded_as-Extends p (refused []) a h = absurd h
      decoded_as-Extends p (refused (e ∷ es)) a h = fails-Extends p.name e es a

      request_loop-Extends :
          (names : List Text) (a : Args V)
          → Extends names a (request_loop objects models input names a)
      unfolding request_loop
      request_loop-Extends [] a = Extends-refl a
      request_loop-Extends (name ∷ names) a =
          let b = gives name input.itself a in
          Extends-trans (name ∷ []) names a b (request_loop objects models input names b)
            (gives-Extends name input.itself a) (request_loop-Extends names b)

      module _ (decode_says : (m : ℕ) (raw : List ℕ) → SaysWhy (models.decode m raw))
          (decode_form_says : (m : ℕ) (d : Dict Datum) → SaysWhy (models.decode_form m d)) where
        form_model-Extends :
            (p : Param V) (f : MultiDict Raw) (a : Args V)
            → Extends (p.name ∷ []) a (form_model objects models input p f a)
        unfolding form_model
        form_model-Extends p f a =
            elim (Bool-cases (not p.required && not (any_sent (models.fields p.model) f))) [
              | inl e ↦ rw e (gives-Extends p.name p.default a)
              | inr e ↦ rw e (
                  decoded_as-Extends p
                    (models.decode_form p.model (form_data (models.fields p.model) f [])) a
                    (decode_form_says p.model (form_data (models.fields p.model) f [])))
            ]

        form_model_loop-Extends :
            (ps : List (Param V)) (f : MultiDict Raw) (a : Args V)
            → Extends (names_of ps) a (form_model_loop objects models input ps f a)
        unfolding form_model_loop
        form_model_loop-Extends [] f a = Extends-refl a
        form_model_loop-Extends (p ∷ ps) f a =
            let b = form_model objects models input p f a in
            Extends-trans (p.name ∷ []) (names_of ps) a b
              (form_model_loop objects models input ps f b) (form_model-Extends p f a)
              (form_model_loop-Extends ps f b)

        parameters-Extends :
            (plan : Plan V) (a : Args V)
            → Extends (names_of plan.query ++ (names_of plan.headers ++ names_of plan.cookies)) a (
                cookie_loop objects models input plan.cookies (
                  header_loop objects models input plan.headers
                    (query_loop objects models input plan.query a)))
        parameters-Extends plan a =
            let b = query_loop objects models input plan.query a in
            let c = header_loop objects models input plan.headers b in
            let d = cookie_loop objects models input plan.cookies c in
            Extends-trans (names_of plan.query) (names_of plan.headers ++ names_of plan.cookies) a b
              d (query_loop-Extends plan.query a)
              (Extends-trans (names_of plan.headers) (names_of plan.cookies) b c d
                (header_loop-Extends plan.headers b) (cookie_loop-Extends plan.cookies c))

        abbrev form_names : Plan V → List Text
        form_names plan = names_of plan.form_models ++ names_of plan.form

        form_part-Extends :
            (plan : Plan V) (a : Args V)
            → ReadExtends (form_names plan) a (form_part objects models input plan a)
        unfolding form_part
        form_part-Extends plan a = elim (Bool-cases (is_nil plan.form && is_nil plan.form_models)) [
          | inl e ↦
              let no_fields : names_of plan.form ≡ [] =
                names_of-nil plan.form (ground (arith, e)) in
              let no_models : names_of plan.form_models ≡ [] =
                names_of-nil plan.form_models (ground (arith, e)) in
              rw (e, no_fields, no_models) (Extends-refl a)
          | inr e ↦ rw e (
              then_raw-Extends (form_names plan) a (read_form objects models input)
                (λ f. got (
                  form_loop objects models input plan.form f
                    (form_model_loop objects models input plan.form_models f a)))
                (λ f.
                  let b = form_model_loop objects models input plan.form_models f a in
                  Extends-trans (names_of plan.form_models) (names_of plan.form) a b
                    (form_loop objects models input plan.form f b)
                    (form_model_loop-Extends plan.form_models f a)
                    (form_loop-Extends plan.form f b)))
        ]

        body_from-Extends :
            (p : Param V) (a : Args V) (raw : List ℕ)
            → ReadExtends (p.name ∷ []) a (body_from objects models input p a raw)
        body_from-Extends p a raw = elim (Bool-cases (is_blank raw && not p.required)) [
          | inl e ↦ rw e (gives-Extends p.name p.default a)
          | inr e ↦
              rw e (decoded_as-Extends p (models.decode p.model raw) a (decode_says p.model raw))
        ]

        body_part-Extends :
            (o : Option (Param V)) (a : Args V)
            → ReadExtends (name_of o) a (body_part objects models input o a)
        unfolding body_part
        body_part-Extends none a = Extends-refl a
        body_part-Extends (some p) a =
            then_raw-Extends (p.name ∷ []) a input.body (body_from objects models input p a)
              (body_from-Extends p a)

        read_arguments-Extends :
            (plan : Plan V) (a : Args V)
            → ReadExtends (read_names plan) a (read_arguments objects models input plan a)
        unfolding read_arguments read_names
        read_arguments-Extends plan a =
            let loops = λ (b : Args V). cookie_loop objects models input plan.cookies (
              header_loop objects models input plan.headers
                (query_loop objects models input plan.query b)) in
            then_read-Extends (names_of plan.path)
              ((names_of plan.query ++ (names_of plan.headers ++ names_of plan.cookies))
                ++ (form_names plan ++ (name_of plan.body ++ plan.request)))
              a (path_loop objects models input plan.path a) _ (path_loop-Extends plan.path a)
              (λ b.
                after-Extends
                  (names_of plan.query ++ (names_of plan.headers ++ names_of plan.cookies))
                  (form_names plan ++ (name_of plan.body ++ plan.request)) b (loops b) _
                  (parameters-Extends plan b)
                  (then_read-Extends (form_names plan) (name_of plan.body ++ plan.request) (loops b)
                    (form_part objects models input plan (loops b)) _
                    (form_part-Extends plan (loops b))
                    (λ c.
                      then_read-Extends (name_of plan.body) plan.request c
                        (body_part objects models input plan.body c) _
                        (body_part-Extends plan.body c) (request_loop-Extends plan.request))))

        module _ {W : Type 0} (program : Program V W) where
          bind-AllGiven :
              (n : ℕ) (plan : Plan V) (run : Run V W)
              → AllGiven (read_names plan) ((bind program objects models input n plan run).0)
          unfolding bind
          bind-AllGiven zero plan run = tt
          bind-AllGiven (suc n) plan run =
              and_then-AllGiven (read_names plan)
                (deps_loop (resolve program (bind program objects models input n)) plan.dependencies
                  no_args run)
                (read_with program objects models input plan)
                (λ a after.
                  finished-AllGiven (read_names plan) a (read_arguments objects models input plan a)
                    (read_arguments-Extends plan a))

          -- Where a model's library gives an error with each value that it refuses, the arguments that
          -- `Plan.bind` returns hold one for every parameter that reads the request: from its path, query,
          -- headers, cookies, form or body, or the request itself.
          pub bind-gives :
              (n : ℕ) (plan : Plan V) (run : Run V W) (kwargs : Dict V)
              → (bind program objects models input n plan run).0 ≡ ok kwargs
              → All (λ name. contains_key name kwargs ≡ true) (read_names plan)
          bind-gives n plan run kwargs e =
              subst (AllGiven (read_names plan)) e (bind-AllGiven n plan run)
