-- ===== src/Compression/Choice.antt =====
-- The encoding that is chosen, and what the response says of it.
use korvex.Prelude.{
  ℕ, ◌≤◌, ◌<◌, Bool, true, false, not, ◌&&◌, ◌||◌, List, [], ◌∷◌, Option, none, some, ◌≡◌, refl,
  sym, ap, ◌∙◌, ◌⊎◌, inl, inr, arith,
}
use mathlib.Core.Path.{subst}
use korvex.Prelude.Dict.{Dict}
use korvex.Prelude.Lists.{All}
use korvex.Prelude.Tests.{ltb, ◌==◌, if◌then◌else◌, Bool-cases}
use korvex.Prelude.Text.{Text, codes, or_empty, comma_join, eq_text, lower, lower_code}
use korvex.Headers
use korvex.Headers.Laws.{get-set, get-add, get-remove, get_of_not_contains, same_name_refl}
use korvex.Request.{Request}
use korvex.Response.{Response, Stream, set_header, add_header, remove_header}
use korvex.Compression.{
  Encoder, quality_of, best_of, accepted_of, pick, Options, may_encode, is_worth, varied,
  with_content, has_part, encoded, compress_response,
}

last_unset : (a b c d : Bool) → not (a || b || c || d) ≡ true → d ≡ false
last_unset a b c true h = ground (arith, h)
last_unset a b c false h = refl

both_left : (a b : Bool) → (a && b) ≡ true → a ≡ true
both_left true b h = refl
both_left false b h = h

unencoded :
    (r : Response) → may_encode r ≡ true → Headers.get r.headers (codes "Content-Encoding") ≡ none
unfolding may_encode
unencoded r h = get_of_not_contains r.headers (codes "Content-Encoding") (
    last_unset (r.status == 204) (r.status == 304) (ltb r.status 200)
      (Headers.contains r.headers (codes "Content-Encoding")) h)

vary_differs : Headers.same_name (codes "Vary") (codes "Content-Encoding") ≡ false
unfolding Headers.same_name eq_text lower lower_code
vary_differs = refl

length_differs : Headers.same_name (codes "Content-Length") (codes "Content-Encoding") ≡ false
unfolding Headers.same_name eq_text lower lower_code
length_differs = refl

get-varied :
    (r : Response)
    → Headers.get r.headers (codes "Content-Encoding") ≡ none
    → Headers.get (varied r).headers (codes "Content-Encoding") ≡ none
unfolding varied add_header Headers.contains
get-varied r h =
    elim (Bool-cases (
      has_part (codes "accept-encoding")
        (lower (comma_join (Headers.get_all r.headers (codes "vary")))))) [
          | inl there ↦ rw there h
          | inr new ↦ rw new (
              get-add r.headers (codes "Vary") (codes "Accept-Encoding") (codes "Content-Encoding")
              ∙ rw (h, vary_differs) refl)
        ]

get-relabelled :
    (r : Response) (name : Text)
    → Headers.get
        (remove_header
          (set_header r (codes "Content-Encoding") name)
          (codes "Content-Length")).headers
        (codes "Content-Encoding")
      ≡ some name
unfolding remove_header set_header
get-relabelled r name =
    get-remove (Headers.set r.headers (codes "Content-Encoding") name) (codes "Content-Length")
      (codes "Content-Encoding")
    ∙ rw length_differs (
        get-set r.headers (codes "Content-Encoding") name (codes "Content-Encoding")
        ∙ rw (same_name_refl (codes "Content-Encoding")) refl)

-- What the request accepts.
abbrev pub accepts : (Text → Option ℕ) → Request → Dict ℕ
accepts float request =
    accepted_of float (or_empty (Headers.get request.headers (codes "accept-encoding")))

above : (a b : ℕ) → ltb a b ≡ true → 0 < b
above a b h = ground (arith, h)

at_most : (a b m : ℕ) → ltb a b ≡ true → b ≤ m → a ≤ m
at_most a b m h le = ground (arith, h, le)

not_above : (a b m : ℕ) → ltb a b ≡ false → a ≤ m → b ≤ m
not_above a b m h le = ground (arith, h, le)

module _ {S : Type 0} (P : Encoder S → Type 0) (accepted : Dict ℕ) where
  -- Nothing yet, or an encoder with its quality.
  abbrev Best : Option (Encoder S) → ℕ → Type 0
  Best o m =
      ((o ≡ none) × (m ≡ 0))
      ⊎ ((e : Encoder S) × (o ≡ some e) × P e × (0 < m) × (quality_of accepted e.name ≡ m))

  best_of-Best :
      (es : List (Encoder S)) (best : Option (Encoder S)) (best_q : ℕ)
      → Best best best_q
      → All P es
      → (m : ℕ) × (best_q ≤ m)
        × All (λ d. quality_of accepted d.name ≤ m) es
        × Best (best_of accepted es best best_q) m
  unfolding best_of
  best_of-Best [] best best_q b ps = (best_q, omega arith, tt, b)
  best_of-Best (e ∷ es) best best_q b (p, ps) =
      elim (Bool-cases (ltb best_q (quality_of accepted e.name))) [
        | inl better ↦
            let (m, le, all, r) =
              best_of-Best es (some e) (quality_of accepted e.name)
                (inr (e, refl, p, above best_q (quality_of accepted e.name) better, refl)) ps in
            (m, at_most best_q (quality_of accepted e.name) m better le, (le, all), rw better r)
        | inr same ↦
            let (m, le, all, r) = best_of-Best es best best_q b ps in
            (m, le, (not_above best_q (quality_of accepted e.name) m same le, all), rw same r)
      ]

module _ {S : Type 0} where
  -- The encoder that is picked is an available one of the highest quality, which is not 0; none is
  -- picked only where every available encoder has the quality 0. (`P` is any property that all the
  -- available encoders have.)
  pub pick-best :
      (P : Encoder S → Type 0) (float : Text → Option ℕ) (available : List (Encoder S))
      (request : Request)
      → All P available
      → ((pick float available request ≡ none)
          × All (λ d. quality_of (accepts float request) d.name ≤ 0) available)
        ⊎ ((e : Encoder S) × (pick float available request ≡ some e)
            × P e
            × (0 < quality_of (accepts float request) e.name)
            × All
                (λ d.
                  quality_of (accepts float request) d.name
                  ≤ quality_of (accepts float request) e.name)
                available)
  unfolding pick
  pick-best P float available request ps =
      let (m, le, all, r) =
        best_of-Best P (accepts float request) available none 0 (inl (refl, refl)) ps in
      elim r [
        | inl (nothing, zero_m) ↦ inl (
          nothing,
          subst (λ n. All (λ d. quality_of (accepts float request) d.name ≤ n) available) zero_m
              all,
        )
        | inr (e, is, p, more, eq) ↦ inr (
          e,
          is,
          p,
          subst (λ n. 0 < n) (sym eq) more,
          subst (λ n. All (λ d. quality_of (accepts float request) d.name ≤ n) available) (sym eq)
              all,
        )
      ]

  abbrev pub name_of : Option (Encoder S) → Option Text
  name_of none = none
  name_of (some e) = some e.name

  headers-with_content :
      (e : Encoder S) (r : Response) (o : Option Stream) → (with_content e r o).headers ≡ r.headers
  headers-with_content e r none = refl
  headers-with_content e r (some stream) = refl

  get-encoded :
      (e : Option (Encoder S)) (r : Response)
      → Headers.get r.headers (codes "Content-Encoding") ≡ none
      → Headers.get (encoded e (varied r)).headers (codes "Content-Encoding") ≡ name_of e
  get-encoded none r h = get-varied r h
  get-encoded (some e) r h =
      ap (λ x. Headers.get x (codes "Content-Encoding"))
        (headers-with_content e
          (remove_header (set_header (varied r) (codes "Content-Encoding") e.name)
            (codes "Content-Length"))
          (varied r).streaming)
      ∙ get-relabelled (varied r) e.name

  -- The Content-Encoding of a response that the hook may compress is the name of the encoder that is
  -- picked, none if none is; every other response is left as it is.
  pub get-compress_response :
      (float : Text → Option ℕ) (o : Options S) (request : Request) (r : Response)
      → Headers.get (compress_response float o request r).headers (codes "Content-Encoding") ≡ (
          if may_encode r && is_worth o r
          then name_of (pick float o.available request)
          else Headers.get r.headers (codes "Content-Encoding"))
  unfolding compress_response
  get-compress_response float o request r = elim (Bool-cases (may_encode r && is_worth o r)) [
    | inl can ↦ rw can (
        get-encoded (pick float o.available request) r
          (unencoded r (both_left (may_encode r) (is_worth o r) can)))
    | inr cannot ↦ rw cannot refl
  ]
