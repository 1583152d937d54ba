-- ===== src/Urls/Reached.antt =====
-- korvex/_urls.py: the path that `path_for` returns reaches the route it was made for.
use mathlib.Core.Path.{subst}
use korvex.Prelude.{
  ◌&&◌, ℕ, List, [], ◌∷◌, ◌++◌, Option, none, some, ◌≡◌, refl, ap, sym, ◌∙◌, inl, inr, arith,
}
use mathlib.Core.List.{append_assoc, append-nil}
use korvex.Prelude.Dict.{Dict, find}
use korvex.Prelude.Tests.{Bool-cases, ◌==◌}
use korvex.Prelude.Text.{Text, eq_text, eq_text_iff, split, grow}
use korvex.Binding.{Inner, Param, Objects}
use korvex.Urls.{Target, Made, made, raised, then_make, Value}
use korvex.Urls.Paths.{
  Segment, literal, param, wildcard, slash_join, quoted, Built, build_segment, build, add_segment,
  of_value, param_text, wildcard_text, path_from, reached_as, reached, path_for, literal_safe,
  annotated, pattern_segments,
}
use korvex.Prelude.{◌&&◌, ◌≢◌}
use korvex.Prelude.Tests.{==_iff}
use korvex.Urls.Paths.{all_in}
use korvex.Urls.Paths.{expected}
use korvex.Urls.Paths.{none_extra}
use korvex.Urls.{any}
use korvex.Prelude.{false}

slash_join-grow : (x : ℕ) (ss : List Text) → ss ≢ [] → slash_join (grow x ss) ≡ x ∷ slash_join ss
unfolding slash_join
slash_join-grow x [] h = absurd (h refl)
slash_join-grow x (s ∷ []) h = refl
slash_join-grow x (s ∷ t ∷ ss) h = refl

split-Nonempty : (c : ℕ) (s : Text) → split c s ≢ []
unfolding split
split-Nonempty c [] h = cc
split-Nonempty c (x ∷ s) h = elim (Bool-cases (x == c)) [
  | inl e ↦ ground (arith, e, h)
  | inr e ↦ ground (arith, e, h, split-Nonempty c s)
]

slash_join-cons : (ss : List Text) → ss ≢ [] → slash_join ([] ∷ ss) ≡ b'/' ∷ slash_join ss
unfolding slash_join
slash_join-cons [] h = absurd (h refl)
slash_join-cons (s ∷ ss) h = refl

-- "/".join(s.split("/")) is s.
slash_join-split : (s : Text) → slash_join (split 47 s) ≡ s
unfolding split slash_join
slash_join-split [] = refl
slash_join-split (x ∷ s) = elim (Bool-cases (x == 47)) [
  | inl e ↦
      let same : x ≡ 47 = (==_iff x 47).0 e in
      rw (e, same)
        (slash_join-cons (split 47 s) (split-Nonempty 47 s) ∙ ap (λ t. 47 ∷ t) (slash_join-split s))
  | inr e ↦
      rw e (
        slash_join-grow x (split 47 s) (split-Nonempty 47 s) ∙ ap (λ t. x ∷ t) (slash_join-split s))
]

module _ (quote : Text → Text → Text) (unquote : Text → Text)
    (unquote-quote : (safe s r : Text)
      → any (λ c. c == b'%') safe ≡ false
      → unquote (quote safe s ++ r) ≡ s ++ unquote r)
    (unquote-slash : (r : Text) → unquote (b'/' ∷ r) ≡ b'/' ∷ unquote r)
    (unquote-nil : unquote [] ≡ []) where
  -- The text that `e` escapes.
  abbrev Escapes : Text → Text → Type 0
  Escapes e d = (r : Text) → unquote (e ++ r) ≡ d ++ unquote r

  abbrev AllEscape : List Text → List Text → Type 0
  AllEscape [] [] = Unit
  AllEscape (e ∷ es) (d ∷ ds) = Escapes e d × AllEscape es ds
  AllEscape _ _ = ⊥

  slash_join-Escapes :
      (es ds : List Text) → AllEscape es ds → Escapes (slash_join es) (slash_join ds)
  unfolding slash_join
  slash_join-Escapes [] [] h r = refl
  slash_join-Escapes (e ∷ []) (d ∷ []) (h, hs) r = h r
  slash_join-Escapes (e ∷ []) (d ∷ c ∷ ds) (h, hs) r = absurd hs
  slash_join-Escapes (e ∷ f ∷ es) (d ∷ []) (h, hs) r = absurd hs
  slash_join-Escapes (e ∷ f ∷ es) (d ∷ c ∷ ds) (h, hs) r =
      ap unquote (append_assoc e (b'/' ∷ slash_join (f ∷ es)) r)
      ∙ (h (b'/' ∷ (slash_join (f ∷ es) ++ r))
          ∙ (ap (λ t. d ++ t)
                (unquote-slash (slash_join (f ∷ es) ++ r)
                  ∙ ap (λ t. b'/' ∷ t) (slash_join-Escapes (f ∷ es) (c ∷ ds) hs r))
              ∙ sym (append_assoc d (b'/' ∷ slash_join (c ∷ ds)) (unquote r))))
  slash_join-Escapes [] (d ∷ ds) h r = absurd h
  slash_join-Escapes (e ∷ es) [] h r = absurd h

  slash_join-unquote :
      (es ds : List Text) → AllEscape es ds → unquote (slash_join es) ≡ slash_join ds
  slash_join-unquote es ds h =
      ap unquote (sym (append-nil (slash_join es)))
      ∙ (slash_join-Escapes es ds h []
          ∙ (ap (λ t. slash_join ds ++ t) unquote-nil ∙ append-nil (slash_join ds)))

  module _ {V : Type 0} (objects : Objects V) where
    quoted-AllEscape : (ss : List Text) → AllEscape (quoted objects quote ss) ss
    quoted-AllEscape [] = tt
    quoted-AllEscape (s ∷ ss) = (λ r. unquote-quote [] s r refl, quoted-AllEscape ss)

    wildcard-Escapes : (s : Text) → Escapes (slash_join (quoted objects quote (split 47 s))) s
    wildcard-Escapes s =
        subst (Escapes (slash_join (quoted objects quote (split 47 s)))) (slash_join-split s) (
          slash_join-Escapes (quoted objects quote (split 47 s)) (split 47 s)
            (quoted-AllEscape (split 47 s)))

    abbrev SegmentEscapes : Made (Text × Text) → Type 0
    SegmentEscapes (made (e, d)) = Escapes e d
    SegmentEscapes (raised p) = Unit

    then_make-SegmentEscapes :
        {A : Type 0} (a : Made A) (f : A → Made (Text × Text))
        → ((x : A) → SegmentEscapes (f x))
        → SegmentEscapes (then_make a f)
    then_make-SegmentEscapes (made x) f h = h x
    then_make-SegmentEscapes (raised p) f h = tt

    build_segment-Escapes :
        (types : Dict Inner) (params : Dict Value) (s : Segment)
        → SegmentEscapes (build_segment objects quote types params s)
    unfolding build_segment
    build_segment-Escapes types params (literal s) = λ r. unquote-quote literal_safe s r refl
    build_segment-Escapes types params (param name constraint) =
        then_make-SegmentEscapes (of_value (find name params)) _ (λ s.
          then_make-SegmentEscapes (param_text objects quote types name constraint s) _
            (λ s r. unquote-quote [] s r refl))
    build_segment-Escapes types params (wildcard name) =
        then_make-SegmentEscapes (of_value (find name params)) _ (λ s.
          then_make-SegmentEscapes (wildcard_text objects quote types name s) _
            (λ s. wildcard-Escapes s))

    abbrev BuiltEscapes : Made Built → Type 0
    BuiltEscapes (made b) = AllEscape b.encoded b.decoded
    BuiltEscapes (raised p) = Unit

    add_segment-BuiltEscapes :
        (x : Made (Text × Text)) (b : Made Built)
        → SegmentEscapes x
        → BuiltEscapes b
        → BuiltEscapes (then_make x (λ x. then_make b (add_segment objects quote x)))
    add_segment-BuiltEscapes (made (e, d)) (made b) h k = (h, k)
    add_segment-BuiltEscapes (made (e, d)) (raised p) h k = tt
    add_segment-BuiltEscapes (raised p) b h k = tt

    build-Escapes :
        (types : Dict Inner) (params : Dict Value) (ss : List Segment)
        → BuiltEscapes (build objects quote types params ss)
    unfolding build
    build-Escapes types params [] = tt
    build-Escapes types params (s ∷ ss) =
        add_segment-BuiltEscapes (build_segment objects quote types params s)
          (build objects quote types params ss) (build_segment-Escapes types params s)
          (build-Escapes types params ss)

    module _ (match : ℕ → Text → Text → Option Text) where
      abbrev Reaches : Target → Made Text → Type 0
      Reaches t (made p) = match t.router (unquote p) t.method ≡ some t.key
      Reaches t (raised p) = Unit

      path_from-unquote :
          (es ds : List Text) → AllEscape es ds → unquote (path_from es) ≡ path_from ds
      path_from-unquote es ds h =
          unquote-slash (slash_join es) ∙ ap (λ t. b'/' ∷ t) (slash_join-unquote es ds h)

      reached_as-Reaches :
          (t : Target) (o : Option Text) (b : Built)
          → AllEscape b.encoded b.decoded
          → match t.router (path_from b.decoded) t.method ≡ o
          → Reaches t (reached_as objects quote match t o (made (path_from b.encoded)))
      reached_as-Reaches t none b h e = tt
      reached_as-Reaches t (some key) b h e = elim (Bool-cases (eq_text key t.key)) [
        | inl k ↦ rw k (
            rw (path_from-unquote b.encoded b.decoded h)
              (e ∙ ap (λ j. some j) ((eq_text_iff key t.key).0 k)))
        | inr k ↦ rw k tt
      ]

      built-Reaches :
          (t : Target) (b : Made Built)
          → BuiltEscapes b
          → Reaches t (then_make b (reached objects quote match t))
      built-Reaches t (made b) h =
          reached_as-Reaches t (match t.router (path_from b.decoded) t.method) b h refl
      built-Reaches t (raised p) h = tt

      path_for-Reaches :
          (t : Target) (everything : Option (List (Param V))) (params : Dict Value)
          → Reaches t (path_for objects quote match t everything params)
      unfolding path_for
      path_for-Reaches t everything params =
          elim (Bool-cases
            (all_in (expected t.pattern) params && none_extra params (expected t.pattern))) [
              | inl e ↦
                  rw (e, Reaches)
                    (built-Reaches t
                      (build objects quote (annotated objects everything) params
                        (pattern_segments t.pattern))
                      (build-Escapes (annotated objects everything) params
                        (pattern_segments t.pattern)))
              | inr e ↦ rw (e, Reaches) tt
            ]

      -- Where `unquote` undoes, at the front of a text, what `quote` makes of a text while the percent
      -- sign is not among its safe characters, and leaves a slash as it is, the path that `path_for`
      -- returns for a route, unquoted as a server does it, is matched to this route's key.
      pub path_for-reaches :
          (t : Target) (everything : Option (List (Param V))) (params : Dict Value) (p : Text)
          → path_for objects quote match t everything params ≡ made p
          → match t.router (unquote p) t.method ≡ some t.key
      path_for-reaches t everything params p e =
          subst (Reaches t) e (path_for-Reaches t everything params)
