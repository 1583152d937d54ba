-- ===== src/Hosts/Match.antt =====
-- When a host fits a pattern, and what its parameters are.
use korvex.Prelude.{◌≡◌, ◌≢◌, ◌↔◌, refl, List, [], ◌∷◌, Option, some, map, arith, inl, inr}
use korvex.Prelude.Dict.{Dict, put, find, find-put, find-put_self}
use korvex.Prelude.Lists.{length, All}
use korvex.Prelude.Tests.{◌==◌, ==_iff, Bool-cases}
use korvex.Prelude.Text.{Text, eq_text, eq_text_iff}
use korvex.Hosts.{Label, param, literal, Host, params_of, match_labels, match}

-- Each label of the host stands for the one of the pattern.
abbrev pub Fits : List Label → List Text → Type 0
Fits [] [] = Unit
Fits (param name ∷ labels) (s ∷ given) = (s ≢ []) × Fits labels given
Fits (literal expected ∷ labels) (s ∷ given) = (s ≡ expected) × Fits labels given
Fits _ _ = ⊥

-- The host with the values of `params` in place of the parameters.
abbrev value_of : Label → Dict Text → Option Text
value_of (param name) params = find name params
value_of (literal s) params = some s

pub fill : List Label → Dict Text → List (Option Text)
fill [] params = []
fill (label ∷ labels) params = value_of label params ∷ fill labels params

abbrev pub IsNew : Text → List Label → Type 0
IsNew name labels = All (λ n. n ≢ name) (params_of labels)

abbrev pub HasDistinctNames : List Label → Type 0
HasDistinctNames [] = Unit
HasDistinctNames (param name ∷ labels) = IsNew name labels × HasDistinctNames labels
HasDistinctNames (literal s ∷ labels) = HasDistinctNames labels

match_labels-Fits :
    (labels : List Label) (given : List Text) (acc ps : Dict Text)
    → length given ≡ length labels
    → match_labels labels given acc ≡ some ps
    → Fits labels given
unfolding match_labels
match_labels-Fits [] [] acc ps len e = tt
match_labels-Fits [] (s ∷ given) acc ps len e = absurd (omega arith)
match_labels-Fits (label ∷ labels) [] acc ps len e = absurd (omega arith)
match_labels-Fits (param name ∷ labels) ([] ∷ given) acc ps len e = cc
match_labels-Fits (param name ∷ labels) ((c ∷ s) ∷ given) acc ps len e =
    (λ p. cc, match_labels-Fits labels given (put name (c ∷ s) acc) ps (omega arith) e)
match_labels-Fits (literal expected ∷ labels) (s ∷ given) acc ps len e =
    elim (Bool-cases (eq_text s expected)) [
      | inl same ↦ (
        (eq_text_iff s expected).0 same,
        match_labels-Fits labels given acc ps (omega arith) (rw same at e),
      )
      | inr other ↦ cc (rw other at e)
    ]

Fits-length :
    (labels : List Label) (given : List Text) → Fits labels given → length given ≡ length labels
Fits-length [] [] h = refl
Fits-length (param name ∷ labels) (s ∷ given) h = omega (arith, Fits-length labels given h.1)
Fits-length (literal e ∷ labels) (s ∷ given) h = omega (arith, Fits-length labels given h.1)
Fits-length [] (s ∷ given) h = absurd h
Fits-length (param name ∷ labels) [] h = absurd h
Fits-length (literal e ∷ labels) [] h = absurd h

Fits-match_labels :
    (labels : List Label) (given : List Text) (acc : Dict Text)
    → Fits labels given
    → (ps : Dict Text) × (match_labels labels given acc ≡ some ps)
unfolding match_labels
Fits-match_labels [] [] acc h = (acc, refl)
Fits-match_labels (param name ∷ labels) ([] ∷ given) acc h = absurd (h.0 refl)
Fits-match_labels (param name ∷ labels) ((c ∷ s) ∷ given) acc h =
    Fits-match_labels labels given (put name (c ∷ s) acc) h.1
Fits-match_labels (literal e ∷ labels) (s ∷ given) acc h =
    rw ((eq_text_iff s e).1 h.0) (Fits-match_labels labels given acc h.1)
Fits-match_labels [] (s ∷ given) acc h = absurd h
Fits-match_labels (param name ∷ labels) [] acc h = absurd h
Fits-match_labels (literal e ∷ labels) [] acc h = absurd h

-- A host matches a pattern exactly when they have as many labels, a literal label is its own, and a
-- parameter stands for a label that is not empty.
pub match_iff :
    (host : Host) (given : List Text)
    → ((ps : Dict Text) × (match host given ≡ some ps)) ↔ Fits host.labels given
unfolding match
match_iff host given = (
  λ (ps, e). elim (Bool-cases (length given == length host.labels)) [
    | inl same ↦ match_labels-Fits host.labels given [] ps ((==_iff _ _).0 same) (rw same at e)
    | inr other ↦ cc (rw other at e)
  ],
  λ h.
      rw ((==_iff _ _).1 (Fits-length host.labels given h))
        (Fits-match_labels host.labels given [] h),
)

find-match_labels :
    (labels : List Label) (given : List Text) (acc ps : Dict Text) (name : Text)
    → IsNew name labels
    → match_labels labels given acc ≡ some ps
    → find name ps ≡ find name acc
unfolding match_labels params_of
find-match_labels [] given acc ps name new e = ground arith
find-match_labels (param n ∷ labels) [] acc ps name new e = ground arith
find-match_labels (literal l ∷ labels) [] acc ps name new e = ground arith
find-match_labels (param n ∷ labels) ([] ∷ given) acc ps name new e = cc
find-match_labels (param n ∷ labels) ((c ∷ s) ∷ given) acc ps name new e = ground (
  arith,
  find-match_labels labels given (put n (c ∷ s) acc) ps name new.1 e,
  find-put n name (c ∷ s) acc,
  eq_text_iff n name,
)
find-match_labels (literal l ∷ labels) (s ∷ given) acc ps name new e =
    ground (arith, find-match_labels labels given acc ps name new)

fill-match_labels :
    (labels : List Label) (given : List Text) (acc ps : Dict Text)
    → HasDistinctNames labels
    → Fits labels given
    → match_labels labels given acc ≡ some ps
    → fill labels ps ≡ map some given
unfolding match_labels fill
fill-match_labels [] [] acc ps d h e = refl
fill-match_labels (param name ∷ labels) ([] ∷ given) acc ps d h e = cc
fill-match_labels (param name ∷ labels) ((c ∷ s) ∷ given) acc ps d h e = cc (
  fill-match_labels labels given (put name (c ∷ s) acc) ps d.1 h.1 e,
  find-match_labels labels given (put name (c ∷ s) acc) ps name d.0 e,
  find-put_self name (c ∷ s) acc,
)
fill-match_labels (literal l ∷ labels) (s ∷ given) acc ps d h e =
    ground (arith, eq_text_iff s l, fill-match_labels labels given acc ps d h.1)
fill-match_labels [] (s ∷ given) acc ps d h e = absurd h
fill-match_labels (param name ∷ labels) [] acc ps d h e = absurd h
fill-match_labels (literal l ∷ labels) [] acc ps d h e = absurd h

-- Where the names of the pattern are distinct, the parameters of a match put back into the pattern
-- give the labels of the host.
pub fill-match :
    (host : Host) (given : List Text) (ps : Dict Text)
    → HasDistinctNames host.labels
    → match host given ≡ some ps
    → fill host.labels ps ≡ map some given
unfolding match
fill-match host given ps d e = elim (Bool-cases (length given == length host.labels)) [
  | inl same ↦
      fill-match_labels host.labels given [] ps d ((match_iff host given).0 (ps, e)) (rw same at e)
  | inr other ↦ cc (rw other at e)
]
