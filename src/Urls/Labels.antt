-- ===== src/Urls/Labels.antt =====
-- korvex/_urls.py: the labels that the loop of `url_for` makes of a host's pattern, and the parameters
-- that it leaves.
use korvex.Prelude.{◌≡◌, refl, List, [], ◌∷◌, Option, none, some, inl, inr, arith}
use korvex.Prelude.Dict.{Dict, find}
use korvex.Prelude.Lists.{any}
use korvex.Prelude.Tests.{Bool-cases, if◌then◌else◌}
use korvex.Prelude.Text.{Text, eq_text, eq_text_iff}
use korvex.Hosts
use korvex.Hosts.{Label, param, literal, is_label}
use korvex.Binding.{Inner, Objects}
use korvex.Urls.{Made, made, raised, then_make, Value, text_of}
use korvex.Urls.Paths.{of_value, fits_type}
use korvex.Urls.Links.{Netloc, label_text, add_label, host_loop, pop}

-- What a label of the URL's host is, for a label of the pattern: the same, or the text of the parameter.
pub LabelFor : Dict Value → Label → Text → Type 0
LabelFor params (literal s) label = label ≡ s
LabelFor params (param name) label =
    (v : Value) × (find name params ≡ some v) × (text_of v ≡ made label)

pub LabelsFor : Dict Value → List Label → List Text → Type 0
LabelsFor params [] [] = Unit
LabelsFor params (l ∷ ls) (s ∷ labels) = LabelFor params l s × LabelsFor params ls labels
LabelsFor params _ _ = ⊥

-- What is left of the parameters: those that the pattern does not name.
pub LeftBy : List Label → Dict Value → Dict Value → Type 0
LeftBy ls params left =
    (name : Text)
    → find name left ≡ (if any (eq_text name) (Hosts.params_of ls) then none else find name params)

find-pop :
    (name k : Text) (d : Dict Value)
    → find k (pop name d) ≡ (if eq_text name k then none else find k d)
unfolding find
find-pop name k [] = ground arith
find-pop name k ((j, v) ∷ d) =
    ground (arith, find-pop name k d, eq_text_iff j name, eq_text_iff j k, eq_text_iff name k)

find_of_pop :
    (name k : Text) (d : Dict Value) (v : Value) → find k (pop name d) ≡ some v → find k d ≡ some v
find_of_pop name k d v h = ground (arith, h, find-pop name k d)

LabelsFor-pop :
    (name : Text) (params : Dict Value) (ls : List Label) (labels : List Text)
    → LabelsFor (pop name params) ls labels
    → LabelsFor params ls labels
unfolding LabelsFor LabelFor
LabelsFor-pop name params [] [] h = tt
LabelsFor-pop name params (literal s ∷ ls) (l ∷ labels) (same, h) =
    (same, LabelsFor-pop name params ls labels h)
LabelsFor-pop name params (param n ∷ ls) (l ∷ labels) ((v, there, is_text), h) =
    ((v, find_of_pop name n params v there, is_text), LabelsFor-pop name params ls labels h)
LabelsFor-pop name params [] (l ∷ labels) h = absurd h
LabelsFor-pop name params (l ∷ ls) [] h = absurd h

LeftBy-pop :
    (name : Text) (params left : Dict Value) (ls : List Label)
    → LeftBy ls (pop name params) left
    → LeftBy (param name ∷ ls) params left
unfolding LeftBy Hosts.params_of
LeftBy-pop name params left ls h k =
    ground (arith, h k, find-pop name k params, eq_text_iff name k, eq_text_iff k name)

module _ {V : Type 0} (objects : Objects V) where
  -- The labels and what is left of the parameters.
  abbrev pub Says : Dict Value → List Label → Made Netloc → Type 0
  Says params ls (made n) = LabelsFor params ls n.labels × LeftBy ls params n.params
  Says params ls (raised p) = Unit

  abbrev TextFor : Dict Value → Text → Made Text → Type 0
  TextFor params name (made s) = LabelFor params (param name) s
  TextFor params name (raised p) = Unit

  label_text-TextFor :
      (types : Dict Inner) (params : Dict Value) (name s : Text)
      → TextFor params name (made s)
      → TextFor params name (label_text objects types name s)
  unfolding label_text
  label_text-TextFor types params name s h = elim (Bool-cases (is_label s)) [
    | inl e ↦ elim (Bool-cases (fits_type objects (find name types) s)) [
      | inl k ↦ rw (e, k, TextFor) h
      | inr k ↦ rw (e, k, TextFor) tt
    ]
    | inr e ↦ rw (e, TextFor) tt
  ]

  then_label-TextFor :
      (types : Dict Inner) (params : Dict Value) (name : Text) (s : Made Text)
      → TextFor params name s
      → TextFor params name (then_make s (label_text objects types name))
  then_label-TextFor types params name (made s) h = label_text-TextFor types params name s h
  then_label-TextFor types params name (raised p) h = tt

  text_of-TextFor :
      (params : Dict Value) (name : Text) (v : Value) (s : Made Text)
      → find name params ≡ some v
      → text_of v ≡ s
      → TextFor params name s
  unfolding LabelFor
  text_of-TextFor params name v (made s) there h = (v, there, h)
  text_of-TextFor params name v (raised p) there h = tt

  of_value-TextFor :
      (params : Dict Value) (name : Text) (o : Option Value)
      → find name params ≡ o
      → TextFor params name (of_value o)
  of_value-TextFor params name none h = tt
  of_value-TextFor params name (some v) h = text_of-TextFor params name v (text_of v) h refl

  add_literal-Says :
      (params : Dict Value) (s : Text) (ls : List Label) (n : Made Netloc)
      → Says params ls n
      → Says params (literal s ∷ ls) (then_make n (add_label objects s))
  unfolding LabelsFor LabelFor LeftBy Hosts.params_of
  add_literal-Says params s ls (made n) (labels, left) = ((refl, labels), left)
  add_literal-Says params s ls (raised p) h = tt

  add_param-Says :
      (params : Dict Value) (name s : Text) (ls : List Label) (n : Made Netloc)
      → LabelFor params (param name) s
      → Says (pop name params) ls n
      → Says params (param name ∷ ls) (then_make n (add_label objects s))
  unfolding LabelsFor
  add_param-Says params name s ls (made n) e (labels, left) =
      ((e, LabelsFor-pop name params ls n.labels labels), LeftBy-pop name params n.params ls left)
  add_param-Says params name s ls (raised p) e h = tt

  then_param-Says :
      (params : Dict Value) (name : Text) (s : Made Text) (ls : List Label) (rest : Made Netloc)
      → TextFor params name s
      → Says (pop name params) ls rest
      → Says params (param name ∷ ls) (then_make s (λ s. then_make rest (add_label objects s)))
  then_param-Says params name (made s) ls rest e h = add_param-Says params name s ls rest e h
  then_param-Says params name (raised p) ls rest e h = tt

  pub host_loop-Says :
      (types : Dict Inner) (ls : List Label) (params : Dict Value)
      → Says params ls (host_loop objects types ls params)
  unfolding host_loop LabelsFor LeftBy Hosts.params_of
  host_loop-Says types [] params = (tt, λ name. refl)
  host_loop-Says types (literal s ∷ ls) params =
      add_literal-Says params s ls (host_loop objects types ls params)
        (host_loop-Says types ls params)
  host_loop-Says types (param name ∷ ls) params =
      then_param-Says params name
        (then_make (of_value (find name params)) (label_text objects types name)) ls
        (host_loop objects types ls (pop name params))
        (then_label-TextFor types params name (of_value (find name params))
          (of_value-TextFor params name (find name params) refl))
        (host_loop-Says types ls (pop name params))
