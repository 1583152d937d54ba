-- ===== src/Urls/Lookup.antt =====
-- korvex/_urls.py: what `lookup` finds in the index that `build_index` makes.
use mathlib.Core.Path.{subst}
use korvex.Prelude.{
  Bool, true, false, List, [], ◌∷◌, ◌++◌, Option, none, some, ◌≡◌, refl, sym, inl, inr, arith,
}
use korvex.Prelude.Dict.{Dict, find, put, find-put}
use korvex.Prelude.Lists.{All, All-append}
use korvex.Prelude.Tests.{Bool-cases}
use korvex.Prelude.Text.{Text, eq_text, eq_text_iff, eq_text_refl}
use korvex.Urls.{
  Target, Index, Listed, Source, Known, Made, made, raised, or_nil, listed_under, add_target,
  add_known, add_route, add_routes, add_sources, build_index, same_place, all_at, or_list,
  targets_of, one_of, lookup,
}

-- Every target is under its own name.
abbrev AllNamed : Text → List Target → Type 0
AllNamed name ts = All (λ (t : Target). t.name ≡ name) ts

record IsNamed (d : Dict (List Target)) : Type 0 where
  named : (name : Text) → AllNamed name (listed_under name d)

add_target-IsNamed :
    (t : Target) (d : Dict (List Target)) → IsNamed d → IsNamed (add_target t.name t d)
unfolding add_target
add_target-IsNamed t d h = record { named = λ name. under name }
  where
    under :
        (name : Text)
        → AllNamed name (listed_under name (put t.name (listed_under t.name d ++ t ∷ []) d))
    under name = elim (Bool-cases (eq_text t.name name)) [
      | inl e ↦
          rw
            (
              find-put t.name name (listed_under t.name d ++ t ∷ []) d,
              or_nil,
              e,
              sym ((eq_text_iff t.name name).0 e),
            )
            (All-append (λ (u : Target). u.name ≡ t.name) (listed_under t.name d) (t ∷ [])
              (h.named t.name) (refl, tt))
      | inr e ↦
          rw (find-put t.name name (listed_under t.name d ++ t ∷ []) d, or_nil, e) (h.named name)
    ]

record IsIndex (index : Index) : Type 0 where
  explicit_named : IsNamed index.explicit
  default_named : IsNamed index.default

add_known-IsIndex :
    (s : Source) (r : Listed) (name : Text) (explicit : Bool) (index : Index)
    → IsIndex index
    → IsIndex (add_known s r name explicit index)
unfolding add_known
add_known-IsIndex s r name true index h = record {
  explicit_named = add_target-IsNamed _ index.explicit h.explicit_named;
  default_named = h.default_named;
}
add_known-IsIndex s r name false index h = record {
  explicit_named = h.explicit_named;
  default_named = add_target-IsNamed _ index.default h.default_named;
}

add_route-IsIndex :
    (s : Source) (r : Listed) (o : Option Known) (index : Index)
    → IsIndex index
    → IsIndex (add_route s r o index)
add_route-IsIndex s r none index h = h
add_route-IsIndex s r (some k) index h = named_route k.name
  where
    named_route :
        (o : Option Text)
        → IsIndex (elim o [ none ↦ index | some name ↦ add_known s r name k.explicit index ])
    named_route none = h
    named_route (some name) = add_known-IsIndex s r name k.explicit index h

module _ (table : Bool → Dict Known) where
  add_routes-IsIndex :
      (s : Source) (rs : List Listed) (index : Index)
      → IsIndex index
      → IsIndex (add_routes table s rs index)
  unfolding add_routes
  add_routes-IsIndex s [] index h = h
  add_routes-IsIndex s (r ∷ rs) index h =
      add_routes-IsIndex s rs (add_route s r (find r.key (table s.websocket)) index)
        (add_route-IsIndex s r (find r.key (table s.websocket)) index h)

  add_sources-IsIndex :
      (ss : List Source) (index : Index) → IsIndex index → IsIndex (add_sources table ss index)
  unfolding add_sources
  add_sources-IsIndex [] index h = h
  add_sources-IsIndex (s ∷ ss) index h =
      add_sources-IsIndex ss (add_routes table s s.routes index)
        (add_routes-IsIndex s s.routes index h)

  build_index-IsIndex : (ss : List Source) → IsIndex (build_index table ss)
  unfolding build_index find
  build_index-IsIndex ss =
      let none_named : IsNamed [] = record { named = λ name. tt } in
      add_sources-IsIndex ss _ (record { explicit_named = none_named; default_named = none_named })

  abbrev Found : List Target → Text → Made Target → Type 0
  Found ts name (made t) = (t.name ≡ name) × (all_at t ts ≡ true)
  Found ts name (raised p) = Unit

  same_place_refl : (t : Target) → same_place t t ≡ true
  unfolding same_place
  same_place_refl t = elim (Bool-cases t.websocket) [
    | inl e ↦ ground (arith, e, eq_text_refl t.pattern)
    | inr e ↦ ground (arith, e, eq_text_refl t.pattern)
  ]

  one_of-Found : (ts : List Target) (name : Text) → AllNamed name ts → Found ts name (one_of ts)
  one_of-Found [] name h = tt
  one_of-Found (t ∷ ts) name (h, hs) = elim (Bool-cases (all_at t ts)) [
    | inl e ↦ rw e (h, rw (same_place_refl t, e) refl)
    | inr e ↦ rw e tt
  ]

  or_list-AllNamed :
      (ts us : List Target) (name : Text)
      → AllNamed name ts
      → AllNamed name us
      → AllNamed name (or_list ts us)
  or_list-AllNamed [] us name h k = k
  or_list-AllNamed (t ∷ ts) us name h k = h

  -- A target that `lookup` finds in the index of an app's routes has the name that was asked for, and
  -- every route that the name points to, by the explicit names if it is one of them, is at its place:
  -- the same kind of route, host and path.
  pub lookup-place :
      (ss : List Source) (name : Text) (t : Target)
      → lookup (build_index table ss) name ≡ made t
      → (t.name ≡ name) × (all_at t (targets_of (build_index table ss) name) ≡ true)
  unfolding lookup targets_of
  lookup-place ss name t e =
      let index = build_index table ss in
      let h = build_index-IsIndex ss in
      let ts = or_list (listed_under name index.explicit) (listed_under name index.default) in
      subst (Found ts name) e (
        one_of-Found ts name (
          or_list-AllNamed (listed_under name index.explicit) (listed_under name index.default) name
            (h.explicit_named.named name) (h.default_named.named name)))
