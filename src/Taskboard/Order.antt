-- ===== src/Taskboard/Order.antt =====
-- examples/taskboard/taskboard/repositories.py: the order that `TaskRepository.reorder` gives the tasks of
-- a list. `current` is what its query selects, the list's tasks by position; an identifier is a number.
use korvex.Prelude.{
  ℕ, ◌+◌, ◌≡◌, refl, sym, ap, ◌∙◌, Bool, true, false, not, ◌&&◌, ◌||◌, List, [], ◌∷◌, ◌++◌, inl,
  inr, arith,
}
use korvex.Prelude.Lists.{any, keep_if}
use korvex.Prelude.Tests.{◌==◌, ==_iff, if◌then◌else◌, Bool-cases}

abbrev pub is_in : ℕ → List ℕ → Bool
is_in x xs = any (λ y. y == x) xs

-- [id for id in ids if id in known]
abbrev pub wanted : List ℕ → List ℕ → List ℕ
wanted current ids = keep_if (λ id. is_in id current) ids

-- dict.fromkeys, after the keys that were seen
unfoldable pub fresh_keys : List ℕ → List ℕ → List ℕ
fresh_keys seen [] = []
fresh_keys seen (x ∷ xs) =
    let known = fresh_keys seen xs in
    let new = x ∷ fresh_keys (x ∷ seen) xs in if is_in x seen then known else new

unfoldable pub new_order : List ℕ → List ℕ → List ℕ
unfolding fresh_keys
new_order current ids = fresh_keys [] (wanted current ids ++ current)

-- enumerate(order): each identifier with its new position
unfoldable pub positions : ℕ → List ℕ → List (ℕ × ℕ)
positions n [] = []
positions n (x ∷ xs) = (n, x) ∷ positions (n + 1) xs

-- The rows that `reorder` writes.
unfoldable pub reorder : List ℕ → List ℕ → List (ℕ × ℕ)
unfolding new_order positions
reorder current ids = positions 0 (new_order current ids)

abbrev pub AllOnce : List ℕ → Type 0
AllOnce [] = Unit
AllOnce (x ∷ xs) = (is_in x xs ≡ false) × AllOnce xs

is_in-append : (x : ℕ) (xs ys : List ℕ) → is_in x (xs ++ ys) ≡ (is_in x xs || is_in x ys)
is_in-append x [] ys = refl
is_in-append x (y ∷ xs) ys = ground (arith, is_in-append x xs ys)

is_in-fresh :
    (x : ℕ) (seen xs : List ℕ) → is_in x (fresh_keys seen xs) ≡ (is_in x xs && not (is_in x seen))
unfolding fresh_keys
is_in-fresh x seen [] = refl
is_in-fresh x seen (y ∷ xs) = elim (Bool-cases (y == x)) [
  | inl e ↦
      let same : y ≡ x = (==_iff y x).0 e in
      rw same (ground (arith, is_in-fresh x seen xs, is_in-fresh x (x ∷ seen) xs))
  | inr e ↦ ground (arith, is_in-fresh x seen xs, is_in-fresh x (y ∷ seen) xs, e)
]

fresh-AllOnce : (seen xs : List ℕ) → AllOnce (fresh_keys seen xs)
unfolding fresh_keys
fresh-AllOnce seen [] = tt
fresh-AllOnce seen (x ∷ xs) = elim (Bool-cases (is_in x seen)) [
  | inl e ↦ rw e (fresh-AllOnce seen xs)
  | inr e ↦ rw e (ground (arith, is_in-fresh x (x ∷ seen) xs), fresh-AllOnce (x ∷ seen) xs)
]

is_in-wanted :
    (x : ℕ) (current ids : List ℕ) → is_in x (wanted current ids) ≡ (is_in x ids && is_in x current)
is_in-wanted x current [] = refl
is_in-wanted x current (y ∷ ids) = elim (Bool-cases (y == x)) [
  | inl e ↦
      let same : y ≡ x = (==_iff y x).0 e in rw same (ground (arith, is_in-wanted x current ids))
  | inr e ↦ ground (arith, is_in-wanted x current ids, e)
]

is_in-new_order : (x : ℕ) (current ids : List ℕ) → is_in x (new_order current ids) ≡ is_in x current
unfolding new_order
is_in-new_order x current ids = ground (
  arith,
  is_in-fresh x [] (wanted current ids ++ current),
  is_in-append x (wanted current ids) current,
  is_in-wanted x current ids,
)

fresh-unlike :
    (x y : ℕ) (ys seen t : List ℕ)
    → is_in x ys ≡ false
    → is_in y ys ≡ true
    → is_in y seen ≡ is_in y t
    → is_in y (x ∷ seen) ≡ is_in y t
fresh-unlike x y ys seen t new k h = elim (Bool-cases (x == y)) [
  | inl e ↦ let same : x ≡ y = (==_iff x y).0 e in cc
  | inr e ↦ ground (arith, e, h)
]

seen_already :
    (x y : ℕ) (xs seen t : List ℕ)
    → is_in x seen ≡ true
    → is_in y t ≡ (is_in y (x ∷ xs) || is_in y seen)
    → is_in y t ≡ (is_in y xs || is_in y seen)
seen_already x y xs seen t e h = elim (Bool-cases (x == y)) [
  | inl k ↦ let same : x ≡ y = (==_iff x y).0 k in h ∙ rw same (ground (arith, e, same))
  | inr k ↦ ground (arith, k, h)
]

-- Keys that stand once are kept unless they were seen.
fresh-once :
    (seen t ys : List ℕ)
    → AllOnce ys
    → ((y : ℕ) → is_in y ys ≡ true → is_in y seen ≡ is_in y t)
    → fresh_keys seen ys ≡ keep_if (λ y. not (is_in y t)) ys
unfolding fresh_keys
fresh-once seen t [] once h = refl
fresh-once seen t (x ∷ ys) (new, once) h =
    let here : is_in x seen ≡ is_in x t = h x (ground (arith)) in
    let later = λ (y : ℕ) (k : is_in y ys ≡ true). h y (ground (arith, k)) in
    let unlike = λ (y : ℕ) (k : is_in y ys ≡ true). fresh-unlike x y ys seen t new k (later y k) in
    elim (Bool-cases (is_in x t)) [
      | inl e ↦ rw (here, e) (fresh-once seen t ys once later)
      | inr e ↦ rw (here, e) (ap (λ zs. x ∷ zs) (fresh-once (x ∷ seen) t ys once unlike))
    ]

fresh-append :
    (seen t xs ys : List ℕ)
    → AllOnce ys
    → ((y : ℕ) → is_in y t ≡ (is_in y xs || is_in y seen))
    → fresh_keys seen (xs ++ ys) ≡ fresh_keys seen xs ++ keep_if (λ y. not (is_in y t)) ys
unfolding fresh_keys
fresh-append seen t [] ys once h = fresh-once seen t ys once (λ y k. sym (h y))
fresh-append seen t (x ∷ xs) ys once h = elim (Bool-cases (is_in x seen)) [
  | inl e ↦ rw e (fresh-append seen t xs ys once (λ y. seen_already x y xs seen t e (h y)))
  | inr e ↦
      rw e (ap (λ zs. x ∷ zs) (fresh-append (x ∷ seen) t xs ys once (λ y. ground (arith, h y))))
]

-- Where each task stands once in the list, so it does in the new order, and no other: first the identifiers that were given, each
-- where it was given first, and then the tasks that were left out, in the order that they had.
pub new_order-AllOnce :
    (current ids : List ℕ)
    → AllOnce current
    → AllOnce (new_order current ids)
      × ((x : ℕ) → is_in x (new_order current ids) ≡ is_in x current)
      × (new_order current ids
          ≡ fresh_keys [] (wanted current ids)
            ++ keep_if (λ y. not (is_in y (wanted current ids))) current)
unfolding new_order
new_order-AllOnce current ids once = (
  fresh-AllOnce [] (wanted current ids ++ current),
  λ x. is_in-new_order x current ids,
  fresh-append [] (wanted current ids) (wanted current ids) current once (λ y. ground arith),
)
