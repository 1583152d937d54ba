-- ===== src/Binding/Values.antt =====
-- korvex/_schema.py: `_unique`, over the errors of a request.
use korvex.Prelude.{true, false, not, ◌&&◌, List, [], ◌∷◌, ◌≡◌, refl, inl, inr, arith}
use korvex.Prelude.Lists.{any}
use korvex.Prelude.Tests.{Bool-cases}
use korvex.Prelude.Text.{Text, eq_text_iff, eq_text_refl}
use korvex.Errors.{FieldError}
use korvex.Binding.{same_loc, same_error, unique_from, unique}

same_loc_sound : (a b : List Text) → same_loc a b ≡ true → a ≡ b
unfolding same_loc
same_loc_sound [] [] h = refl
same_loc_sound (s ∷ a) (t ∷ b) h = ground (arith, eq_text_iff s t, same_loc_sound a b, h)
same_loc_sound [] (t ∷ b) h = cc
same_loc_sound (s ∷ a) [] h = cc

same_loc_refl : (a : List Text) → same_loc a a ≡ true
unfolding same_loc
same_loc_refl [] = refl
same_loc_refl (s ∷ a) = rw (eq_text_refl s, same_loc_refl a) refl

same_error_refl : (e : FieldError) → same_error e e ≡ true
unfolding same_error
same_error_refl e = rw (same_loc_refl e.loc, eq_text_refl e.kind) refl

-- Errors of one location and type are told apart from another alike.
same_error-alike :
    (e f : FieldError) → same_error e f ≡ true → (g : FieldError) → same_error e g ≡ same_error f g
unfolding same_error
same_error-alike e f h g =
    let loc : e.loc ≡ f.loc = same_loc_sound e.loc f.loc (ground (arith, h)) in
    let kind : e.kind ≡ f.kind = (eq_text_iff e.kind f.kind).0 (ground (arith, h)) in
    rw (loc, kind) refl

any-alike :
    (e f : FieldError)
    → same_error e f ≡ true
    → (es : List FieldError) → any (same_error e) es ≡ any (same_error f) es
any-alike e f h [] = refl
any-alike e f h (g ∷ es) = rw (same_error-alike e f h g, any-alike e f h es) refl

any-unique_from :
    (e : FieldError) (seen es : List FieldError)
    → any (same_error e) (unique_from seen es)
      ≡ (any (same_error e) es && not (any (same_error e) seen))
unfolding unique_from
any-unique_from e seen [] = refl
any-unique_from e seen (f ∷ es) = elim (Bool-cases (same_error e f)) [
  | inl h ↦
      ground
        (arith, any-alike e f h seen, any-unique_from e seen es, any-unique_from e (f ∷ seen) es, h)
  | inr h ↦ ground (arith, any-unique_from e seen es, any-unique_from e (f ∷ seen) es, h)
]

abbrev pub AllDifferent : List FieldError → Type 0
AllDifferent [] = Unit
AllDifferent (e ∷ es) = (any (same_error e) es ≡ false) × AllDifferent es

unique_from-AllDifferent : (seen es : List FieldError) → AllDifferent (unique_from seen es)
unfolding unique_from
unique_from-AllDifferent seen [] = tt
unique_from-AllDifferent seen (f ∷ es) = elim (Bool-cases (any (same_error f) seen)) [
  | inl h ↦ rw h (unique_from-AllDifferent seen es)
  | inr h ↦ rw h (
    ground (arith, any-unique_from f (f ∷ seen) es, same_error_refl f),
    unique_from-AllDifferent (f ∷ seen) es,
  )
]

-- The errors that a 422 lists have different locations or types, and an error's location and type are
-- among them exactly when they were among the errors that were found.
pub unique-AllDifferent :
    (es : List FieldError)
    → AllDifferent (unique es)
      × ((e : FieldError) → any (same_error e) (unique es) ≡ any (same_error e) es)
unfolding unique
unique-AllDifferent es =
    (unique_from-AllDifferent [] es, λ e. ground (arith, any-unique_from e [] es))
