-- ===== src/Router/Cache.antt =====
-- The cache cannot be seen: every lookup is answered as the base class would answer it now.
use korvex.Prelude.{
  suc, ◌≤◌, ◌≡◌, refl, sym, ◌∙◌, true, List, [], ◌∷◌, Option, none, some, arith, inl, inr,
}
use korvex.Prelude.Lists.{All, length}
use korvex.Prelude.Tests.{Bool-cases}
use korvex.Prelude.Text.{Text, eq_text_sound}
use korvex.Router.{Core, cache_size, Entry, is_for, cached, without_entry, Router}
use korvex.Prelude.{Option}
use korvex.Prelude.{suc}
use korvex.Router.{match}
use korvex.Router.{cleared}
use korvex.Prelude.{◌∙◌}
use korvex.Router.{route}
use korvex.Prelude.Tests.{Option-cases}
use korvex.Router.{remove}
use korvex.Prelude.{sym}
use korvex.Router.{is_result}
use korvex.Router.{constraint}
use korvex.Prelude.Lists.{All-take}
use korvex.Prelude.Lists.{length-take-le}
use korvex.Prelude.{Bool}

-- A call of a router.
pub data Call : Type 0 where
  matching : Text → Text → Call
  routing : Text → Text → Text → List Text → Call
  removing : Text → Text → Call
  constraining : Text → Text → Call

abbrev or_else {ℓ} : {A : Type ℓ} → A → Option A → A
or_else a none = a
or_else a (some b) = b

or_else_cases {ℓ κ} :
    {A : Type ℓ} (P : A → Type κ) (a : A) (o : Option A)
    → P a
    → ((b : A) → o ≡ some b → P b)
    → P (or_else a o)
or_else_cases P a none p q = p
or_else_cases P a (some b) p q = q b refl

is_for_sound :
    (path method : Text) (e : Entry)
    → is_for path method e ≡ true
    → (e.path ≡ path) × (e.method ≡ method)
unfolding is_for
is_for_sound path method e h =
    (eq_text_sound e.path path (ground arith), eq_text_sound e.method method (ground arith))

module _ (core : Core) where
  open core use {Table}

  -- The entry holds what the base class answers.
  abbrev IsRight : Table → Entry → Type 0
  IsRight table e = core.match e.path e.method table ≡ e.answer

  pub record IsValid (r : Router core) : Type 0 where
    pub right : All (IsRight r.table) r.cache
    pub bounded : length r.cache ≤ cache_size

  cached-IsRight :
      (table : Table) (path method : Text) (es : List Entry) (e : Entry)
      → All (IsRight table) es
      → cached path method es ≡ some e
      → IsRight table e × (core.match path method table ≡ e.answer)
  unfolding cached
  cached-IsRight table path method [] e h c = cc
  cached-IsRight table path method (d ∷ es) e (p, h) c = elim (Bool-cases (is_for path method d)) [
    | inl same ↦
        let this : d ≡ e = ground arith in
        let (same_path, same_method) = is_for_sound path method d same in
        rw (← this) (p, rw (← same_path, ← same_method) p)
    | inr other ↦ cached-IsRight table path method es e h (ground arith)
  ]

  without_entry-IsRight :
      (table : Table) (path method : Text) (es : List Entry)
      → All (IsRight table) es
      → All (IsRight table) (without_entry path method es)
  unfolding without_entry
  without_entry-IsRight table path method [] h = tt
  without_entry-IsRight table path method (e ∷ es) (p, h) =
      elim (Bool-cases (is_for path method e)) [
        | inl same ↦ rw same (without_entry-IsRight table path method es h)
        | inr other ↦ rw other (p, without_entry-IsRight table path method es h)
      ]

  without_entry-le :
      (path method : Text) (es : List Entry) → length (without_entry path method es) ≤ length es
  unfolding without_entry
  without_entry-le path method [] = omega arith
  without_entry-le path method (e ∷ es) = ground (arith, without_entry-le path method es)

  without_entry-lt :
      (path method : Text) (es : List Entry) (e : Entry)
      → cached path method es ≡ some e
      → suc (length (without_entry path method es)) ≤ length es
  unfolding cached without_entry
  without_entry-lt path method [] e c = cc
  without_entry-lt path method (d ∷ es) e c =
      ground (arith, without_entry-le path method es, without_entry-lt path method es e)

  -- A lookup is answered as the base class answers it, and changes neither the table nor the version.
  match_right :
      (path method : Text) (r : Router core)
      → IsValid r
      → ((match core path method r).0 ≡ core.match path method r.table)
        × ((match core path method r).1.table ≡ r.table)
        × ((match core path method r).1.version ≡ r.version)
  unfolding match
  match_right path method r v = elim (Option-cases (cached path method r.cache)) [
    | inl new ↦ rw (new, match) (ground arith)
    | inr (e, old) ↦
        rw (old, match)
          (sym (cached-IsRight r.table path method r.cache e v.right old).1, refl, refl)
  ]

  match-IsValid :
      (path method : Text) (r : Router core) → IsValid r → IsValid (match core path method r).1
  unfolding match
  match-IsValid path method r v = elim (Option-cases (cached path method r.cache)) [
    | inl new ↦ elim (Bool-cases (is_result (core.match path method r.table))) [
      | inl kept ↦
          let now : Entry = record {
            path = path;
            method = method;
            answer = core.match path method r.table;
          } in
          rw (new, match)
            (rw kept (record {
              right = All-take (IsRight r.table) cache_size (now ∷ r.cache) (refl, v.right);
              bounded = length-take-le cache_size (now ∷ r.cache);
            }))
      | inr raised ↦ rw (new, match) (rw raised v)
    ]
    | inr (e, old) ↦
        rw (old, match)
          (record {
            right = (
              (cached-IsRight r.table path method r.cache e v.right old).0,
              without_entry-IsRight r.table path method r.cache v.right,
            );
            bounded = omega (arith, without_entry-lt path method r.cache e old, v.bounded);
          })
  ]

  -- Defining a constraint changes no answer of the base class: only routes added later can name it.
  abbrev pub ConstraintsAreNew : Type 0
  ConstraintsAreNew =
      (name pattern path method : Text) (table table' : Table)
      → core.constraint name pattern table ≡ some table'
      → core.match path method table' ≡ core.match path method table

  cleared-IsValid : (table : Table) (r : Router core) → IsValid (cleared core table r)
  unfolding cleared
  cleared-IsValid table r = record { right = tt; bounded = omega arith }

  after_remove : Option (Bool × Router core) → Option (Router core)
  after_remove none = none
  after_remove (some (removed, r)) = some r

  -- One call; one that raises leaves the router as it was.
  pub step : Call → Router core → Router core
  step (matching path method) r = (match core path method r).1
  step (routing path handler method middleware) r =
      or_else r (route core path handler method middleware r)
  step (removing path method) r = or_else r (after_remove (remove core path method r))
  step (constraining name pattern) r = or_else r (constraint core name pattern r)

  pub run : List Call → Router core → Router core
  run [] r = r
  run (c ∷ calls) r = run calls (step c r)

  recheck :
      (table table' : Table) (es : List Entry)
      → ((path method : Text) → core.match path method table' ≡ core.match path method table)
      → All (IsRight table) es
      → All (IsRight table') es
  recheck table table' [] same h = tt
  recheck table table' (e ∷ es) same (p, h) =
      (same e.path e.method ∙ p, recheck table table' es same h)

  route-IsValid :
      (path handler method : Text) (middleware : List Text) (r r' : Router core)
      → route core path handler method middleware r ≡ some r'
      → IsValid r'
  unfolding route
  route-IsValid path handler method middleware r r' e =
      elim (Option-cases (core.route path handler method middleware r.table)) [
        | inl raised ↦ cc (rw (raised, route) at e)
        | inr (table, added) ↦
            let same : cleared core table r ≡ r' = cc (rw (added, route) at e) in
            rw (← same) (cleared-IsValid table r)
      ]

  remove-IsValid :
      (path method : Text) (r r' : Router core)
      → after_remove (remove core path method r) ≡ some r'
      → IsValid r'
  unfolding remove after_remove
  remove-IsValid path method r r' e = elim (Option-cases (core.remove path method r.table)) [
    | inl raised ↦ cc (rw (raised, remove) at e)
    | inr ((removed, table), done) ↦
        let same : cleared core table r ≡ r' = cc (rw (done, remove) at e) in
        rw (← same) (cleared-IsValid table r)
  ]

  module _ (law : ConstraintsAreNew) where
    constraint-IsValid :
        (name pattern : Text) (r r' : Router core)
        → IsValid r
        → constraint core name pattern r ≡ some r'
        → IsValid r'
    unfolding constraint
    constraint-IsValid name pattern r r' v e =
        elim (Option-cases (core.constraint name pattern r.table)) [
          | inl raised ↦ cc (rw (raised, constraint) at e)
          | inr (table, defined) ↦
              let new : Router core = record r { table = table } in
              let same : new ≡ r' = cc (rw (defined, constraint) at e) in
              rw (← same) (record {
                right =
                    recheck r.table table r.cache
                      (λ path method. law name pattern path method r.table table defined) v.right;
                bounded = v.bounded;
              })
        ]

    step-IsValid : (c : Call) (r : Router core) → IsValid r → IsValid (step c r)
    unfolding step
    step-IsValid (matching path method) r v = match-IsValid path method r v
    step-IsValid (routing path handler method middleware) r v =
        or_else_cases IsValid r (route core path handler method middleware r) v
          (route-IsValid path handler method middleware r)
    step-IsValid (removing path method) r v =
        or_else_cases IsValid r (after_remove (remove core path method r)) v
          (remove-IsValid path method r)
    step-IsValid (constraining name pattern) r v =
        or_else_cases IsValid r (constraint core name pattern r) v
          (λ r' e. constraint-IsValid name pattern r r' v e)

    run-IsValid : (calls : List Call) (r : Router core) → IsValid r → IsValid (run calls r)
    unfolding run
    run-IsValid [] r v = v
    run-IsValid (c ∷ calls) r v = run-IsValid calls (step c r) (step-IsValid c r v)

    -- After any calls on a router that started with an empty cache, a lookup gives what the base
    -- class gives for the present routes, whatever lookups were made before, and the cache holds at
    -- most `CACHE_SIZE` entries; this needs of the base class that a new constraint changes no answer.
    pub match-run :
        (calls : List Call) (r : Router core) (path method : Text)
        → r.cache ≡ []
        → ((match core path method (run calls r)).0 ≡ core.match path method (run calls r).table)
          × (length (run calls r).cache ≤ cache_size)
    match-run calls r path method start =
        let v =
          run-IsValid calls r (record { right = rw start tt; bounded = rw start (omega arith) }) in
        ((match_right path method (run calls r) v).0, v.bounded)
