-- ===== src/RateLimit/Forget.antt =====
-- Forgetting old keys changes no decision: the store against one that keeps a timestamp for ever.
use korvex.Prelude.{
  ℕ, ◌+◌, ◌-◌, ◌/◌, ◌%◌, ◌≤◌, max, ◌≡◌, refl, List, [], ◌∷◌, Option, none, some, arith, inl, inr,
}
use korvex.Prelude.Dict.{Dict, find, put, find-put}
use korvex.Prelude.Tests.{ltb, ◌==◌, if◌then◌else◌, Bool-cases}
use korvex.Prelude.Text.{Text, eq_text, eq_text_iff}
use korvex.RateLimit.{Decision, MemoryStore, get_or, still_busy, forget_old, refuse, accept, hit}
use korvex.RateLimit.Cell.{too_early}

abbrev pub UniqueKeys : Dict ℕ → Type 0
UniqueKeys [] = Unit
UniqueKeys ((k, t) ∷ d) = (find k d ≡ none) × UniqueKeys d

-- The timestamp that the store has for a key, 0 where it has none.
abbrev pub timestamp : MemoryStore → Text → ℕ
timestamp s k = get_or (find k s.next_free) 0

-- The timestamps of every key ever seen.
abbrev pub Memory : Type 0
Memory = Text → ℕ

abbrev update : Memory → Text → ℕ → Memory
update f k t j = if eq_text k j then t else f j

-- A hit on a store that never forgets.
unfoldable pub hit_forever : Text → ℕ → ℕ → ℕ → Memory → Decision × Memory
hit_forever key requests per now f =
    let interval = per / requests in
    let full_back = max (f key) now in
    if too_early per interval (f key) now
    then (refuse (full_back + interval - per) full_back now, f)
    else (accept per interval (full_back + interval) now, update f key (full_back + interval))

-- At `now` or later, the store and the memory give the same times.
record Agrees (now : ℕ) (s : MemoryStore) (f : Memory) : Type 0 where
  unique : UniqueKeys s.next_free
  times : (k : Text) → max (timestamp s k) now ≡ max (f k) now

Agrees-later :
    {now later : ℕ} {s : MemoryStore} {f : Memory} → Agrees now s f → now ≤ later → Agrees later s f
Agrees-later a le = record { unique = a.unique; times = λ k. omega (arith, a.times k) }

put-UniqueKeys : (k : Text) (t : ℕ) (d : Dict ℕ) → UniqueKeys d → UniqueKeys (put k t d)
unfolding find put
put-UniqueKeys k t [] h = (refl, tt)
put-UniqueKeys k t ((j, u) ∷ d) (fresh, h) = elim (Bool-cases (eq_text j k)) [
  | inl same ↦ rw same (fresh, h)
  | inr other ↦
      rw other
        (ground (arith, find-put k j t d, eq_text_iff k j, eq_text_iff j k), put-UniqueKeys k t d h)
]

-- What is left of an entry.
abbrev busy : ℕ → Option ℕ → Option ℕ
busy now none = none
busy now (some t) = if ltb now t then some t else none

find-still_busy :
    (now : ℕ) (k : Text) (d : Dict ℕ)
    → UniqueKeys d
    → find k (still_busy now d) ≡ busy now (find k d)
unfolding find still_busy
find-still_busy now k [] h = refl
find-still_busy now k ((j, t) ∷ d) (fresh, h) =
    ground (arith, find-still_busy now k d h, eq_text_iff j k)

still_busy-UniqueKeys : (now : ℕ) (d : Dict ℕ) → UniqueKeys d → UniqueKeys (still_busy now d)
unfolding still_busy
still_busy-UniqueKeys now [] h = tt
still_busy-UniqueKeys now ((j, t) ∷ d) (fresh, h) = elim (Bool-cases (ltb now t)) [
  | inl late ↦ rw late (ground (arith, find-still_busy now j d h), still_busy-UniqueKeys now d h)
  | inr early ↦ rw early (still_busy-UniqueKeys now d h)
]

forget_old-Agrees :
    (now : ℕ) (s : MemoryStore) (f : Memory) → Agrees now s f → Agrees now (forget_old now s) f
unfolding forget_old
forget_old-Agrees now s f a = elim (Bool-cases ((s.calls + 1) % 1000 == 0)) [
  | inl full ↦ rw full (record {
    unique = still_busy-UniqueKeys now s.next_free a.unique;
    times = λ k. ground (arith, find-still_busy now k s.next_free a.unique, a.times k);
  })
  | inr not_full ↦ rw not_full (record { unique = a.unique; times = a.times })
]

full_back-Agrees :
    (now : ℕ) (s : MemoryStore) (f : Memory) (k : Text)
    → Agrees now s f
    → max (get_or (find k s.next_free) now) now ≡ max (f k) now
full_back-Agrees now s f k a = ground (arith, a.times k)

update-Agrees :
    (now t : ℕ) (k : Text) (s : MemoryStore) (f : Memory)
    → Agrees now s f
    → Agrees now (record s { next_free = put k t s.next_free }) (update f k t)
update-Agrees now t k s f a = record {
  unique = put-UniqueKeys k t s.next_free a.unique;
  times = λ j. ground (arith, find-put k j t s.next_free, a.times j);
}

hit-hit_forever :
    (key : Text) (requests per now : ℕ) (s : MemoryStore) (f : Memory)
    → Agrees now s f
    → (hit key requests per now s).0 ≡ (hit_forever key requests per now f).0
unfolding hit hit_forever
hit-hit_forever key requests per now s f a = rw (full_back-Agrees now s f key a) (ground arith)

hit-Agrees :
    (key : Text) (requests per now : ℕ) (s : MemoryStore) (f : Memory)
    → Agrees now s f
    → Agrees now (hit key requests per now s).1 (hit_forever key requests per now f).1
unfolding hit hit_forever
hit-Agrees key requests per now s f a =
    rw (full_back-Agrees now s f key a)
      (elim (Bool-cases (too_early per (per / requests) (f key) now)) [
        | inl early ↦ rw early a
        | inr fine ↦ rw fine (
            forget_old-Agrees now _ _
              (update-Agrees now (max (f key) now + per / requests) key s f a))
      ])

-- Hits, each with its key and the clock's reading.
unfoldable pub decisions : ℕ → ℕ → List (Text × ℕ) → MemoryStore → List Decision
decisions requests per [] s = []
decisions requests per ((key, now) ∷ hits) s =
    let (d, s') = hit key requests per now s in d ∷ decisions requests per hits s'

unfoldable pub decisions_forever : ℕ → ℕ → List (Text × ℕ) → Memory → List Decision
decisions_forever requests per [] f = []
decisions_forever requests per ((key, now) ∷ hits) f =
    let (d, f') = hit_forever key requests per now f in d ∷ decisions_forever requests per hits f'

-- The clock never goes back.
abbrev pub IsMonotonic : ℕ → List (Text × ℕ) → Type 0
IsMonotonic last [] = Unit
IsMonotonic last ((key, now) ∷ hits) = (last ≤ now) × IsMonotonic now hits

decisions-eq-forever_from :
    (requests per last : ℕ) (hits : List (Text × ℕ)) (s : MemoryStore) (f : Memory)
    → IsMonotonic last hits
    → Agrees last s f
    → decisions requests per hits s ≡ decisions_forever requests per hits f
unfolding decisions decisions_forever
decisions-eq-forever_from requests per last [] s f m a = refl
decisions-eq-forever_from requests per last ((key, now) ∷ hits) s f (le, m) a =
    let here = Agrees-later a le in
    rw (
      hit-hit_forever key requests per now s f here,
      decisions-eq-forever_from requests per now hits (hit key requests per now s).1
          (hit_forever key requests per now f).1 m (hit-Agrees key requests per now s f here),
    )

-- The store whose table has one entry for each key decides every sequence of hits at monotonic
-- clock readings as a store that keeps each key's timestamp for ever: dropping the keys whose
-- allowance is back, on every thousandth allowed hit, changes no decision.
pub decisions-eq-forever :
    (requests per last : ℕ) (hits : List (Text × ℕ)) (s : MemoryStore)
    → IsMonotonic last hits
    → UniqueKeys s.next_free
    → decisions requests per hits s ≡ decisions_forever requests per hits (timestamp s)
decisions-eq-forever requests per last hits s m u =
    decisions-eq-forever_from requests per last hits s (timestamp s) m
      (record { unique = u; times = λ k. refl })
