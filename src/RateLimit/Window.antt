-- ===== src/RateLimit/Window.antt =====
-- How many requests of a key the in-memory store lets through, and when it lets the next one.
use korvex.Prelude.{
  ℕ, zero, suc, ◌+◌, ◌-◌, ◌*◌, ◌/◌, ◌≤◌, ◌<◌, max, ◌≡◌, refl, false, not, List, [], ◌∷◌, none,
  arith, inl, inr,
}
use Prim.Native.Nat.{min}
use native.Mathlib.Nat.{mul-div_cancel, mul-div_cancel_left, div-le_self}
use korvex.Prelude.Dict.{find}
use korvex.Prelude.Lists.{All}
use korvex.Prelude.Tests.{ltb, if◌then◌else◌, Bool-cases, Option-cases}
use korvex.Prelude.Text.{Text, eq_text, eq_text_iff, eq_text_refl}
use korvex.RateLimit.{Decision, MemoryStore, refuse, accept, hit}
use korvex.RateLimit.Cell.{too_early, passed, Within, repeat, passed_window, passed-repeat}
use korvex.RateLimit.Forget.{
  UniqueKeys, timestamp, Memory, hit_forever, decisions, decisions_forever, IsMonotonic,
  decisions-eq-forever,
}

-- How many decisions let a request of `key` through.
pub allowed_for : Text → List (Text × ℕ) → List Decision → ℕ
allowed_for key ((k, now) ∷ hits) (d ∷ ds) =
    let rest = allowed_for key hits ds in
    if eq_text k key then (if d.allowed then suc rest else rest) else rest
allowed_for key _ _ = 0

-- When `key` hits.
pub times_of : Text → List (Text × ℕ) → List ℕ
times_of key [] = []
times_of key ((k, now) ∷ hits) =
    let rest = times_of key hits in if eq_text k key then now ∷ rest else rest

allowed_for-forever :
    (key : Text) (requests per : ℕ) (hits : List (Text × ℕ)) (f : Memory)
    → allowed_for key hits (decisions_forever requests per hits f)
      ≡ passed per (per / requests) (f key) (times_of key hits)
unfolding allowed_for times_of decisions_forever hit_forever passed refuse accept
allowed_for-forever key requests per [] f = refl
allowed_for-forever key requests per ((k, now) ∷ hits) f =
    elim (Bool-cases (too_early per (per / requests) (f k) now)) [
      | inl early ↦ ground (arith, allowed_for-forever key requests per hits f, eq_text_iff k key)
      | inr fine ↦ ground (
        arith,
        allowed_for-forever key requests per hits
            (λ j. if eq_text k j then max (f k) now + per / requests else f j),
        eq_text_iff k key,
      )
    ]

abbrev pub Between : ℕ → ℕ → List (Text × ℕ) → Type 0
Between a b = All (λ h. (a ≤ h.1) × (h.1 ≤ b))

times_of-Within :
    (key : Text) (a b : ℕ) (hits : List (Text × ℕ))
    → Between a b hits
    → Within a b (times_of key hits)
unfolding times_of
times_of-Within key a b [] h = tt
times_of-Within key a b ((k, now) ∷ hits) (p, h) = elim (Bool-cases (eq_text k key)) [
  | inl same ↦ rw same (p, times_of-Within key a b hits h)
  | inr other ↦ rw other (times_of-Within key a b hits h)
]

-- With `per` the time of `requests` intervals: whatever the store held and whatever other keys do,
-- the requests of a key that pass between the clock readings `a` and `b` are at most `requests` and
-- one more for each interval of `b - a`.
pub hit_rate :
    (key : Text) (requests interval a b : ℕ) (hits : List (Text × ℕ)) (s : MemoryStore)
    → 0 < requests
    → a ≤ b
    → UniqueKeys s.next_free
    → IsMonotonic a hits
    → Between a b hits
    → allowed_for key hits (decisions requests (requests * interval) hits s) * interval
      ≤ requests * interval + (b - a)
hit_rate key requests interval a b hits s pos le u m h =
    rw
      (
        decisions-eq-forever requests (requests * interval) a hits s m u,
        allowed_for-forever key requests (requests * interval) hits (timestamp s),
        mul-div_cancel_left interval pos,
      )
      (passed_window (requests * interval) interval a b (timestamp s key) (times_of key hits)
        (times_of-Within key a b hits h) le)

abbrev pub burst : ℕ → Text → ℕ → List (Text × ℕ)
burst zero key now = []
burst (suc m) key now = (key, now) ∷ burst m key now

burst-IsMonotonic : (m : ℕ) (key : Text) (now : ℕ) → IsMonotonic now (burst m key now)
burst-IsMonotonic zero key now = tt
burst-IsMonotonic (suc m) key now = (omega arith, burst-IsMonotonic m key now)

times_of-burst : (m : ℕ) (key : Text) (now : ℕ) → times_of key (burst m key now) ≡ repeat m now
unfolding times_of
times_of-burst zero key now = refl
times_of-burst (suc m) key now = rw (eq_text_refl key, times_of-burst m key now)

-- Of `m` requests at once from a key that the store does not hold, with `per` the time of
-- `requests` intervals, exactly `requests` pass, or all where there are fewer.
pub burst_allowed :
    (key : Text) (requests interval m now : ℕ) (s : MemoryStore)
    → 0 < requests
    → 0 < interval
    → UniqueKeys s.next_free
    → find key s.next_free ≡ none
    → allowed_for key
        (burst m key now)
        (decisions requests (requests * interval) (burst m key now) s)
      ≡ min m requests
burst_allowed key requests interval m now s pos ipos u fresh =
    rw
      (
        decisions-eq-forever requests (requests * interval) now (burst m key now) s
            (burst-IsMonotonic m key now) u,
        allowed_for-forever key requests (requests * interval) (burst m key now) (timestamp s),
        mul-div_cancel_left interval pos,
        times_of-burst m key now,
        passed-repeat (requests * interval) interval now m (timestamp s key) ipos,
      )
      (rw fresh (
        let room : now + requests * interval - max 0 now ≡ requests * interval = omega arith in
        rw (room, mul-div_cancel requests ipos)))

-- A refused request changes nothing in the store, and the next one of its key, at a clock reading
-- `later` that is not earlier, is allowed exactly when `retry_after` has passed.
pub retry_after_exact :
    (key : Text) (requests per now later : ℕ) (s : MemoryStore)
    → 0 < requests
    → now ≤ later
    → (hit key requests per now s).0.allowed ≡ false
    → ((hit key requests per now s).1 ≡ s)
      × ((hit key requests per later s).0.allowed
          ≡ not (ltb later (now + (hit key requests per now s).0.retry_after)))
unfolding hit refuse accept
retry_after_exact key requests per now later s pos le refused =
    let fits = div-le_self per requests in
    elim (Option-cases (find key s.next_free)) [
      | inl fresh ↦ absurd (ground (arith, fits))
      | inr (t, held) ↦ (ground (arith, fits), ground (arith, fits))
    ]
