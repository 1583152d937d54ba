-- ===== src/RateLimit/Cell.antt =====
-- The limit of one key as a specification: one timestamp, at which its whole allowance is back.
use korvex.Prelude.{
  ℕ, zero, suc, ◌+◌, ◌-◌, ◌*◌, ◌/◌, ◌≤◌, ◌<◌, max, ◌≡◌, Bool, List, [], ◌∷◌, arith,
}
use Prim.Native.Nat.{min}
use native.Mathlib.Nat.{div-eq_of_lt, div-eq-sub-div}
use korvex.Prelude.Lists.{All}
use korvex.Prelude.Tests.{ltb, if◌then◌else◌, ltb→lt, Bool-cases}
use korvex.Prelude.{inl}
use korvex.Prelude.{true}
use korvex.Prelude.{false}
use korvex.Prelude.{inr}

-- Does a request at `now` come too early?
abbrev pub too_early : ℕ → ℕ → ℕ → ℕ → Bool
too_early per interval t now = ltb now (max t now + interval - per)

-- How many of the requests at the times `nows` are allowed, from the timestamp `t`.
unfoldable pub passed : ℕ → ℕ → ℕ → List ℕ → ℕ
passed per interval t [] = 0
passed per interval t (now ∷ nows) =
    let later = passed per interval t nows in
    let after = passed per interval (max t now + interval) nows in
    if too_early per interval t now then later else suc after

abbrev pub Within : ℕ → ℕ → List ℕ → Type 0
Within a b = All (λ x. (a ≤ x) × (x ≤ b))

abbrev pub repeat : ℕ → ℕ → List ℕ
repeat zero x = []
repeat (suc m) x = x ∷ repeat m x

passed_room :
    (per interval a b t : ℕ) (nows : List ℕ)
    → Within a b nows
    → passed per interval t nows * interval + max t a ≤ max (b + per) (max t a)
unfolding passed
passed_room per interval a b t [] h = omega arith
passed_room per interval a b t (now ∷ nows) (p, h) =
    elim (Bool-cases (too_early per interval t now)) [
      | inl early ↦ rw early (passed_room per interval a b t nows h)
      | inr fine ↦
          rw fine (grind (arith, passed_room per interval a b (max t now + interval) nows h))
    ]

-- Between `a` and `b`, the requests that pass fit in `per`, and one more in each interval.
pub passed_window :
    (per interval a b t : ℕ) (nows : List ℕ)
    → Within a b nows
    → a ≤ b
    → passed per interval t nows * interval ≤ per + (b - a)
passed_window per interval a b t nows h le = omega (arith, passed_room per interval a b t nows h)

room_early :
    (per interval t now : ℕ)
    → 0 < interval
    → too_early per interval t now ≡ true
    → (now + per - max t now) / interval ≡ 0
room_early per interval t now pos early =
    div-eq_of_lt (omega (arith, ltb→lt now (max t now + interval - per) early))

room_fine :
    (per interval t now : ℕ)
    → 0 < interval
    → too_early per interval t now ≡ false
    → (now + per - max t now) / interval
      ≡ (now + per - max (max t now + interval) now) / interval + 1
room_fine per interval t now pos fine =
    let enough : interval ≤ now + per - max t now = ground arith in
    let same : now + per - max t now - interval ≡ now + per - max (max t now + interval) now =
      omega arith in
    rw (← same) (div-eq-sub-div pos enough)

-- Of `m` requests at one time, exactly as many pass as intervals fit in what is left of `per`.
pub passed-repeat :
    (per interval now m t : ℕ)
    → 0 < interval
    → passed per interval t (repeat m now) ≡ min m ((now + per - max t now) / interval)
unfolding passed
passed-repeat per interval now zero t pos = omega arith
passed-repeat per interval now (suc m) t pos = elim (Bool-cases (too_early per interval t now)) [
  | inl early ↦ rw early (
      omega
        (arith, passed-repeat per interval now m t pos, room_early per interval t now pos early))
  | inr fine ↦ rw fine (
      omega (
        arith,
        passed-repeat per interval now m (max t now + interval) pos,
        room_fine per interval t now pos fine,
      ))
]
