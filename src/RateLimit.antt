-- ===== src/RateLimit.antt =====
-- korvex/middleware/_rate_limit.py: the in-memory store and its decisions.
-- Times are natural numbers of one unit, where the source has floats: exact where the clock's
-- readings and `per / requests` are whole numbers of that unit. The subtraction of ℕ stops at 0, so
-- `full_back - per + interval` is written `full_back + interval - per`: where the source's value is
-- negative it is 0 here, and `now < 0` is as false as `now < allowed_at` is there.
-- A hit runs under the store's lock, so it is one step.
pub mod Cell
pub mod Forget
pub mod Window
pub mod Hooks
pub mod Answers
use korvex.Prelude.{ℕ, ◌+◌, ◌-◌, ◌/◌, ◌%◌, max, Bool, true, false, [], ◌∷◌, Option, none, some}
use korvex.Prelude.Dict.{Dict, find, put}
use korvex.Prelude.Tests.{ltb, ◌==◌, if◌then◌else◌}
use korvex.Prelude.Text.{Text}

pub record Decision : Type 0 where
  pub allowed : Bool
  pub remaining : ℕ
  pub retry_after : ℕ
  pub reset : ℕ

pub record MemoryStore : Type 0 where
  pub next_free : Dict ℕ
  pub calls : ℕ

abbrev pub new_store : MemoryStore
new_store = record { next_free = []; calls = 0 }

abbrev pub get_or {ℓ} : {A : Type ℓ} → Option A → A → A
get_or none d = d
get_or (some a) d = a

-- The entries with t > now.
unfoldable pub still_busy : ℕ → Dict ℕ → Dict ℕ
still_busy now [] = []
still_busy now ((k, t) ∷ d) =
    let rest = still_busy now d in if ltb now t then (k, t) ∷ rest else rest

unfoldable pub forget_old : ℕ → MemoryStore → MemoryStore
forget_old now s =
    let calls = s.calls + 1 in
    record {
      next_free = if calls % 1000 == 0 then still_busy now s.next_free else s.next_free;
      calls = calls;
    }

unfoldable pub refuse : ℕ → ℕ → ℕ → Decision
refuse allowed_at full_back now = record {
  allowed = false;
  remaining = 0;
  retry_after = allowed_at - now;
  reset = full_back - now;
}

-- For the `full_back` that already counts this request.
unfoldable pub accept : ℕ → ℕ → ℕ → ℕ → Decision
accept per interval full_back now = record {
  allowed = true;
  remaining = (per - (full_back - now)) / interval;
  retry_after = 0;
  reset = full_back - now;
}

-- `_hit`, for the clock's reading `now`.
unfoldable pub hit : Text → ℕ → ℕ → ℕ → MemoryStore → Decision × MemoryStore
unfolding refuse accept
hit key requests per now s =
    let interval = per / requests in
    let full_back = max (get_or (find key s.next_free) now) now in
    let allowed_at = full_back + interval - per in
    if ltb now allowed_at then (refuse allowed_at full_back now, s) else (
      accept per interval (full_back + interval) now,
      forget_old now (record s { next_free = put key (full_back + interval) s.next_free }),
    )
