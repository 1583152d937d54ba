-- ===== src/RateLimit/Hooks.antt =====
-- korvex/middleware/_rate_limit.py: the two hooks of `rate_limit()` over the in-memory store, the
-- context variable that they share, and the answer for a store that cannot be reached.
-- `second` is how many units of time a second has.
use korvex.Prelude.{ℕ, ◌+◌, ◌-◌, ◌/◌, Bool, true, false, [], ◌∷◌, Option, none, some}
use korvex.Prelude.Decimal.{show}
use korvex.Prelude.Tests.{if◌then◌else◌}
use korvex.Prelude.Text.{Text, codes}
use korvex.Response
use korvex.Response.{Response, set_header}
use korvex.Request.{Request}
use korvex.RateLimit.{Decision, MemoryStore, hit}

-- math.ceil(t), in seconds
unfoldable pub ceil : ℕ → ℕ → ℕ
ceil second t = (t + (second - 1)) / second

-- `_client_address`
unfoldable pub client_address : Request → Option Text
client_address request = elim request.client [
  | none ↦ some (codes "unknown")
  | some client ↦ some client.0
]

unfoldable pub too_many_requests : ℕ → Decision → Response
too_many_requests second d =
    Response.text (codes "Too Many Requests") 429
      ((codes "Retry-After", show (ceil second d.retry_after)) ∷ [])

-- `answer`, the setting of the context variable aside
unfoldable pub answer : ℕ → Decision → Option Response
answer second d = if d.allowed then none else some (too_many_requests second d)

-- The store, and the context variable `_decision`.
pub record Limiter : Type 0 where
  pub store : MemoryStore
  pub decision : Option Decision

-- The before hook `check`, for the clock's reading `now`.
unfoldable pub check :
    (Request → Option Text) → ℕ → ℕ → ℕ → ℕ → Request → Limiter → Option Response × Limiter
unfolding answer
check key requests per second now request l = elim (key request) [
  | none ↦ (none, record l { decision = none })
  | some who ↦
      let (d, store) = hit who requests per now l.store in
      (answer second d, record { store = store; decision = some d })
]

-- The after hook `add_headers`.
unfoldable pub add_headers : ℕ → ℕ → Response → Limiter → Response
unfolding set_header
add_headers requests second response l = elim l.decision [
  | none ↦ response
  | some d ↦
      set_header
        (set_header (set_header response (codes "RateLimit-Limit") (show requests))
          (codes "RateLimit-Remaining") (show d.remaining))
        (codes "RateLimit-Reset") (show (ceil second d.reset))
]

-- `RedisStore.hit` where the script's call raises.
unfoldable pub unreachable : Bool → ℕ → Decision
unreachable fail_open requests =
    if fail_open
    then record { allowed = true; remaining = requests; retry_after = 0; reset = 0 }
    else record { allowed = false; remaining = 0; retry_after = 1; reset = 1 }
