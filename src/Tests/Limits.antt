-- ===== src/Tests/Limits.antt =====
-- The rate limiter.
use korvex.Prelude.{ℕ, ◌+◌, ◌-◌, ◌*◌, ◌≤◌, not, List, [], ◌∷◌, none, some, ◌≡◌, refl, arith}
use korvex.Prelude.Dict.{find}
use korvex.Prelude.Tests.{ltb}
use korvex.Prelude.Text.{Text, codes}
use korvex.Request.{Request}
use korvex.Prelude.Text.{lower, lower_code, eq_text}
use korvex.Prelude.Decimal.{show, value}
use korvex.RateLimit.Hooks.{ceil}
use korvex.Response.{with_type, default_header, set_header, make}
use korvex.Response
use korvex.Headers
use korvex.Response.{Response}
use korvex.RateLimit.{MemoryStore, new_store, hit}
use korvex.RateLimit.Forget.{decisions, decisions_forever, timestamp, decisions-eq-forever}
use korvex.RateLimit.Window.{allowed_for, hit_rate, retry_after_exact}
use korvex.RateLimit.Hooks.{Limiter}
use korvex.RateLimit.Answers.{wait_of}
use korvex.Prelude.Text.{eq_text}
use korvex.RateLimit.Hooks.{too_many_requests}
use korvex.RateLimit.{refuse}
use korvex.RateLimit.{accept}
use korvex.Response.{default_header}
use korvex.Response.{set_header}
use korvex.Response.{make}
use korvex.Prelude.Text.{lower}

abbrev ann : Text
ann = codes "ann"

abbrev hits : List (Text × ℕ)
hits = (ann, 0) ∷ (ann, 1) ∷ (codes "bob", 1) ∷ (ann, 2) ∷ []

decisions-eq-forever_example :
    decisions 2 20 hits new_store ≡ decisions_forever 2 20 hits (timestamp new_store)
decisions-eq-forever_example =
    decisions-eq-forever 2 20 0 hits new_store
      (omega arith, (omega arith, (omega arith, (omega arith, tt)))) tt

hit_rate_example :
    allowed_for ann hits (decisions 2 (2 * 10) hits new_store) * 10 ≤ 2 * 10 + (5 - 0)
hit_rate_example =
    hit_rate ann 2 10 0 5 hits new_store (omega arith) (omega arith) tt
      (omega arith, (omega arith, (omega arith, (omega arith, tt))))
      (
        (omega arith, omega arith),
        (
          (omega arith, omega arith),
          ((omega arith, omega arith), ((omega arith, omega arith), tt)),
        ),
      )

abbrev full : MemoryStore
full = record { next_free = (ann, 120) ∷ []; calls = 2 }

retry_after_exact_example :
    ((hit ann 2 20 100 full).1 ≡ full)
    × ((hit ann 2 20 115 full).0.allowed
        ≡ not (ltb 115 (100 + (hit ann 2 20 100 full).0.retry_after)))
unfolding hit find eq_text refuse accept
retry_after_exact_example = retry_after_exact ann 2 20 100 115 full (omega arith) (omega arith) refl

abbrev request : Request
request = record {
  method = codes "GET";
  path = codes "/";
  headers = record { items = [] };
  path_params = [];
  client = some (ann, 4000);
  scheme = codes "http";
}

abbrev limiter : Limiter
limiter = record { store = full; decision = none }

abbrev refusal : Response
refusal = too_many_requests 10 (hit ann 2 20 100 full).0

refusal-waits : wait_of refusal ≡ 1
unfolding hit find eq_text refuse accept too_many_requests Response.text Response.with_type
    default_header set_header make Headers.get Headers.get_all Headers.values_of Headers.same_name
    Headers.contains Headers.set Headers.without lower lower_code show value ceil
refusal-waits = refl
