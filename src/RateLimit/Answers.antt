-- ===== src/RateLimit/Answers.antt =====
-- What a client sees of the rate limit: the 429 with its Retry-After, and the exempt request.
use korvex.Prelude.{ℕ, ◌+◌, ◌-◌, ◌*◌, ◌≤◌, ◌<◌, ◌≡◌, refl, false, Option, none, some, arith}
use native.Mathlib.Nat.{div-add-mod, mod-lt}
use korvex.Prelude.Decimal.{show, value, value-show}
use korvex.Prelude.Text.{Text, codes, eq_text}
use korvex.Headers
use korvex.Response
use korvex.Response.{Response}
use korvex.Request.{Request}
use korvex.RateLimit.{Decision, hit}
use korvex.RateLimit.Window.{retry_after_exact}
use korvex.RateLimit.Hooks.{too_many_requests, ceil, answer, Limiter, check}
use korvex.Prelude.Text.{lower}
use korvex.Prelude.{ap}
use korvex.Prelude.{◌∙◌}

pub le-ceil : (second t : ℕ) → 0 < second → t ≤ ceil second t * second
unfolding ceil
le-ceil second t pos = let n = t + (second - 1) in grind (arith, div-add-mod n second, mod-lt n pos)

retry_header :
    (second : ℕ) (d : Decision)
    → ((too_many_requests second d).status ≡ 429)
      × (Headers.get (too_many_requests second d).headers (codes "Retry-After")
          ≡ some (show (ceil second d.retry_after)))
unfolding too_many_requests Response.text Headers.get Headers.get_all Headers.values_of
    Headers.same_name Headers.set Headers.without Headers.contains eq_text lower
retry_header second d = (refl, refl)

abbrev seconds_of : Option Text → ℕ
seconds_of none = 0
seconds_of (some w) = value w

-- The seconds that a response asks to wait, 0 if it names none.
abbrev pub wait_of : Response → ℕ
wait_of r = seconds_of (Headers.get r.headers (codes "Retry-After"))

module _ (key : Request → Option Text) (requests per second now : ℕ) (request : Request)
    (who : Text) (l : Limiter) (is_who : key request ≡ some who) where
  check_answer :
      (check key requests per second now request l).0
      ≡ answer second (hit who requests per now l.store).0
  unfolding check
  check_answer = rw (is_who, check)

  check_store :
      (check key requests per second now request l).1.store ≡ (hit who requests per now l.store).1
  unfolding check
  check_store = rw (is_who, check)

-- A request whose client the limiter refuses is answered with a 429, and once the seconds in the
-- answer's Retry-After have passed, with no other request in between, the client's next request is
-- let through.
pub check-wait :
    (key : Request → Option Text) (requests per second now later : ℕ) (request : Request)
    (who : Text) (l : Limiter) (r : Response)
    → 0 < requests
    → 0 < second
    → key request ≡ some who
    → (check key requests per second now request l).0 ≡ some r
    → now + wait_of r * second ≤ later
    → (r.status ≡ 429)
      × ((check key requests per second later request
            (check key requests per second now request l).1).0
          ≡ none)
unfolding answer
check-wait key requests per second now later request who l r pos spos is_who refused waited =
    let first = hit who requests per now l.store in
    let answered = check_answer key requests per second now request who l is_who in
    let denied : first.0.allowed ≡ false = ground (arith, answered) in
    let same : r ≡ too_many_requests second first.0 = ground (arith, answered) in
    let (status, header) = retry_header second first.0 in
    let wait : wait_of r ≡ ceil second first.0.retry_after =
      rw same (ap seconds_of header ∙ value-show (ceil second first.0.retry_after)) in
    let enough = le-ceil second first.0.retry_after spos in
    let reached : now + first.0.retry_after ≤ later = grind arith in
    let (kept, next) =
      retry_after_exact who requests per now later l.store pos (omega arith) denied in
    let after = (check key requests per second now request l).1 in
    let store = check_store key requests per second now request who l is_who in
    let again = check_answer key requests per second later request who after is_who in
    (rw same status, rw again (rw store (rw kept (ground (arith, next, reached)))))
