-- ===== src/RequestId.antt =====
-- korvex/middleware/_request_id.py: the two hooks of `request_id()`, over the context variable
-- `_request_id`. The random identifier that `uuid.uuid4().hex` gives is the parameter `random`.
use korvex.Prelude.{
  ℕ, Bool, true, false, not, ◌&&◌, ◌||◌, Option, none, some, ◌≡◌, refl, ◌⊎◌, inl, inr,
}
use korvex.Prelude.Lists.{any, length}
use korvex.Prelude.Tests.{leb, ◌==◌, if◌then◌else◌, Bool-cases}
use korvex.Prelude.Text.{Text}
use korvex.Headers
use korvex.Headers.Laws.{get-set}
use korvex.Request.{Request}
use korvex.Response.{Response, set_header}
use korvex.Prelude.{sym}
use korvex.Headers.{same_name}
use korvex.Prelude.{ap}

-- [A-Za-z0-9._:-]
unfoldable pub is_safe_code : ℕ → Bool
is_safe_code c =
    (leb b'A' c && leb c b'Z')
    || (leb b'a' c && leb c b'z')
    || (leb b'0' c && leb c b'9')
    || c == b'.'
    || c == b'_'
    || c == b':'
    || c == b'-'

-- `_SAFE_ID.fullmatch(id)`: 1 to 200 such characters.
unfoldable pub is_safe : Text → Bool
unfolding is_safe_code
is_safe id = leb 1 (length id) && leb (length id) 200 && not (any (λ c. not (is_safe_code c)) id)

abbrev pub safe_or : Text → Option Text → Text
safe_or random none = random
safe_or random (some id) = if is_safe id then id else random

-- The before hook `assign`: what the context variable holds then.
unfoldable pub assign :
    (header : Text) (trust_incoming : Bool) (random : Text) → Request → Option Text
unfolding is_safe
assign header trust_incoming random request =
    some (safe_or random (if trust_incoming then Headers.get request.headers header else none))

-- The after hook `send_back`.
unfoldable pub send_back : Text → Option Text → Response → Response
unfolding set_header
send_back header none response = response
send_back header (some value) response = set_header response header value

-- The identifier is the request's own, which is safe, or else a new one, as there is none to take over.
safe_or-eq :
    (random : Text) (trust_incoming : Bool) (o : Option Text) (id : Text)
    → safe_or random (if trust_incoming then o else none) ≡ id
    → ((trust_incoming ≡ true) × (o ≡ some id) × (is_safe id ≡ true))
      ⊎ ((id ≡ random)
          × ((trust_incoming ≡ false)
              ⊎ (o ≡ none)
              ⊎ ((own : Text) × (o ≡ some own) × (is_safe own ≡ false))))
safe_or-eq random false o id h = inr (sym h, inl refl)
safe_or-eq random true none id h = inr (sym h, inr (inl refl))
safe_or-eq random true (some own) id h = elim (Bool-cases (is_safe own)) [
  | inl safe ↦ let same : own ≡ id = rw safe at h in inl (refl, ap some same, rw (← same) safe)
  | inr unsafe ↦
      let same : random ≡ id = rw unsafe at h in inr (sym same, inr (inr (own, refl, unsafe)))
]

-- Once `assign` ran for a request, `send_back` sets the identifier in the response and leaves the other
-- headers: the request's own where that is trusted and is 1 to 200 plain characters, and the random one
-- only where it is not. Where `assign` did not run, the response stays as it is.
pub send_back-assign :
    (header : Text) (trust_incoming : Bool) (random : Text) (request : Request) (r : Response)
    (name : Text)
    → (id : Text) × (Headers.get
          (send_back header (assign header trust_incoming random request) r).headers
          name
        ≡ (if same_name header name then some id else Headers.get r.headers name))
      × (((trust_incoming ≡ true)
            × (Headers.get request.headers header ≡ some id)
            × (is_safe id ≡ true))
          ⊎ ((id ≡ random)
              × ((trust_incoming ≡ false)
                  ⊎ (Headers.get request.headers header ≡ none)
                  ⊎ ((own : Text) × (Headers.get request.headers header ≡ some own)
                      × (is_safe own ≡ false)))))
      × (send_back header none r ≡ r)
unfolding send_back assign set_header
send_back-assign header trust_incoming random request r name =
    let sent = Headers.get request.headers header in
    let id = safe_or random (if trust_incoming then sent else none) in
    (id, get-set r.headers header id name, safe_or-eq random trust_incoming sent id refl, refl)
