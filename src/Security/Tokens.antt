-- ===== src/Security/Tokens.antt =====
-- Which credentials are read, and what a request without one is answered.
use korvex.Prelude.{
  ℕ, true, false, [], ◌∷◌, ◌++◌, Option, none, some, ◌≡◌, refl, ap, ◌∙◌, ◌⊎◌, ◌↔◌, inl, inr, arith,
}
use korvex.Prelude.Dict.{Dict, find}
use korvex.Prelude.Lists.{any}
use korvex.Prelude.Tests.{◌==◌, ==_iff, if◌then◌else◌, Bool-cases}
use korvex.Prelude.Text.{Text, codes, eq_text, lower, strip, is_space, is_empty, or_empty}
use korvex.Headers
use korvex.Errors.{http_error}
use korvex.Request.{Request}
use korvex.App.{Outcome, returned, raised}
use korvex.Security.{
  partition, non_empty, token_of, bearer_token, Kind, Location, Scheme, challenge, credential,
  judged, call,
}

partition-joined :
    (c : ℕ) (before after : Text)
    → any (λ x. x == c) before ≡ false
    → partition c (before ++ c ∷ after) ≡ (before, after)
unfolding partition
partition-joined c [] after h = ground arith
partition-joined c (x ∷ before) after h = elim (Bool-cases (x == c)) [
  | inl same ↦ ground arith
  | inr other ↦ rw (other, partition-joined c before after (ground arith)) refl
]

-- `Authorization: <scheme> <token>` gives its token where the scheme is `bearer` in any case, and the
-- token is neither empty nor has spaces at its ends.
pub bearer_token-sent :
    (request : Request) (scheme token : Text) (c : ℕ) (rest : Text)
    → Headers.get request.headers (codes "authorization") ≡ some (scheme ++ b' ' ∷ token)
    → any (λ x. x == b' ') scheme ≡ false
    → eq_text (lower scheme) (codes "bearer") ≡ true
    → strip is_space token ≡ c ∷ rest
    → bearer_token request ≡ some (c ∷ rest)
unfolding bearer_token token_of
bearer_token-sent request scheme token c rest sent plain named stripped =
    rw (sent, partition-joined b' ' scheme token plain, named, stripped) refl

-- Where there is no separator, nothing is after it.
partition-parts :
    (c : ℕ) (s : Text)
    → ((s ≡ (partition c s).0 ++ c ∷ (partition c s).1)
        × (any (λ x. x == c) (partition c s).0 ≡ false))
      ⊎ ((partition c s).1 ≡ [])
unfolding partition
partition-parts c [] = inr refl
partition-parts c (x ∷ s) = elim (Bool-cases (x == c)) [
  | inl same ↦ let at_c : x ≡ c = (==_iff x c).0 same in rw same (inl (ap (λ y. y ∷ s) at_c, refl))
  | inr other ↦ elim (partition-parts c s) [
    | inl (joined, plain) ↦ rw other (inl (ap (λ t. x ∷ t) joined, rw other plain))
    | inr nothing ↦ rw other (inr nothing)
  ]
]

non_empty-inv : (t s : Text) → non_empty t ≡ some s → (t ≡ s) × (is_empty s ≡ false)
non_empty-inv [] s h = cc
non_empty-inv (c ∷ t) s h = let same : c ∷ t ≡ s = cc h in (same, rw (← same) refl)

-- `Authorization: <scheme> <token>`, where the scheme is `bearer` in any case and `s` is the token
-- without the spaces at its ends.
pub SendsBearer : Request → Text → Type 0
SendsBearer request s =
    (scheme token : Text) × (Headers.get request.headers (codes "authorization")
      ≡ some (scheme ++ b' ' ∷ token))
    × (any (λ x. x == b' ') scheme ≡ false)
    × (eq_text (lower scheme) (codes "bearer") ≡ true)
    × (strip is_space token ≡ s)

-- The request carries `s` in the place where the kind of scheme has its credential.
pub Sends : (query cookies : Dict Text) → Request → Kind → Text → Type 0
Sends query cookies request Kind.bearer s = SendsBearer request s
Sends query cookies request Kind.oauth2_password s = SendsBearer request s
Sends query cookies request (Kind.api_key Location.in_header key) s =
    Headers.get request.headers key ≡ some s
Sends query cookies request (Kind.api_key Location.in_query key) s = find key query ≡ some s
Sends query cookies request (Kind.api_key Location.in_cookie key) s = find key cookies ≡ some s

strip_nothing : (t s : Text) → t ≡ [] → strip is_space t ≡ s → is_empty s ≡ true
unfolding strip
strip_nothing [] s h e = rw (← e) refl
strip_nothing (c ∷ t) s h e = cc

token_of-inv :
    (header s : Text)
    → token_of header ≡ some s
    → (is_empty s ≡ false)
      × (scheme token : Text) × (header ≡ scheme ++ b' ' ∷ token)
      × (any (λ x. x == b' ') scheme ≡ false)
      × (eq_text (lower scheme) (codes "bearer") ≡ true)
      × (strip is_space token ≡ s)
unfolding token_of strip
token_of-inv header s h =
    elim (Bool-cases (eq_text (lower (partition b' ' header).0) (codes "bearer"))) [
      | inl named ↦
          let (stripped, full) =
            non_empty-inv (strip is_space (partition b' ' header).1) s (rw named at h) in
          elim (partition-parts b' ' header) [
            | inl (joined, plain) ↦ (
              full,
              (partition b' ' header).0,
              (partition b' ' header).1,
              joined,
              plain,
              named,
              stripped,
            )
            | inr nothing ↦ cc (full, strip_nothing _ s nothing stripped)
          ]
      | inr other ↦ cc (rw other at h)
    ]

bearer_token-SendsBearer :
    (request : Request) (s : Text) (o : Option Text)
    → Headers.get request.headers (codes "authorization") ≡ o
    → token_of (or_empty o) ≡ some s
    → SendsBearer request s × (is_empty s ≡ false)
unfolding SendsBearer token_of partition eq_text lower
bearer_token-SendsBearer request s none sent h = cc
bearer_token-SendsBearer request s (some header) sent h =
    let (full, scheme, token, joined, plain, named, stripped) = token_of-inv header s h in
    ((scheme, token, sent ∙ ap some joined, plain, named, stripped), full)

SendsBearer-bearer_token :
    (request : Request) (s : Text)
    → SendsBearer request s
    → is_empty s ≡ false
    → bearer_token request ≡ some s
unfolding SendsBearer
SendsBearer-bearer_token request [] sends full = cc
SendsBearer-bearer_token request (c ∷ s) (scheme, token, sent, plain, named, stripped) full =
    bearer_token-sent request scheme token c s sent plain named stripped

credential-Sends :
    (query cookies : Dict Text) (request : Request) (kind : Kind) (s : Text)
    → credential query cookies request kind ≡ some s
    → is_empty s ≡ false
    → Sends query cookies request kind s
unfolding credential Sends bearer_token
credential-Sends query cookies request Kind.bearer s h full =
    (bearer_token-SendsBearer request s _ refl h).0
credential-Sends query cookies request Kind.oauth2_password s h full =
    (bearer_token-SendsBearer request s _ refl h).0
credential-Sends query cookies request (Kind.api_key Location.in_header key) s h full = h
credential-Sends query cookies request (Kind.api_key Location.in_query key) s h full = h
credential-Sends query cookies request (Kind.api_key Location.in_cookie key) s h full = h

Sends-credential :
    (query cookies : Dict Text) (request : Request) (kind : Kind) (s : Text)
    → Sends query cookies request kind s
    → is_empty s ≡ false
    → credential query cookies request kind ≡ some s
unfolding credential Sends
Sends-credential query cookies request Kind.bearer s h full =
    SendsBearer-bearer_token request s h full
Sends-credential query cookies request Kind.oauth2_password s h full =
    SendsBearer-bearer_token request s h full
Sends-credential query cookies request (Kind.api_key Location.in_header key) s h full = h
Sends-credential query cookies request (Kind.api_key Location.in_query key) s h full = h
Sends-credential query cookies request (Kind.api_key Location.in_cookie key) s h full = h

-- What a request without a credential is answered.
pub refusal : (ℕ → Text) → Scheme → Outcome (Option Text)
refusal phrase scheme =
    if scheme.required
    then raised (
        http_error phrase 401 (some (codes "Not authenticated"))
          ((codes "WWW-Authenticate", challenge scheme.kind) ∷ []))
    else returned none

judged-inv :
    (phrase : ℕ → Text) (scheme : Scheme) (o : Option Text) (s : Text)
    → judged phrase scheme o ≡ returned (some s)
    → (o ≡ some s) × (is_empty s ≡ false)
judged-inv phrase scheme none s h = elim (Bool-cases scheme.required) [
  | inl e ↦ cc (rw e at h)
  | inr e ↦ cc (rw e at h)
]
judged-inv phrase scheme (some []) s h = elim (Bool-cases scheme.required) [
  | inl e ↦ cc (rw e at h)
  | inr e ↦ cc (rw e at h)
]
judged-inv phrase scheme (some (c ∷ t)) s h =
    let same : c ∷ t ≡ s = cc h in (ap some same, rw (← same) refl)

judged-some :
    (phrase : ℕ → Text) (scheme : Scheme) (s : Text)
    → is_empty s ≡ false
    → judged phrase scheme (some s) ≡ returned (some s)
judged-some phrase scheme [] full = cc
judged-some phrase scheme (c ∷ s) full = refl

judged-cases :
    (phrase : ℕ → Text) (scheme : Scheme) (o : Option Text)
    → ((t : Text) × (judged phrase scheme o ≡ returned (some t)))
      ⊎ (judged phrase scheme o ≡ refusal phrase scheme)
unfolding refusal
judged-cases phrase scheme none = inr refl
judged-cases phrase scheme (some []) = inr refl
judged-cases phrase scheme (some (c ∷ t)) = inl (c ∷ t, refl)

-- A dependency on a scheme is given a text exactly where the request sends it as the credential that
-- the kind of scheme reads and it is not empty; any other request is refused with a 401 and the
-- scheme's challenge where the scheme is required, and gives None where it is not.
pub call-judged :
    (phrase : ℕ → Text) (query cookies : Dict Text) (request : Request) (scheme : Scheme) (s : Text)
    → ((call phrase query cookies request scheme ≡ returned (some s))
        ↔ (Sends query cookies request scheme.kind s × (is_empty s ≡ false)))
      × (((t : Text) × (call phrase query cookies request scheme ≡ returned (some t)))
          ⊎ (call phrase query cookies request scheme ≡ refusal phrase scheme))
unfolding call
call-judged phrase query cookies request scheme s = (
  (
    λ h.
        let (got, full) =
          judged-inv phrase scheme (credential query cookies request scheme.kind) s h in
        (credential-Sends query cookies request scheme.kind s got full, full),
    λ sent.
        ap (judged phrase scheme)
          (Sends-credential query cookies request scheme.kind s sent.0 sent.1)
        ∙ judged-some phrase scheme s sent.1,
  ),
  judged-cases phrase scheme (credential query cookies request scheme.kind),
)
