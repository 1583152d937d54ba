-- ===== src/Cors/Answers.antt =====
-- Which origins are let in, and what the answers say of them.
use korvex.Prelude.{
  Bool, true, false, ◌&&◌, ◌||◌, ℕ, List, [], Option, none, some, ◌≡◌, refl, ap, ◌∙◌, inl, inr,
  arith, ◌⊎◌,
}
use korvex.Prelude.Lists.{any, is_some}
use korvex.Prelude.Tests.{if◌then◌else◌, Option-cases}
use korvex.Prelude.Text.{Text, codes, eq_text, lower, lower_code, upper, comma_join}
use korvex.Headers
use korvex.Headers.{Headers}
use korvex.Headers.Laws.{get-set, get-add}
use korvex.Request.{Request}
use korvex.Response.{Response, make, set_header, add_header}
use korvex.Response
use korvex.Response.{default_header}
use korvex.Response.Types.{status-default_header}
use korvex.Cors.{
  Cors, has, allowed_origin, common_headers, headers_allowed, granting, preflight_answer,
  answer_for, requested_headers, preflight, exposed, add_headers, add_value, add_for,
}

abbrev pub allow_origin : Text
allow_origin = codes "Access-Control-Allow-Origin"

credentials_other :
    Headers.same_name (codes "Access-Control-Allow-Credentials") allow_origin ≡ false
unfolding Headers.same_name eq_text lower lower_code
credentials_other = refl

vary_other : Headers.same_name (codes "Vary") allow_origin ≡ false
unfolding Headers.same_name eq_text lower lower_code
vary_other = refl

expose_other : Headers.same_name (codes "Access-Control-Expose-Headers") allow_origin ≡ false
unfolding Headers.same_name eq_text lower lower_code
expose_other = refl

methods_other : Headers.same_name (codes "Access-Control-Allow-Methods") allow_origin ≡ false
unfolding Headers.same_name eq_text lower lower_code
methods_other = refl

headers_other : Headers.same_name (codes "Access-Control-Allow-Headers") allow_origin ≡ false
unfolding Headers.same_name eq_text lower lower_code
headers_other = refl

age_other : Headers.same_name (codes "Access-Control-Max-Age") allow_origin ≡ false
unfolding Headers.same_name eq_text lower lower_code
age_other = refl

itself : Headers.same_name allow_origin allow_origin ≡ true
unfolding Headers.same_name eq_text lower lower_code
itself = refl

get-set_header :
    (r : Response) (n v m : Text)
    → Headers.get (set_header r n v).headers m
      ≡ (if Headers.same_name n m then some v else Headers.get r.headers m)
unfolding set_header
get-set_header r n v m = get-set r.headers n v m

get-add_header :
    (r : Response) (n v m : Text)
    → Headers.same_name n m ≡ false
    → Headers.get (add_header r n v).headers m ≡ Headers.get r.headers m
unfolding add_header Headers.contains
get-add_header r n v m other = ground (arith, get-add r.headers n v m)

get-if_set :
    (b : Bool) (r : Response) (n v m : Text)
    → Headers.same_name n m ≡ false
    → Headers.get (if b then set_header r n v else r).headers m ≡ Headers.get r.headers m
get-if_set true r n v m other = rw (get-set_header r n v m, other) refl
get-if_set false r n v m other = refl

get-unless_add :
    (b : Bool) (r : Response) (n v m : Text)
    → Headers.same_name n m ≡ false
    → Headers.get (if b then r else add_header r n v).headers m ≡ Headers.get r.headers m
get-unless_add true r n v m other = refl
get-unless_add false r n v m other = get-add_header r n v m other

get-common_headers :
    (c : Cors) (r : Response) (v : Text)
    → Headers.get (common_headers c r v).headers allow_origin ≡ some v
unfolding common_headers
get-common_headers c r v =
    get-if_set c.allow_credentials _ (codes "Access-Control-Allow-Credentials") (codes "true")
      allow_origin credentials_other
    ∙ get-unless_add (eq_text v (codes "*")) _ (codes "Vary") (codes "Origin") allow_origin
        vary_other
    ∙ get-set_header r allow_origin v allow_origin
    ∙ ap (λ b. if b then some v else Headers.get r.headers allow_origin) itself

get-exposed :
    (c : Cors) (r : Response)
    → Headers.get (exposed c r).headers allow_origin ≡ Headers.get r.headers allow_origin
unfolding exposed
get-exposed c r =
    get-if_set (any (λ h. true) c.expose_headers) r (codes "Access-Control-Expose-Headers") _
      allow_origin expose_other

-- The value for the request's origin, where it has one.
abbrev pub value_for : Cors → Option Text → Option Text
value_for c none = none
value_for c (some origin) = allowed_origin c origin

same_or_none : (o : Option Text) → o ≡ (if is_some o then o else none)
same_or_none none = refl
same_or_none (some v) = refl

get-add_value :
    (c : Cors) (r : Response) (o : Option Text)
    → Headers.get r.headers allow_origin ≡ none
    → Headers.get (add_value c r o).headers allow_origin ≡ o
get-add_value c r none unset = unset
get-add_value c r (some v) unset = get-exposed c (common_headers c r v) ∙ get-common_headers c r v

get-add_for :
    (c : Cors) (r : Response) (o : Option Text)
    → Headers.get (add_for c r o).headers allow_origin ≡ (
        if Headers.contains r.headers allow_origin
        then Headers.get r.headers allow_origin
        else value_for c o)
unfolding add_for Headers.contains
get-add_for c r none = same_or_none (Headers.get r.headers allow_origin)
get-add_for c r (some origin) = elim (Option-cases (Headers.get r.headers allow_origin)) [
  | inl unset ↦ rw unset (get-add_value c r (allowed_origin c origin) unset)
  | inr (v, there) ↦ rw there there
]

-- After the after hook, a response's Access-Control-Allow-Origin is what it was if it had one, and
-- else what the request's origin is allowed, if it has an origin and that is let in.
pub get-add_headers :
    (c : Cors) (request : Request) (r : Response)
    → Headers.get (add_headers c request r).headers allow_origin ≡ (
        if Headers.contains r.headers allow_origin
        then Headers.get r.headers allow_origin
        else value_for c (Headers.get request.headers (codes "origin")))
unfolding add_headers
get-add_headers c request r = get-add_for c r (Headers.get request.headers (codes "origin"))

value_given :
    (any_one credentials listed : Bool) (origin v : Text)
    → (if any_one
        then some (if credentials then origin else codes "*")
        else if listed
        then some origin
        else none)
      ≡ some v
    → ((any_one || listed) ≡ true)
      × ((v ≡ origin) ⊎ ((v ≡ codes "*") × (any_one ≡ true) × (credentials ≡ false)))
value_given true true listed origin v h = (refl, inl cc)
value_given true false listed origin v h = (refl, inr (cc, refl, refl))
value_given false credentials true origin v h = (refl, inl cc)
value_given false credentials false origin v h = cc

-- Only an origin that is listed, or any when `"*"` is given, is let in; and the value is the origin
-- itself but for `"*"` without credentials.
pub allowed_origin-eq :
    (c : Cors) (origin v : Text)
    → allowed_origin c origin ≡ some v
    → ((c.any_origin || has origin c.origins) ≡ true)
      × ((v ≡ origin) ⊎ ((v ≡ codes "*") × (c.any_origin ≡ true) × (c.allow_credentials ≡ false)))
unfolding allowed_origin
allowed_origin-eq c origin v h =
    value_given c.any_origin c.allow_credentials (has origin c.origins) origin v h

-- What a refusal says.
refused : (problem : Text) → Headers.get (Response.text problem 400 []).headers allow_origin ≡ none
unfolding Headers.get Headers.get_all Headers.values_of Response.text Response.with_type
    default_header set_header make Headers.contains Headers.set Headers.without Headers.same_name
    eq_text lower lower_code
refused problem = refl

refused_status : (problem : Text) → (Response.text problem 400 []).status ≡ 400
unfolding Response.text Response.with_type
refused_status problem = status-default_header _ _ _

status-if_set :
    (b : Bool) (r : Response) (n v : Text) → (if b then set_header r n v else r).status ≡ r.status
unfolding set_header
status-if_set true r n v = refl
status-if_set false r n v = refl

status-unless_add :
    (b : Bool) (r : Response) (n v : Text) → (if b then r else add_header r n v).status ≡ r.status
unfolding add_header
status-unless_add true r n v = refl
status-unless_add false r n v = refl

status-common_headers :
    (c : Cors) (r : Response) (v : Text) → (common_headers c r v).status ≡ r.status
unfolding common_headers
status-common_headers c r v =
    status-if_set c.allow_credentials _ _ _ ∙ status-unless_add (eq_text v (codes "*")) _ _ _ ∙ refl

-- Whether a preflight is granted.
abbrev pub granted : Cors → Text → Text → List Text → Bool
granted c origin method requested =
    is_some (allowed_origin c origin) && has (upper method) c.methods && headers_allowed c requested

-- The status of a response and its Access-Control-Allow-Origin.
abbrev pub says : Response → ℕ × Option Text
says r = (r.status, Headers.get r.headers allow_origin)

says-refused : (problem : Text) → says (Response.text problem 400 []) ≡ (400, none)
says-refused problem = rw (refused problem, refused_status problem) refl

says-set_header :
    (r : Response) (n v : Text)
    → Headers.same_name n allow_origin ≡ false
    → says (set_header r n v) ≡ says r
unfolding set_header
says-set_header r n v other =
    ap (λ o. (r.status, o))
      (get-set_header r n v allow_origin
        ∙ ap (λ b. if b then some v else Headers.get r.headers allow_origin) other)

says-if_set :
    (b : Bool) (r : Response) (n v : Text)
    → Headers.same_name n allow_origin ≡ false
    → says (if b then set_header r n v else r) ≡ says r
says-if_set true r n v other = says-set_header r n v other
says-if_set false r n v other = refl

says-common_headers :
    (c : Cors) (r : Response) (v : Text) → says (common_headers c r v) ≡ (r.status, some v)
says-common_headers c r v = rw (status-common_headers c r v, get-common_headers c r v) refl

says-granting :
    (c : Cors) (v : Text) (requested : List Text) → says (granting c v requested) ≡ (204, some v)
unfolding granting
says-granting c v requested =
    let common = common_headers c (make [] 204 []) v in
    let methods = set_header common (codes "Access-Control-Allow-Methods") (comma_join c.methods) in
    let headers =
      if any (λ h. true) requested
      then set_header methods (codes "Access-Control-Allow-Headers") (comma_join requested)
      else methods in
    says-set_header headers (codes "Access-Control-Max-Age") _ age_other
    ∙ says-if_set (any (λ h. true) requested) methods (codes "Access-Control-Allow-Headers") _
        headers_other
    ∙ says-set_header common (codes "Access-Control-Allow-Methods") _ methods_other
    ∙ says-common_headers c (make [] 204 []) v

says-answer_for :
    (c : Cors) (o : Option Text) (method_in headers_in : Bool) (requested : List Text)
    → says (answer_for c o method_in headers_in requested)
      ≡ (if is_some o && method_in && headers_in then (204, o) else (400, none))
says-answer_for c none method_in headers_in requested =
    says-refused (codes "Disallowed CORS origin")
says-answer_for c (some v) false headers_in requested =
    says-refused (codes "Disallowed CORS method")
says-answer_for c (some v) true false requested = says-refused (codes "Disallowed CORS headers")
says-answer_for c (some v) true true requested = says-granting c v requested

answers :
    (c : Cors) (origin method : Text) (requested : List Text)
    → says (preflight_answer c origin method requested)
      ≡ (if granted c origin method requested then (204, allowed_origin c origin) else (400, none))
unfolding preflight_answer
answers c origin method requested =
    says-answer_for c (allowed_origin c origin) (has (upper method) c.methods)
      (headers_allowed c requested) requested

-- A preflight, which is an OPTIONS request with an origin and a requested method, is answered before
-- routing: with status 204 and its origin's Access-Control-Allow-Origin where the origin, the method
-- in any case and every requested header are allowed, and else with status 400 and no such header.
pub preflight-says :
    (c : Cors) (request : Request) (origin method : Text)
    → eq_text request.method (codes "OPTIONS") ≡ true
    → Headers.get request.headers (codes "origin") ≡ some origin
    → Headers.get request.headers (codes "access-control-request-method") ≡ some method
    → (r : Response) × (preflight c request ≡ some r)
      × (says r ≡ (
          if granted c origin method (requested_headers request)
          then (204, allowed_origin c origin)
          else (400, none)))
unfolding preflight
preflight-says c request origin method options from asks = (
  preflight_answer c origin method (requested_headers request),
  rw (options, from, asks) refl,
  answers c origin method (requested_headers request),
)
