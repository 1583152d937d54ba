-- ===== src/Hosts/Order.antt =====
-- The order of the hosts: patterns without parameters first, and each pattern once.
use korvex.Prelude.{
  ◌≡◌, refl, sym, Bool, true, false, not, ◌&&◌, List, [], ◌∷◌, ◌++◌, Option, none, some, arith, inl,
  inr, ◌⊎◌,
}
use mathlib.Core.Path.{subst}
use korvex.Prelude.Dict.{Dict}
use korvex.Prelude.Lists.{keep_if, All, is_some, any}
use korvex.Prelude.Tests.{Bool-cases, Option-cases}
use korvex.Prelude.Text.{Text}
use korvex.Hosts.{
  Host, match, host_for, has_params, sort_hosts, host_named, make_host, normalized, add_host,
}
use korvex.Prelude.Lists.{any}

-- No host without parameters stands behind one with parameters.
abbrev pub IsSorted : List Host → Type 0
IsSorted [] = Unit
IsSorted (h ∷ hosts) =
    ((has_params h ≡ false) ⊎ All (λ g. has_params g ≡ true) hosts) × IsSorted hosts

abbrev HasParams : Host → Type 0
HasParams h = has_params h ≡ true

keep-HasParams : (hosts : List Host) → All HasParams (keep_if has_params hosts)
keep-HasParams [] = tt
keep-HasParams (h ∷ hosts) = elim (Bool-cases (has_params h)) [
  | inl with_params ↦ rw with_params (with_params, keep-HasParams hosts)
  | inr without ↦ rw without (keep-HasParams hosts)
]

IsSorted-behind : (hosts : List Host) → All HasParams hosts → IsSorted hosts
IsSorted-behind [] h = tt
IsSorted-behind (g ∷ hosts) (p, h) = (inr h, IsSorted-behind hosts h)

IsSorted-front :
    (hosts behind : List Host)
    → All HasParams behind
    → IsSorted (keep_if (λ h. not (has_params h)) hosts ++ behind)
IsSorted-front [] behind k = IsSorted-behind behind k
IsSorted-front (h ∷ hosts) behind k = elim (Bool-cases (has_params h)) [
  | inl with_params ↦ rw with_params (IsSorted-front hosts behind k)
  | inr without ↦ rw without (inl without, IsSorted-front hosts behind k)
]

sort_hosts-IsSorted : (hosts : List Host) → IsSorted (sort_hosts hosts)
unfolding sort_hosts
sort_hosts-IsSorted hosts = IsSorted-front hosts (keep_if has_params hosts) (keep-HasParams hosts)

abbrev now_hosts : List Host → Option (Host × List Host) → List Host
now_hosts hosts none = hosts
now_hosts hosts (some (h, hosts')) = hosts'

-- `_hosts` after calls of `host()`; a call that raises leaves it as it was.
unfoldable pub hosts_after : List Text → List Host → List Host
hosts_after [] hosts = hosts
hosts_after (pattern ∷ patterns) hosts =
    hosts_after patterns (now_hosts hosts (add_host pattern hosts))

-- `host()` keeps the hosts, or sorts them with a new one at the end.
now_hosts-add_host :
    (pattern : Text) (hosts : List Host)
    → (now_hosts hosts (add_host pattern hosts) ≡ hosts)
      ⊎ ((new : Host) × (now_hosts hosts (add_host pattern hosts) ≡ sort_hosts (hosts ++ new ∷ [])))
unfolding add_host
now_hosts-add_host pattern hosts = elim (Option-cases (host_named (normalized pattern) hosts)) [
  | inr (old, found) ↦ inl (rw (found, add_host))
  | inl new ↦ elim (Option-cases (make_host pattern)) [
    | inl bad ↦ inl (rw (new, add_host) (rw bad))
    | inr (made, good) ↦ inr (made, rw (new, add_host) (rw good))
  ]
]

add_host-IsSorted :
    (pattern : Text) (hosts : List Host)
    → IsSorted hosts
    → IsSorted (now_hosts hosts (add_host pattern hosts))
add_host-IsSorted pattern hosts h = elim (now_hosts-add_host pattern hosts) [
  | inl same ↦ subst IsSorted (sym same) h
  | inr (new, sorted) ↦ subst IsSorted (sym sorted) (sort_hosts-IsSorted (hosts ++ new ∷ []))
]

hosts_after-IsSorted :
    (patterns : List Text) (hosts : List Host)
    → IsSorted hosts
    → IsSorted (hosts_after patterns hosts)
unfolding hosts_after
hosts_after-IsSorted [] hosts h = h
hosts_after-IsSorted (pattern ∷ patterns) hosts h =
    hosts_after-IsSorted patterns (now_hosts hosts (add_host pattern hosts))
      (add_host-IsSorted pattern hosts h)

-- A host without parameters that fits.
abbrev pub literal_fits : List Text → Host → Bool
literal_fits given h = not (has_params h) && is_some (match h given)

no_literal :
    (given : List Text) (hosts : List Host)
    → All HasParams hosts
    → any (literal_fits given) hosts ≡ false
no_literal given [] h = refl
no_literal given (g ∷ hosts) (p, h) = rw (p, no_literal given hosts h)

abbrev OwnedByLiteral : List Host → List Text → Type 0
OwnedByLiteral hosts given =
    (r : Host × Dict Text) × (host_for hosts given ≡ some r) × (has_params r.0 ≡ false)

OwnedByLiteral-behind :
    (g : Host) (hosts : List Host) (given : List Text)
    → match g given ≡ none
    → OwnedByLiteral hosts given
    → OwnedByLiteral (g ∷ hosts) given
unfolding host_for
OwnedByLiteral-behind g hosts given misfit (r, found, literal) =
    (r, rw (misfit, host_for) found, literal)

host_for-literal_sorted :
    (hosts : List Host) (given : List Text)
    → IsSorted hosts
    → any (literal_fits given) hosts ≡ true
    → (r : Host × Dict Text) × (host_for hosts given ≡ some r) × (has_params r.0 ≡ false)
unfolding host_for
host_for-literal_sorted [] given h f = cc
host_for-literal_sorted (g ∷ hosts) given (inl plain, h) f = elim (Option-cases (match g given)) [
  | inr (ps, fits) ↦ ((g, ps), rw (fits, host_for), plain)
  | inl misfit ↦
      OwnedByLiteral-behind g hosts given misfit
        (host_for-literal_sorted hosts given h (ground (arith, plain, misfit)))
]
host_for-literal_sorted (g ∷ hosts) given (inr behind, h) f =
    let rest = no_literal given hosts behind in
    let fits : literal_fits given g ≡ true = ground (arith, rest) in
    elim (Option-cases (match g given)) [
      | inr (ps, fit) ↦ ((g, ps), rw (fit, host_for), ground arith)
      | inl misfit ↦ absurd (ground (arith, misfit))
    ]

-- After any calls of `host()` on a new app, a request that fits some pattern without parameters is
-- owned by a pattern without parameters, in whatever order the patterns were declared.
pub host_for-literal :
    (patterns : List Text) (given : List Text)
    → any (literal_fits given) (hosts_after patterns []) ≡ true
    → (r : Host × Dict Text) × (host_for (hosts_after patterns []) given ≡ some r)
      × (has_params r.0 ≡ false)
host_for-literal patterns given f =
    host_for-literal_sorted (hosts_after patterns []) given (hosts_after-IsSorted patterns [] tt) f
