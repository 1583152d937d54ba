-- ===== src/Tests/Runs.antt =====
-- The teardown of dependencies.
use korvex.Prelude.{ℕ, ◌+◌, List, [], ◌∷◌, ◌++◌, reverse, none, some, ◌≡◌, refl}
use korvex.Prelude.Lists.{All}
use korvex.Prelude.Tests.{if◌then◌else◌}
use korvex.Response.{make}
use korvex.Dependencies.{Error, Generator, World, stopped, threw, yielded, close, gave, after_call}
use korvex.Dependencies.Teardown.{
  Closes, idents, is_left, close-resumed, close-skips_rest, after_call-resumed,
}

abbrev fresh : ℕ → ℕ
fresh g = 100 + g

-- It ends where it is resumed.
abbrev ends : ℕ → Generator ℕ
ends ident = record { ident = ident; resume = λ error w. (stopped, w + 1); close = λ w. (none, w) }

abbrev boom : Error
boom = record { ident = 9; context = none }

-- It raises where it is resumed.
abbrev raising : Generator ℕ
raising = record { ident = 2; resume = λ error w. (threw boom, w); close = λ w. (none, w) }

-- It yields again, and cannot be closed.
abbrev stuck : Generator ℕ
stuck = record { ident = 3; resume = λ error w. (yielded, w); close = λ w. (some boom, w) }

abbrev start : World ℕ
start = record { user = 0; resumed = [] }

abbrev waiting : List (Generator ℕ)
waiting = ends 1 ∷ raising ∷ []

closes : All Closes (reverse waiting)
closes = (λ w. refl, (λ w. refl, tt))

close-resumed_example : (close fresh waiting none start).1.resumed ≡ [] ++ idents (reverse waiting)
close-resumed_example = close-resumed fresh waiting none start closes

close-skips_rest_example :
    close fresh (ends 1 ∷ stuck ∷ []) none start
    ≡ (some boom, record { user = 0; resumed = 3 ∷ [] })
close-skips_rest_example = close-skips_rest fresh (ends 1 ∷ []) stuck none start boom 0 0 refl refl

after_call-resumed_example :
    (after_call fresh waiting (gave (make [] 200 [])) start).1.resumed
    ≡ []
      ++ (if is_left (after_call fresh waiting (gave (make [] 200 [])) start).0
          then []
          else idents (reverse waiting))
after_call-resumed_example = after_call-resumed fresh waiting (gave (make [] 200 [])) start closes
