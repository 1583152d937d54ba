-- ===== src/Lifespan/Events.antt =====
-- What startup and shutdown run, and what each event loop keeps.
use korvex.Prelude.{
  ℕ, Bool, true, false, ◌&&◌, List, [], ◌∷◌, ◌++◌, some, ◌≡◌, refl, ap, ◌∙◌, inl, inr, arith,
}
use korvex.Prelude.Dict.{Dict, find, put, find-put}
use korvex.Prelude.Tests.{◌==◌, ==_iff, if◌then◌else◌, Bool-cases}
use korvex.Prelude.Text.{Text, eq_text}
use korvex.Lifespan.{
  Event, startup, failed, Hook, Hooks, hook_then, answer_to, run_hooks, lifespan, unless_failed,
  LoopLocal, values, put_values, get_attribute, set_attribute,
}
use korvex.Lifespan.{answer_to}

module _ {W : Type 0} where
  hook_then-append :
      (did : Bool × W) (xs ys : List (Hook W))
      → ((w : W) → run_hooks (xs ++ ys) w ≡ hook_then (run_hooks xs w) (run_hooks ys))
      → hook_then did (run_hooks (xs ++ ys))
        ≡ hook_then (hook_then did (run_hooks xs)) (run_hooks ys)
  hook_then-append (true, w) xs ys rest = rest w
  hook_then-append (false, w) xs ys rest = refl

  run_hooks-append :
      (xs ys : List (Hook W)) (w : W)
      → run_hooks (xs ++ ys) w ≡ hook_then (run_hooks xs w) (run_hooks ys)
  unfolding run_hooks
  run_hooks-append [] ys w = refl
  run_hooks-append (hook ∷ xs) ys w =
      hook_then-append (hook w) xs ys (λ w'. run_hooks-append xs ys w')

  -- Where a startup hook raises after those before it returned, the server is told that the startup
  -- failed, and nothing else runs: neither the hooks after it, whatever they are, nor a shutdown.
  pub lifespan-failed :
      (h : Hooks W) (before rest : List (Hook W)) (hook : Hook W) (events : List Event)
      (w ready left : W)
      → h.on_startup ≡ before ++ hook ∷ rest
      → run_hooks before w ≡ (true, ready)
      → hook ready ≡ (false, left)
      → lifespan h (startup ∷ events) w ≡ (failed startup ∷ [], left)
  unfolding lifespan run_hooks
  lifespan-failed h before rest hook events w ready left is began raises =
      ap (λ o. unless_failed o.0 (answer_to startup o.0) (lifespan h events) o.1)
        (ap (λ hooks. run_hooks hooks w) is
          ∙ run_hooks-append before (hook ∷ rest) w
          ∙ ap (λ o. hook_then o (run_hooks (hook ∷ rest))) began
          ∙ ap (λ o. hook_then o (run_hooks rest)) raises)

module _ {A : Type 0} where
  values-put_values :
      (loop l : ℕ) (d : Dict A) (locals : LoopLocal A)
      → values l (put_values loop d locals) ≡ (if loop == l then d else values l locals)
  unfolding values put_values
  values-put_values loop l d [] = refl
  values-put_values loop l d ((k, e) ∷ rest) =
      ground (arith, ==_iff k loop, ==_iff k l, ==_iff loop l, values-put_values loop l d rest)

  -- An attribute that is set in one event loop is what that loop reads, and no other loop and no
  -- other attribute changes.
  pub get-set_attribute :
      (loop l : ℕ) (name n : Text) (a : A) (locals : LoopLocal A)
      → get_attribute l n (set_attribute loop name a locals)
        ≡ (if (loop == l) && eq_text name n then some a else get_attribute l n locals)
  unfolding get_attribute set_attribute
  get-set_attribute loop l name n a locals =
      ap (find n) (values-put_values loop l (put name a (values loop locals)) locals)
      ∙ elim (Bool-cases (loop == l)) [
        | inl same ↦ rw same (
            find-put name n a (values loop locals)
            ∙ ap (λ k. if eq_text name n then some a else find n (values k locals))
                ((==_iff loop l).0 same))
        | inr other ↦ rw other refl
      ]
