-- ===== src/Binding/Resolve/Steps.antt =====
-- korvex/_schema.py: how a relation of the runs before and after passes through the loop of
-- `Plan.bind` over a plan's dependencies.
use korvex.Prelude.{List, [], ◌∷◌}
use korvex.Prelude.Lists.{All}
use korvex.Errors.{http, validation, abort, other}
use korvex.Binding.{Args}
use korvex.Binding.Reading.{Dep}
use korvex.Binding.Resolve.{Result, ok, failed, exhausted, Run, and_then, dep_step, deps_loop}

module _ {V W : Type 0} (R : Run V W → Run V W → Type 0) (R-refl : (a : Run V W) → R a a)
    (R-trans : (a b c : Run V W) → R a b → R b c → R a c) where
  dep_step-follows :
      (a : Run V W) (d : Dep) (args : Args V) (s : Result V × Run V W)
      → R a (s.1)
      → R a ((dep_step d args s).1)
  unfolding dep_step
  dep_step-follows a d args (ok v, run) h = h
  dep_step-follows a d args (failed (http cs s t hs), run) h = h
  dep_step-follows a d args (failed (validation cs es), run) h = h
  dep_step-follows a d args (failed (abort cs r), run) h = h
  dep_step-follows a d args (failed (other cs), run) h = h
  dep_step-follows a d args (exhausted, run) h = h

  pub and_then-follows :
      {A B : Type 0} (a : Run V W) (s : Result A × Run V W) (f : A → Run V W → Result B × Run V W)
      → R a (s.1)
      → ((x : A) (run : Run V W) → R run ((f x run).1))
      → R a ((and_then s f).1)
  and_then-follows a (ok x, run) f h hf = R-trans a run ((f x run).1) h (hf x run)
  and_then-follows a (failed e, run) f h hf = h
  and_then-follows a (exhausted, run) f h hf = h

  pub deps_loop-follows :
      (resolver : Dep → Run V W → Result V × Run V W) (ds : List Dep) (args : Args V)
      (run : Run V W)
      → All (λ d. (run : Run V W) → R run ((resolver d run).1)) ds
      → R run ((deps_loop resolver ds args run).1)
  unfolding deps_loop
  deps_loop-follows resolver [] args run h = R-refl run
  deps_loop-follows resolver (d ∷ ds) args run (h, hs) =
      and_then-follows run (dep_step d args (resolver d run)) (deps_loop resolver ds)
        (dep_step-follows run d args (resolver d run) (h run))
        (λ args run. deps_loop-follows resolver ds args run hs)
