-- ===== src/Binding/Resolve/Once.antt =====
-- korvex/_schema.py: `Run.values`, through which a function that is asked for with `cache` is called
-- once for a request.
use korvex.Prelude.{
  ℕ, zero, suc, Bool, true, false, ◌&&◌, List, [], ◌∷◌, ◌++◌, Option, none, some, ◌≡◌, refl, ◌∙◌,
  ap, ◌≤◌, ◌<◌, ◌+◌, arith,
}
use korvex.Prelude.Lists.{All, is_some}
use korvex.Prelude.Tests.{Bool-cases, if◌then◌else◌, ◌==◌}
use korvex.Binding.{Objects, no_args}
use korvex.Binding.Reading.{Dep, Plan, Input, Models}
use korvex.Binding.Resolve.{
  Result, ok, failed, exhausted, Run, Program, Called, value, stopped, threw, and_then, deps_loop,
  called_as, call_with, resolve, resolve_as, bind, has_arguments, stored, read_with, value_of,
  put_value, new_run,
}
use korvex.Binding.Resolve.Steps.{and_then-follows, deps_loop-follows}
use korvex.Binding.Resolve.Bound.{AllBelow}
use korvex.Binding.{Dict}
use korvex.Prelude.{inl}
use korvex.Prelude.{inr}

-- How many calls of `f` that were asked for with `cache` gave a value.
unfoldable pub times : ℕ → List (ℕ × Bool) → ℕ
times f [] = 0
times f ((g, cache) ∷ calls) = (if g == f && cache then 1 else 0) + times f calls

abbrev pub one_if : Bool → ℕ
one_if true = 1
one_if false = 0

times-append :
    (f : ℕ) (xs : List (ℕ × Bool)) (g : ℕ) (cache : Bool)
    → times f (xs ++ (g, cache) ∷ []) ≡ times f xs + (if g == f && cache then 1 else 0)
unfolding times
times-append f [] g cache = omega arith
times-append f ((h, c) ∷ xs) g cache = omega (arith, times-append f xs g cache)

module _ {V : Type 0} where
  pub value_of-put :
      (f g : ℕ) (v : V) (vs : List (ℕ × V))
      → value_of g (put_value f v vs) ≡ (if f == g then some v else value_of g vs)
  unfolding value_of put_value
  value_of-put f g v [] = refl
  value_of-put f g v ((h, w) ∷ vs) = ground (arith, value_of-put f g v vs)

module _ {V W : Type 0} where
  -- One value is kept of each function that was called, and it stays.
  abbrev pub Counted : ℕ → Run V W → Type 0
  Counted g run = times g run.calls ≡ one_if (is_some (value_of g run.values))

  -- From `a` to `b`, only functions of a rank below `k` are called.
  pub record Later (rank : ℕ → ℕ) (k : ℕ) (a b : Run V W) : Type 0 where
    pub counted : (g : ℕ) → Counted g a → Counted g b
    pub frame : (g : ℕ) → k ≤ rank g → value_of g b.values ≡ value_of g a.values
    pub stays :
        (g : ℕ) → is_some (value_of g a.values) ≡ true → value_of g b.values ≡ value_of g a.values

  module _ (rank : ℕ → ℕ) where
    Later-refl : (k : ℕ) (a : Run V W) → Later rank k a a
    Later-refl k a = record { counted = λ g h. h; frame = λ g h. refl; stays = λ g h. refl }

    Later-trans : (k : ℕ) (a b c : Run V W) → Later rank k a b → Later rank k b c → Later rank k a c
    Later-trans k a b c p q = record {
      counted = λ g h. q.counted g (p.counted g h);
      frame = λ g h. q.frame g h ∙ p.frame g h;
      stays = λ g h. q.stays g (ap is_some (p.stays g h) ∙ h) ∙ p.stays g h;
    }

    Later-weaken : (j k : ℕ) (a b : Run V W) → j ≤ k → Later rank j a b → Later rank k a b
    Later-weaken j k a b le p = record {
      counted = p.counted;
      frame = λ g h. p.frame g (omega (arith, le, h));
      stays = p.stays;
    }

    module _ (program : Program V W) (k f : ℕ) (below : rank f < k) where
      -- A value that is looked up first is not there when the function is called.
      abbrev IsFresh : Bool → Run V W → Type 0
      IsFresh cache a = cache ≡ true → value_of f a.values ≡ none

      called_as-Later :
          (cache : Bool) (s : Called V × W) (a : Run V W)
          → IsFresh cache a
          → Later rank k a ((called_as program f cache s a).1)
      unfolding called_as
      called_as-Later true (value v, w) a fresh = record {
        counted = λ g h.
            ground
              (arith, times-append g a.calls f true, value_of-put f g v a.values, h, fresh refl);
        frame = λ g h. ground (arith, value_of-put f g v a.values, h, below);
        stays = λ g h. ground (arith, value_of-put f g v a.values, h, fresh refl);
      }
      called_as-Later false (value v, w) a fresh = record {
        counted = λ g h. ground (arith, times-append g a.calls f false, h);
        frame = λ g h. refl;
        stays = λ g h. refl;
      }
      called_as-Later cache (stopped, w) a fresh = record {
        counted = λ g h. h;
        frame = λ g h. refl;
        stays = λ g h. refl;
      }
      called_as-Later cache (threw e, w) a fresh = record {
        counted = λ g h. h;
        frame = λ g h. refl;
        stays = λ g h. refl;
      }

      call_with-Later :
          (cache : Bool) (kwargs : Dict V) (a : Run V W)
          → IsFresh cache a
          → Later rank k a ((call_with program f cache kwargs a).1)
      unfolding call_with
      call_with-Later cache kwargs a fresh =
          called_as-Later cache (program.invoke f kwargs a.user) a fresh

      bound-Later :
          (cache : Bool) (a : Run V W) (s : Result (Dict V) × Run V W)
          → Later rank (rank f) a (s.1)
          → IsFresh cache a
          → Later rank k a ((and_then s (call_with program f cache)).1)
      bound-Later cache a (ok kwargs, run) h fresh =
          Later-trans k a run ((call_with program f cache kwargs run).1)
            (Later-weaken (rank f) k a run (omega (arith, below)) h)
            (call_with-Later cache kwargs run (λ c. h.frame f (omega arith) ∙ fresh c))
      bound-Later cache a (failed e, run) h fresh =
          Later-weaken (rank f) k a run (omega (arith, below)) h
      bound-Later cache a (exhausted, run) h fresh =
          Later-weaken (rank f) k a run (omega (arith, below)) h

      stored-IsFresh :
          (cache : Bool) (a : Run V W) → stored program f cache a ≡ none → IsFresh cache a
      stored-IsFresh true a h c = h
      stored-IsFresh false a h c = cc

      resolve_as-Later :
          (binder : Plan V → Run V W → Result (Dict V) × Run V W) (cache : Bool) (a : Run V W)
          (o : Option V)
          → (stored program f cache a ≡ o)
          → Later rank (rank f) a ((binder (program.plan_of f) a).1)
          → Later rank k a ((resolve_as program binder f cache o a).1)
      resolve_as-Later binder cache a (some v) e h = Later-refl k a
      resolve_as-Later binder cache a none e h =
          let fresh = stored-IsFresh cache a e in
          elim (Bool-cases (has_arguments (program.plan_of f))) [
            | inl b ↦ rw b (bound-Later cache a (binder (program.plan_of f) a) h fresh)
            | inr b ↦ rw b (call_with-Later cache [] a fresh)
          ]

    module _ (program : Program V W) (objects : Objects V) (models : Models V) (input : Input V)
        (acyclic : (f : ℕ)
          → AllBelow rank program.override (rank f) (program.plan_of f).dependencies) where
      all-Later :
          (k : ℕ) (binder : Plan V → Run V W → Result (Dict V) × Run V W) (ds : List Dep)
          → ((f : ℕ) (a : Run V W) → Later rank (rank f) a ((binder (program.plan_of f) a).1))
          → AllBelow rank program.override k ds
          → All (λ d. (a : Run V W) → Later rank k a ((resolve program binder d a).1)) ds
      unfolding resolve
      all-Later k binder [] ih h = tt
      all-Later k binder (d ∷ ds) ih (h, hs) = (
        λ a.
            let f = program.override d.func in
            resolve_as-Later program k f h binder d.cache a (stored program f d.cache a) refl
              (ih f a),
        all-Later k binder ds ih hs,
      )

      pub bind-Later :
          (n k : ℕ) (plan : Plan V) (a : Run V W)
          → AllBelow rank program.override k plan.dependencies
          → Later rank k a ((bind program objects models input n plan a).1)
      unfolding bind
      bind-Later zero k plan a h = Later-refl k a
      bind-Later (suc n) k plan a h =
          let binder = bind program objects models input n in
          and_then-follows (Later rank k) (Later-refl k) (Later-trans k) a
            (deps_loop (resolve program binder) plan.dependencies no_args a)
            (read_with program objects models input plan)
            (deps_loop-follows (Later rank k) (Later-refl k) (Later-trans k)
              (resolve program binder) plan.dependencies no_args a
              (all-Later k binder plan.dependencies
                (λ f b. bind-Later n (rank f) (program.plan_of f) b (acyclic f)) h))
            (λ args run. Later-refl k run)

      -- Where a rank falls from each function to those that its plan depends on, as they are overridden, a
      -- function gives at most one value for the dependencies of a request that are asked for with
      -- `cache`.
      pub bind-once :
          (n k : ℕ) (plan : Plan V) (f : ℕ)
          → AllBelow rank program.override k plan.dependencies
          → times f ((bind program objects models input n plan (new_run program)).1.calls) ≤ 1
      unfolding value_of times
      bind-once n k plan f h =
          let run = (bind program objects models input n plan (new_run program)).1 in
          let counted : times f run.calls ≡ one_if (is_some (value_of f run.values)) =
            (bind-Later n k plan (new_run program) h).counted f refl in
          elim (Bool-cases (is_some (value_of f run.values))) [
            | inl e ↦ rw (counted, e) (omega arith)
            | inr e ↦ rw (counted, e) (omega arith)
          ]
