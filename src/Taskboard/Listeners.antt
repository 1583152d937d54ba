-- ===== src/Taskboard/Listeners.antt =====
-- examples/taskboard/taskboard/services/events.py: what each listener gets.
use mathlib.Core.List.{append_assoc}
use mathlib.Core.Path.{subst}
use korvex.Prelude.{
  ℕ, ◌<◌, ◌≤◌, ◌≡◌, refl, sym, ap, ◌∙◌, Bool, true, false, List, [], ◌∷◌, ◌++◌, map, Option, none,
  some, inl, inr, arith,
}
use korvex.Prelude.Lists.{All, All-append, length, length-append}
use korvex.Prelude.Tests.{◌==◌, if◌then◌else◌, Bool-cases}
use korvex.Taskboard.Events.{
  Queue, Bus, Event, subscribing, unsubscribing, publishing, reading, new_queue, subscribe, leave,
  leave_all, unsubscribe, is_full, tail, offer, offer_all, publish, get_from, read_all, step, run,
}
use mathlib.Core.List.{tail-eq_of_cons-eq}
use mathlib.Core.List.{head-eq_of_cons-eq}

module _ {M : Type 0} where
  -- What a listener that was cut off gets: all but the message `x` that made room, and the last one, `m`.
  pub record CutOff (got : List (Option M)) (offered : List M) : Type 0 where
    pub before : List M
    pub x : M
    pub after : List M
    pub m : M
    pub offered_eq : offered ≡ (before ++ x ∷ after) ++ m ∷ []
    pub got_eq : got ≡ map some (before ++ after) ++ none ∷ []

  pub record IsFaithful (size : ℕ) (q : Queue M) : Type 0 where
    pub bounded : 0 < size → length q.items ≤ size
    pub whole : q.listening ≡ true → q.taken ++ q.items ≡ map some q.offered
    pub cut_off : q.listening ≡ false → q.left ≡ false → CutOff (q.taken ++ q.items) q.offered

  map-append : (xs ys : List M) → map some (xs ++ ys) ≡ map some xs ++ map some ys
  map-append [] ys = refl
  map-append (x ∷ xs) ys = ap (λ zs. some x ∷ zs) (map-append xs ys)

  -- A list of messages that is read up to the next one, split there.
  record Split (taken : List (Option M)) (rest : List (Option M)) (offered : List M) : Type 0 where
    before : List M
    x : M
    after : List M
    offered_eq : offered ≡ before ++ x ∷ after
    rest_eq : taken ++ rest ≡ map some (before ++ after)

  Split-append :
      (taken : List (Option M)) (y : Option M) (rest : List (Option M)) (offered : List M)
      → taken ++ y ∷ rest ≡ map some offered
      → Split taken rest offered
  Split-append [] y rest [] h = cc
  Split-append [] y rest (o ∷ os) h = record {
    before = [];
    x = o;
    after = os;
    offered_eq = refl;
    rest_eq = tail-eq_of_cons-eq h;
  }
  Split-append (t ∷ ts) y rest [] h = cc
  Split-append (t ∷ ts) y rest (o ∷ os) h =
      let s = Split-append ts y rest os (tail-eq_of_cons-eq h) in
      record {
        before = o ∷ s.before;
        x = s.x;
        after = s.after;
        offered_eq = ap (λ zs. o ∷ zs) s.offered_eq;
        rest_eq = λ i. head-eq_of_cons-eq h i ∷ s.rest_eq i;
      }

  new_queue-IsFaithful : (size ident : ℕ) → IsFaithful size (new_queue ident)
  new_queue-IsFaithful size ident = record {
    bounded = λ h. omega arith;
    whole = λ h. refl;
    cut_off = λ h k. cc;
  }

  leave-IsFaithful :
      (size ident : ℕ) (q : Queue M) → IsFaithful size q → IsFaithful size (leave ident q)
  leave-IsFaithful size ident q h = elim (Bool-cases (q.ident == ident)) [
    | inl e ↦ rw e (record { bounded = h.bounded; whole = λ l. cc; cut_off = λ l k. cc })
    | inr e ↦ rw e h
  ]

  -- A full queue: its oldest item makes room.
  cut-IsFaithful :
      (size : ℕ) (m : M) (q : Queue M) (items : List (Option M))
      → q.items ≡ items
      → is_full size items ≡ true
      → q.listening ≡ true
      → IsFaithful size q
      → IsFaithful size (record q {
        items = tail items ++ none ∷ [];
        listening = false;
        offered = q.offered ++ m ∷ [];
      })
  cut-IsFaithful size m q [] e full on h = ground (arith, full)
  cut-IsFaithful size m q (y ∷ ys) e full on h =
      let s =
        Split-append q.taken y ys q.offered (ap (λ items. q.taken ++ items) (sym e) ∙ h.whole on) in
      record {
        bounded = λ lt. omega (arith, h.bounded lt, ap length e, length-append ys (none ∷ []));
        whole = λ l. cc;
        cut_off = λ l k. record {
          before = s.before;
          x = s.x;
          after = s.after;
          m = m;
          offered_eq = ap (λ zs. zs ++ m ∷ []) s.offered_eq;
          got_eq = sym (append_assoc q.taken ys (none ∷ [])) ∙ ap (λ zs. zs ++ none ∷ []) s.rest_eq;
        };
      }

  put-IsFaithful :
      (size : ℕ) (m : M) (q : Queue M)
      → is_full size q.items ≡ false
      → q.listening ≡ true
      → IsFaithful size q
      → IsFaithful size (record q { items = q.items ++ some m ∷ []; offered = q.offered ++ m ∷ [] })
  put-IsFaithful size m q room on h = record {
    bounded = λ lt. ground (arith, room, lt, length-append q.items (some m ∷ []));
    whole = λ l.
        sym (append_assoc q.taken q.items (some m ∷ []))
        ∙ (ap (λ zs. zs ++ some m ∷ []) (h.whole on) ∙ sym (map-append q.offered (m ∷ [])));
    cut_off = λ l k. cc;
  }

  IsFaithful-if :
      (size : ℕ) (b : Bool) (x y : Queue M)
      → (b ≡ true → IsFaithful size x)
      → (b ≡ false → IsFaithful size y)
      → IsFaithful size (if b then x else y)
  IsFaithful-if size true x y hx hy = hx refl
  IsFaithful-if size false x y hx hy = hy refl

  offer-IsFaithful :
      (size : ℕ) (m : M) (q : Queue M) → IsFaithful size q → IsFaithful size (offer size m q)
  unfolding offer
  offer-IsFaithful size m q h =
      IsFaithful-if size q.listening _ q
        (λ on.
          IsFaithful-if size (is_full size q.items) _ _
            (λ full. cut-IsFaithful size m q q.items refl full on h)
            (λ room. put-IsFaithful size m q room on h))
        (λ off. h)

  get_from-IsFaithful :
      (size : ℕ) (q : Queue M) (items : List (Option M))
      → q.items ≡ items
      → IsFaithful size q
      → IsFaithful size (get_from items q)
  get_from-IsFaithful size q [] e h = h
  get_from-IsFaithful size q (x ∷ xs) e h =
      let same : (q.taken ++ x ∷ []) ++ xs ≡ q.taken ++ q.items =
        append_assoc q.taken (x ∷ []) xs ∙ ap (λ items. q.taken ++ items) (sym e) in
      record {
        bounded = λ lt. omega (arith, h.bounded lt, ap length e);
        whole = λ l. same ∙ h.whole l;
        cut_off = λ l k. subst (λ got. CutOff got q.offered) (sym same) (h.cut_off l k);
      }

  abbrev pub AllFaithful : Bus M → Type 0
  AllFaithful b = All (IsFaithful b.queue_size) b.queues

  leave_all-All :
      (size ident : ℕ) (qs : List (Queue M))
      → All (IsFaithful size) qs
      → All (IsFaithful size) (leave_all ident qs)
  unfolding leave_all
  leave_all-All size ident [] h = tt
  leave_all-All size ident (q ∷ qs) (h, hs) =
      (leave-IsFaithful size ident q h, leave_all-All size ident qs hs)

  offer_all-All :
      (size : ℕ) (m : M) (qs : List (Queue M))
      → All (IsFaithful size) qs
      → All (IsFaithful size) (offer_all size m qs)
  unfolding offer_all
  offer_all-All size m [] h = tt
  offer_all-All size m (q ∷ qs) (h, hs) = (offer-IsFaithful size m q h, offer_all-All size m qs hs)

  read_all-All :
      (size ident : ℕ) (qs : List (Queue M))
      → All (IsFaithful size) qs
      → All (IsFaithful size) (read_all ident qs)
  unfolding read_all
  read_all-All size ident [] h = tt
  read_all-All size ident (q ∷ qs) (h, hs) = (
    IsFaithful-if size (q.ident == ident) (get_from q.items q) q
        (λ e. get_from-IsFaithful size q q.items refl h) (λ e. h),
    read_all-All size ident qs hs,
  )

  step-AllFaithful : (e : Event M) (b : Bus M) → AllFaithful b → AllFaithful (step e b)
  unfolding step subscribe unsubscribe publish
  step-AllFaithful subscribing b h =
      All-append (IsFaithful b.queue_size) b.queues (new_queue (length b.queues) ∷ []) h
        (new_queue-IsFaithful b.queue_size (length b.queues), tt)
  step-AllFaithful (unsubscribing ident) b h = leave_all-All b.queue_size ident b.queues h
  step-AllFaithful (publishing m) b h = offer_all-All b.queue_size m b.queues h
  step-AllFaithful (reading ident) b h = read_all-All b.queue_size ident b.queues h

  -- However listeners subscribe, read and leave and messages are published, from any state of a bus where
  -- it holds of every queue: a queue holds no more than its size, if that is not 0; a listener that
  -- still listens gets all the messages that were published while it did, in order; and one that was
  -- cut off and has not left gets them in order with `None` at the end, but not the last one nor one
  -- before it.
  pub run-AllFaithful : (es : List (Event M)) (b : Bus M) → AllFaithful b → AllFaithful (run es b)
  unfolding run
  run-AllFaithful [] b h = h
  run-AllFaithful (e ∷ es) b h = run-AllFaithful es (step e b) (step-AllFaithful e b h)
