-- ===== src/Taskboard/Events.antt =====
-- examples/taskboard/taskboard/services/events.py: `EventBus`, which hands each message to the bounded
-- queues of the listeners. A listener reads its queue at any time; `left` says that it unsubscribed, and
-- `taken` and `offered` record what it read, and what was published while it listened.
use korvex.Prelude.{ℕ, ◌+◌, Bool, true, false, ◌&&◌, List, [], ◌∷◌, ◌++◌, Option, none, some}
use korvex.Prelude.Lists.{length}
use korvex.Prelude.Tests.{ltb, leb, ◌==◌, if◌then◌else◌}

pub record Queue (M : Type 0) : Type 0 where
  pub ident : ℕ
  pub items : List (Option M)
  pub listening : Bool
  pub left : Bool
  pub taken : List (Option M)
  pub offered : List M

-- The queues that were handed out.
pub record Bus (M : Type 0) : Type 0 where
  pub queue_size : ℕ
  pub queues : List (Queue M)

-- What happens to a bus: the three methods, and a listener that reads.
pub data Event (M : Type 0) : Type 0 where
  subscribing : Event M
  unsubscribing : ℕ → Event M
  publishing : M → Event M
  reading : ℕ → Event M

module _ {M : Type 0} where
  -- `listeners`
  unfoldable pub listeners : List (Queue M) → ℕ
  listeners [] = 0
  listeners (q ∷ qs) = (if q.listening then 1 else 0) + listeners qs

  abbrev pub new_queue : ℕ → Queue M
  new_queue ident = record {
    ident = ident;
    items = [];
    listening = true;
    left = false;
    taken = [];
    offered = [];
  }

  unfoldable pub subscribe : Bus M → Bus M
  subscribe b = record b { queues = b.queues ++ new_queue (length b.queues) ∷ [] }

  abbrev pub leave : ℕ → Queue M → Queue M
  leave ident q = if q.ident == ident then record q { listening = false; left = true } else q

  unfoldable pub leave_all : ℕ → List (Queue M) → List (Queue M)
  leave_all ident [] = []
  leave_all ident (q ∷ qs) = leave ident q ∷ leave_all ident qs

  unfoldable pub unsubscribe : ℕ → Bus M → Bus M
  unfolding leave_all
  unsubscribe ident b = record b { queues = leave_all ident b.queues }

  -- queue.full(): without a bound of its own, a queue of size 0 never is.
  abbrev pub is_full : ℕ → List (Option M) → Bool
  is_full size items = ltb 0 size && leb size (length items)

  abbrev pub tail : List (Option M) → List (Option M)
  tail [] = []
  tail (x ∷ xs) = xs

  -- A full queue is cut off: its oldest message makes room for `None`.
  unfoldable pub offer : ℕ → M → Queue M → Queue M
  offer size m q =
      if q.listening
      then (if is_full size q.items
          then record q {
            items = tail q.items ++ none ∷ [];
            listening = false;
            offered = q.offered ++ m ∷ [];
          }
          else record q { items = q.items ++ some m ∷ []; offered = q.offered ++ m ∷ [] })
      else q

  unfoldable pub offer_all : ℕ → M → List (Queue M) → List (Queue M)
  unfolding offer
  offer_all size m [] = []
  offer_all size m (q ∷ qs) = offer size m q ∷ offer_all size m qs

  unfoldable pub publish : M → Bus M → Bus M
  unfolding offer_all
  publish m b = record b { queues = offer_all b.queue_size m b.queues }

  -- queue.get(), which waits where the queue is empty
  abbrev pub get_from : List (Option M) → Queue M → Queue M
  get_from [] q = q
  get_from (x ∷ xs) q = record q { items = xs; taken = q.taken ++ x ∷ [] }

  unfoldable pub read_all : ℕ → List (Queue M) → List (Queue M)
  read_all ident [] = []
  read_all ident (q ∷ qs) =
      let rest = read_all ident qs in (if q.ident == ident then get_from q.items q else q) ∷ rest

  unfoldable pub step : Event M → Bus M → Bus M
  unfolding subscribe unsubscribe publish read_all
  step subscribing b = subscribe b
  step (unsubscribing ident) b = unsubscribe ident b
  step (publishing m) b = publish m b
  step (reading ident) b = record b { queues = read_all ident b.queues }

  unfoldable pub run : List (Event M) → Bus M → Bus M
  unfolding step
  run [] b = b
  run (e ∷ es) b = run es (step e b)

  -- `EventBus(queue_size)`
  abbrev pub new_bus : ℕ → Bus M
  new_bus size = record { queue_size = size; queues = [] }
