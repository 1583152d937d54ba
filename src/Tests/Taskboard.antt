-- ===== src/Tests/Taskboard.antt =====
-- A board with one listener, and a list of three tasks.
use korvex.Prelude.Tests.{ltb, ltb→lt, ◌==◌, if◌then◌else◌, Bool-cases}
use korvex.Prelude.{
  ℕ, ◌+◌, ◌-◌, ◌<◌, ◌≤◌, true, false, none, some, inl, inr, ◌≡◌, refl, List, [], ◌∷◌, ◌++◌, arith,
}
use korvex.Prelude.Lists.{keep_if}
use korvex.Taskboard.Events.{Event, subscribing, publishing, reading, run, new_bus}
use korvex.Taskboard.Listeners.{AllFaithful, run-AllFaithful}
use korvex.Prelude.Text.{codes}
use korvex.Taskboard.Rules.{TaskList, Task, Repository, World}
use korvex.Taskboard.Rules.Lists.{creating, deleting, serve_all, serve_all-keeps}
use korvex.Taskboard.Rules.Tasks.{Fields, update}
use korvex.Taskboard.Rules.Updated.{Updates, update-Updates}
use korvex.Taskboard.Order.{AllOnce, is_in, wanted, fresh_keys, new_order, new_order-AllOnce}
use korvex.Prelude.{not}

-- The second message fills the queue, and the third cuts the listener off.
abbrev afternoon : List (Event ℕ)
afternoon = subscribing ∷ publishing 1 ∷ reading 0 ∷ publishing 2 ∷ publishing 3 ∷ reading 0 ∷ []

run-AllFaithful_example : AllFaithful (run afternoon (new_bus 1))
run-AllFaithful_example = run-AllFaithful afternoon (new_bus 1) tt

new_order-AllOnce_example :
    AllOnce (new_order (1 ∷ 2 ∷ 3 ∷ []) (3 ∷ 9 ∷ []))
    × ((x : ℕ) → is_in x (new_order (1 ∷ 2 ∷ 3 ∷ []) (3 ∷ 9 ∷ [])) ≡ is_in x (1 ∷ 2 ∷ 3 ∷ []))
    × (new_order (1 ∷ 2 ∷ 3 ∷ []) (3 ∷ 9 ∷ [])
        ≡ fresh_keys [] (wanted (1 ∷ 2 ∷ 3 ∷ []) (3 ∷ 9 ∷ []))
          ++ keep_if (λ y. not (is_in y (wanted (1 ∷ 2 ∷ 3 ∷ []) (3 ∷ 9 ∷ [])))) (1 ∷ 2 ∷ 3 ∷ []))
new_order-AllOnce_example =
    new_order-AllOnce (1 ∷ 2 ∷ 3 ∷ []) (3 ∷ 9 ∷ []) (refl, (refl, (refl, tt)))

-- Lists that are told apart by their number, and one task.
abbrev inbox : ℕ → TaskList
inbox id = record { id = id; name = codes "Inbox"; color = 0; position = id; open_tasks = 0 }

abbrev call_mum : Task ℕ ℕ ℕ
call_mum = record {
  id = 7;
  list_id = 0;
  title = codes "Call";
  notes = [];
  done = false;
  due = none;
  position = 0;
  created_at = 1;
  completed_at = none;
}

abbrev counted : Repository ℕ ℕ ℕ ℕ
counted = record {
  list_of = λ id n. if ltb id n then some (inbox id) else none;
  save_list = λ (l : TaskList) n. if ltb l.id n then n else n + 1;
  delete_list = λ id n. n - 1;
  count = λ n. n;
  next_position = λ n. n;
  task_of = λ id n. if id == 7 then some call_mum else none;
  save_task = λ t n. n;
  delete_task = λ id n. n;
  delete_done = λ id n. ([], n);
  first_position = λ id n. 0;
  reorder = λ id ids n. n;
}

count-delete :
    (id n : ℕ) (l : TaskList)
    → counted.list_of id n ≡ some l
    → counted.count (counted.delete_list id n) + 1 ≡ n
count-delete id n l h = elim (Bool-cases (ltb id n)) [
  | inl e ↦ omega (arith, ltb→lt id n e)
  | inr e ↦ ground (arith, e, h)
]

count-save : (l : TaskList) (n : ℕ) → n ≤ counted.count (counted.save_list l n)
count-save l n = ground arith

abbrev two_lists : World ℕ ℕ ℕ ℕ
two_lists = record { store = 2; bus = new_bus 5 }

serve_all-keeps_example :
    0
    < (serve_all counted
        (deleting 0 ∷ deleting 0 ∷ creating 9 (codes " a ") none ∷ [])
        two_lists).store
serve_all-keeps_example =
    serve_all-keeps counted count-delete count-save
      (deleting 0 ∷ deleting 0 ∷ creating 9 (codes " a ") none ∷ []) two_lists (omega arith)

abbrev finish_it : Fields ℕ
finish_it = record { title = none; notes = none; done = some true; due = none; list_id = none }

update-Updates_example : Updates counted 7 two_lists (update counted 7 3 finish_it two_lists)
update-Updates_example = update-Updates counted 7 3 finish_it two_lists
