-- ===== src/Taskboard/Rules.antt =====
-- examples/taskboard/taskboard/domain.py, services/lists.py and services/tasks.py: the rules for lists and
-- tasks. The repositories are the interface `Repository`, on the state of the database; the type `D` is of
-- dates, `T` of times and `P` of a task's position. A new identifier and the time are arguments.
pub mod Lists
pub mod Tasks
pub mod Updated
use korvex.Prelude.{
  ℕ, ◌%◌, Bool, true, false, not, ◌&&◌, ◌||◌, List, [], ◌∷◌, ◌++◌, Option, none, some,
}
use korvex.Prelude.Lists.{keep_if}
use korvex.Prelude.Tests.{◌==◌, if◌then◌else◌}
use korvex.Prelude.Text.{Text, codes, is_empty, is_space, strip, grow}
use korvex.Taskboard.Events.{Bus, publish}

-- A colour is its place in `COLORS`.
pub record TaskList : Type 0 where
  pub id : ℕ
  pub name : Text
  pub color : ℕ
  pub position : ℕ
  pub open_tasks : ℕ

pub record Task (D T P : Type 0) : Type 0 where
  pub id : ℕ
  pub list_id : ℕ
  pub title : Text
  pub notes : Text
  pub done : Bool
  pub due : Option D
  pub position : P
  pub created_at : T
  pub completed_at : Option T

pub data Notice (D T P : Type 0) : Type 0 where
  task_created task_updated : Task D T P → Notice D T P
  task_deleted : (id list_id : ℕ) → Notice D T P
  tasks_reordered list_deleted : ℕ → Notice D T P
  list_created list_updated : TaskList → Notice D T P

-- What an operation gives, or the error that it raises.
pub data Served (A : Type 0) : Type 0 where
  served : A → Served A
  not_found : (kind : Text) (id : ℕ) → Served A
  invalid_input : (field : Text) → Served A

pub record Repository (S D T P : Type 0) : Type 0 where
  pub list_of : ℕ → S → Option TaskList
  pub save_list : TaskList → S → S
  pub delete_list : ℕ → S → S
  pub count : S → ℕ
  pub next_position : S → ℕ
  pub task_of : ℕ → S → Option (Task D T P)
  pub save_task : Task D T P → S → S
  pub delete_task : ℕ → S → S
  pub delete_done : ℕ → S → List ℕ × S
  pub first_position : ℕ → S → P
  pub reorder : ℕ → List ℕ → S → S

pub record World (S D T P : Type 0) : Type 0 where
  pub store : S
  pub bus : Bus (Notice D T P)

-- s.split()
unfoldable pub split_spaces : Text → List Text
unfolding is_space
split_spaces [] = [] ∷ []
split_spaces (c ∷ s) = let rest = split_spaces s in if is_space c then [] ∷ rest else grow c rest

unfoldable pub space_join : List Text → Text
space_join [] = []
space_join (s ∷ []) = s
space_join (s ∷ t ∷ ss) = s ++ b' ' ∷ space_join (t ∷ ss)

-- " ".join(s.split())
unfoldable pub collapsed : Text → Text
unfolding split_spaces space_join
collapsed s = space_join (keep_if (λ t. not (is_empty t)) (split_spaces s))

-- `_name` and `_title`
unfoldable pub named : Text → Text → Served Text
unfolding collapsed
named field s = let t = collapsed s in if is_empty t then invalid_input field else served t

abbrev pub then_served : {A B : Type 0} → Served A → (A → Served B) → Served B
then_served (served a) f = f a
then_served (not_found kind id) f = not_found kind id
then_served (invalid_input field) f = invalid_input field

-- What an operation does once its checks gave a value: nothing where one of them raised.
abbrev pub and_do :
    {A B S D T P : Type 0}
    → World S D T P
    → Served A
    → (A → Served B × World S D T P)
    → Served B × World S D T P
and_do w (served a) f = f a
and_do w (not_found kind id) f = (not_found kind id, w)
and_do w (invalid_input field) f = (invalid_input field, w)

abbrev pub found : {A : Type 0} → Text → ℕ → Option A → Served A
found kind id none = not_found kind id
found kind id (some a) = served a

module _ {S D T P : Type 0} (repo : Repository S D T P) where
  -- `ListService.get` and `TaskService._list`
  unfoldable pub get_list : ℕ → World S D T P → Served TaskList
  get_list id w = found (codes "list") id (repo.list_of id w.store)

  -- `TaskService.get`
  unfoldable pub get_task : ℕ → World S D T P → Served (Task D T P)
  get_task id w = found (codes "task") id (repo.task_of id w.store)
