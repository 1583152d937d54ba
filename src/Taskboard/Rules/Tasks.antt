-- ===== src/Taskboard/Rules/Tasks.antt =====
-- examples/taskboard/taskboard/services/tasks.py: `TaskService`. An argument that is UNSET is `none`.
use korvex.Prelude.{ℕ, Bool, true, false, not, List, [], ◌∷◌, Option, none, some}
use korvex.Prelude.Lists.{length}
use korvex.Prelude.Tests.{◌==◌, if◌then◌else◌}
use korvex.Prelude.Text.{Text, codes, strip, is_space}
use korvex.Taskboard.Events.{Bus, publish}
use korvex.Taskboard.Rules.{
  Task, Notice, task_created, task_updated, task_deleted, tasks_reordered, Served, served,
  Repository, World, named, then_served, and_do, get_list, get_task,
}

-- The fields that `update` is given.
pub record Fields (D : Type 0) : Type 0 where
  pub title : Option Text
  pub notes : Option Text
  pub done : Option Bool
  pub due : Option (Option D)
  pub list_id : Option ℕ

-- The task with its changes so far, and whether there are any.
pub record Changed (D T P : Type 0) : Type 0 where
  pub task : Task D T P
  pub changed : Bool

abbrev pub differs : Bool → Bool → Bool
differs true b = not b
differs false b = b

module _ {S D T P : Type 0} (repo : Repository S D T P) where
  -- A new task, at the top of its list.
  unfoldable pub create :
      ℕ → T → ℕ → Text → Text → Option D → World S D T P → Served (Task D T P) × World S D T P
  unfolding named get_list strip is_space publish
  create uuid now list_id title notes due w =
      and_do w (then_served (get_list repo list_id w) (λ l. named (codes "title") title)) (λ t.
        let task : Task D T P = record {
          id = uuid;
          list_id = list_id;
          title = t;
          notes = strip is_space notes;
          done = false;
          due = due;
          position = repo.first_position list_id w.store;
          created_at = now;
          completed_at = none;
        } in
        (
          served task,
          record { store = repo.save_task task w.store; bus = publish (task_created task) w.bus },
        ))

  abbrev pub change_title : Option Text → Changed D T P → Served (Changed D T P)
  change_title none c = served c
  change_title (some s) c =
      then_served (named (codes "title") s)
        (λ t. served (record { task = record c.task { title = t }; changed = true }))

  abbrev pub change_notes : Option Text → Changed D T P → Changed D T P
  change_notes none c = c
  change_notes (some s) c = record {
    task = record c.task { notes = strip is_space s };
    changed = true;
  }

  abbrev pub change_due : Option (Option D) → Changed D T P → Changed D T P
  change_due none c = c
  change_due (some due) c = record { task = record c.task { due = due }; changed = true }

  -- The time when it was done, or none.
  abbrev pub change_done : T → Option Bool → Changed D T P → Changed D T P
  change_done now none c = c
  change_done now (some done) c =
      if differs done c.task.done
      then record {
        task = record c.task { done = done; completed_at = if done then some now else none };
        changed = true;
      }
      else c

  -- To the top of another list, which must be there.
  abbrev pub change_list : Option ℕ → World S D T P → Changed D T P → Served (Changed D T P)
  change_list none w c = served c
  change_list (some list_id) w c =
      if list_id == c.task.list_id
      then served c
      else then_served (get_list repo list_id w) (λ l. served (record {
        task = record c.task { list_id = list_id; position = repo.first_position list_id w.store };
        changed = true;
      }))

  abbrev pub changes : T → Fields D → World S D T P → Task D T P → Served (Changed D T P)
  changes now f w task =
      then_served (change_title f.title (record { task = task; changed = false })) (λ c.
        change_list f.list_id w
          (change_done now f.done (change_due f.due (change_notes f.notes c))))

  -- A task that has no change is neither saved nor announced.
  abbrev pub save_changed : World S D T P → Changed D T P → Served (Task D T P) × World S D T P
  save_changed w c =
      if c.changed
      then (
        served c.task,
        record { store = repo.save_task c.task w.store; bus = publish (task_updated c.task) w.bus },
      )
      else (served c.task, w)

  unfoldable pub update : ℕ → T → Fields D → World S D T P → Served (Task D T P) × World S D T P
  unfolding get_task get_list named strip is_space publish
  update id now f w = and_do w (then_served (get_task repo id w) (changes now f w)) (save_changed w)

  unfoldable pub delete : ℕ → World S D T P → Served (Unit {0}) × World S D T P
  unfolding get_task publish
  delete id w = and_do w (get_task repo id w) (λ task. (
    served tt,
    record {
      store = repo.delete_task id w.store;
      bus = publish (task_deleted id task.list_id) w.bus;
    },
  ))

  unfoldable pub reorder : ℕ → List ℕ → World S D T P → Served (Unit {0}) × World S D T P
  unfolding get_list publish
  reorder list_id ids w = and_do w (get_list repo list_id w) (λ l. (
    served tt,
    record {
      store = repo.reorder list_id ids w.store;
      bus = publish (tasks_reordered list_id) w.bus;
    },
  ))

  unfoldable pub publish_deleted : List ℕ → ℕ → Bus (Notice D T P) → Bus (Notice D T P)
  unfolding publish
  publish_deleted [] list_id b = b
  publish_deleted (id ∷ ids) list_id b =
      publish_deleted ids list_id (publish (task_deleted id list_id) b)

  unfoldable pub clear_done : ℕ → World S D T P → Served ℕ × World S D T P
  unfolding get_list publish_deleted
  clear_done list_id w = and_do w (get_list repo list_id w) (λ l.
      let deleted = repo.delete_done list_id w.store in
      (
        served (length (deleted.0)),
        record { store = deleted.1; bus = publish_deleted (deleted.0) list_id w.bus },
      ))
