-- ===== src/Taskboard/Rules/Updated.antt =====
-- examples/taskboard/taskboard/services/tasks.py: what `TaskService.update` saves and publishes.
use korvex.Prelude.{ℕ, ◌≡◌, refl, Bool, true, false, Option, none, some, ◌⊎◌, inl, inr}
use korvex.Prelude.Tests.{◌==◌, if◌then◌else◌, Bool-cases}
use korvex.Prelude.Text.{Text, codes}
use korvex.Taskboard.Events.{publish}
use korvex.Taskboard.Rules.{
  Task, task_updated, Served, served, not_found, invalid_input, Repository, World, named,
  then_served, and_do, found, get_list, get_task,
}
use korvex.Prelude.{◌∙◌}
use korvex.Prelude.{ap}
use korvex.Prelude.{sym}
use korvex.Taskboard.Rules.Tasks.{
  Fields, Changed, differs, change_title, change_notes, change_due, change_done, change_list,
  changes, save_changed, update,
}

module _ {S D T P : Type 0} (repo : Repository S D T P) where
  -- Without changes, the task is the one that was there.
  abbrev IsSame : Task D T P → Changed D T P → Type 0
  IsSame t c = c.changed ≡ false → c.task ≡ t

  abbrev ServesSame : Task D T P → Served (Changed D T P) → Type 0
  ServesSame t (served c) = IsSame t c
  ServesSame t (not_found kind id) = Unit
  ServesSame t (invalid_input field) = Unit

  IsSame-if :
      (t : Task D T P) (b : Bool) (x y : Changed D T P)
      → IsSame t x
      → IsSame t y
      → IsSame t (if b then x else y)
  IsSame-if t true x y hx hy = hx
  IsSame-if t false x y hx hy = hy

  change_notes-IsSame :
      (t : Task D T P) (o : Option Text) (c : Changed D T P)
      → IsSame t c
      → IsSame t (change_notes repo o c)
  change_notes-IsSame t none c h = h
  change_notes-IsSame t (some s) c h = λ e. cc

  change_due-IsSame :
      (t : Task D T P) (o : Option (Option D)) (c : Changed D T P)
      → IsSame t c
      → IsSame t (change_due repo o c)
  change_due-IsSame t none c h = h
  change_due-IsSame t (some d) c h = λ e. cc

  change_done-IsSame :
      (t : Task D T P) (now : T) (o : Option Bool) (c : Changed D T P)
      → IsSame t c
      → IsSame t (change_done repo now o c)
  change_done-IsSame t now none c h = h
  change_done-IsSame t now (some b) c h = IsSame-if t (differs b c.task.done) _ c (λ e. cc) h

  served-ServesSame :
      {A : Type 0} (t : Task D T P) (x : Served A) (f : A → Served (Changed D T P))
      → ((a : A) → ServesSame t (f a))
      → ServesSame t (then_served x f)
  served-ServesSame t (served a) f h = h a
  served-ServesSame t (not_found kind id) f h = tt
  served-ServesSame t (invalid_input field) f h = tt

  change_list-ServesSame :
      (t : Task D T P) (o : Option ℕ) (w : World S D T P) (c : Changed D T P)
      → IsSame t c
      → ServesSame t (change_list repo o w c)
  change_list-ServesSame t none w c h = h
  change_list-ServesSame t (some list_id) w c h = elim (Bool-cases (list_id == c.task.list_id)) [
    | inl e ↦ rw e h
    | inr e ↦ rw e (served-ServesSame t (get_list repo list_id w) _ (λ l k. cc))
  ]

  after_title-ServesSame :
      (t : Task D T P) (o : Option Text) (c : Changed D T P)
      (f : Changed D T P → Served (Changed D T P))
      → IsSame t c
      → ((d : Changed D T P) → IsSame t d → ServesSame t (f d))
      → ServesSame t (then_served (change_title repo o c) f)
  after_title-ServesSame t none c f h hf = hf c h
  after_title-ServesSame t (some s) c f h hf = titled (named (codes "title") s)
    where
      titled :
          (x : Served Text)
          → ServesSame t (
              then_served
                (then_served x
                  (λ n. served (record { task = record c.task { title = n }; changed = true })))
                f)
      titled (served n) =
          hf (record { task = record c.task { title = n }; changed = true }) (λ e. cc)
      titled (not_found kind id) = tt
      titled (invalid_input field) = tt

  changes-ServesSame :
      (now : T) (f : Fields D) (w : World S D T P) (t : Task D T P)
      → ServesSame t (changes repo now f w t)
  changes-ServesSame now f w t =
      after_title-ServesSame t f.title (record { task = t; changed = false }) _ (λ e. refl)
        (λ c h.
          change_list-ServesSame t f.list_id w
            (change_done repo now f.done (change_due repo f.due (change_notes repo f.notes c)))
            (change_done-IsSame t now f.done (change_due repo f.due (change_notes repo f.notes c)) (
              change_due-IsSame t f.due (change_notes repo f.notes c)
                (change_notes-IsSame t f.notes c h))))

  -- What `update` does to the database and the bus.
  abbrev pub Updates : ℕ → World S D T P → Served (Task D T P) × World S D T P → Type 0
  Updates id w (served t, after) =
      ((after ≡ w) × (repo.task_of id w.store ≡ some t))
      ⊎ (after ≡ record { store = repo.save_task t w.store; bus = publish (task_updated t) w.bus })
  Updates id w (not_found kind k, after) = after ≡ w
  Updates id w (invalid_input field, after) = after ≡ w

  save_changed-Updates :
      (id : ℕ) (w : World S D T P) (t : Task D T P) (c : Changed D T P)
      → repo.task_of id w.store ≡ some t
      → IsSame t c
      → Updates id w (save_changed repo w c)
  save_changed-Updates id w t c there h = elim (Bool-cases c.changed) [
    | inl e ↦ rw e (inr refl)
    | inr e ↦ rw e (inl (refl, there ∙ ap (λ u. some u) (sym (h e))))
  ]

  changed-Updates :
      (id : ℕ) (w : World S D T P) (t : Task D T P) (x : Served (Changed D T P))
      → repo.task_of id w.store ≡ some t
      → ServesSame t x
      → Updates id w (and_do w x (save_changed repo w))
  changed-Updates id w t (served c) there h = save_changed-Updates id w t c there h
  changed-Updates id w t (not_found kind k) there h = refl
  changed-Updates id w t (invalid_input field) there h = refl

  found-Updates :
      (id : ℕ) (now : T) (f : Fields D) (w : World S D T P) (o : Option (Task D T P))
      → repo.task_of id w.store ≡ o
      → Updates id w (
          and_do w
            (then_served (found (codes "task") id o) (changes repo now f w))
            (save_changed repo w))
  found-Updates id now f w none e = refl
  found-Updates id now f w (some t) e =
      changed-Updates id w t (changes repo now f w t) e (changes-ServesSame now f w t)

  -- An update of a task that raises changes nothing and publishes nothing; one that gives a task either did
  -- nothing, and gives the task that was there, or saved the task that it gives and published it once.
  pub update-Updates :
      (id : ℕ) (now : T) (f : Fields D) (w : World S D T P) → Updates id w (update repo id now f w)
  unfolding update get_task
  update-Updates id now f w = found-Updates id now f w (repo.task_of id w.store) refl
