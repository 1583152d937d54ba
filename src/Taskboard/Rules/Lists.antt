-- ===== src/Taskboard/Rules/Lists.antt =====
-- examples/taskboard/taskboard/services/lists.py: `ListService`.
use korvex.Prelude.{
  ℕ, ◌+◌, ◌%◌, ◌≤◌, ◌<◌, ◌≡◌, refl, List, [], ◌∷◌, Option, none, some, inl, inr, arith,
}
use korvex.Prelude.Tests.{◌==◌, if◌then◌else◌, Bool-cases}
use korvex.Prelude.Text.{Text, codes}
use korvex.Taskboard.Events.{publish}
use korvex.Taskboard.Rules.{
  TaskList, Notice, list_created, list_updated, list_deleted, Served, served, not_found,
  invalid_input, Repository, World, named, then_served, and_do, found, get_list,
}

-- color or COLORS[position % len(COLORS)]
abbrev pub or_color : ℕ → Option ℕ → ℕ
or_color position none = position % 8
or_color position (some c) = c

abbrev pub rename : Option Text → TaskList → Served TaskList
rename none l = served l
rename (some s) l = then_served (named (codes "name") s) (λ n. served (record l { name = n }))

abbrev pub recolor : Option ℕ → TaskList → TaskList
recolor none l = l
recolor (some c) l = record l { color = c }

module _ {S D T P : Type 0} (repo : Repository S D T P) where
  abbrev pub save_list :
      (TaskList → Notice D T P) → World S D T P → TaskList → Served TaskList × World S D T P
  save_list notice w l =
      (served l, record { store = repo.save_list l w.store; bus = publish (notice l) w.bus })

  unfoldable pub create : ℕ → Text → Option ℕ → World S D T P → Served TaskList × World S D T P
  unfolding named publish
  create uuid name color w =
      let position = repo.next_position w.store in
      and_do w (named (codes "name") name) (λ n. save_list list_created w (record {
        id = uuid;
        name = n;
        color = or_color position color;
        position = position;
        open_tasks = 0;
      }))

  unfoldable pub update :
      ℕ → Option Text → Option ℕ → World S D T P → Served TaskList × World S D T P
  unfolding named get_list publish
  update id name color w =
      and_do w (then_served (get_list repo id w) (rename name))
        (λ l. save_list list_updated w (recolor color l))

  abbrev pub delete_list : ℕ → World S D T P → TaskList → Served (Unit {0}) × World S D T P
  delete_list id w l = if repo.count w.store == 1 then (invalid_input (codes "id"), w) else (
    served tt,
    record { store = repo.delete_list id w.store; bus = publish (list_deleted id) w.bus },
  )

  unfoldable pub delete : ℕ → World S D T P → Served (Unit {0}) × World S D T P
  unfolding get_list publish
  delete id w = and_do w (get_list repo id w) (delete_list id w)

  -- What the database promises of its lists.
  module _
      (count-delete : (id : ℕ) (s : S) (l : TaskList)
        → repo.list_of id s ≡ some l
        → repo.count (repo.delete_list id s) + 1 ≡ repo.count s)
      (count-save : (l : TaskList) (s : S) → repo.count s ≤ repo.count (repo.save_list l s)) where
    abbrev HasList : {A : Type 0} → Served A × World S D T P → Type 0
    HasList r = 0 < repo.count (r.1.store)

    save_list-HasList :
        {A : Type 0} (notice : TaskList → Notice D T P) (w : World S D T P) (x : Served A)
        (f : A → TaskList)
        → 0 < repo.count w.store
        → HasList (and_do w x (λ l. save_list notice w (f l)))
    save_list-HasList notice w (served a) f h = omega (arith, h, count-save (f a) w.store)
    save_list-HasList notice w (not_found kind id) f h = h
    save_list-HasList notice w (invalid_input field) f h = h

    delete-HasList_at :
        (id : ℕ) (w : World S D T P) (o : Option TaskList)
        → repo.list_of id w.store ≡ o
        → 0 < repo.count w.store
        → HasList (and_do w (found (codes "list") id o) (delete_list id w))
    delete-HasList_at id w none e h = h
    delete-HasList_at id w (some l) e h = elim (Bool-cases (repo.count w.store == 1)) [
      | inl k ↦ rw k h
      | inr k ↦ rw k (ground (arith, count-delete id w.store l e, k, h))
    ]

    delete-HasList : (id : ℕ) (w : World S D T P) → 0 < repo.count w.store → HasList (delete id w)
    unfolding delete get_list
    delete-HasList id w h = delete-HasList_at id w (repo.list_of id w.store) refl h

-- A request to the service.
pub data Request : Type 0 where
  creating : (uuid : ℕ) (name : Text) (color : Option ℕ) → Request
  updating : (id : ℕ) (name : Option Text) (color : Option ℕ) → Request
  deleting : ℕ → Request

module _ {S D T P : Type 0} (repo : Repository S D T P) where
  unfoldable pub serve : Request → World S D T P → World S D T P
  unfolding create update delete
  serve (creating uuid name color) w = (create repo uuid name color w).1
  serve (updating id name color) w = (update repo id name color w).1
  serve (deleting id) w = (delete repo id w).1

  unfoldable pub serve_all : List Request → World S D T P → World S D T P
  unfolding serve
  serve_all [] w = w
  serve_all (r ∷ rs) w = serve_all rs (serve r w)

  module _
      (count-delete : (id : ℕ) (s : S) (l : TaskList)
        → repo.list_of id s ≡ some l
        → repo.count (repo.delete_list id s) + 1 ≡ repo.count s)
      (count-save : (l : TaskList) (s : S) → repo.count s ≤ repo.count (repo.save_list l s)) where
    serve-HasList :
        (r : Request) (w : World S D T P)
        → 0 < repo.count w.store
        → 0 < repo.count (serve r w).store
    unfolding serve create update
    serve-HasList (creating uuid name color) w h =
        let position = repo.next_position w.store in
        save_list-HasList repo count-delete count-save list_created w (named (codes "name") name)
          (λ n. record {
            id = uuid;
            name = n;
            color = or_color position color;
            position = position;
            open_tasks = 0;
          })
          h
    serve-HasList (updating id name color) w h =
        save_list-HasList repo count-delete count-save list_updated w
          (then_served (get_list repo id w) (rename name)) (recolor color) h
    serve-HasList (deleting id) w h = delete-HasList repo count-delete count-save id w h

    -- Where the deletion of a list that is there takes one from the count, and a save takes none, a board that
    -- has a list still has one after any requests to create, change and delete lists.
    pub serve_all-keeps :
        (rs : List Request) (w : World S D T P)
        → 0 < repo.count w.store
        → 0 < repo.count (serve_all rs w).store
    unfolding serve_all
    serve_all-keeps [] w h = h
    serve_all-keeps (r ∷ rs) w h = serve_all-keeps rs (serve r w) (serve-HasList r w h)
