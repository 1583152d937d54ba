-- ===== src/Tests/Binding.antt =====
-- A handler that depends on two functions, one of which depends on the other: the tests of the binding of
-- arguments. A Python object is a text here, and the state of the program counts the calls.
use korvex.Prelude.{ℕ, ◌+◌, ◌≤◌, ◌≡◌, refl, true, false, [], ◌∷◌, none, some, inl, inr, arith}
use korvex.Prelude.Decimal.{show}
use korvex.Prelude.Dict.{Dict, find, put}
use korvex.Prelude.Lists.{All}
use korvex.Prelude.Tests.{◌==◌, if◌then◌else◌, Bool-cases}
use korvex.Prelude.Text.{Text, codes, eq_text}
use korvex.Errors.{FieldError}
use korvex.Request.MultiDict.{UploadedFile}
use korvex.Binding.{int_type, Source, Param, Objects, scalar}
use korvex.Binding.Reading.{Dep, Plan, Input, Models, decoded, got}
use korvex.Binding.Resolve.{value, Program, Run, new_run, bind, resolve, ok}
use korvex.Binding.Resolve.Bound.{AllBelow, IsDone, bind-IsDone}
use korvex.Binding.Annotations.{Signature, Default, depends, Planned, planned, refused, no_fuel}
use korvex.Binding.Plans.{Needs, plan_for}
use korvex.Binding.Plans.Registered.{plan_for-IsDone}
use korvex.Binding.Resolve.{exhausted, value_of}
use korvex.Binding.Resolve.Endless.{bind-exhausted}
use korvex.Binding.Resolve.Once.{times, bind-once}
use korvex.Binding.Resolve.Again.{resolve-again}
use korvex.Binding.Resolve.Started.{generators, bind-registers}
use korvex.Binding.Resolve.Given.{bind-gives}
use korvex.Binding.Resolve.Settled.{read_names}
use korvex.Prelude.Dict.{contains_key}
use korvex.Prelude.{ap}

abbrev pub text_objects : Objects Text
text_objects = record {
  of_text = λ s. s;
  of_bool = λ b. if b then codes "true" else codes "false";
  of_number = show;
  of_uuid = λ s. s;
  of_file = λ (f : UploadedFile). f.filename;
  of_list = λ vs. codes "list";
  parse = λ tp s. some s;
}

abbrev no_models : Models Text
no_models = record {
  fields = λ m. [];
  decode = λ m raw. decoded raw;
  decode_form = λ m d. decoded [];
}

abbrev empty_plan : Plan Text
empty_plan = record {
  dependencies = [];
  path = [];
  query = [];
  headers = [];
  cookies = [];
  form = [];
  form_models = [];
  body = none;
  request = [];
  generator = true;
}

abbrev limit : Param Text
limit = record {
  name = codes "limit";
  source = Source.query;
  required = true;
  default = [];
  key = codes "limit";
  inner = scalar int_type;
  many = false;
  model = 0;
}

abbrev db : Dep
db = record { name = some (codes "db"); func = 0; cache = true }

-- The second function depends on the first.
abbrev user_plan : Plan Text
user_plan = record empty_plan { dependencies = db ∷ []; generator = false }

abbrev handler_plan : Plan Text
handler_plan = record empty_plan {
  dependencies = db ∷ record { name = some (codes "user"); func = 1; cache = true } ∷ [];
  query = limit ∷ [];
}

abbrev board : Program Text ℕ
board = record {
  plan_of = λ f. if f == 1 then user_plan else empty_plan;
  override = λ f. f;
  invoke = λ f kwargs n. (value (show n), n + 1);
  new_state = 0;
}

abbrev board_rank : ℕ → ℕ
board_rank f = if f == 1 then 1 else 0

board-AllBelow :
    (f : ℕ) → AllBelow board_rank (λ f. f) (board_rank f) (board.plan_of f).dependencies
board-AllBelow f = elim (Bool-cases (f == 1)) [ inl e ↦ rw e (omega arith, tt) | inr e ↦ rw e tt ]

abbrev limit_input : Input Text
limit_input = record {
  path_values = [];
  query = record { lists = (codes "limit", codes "10" ∷ []) ∷ [] };
  headers = record { items = [] };
  cookies = [];
  body = got [];
  form = got (record { lists = [] });
  itself = codes "request";
}

bind-IsDone_example :
    IsDone ((bind board text_objects no_models limit_input 3 handler_plan (new_run board)).0)
bind-IsDone_example =
    bind-IsDone board text_objects no_models limit_input board_rank board-AllBelow 2 handler_plan
      (omega arith, (omega arith, tt)) (new_run board)

bind-once_example :
    times 0 ((bind board text_objects no_models limit_input 3 handler_plan (new_run board)).1.calls)
    ≤ 1
bind-once_example =
    bind-once board_rank board text_objects no_models limit_input board-AllBelow 3 2 handler_plan 0
      (omega arith, (omega arith, tt))

abbrev db_run : Run Text ℕ
db_run = record {
  values = (0, codes "0") ∷ [];
  teardowns = 0 ∷ [];
  calls = (0, true) ∷ [];
  user = 1;
}

resolve-again_example :
    let c = (bind board text_objects no_models limit_input 3 handler_plan db_run).1 in
    resolve board
      (bind board text_objects no_models limit_input 2)
      (record { name = none; func = 0; cache = true })
      c
    ≡ (ok (codes "0"), c)
unfolding resolve show
resolve-again_example =
    resolve-again board text_objects no_models limit_input board_rank board-AllBelow
      (bind board text_objects no_models limit_input 2) 0 (some (codes "db")) none (new_run board)
      db_run (codes "0") 3 2 handler_plan (omega arith, (omega arith, tt)) refl

abbrev handler_kwargs : Dict Text
handler_kwargs =
    (codes "db", codes "0") ∷ (codes "user", codes "1") ∷ (codes "limit", codes "10") ∷ []

bind-gives_example : All (λ name. contains_key name handler_kwargs ≡ true) (read_names handler_plan)
unfolding bind find eq_text put show
bind-gives_example =
    bind-gives text_objects no_models limit_input (λ m raw. tt) (λ m d. tt) board 3 handler_plan
      (new_run board) handler_kwargs refl

bind-registers_example :
    let run = (bind board text_objects no_models limit_input 3 handler_plan (new_run board)).1 in
    run.teardowns ≡ generators board run.calls
bind-registers_example = bind-registers board text_objects no_models limit_input 3 handler_plan

abbrev no_limit : FieldError
no_limit = record {
  loc = codes "query" ∷ codes "limit" ∷ [];
  msg = codes "Field required";
  kind = codes "missing";
}

-- A handler whose parameter is a dependency on the second function, which takes none.
abbrev signatures : ℕ → Signature Text
signatures f = record {
  parameters =
      if f == 0
      then record {
        name = codes "x";
        catch_all = false;
        tp = none;
        marker = none;
        default = Default.marker_default (depends 1 true);
      }
        ∷ []
      else [];
  readable = true;
  generator = false;
}

abbrev plan_or : Planned (Plan Text × Needs) → Plan Text
plan_or (planned x) = x.0
plan_or (refused r) = empty_plan
plan_or no_fuel = empty_plan

abbrev site : Program Text ℕ
site = record board { plan_of = λ g. plan_or (plan_for signatures [] false [] 3 [] false [] g) }

abbrev site_plan : Plan Text
site_plan = record empty_plan {
  dependencies = record { name = some (codes "x"); func = 1; cache = true } ∷ [];
  generator = false;
}

plan_for-IsDone_example :
    IsDone ((bind site text_objects no_models limit_input 2 site_plan (new_run site)).0)
unfolding plan_for
plan_for-IsDone_example =
    plan_for-IsDone signatures [] false [] site text_objects no_models limit_input 3 (λ g. refl)
      (λ g x e. ap plan_or e) 2 [] true [] 0 site_plan (record { bodies = []; reads_form = false })
      (omega arith) refl (new_run site)

-- The second function replaces the first, on which it depends.
abbrev wrapped : Program Text ℕ
wrapped = record board { override = λ f. if f == 0 then 1 else f }

bind-exhausted_example :
    (bind wrapped text_objects no_models limit_input 9 user_plan (new_run wrapped)).0 ≡ exhausted
unfolding value_of
bind-exhausted_example =
    bind-exhausted wrapped text_objects no_models limit_input 9 user_plan db [] (new_run wrapped)
      refl refl refl
