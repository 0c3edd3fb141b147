-- ===== src/Recipes/Install/Tests.antt =====
-- The recipe "tree" in version 1.2, with three steps of which one is of no known kind.
use osconfig.Base.{
  ℕ, String, Bool, true, false, Option, none, some, List, [], ◌∷◌, ◌≡◌, refl, ok, ltb,
}
use osconfig.Base.Dict.{lookup, insert}
use osconfig.Recipes.{
  convert_version, split, convert_from, parse_element, parse_magnitude, parse_digits,
}
use osconfig.Recipes.Database.{
  Installed, RecipeDb, Machine, State, step_run, directory_removed, add_all, new_recipe_db,
  write_db, add_recipe,
}
use osconfig.Recipes.Database.Reload.{Added, new_recipe_db-add_recipe}
use osconfig.Recipes.Install.{
  file_copy, script_run, unknown, SoftwareRecipe, Env, run_one, run_steps, install_steps,
  run_install, install_recipe,
}
use osconfig.Recipes.Install.Once.{Left, install_recipe-Left}
use osconfig.Recipes.Install.Idle.{install_recipe-Idle}
use osconfig.TaskState.{holds}

abbrev machine : Machine
machine = record { fault = λ n. none; clock = λ n. n }

abbrev env : Env
env = record {
  machine = machine;
  fetch_artifacts = λ n. none;
  perform = λ n step. none;
  itoa = λ n. "n";
}

-- The bytes of "1.2".
abbrev version : List ℕ
version = 49 ∷ 46 ∷ 50 ∷ []

abbrev tree : SoftwareRecipe
tree = record {
  name = "tree";
  version = version;
  updated = false;
  install_steps = file_copy ∷ unknown ∷ script_run ∷ [];
  update_steps = [];
}

abbrev nano : Installed
nano = record {
  recipe = record { name = "nano"; version = 7 ∷ [] };
  install_time = 5;
  success = true;
}

-- There is another recipe already.
abbrev fresh : State
fresh = record { file = holds (nano ∷ []); events = []; tick = 0 }

installs : (install_recipe env tree fresh).0 ≡ ok tt
unfolding install_recipe run_install install_steps run_steps run_one new_recipe_db add_all
    add_recipe write_db lookup insert convert_version split convert_from parse_element
    parse_magnitude parse_digits osconfig.Base.String-discrete
installs = refl

steps : (install_recipe env tree fresh).1.events ≡ directory_removed ∷ step_run 2 ∷ step_run 0 ∷ []
unfolding install_recipe run_install install_steps run_steps run_one new_recipe_db add_all
    add_recipe write_db lookup insert convert_version split convert_from parse_element
    parse_magnitude parse_digits osconfig.Base.String-discrete
steps = refl

install_recipe-Left_example :
    Left env tree fresh (install_recipe env tree fresh).1 (install_recipe env tree fresh).1
install_recipe-Left_example =
    install_recipe-Left env tree fresh (install_recipe env tree fresh).1 installs refl (refl, refl)

-- The same, with a newer clock and nothing in the log.
abbrev later : State
later = record { file = (install_recipe env tree fresh).1.file; events = []; tick = 90 }

install_recipe-Idle_example :
    ((install_recipe env tree later).0 ≡ ok tt)
    × ((install_recipe env tree later).1.file ≡ later.file)
    × ((install_recipe env tree later).1.events ≡ [])
install_recipe-Idle_example =
    install_recipe-Idle env tree fresh later refl installs refl (refl, refl)

abbrev db : RecipeDb
db = ("nano", nano) ∷ []

abbrev db' : RecipeDb
db' =
    ("nano", nano)
    ∷ (
      "tree",
      record {
        recipe = record { name = "tree"; version = 1 ∷ 2 ∷ [] };
        install_time = 0;
        success = true;
      },
    )
    ∷ []

abbrev left : State
left = (add_recipe machine db "tree" version true fresh).1

adds : (add_recipe machine db "tree" version true fresh).0 ≡ ok db'
unfolding add_recipe write_db insert convert_version split convert_from parse_element
    parse_magnitude parse_digits osconfig.Base.String-discrete
adds = refl

new_recipe_db-add_recipe_example : Added machine db "tree" version true 0 left
unfolding lookup
new_recipe_db-add_recipe_example =
    new_recipe_db-add_recipe machine db "tree" version true fresh left (refl, refl, tt) adds refl
      (refl, refl)
