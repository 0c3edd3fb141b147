-- ===== src/Recipes/Database.antt =====
-- policies/recipes/recipedb.go: the recipes that are installed, and their file.
pub mod Reload
use osconfig.Base.{
  ℕ, ◌+◌, String, Bool, Option, none, some, List, [], ◌∷◌, Result, ok, err, panicked, of_error,
}
use osconfig.Base.Actions.{Action, pure, raise, attempt}
use osconfig.Base.Dict.{Dict, lookup, insert}
use osconfig.Recipes.{Recipe, convert_version}
use osconfig.TaskState.{File, absent, holds, garbled}

-- The fields of `Recipe` beside the name and the version.
pub record Installed : Type 0 where
  pub recipe : Recipe
  pub install_time : ℕ
  pub success : Bool

abbrev pub RecipeDb : Type 0
RecipeDb = Dict Installed

-- What happens while recipes are installed, the latest first.
pub data Event : Type 0 where
  step_run : ℕ → Event
  directory_removed : Event

-- The file of the database, what happened, and the number of the next call.
pub record State : Type 0 where
  pub file : File (List Installed)
  pub events : List Event
  pub tick : ℕ

-- The calls of the system: the error of a call, and the clock.
pub record Machine : Type 0 where
  pub fault : ℕ → Option String
  pub clock : ℕ → ℕ

abbrev pub M : Type 0 → Type 0
M A = Action State String A

abbrev pub call : (ℕ → Option String) → M (Unit {0})
call fault s = (of_error (fault s.tick), record s { tick = s.tick + 1 })

-- The loop of `newRecipeDB`.
unfoldable pub add_all : RecipeDb → List Installed → RecipeDb
add_all db [] = db
add_all db (i ∷ is) = add_all (insert i.recipe.name i db) is

-- The values of a map, in the order that it keeps here; in Go it is any order.
abbrev pub values : RecipeDb → List Installed
values [] = []
values ((name, i) ∷ db) = i ∷ values db

module _ (machine : Machine) where
  -- `newRecipeDB`: no file is an empty database.
  unfoldable pub new_recipe_db : M RecipeDb
  new_recipe_db = attempt (call machine.fault) raise (λ _ s. elim s.file [
    | absent ↦ pure [] s
    | holds is ↦ attempt (call machine.fault) raise (λ _. pure (add_all [] is)) s
    | garbled text ↦ attempt (call machine.fault) raise (λ _. raise text) s
  ])

  -- The file of `addRecipe`: the directory, a temporary file, its text, and the rename.
  unfoldable pub write_db : RecipeDb → M (Unit {0})
  write_db db = attempt (call machine.fault) raise (λ _. attempt (call machine.fault) raise (λ _.
      attempt (call machine.fault) raise (λ _. attempt (call machine.fault) raise (λ _.
        attempt (call machine.fault) raise
          (λ _ s. (ok tt, record s { file = holds (values db) }))))))

  -- `addRecipe`: an error of the version, or of the file.
  unfoldable pub add_recipe : RecipeDb → String → List ℕ → Bool → M RecipeDb
  unfolding write_db
  add_recipe db name version success s = elim (convert_version version) [
    | err e ↦ raise e s
    | panicked p ↦ (panicked p, s)
    | ok numbers ↦
        let db' =
          insert name
            (record {
              recipe = record { name = name; version = numbers };
              install_time = machine.clock s.tick;
              success = success;
            })
            db in
        attempt (write_db db') raise (λ _. pure db') (record s { tick = s.tick + 1 })
  ]
