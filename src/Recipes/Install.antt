-- ===== src/Recipes/Install.antt =====
-- policies/recipes/installrecipe.go: the installation of a recipe. What a step does, and the download of
-- the artifacts, are parameters.
pub mod Once
pub mod Idle
mod Tests
use osconfig.Base.{
  ℕ, suc, ◌+◌, String, ◌<>◌, Bool, true, false, not, ◌&&◌, Option, none, some, List, [], ◌∷◌,
  Result, ok, err, panicked, if◌then◌else◌,
}
use osconfig.Base.Actions.{pure, raise, attempt}
use osconfig.Base.Dict.{lookup}
use osconfig.Recipes.{Recipe, compare}
use osconfig.Recipes.Database.{
  Installed, RecipeDb, Event, step_run, directory_removed, State, Machine, M, call, new_recipe_db,
  add_recipe,
}

-- A step by the field that is set; `unknown` has none of those that are read.
pub data SoftwareRecipeStep : Type 0 where
  file_copy archive_extraction msi_installation file_exec : SoftwareRecipeStep
  script_run dpkg_installation rpm_installation unknown : SoftwareRecipeStep

-- The name that the error of a step carries.
unfoldable pub step_type : SoftwareRecipeStep → String
step_type file_copy = "CopyFile"
step_type archive_extraction = "ExtractArchive"
step_type msi_installation = "InstallMsi"
step_type file_exec = "ExecFile"
step_type script_run = "RunScript"
step_type dpkg_installation = "InstallDpkg"
step_type rpm_installation = "InstallRpm"
step_type unknown = ""

-- `SoftwareRecipe`; is the desired state `UPDATED`?
pub record SoftwareRecipe : Type 0 where
  pub name : String
  pub version : List ℕ
  pub updated : Bool
  pub install_steps : List SoftwareRecipeStep
  pub update_steps : List SoftwareRecipeStep

-- The surroundings: the calls of the system, the artifacts, what a step does, and the digits of a number.
pub record Env : Type 0 where
  pub machine : Machine
  pub fetch_artifacts : ℕ → Option String
  pub perform : ℕ → SoftwareRecipeStep → Option String
  pub itoa : ℕ → String

module _ (env : Env) where
  -- One case of the switch over the steps. A step of no known kind is no error.
  unfoldable pub run_one : ℕ → SoftwareRecipeStep → M (Unit {0})
  run_one i unknown s = pure tt s
  run_one i step s =
      attempt (call (λ n. env.perform n step)) raise (λ _. pure tt)
        (record s { events = step_run i ∷ s.events })

  unfoldable pub step_error : ℕ → SoftwareRecipeStep → String → String
  unfolding step_type
  step_error i unknown e = "unknown step type for step " <> env.itoa i
  step_error i step e =
      "error running step " <> (env.itoa i <> (" (" <> (step_type step <> ("): " <> e))))

  -- A step failed: the recipe is entered as not successful, and an error of that entry is dropped.
  unfoldable pub fail_step : RecipeDb → SoftwareRecipe → String → M (Unit {0})
  unfolding add_recipe
  fail_step db r text =
      attempt (add_recipe env.machine db r.name r.version false) (λ _. raise text) (λ _. raise text)

  -- The loop over the steps. The text of a failed `MkdirAll` is without the directory's name.
  unfoldable pub run_steps : RecipeDb → SoftwareRecipe → ℕ → List SoftwareRecipeStep → M (Unit {0})
  unfolding run_one fail_step step_error
  run_steps db r i [] = pure tt
  run_steps db r i (step ∷ steps) =
      let rest = run_steps db r (suc i) steps in
      attempt (call env.machine.fault) (λ e. raise ("failed to create recipe step dir: " <> e))
        (λ _. attempt (run_one i step) (λ e. fail_step db r (step_error i step e)) (λ _. rest))

  -- The steps and the entry behind them.
  unfoldable pub install_steps : RecipeDb → SoftwareRecipe → List SoftwareRecipeStep → M (Unit {0})
  unfolding run_steps
  install_steps db r steps =
      attempt (call env.fetch_artifacts) (λ e. raise ("failed to obtain artifacts: " <> e))
        (λ _.
          attempt (run_steps db r 0 steps) raise
            (λ _. attempt (add_recipe env.machine db r.name r.version true) raise (λ _. pure tt)))

  -- The deferred removal of the directory, whose error is logged only.
  abbrev pub remove_run_dir : M (Unit {0}) → M (Unit {0})
  remove_run_dir m s =
      let (r, s') = m s in
      (r, record s' { events = directory_removed ∷ s'.events; tick = s'.tick + 1 })

  unfoldable pub run_install : RecipeDb → SoftwareRecipe → List SoftwareRecipeStep → M (Unit {0})
  unfolding install_steps
  run_install db r steps =
      attempt (call env.machine.fault) (λ e. raise ("failed to create base directory: " <> e))
        (λ _. remove_run_dir (install_steps db r steps))

  -- `InstallRecipe`: which steps there are to run, if any.
  unfoldable pub install_recipe : SoftwareRecipe → M (Unit {0})
  unfolding run_install
  install_recipe r = attempt (new_recipe_db env.machine) raise (λ db. elim (lookup r.name db) [
    | none ↦ run_install db r r.install_steps
    | some i ↦
        if (compare i.recipe r.version).0 && r.updated
        then run_install db r r.update_steps
        else pure tt
  ])
