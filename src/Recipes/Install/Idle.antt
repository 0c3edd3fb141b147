-- ===== src/Recipes/Install/Idle.antt =====
-- A second installation of a recipe does nothing.
use osconfig.Base.{◌≡◌, ◌∙◌, refl, false, ◌&&◌, some, List, ok, arith}
use osconfig.Base.Dict.{lookup}
use osconfig.Recipes.{compare}
use osconfig.Recipes.Database.{Installed, RecipeDb, State, new_recipe_db}
use osconfig.Recipes.Database.Reload.{Quiet}
use osconfig.Recipes.Install.{SoftwareRecipe, Env, install_recipe}
use osconfig.Recipes.Install.Once.{
  skipped, installed, updated, new_recipe_db-keeps, install_recipe-Left,
}
use osconfig.TaskState.{File, absent, holds, garbled}

module _ (env : Env) where
  new_recipe_db-again :
      (s t : State) (db : RecipeDb)
      → (new_recipe_db env.machine s).0 ≡ ok db
      → t.file ≡ s.file
      → Quiet env.machine t
      → (new_recipe_db env.machine t).0 ≡ ok db
  unfolding new_recipe_db
  new_recipe_db-again s t db e same (q, q1) = go s.file refl
    where
      go : (f : File (List Installed)) → s.file ≡ f → (new_recipe_db env.machine t).0 ≡ ok db
      go absent f = ground (arith, f)
      go (holds is) f = ground (arith, f)
      go (garbled text) f = ground (arith, f)

  -- A recipe that is there, and is not to be updated, is skipped.
  install_recipe_skips :
      (r : SoftwareRecipe) (t : State) (db : RecipeDb) (i : Installed)
      → r.updated ≡ false
      → (new_recipe_db env.machine t).0 ≡ ok db
      → lookup r.name db ≡ some i
      → ((install_recipe env r t).0 ≡ ok tt)
        × ((install_recipe env r t).1.file ≡ t.file)
        × ((install_recipe env r t).1.events ≡ t.events)
  unfolding install_recipe
  install_recipe_skips r t db i keep read there =
      let (events, file) = new_recipe_db-keeps env t in
      let skip : (compare i.recipe r.version).0 && r.updated ≡ false = ground arith in
      ground (arith, read, there, skip, events, file)

  -- If the installation of a recipe returns no error, and its desired state is not `UPDATED`, then a
  -- second one from a state with the same file, where the calls that read it do not fail, returns no
  -- error, leaves the file, and runs no step.
  pub install_recipe-Idle :
      (r : SoftwareRecipe) (s t : State) {u : Unit {0}}
      → r.updated ≡ false
      → (install_recipe env r s).0 ≡ ok u
      → t.file ≡ (install_recipe env r s).1.file
      → Quiet env.machine t
      → ((install_recipe env r t).0 ≡ ok tt)
        × ((install_recipe env r t).1.file ≡ t.file)
        × ((install_recipe env r t).1.events ≡ t.events)
  install_recipe-Idle r s t keep e same quiet = elim (install_recipe-Left env r s t e same quiet) [
    | skipped db i read there _ file _ ↦
        install_recipe_skips r t db i keep (new_recipe_db-again s t db read (same ∙ file) quiet)
          there
    | installed db _ _ entered ↦
        install_recipe_skips r t entered.entry.read _ keep entered.entry.same entered.entry.added
    | updated db i _ _ newer _ ↦ absurd (ground (arith, newer, keep))
  ]
