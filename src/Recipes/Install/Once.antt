-- ===== src/Recipes/Install/Once.antt =====
-- What an installation without an error leaves: the steps that ran, and the database.
use osconfig.Base.{
  ℕ, suc, ◌+◌, ◌&&◌, Option-cases, inl, inr, Bool-cases, String, Bool, true, false, none, some,
  List, [], ◌∷◌, ◌≡◌, ap, ◌∙◌, refl, Result, ok, err, panicked, ◌≢◌, arith,
}
use osconfig.Base.Dict.{lookup}
use osconfig.Recipes.{compare}
use osconfig.Recipes.Database.{
  Installed, RecipeDb, Event, step_run, directory_removed, State, new_recipe_db, write_db,
  add_recipe,
}
use osconfig.Recipes.Database.Reload.{
  Quiet, Added, IsKeyed, new_recipe_db-IsKeyed, new_recipe_db-add_recipe,
}
use osconfig.TaskState.{File, absent, holds, garbled}
use osconfig.Recipes.Install.{
  SoftwareRecipeStep, unknown, file_copy, archive_extraction, msi_installation, file_exec,
  script_run, dpkg_installation, rpm_installation, SoftwareRecipe, Env, run_one, fail_step,
  run_steps, install_steps, run_install, install_recipe,
}

-- A step that succeeds leaves an event, but for a step of no known kind.
abbrev mark : ℕ → SoftwareRecipeStep → List Event → List Event
mark i unknown events = events
mark i step events = step_run i ∷ events

-- The events of steps that all succeed, the latest first.
abbrev pub ran : ℕ → List SoftwareRecipeStep → List Event → List Event
ran i [] events = events
ran i (step ∷ steps) events = ran (suc i) steps (mark i step events)

result_ok :
    {A : Type 0} (r : Result String A)
    → ((e : String) → r ≢ err e)
    → ((p : String) → r ≢ panicked p)
    → (a : A) × (r ≡ ok a)
result_ok (ok a) h k = (a, refl)
result_ok (err e) h k = absurd (h e refl)
result_ok (panicked p) h k = absurd (k p refl)

module _ (env : Env) where
  -- What an installation with these steps leaves, from a database: at a later state of the same file.
  pub record Entered (db : RecipeDb) (r : SoftwareRecipe) (steps : List SoftwareRecipeStep)
      (s s' t : State) : Type 0 where
    pub time : ℕ
    pub events : s'.events ≡ directory_removed ∷ ran 0 steps s.events
    pub entry : Added env.machine db r.name r.version true time t

  -- What an installation leaves: nothing new for a recipe that is there and is not to be updated, or the
  -- entry after the steps of an installation or of an update.
  pub data Left (r : SoftwareRecipe) (s s' t : State) : Type 0 where
    skipped :
        (db : RecipeDb) (i : Installed)
        → (new_recipe_db env.machine s).0 ≡ ok db
        → lookup r.name db ≡ some i
        → (compare i.recipe r.version).0 && r.updated ≡ false
        → s'.file ≡ s.file
        → s'.events ≡ s.events
        → Left r s s' t
    installed :
        (db : RecipeDb)
        → (new_recipe_db env.machine s).0 ≡ ok db
        → lookup r.name db ≡ none
        → Entered db r r.install_steps s s' t
        → Left r s s' t
    updated :
        (db : RecipeDb) (i : Installed)
        → (new_recipe_db env.machine s).0 ≡ ok db
        → lookup r.name db ≡ some i
        → (compare i.recipe r.version).0 && r.updated ≡ true
        → Entered db r r.update_steps s s' t
        → Left r s s' t

  run_one-mark :
      (i : ℕ) (step : SoftwareRecipeStep) (s : State) {u : Unit {0}}
      → (run_one env i step s).0 ≡ ok u
      → ((run_one env i step s).1.events ≡ mark i step s.events)
        × ((run_one env i step s).1.file ≡ s.file)
  unfolding run_one
  run_one-mark i unknown s e = (refl, refl)
  run_one-mark i file_copy s e = ground arith
  run_one-mark i archive_extraction s e = ground arith
  run_one-mark i msi_installation s e = ground arith
  run_one-mark i file_exec s e = ground arith
  run_one-mark i script_run s e = ground arith
  run_one-mark i dpkg_installation s e = ground arith
  run_one-mark i rpm_installation s e = ground arith

  run_steps-ran :
      (db : RecipeDb) (r : SoftwareRecipe) (i : ℕ) (steps : List SoftwareRecipeStep) (s : State)
      {u : Unit {0}}
      → (run_steps env db r i steps s).0 ≡ ok u
      → ((run_steps env db r i steps s).1.events ≡ ran i steps s.events)
        × ((run_steps env db r i steps s).1.file ≡ s.file)
  unfolding run_steps fail_step
  run_steps-ran db r i [] s e = (refl, refl)
  run_steps-ran db r i (step ∷ steps) s e =
      let s1 = record s { tick = s.tick + 1 } in
      let s2 = (run_one env i step s1).1 in
      ground (arith, run_one-mark i step s1, run_steps-ran db r (suc i) steps s2)

  add_recipe-events :
      (db : RecipeDb) (name : String) (version : List ℕ) (success : Bool) (s : State)
      → (add_recipe env.machine db name version success s).1.events ≡ s.events
  unfolding add_recipe write_db
  add_recipe-events db name version success s = ground arith

  pub new_recipe_db-keeps :
      (s : State)
      → ((new_recipe_db env.machine s).1.events ≡ s.events)
        × ((new_recipe_db env.machine s).1.file ≡ s.file)
  unfolding new_recipe_db
  new_recipe_db-keeps s = go s.file refl
    where
      go :
          (f : File (List Installed))
          → s.file ≡ f
          → ((new_recipe_db env.machine s).1.events ≡ s.events)
            × ((new_recipe_db env.machine s).1.file ≡ s.file)
      go absent f = ground (arith, f)
      go (holds is) f = ground (arith, f)
      go (garbled text) f = ground (arith, f)

  -- The state in which the recipe is entered.
  record Before (db : RecipeDb) (r : SoftwareRecipe) (steps : List SoftwareRecipeStep)
      (s s' : State) : Type 0 where
    last : State
    db_after : RecipeDb
    no_error : (add_recipe env.machine db r.name r.version true last).0 ≡ ok db_after
    file : s'.file ≡ (add_recipe env.machine db r.name r.version true last).1.file
    events : s'.events ≡ directory_removed ∷ ran 0 steps s.events

  run_install-Before :
      (db : RecipeDb) (r : SoftwareRecipe) (steps : List SoftwareRecipeStep) (s : State)
      {u : Unit {0}}
      → (run_install env db r steps s).0 ≡ ok u
      → Before db r steps s (run_install env db r steps s).1
  unfolding run_install install_steps
  run_install-Before db r steps s e =
      let s1 = record s { tick = s.tick + 1 } in
      let s2 = record s1 { tick = s1.tick + 1 } in
      let s3 = (run_steps env db r 0 steps s2).1 in
      let file : (run_install env db r steps s).1.file
          ≡ (add_recipe env.machine db r.name r.version true s3).1.file =
        ground arith in
      let ok_steps : (run_steps env db r 0 steps s2).0 ≡ ok tt = ground arith in
      let steps_ran = (run_steps-ran db r 0 steps s2 ok_steps).0 in
      let added : (d : RecipeDb) × ((add_recipe env.machine db r.name r.version true s3).0 ≡ ok d) =
        result_ok (add_recipe env.machine db r.name r.version true s3).0 (λ m c. ground (arith, c))
          (λ m c. ground (arith, c)) in
      record {
        last = s3;
        db_after = added.0;
        no_error = added.1;
        file = file;
        events = ground (arith, steps_ran, add_recipe-events db r.name r.version true s3);
      }

  run_install-Entered :
      (db : RecipeDb) (r : SoftwareRecipe) (steps : List SoftwareRecipeStep) (s s1 s' t : State)
      → IsKeyed db
      → s1.events ≡ s.events
      → (run_install env db r steps s1).0 ≡ ok tt
      → s' ≡ (run_install env db r steps s1).1
      → t.file ≡ s'.file
      → Quiet env.machine t
      → Entered db r steps s s' t
  run_install-Entered db r steps s s1 s' t keyed start e eq same quiet =
      let b = run_install-Before db r steps s1 e in
      record {
        time = env.machine.clock b.last.tick;
        events =
            ap (λ v. v.events) eq
            ∙ b.events
            ∙ ap (λ events. directory_removed ∷ ran 0 steps events) start;
        entry =
            new_recipe_db-add_recipe env.machine db r.name r.version true b.last t keyed b.no_error
              (same ∙ ap (λ v. v.file) eq ∙ b.file) quiet;
      }

  -- If an installation returns no error, then it changed neither the file nor the events, as the recipe
  -- was in the database already and no update was wanted with a newer version; or every step of the
  -- installation, or of the update, ran in order, the directory was removed last, and the database that
  -- is read from the file later, if no call fails, has the recipe as successful with the version of the
  -- request, and every other entry as before.
  pub install_recipe-Left :
      (r : SoftwareRecipe) (s t : State) {u : Unit {0}}
      → (install_recipe env r s).0 ≡ ok u
      → t.file ≡ (install_recipe env r s).1.file
      → Quiet env.machine t
      → Left r s (install_recipe env r s).1 t
  unfolding install_recipe
  install_recipe-Left r s t e same quiet =
      let (db, read) =
        result_ok (new_recipe_db env.machine s).0 (λ m c. ground (arith, c))
          (λ m c. ground (arith, c)) in
      let s1 = (new_recipe_db env.machine s).1 in
      let (events, file) = new_recipe_db-keeps s in
      let keyed = new_recipe_db-IsKeyed env.machine s read in
      elim (Option-cases (lookup r.name db)) [
        | inl none_yet ↦ installed db read none_yet (
            run_install-Entered db r r.install_steps s s1 _ t keyed events
              (ground (arith, read, none_yet)) (ground (arith, read, none_yet)) same quiet)
        | inr (i, there) ↦ elim (Bool-cases ((compare i.recipe r.version).0 && r.updated)) [
          | inl newer ↦ updated db i read there newer (
              run_install-Entered db r r.update_steps s s1 _ t keyed events
                (ground (arith, read, there, newer)) (ground (arith, read, there, newer)) same
                quiet)
          | inr older ↦
              skipped db i read there older (ground (arith, read, there, older, file))
                (ground (arith, read, there, older, events))
        ]
      ]
