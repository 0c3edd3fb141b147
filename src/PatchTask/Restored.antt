-- ===== src/PatchTask/Restored.antt =====
-- What a restarted agent loads of the patch task that was saved.
use osconfig.Base.{String, Option, none, some, ◌≡◌, refl, arith, ok, Option-cases, inl, inr}
use osconfig.TaskState.{remove_old, save, load_state}
use osconfig.TaskState.Laws.{load_state-save}
use osconfig.PatchTask.{PatchTask, no_progress, State, encoded, Env, Machine, done}
use osconfig.PatchTask.Steps.{write_state, save_state}

-- A task with the exported fields of another. The times of the last reports are lost, so that each
-- progress state is sent anew.
pub record Restored (saved t : PatchTask) : Type 0 where
  pub task_id : t.task_id ≡ saved.task_id
  pub reboot_config : t.reboot_config ≡ saved.reboot_config
  pub dry_run : t.dry_run ≡ saved.dry_run
  pub started_at : t.started_at ≡ saved.started_at
  pub patch_step : t.patch_step ≡ saved.patch_step
  pub pre_patch_reboot_count : t.pre_patch_reboot_count ≡ saved.pre_patch_reboot_count
  pub post_patch_reboot_count : t.post_patch_reboot_count ≡ saved.post_patch_reboot_count
  pub last_progress_state : t.last_progress_state ≡ no_progress

module _ (env : Env) where
  write_state_saved :
      (st : State) (s : Machine)
      → (write_state env st s).0 ≡ done tt
      → (save (env.faults s.tick) none (some st) s.disk).0 ≡ none
  unfolding write_state
  write_state_saved st s e =
      elim (Option-cases (save (env.faults s.tick) none (some st) s.disk).0) [
        | inl well ↦ well
        | inr (m, failed) ↦ absurd (ground (arith, failed))
      ]

  -- If `saveState` returns no error, then a load from the disk that it left, whose read of the file does
  -- not fail, gives the task back with the values of all its exported fields, and with no time of a last
  -- report; and it removes the file at the old place, unless the removal fails, which is no error.
  pub load_state-save_state :
      (s : Machine) (read_old remove : Option String)
      → (save_state env s).0 ≡ done tt
      → let disk = (save_state env s).1.disk in
        (t : PatchTask) × Restored s.task t
        × (load_state none read_old remove disk ≡ (ok (some (some t)), remove_old remove disk))
  unfolding save_state write_state
  load_state-save_state s read_old remove e =
      let t = encoded s.task in
      (
        t,
        record {
          task_id = refl;
          reboot_config = refl;
          dry_run = refl;
          started_at = refl;
          patch_step = refl;
          pre_patch_reboot_count = refl;
          post_patch_reboot_count = refl;
          last_progress_state = refl;
        },
        load_state-save (env.faults s.tick) none (some t) s.disk read_old remove
            (write_state_saved (some t) s e),
      )
