-- ===== src/PatchTask/Tests.antt =====
-- Runs of the patch task, and the theorems at concrete data.
use osconfig.Base.{◌≤◌, ◌≡◌, refl, ◌⊎◌, ◌<>◌, true, false, Option, none, some, [], ◌∷◌, ok}
use osconfig.TaskState.{absent, holds, Disk, SaveFaults, save, remove_old, load_state}
use osconfig.TaskState.Laws.{save_atomic}
use osconfig.PatchTask.{
  patching, always, started, applying_patches, rebooting, PatchTask, State, continue, progress_sent,
  updates_run, reboot_called, Env, Machine, Exit, done, halted, no_progress, attempt, is_never,
}
use osconfig.PatchTask.Steps.{
  write_state, save_state, complete, set_step, report_completed_state, note_progress,
  report_continuing_state, system_reboot_required, reboot_system, count_reboot, reboot_wanted,
  do_reboot, reboot_allowed, reboot_if_needed, run_updates, start, pre_patch_step, patching_step,
  post_patch_step, run_step, run_loop, deferred, run, run_apply_patches,
}
use osconfig.PatchTask.Restored.{Restored, load_state-save_state}
use osconfig.PatchTask.Reboots.{reboots}
use osconfig.PatchTask.Reboots.Lives.{new_task, Life, received, reboots_bounded}
use osconfig.PatchTask.Progress.Whole.{RunEnd, run-RunEnd}

abbrev no_faults : SaveFaults
no_faults = record {
  mkdir = none;
  marshal = none;
  temp_file = none;
  write = none;
  close = none;
  rename = none;
}

-- Every call goes well, and the system asks for no reboot.
abbrev calm : Env
calm = record {
  now = λ n. n;
  faults = λ n. no_faults;
  report_progress = λ n. ok continue;
  report_complete = λ n. none;
  reboot_required = λ n. ok false;
  run_updates = λ n. ok tt;
  reboot_system = λ n. none;
  quote = λ s. ("'" <> s) <> "'";
}

abbrev task : PatchTask
task = new_task "t1" always false

abbrev machine : Machine
machine = record {
  task = task;
  disk = record { live = absent; old = absent; temps = [] };
  log = [];
  tick = 0;
}

-- The first run patches and reboots, since the config is ALWAYS.
first : Option (Exit (Unit {0}) × Machine)
unfolding run_apply_patches run run_loop deferred run_step pre_patch_step patching_step
    post_patch_step set_step save_state write_state complete report_completed_state note_progress
    report_continuing_state system_reboot_required reboot_system count_reboot reboot_wanted
    do_reboot reboot_allowed reboot_if_needed run_updates start attempt save load_state
first = run_apply_patches calm 3 machine

abbrev rebooted_task : PatchTask
rebooted_task = record {
  task_id = "t1";
  reboot_config = always;
  dry_run = false;
  started_at = 1;
  patch_step = patching;
  pre_patch_reboot_count = 0;
  post_patch_reboot_count = 1;
  last_progress_state = no_progress;
}

abbrev after_first : Machine
after_first = record {
  task = record rebooted_task {
    last_progress_state = record {
      at_started = some 4;
      at_applying = some 7;
      at_rebooting = some 11;
    };
  };
  disk = record { live = holds (some rebooted_task); old = absent; temps = [] };
  log =
      reboot_called
      ∷ progress_sent rebooting
      ∷ updates_run
      ∷ progress_sent applying_patches
      ∷ progress_sent started
      ∷ [];
  tick = 13;
}

first_run : first ≡ some (halted, after_first)
unfolding first
first_run = refl

life : Life after_first
unfolding first
life = received calm machine "t1" always false refl refl tt refl

reboots_bounded_example :
    (reboots after_first.log ≤ 5)
    × (after_first.task.pre_patch_reboot_count ≤ 1)
    × ((is_never always ≡ true) ⊎ (false ≡ true) → reboots after_first.log ≡ 0)
reboots_bounded_example = reboots_bounded life

run-RunEnd_example :
    (r : Exit (Unit {0})) × (s' : Machine) × (run calm 3 machine ≡ some (r, s')) × RunEnd r s'
run-RunEnd_example = run-RunEnd calm machine refl

saved : (save_state calm after_first).0 ≡ done tt
unfolding save_state write_state save
saved = refl

abbrev full : SaveFaults
full = record no_faults { write = some "no space left on device" }

abbrev disk : Disk State
disk = record { live = holds (some task); old = holds none; temps = [] }

save_atomic_example :
    ((save full none (some none) disk).1.live ≡ holds (some task))
    × ((save full none (some none) disk).1.old ≡ holds none)
unfolding save
save_atomic_example = save_atomic full none (some none) disk

-- The task of the first run was saved with a report time, which is lost.
load_state-save_state_example :
    let disk = (save_state calm after_first).1.disk in
    (t : PatchTask) × Restored after_first.task t
    × (load_state none none none disk ≡ (ok (some (some t)), remove_old none disk))
load_state-save_state_example = load_state-save_state calm after_first none none saved
