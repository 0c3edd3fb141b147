-- ===== src/PatchTask/Reboots.antt =====
-- How often a patch task reboots its machine, over all the runs of the agent that work on it.
mod Ask
pub mod Steps
pub mod Lives
use osconfig.Base.{
  ℕ, zero, suc, ◌+◌, ◌≤◌, ◌<◌, ◌≡◌, refl, sym, ap, ◌∙◌, ◌≢◌, ◌⊎◌, inl, inr, String, Bool, true,
  false, not, ◌&&◌, Option, none, some, List, [], ◌∷◌, arith, Result, ok, err, panicked, ltb, leb,
  eqb, if◌then◌else◌, Bool-cases,
}
use mathlib.Core.Path.{subst}
use osconfig.TaskState.{File, absent, holds, garbled, Disk, save}
use osconfig.PatchTask.{
  PatchStep, pre_patch, patching, post_patch, ProgressState, Error, PatchTask, State, encoded,
  Event, reboot_called, rebooting, Env, Machine, Exit, done, fail, panic, halted, M, is_always,
  is_never, attempt, wrap, OutputState, server_cancel, failure, progress_sent, pure, raise,
}
use osconfig.PatchTask.Triples.{Triple, Keeps, attempt-Triple, attempt-Keeps}
use osconfig.PatchTask.Steps.{
  write_state, save_state, complete, set_step, report_completed_state, report_failed,
  report_canceled, handle_error_state, note_progress, report_continuing_state,
  system_reboot_required, reboot_system, count_reboot, reboot_wanted, do_reboot, reboot_allowed,
  reboot_if_needed, run_updates, start, pre_patch_step, patching_step, post_patch_step, run_step,
}

-- The calls of `rebootSystem` in a log.
abbrev pub reboots : List Event → ℕ
reboots [] = 0
reboots (reboot_called ∷ log) = suc (reboots log)
reboots (_ ∷ log) = reboots log

-- A task that accounts for `n` reboots.
pub record Counted (n : ℕ) (t : PatchTask) : Type 0 where
  pub counted : n ≤ t.pre_patch_reboot_count + t.post_patch_reboot_count
  pub pre_once : t.pre_patch_reboot_count ≤ 1
  pub capped : t.pre_patch_reboot_count + t.post_patch_reboot_count ≤ 5
  pub unstarted :
      t.patch_step ≡ pre_patch → t.pre_patch_reboot_count + t.post_patch_reboot_count ≡ 0
  pub silent :
      (is_never t.reboot_config ≡ true) ⊎ (t.dry_run ≡ true)
      → t.pre_patch_reboot_count + t.post_patch_reboot_count ≡ 0

abbrev pub Stored : ℕ → File State → Type 0
Stored n absent = Unit {0}
Stored n (garbled text) = Unit {0}
Stored n (holds none) = Unit {0}
Stored n (holds (some t)) = Counted n t

-- Both the task and the state file account for the reboots made, and `k` more.
pub record Safe (k : ℕ) (s : Machine) : Type 0 where
  pub task_ok : Counted (reboots s.log + k) s.task
  pub disk_ok : Stored (reboots s.log + k) s.disk.live

Stored-weaken : (n m : ℕ) (f : File State) → m ≤ n → Stored n f → Stored m f
Stored-weaken n m absent le h = tt
Stored-weaken n m (garbled text) le h = tt
Stored-weaken n m (holds none) le h = tt
Stored-weaken n m (holds (some t)) le h = ground arith

-- What the calls in between leave alone.
pub record Frame (s s' : Machine) : Type 0 where
  pub same_step : s'.task.patch_step ≡ s.task.patch_step
  pub same_pre : s'.task.pre_patch_reboot_count ≡ s.task.pre_patch_reboot_count
  pub same_post : s'.task.post_patch_reboot_count ≡ s.task.post_patch_reboot_count
  pub same_config : s'.task.reboot_config ≡ s.task.reboot_config
  pub same_dry_run : s'.task.dry_run ≡ s.task.dry_run

module _ (env : Env) where
  write_state-Safe :
      (k : ℕ) (st : State) (s : Machine)
      → Safe k s
      → Stored (reboots s.log + k) (holds st)
      → Safe k (write_state env st s).1
  unfolding write_state save
  write_state-Safe k st s h w = ground arith

  save_state-Safe : (k : ℕ) → Keeps (Safe k) (save_state env)
  unfolding save_state
  save_state-Safe k s h = write_state-Safe k (some (encoded s.task)) s h (ground arith)

  wrap_save-Safe : (k : ℕ) (text : String) → Keeps (Safe k) (wrap text (save_state env))
  wrap_save-Safe k text = attempt-Keeps (Safe k) _ _ _ (save_state-Safe k) (λ e s h. h) (λ a s h. h)

  save_state-Frame : (s : Machine) → Frame s (save_state env s).1
  unfolding save_state write_state
  save_state-Frame s = ground arith

  set_step-Safe : (step : PatchStep) → step ≢ pre_patch → Keeps (Safe 0) (set_step env step)
  unfolding set_step
  set_step-Safe step ne s h =
      wrap_save-Safe 0 "error saving state: "
        (record s { task = record (s.task) { patch_step = step } }) (ground arith)

  report_completed_state-Safe :
      (msg : String) (o : OutputState) → Keeps (Safe 0) (report_completed_state env msg o)
  unfolding report_completed_state
  report_completed_state-Safe msg o s h = ground arith

  handle_error_state-Safe :
      (msg : String) (e : Error) → Keeps (Safe 0) (handle_error_state env msg e)
  unfolding handle_error_state report_failed report_canceled
  handle_error_state-Safe msg server_cancel = report_completed_state-Safe _ _
  handle_error_state-Safe msg (failure e) = report_completed_state-Safe _ _

  note_progress-Safe : (k : ℕ) (p : ProgressState) → Keeps (Safe k) (note_progress env p)
  unfolding note_progress
  note_progress-Safe k p s h = save_state-Safe k _ (ground arith)

  report_continuing_state-Safe :
      (k : ℕ) (p : ProgressState) → Keeps (Safe k) (report_continuing_state env p)
  unfolding report_continuing_state
  report_continuing_state-Safe k p s h = ground (
    arith,
    note_progress-Safe k p (record s { log = progress_sent p ∷ s.log; tick = s.tick + 1 }),
  )
