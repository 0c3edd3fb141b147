-- ===== src/PatchTask/Progress/Calls.antt =====
-- The calls between two steps neither move the task to another step nor report its completion.
use osconfig.Base.{ℕ, ◌+◌, Bool, true, false, ◌∷◌, arith}
use osconfig.PatchTask.{
  PatchStep, ProgressState, rebooting, progress_sent, Env, attempt, raise, pure,
}
use osconfig.PatchTask.Triples.{Triple, Keeps, attempt-Keeps}
use osconfig.PatchTask.Steps.{
  write_state, save_state, set_step, note_progress, report_continuing_state, system_reboot_required,
  reboot_system, count_reboot, reboot_wanted, do_reboot, reboot_allowed, reboot_if_needed,
  run_updates,
}
use osconfig.PatchTask.Progress.{At}

module _ (env : Env) (x : PatchStep) (n : ℕ) where
  save_state-At : Keeps (At x n) (save_state env)
  unfolding save_state write_state
  save_state-At s a = ground arith

  note_progress-At : (p : ProgressState) → Keeps (At x n) (note_progress env p)
  unfolding note_progress
  note_progress-At p s a = save_state-At _ (ground arith)

  pub report_continuing_state-At :
      (p : ProgressState) → Keeps (At x n) (report_continuing_state env p)
  unfolding report_continuing_state
  report_continuing_state-At p s a =
      ground
        (arith, note_progress-At p (record s { log = progress_sent p ∷ s.log; tick = s.tick + 1 }))

  pub system_reboot_required-At : Keeps (At x n) (system_reboot_required env)
  unfolding system_reboot_required
  system_reboot_required-At s a = ground arith

  count_reboot-At : (b : Bool) → Keeps (At x n) (count_reboot env b)
  unfolding count_reboot
  count_reboot-At true s a = ground arith
  count_reboot-At false s a = ground arith

  reboot_system-At : Keeps (At x n) (reboot_system env)
  unfolding reboot_system
  reboot_system-At s a = ground arith

  reboot_wanted-At : (b : Bool) → Keeps (At x n) (reboot_wanted env b)
  unfolding reboot_wanted system_reboot_required attempt
  reboot_wanted-At b s a = ground arith

  do_reboot-At : (b : Bool) → Keeps (At x n) (do_reboot env b)
  unfolding do_reboot
  do_reboot-At b =
      attempt-Keeps (At x n) _ _ _ (count_reboot-At b) (λ e s a. a)
        (λ _.
          attempt-Keeps (At x n) _ _ _
            (attempt-Keeps (At x n) _ _ _ save_state-At (λ e s a. a) (λ _ s a. a)) (λ e s a. a)
            (λ _.
              attempt-Keeps (At x n) _ _ _
                (attempt-Keeps (At x n) _ _ _ (report_continuing_state-At rebooting) (λ e s a. a)
                  (λ _ s a. a))
                (λ e s a. a) (λ _. reboot_system-At)))

  reboot_allowed-At : (b reboot : Bool) → Keeps (At x n) (reboot_allowed env b reboot)
  unfolding reboot_allowed
  reboot_allowed-At b reboot s a = ground (arith, do_reboot-At b s a)

  pub reboot_if_needed-At : (b : Bool) → Keeps (At x n) (reboot_if_needed env b)
  unfolding reboot_if_needed
  reboot_if_needed-At b =
      attempt-Keeps (At x n) _ _ _ (reboot_wanted-At b) (λ e s a. a) (reboot_allowed-At b)

  pub run_updates-At : Keeps (At x n) (run_updates env)
  unfolding run_updates
  run_updates-At s a = ground arith

pub set_step-At :
    (env : Env) (x y : PatchStep) (n : ℕ) → Triple (At x n) (set_step env y) (λ _ s. At y n s)
unfolding set_step
set_step-At env x y n s a =
    attempt-Keeps (At y n) (save_state env) (λ e. raise _) pure (save_state-At env y n) (λ e t b. b)
      (λ _ t b. b) (record s { task = record (s.task) { patch_step = y } }) (ground arith)
