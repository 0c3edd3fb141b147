-- ===== src/PatchTask/Reboots/Steps.antt =====
-- The steps of a run keep the account of the reboots.
use osconfig.Base.{◌≡◌, String, true, false, arith}
use osconfig.PatchTask.{
  PatchStep, pre_patch, patching, post_patch, Error, failed, started, applying_patches, other_step,
  Env, Machine, M, wrap, OutputState, pure, raise,
}
use osconfig.PatchTask.Triples.{Triple, Keeps, attempt-Triple, attempt-Keeps}
use osconfig.PatchTask.Steps.{
  set_step, report_completed_state, report_failed, handle_error_state, system_reboot_required,
  run_updates, start, pre_patch_step, patching_step, post_patch_step, run_step, finished, ending,
}
use osconfig.PatchTask.Reboots.{
  Safe, report_completed_state-Safe, handle_error_state-Safe, set_step-Safe,
}
use osconfig.PatchTask.Reboots.Ask.{
  Ready, report_continuing_state-Ready, wrap_save-Ready, reboot_if_needed-Safe,
}

module _ (env : Env) where
  -- Before the first step.
  record Unstarted (s : Machine) : Type 0 where
    safe : Safe 0 s
    at_start : s.task.patch_step ≡ pre_patch

  start-Unstarted : Keeps Unstarted (start env)
  unfolding start
  start-Unstarted s u = ground arith

  set_step-Ready : Triple Unstarted (set_step env patching) (λ _ s. Ready env true s)
  unfolding set_step
  set_step-Ready s u =
      wrap_save-Ready env true "error saving state: "
        (record s { task = record (s.task) { patch_step = patching } }) (ground arith)

  ending-Safe : (m : M (Unit {0})) → Keeps (Safe 0) m → Keeps (Safe 0) (ending env m)
  ending-Safe m keep =
      attempt-Keeps (Safe 0) m raise (λ _. pure finished) keep (λ e s h. h) (λ a s h. h)

  failed-Safe : (msg : String) → Keeps (Safe 0) (ending env (report_failed env msg))
  unfolding report_failed
  failed-Safe msg =
      ending-Safe (report_completed_state env msg failed)
        (report_completed_state-Safe env msg failed)

  handled-Safe :
      (msg : String) (e : Error) → Keeps (Safe 0) (ending env (handle_error_state env msg e))
  handled-Safe msg e =
      ending-Safe (handle_error_state env msg e) (handle_error_state-Safe env msg e)

  reported-Safe :
      (text : String) (o : OutputState)
      → Keeps (Safe 0) (ending env (wrap text (report_completed_state env "" o)))
  reported-Safe text o = ending-Safe (wrap text (report_completed_state env "" o)) (
      attempt-Keeps (Safe 0) _ _ _ (report_completed_state-Safe env "" o) (λ e s h. h) (λ a s h. h))

  pre_patch_step-Safe : Triple Unstarted (pre_patch_step env) (λ _ s. Safe 0 s)
  unfolding pre_patch_step
  pre_patch_step-Safe =
      attempt-Triple (λ _ s. Unstarted s) (λ _ s. Safe 0 s) start-Unstarted (λ e s u. u.safe)
        (λ _.
          attempt-Triple (λ _ s. Ready env true s) (λ _ s. Safe 0 s) set_step-Ready
            (λ e s r. failed-Safe _ s r.safe)
            (λ _.
              attempt-Triple (λ _ s. Ready env true s) (λ _ s. Safe 0 s)
                (report_continuing_state-Ready env true started)
                (λ e s r. handled-Safe _ e s r.safe)
                (λ _.
                  attempt-Triple (λ _ s. Safe 0 s) (λ _ s. Safe 0 s)
                    (reboot_if_needed-Safe env true) (λ e. handled-Safe _ e) (λ _ s h. h)
                    (λ p s h. h) (λ s h. h))
                (λ p s r. r.safe) (λ s r. r.safe))
            (λ p s r. r.safe) (λ s r. r.safe))
        (λ p s u. u.safe) (λ s u. u.safe)

  updates-Ready : Keeps (Ready env false) (run_updates env)
  unfolding run_updates
  updates-Ready s r = ground arith

  patching_step-Safe : Triple (Ready env false) (patching_step env) (λ _ s. Safe 0 s)
  unfolding patching_step
  patching_step-Safe =
      attempt-Triple (λ _ s. Ready env false s) (λ _ s. Safe 0 s)
        (report_continuing_state-Ready env false applying_patches)
        (λ e s r. handled-Safe _ e s r.safe)
        (λ _.
          attempt-Triple (λ _ s. Ready env false s) (λ _ s. Safe 0 s) updates-Ready
            (λ e s r. handled-Safe _ e s r.safe)
            (λ _.
              attempt-Triple (λ _ s. Safe 0 s) (λ _ s. Safe 0 s) (reboot_if_needed-Safe env false)
                (λ e. handled-Safe _ e)
                (λ _.
                  attempt-Keeps (Safe 0) _ _ _ (set_step-Safe env post_patch (λ e. cc))
                    (λ e. failed-Safe _) (λ _ s h. h))
                (λ p s h. h) (λ s h. h))
            (λ p s r. r.safe) (λ s r. r.safe))
        (λ p s r. r.safe) (λ s r. r.safe)

  system_reboot_required-Safe : Keeps (Safe 0) (system_reboot_required env)
  unfolding system_reboot_required
  system_reboot_required-Safe s h = ground arith

  post_patch_step-Safe : Keeps (Safe 0) (post_patch_step env)
  unfolding post_patch_step
  post_patch_step-Safe =
      attempt-Keeps (Safe 0) _ _ _ system_reboot_required-Safe (λ e. failed-Safe _)
        (λ b. reported-Safe _ _)

  -- One step of the loop, from any step.
  pub run_step-Safe :
      (step : PatchStep) (s : Machine)
      → s.task.patch_step ≡ step
      → Safe 0 s
      → Safe 0 (run_step env step s).1
  unfolding run_step
  run_step-Safe pre_patch s e h = pre_patch_step-Safe s (record { safe = h; at_start = e })
  run_step-Safe patching s e h =
      patching_step-Safe s (record { safe = h; first_pre = λ q. cc; under_way = λ q. cc })
  run_step-Safe post_patch s e h = post_patch_step-Safe s h
  run_step-Safe (other_step t) s e h = failed-Safe _ s h
