-- ===== src/PatchTask/Steps.antt =====
-- The methods of `*patchTask`.
use osconfig.Base.{
  ℕ, zero, suc, ◌+◌, String, ◌<>◌, Bool, true, false, not, ◌&&◌, Option, none, some, ◌∷◌, ok, err,
  panicked, ltb, leb, eqb, if◌then◌else◌,
}
use osconfig.TaskState.{save}
use osconfig.PatchTask.{
  PatchStep, pre_patch, patching, post_patch, other_step, total_reboot_count_limit, ProgressState,
  started, applying_patches, rebooting, OutputState, succeeded, succeeded_reboot_required, failed,
  Error, server_cancel, failure, message, State, encoded, continue, stop, progress_sent,
  complete_sent, updates_run, reboot_called, Env, Machine, Exit, done, fail, panic, halted, M,
  ◌>>=◌, ◌>>◌, attempt, pure, raise, of_option, wrap, get_progress, set_progress, progress_name,
  output_name, is_always, is_never,
}

-- What one round of the loop in `run` does next.
pub data Control : Type 0 where
  again finished : Control

module _ (env : Env) where
  -- One state written to the state file.
  unfoldable pub write_state : State → M (Unit {0})
  write_state st s =
      let (e, d) = save (env.faults s.tick) none (some st) s.disk in
      (of_option e, record s { disk = d; tick = s.tick + 1 })

  -- `saveState`
  unfoldable pub save_state : M (Unit {0})
  save_state s = write_state (some (encoded s.task)) s

  -- `complete`: an error is logged only.
  unfoldable pub complete : M (Unit {0})
  complete s = (done tt, (write_state none s).1)

  unfoldable pub set_step : PatchStep → M (Unit {0})
  set_step step s =
      wrap "error saving state: " save_state
        (record s { task = record (s.task) { patch_step = step } })

  unfoldable pub report_completed_state : String → OutputState → M (Unit {0})
  report_completed_state err_msg output s =
      let s' = record s { log = complete_sent output err_msg ∷ s.log; tick = s.tick + 1 } in
      elim (env.report_complete s.tick) [
        | none ↦ (done tt, s')
        | some e ↦ (fail (failure ("error reporting completed state: " <> e)), s')
      ]

  unfoldable pub report_failed : String → M (Unit {0})
  report_failed msg = report_completed_state msg failed

  unfoldable pub report_canceled : M (Unit {0})
  report_canceled = report_completed_state (message server_cancel) failed

  unfoldable pub handle_error_state : String → Error → M (Unit {0})
  handle_error_state msg server_cancel = report_canceled
  handle_error_state msg (failure e) = report_failed msg

  -- Was the state sent less than 5 seconds ago?
  abbrev pub sent_lately : ProgressState → Machine → Bool
  sent_lately patch_state s = elim (get_progress patch_state s.task.last_progress_state) [
    | none ↦ false
    | some t ↦ ltb (env.now s.tick) (t + 5)
  ]

  -- The time of the report is kept, and the state saved.
  unfoldable pub note_progress : ProgressState → M (Unit {0})
  note_progress patch_state s = save_state (record s {
    task = record (s.task) {
      last_progress_state = set_progress patch_state (env.now s.tick) s.task.last_progress_state;
    };
  })

  unfoldable pub report_continuing_state : ProgressState → M (Unit {0})
  report_continuing_state patch_state s =
      let s' = record s { log = progress_sent patch_state ∷ s.log; tick = s.tick + 1 } in
      if sent_lately patch_state s then (done tt, s) else elim (env.report_progress s.tick) [
        | err e ↦ (
          fail (failure ((("error reporting state " <> progress_name patch_state) <> ": ") <> e)),
          s',
        )
        | panicked p ↦ (panic p, s')
        | ok stop ↦ (fail server_cancel, s')
        | ok continue ↦ note_progress patch_state s'
      ]

  unfoldable pub system_reboot_required : M Bool
  system_reboot_required s = (
    elim (env.reboot_required s.tick) [
      | ok b ↦ done b
      | err e ↦ fail (failure e)
      | panicked p ↦ panic p
    ],
    record s { tick = s.tick + 1 },
  )

  -- After `rebootSystem` the code waits in an endless loop.
  unfoldable pub reboot_system : M (Unit {0})
  reboot_system s =
      let s' = record s { log = reboot_called ∷ s.log; tick = s.tick + 1 } in
      elim (env.reboot_system s.tick) [
        | none ↦ (halted, s')
        | some e ↦ (fail (failure ("failed to reboot system: " <> e)), s')
      ]

  -- One more reboot of the kind given.
  unfoldable pub count_reboot : Bool → M (Unit {0})
  count_reboot true s = (
    done tt,
    record s {
      task = record (s.task) { pre_patch_reboot_count = s.task.pre_patch_reboot_count + 1 };
    },
  )
  count_reboot false s = (
    done tt,
    record s {
      task = record (s.task) { post_patch_reboot_count = s.task.post_patch_reboot_count + 1 };
    },
  )

  -- The first half of `rebootIfNeeded`: is there to be a reboot?
  unfoldable pub reboot_wanted : Bool → M Bool
  reboot_wanted is_pre s =
      let t = s.task in
      if is_always t.reboot_config && (not is_pre && eqb t.post_patch_reboot_count 0)
      then (done true, s)
      else attempt system_reboot_required
          (λ e. raise (failure ("error checking if a system reboot is required: " <> message e)))
          (λ reboot. pure (
            reboot
            && not (
                leb total_reboot_count_limit
                  (t.pre_patch_reboot_count + t.post_patch_reboot_count))))
          s

  -- The second half: the count is saved before the reboot, and a report that fails is ignored.
  unfoldable pub do_reboot : Bool → M (Unit {0})
  do_reboot is_pre = do
    count_reboot is_pre
    wrap "error saving state: " save_state
    attempt (report_continuing_state rebooting) (λ _. pure tt) pure
    reboot_system

  -- The tests between the two halves, in the code's order.
  unfoldable pub reboot_allowed : Bool → Bool → M (Unit {0})
  reboot_allowed is_pre reboot s =
      if not reboot
      then (done tt, s)
      else if is_never s.task.reboot_config
      then (done tt, s)
      else if s.task.dry_run
      then (done tt, s)
      else do_reboot is_pre s

  unfoldable pub reboot_if_needed : Bool → M (Unit {0})
  reboot_if_needed is_pre = reboot_wanted is_pre >>= reboot_allowed is_pre

  unfoldable pub run_updates : M (Unit {0})
  run_updates s = (
    elim (env.run_updates s.tick) [ ok _ ↦ done tt | err e ↦ fail e | panicked p ↦ panic p ],
    record s { log = updates_run ∷ s.log; tick = s.tick + 1 },
  )

  unfoldable pub start : M (Unit {0})
  start s = (
    done tt,
    record s { task = record (s.task) { started_at = env.now s.tick }; tick = s.tick + 1 },
  )

  -- A handler's return ends the loop.
  abbrev pub ending : M (Unit {0}) → M Control
  ending m = m >> pure finished

  unfoldable pub pre_patch_step : M Control
  pre_patch_step = do
    start
    attempt (set_step patching)
        (λ e. ending (report_failed ("Error saving agent step: " <> message e)))
        (λ _.
          attempt (report_continuing_state started) (λ e. ending (handle_error_state (message e) e))
            (λ _.
              attempt (reboot_if_needed true)
                (λ e. ending (handle_error_state ("Error running prePatchReboot: " <> message e) e))
                (λ _. pure again)))

  unfoldable pub patching_step : M Control
  patching_step =
      attempt (report_continuing_state applying_patches)
        (λ e. ending (handle_error_state (message e) e))
        (λ _.
          attempt run_updates
            (λ e. ending (handle_error_state ("Failed to apply patches: " <> message e) e))
            (λ _.
              attempt (reboot_if_needed false)
                (λ e.
                  ending (handle_error_state ("Error running postPatchReboot: " <> message e) e))
                (λ _.
                  attempt (set_step post_patch)
                    (λ e. ending (report_failed ("Error saving agent step: " <> message e)))
                    (λ _. pure again))))

  abbrev final_state : Bool → OutputState
  final_state reboot = if reboot then succeeded_reboot_required else succeeded

  unfoldable pub post_patch_step : M Control
  post_patch_step =
      attempt system_reboot_required
        (λ e. ending (report_failed ("Error checking if system reboot is required: " <> message e)))
        (λ reboot. ending (
          wrap (("failed to report state " <> output_name (final_state reboot)) <> ": ")
            (report_completed_state "" (final_state reboot))))

  unfoldable pub run_step : PatchStep → M Control
  run_step pre_patch = pre_patch_step
  run_step patching = patching_step
  run_step post_patch = post_patch_step
  run_step (other_step s) = ending (report_failed ("unknown step: " <> env.quote s))

  -- The loop of `run`. `none`: the fuel ran out.
  unfoldable pub run_loop : ℕ → Machine → Option (Exit (Unit {0}) × Machine)
  run_loop zero s = none
  run_loop (suc fuel) s =
      let (r, s') = run_step s.task.patch_step s in
      elim r [
        | done again ↦ run_loop fuel s'
        | done finished ↦ some (done tt, s')
        | fail e ↦ some (fail e, s')
        | panic p ↦ some (panic p, s')
        | halted ↦ some (halted, s')
      ]

  -- The deferred function of `run`: a panic is reported and becomes the error; any other return
  -- clears the state file.
  unfoldable pub deferred : Exit (Unit {0}) × Machine → Exit (Unit {0}) × Machine
  deferred (done a, s) = (done a, (complete s).1)
  deferred (fail e, s) = (fail e, (complete s).1)
  deferred (panic p, s) =
      let text = "Recovered from panic: " <> p in (fail (failure text), (report_failed text s).1)
  deferred (halted, s) = (halted, s)

  -- `(*patchTask).run`
  unfoldable pub run : ℕ → Machine → Option (Exit (Unit {0}) × Machine)
  run fuel s = elim (run_loop fuel s) [ none ↦ none | some end ↦ some (deferred end) ]

  -- `RunApplyPatches`: an error of the first save is dropped.
  unfoldable pub run_apply_patches : ℕ → Machine → Option (Exit (Unit {0}) × Machine)
  run_apply_patches fuel s = run fuel (set_step pre_patch s).1
