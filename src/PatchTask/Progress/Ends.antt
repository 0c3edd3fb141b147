-- ===== src/PatchTask/Progress/Ends.antt =====
-- Three steps are enough, and a run that returns has reported the task's completion once.
use osconfig.Base.{◌≡◌, String, true, false, arith}
use osconfig.PatchTask.{
  PatchStep, pre_patch, patching, post_patch, other_step, started, applying_patches, OutputState,
  failed, Error, server_cancel, failure, Env, Machine, Exit, done, fail, panic, halted, M, wrap,
}
use osconfig.PatchTask.Triples.{Triple, attempt-Triple}
use osconfig.PatchTask.Steps.{
  Control, again, finished, report_completed_state, report_failed, report_canceled,
  handle_error_state, start, ending, pre_patch_step, patching_step, post_patch_step, run_step,
}
use osconfig.PatchTask.Progress.{completes, At}
use osconfig.PatchTask.Progress.Calls.{
  report_continuing_state-At, system_reboot_required-At, reboot_if_needed-At, run_updates-At,
  set_step-At,
}

-- How one step ends: it goes on to the next one with no completion reported, returns with one, or
-- is cut off by a panic or a reboot with none. The last step and an unknown one do not go on.
abbrev pub Stepped : PatchStep → Exit Control → Machine → Type 0
Stepped pre_patch (done again) s = At patching 0 s
Stepped patching (done again) s = At post_patch 0 s
Stepped x (done again) s = ⊥
Stepped x (done finished) s = completes s.log ≡ 1
Stepped x (fail e) s = completes s.log ≡ 1
Stepped x (panic p) s = completes s.log ≡ 0
Stepped x halted s = completes s.log ≡ 0

-- A report of the completion returns, with or without an error.
abbrev Returned : Exit (Unit {0}) → Machine → Type 0
Returned (done a) s = completes s.log ≡ 1
Returned (fail e) s = completes s.log ≡ 1
Returned (panic p) s = ⊥
Returned halted s = ⊥

-- A handler reports and ends the loop.
abbrev Over : Exit Control → Machine → Type 0
Over (done again) s = ⊥
Over (done finished) s = completes s.log ≡ 1
Over (fail e) s = completes s.log ≡ 1
Over (panic p) s = ⊥
Over halted s = ⊥

Stepped_of_Over : (x : PatchStep) (r : Exit Control) (s : Machine) → Over r s → Stepped x r s
Stepped_of_Over x (done again) s h = absurd h
Stepped_of_Over pre_patch (done finished) s h = h
Stepped_of_Over _ (done finished) s h = h
Stepped_of_Over pre_patch (fail e) s h = h
Stepped_of_Over _ (fail e) s h = h
Stepped_of_Over x (panic p) s h = absurd h
Stepped_of_Over x halted s h = absurd h

module _ (env : Env) (x : PatchStep) where
  report-Returned :
      (msg : String) (o : OutputState) → Triple (At x 0) (report_completed_state env msg o) Returned
  unfolding report_completed_state
  report-Returned msg o s a = ground arith

  ending-Over :
      (m : M (Unit {0})) → Triple (At x 0) m Returned → Triple (At x 0) (ending env m) Over
  ending-Over m t =
      attempt-Triple Returned Over t (λ e s h. h) (λ a s h. h) (λ p s h. absurd h) (λ s h. absurd h)

  ending-Stepped :
      (y : PatchStep) (m : M (Unit {0}))
      → Triple (At x 0) m Returned
      → Triple (At x 0) (ending env m) (Stepped y)
  ending-Stepped y m t s a = Stepped_of_Over y _ _ (ending-Over m t s a)

  failed-Stepped :
      (y : PatchStep) (msg : String)
      → Triple (At x 0) (ending env (report_failed env msg)) (Stepped y)
  unfolding report_failed
  failed-Stepped y msg =
      ending-Stepped y (report_completed_state env msg failed) (report-Returned _ _)

  handled-Returned :
      (msg : String) (e : Error) → Triple (At x 0) (handle_error_state env msg e) Returned
  unfolding handle_error_state report_failed report_canceled
  handled-Returned msg server_cancel = report-Returned _ _
  handled-Returned msg (failure e) = report-Returned _ _

  handled-Stepped :
      (y : PatchStep) (msg : String) (e : Error)
      → Triple (At x 0) (ending env (handle_error_state env msg e)) (Stepped y)
  handled-Stepped y msg e = ending-Stepped y (handle_error_state env msg e) (handled-Returned msg e)

module _ (env : Env) where
  abbrev Started : Exit (Unit {0}) → Machine → Type 0
  Started (done a) s = At pre_patch 0 s
  Started (fail e) s = ⊥
  Started (panic p) s = ⊥
  Started halted s = ⊥

  start-Started : Triple (At pre_patch 0) (start env) Started
  unfolding start
  start-Started s a = ground arith

  pre_patch_step-Stepped : Triple (At pre_patch 0) (pre_patch_step env) (Stepped pre_patch)
  unfolding pre_patch_step
  pre_patch_step-Stepped =
      attempt-Triple Started (Stepped pre_patch) start-Started (λ e s a. absurd a)
        (λ _.
          attempt-Triple (λ _ s. At patching 0 s) (Stepped pre_patch)
            (set_step-At env pre_patch patching 0) (λ e. failed-Stepped env patching pre_patch _)
            (λ _.
              attempt-Triple (λ _ s. At patching 0 s) (Stepped pre_patch)
                (report_continuing_state-At env patching 0 started)
                (λ e. handled-Stepped env patching pre_patch _ e)
                (λ _.
                  attempt-Triple (λ _ s. At patching 0 s) (Stepped pre_patch)
                    (reboot_if_needed-At env patching 0 true)
                    (λ e. handled-Stepped env patching pre_patch _ e) (λ _ s a. a) (λ p s a. a.sent)
                    (λ s a. a.sent))
                (λ p s a. a.sent) (λ s a. a.sent))
            (λ p s a. a.sent) (λ s a. a.sent))
        (λ p s a. absurd a) (λ s a. absurd a)

  patching_step-Stepped : Triple (At patching 0) (patching_step env) (Stepped patching)
  unfolding patching_step
  patching_step-Stepped =
      attempt-Triple (λ _ s. At patching 0 s) (Stepped patching)
        (report_continuing_state-At env patching 0 applying_patches)
        (λ e. handled-Stepped env patching patching _ e)
        (λ _.
          attempt-Triple (λ _ s. At patching 0 s) (Stepped patching) (run_updates-At env patching 0)
            (λ e. handled-Stepped env patching patching _ e)
            (λ _.
              attempt-Triple (λ _ s. At patching 0 s) (Stepped patching)
                (reboot_if_needed-At env patching 0 false)
                (λ e. handled-Stepped env patching patching _ e)
                (λ _.
                  attempt-Triple (λ _ s. At post_patch 0 s) (Stepped patching)
                    (set_step-At env patching post_patch 0)
                    (λ e. failed-Stepped env post_patch patching _) (λ _ s a. a) (λ p s a. a.sent)
                    (λ s a. a.sent))
                (λ p s a. a.sent) (λ s a. a.sent))
            (λ p s a. a.sent) (λ s a. a.sent))
        (λ p s a. a.sent) (λ s a. a.sent)

  final-Returned :
      (text : String) (o : OutputState)
      → Triple (At post_patch 0) (wrap text (report_completed_state env "" o)) Returned
  final-Returned text o =
      attempt-Triple Returned Returned (report-Returned env post_patch "" o) (λ e s h. h)
        (λ a s h. h) (λ p s h. h) (λ s h. h)

  post_patch_step-Stepped : Triple (At post_patch 0) (post_patch_step env) (Stepped post_patch)
  unfolding post_patch_step
  post_patch_step-Stepped =
      attempt-Triple (λ _ s. At post_patch 0 s) (Stepped post_patch)
        (system_reboot_required-At env post_patch 0)
        (λ e. failed-Stepped env post_patch post_patch _)
        (λ b. ending-Stepped env post_patch post_patch _ (final-Returned _ _)) (λ p s a. a.sent)
        (λ s a. a.sent)

  pub run_step-Stepped : (x : PatchStep) → Triple (At x 0) (run_step env x) (Stepped x)
  unfolding run_step
  run_step-Stepped pre_patch = pre_patch_step-Stepped
  run_step-Stepped patching = patching_step-Stepped
  run_step-Stepped post_patch = post_patch_step-Stepped
  run_step-Stepped (other_step t) = failed-Stepped env (other_step t) (other_step t) _
