-- ===== src/ConfigTask/Outcome/Whole.antt =====
-- How a run of agentendpoint/config_task.go ends.
use mathlib.Core.Path.{subst}
use osconfig.Base.{
  ℕ, ◌+◌, ◌≡◌, refl, sym, ap, ◌∙◌, Bool, true, false, not, ◌&&◌, none, List, [], ◌∷◌, All, any,
  is_empty, if◌then◌else◌, if-split, arith, Result, ok, err, panicked,
}
use osconfig.Base.Actions.{resume}
use osconfig.ConfigTask.{OsPolicy, started, succeeded, Error, Env, Task}
use osconfig.ConfigTask.Apply.{generate_base_results}
use osconfig.ConfigTask.Loops.{cleanup_policies-Kept}
use osconfig.ConfigTask.Present.{has_resources, cleanup_policies-ok, cleanup_policies-nil}
use osconfig.ConfigTask.Run.{
  cleanup_policies, handle_error_state, nil_pointer, outcome, rcs_err_msg, apply, with_cleanup,
  proceed, run, run_apply_config,
}
use osconfig.ConfigTask.Outcome.{completions, Justified, Inv, Inv-Kept}
use osconfig.ConfigTask.Outcome.Ends.{
  panics, goes_on, Calm, Closed, Sent, Applied, report_completed_state-Closed,
  handle_error_state-Closed, report_continuing_state-Sent, report_started-at_applying,
  apply-Applied,
}

module _ (env : Env) (ps : List OsPolicy) where
  -- The deferred cleanup adds the panic, where there is one.
  with_cleanup-Closed :
      (s : Task) (g : Bool)
      → Applied env ps g (apply env s).0 (apply env s).1
      → Inv ps 1 (with_cleanup env (apply env) s).1
        × (panics (with_cleanup env (apply env) s).0 ≡ (not g && any has_resources ps))
  unfolding with_cleanup
  with_cleanup-Closed s g a =
      (cleanup_policies-Kept env _ _ (Inv-Kept ps 1) _ _ a.inv, panics_when g a)
    where
      cleaned_by : List OsPolicy → Result Error (Unit {0})
      cleaned_by qs = (cleanup_policies env qs (apply env s).1).0

      panics_when :
          (g : Bool)
          → Applied env ps g (apply env s).0 (apply env s).1
          → panics (outcome env (apply env s).0 (cleaned_by (apply env s).1.os_policies))
            ≡ (not g && any has_resources ps)
      panics_when true a =
          let e : cleaned_by ps ≡ ok tt = cleanup_policies-ok env ps _ (a.entries.0 refl) in
          rw (a.inv.same, e) a.calm
      panics_when false a =
          let e : cleaned_by ps ≡ (if any has_resources ps then panicked nil_pointer else ok tt) =
            cleanup_policies-nil env ps _ (a.entries.1 refl) in
          rw (a.inv.same, e)
            (if-split (λ r. panics (outcome env (apply env s).0 r) ≡ any has_resources ps)
              (any has_resources ps) (λ e. sym e) (λ e. a.calm ∙ sym e))

  -- The end of a whole run: one completion, and a panic in the one case that has it.
  abbrev Finished : ℕ → Result Error (Unit {0}) → Task → Type 0
  Finished n r s =
      Inv ps 1 s
      × (panics r ≡ (goes_on env n && (not (goes_on env (n + 1)) && any has_resources ps)))

  proceed-Finished :
      (s : Task)
      → Calm env
      → s.at_applying ≡ none
      → s.policies ≡ []
      → Inv ps 0 s
      → Inv ps 1 (proceed env s).1
        × (panics (proceed env s).0 ≡ (not (goes_on env s.tick) && any has_resources ps))
  unfolding proceed
  proceed-Finished s calm new none_yet i =
      if-split
        (λ (x : Result Error (Unit {0}) × Task).
          Inv ps 1 x.1 × (panics x.0 ≡ (not (goes_on env s.tick) && any has_resources ps)))
        (is_empty s.os_policies)
        (λ empty.
          let c : Closed ps _ _ _ = report_completed_state-Closed env ps "" succeeded s i in
          let e : any has_resources ps ≡ false =
            subst (λ qs. any has_resources qs ≡ false) i.same (nothing_to_do s.os_policies empty) in
          (c.inv, c.calm ∙ ground arith))
        (λ _.
          let s0 : Task = record s { results = generate_base_results s.os_policies } in
          with_cleanup-Closed s0 (goes_on env s.tick) (
            apply-Applied env ps s0 calm new none_yet (ap generate_base_results i.same)
              (record { same = i.same; sent = i.sent; justified = i.justified })))
    where
      nothing_to_do : (qs : List OsPolicy) → is_empty qs ≡ true → any has_resources qs ≡ false
      nothing_to_do [] e = refl
      nothing_to_do (q ∷ qs) e = absurd (cc)

  pub run_apply_config-Finished :
      (n : ℕ) → Calm env → Finished n (run_apply_config env ps n).0 (run_apply_config env ps n).1
  unfolding run_apply_config run
  run_apply_config-Finished n calm = after _ _ (report_started-at_applying env ps (new_task n)) (
      report_continuing_state-Sent env ps started (new_task n) calm refl
        (record { same = refl; sent = refl; justified = tt }))
    where
      new_task : ℕ → Task
      new_task n = record {
        os_policies = ps;
        at_started = none;
        at_applying = none;
        policies = [];
        results = [];
        log = [];
        tick = n;
      }

      after :
          (r : Result Error (Unit {0})) (s' : Task)
          → s'.at_applying ≡ none
          → Sent env ps (new_task n) r s'
          → Finished n
              (resume (handle_error_state env (rcs_err_msg env)) (λ _. proceed env) r s').0
              (resume (handle_error_state env (rcs_err_msg env)) (λ _. proceed env) r s').1
      after (ok a) s' new z =
          let f : Inv ps 1 (proceed env s').1
              × (panics (proceed env s').0 ≡ (not (goes_on env s'.tick) && any has_resources ps)) =
            proceed-Finished s' calm new z.kept z.inv in
          (f.0, f.1 ∙ ground (arith, z.going, z.tick))
      after (err e) s' new z =
          let h : Closed ps _ _ _ = handle_error_state-Closed env ps (rcs_err_msg env) e s' z.inv in
          (h.inv, h.calm ∙ ground (arith, z.going))
      after (panicked p) s' new z = absurd (cc)

-- Where no method of a resource and no report of progress panics, whatever else they return, a run of an
-- ApplyConfigTask calls ReportTaskComplete exactly once, also where the deferred cleanup then panics.
pub run_apply_config-completes_once :
    (env : Env) (ps : List OsPolicy) (n : ℕ)
    → Calm env
    → completions (run_apply_config env ps n).1.log ≡ 1
run_apply_config-completes_once env ps n calm = (run_apply_config-Finished env ps n calm).0.sent

-- Where no method of a resource and no report of progress panics, a run of an ApplyConfigTask panics
-- exactly where the server lets
-- the report of STARTED through, refuses or stops the report of APPLYING_CONFIG, and some policy has a
-- resource: the deferred cleanup then reads a policy that no map holds yet.
pub run_apply_config-panics :
    (env : Env) (ps : List OsPolicy) (n : ℕ)
    → Calm env
    → panics (run_apply_config env ps n).0
      ≡ (goes_on env n && (not (goes_on env (n + 1)) && any has_resources ps))
run_apply_config-panics env ps n calm = (run_apply_config-Finished env ps n calm).1

-- Where no report of progress panics, every enforcement that a run makes is of a resource of some
-- policy of the task, by their ids, that is not in VALIDATION mode.
pub run_apply_config-Justified :
    (env : Env) (ps : List OsPolicy) (n : ℕ)
    → Calm env
    → All (Justified ps) (run_apply_config env ps n).1.log
run_apply_config-Justified env ps n calm = (run_apply_config-Finished env ps n calm).0.justified
