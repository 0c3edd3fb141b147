-- ===== src/ConfigTask/Run.antt =====
-- `postCheckState`, `cleanup`, the reports and `run` of agentendpoint/config_task.go.
use osconfig.Base.{
  ℕ, ◌+◌, String, ◌<>◌, Bool, false, Option, none, some, List, [], ◌∷◌, Result, ok, err, panicked,
  ltb, if◌then◌else◌, is_empty,
}
use osconfig.Base.Dict.{Dict, lookup}
use osconfig.Base.Actions.{pure, attempt}
use osconfig.Config.{cleanup}
use osconfig.ConfigTask.{
  ConfigResource, OsPolicy, Compliance, PolicyResult, Res, ProgressState, started, applying_config,
  OutputState, succeeded, failed, cancelled, Error, server_cancel, failure, message, continue, stop,
  progress_sent, complete_sent, post_checked, cleaned, Env, Task, M,
}
use osconfig.ConfigTask.Resources.{post_check_config_resource_state}
use osconfig.ConfigTask.Apply.{logged, generate_base_results, run_policies}

abbrev pub nil_pointer : String
nil_pointer = "invalid memory address or nil pointer dereference"

module _ (env : Env) where
  -- One resource in `postCheckState`, from what the entry of its policy has for it.
  unfoldable pub post_check_found :
      String → ConfigResource → Compliance → Task → Option Res → Compliance × Task
  post_check_found p r c s none = (c, s)
  post_check_found p r c s (some res) =
      let st = post_check_config_resource_state env s.tick r res c in
      (
        st.compliance,
        if res.needs_post_check then logged (post_checked p r.id) p r.id st.res s else s,
      )

  -- The two lookups before it: a policy without an entry is skipped, with every one of its resources.
  unfoldable pub post_check_entry :
      String → Option (Dict Res) → ConfigResource → Compliance → Task → Compliance × Task
  post_check_entry p none r c s = (c, s)
  post_check_entry p (some plcy) r c s = post_check_found p r c s (lookup r.id plcy)

  unfoldable pub post_check_resources :
      String → List ConfigResource → List Compliance → Task → List Compliance × Task
  post_check_resources p [] cs s = (cs, s)
  post_check_resources p (r ∷ rs) [] s = ([], s)
  post_check_resources p (r ∷ rs) (c ∷ cs) s =
      let (c', s') = post_check_entry p (lookup p s.policies) r c s in
      let (rest, s'') = post_check_resources p rs cs s' in (c' ∷ rest, s'')

  -- `postCheckState`: the results have an entry for each policy and each of its resources.
  unfoldable pub post_check_state :
      List OsPolicy → List PolicyResult → Task → List PolicyResult × Task
  post_check_state [] xs s = (xs, s)
  post_check_state (p ∷ ps) [] s = ([], s)
  post_check_state (p ∷ ps) (x ∷ xs) s =
      let (cs, s') = post_check_resources p.id p.resources x.compliances s in
      let (rest, s'') = post_check_state ps xs s' in (record x { compliances = cs } ∷ rest, s'')

  -- The loop over the resources of a policy in `cleanup`. An entry that is missing is a nil pointer,
  -- and its field `resources` cannot be read; an error of the cleanup is logged only.
  unfoldable pub clean_resources : String → List ConfigResource → M (Unit {0})
  clean_resources p [] s = (ok tt, s)
  clean_resources p (r ∷ rs) s = elim (lookup p s.policies) [
    | none ↦ (panicked nil_pointer, s)
    | some plcy ↦ elim (lookup r.id plcy) [
      | none ↦ clean_resources p rs s
      | some res ↦ clean_resources p rs (record s {
        log = cleaned p r.id (cleanup env.backend s.tick res.iface) ∷ s.log;
        tick = s.tick + 1;
      })
    ]
  ]

  unfoldable pub cleanup_policies : List OsPolicy → M (Unit {0})
  cleanup_policies [] s = (ok tt, s)
  cleanup_policies (p ∷ ps) s =
      attempt (clean_resources p.id p.resources) (λ _. pure tt) (λ _. cleanup_policies ps) s

  unfoldable pub report_completed_state : String → OutputState → M (Unit {0})
  report_completed_state msg state s =
      let s' = record s { log = complete_sent state msg s.results ∷ s.log; tick = s.tick + 1 } in
      elim (env.report_complete s.tick) [
        | none ↦ (ok tt, s')
        | some e ↦ (err (failure ("error reporting completed state: " <> e)), s')
      ]

  unfoldable pub handle_error_state : String → Error → M (Unit {0})
  handle_error_state msg server_cancel = report_completed_state (message server_cancel) cancelled
  handle_error_state msg (failure e) = report_completed_state ((msg <> ": ") <> e) failed

  abbrev pub last_sent : ProgressState → Task → Option ℕ
  last_sent started s = s.at_started
  last_sent applying_config s = s.at_applying

  abbrev pub set_sent : ProgressState → ℕ → Task → Task
  set_sent started t s = record s { at_started = some t }
  set_sent applying_config t s = record s { at_applying = some t }

  abbrev pub progress_name : ProgressState → String
  progress_name started = "STARTED"
  progress_name applying_config = "APPLYING_CONFIG"

  -- Was the state sent less than 5 seconds ago?
  abbrev pub sent_lately : ProgressState → Task → Bool
  sent_lately state s = elim (last_sent state s) [
    | none ↦ false
    | some t ↦ ltb (env.now s.tick) (t + 5)
  ]

  unfoldable pub report_continuing_state : ProgressState → M (Unit {0})
  report_continuing_state state s =
      let s' = record s { log = progress_sent state ∷ s.log; tick = s.tick + 1 } in
      if sent_lately state s then (ok tt, s) else elim (env.report_progress s.tick) [
        | err e ↦ (
          err (failure ((("error reporting task progress " <> progress_name state) <> ": ") <> e)),
          s',
        )
        | panicked p ↦ (panicked p, s')
        | ok stop ↦ (err server_cancel, s')
        | ok continue ↦ (ok tt, set_sent state (env.now s.tick) s')
      ]

  -- The three loops of `run`, from the empty map of policies on, and the report.
  unfoldable pub apply_policies : M (Unit {0})
  apply_policies s =
      let (xs, s') = run_policies env s.os_policies s.results (record s { policies = [] }) in
      let (ys, s'') = post_check_state s'.os_policies xs s' in
      report_completed_state "" succeeded (record s'' { results = ys })

  abbrev pub rcs_err_msg : String
  rcs_err_msg = "Error reporting continuing state"

  -- What `run` does between its `defer` and its return.
  unfoldable pub apply : M (Unit {0})
  apply =
      attempt (report_continuing_state applying_config) (handle_error_state rcs_err_msg)
        (λ _. apply_policies)

  -- A panic of the deferred call replaces the result.
  abbrev pub outcome : Result Error (Unit {0}) → Result Error (Unit {0}) → Result Error (Unit {0})
  outcome r (panicked p) = panicked p
  outcome r _ = r

  -- The deferred `cleanup`.
  unfoldable pub with_cleanup : M (Unit {0}) → M (Unit {0})
  with_cleanup m s =
      let (r, s') = m s in let (c, s'') = cleanup_policies s'.os_policies s' in (outcome r c, s'')

  -- What `run` does after the first report.
  unfoldable pub proceed : M (Unit {0})
  proceed s =
      if is_empty s.os_policies
      then report_completed_state "" succeeded s
      else with_cleanup apply (record s { results = generate_base_results s.os_policies })

  -- `(*configTask).run`
  unfoldable pub run : M (Unit {0})
  run = attempt (report_continuing_state started) (handle_error_state rcs_err_msg) (λ _. proceed)

  -- `RunApplyConfig`: a new task, of which a nil map finds nothing.
  unfoldable pub run_apply_config : List OsPolicy → ℕ → Result Error (Unit {0}) × Task
  run_apply_config ps now = run (record {
    os_policies = ps;
    at_started = none;
    at_applying = none;
    policies = [];
    results = [];
    log = [];
    tick = now;
  })
