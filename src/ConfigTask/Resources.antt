-- ===== src/ConfigTask/Resources.antt =====
-- The four steps of one resource in agentendpoint/config_task.go.
use osconfig.Base.{
  if◌then◌else◌, ℕ, String, Bool, true, false, Option, none, some, List, [], ◌∷◌, ◌++◌,
}
use osconfig.Config.{validate, check_state, enforce_state}
use osconfig.ConfigTask.{
  ConfigResource, StepType, validation, desired_state_check, desired_state_enforcement,
  desired_state_check_post_enforcement, StepOutcome, step_succeeded, step_failed, ComplianceState,
  compliant, non_compliant, unknown, Compliance, Res, Env,
}
use osconfig.ConfigTask.Message.{truncated}

-- `rCompliance.ConfigSteps = append(…)` and `rCompliance.State = …`
abbrev pub add_step : StepType → StepOutcome → List ℕ → ComplianceState → Compliance → Compliance
add_step type outcome error_message state c = record c {
  config_steps =
      c.config_steps
      ++ (record { type = type; outcome = outcome; error_message = error_message } ∷ []);
  state = state;
}

-- A conflict between resources; the code finds none.
unfoldable pub detect_policy_conflicts : Option String
detect_policy_conflicts = none

abbrev pub state_of : Bool → ComplianceState
state_of true = compliant
state_of false = non_compliant

-- What a step leaves: its error flag, the resource and the compliance record.
pub record Stepped : Type 0 where
  pub has_error : Bool
  pub res : Res
  pub compliance : Compliance

module _ (env : Env) where
  unfoldable pub validate_config_resource : ℕ → ConfigResource → Res → Compliance → Stepped
  unfolding detect_policy_conflicts
  validate_config_resource n r res c =
      let (e, iface) = validate env.backend n res.iface in
      let res' = record res { iface = iface } in
      elim e [
        | some text ↦ record {
          has_error = true;
          res = res';
          compliance =
              add_step validation step_failed (truncated (env.step_message "Validate" r.id text))
                unknown c;
        }
        | none ↦ elim detect_policy_conflicts [
          | some text ↦ record {
            has_error = true;
            res = res';
            compliance =
                add_step validation step_failed (truncated (env.step_message "Validate" "" text))
                  unknown c;
          }
          | none ↦ record {
            has_error = false;
            res = res';
            compliance = add_step validation step_succeeded [] unknown c;
          }
        ]
      ]

  -- The check of the state, at the two times when it is made.
  unfoldable pub check_with : StepType → String → ℕ → ConfigResource → Res → Compliance → Stepped
  check_with type prefix n r res c =
      let (e, iface) = check_state env.backend n res.iface in
      let res' = record res { iface = iface } in
      elim e [
        | some text ↦ record {
          has_error = true;
          res = res';
          compliance =
              add_step type step_failed (truncated (env.step_message prefix r.id text)) unknown c;
        }
        | none ↦ record {
          has_error = false;
          res = res';
          compliance = add_step type step_succeeded [] (state_of iface.in_desired_state) c;
        }
      ]

  unfoldable pub check_config_resource_state : ℕ → ConfigResource → Res → Compliance → Stepped
  unfolding check_with
  check_config_resource_state = check_with desired_state_check "Check state"

  -- The enforcement, where one is needed.
  unfoldable pub enforce_now : ℕ → ConfigResource → Res → Compliance → Stepped
  enforce_now n r res c =
      let (e, iface) = enforce_state env.backend n res.iface in
      let res' = record res { iface = iface } in
      elim e [
        | some text ↦ record {
          has_error = true;
          res = res';
          compliance =
              add_step desired_state_enforcement step_failed
                (truncated (env.step_message "Enforce state" r.id text)) unknown c;
        }
        | none ↦ record {
          has_error = false;
          res = res';
          compliance = add_step desired_state_enforcement step_succeeded [] unknown c;
        }
      ]

  -- Only resources that need it are enforced: was an action taken?
  unfoldable pub enforce_config_resource_state :
      ℕ → ConfigResource → Res → Compliance → Bool × Stepped
  unfolding enforce_now
  enforce_config_resource_state n r res c =
      if res.iface.in_desired_state
      then (false, record { has_error = false; res = res; compliance = c })
      else (true, enforce_now n r res c)

  -- Only resources that are marked are checked again. The error flag is read by no one.
  unfoldable pub post_check_config_resource_state : ℕ → ConfigResource → Res → Compliance → Stepped
  unfolding check_with
  post_check_config_resource_state n r res c =
      if res.needs_post_check
      then check_with desired_state_check_post_enforcement "Check state post enforcement" n r res c
      else record { has_error = false; res = res; compliance = c }
