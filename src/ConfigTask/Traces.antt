-- ===== src/ConfigTask/Traces.antt =====
-- The compliance records that agentendpoint/config_task.go reports.
pub mod Whole
use mathlib.Core.Path.{subst}
use osconfig.Base.{
  sym, if-split, ℕ, ◌+◌, ◌≤◌, ◌≡◌, refl, String, Bool, true, false, Option, none, some, List, [],
  ◌∷◌, ◌++◌, map, All, if-split, Option-cases, inl, inr, ◌⊎◌, Zip, Zip-map, arith, ok, length, min,
}
use osconfig.Base.Dict.{Dict, lookup}
use osconfig.Config.{validate, check_state, enforce_state, populate_output}
use osconfig.ConfigTask.{
  ConfigResource, OsPolicy, StepType, validation, desired_state_check, desired_state_enforcement,
  desired_state_check_post_enforcement, StepOutcome, step_succeeded, step_failed, ConfigStep,
  ComplianceState, unspecified, unknown, Compliance, PolicyResult, Res, Env, Task,
}
use osconfig.ConfigTask.Message.{
  truncate_message, truncated, max_error_message, truncate_message-length,
}
use osconfig.ConfigTask.Resources.{
  state_of, Stepped, validate_config_resource, check_with, check_config_resource_state, enforce_now,
  enforce_config_resource_state, post_check_config_resource_state, detect_policy_conflicts,
}
use osconfig.ConfigTask.Apply.{
  Applied, new_res, record_output, enforce_resource, check_resource, apply_resource, run_resources,
  run_policy, run_policies, generate_base_results, base_compliance,
}
use osconfig.ConfigTask.Run.{
  post_check_found, post_check_entry, post_check_resources, post_check_state,
}

-- A step that succeeded has no message, and one that failed has one of at most 512 bytes.
abbrev pub step : StepType → StepOutcome → List ℕ → ConfigStep
step t o m = record { type = t; outcome = o; error_message = m }

abbrev pub fine : StepType → ConfigStep
fine t = step t step_succeeded []

-- The steps before the post check, with the state they leave: each is made after the one before it
-- has succeeded, and in VALIDATION mode (`true`) there is no enforcement.
pub data Before : Bool → List ConfigStep → ComplianceState → Type 0 where
  untouched : {v : Bool} → Before v [] unspecified
  invalid :
      {v : Bool} (m : List ℕ)
      → length m ≤ 512
      → Before v (step validation step_failed m ∷ []) unknown
  unchecked :
      {v : Bool} (m : List ℕ)
      → length m ≤ 512
      → Before v (fine validation ∷ step desired_state_check step_failed m ∷ []) unknown
  checked :
      {v : Bool} (desired : Bool)
      → Before v (fine validation ∷ fine desired_state_check ∷ []) (state_of desired)
  enforced :
      (o : StepOutcome) (m : List ℕ)
      → length m ≤ 512
      → Before false
          (fine validation ∷ fine desired_state_check ∷ step desired_state_enforcement o m ∷ [])
          unknown

-- All the steps: the post check, where it is made, is the last one and has the last word.
pub data Legal (v : Bool) : List ConfigStep → ComplianceState → Type 0 where
  as_is : {ss : List ConfigStep} {st : ComplianceState} → Before v ss st → Legal v ss st
  post_ok :
      {ss : List ConfigStep} {st : ComplianceState} (desired : Bool)
      → Before v ss st
      → Legal v (ss ++ (fine desired_state_check_post_enforcement ∷ [])) (state_of desired)
  post_failed :
      {ss : List ConfigStep} {st : ComplianceState} (m : List ℕ)
      → length m ≤ 512
      → Before v ss st
      → Legal v (ss ++ (step desired_state_check_post_enforcement step_failed m ∷ [])) unknown

truncated-length : (m : List ℕ) → length (truncated m) ≤ 512
unfolding truncated
truncated-length m =
    let (text, e, l) = truncate_message-length m max_error_message (omega arith) in
    rw (e, truncated) (omega (arith, l))

-- The trace of the steps so far, in the mode of the policy, with the record of the right resource.
abbrev pub IsBefore : Bool → ConfigResource → Compliance → Type 0
IsBefore v r c = (c.resource_id ≡ r.id) × Before v c.config_steps c.state

abbrev pub IsLegal : Bool → ConfigResource → Compliance → Type 0
IsLegal v r c = (c.resource_id ≡ r.id) × Legal v c.config_steps c.state

-- What is known between two steps: the steps made, all of them well.
abbrev pub After : List ConfigStep → ConfigResource → Compliance → Type 0
After ss r c = (c.resource_id ≡ r.id) × (c.config_steps ≡ ss)

module _ (env : Env) (v : Bool) (r : ConfigResource) where
  pub validate_config_resource-After :
      (n : ℕ) (res : Res) (c : Compliance)
      → After [] r c
      → ((validate_config_resource env n r res c).has_error ≡ true
          → IsBefore v r (validate_config_resource env n r res c).compliance)
        × ((validate_config_resource env n r res c).has_error ≡ false
            → After (fine validation ∷ []) r (validate_config_resource env n r res c).compliance)
  unfolding validate_config_resource detect_policy_conflicts
  validate_config_resource-After n res c (id, e) =
      elim (Option-cases (validate env.backend n res.iface).0) [
        | inl none_found ↦
            rw (none_found, validate_config_resource) (λ h. absurd (cc), λ h. (id, rw (e) refl))
        | inr (text, found) ↦
            rw (found, validate_config_resource)
              (λ h. (id, rw (e) (invalid _ (truncated-length _))), λ h. absurd (cc))
      ]

  -- A check, of either kind, adds one step, whose outcome says what the state is.
  abbrev pub CheckEnd : StepType → List ConfigStep → Stepped → Type 0
  CheckEnd t ss w =
      ((desired : Bool) × (w.has_error ≡ false)
        × After (ss ++ (fine t ∷ [])) r w.compliance
        × (w.compliance.state ≡ state_of desired))
      ⊎ ((m : List ℕ) × (w.has_error ≡ true)
          × (length m ≤ 512)
          × After (ss ++ (step t step_failed m ∷ [])) r w.compliance
          × (w.compliance.state ≡ unknown))

  pub check_with-CheckEnd :
      (t : StepType) (prefix : String) (ss : List ConfigStep) (n : ℕ) (res : Res) (c : Compliance)
      → After ss r c
      → CheckEnd t ss (check_with env t prefix n r res c)
  unfolding check_with
  check_with-CheckEnd t prefix ss n res c (id, e) =
      elim (Option-cases (check_state env.backend n res.iface).0) [
        | inl nothing ↦ inl (
          (check_state env.backend n res.iface).1.in_desired_state,
          rw (nothing, check_with) refl,
          (rw (nothing, check_with) id, rw (nothing, check_with, e) refl),
          rw (nothing, check_with) refl,
        )
        | inr (text, found) ↦ inr (
          truncated (env.step_message prefix r.id text),
          rw (found, check_with) refl,
          truncated-length _,
          (rw (found, check_with) id, rw (found, check_with, e) refl),
          rw (found, check_with) refl,
        )
      ]

  pub check_config_resource_state-After :
      (n : ℕ) (res : Res) (c : Compliance)
      → After (fine validation ∷ []) r c
      → IsBefore v r (check_config_resource_state env n r res c).compliance
        × ((check_config_resource_state env n r res c).has_error ≡ false
            → After
                (fine validation ∷ fine desired_state_check ∷ [])
                r
                (check_config_resource_state env n r res c).compliance)
  unfolding check_config_resource_state
  check_config_resource_state-After n res c a =
      elim (check_with-CheckEnd desired_state_check "Check state" _ n res c a) [
        | inl (desired, fine_end, (id, ss), st) ↦
            ((id, rw (ss, st) (checked desired)), λ h. (id, ss))
        | inr (m, failed_end, l, (id, ss), st) ↦
            ((id, rw (ss, st) (unchecked m l)), λ h. absurd (cc))
      ]

  enforce_now-IsBefore :
      (n : ℕ) (res : Res) (c : Compliance)
      → After (fine validation ∷ fine desired_state_check ∷ []) r c
      → IsBefore false r (enforce_now env n r res c).compliance
  unfolding enforce_now
  enforce_now-IsBefore n res c (id, e) =
      elim (Option-cases (enforce_state env.backend n res.iface).0) [
        | inl none_found ↦
            rw (none_found, enforce_now) (id, rw (e) (enforced step_succeeded [] (omega arith)))
        | inr (text, found) ↦
            rw (found, enforce_now) (id, rw (e) (enforced step_failed _ (truncated-length _)))
      ]

  pub enforce_config_resource_state-IsBefore :
      (n : ℕ) (res : Res) (c : Compliance)
      → v ≡ false
      → IsBefore v r c
      → After (fine validation ∷ fine desired_state_check ∷ []) r c
      → IsBefore v r (enforce_config_resource_state env n r res c).1.compliance
  unfolding enforce_config_resource_state
  enforce_config_resource_state-IsBefore n res c enforces h a =
      if-split (λ (x : Bool × Stepped). IsBefore v r x.1.compliance) res.iface.in_desired_state
        (λ _. h)
        (λ _.
          subst (λ v. IsBefore v r (enforce_now env n r res c).compliance) (sym enforces)
            (enforce_now-IsBefore n res c a))

  pub record_output-IsBefore :
      (stops : Bool) (res : Res) (c : Compliance) (s : Task)
      → IsBefore v r c
      → IsBefore v r (record_output env stops res c s).compliance
  unfolding record_output
  record_output-IsBefore stops res c s h =
      elim (Option-cases (populate_output env.backend s.tick res.iface).1) [
        | inl nothing ↦ rw (nothing, record_output) h
        | inr (text, found) ↦ rw (found, record_output) h
      ]
