-- ===== src/ConfigTask/Traces/Whole.antt =====
-- The compliance records that a run of agentendpoint/config_task.go reports are legal.
use mathlib.Core.Path.{subst}
use osconfig.Base.{
  ◌≡◌, refl, sym, String, Bool, false, Option, none, some, List, [], ◌∷◌, map, All, All-Member,
  if-split, inl, inr, Zip, Zip-map, arith,
}
use osconfig.Base.Dict.{Dict, lookup}
use osconfig.ConfigTask.{
  ConfigResource, OsPolicy, validation, desired_state_check, desired_state_check_post_enforcement,
  Compliance, PolicyResult, Res, Env, Task, Call, OutputState, complete_sent, succeeded,
}
use osconfig.ConfigTask.Resources.{
  Stepped, validate_config_resource, check_config_resource_state, post_check_config_resource_state,
}
use osconfig.ConfigTask.Apply.{
  Applied, new_res, enforce_resource, check_resource, apply_resource, run_resources, run_policy,
  run_policies, generate_base_results, base_compliance,
}
use osconfig.ConfigTask.Run.{
  apply_policies, report_completed_state, post_check_found, post_check_entry, post_check_resources,
  post_check_state,
}
use osconfig.ConfigTask.Loops.{Kept, Permitted, run_policies-Kept}
use osconfig.ConfigTask.Traces.{
  fine, untouched, as_is, post_ok, post_failed, IsBefore, IsLegal, After,
  validate_config_resource-After, check_config_resource_state-After,
  enforce_config_resource_state-IsBefore, record_output-IsBefore, check_with-CheckEnd,
}

module _ (env : Env) (p : OsPolicy) where
  enforce_resource-IsBefore :
      (r : ConfigResource) (res : Res) (c : Compliance) (s : Task)
      → p.validation_mode ≡ false
      → IsBefore p.validation_mode r c
      → After (fine validation ∷ fine desired_state_check ∷ []) r c
      → IsBefore p.validation_mode r (enforce_resource env p r res c s).compliance
  unfolding enforce_resource
  enforce_resource-IsBefore r res c s enforces h a =
      record_output-IsBefore env p.validation_mode r _ _ _ _
        (enforce_config_resource_state-IsBefore env p.validation_mode r s.tick res c enforces h a)

  check_resource-IsBefore :
      (r : ConfigResource) (res : Res) (c : Compliance) (s : Task)
      → After (fine validation ∷ []) r c
      → IsBefore p.validation_mode r (check_resource env p r res c s).compliance
  unfolding check_resource
  check_resource-IsBefore r res c s a =
      let (before, after) =
        check_config_resource_state-After env p.validation_mode r s.tick res c a in
      if-split (λ (x : Applied). IsBefore p.validation_mode r x.compliance)
        (check_config_resource_state env s.tick r res c).has_error (λ _. before)
        (λ ok_check.
          if-split (λ (x : Applied). IsBefore p.validation_mode r x.compliance) p.validation_mode
            (λ _. before)
            (λ enforces. enforce_resource-IsBefore r _ _ _ enforces before (after ok_check)))

  apply_resource-IsBefore :
      (r : ConfigResource) (c : Compliance) (s : Task)
      → After [] r c
      → IsBefore p.validation_mode r (apply_resource env p r c s).compliance
  unfolding apply_resource
  apply_resource-IsBefore r c s a =
      let (on_error, on_ok) =
        validate_config_resource-After env p.validation_mode r s.tick (new_res r) c a in
      if-split (λ (x : Applied). IsBefore p.validation_mode r x.compliance)
        (validate_config_resource env s.tick r (new_res r) c).has_error on_error
        (λ fine_end. check_resource-IsBefore r _ _ _ (on_ok fine_end))

  -- A record that no step has touched.
  abbrev Fresh : ConfigResource → Compliance → Type 0
  Fresh r c = c ≡ base_compliance r

  Fresh-IsBefore :
      (r : ConfigResource) (c : Compliance) → Fresh r c → IsBefore p.validation_mode r c
  Fresh-IsBefore r c e = subst (λ c. IsBefore p.validation_mode r c) (sym e) (refl, untouched)

  run_resources-IsBefore :
      (rs : List ConfigResource) (cs : List Compliance) (s : Task)
      → Zip Fresh rs cs
      → Zip (IsBefore p.validation_mode) rs (run_resources env p rs cs s).0
  unfolding run_resources
  run_resources-IsBefore [] [] s z = tt
  run_resources-IsBefore [] (c ∷ cs) s z = absurd z
  run_resources-IsBefore (r ∷ rs) [] s z = absurd z
  run_resources-IsBefore (r ∷ rs) (c ∷ cs) s z =
      let one : IsBefore p.validation_mode r (apply_resource env p r c s).compliance =
        apply_resource-IsBefore r c s (subst (After [] r) (sym z.0) (refl, refl)) in
      if-split (λ (x : List Compliance × Task). Zip (IsBefore p.validation_mode) (r ∷ rs) x.0)
        (apply_resource env p r c s).stops (λ _. (one, Zip-map rs cs Fresh-IsBefore z.1))
        (λ _. (one, run_resources-IsBefore rs cs _ z.1))

  post_check_found-IsLegal :
      (q : String) (r : ConfigResource) (c : Compliance) (s : Task) (o : Option Res)
      → IsBefore p.validation_mode r c
      → IsLegal p.validation_mode r (post_check_found env q r c s o).0
  unfolding post_check_found post_check_config_resource_state
  post_check_found-IsLegal q r c s none h = (h.0, as_is h.1)
  post_check_found-IsLegal q r c s (some res) h =
      if-split (λ (x : Stepped). IsLegal p.validation_mode r x.compliance) res.needs_post_check
        (λ _.
          elim (check_with-CheckEnd env p.validation_mode r desired_state_check_post_enforcement
            "Check state post enforcement" c.config_steps s.tick res c (h.0, refl)) [
              | inl (desired, fine_end, (id, ss), st) ↦ (id, rw (ss, st) (post_ok desired h.1))
              | inr (m, failed_end, l, (id, ss), st) ↦ (id, rw (ss, st) (post_failed m l h.1))
            ])
        (λ _. (h.0, as_is h.1))

  post_check_entry-IsLegal :
      (q : String) (r : ConfigResource) (c : Compliance) (s : Task) (o : Option (Dict Res))
      → IsBefore p.validation_mode r c
      → IsLegal p.validation_mode r (post_check_entry env q o r c s).0
  unfolding post_check_entry
  post_check_entry-IsLegal q r c s none h = (h.0, as_is h.1)
  post_check_entry-IsLegal q r c s (some plcy) h = post_check_found-IsLegal q r c s _ h

  post_check_resources-IsLegal :
      (q : String) (rs : List ConfigResource) (cs : List Compliance) (s : Task)
      → Zip (IsBefore p.validation_mode) rs cs
      → Zip (IsLegal p.validation_mode) rs (post_check_resources env q rs cs s).0
  unfolding post_check_resources
  post_check_resources-IsLegal q [] [] s z = tt
  post_check_resources-IsLegal q [] (c ∷ cs) s z = absurd z
  post_check_resources-IsLegal q (r ∷ rs) [] s z = absurd z
  post_check_resources-IsLegal q (r ∷ rs) (c ∷ cs) s z = (
    post_check_entry-IsLegal q r c s (lookup q s.policies) z.0,
    post_check_resources-IsLegal q rs cs _ z.1,
  )

-- The result of a policy: of its id, with a record for each of its resources.
abbrev pub ResultOf :
    (Bool → ConfigResource → Compliance → Type 0) → OsPolicy → PolicyResult → Type 0
ResultOf R p x = (x.policy_id ≡ p.id) × Zip (R p.validation_mode) p.resources x.compliances

module _ (env : Env) where
  abbrev FreshIn : Bool → ConfigResource → Compliance → Type 0
  FreshIn v r c = c ≡ base_compliance r

  generate_base_results-Fresh :
      (ps : List OsPolicy) → Zip (ResultOf FreshIn) ps (generate_base_results ps)
  generate_base_results-Fresh [] = tt
  generate_base_results-Fresh (p ∷ ps) =
      ((refl, all_fresh p.resources), generate_base_results-Fresh ps)
    where
      all_fresh :
          (rs : List ConfigResource) → Zip (FreshIn p.validation_mode) rs (map base_compliance rs)
      all_fresh [] = tt
      all_fresh (r ∷ rs) = (refl, all_fresh rs)

  run_policies-IsBefore :
      (ps : List OsPolicy) (xs : List PolicyResult) (s : Task)
      → Zip (ResultOf FreshIn) ps xs
      → Zip (ResultOf IsBefore) ps (run_policies env ps xs s).0
  unfolding run_policies run_policy
  run_policies-IsBefore [] [] s z = tt
  run_policies-IsBefore [] (x ∷ xs) s z = absurd z
  run_policies-IsBefore (p ∷ ps) [] s z = absurd z
  run_policies-IsBefore (p ∷ ps) (x ∷ xs) s z = (
    (z.0.0, run_resources-IsBefore env p p.resources x.compliances _ z.0.1),
    run_policies-IsBefore ps xs _ z.1,
  )

  post_check_state-IsLegal :
      (ps : List OsPolicy) (xs : List PolicyResult) (s : Task)
      → Zip (ResultOf IsBefore) ps xs
      → Zip (ResultOf IsLegal) ps (post_check_state env ps xs s).0
  unfolding post_check_state
  post_check_state-IsLegal [] [] s z = tt
  post_check_state-IsLegal [] (x ∷ xs) s z = absurd z
  post_check_state-IsLegal (p ∷ ps) [] s z = absurd z
  post_check_state-IsLegal (p ∷ ps) (x ∷ xs) s z = (
    (z.0.0, post_check_resources-IsLegal env p p.id p.resources x.compliances s z.0.1),
    post_check_state-IsLegal ps xs _ z.1,
  )

  -- The policies of the task stay as they are.
  same-Kept : (ps : List OsPolicy) → Kept (λ p r. Unit) (λ s. s.os_policies ≡ ps)
  same-Kept ps = record {
    by_call = λ call p r res s fine e. e;
    by_tick = λ s e. e;
    by_mark = λ s e. e;
    by_policy = λ id s e. e;
    by_cleanup = λ p r x s e. e;
  }

  unit-Permitted : (ps : List OsPolicy) → All (Permitted (λ p r. Unit)) ps
  unit-Permitted ps = All-Member ps (λ q m e. All-Member q.resources (λ r m. tt))

  report_completed_state-log :
      (msg : String) (o : OutputState) (s : Task)
      → (report_completed_state env msg o s).1.log ≡ complete_sent o msg s.results ∷ s.log
  unfolding report_completed_state
  report_completed_state-log msg o s = ground arith

-- What a run reports at its end has one result for each policy, in order, with one record for each of
-- its resources. Each record has a legal trace: a validation, then a check, then an enforcement, each
-- made only after the one before it succeeded and no enforcement in VALIDATION mode, and at most one
-- post check; its state is COMPLIANT or NON_COMPLIANT only if the last step is a check that succeeded,
-- and UNKNOWN after every other step; messages have at most 512 bytes.
pub apply_policies-IsLegal :
    (env : Env) (ps : List OsPolicy) (s : Task)
    → s.os_policies ≡ ps
    → s.results ≡ generate_base_results ps
    → (xs : List PolicyResult) × (before : List Call) × ((apply_policies env s).1.log
        ≡ complete_sent succeeded "" xs ∷ before)
      × Zip (ResultOf IsLegal) ps xs
unfolding apply_policies
apply_policies-IsLegal env ps s e base =
    let s0 : Task = record s { policies = [] } in
    let ran : Zip (ResultOf IsBefore) ps (run_policies env s.os_policies s.results s0).0 =
      subst (λ xs. Zip (ResultOf IsBefore) ps (run_policies env s.os_policies xs s0).0) (sym base)
        (subst
          (λ qs. Zip (ResultOf IsBefore) ps (run_policies env qs (generate_base_results ps) s0).0)
          (sym e)
          (run_policies-IsBefore env ps (generate_base_results ps) s0
            (generate_base_results-Fresh env ps))) in
    let same : (run_policies env s.os_policies s.results s0).1.os_policies ≡ ps =
      run_policies-Kept env (λ p r. Unit) _ (same-Kept env ps) s.os_policies s.results s0
        (unit-Permitted env s.os_policies) e in
    let legal : (qs : List OsPolicy)
        → qs ≡ ps
        → Zip (ResultOf IsLegal) ps
            (post_check_state env qs (run_policies env s.os_policies s.results s0).0
              (run_policies env s.os_policies s.results s0).1).0 =
      λ qs d.
        subst
          (λ qs.
            Zip (ResultOf IsLegal) ps
              (post_check_state env qs (run_policies env s.os_policies s.results s0).0
                (run_policies env s.os_policies s.results s0).1).0)
          (sym d) (post_check_state-IsLegal env ps _ _ ran) in
    (_, _, report_completed_state-log env "" succeeded _, legal _ same)
