-- ===== src/ConfigTask/Loops.antt =====
-- A property of the task that its calls keep is kept by the loops of agentendpoint/config_task.go.
use osconfig.Base.{
  ◌+◌, ◌≡◌, String, false, Option, none, some, List, [], ◌∷◌, All, if-split, Option-cases, inl, inr,
  err, panicked, ok, Result,
}
use osconfig.Base.Dict.{Dict, lookup, insert}
use osconfig.Base.Actions.{resume, pure}
use osconfig.ConfigTask.{
  ConfigResource, OsPolicy, Compliance, PolicyResult, Res, Error, Call, progress_sent,
  complete_sent, validated, checked, enforced, post_checked, cleaned, Env, Task,
}
use osconfig.ConfigTask.Resources.{
  validate_config_resource, check_config_resource_state, enforce_config_resource_state,
}
use osconfig.ConfigTask.Apply.{
  note_enforced, Applied, new_res, logged, mark_post_check_required, record_output,
  enforce_resource, check_resource, apply_resource, run_resources, run_policy, run_policies,
}
use osconfig.ConfigTask.Run.{
  post_check_found, post_check_entry, post_check_resources, post_check_state, clean_resources,
  cleanup_policies,
}

-- The calls that the loops make; `Ok` are the resources that may be enforced.
abbrev pub Fine : (String → String → Type 0) → Call → Type 0
Fine Ok (progress_sent p) = ⊥
Fine Ok (complete_sent o m rs) = ⊥
Fine Ok (enforced p r) = Ok p r
Fine Ok _ = Unit

abbrev pub Permitted : (String → String → Type 0) → OsPolicy → Type 0
Permitted Ok p = p.validation_mode ≡ false → All (λ r. Ok p.id r.id) p.resources

-- What the property has to stand: a call logged, a tick, a marking, a new policy, a cleanup.
pub record Kept (Ok : String → String → Type 0) (P : Task → Type 0) : Type 0 where
  pub by_call :
      (call : Call) (p r : String) (res : Res) (s : Task)
      → Fine Ok call
      → P s
      → P (logged call p r res s)
  pub by_tick : (s : Task) → P s → P (record s { tick = s.tick + 1 })
  pub by_mark :
      (s : Task)
      → P s
      → P (record s { policies = mark_post_check_required s.os_policies s.policies })
  pub by_policy :
      (id : String) (s : Task) → P s → P (record s { policies = insert id [] s.policies })
  pub by_cleanup :
      (p r : String) (e : Option String) (s : Task)
      → P s
      → P (record s { log = cleaned p r e ∷ s.log; tick = s.tick + 1 })

module _ (env : Env) (Ok : String → String → Type 0) (P : Task → Type 0) (k : Kept Ok P) where
  enforce_resource-Kept :
      (p : OsPolicy) (r : ConfigResource) (res : Res) (c : Compliance) (s : Task)
      → Ok p.id r.id
      → P s
      → P (enforce_resource env p r res c s).task
  unfolding enforce_resource record_output note_enforced
  enforce_resource-Kept p r res c s allowed h = k.by_tick _ (
      if-split P (enforce_config_resource_state env s.tick r res c).0
        (λ _. k.by_mark _ (k.by_call (enforced p.id r.id) p.id r.id _ s allowed h)) (λ _. h))

  check_resource-Kept :
      (p : OsPolicy) (r : ConfigResource) (res : Res) (c : Compliance) (s : Task)
      → (p.validation_mode ≡ false → Ok p.id r.id)
      → P s
      → P (check_resource env p r res c s).task
  unfolding check_resource
  check_resource-Kept p r res c s allowed h =
      let checks : (res' : Res) → P (logged (checked p.id r.id) p.id r.id res' s) =
        λ res'. k.by_call (checked p.id r.id) p.id r.id res' s tt h in
      if-split (λ (a : Applied). P a.task)
        (check_config_resource_state env s.tick r res c).has_error (λ _. checks _)
        (λ _.
          if-split (λ (a : Applied). P a.task) p.validation_mode (λ _. checks _)
            (λ enforces. enforce_resource-Kept p r _ _ _ (allowed enforces) (checks _)))

  apply_resource-Kept :
      (p : OsPolicy) (r : ConfigResource) (c : Compliance) (s : Task)
      → (p.validation_mode ≡ false → Ok p.id r.id)
      → P s
      → P (apply_resource env p r c s).task
  unfolding apply_resource
  apply_resource-Kept p r c s allowed h =
      let validates : (res' : Res) → P (logged (validated p.id r.id) p.id r.id res' s) =
        λ res'. k.by_call (validated p.id r.id) p.id r.id res' s tt h in
      if-split (λ (a : Applied). P a.task)
        (validate_config_resource env s.tick r (new_res r) c).has_error (λ _. validates _)
        (λ _. check_resource-Kept p r _ _ _ allowed (validates _))

  pub run_resources-Kept :
      (p : OsPolicy) (rs : List ConfigResource) (cs : List Compliance) (s : Task)
      → (p.validation_mode ≡ false → All (λ r. Ok p.id r.id) rs)
      → P s
      → P (run_resources env p rs cs s).1
  unfolding run_resources
  run_resources-Kept p [] cs s allowed h = h
  run_resources-Kept p (r ∷ rs) [] s allowed h = h
  run_resources-Kept p (r ∷ rs) (c ∷ cs) s allowed h =
      let one = apply_resource-Kept p r c s (λ e. (allowed e).0) h in
      if-split (λ (x : List Compliance × Task). P x.1) (apply_resource env p r c s).stops (λ _. one)
        (λ _. run_resources-Kept p rs cs _ (λ e. (allowed e).1) one)

  pub run_policy-Kept :
      (p : OsPolicy) (x : PolicyResult) (s : Task)
      → Permitted Ok p
      → P s
      → P (run_policy env p x s).1
  unfolding run_policy
  run_policy-Kept p x s allowed h =
      run_resources-Kept p p.resources x.compliances _ allowed (k.by_policy p.id s h)

  pub run_policies-Kept :
      (ps : List OsPolicy) (xs : List PolicyResult) (s : Task)
      → All (Permitted Ok) ps
      → P s
      → P (run_policies env ps xs s).1
  unfolding run_policies
  run_policies-Kept [] xs s allowed h = h
  run_policies-Kept (p ∷ ps) [] s allowed h = h
  run_policies-Kept (p ∷ ps) (x ∷ xs) s allowed h =
      run_policies-Kept ps xs _ allowed.1 (run_policy-Kept p x s allowed.0 h)

  post_check_entry-Kept :
      (p : String) (e : Option (Dict Res)) (r : ConfigResource) (c : Compliance) (s : Task)
      → P s
      → P (post_check_entry env p e r c s).1
  unfolding post_check_entry post_check_found
  post_check_entry-Kept p none r c s h = h
  post_check_entry-Kept p (some plcy) r c s h = post_check_found-Kept (lookup r.id plcy)
    where
      post_check_found-Kept : (o : Option Res) → P (post_check_found env p r c s o).1
      post_check_found-Kept none = h
      post_check_found-Kept (some res) =
          if-split P res.needs_post_check (λ _. k.by_call (post_checked p r.id) p r.id _ s tt h)
            (λ _. h)

  post_check_resources-Kept :
      (p : String) (rs : List ConfigResource) (cs : List Compliance) (s : Task)
      → P s
      → P (post_check_resources env p rs cs s).1
  unfolding post_check_resources
  post_check_resources-Kept p [] cs s h = h
  post_check_resources-Kept p (r ∷ rs) [] s h = h
  post_check_resources-Kept p (r ∷ rs) (c ∷ cs) s h =
      post_check_resources-Kept p rs cs _ (post_check_entry-Kept p (lookup p s.policies) r c s h)

  pub post_check_state-Kept :
      (ps : List OsPolicy) (xs : List PolicyResult) (s : Task)
      → P s
      → P (post_check_state env ps xs s).1
  unfolding post_check_state
  post_check_state-Kept [] xs s h = h
  post_check_state-Kept (p ∷ ps) [] s h = h
  post_check_state-Kept (p ∷ ps) (x ∷ xs) s h =
      post_check_state-Kept ps xs _ (post_check_resources-Kept p.id p.resources x.compliances s h)

  pub clean_resources-Kept :
      (p : String) (rs : List ConfigResource) (s : Task) → P s → P (clean_resources env p rs s).1
  unfolding clean_resources
  clean_resources-Kept p [] s h = h
  clean_resources-Kept p (r ∷ rs) s h = elim (Option-cases (lookup p s.policies)) [
    | inl e ↦ rw (e, clean_resources) h
    | inr (plcy, e) ↦ elim (Option-cases (lookup r.id plcy)) [
      | inl e' ↦ rw (e, e', clean_resources) (clean_resources-Kept p rs s h)
      | inr (res, e') ↦
          rw (e, e', clean_resources) (clean_resources-Kept p rs _ (k.by_cleanup p r.id _ s h))
    ]
  ]

  pub cleanup_policies-Kept :
      (ps : List OsPolicy) (s : Task) → P s → P (cleanup_policies env ps s).1
  unfolding cleanup_policies
  cleanup_policies-Kept [] s h = h
  cleanup_policies-Kept (p ∷ ps) s h =
      after (λ s'. cleanup_policies-Kept ps s') (clean_resources env p.id p.resources s).0 _
        (clean_resources-Kept p.id p.resources s h)
    where
      after :
          ((s' : Task) → P s' → P (cleanup_policies env ps s').1)
          → (r : Result Error (Unit {0})) (s' : Task) → P s'
          → P (resume (λ _. pure tt) (λ _. cleanup_policies env ps) r s').1
      after rest (ok a) s' h' = rest s' h'
      after rest (err e) s' h' = h'
      after rest (panicked t) s' h' = h'
