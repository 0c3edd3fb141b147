-- ===== src/ConfigTask/Apply.antt =====
-- The loop over policies and resources of `run` in agentendpoint/config_task.go.
use osconfig.Base.{◌+◌, String, Bool, true, false, none, some, List, [], ◌∷◌, map, if◌then◌else◌}
use osconfig.Base.Dict.{Dict, lookup, insert}
use osconfig.Config.{new_resource, populate_output}
use osconfig.ConfigTask.{
  ConfigResource, OsPolicy, unspecified, Compliance, PolicyResult, Res, Call, validated, checked,
  enforced, Env, Task,
}
use osconfig.ConfigTask.Resources.{
  validate_config_resource, check_config_resource_state, enforce_config_resource_state,
}

-- `res` is a pointer into the map of the policy: what it is now goes into the map.
unfoldable pub put_res : String → String → Res → Dict (Dict Res) → Dict (Dict Res)
put_res p r res m = elim (lookup p m) [ none ↦ m | some plcy ↦ insert p (insert r res plcy) m ]

-- One call in the log, with the resource it was made on put back.
abbrev pub logged : Call → String → String → Res → Task → Task
logged call p r res s = record s {
  log = call ∷ s.log;
  tick = s.tick + 1;
  policies = put_res p r res s.policies;
}

unfoldable pub mark_resource : ConfigResource → Dict Res → Dict Res
mark_resource r m = elim (lookup r.id m) [
  | none ↦ m
  | some res ↦
      if res.validate_or_check_error
      then m
      else insert r.id (record res { needs_post_check = true }) m
]

unfoldable pub mark_resources : List ConfigResource → Dict Res → Dict Res
mark_resources [] m = m
mark_resources (r ∷ rs) m = mark_resources rs (mark_resource r m)

unfoldable pub mark_policy : OsPolicy → Dict (Dict Res) → Dict (Dict Res)
mark_policy p m = elim (lookup p.id m) [
  | none ↦ m
  | some plcy ↦ insert p.id (mark_resources p.resources plcy) m
]

-- `markPostCheckRequired`
unfoldable pub mark_post_check_required : List OsPolicy → Dict (Dict Res) → Dict (Dict Res)
mark_post_check_required [] m = m
mark_post_check_required (p ∷ ps) m = mark_post_check_required ps (mark_policy p m)

abbrev pub base_compliance : ConfigResource → Compliance
base_compliance r = record {
  resource_id = r.id;
  config_steps = [];
  state = unspecified;
  output = none;
}

-- `generateBaseResults`
abbrev pub generate_base_results : List OsPolicy → List PolicyResult
generate_base_results [] = []
generate_base_results (p ∷ ps) =
    record { policy_id = p.id; compliances = map base_compliance p.resources }
    ∷ generate_base_results ps

-- What the body of the loop over resources leaves, and whether it breaks out.
pub record Applied : Type 0 where
  pub stops : Bool
  pub compliance : Compliance
  pub task : Task

-- The entry of a resource as it is created.
abbrev pub new_res : ConfigResource → Res
new_res r = record {
  iface = new_resource r.resource_type;
  needs_post_check = false;
  validate_or_check_error = false;
}

abbrev serious : Res → Res
serious res = record res { validate_or_check_error = true }

module _ (env : Env) where
  -- `res.PopulateOutput(rCompliance)`: its error is dropped.
  unfoldable pub record_output : Bool → Res → Compliance → Task → Applied
  record_output stops res c s = record {
    stops = stops;
    compliance = elim (populate_output env.backend s.tick res.iface).1 [
      | none ↦ c
      | some text ↦ record c { output = some text }
    ];
    task = record s { tick = s.tick + 1 };
  }

  -- An action taken: it is logged, and the resources so far are marked.
  unfoldable pub note_enforced : OsPolicy → ConfigResource → Res → Task → Task
  note_enforced p r res s =
      let s' = logged (enforced p.id r.id) p.id r.id res s in
      record s' { policies = mark_post_check_required s'.os_policies s'.policies }

  -- The part of the body after the checks. The marking and the output come also where the
  -- enforcement failed.
  unfoldable pub enforce_resource : OsPolicy → ConfigResource → Res → Compliance → Task → Applied
  enforce_resource p r res c s =
      let (taken, en) = enforce_config_resource_state env s.tick r res c in
      record_output en.has_error en.res en.compliance
        (if taken then note_enforced p r en.res s else s)

  -- The part from the check on: in VALIDATION mode it ends there.
  unfoldable pub check_resource : OsPolicy → ConfigResource → Res → Compliance → Task → Applied
  check_resource p r res c s =
      let ch = check_config_resource_state env s.tick r res c in
      if ch.has_error
      then record {
        stops = true;
        compliance = ch.compliance;
        task = logged (checked p.id r.id) p.id r.id (serious ch.res) s;
      }
      else let s' = logged (checked p.id r.id) p.id r.id ch.res s in
        if p.validation_mode
        then record { stops = false; compliance = ch.compliance; task = s' }
        else enforce_resource p r ch.res ch.compliance s'

  -- The body of the loop over resources.
  unfoldable pub apply_resource : OsPolicy → ConfigResource → Compliance → Task → Applied
  apply_resource p r c s =
      let va = validate_config_resource env s.tick r (new_res r) c in
      if va.has_error
      then record {
        stops = true;
        compliance = va.compliance;
        task = logged (validated p.id r.id) p.id r.id (serious va.res) s;
      }
      else check_resource p r va.res va.compliance (logged (validated p.id r.id) p.id r.id va.res s)

  -- The loop over the resources of one policy, each with its compliance.
  unfoldable pub run_resources :
      OsPolicy → List ConfigResource → List Compliance → Task → List Compliance × Task
  run_resources p [] cs s = (cs, s)
  run_resources p (r ∷ rs) [] s = ([], s)
  run_resources p (r ∷ rs) (c ∷ cs) s =
      let a = apply_resource p r c s in
      let rest = run_resources p rs cs a.task in
      if a.stops then (a.compliance ∷ cs, a.task) else (a.compliance ∷ rest.0, rest.1)

  -- The body of the loop over policies: a new entry in the map of policies, then its resources.
  unfoldable pub run_policy : OsPolicy → PolicyResult → Task → PolicyResult × Task
  run_policy p x s =
      let (cs, s') =
        run_resources p p.resources x.compliances
          (record s { policies = insert p.id [] s.policies }) in
      (record x { compliances = cs }, s')

  -- The loop over policies, each with its result.
  unfoldable pub run_policies : List OsPolicy → List PolicyResult → Task → List PolicyResult × Task
  run_policies [] xs s = (xs, s)
  run_policies (p ∷ ps) [] s = ([], s)
  run_policies (p ∷ ps) (x ∷ xs) s =
      let (x', s') = run_policy p x s in let (rest, s'') = run_policies ps xs s' in (x' ∷ rest, s'')
