-- ===== src/ConfigTask/Mark.antt =====
-- `markPostCheckRequired` of agentendpoint/config_task.go against a description of what it marks.
use osconfig.Base.{
  ◌≡◌, refl, ap, String, Bool, true, false, ◌&&◌, ◌||◌, Option, none, some, List, [], ◌∷◌, any,
  ◌==◌, if◌then◌else◌, String-discrete, Option-cases, inl, inr, arith,
}
use osconfig.Base.Dict.{Dict, lookup, lookup-insert}
use osconfig.ConfigTask.{ConfigResource, OsPolicy, Res}
use osconfig.ConfigTask.Apply.{mark_resource, mark_resources, mark_policy, mark_post_check_required}

abbrev pub marked : Res → Res
marked res = if res.validate_or_check_error then res else record res { needs_post_check = true }

abbrev pub lists : List ConfigResource → String → Bool
lists rs r = any (λ (x : ConfigResource). x.id == r) rs

-- What the entry of a resource becomes, by whether it is one of those to mark.
abbrev pub marked_if : Bool → Option Res → Option Res
marked_if false o = o
marked_if true none = none
marked_if true (some res) = some (marked res)

marked_if-twice : (a b : Bool) (o : Option Res) → marked_if b (marked_if a o) ≡ marked_if (a || b) o
marked_if-twice a b o = ground arith

mark_resource-lookup :
    (x : ConfigResource) (m : Dict Res) (r : String)
    → lookup r (mark_resource x m) ≡ marked_if (x.id == r) (lookup r m)
unfolding mark_resource
mark_resource-lookup x m r = elim (String-discrete x.id r) [
  | yes e ↦ elim (Option-cases (lookup x.id m)) [
    | inl none_there ↦ ground (arith, ap (λ k. lookup k m) e)
    | inr (res, found) ↦ ground (
      arith,
      ap (λ k. lookup k m) e,
      lookup-insert x.id r (record res { needs_post_check = true }) m,
    )
  ]
  | no ne ↦ elim (Option-cases (lookup x.id m)) [
    | inl none_there ↦ ground arith
    | inr (res, found) ↦
        ground (arith, lookup-insert x.id r (record res { needs_post_check = true }) m)
  ]
]

mark_resources-lookup :
    (rs : List ConfigResource) (m : Dict Res) (r : String)
    → lookup r (mark_resources rs m) ≡ marked_if (lists rs r) (lookup r m)
unfolding mark_resources
mark_resources-lookup [] m r = refl
mark_resources-lookup (x ∷ rs) m r =
    rw (mark_resources-lookup rs (mark_resource x m) r, mark_resource-lookup x m r)
      (marked_if-twice (x.id == r) (lists rs r) (lookup r m))

-- The entry of a resource of a policy.
abbrev pub entry : String → String → Dict (Dict Res) → Option Res
entry p r m = elim (lookup p m) [ none ↦ none | some plcy ↦ lookup r plcy ]

mark_policy-entry :
    (q : OsPolicy) (m : Dict (Dict Res)) (p r : String)
    → entry p r (mark_policy q m) ≡ marked_if (q.id == p && lists q.resources r) (entry p r m)
unfolding mark_policy
mark_policy-entry q m p r = elim (String-discrete q.id p) [
  | yes e ↦ elim (Option-cases (lookup q.id m)) [
    | inl none_there ↦ ground (arith, ap (λ k. lookup k m) e)
    | inr (plcy, found) ↦ ground (
      arith,
      ap (λ k. lookup k m) e,
      lookup-insert q.id p (mark_resources q.resources plcy) m,
      mark_resources-lookup q.resources plcy r,
    )
  ]
  | no ne ↦ elim (Option-cases (lookup q.id m)) [
    | inl none_there ↦ ground arith
    | inr (plcy, found) ↦ ground (arith, lookup-insert q.id p (mark_resources q.resources plcy) m)
  ]
]

-- After a marking, the entry of a resource of a policy is the one before, marked if some policy of
-- that id lists a resource of that id and the entry has no error of a validation or a check, and else
-- unchanged; no entry comes or goes.
pub mark_post_check_required_lem :
    (qs : List OsPolicy) (m : Dict (Dict Res)) (p r : String)
    → entry p r (mark_post_check_required qs m)
      ≡ marked_if (any (λ (q : OsPolicy). q.id == p && lists q.resources r) qs) (entry p r m)
unfolding mark_post_check_required
mark_post_check_required_lem [] m p r = refl
mark_post_check_required_lem (q ∷ qs) m p r =
    rw (mark_post_check_required_lem qs (mark_policy q m) p r, mark_policy-entry q m p r)
      (marked_if-twice _ _ (entry p r m))
