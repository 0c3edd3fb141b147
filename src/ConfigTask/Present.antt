-- ===== src/ConfigTask/Present.antt =====
-- Every policy has its entry once the loop over policies is over, and with the entries there the
-- cleanup of agentendpoint/config_task.go does not panic.
use osconfig.Base.{
  ◌≡◌, refl, String, Bool, true, false, ◌||◌, none, some, List, [], ◌∷◌, All, All-map, any,
  is_empty, not, ◌==◌, ==_refl, if◌then◌else◌, Option-cases, Bool-cases, inl, inr, arith, ok,
  panicked, length,
}
use osconfig.Base.Dict.{Dict, lookup, insert, lookup-insert}
use osconfig.ConfigTask.{ConfigResource, OsPolicy, PolicyResult, Res, Env, Task}
use osconfig.ConfigTask.Apply.{
  put_res, mark_resources, mark_policy, mark_post_check_required, run_policy, run_policies,
}
use osconfig.ConfigTask.Loops.{
  Kept, run_resources-Kept, run_policies-Kept, clean_resources-Kept, post_check_state-Kept,
}
use osconfig.ConfigTask.Run.{post_check_state, nil_pointer, clean_resources, cleanup_policies}

module _ {V : Type 0} where
  abbrev pub has : String → Dict V → Bool
  has k m = elim (lookup k m) [ none ↦ false | some v ↦ true ]

  has-insert : (k j : String) (v : V) (m : Dict V) → has j (insert k v m) ≡ (k == j || has j m)
  has-insert k j v m = ground (arith, lookup-insert k j v m)

  insert-has : (q k : String) (v : V) (m : Dict V) → has q m ≡ true → has q (insert k v m) ≡ true
  insert-has q k v m h = ground (arith, has-insert k q v m)

abbrev pub has_resources : OsPolicy → Bool
has_resources p = not (is_empty p.resources)

-- An entry stays where a resource is put back, and where resources are marked.
put_res-has :
    (q p r : String) (res : Res) (m : Dict (Dict Res))
    → has q m ≡ true
    → has q (put_res p r res m) ≡ true
unfolding put_res
put_res-has q p r res m h = elim (Option-cases (lookup p m)) [
  | inl e ↦ rw (e, put_res) h
  | inr (plcy, e) ↦ rw (e, put_res) (insert-has q p (insert r res plcy) m h)
]

mark_post_check_required-has :
    (q : String) (ps : List OsPolicy) (m : Dict (Dict Res))
    → has q m ≡ true
    → has q (mark_post_check_required ps m) ≡ true
unfolding mark_post_check_required mark_policy
mark_post_check_required-has q [] m h = h
mark_post_check_required-has q (p ∷ ps) m h = mark_post_check_required-has q ps _ marked
  where
    marked : has q (mark_policy p m) ≡ true
    marked = elim (Option-cases (lookup p.id m)) [
      | inl e ↦ rw (e, mark_policy) h
      | inr (plcy, e) ↦
          rw (e, mark_policy) (insert-has q p.id (mark_resources p.resources plcy) m h)
    ]

abbrev pub AllPresent : List OsPolicy → Task → Type 0
AllPresent ps s = All (λ (p : OsPolicy). has p.id s.policies ≡ true) ps

abbrev Anything : String → String → Type 0
Anything p r = Unit

has-Kept : (q : String) → Kept Anything (λ s. has q s.policies ≡ true)
has-Kept q = record {
  by_call = λ call p r res s fine h. put_res-has q p r res s.policies h;
  by_tick = λ s h. h;
  by_mark = λ s h. mark_post_check_required-has q s.os_policies s.policies h;
  by_policy = λ id s h. ground (arith, has-insert id q [] s.policies);
  by_cleanup = λ p r e s h. h;
}

AllPresent-Kept : (ps : List OsPolicy) → Kept Anything (AllPresent ps)
AllPresent-Kept ps = record {
  by_call = λ call p r res s fine. All-map ps (λ q. (has-Kept q.id).by_call call p r res s fine);
  by_tick = λ s. All-map ps (λ q. (has-Kept q.id).by_tick s);
  by_mark = λ s. All-map ps (λ q. (has-Kept q.id).by_mark s);
  by_policy = λ id s. All-map ps (λ q. (has-Kept q.id).by_policy id s);
  by_cleanup = λ p r e s. All-map ps (λ q. (has-Kept q.id).by_cleanup p r e s);
}

All-unit : {A : Type 0} (xs : List A) → All (λ _. Unit {0}) xs
All-unit [] = tt
All-unit (x ∷ xs) = (tt, All-unit xs)

permitted :
    (ps : List OsPolicy)
    → All (λ (p : OsPolicy). p.validation_mode ≡ false → All (λ _. Unit {0}) p.resources) ps
permitted [] = tt
permitted (p ∷ ps) = (λ _. All-unit p.resources, permitted ps)

module _ (env : Env) where
  run_policy-present :
      (p : OsPolicy) (x : PolicyResult) (s : Task)
      → has p.id (run_policy env p x s).1.policies ≡ true
  unfolding run_policy
  run_policy-present p x s =
      run_resources-Kept env Anything _ (has-Kept p.id) p p.resources x.compliances _
        (λ _. All-unit p.resources)
        (ground (arith, has-insert p.id p.id [] s.policies, ==_refl p.id))

  pub run_policies-present :
      (ps : List OsPolicy) (xs : List PolicyResult) (s : Task)
      → length ps ≡ length xs
      → AllPresent ps (run_policies env ps xs s).1
  unfolding run_policies
  run_policies-present [] xs s e = tt
  run_policies-present (p ∷ ps) [] s e = absurd (ground arith)
  run_policies-present (p ∷ ps) (x ∷ xs) s e =
      let s' : Task = (run_policy env p x s).1 in
      (
        run_policies-Kept env Anything _ (has-Kept p.id) ps xs s' (permitted ps)
            (run_policy-present p x s),
        run_policies-present ps xs s' (omega arith),
      )

  clean_resources-ok :
      (p : String) (rs : List ConfigResource) (s : Task)
      → has p s.policies ≡ true
      → (clean_resources env p rs s).0 ≡ ok tt
  unfolding clean_resources
  clean_resources-ok p [] s h = refl
  clean_resources-ok p (r ∷ rs) s h = elim (Option-cases (lookup p s.policies)) [
    | inl e ↦ absurd (ground arith)
    | inr (plcy, e) ↦ elim (Option-cases (lookup r.id plcy)) [
      | inl e' ↦ rw (e, e', clean_resources) (clean_resources-ok p rs s h)
      | inr (res, e') ↦ rw (e, e', clean_resources) (clean_resources-ok p rs _ h)
    ]
  ]

  pub cleanup_policies-ok :
      (ps : List OsPolicy) (s : Task) → AllPresent ps s → (cleanup_policies env ps s).0 ≡ ok tt
  unfolding cleanup_policies
  cleanup_policies-ok [] s h = refl
  cleanup_policies-ok (p ∷ ps) s h = rw (clean_resources-ok p.id p.resources s h.0) (
      cleanup_policies-ok ps _
        (clean_resources-Kept env Anything _ (AllPresent-Kept ps) p.id p.resources s h.1))

  -- With no entry at all the first resource makes it panic.
  clean_resources-nil :
      (p : OsPolicy) (s : Task)
      → s.policies ≡ []
      → (clean_resources env p.id p.resources s).0
        ≡ (if has_resources p then panicked nil_pointer else ok tt)
  unfolding clean_resources lookup
  clean_resources-nil p s e =
      elim p.resources
        as (λ rs.
          (clean_resources env p.id rs s).0
          ≡ (if not (is_empty rs) then panicked nil_pointer else ok tt)) [
            | [] ↦ refl
            | r ∷ rs ↦ ground (arith, e)
          ]

  clean_resources-policies :
      (p : String) (rs : List ConfigResource) (s : Task)
      → s.policies ≡ []
      → (clean_resources env p rs s).1.policies ≡ []
  unfolding clean_resources lookup
  clean_resources-policies p [] s e = e
  clean_resources-policies p (r ∷ rs) s e = ground (arith, e)

  pub cleanup_policies-nil :
      (ps : List OsPolicy) (s : Task)
      → s.policies ≡ []
      → (cleanup_policies env ps s).0
        ≡ (if any has_resources ps then panicked nil_pointer else ok tt)
  unfolding cleanup_policies
  cleanup_policies-nil [] s e = refl
  cleanup_policies-nil (p ∷ ps) s e = elim (Bool-cases (has_resources p)) [
    | inl h ↦ rw (clean_resources-nil p s e, h) refl
    | inr h ↦
        rw (clean_resources-nil p s e, h)
          (cleanup_policies-nil ps _ (clean_resources-policies p.id p.resources s e))
  ]

  pub post_check_state-present :
      (ps qs : List OsPolicy) (xs : List PolicyResult) (s : Task)
      → AllPresent ps s
      → AllPresent ps (post_check_state env qs xs s).1
  post_check_state-present ps qs xs s =
      post_check_state-Kept env Anything _ (AllPresent-Kept ps) qs xs s
