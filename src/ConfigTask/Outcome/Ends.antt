-- ===== src/ConfigTask/Outcome/Ends.antt =====
-- What a run of agentendpoint/config_task.go leaves before its deferred cleanup.
use mathlib.Core.Path.{subst}
use osconfig.Base.{
  ℕ, suc, ◌+◌, ◌≡◌, refl, sym, ap, ◌∙◌, String, Bool, true, false, none, List, [], ◌∷◌, length, All,
  arith, Result, ok, err, panicked,
}
use osconfig.Base.Dict.{Dict}
use osconfig.Base.Actions.{resume}
use osconfig.ConfigTask.{
  OutputState, OsPolicy, PolicyResult, Res, ProgressState, started, applying_config, succeeded,
  Error, server_cancel, failure, continue, stop, Env, Task,
}
use osconfig.ConfigTask.Apply.{generate_base_results, run_policies}
use osconfig.ConfigTask.Loops.{Kept, Permitted, run_policies-Kept, post_check_state-Kept}
use osconfig.ConfigTask.Present.{AllPresent, run_policies-present, post_check_state-present}
use osconfig.ConfigTask.Run.{
  report_completed_state, handle_error_state, rcs_err_msg, last_sent, report_continuing_state,
  apply_policies, apply,
}
use osconfig.ConfigTask.Outcome.{enforceable, Inv, Inv-Kept, All-Permitted}

length-generate_base_results : (ps : List OsPolicy) → length ps ≡ length (generate_base_results ps)
length-generate_base_results [] = refl
length-generate_base_results (p ∷ ps) = ap suc (length-generate_base_results ps)

abbrev pub panics : {E A : Type 0} → Result E A → Bool
panics (panicked p) = true
panics _ = false

-- A report of the completion leaves the task with one completion, and with the policies it had.
pub record Closed (ps : List OsPolicy) (m : Dict (Dict Res)) (r : Result Error (Unit {0}))
    (s : Task) : Type 0 where
  pub inv : Inv ps 1 s
  pub calm : panics r ≡ false
  pub kept : s.policies ≡ m

-- The server lets the task go on at the report that is the call number `t`.
abbrev pub goes_on : Env → ℕ → Bool
goes_on env t = elim (env.report_progress t) [
  | ok d ↦ elim d [ continue ↦ true | stop ↦ false ]
  | _ ↦ false
]

-- No report of progress panics.
abbrev pub Calm : Env → Type 0
Calm env = (t : ℕ) → panics (env.report_progress t) ≡ false

abbrev is_ok : {E A : Type 0} → Result E A → Bool
is_ok (ok a) = true
is_ok _ = false

-- What a report of progress leaves.
pub record Sent (env : Env) (ps : List OsPolicy) (s : Task) (r : Result Error (Unit {0}))
    (s' : Task) : Type 0 where
  pub inv : Inv ps 0 s'
  pub calm : panics r ≡ false
  pub going : is_ok r ≡ goes_on env s.tick
  pub tick : s'.tick ≡ s.tick + 1
  pub kept : s'.policies ≡ s.policies
  pub base : s'.results ≡ s.results

module _ (env : Env) (ps : List OsPolicy) where
  pub report_completed_state-Closed :
      (msg : String) (o : OutputState) (s : Task)
      → Inv ps 0 s
      → Closed ps s.policies
          (report_completed_state env msg o s).0
          (report_completed_state env msg o s).1
  unfolding report_completed_state
  report_completed_state-Closed msg o s i = record {
    inv = record { same = ground arith; sent = ground arith; justified = ground arith };
    calm = ground arith;
    kept = ground arith;
  }

  pub handle_error_state-Closed :
      (msg : String) (e : Error) (s : Task)
      → Inv ps 0 s
      → Closed ps s.policies (handle_error_state env msg e s).0 (handle_error_state env msg e s).1
  unfolding handle_error_state
  handle_error_state-Closed msg server_cancel s i = report_completed_state-Closed _ _ s i
  handle_error_state-Closed msg (failure e) s i = report_completed_state-Closed _ _ s i

  pub report_continuing_state-Sent :
      (state : ProgressState) (s : Task)
      → Calm env
      → last_sent env state s ≡ none
      → Inv ps 0 s
      → Sent env ps s
          (report_continuing_state env state s).0
          (report_continuing_state env state s).1
  unfolding report_continuing_state
  report_continuing_state-Sent state s calm new i = record {
    inv = record { same = ground arith; sent = ground arith; justified = ground arith };
    calm = ground (arith, calm s.tick);
    going = ground arith;
    tick = ground arith;
    kept = ground arith;
    base = ground arith;
  }

  pub report_started-at_applying :
      (s : Task) → (report_continuing_state env started s).1.at_applying ≡ s.at_applying
  unfolding report_continuing_state
  report_started-at_applying s = ground arith

  -- What `run` leaves before its deferred call, by whether the second report went through: with it,
  -- every policy has an entry, and else none has.
  pub record Applied (going : Bool) (r : Result Error (Unit {0})) (s : Task) : Type 0 where
    pub inv : Inv ps 1 s
    pub calm : panics r ≡ false
    pub entries : (going ≡ true → AllPresent ps s) × (going ≡ false → s.policies ≡ [])

  apply_policies-Applied :
      (s : Task)
      → s.results ≡ generate_base_results ps
      → Inv ps 0 s
      → Applied true (apply_policies env s).0 (apply_policies env s).1
  unfolding apply_policies
  apply_policies-Applied s base i =
      let s0 : Task = record s { policies = [] } in
      let i0 : Inv ps 0 s0 = record { same = i.same; sent = i.sent; justified = i.justified } in
      let k : Kept (λ p r. enforceable ps p r ≡ true) (Inv ps 0) = Inv-Kept ps 0 in
      let ran : Inv ps 0 (run_policies env s.os_policies s.results s0).1 =
        run_policies-Kept env _ _ k s.os_policies s.results s0
          (subst (λ qs. All (Permitted (λ p r. enforceable ps p r ≡ true)) qs) (sym i.same)
            (All-Permitted ps))
          i0 in
      let present : AllPresent ps (run_policies env s.os_policies s.results s0).1 =
        subst (λ qs. AllPresent ps (run_policies env qs s.results s0).1) (sym i.same)
          (run_policies-present env ps s.results s0
            (rw (base) (length-generate_base_results ps))) in
      let done : Closed ps _ _ _ =
        report_completed_state-Closed "" succeeded _
          (after_checks (post_check_state-Kept env _ _ k _ _ _ ran)) in
      record {
        inv = done.inv;
        calm = done.calm;
        entries =
            (λ e. rw (done.kept) (post_check_state-present env ps _ _ _ present), λ e. absurd (cc));
      }
    where
      after_checks :
          {t : Task} {xs : List PolicyResult} → Inv ps 0 t → Inv ps 0 (record t { results = xs })
      after_checks j = record { same = j.same; sent = j.sent; justified = j.justified }

  pub apply-Applied :
      (s : Task)
      → Calm env
      → s.at_applying ≡ none
      → s.policies ≡ []
      → s.results ≡ generate_base_results ps
      → Inv ps 0 s
      → Applied (goes_on env s.tick) (apply env s).0 (apply env s).1
  unfolding apply
  apply-Applied s calm new none_yet base i =
      after _ _ (report_continuing_state-Sent applying_config s calm new i)
    where
      after :
          (r : Result Error (Unit {0})) (s' : Task)
          → Sent env ps s r s'
          → Applied
              (goes_on env s.tick)
              (resume (handle_error_state env (rcs_err_msg env)) (λ _. apply_policies env) r s').0
              (resume (handle_error_state env (rcs_err_msg env)) (λ _. apply_policies env) r s').1
      after (ok a) s' z =
          subst (λ g. Applied g (apply_policies env s').0 (apply_policies env s').1) z.going
            (apply_policies-Applied s' (z.base ∙ base) z.inv)
      after (err e) s' z =
          let h : Closed ps _ _ _ = handle_error_state-Closed (rcs_err_msg env) e s' z.inv in
          record {
            inv = h.inv;
            calm = h.calm;
            entries = (λ g. absurd (cc), λ g. h.kept ∙ (z.kept ∙ none_yet));
          }
      after (panicked p) s' z = absurd (cc)
