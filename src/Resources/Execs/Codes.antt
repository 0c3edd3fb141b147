-- ===== src/Resources/Execs/Codes.antt =====
-- What the exit codes of the commands of an exec resource mean.
use native.Mathlib.Decide.{ℕ_discrete}
use mathlib.Core.Path.{subst}
use Prim.Native.String.{len}
use osconfig.Base.{
  sym, ℕ, zero, suc, ◌≢◌, ◌⊎◌, ◌+◌, ◌≤◌, String, Bool, true, false, Option, none, some, ◌≡◌, ap,
  ◌∙◌, refl, ap, sym, ◌∙◌, arith, Option-cases, inl, inr,
}
use osconfig.Base.Int.{ℤ, pos, negsuc}
use osconfig.Base.Texts.{len-slice_le}
use osconfig.Resources.{World, CommandEnd, no_error, exited, not_run, Env}
use osconfig.Resources.Disk.{open_file, read}
use osconfig.Resources.Execs.{max_exec_output_size, Exec, ExecConfig, ExecResource}
use osconfig.Resources.Execs.Runs.{
  Verdict, conclude, no_code, correct, incorrect, unexpected, code_of, command, run, verdict,
  check_state, exec_output, output_path, enforce_state,
}

module _ (env : Env) where
  -- A resource runs a command if there is one and the system has its interpreter.
  pub record Runs (name : String) (exec : Option Exec) : Type 0 where
    pub the : Exec
    pub given : exec ≡ some the
    pub runnable : (command env name the).1 ≡ none

  -- How the command of a resource ends that runs at a tick.
  abbrev pub end_of : {name : String} {exec : Option Exec} → Runs name exec → ℕ → CommandEnd
  end_of {name} r n = env.run n (command env name r.the).0.0 (command env name r.the).0.1

  abbrev pub unexpected_check : Option String
  unexpected_check = some "unexpected return code from validate"

  -- The codes that are not read.
  abbrev pub Unread : CommandEnd → Type 0
  Unread no_error = Unit
  Unread (not_run t) = ⊥
  Unread (exited code t) = (code ≢ pos 100) × (code ≢ pos 101) × (code ≢ negsuc 0)

  -- What a check has to make of the end of its command.
  pub data Judged : CommandEnd → Bool × Option String → Type 0 where
    as_desired : (t : String) → Judged (exited (pos 100) t) (true, none)
    not_desired : (t : String) → Judged (exited (pos 101) t) (false, none)
    killed : (t : String) → Judged (exited (negsuc 0) t) (false, some t)
    not_started : (t : String) → Judged (not_run t) (false, some t)
    other_code : (end : CommandEnd) → Unread end → Judged end (false, unexpected_check)

  -- `checkState` by the end of its command.
  judge : CommandEnd → Bool × Option String
  unfolding verdict
  judge end = elim (verdict (code_of end).0) [
    | no_code ↦ (false, (code_of end).1)
    | correct ↦ (true, none)
    | incorrect ↦ (false, none)
    | unexpected ↦ (false, unexpected_check)
  ]

  judge-Judged : (end : CommandEnd) → Judged end (judge end)
  unfolding judge verdict
  judge-Judged no_error = other_code no_error tt
  judge-Judged (not_run t) = not_started t
  judge-Judged (exited (negsuc zero) t) = killed t
  judge-Judged (exited (negsuc (suc n)) t) =
      let eq : judge (exited (negsuc (suc n)) t) ≡ (false, unexpected_check) = ground arith in
      rw eq (other_code _ (λ e. cc, λ e. cc, λ e. cc))
  judge-Judged (exited (pos n) t) = elim (ℕ_discrete n 100) [
    | yes e ↦
        subst (λ m. Judged (exited (pos m) t) (judge (exited (pos m) t))) (sym e) (as_desired t)
    | no differs ↦ elim (ℕ_discrete n 101) [
      | yes e ↦
          subst (λ m. Judged (exited (pos m) t) (judge (exited (pos m) t))) (sym e) (not_desired t)
      | no differs' ↦
          let eq : judge (exited (pos n) t) ≡ (false, unexpected_check) = ground arith in
          rw eq (other_code _ (λ e. differs (cc), λ e. differs' (cc), λ e. cc))
    ]
  ]

  -- The output that an enforcement keeps: with no error, all that its file holds, and never much more
  -- than the bound.
  pub record Kept (path : String) (w : World) (end : (Option String × Option String) × World)
      : Type 0 where
    pub bounded : (out : String) → end.0.0 ≡ some out → len out ≤ max_exec_output_size + 1
    pub whole :
        (out : String) → end.0.1 ≡ none → end.0.0 ≡ some out → (len out ≤ max_exec_output_size)
    pub unchanged : end.1.disk ≡ w.disk

  exec_output-Kept : (path : String) (w : World) → Kept path w (exec_output env path w)
  unfolding exec_output open_file read
  exec_output-Kept path w = record {
    bounded = λ out e. ground (
      arith,
      len-slice_le (read env path (open_file env path w).1).0.text 512000,
      len-slice_le (read env path (open_file env path w).1).0.text 512001,
    );
    whole = λ out x e. ground arith;
    unchanged = ground arith;
  }

  -- Does a resource run its command? If not, its error is in the run, with the code zero.
  runs_or_not :
      (name : String) (exec : Option Exec) (w : World)
      → Runs name exec ⊎ ((e : String) × (run env name exec w ≡ ((pos 0, some e), w)))
  unfolding run
  runs_or_not name none w = inr ("ExecResource Exec cannot be nil", refl)
  runs_or_not name (some exec) w = elim (Option-cases (command env name exec).1) [
    | inl e ↦ inl (record { the = exec; given = refl; runnable = e })
    | inr (t, e) ↦ inr (t, ground arith)
  ]

  run_the :
      (name : String) (exec : Exec) (w : World)
      → (command env name exec).1 ≡ none
      → let (path, args) = (command env name exec).0 in
        run env name (some exec) w
        ≡ (code_of (env.run w.tick path args), record w { tick = w.tick + 1 })
  unfolding run
  run_the name exec w runnable = ground arith

  run_end :
      (name : String) (exec : Option Exec) (w : World) (r : Runs name exec)
      → run env name exec w ≡ (code_of (end_of r w.tick), record w { tick = w.tick + 1 })
  run_end name exec w r = ap (λ x. run env name x w) r.given ∙ run_the name r.the w r.runnable

  -- How a check ends: it has judged its command, or there was none to run.
  pub data Concluded (r : ExecConfig) (x : ExecResource) (w : World) (result : Bool × Option String)
      : Type 0 where
    ran :
        (runs : Runs x.validate_path r.validate_exec)
        → Judged (end_of runs w.tick) result
        → Concluded r x w result
    never_ran :
        (e : String)
        → run env x.validate_path r.validate_exec w ≡ ((pos 0, some e), w)
        → result ≡ (false, unexpected_check)
        → Concluded r x w result

  -- A check says what the exit code of its command means: 100 is the desired state, 101 is not, and
  -- anything else is an error. A command that cannot be run has the error of an unexpected code.
  pub check_state-Concluded :
      (r : ExecConfig) (x : ExecResource) (w : World) → Concluded r x w (check_state env r x w).0
  unfolding check_state judge
  check_state-Concluded r x w = elim (runs_or_not x.validate_path r.validate_exec w) [
    | inl runs ↦
        let eq : (check_state env r x w).0 ≡ judge (end_of runs w.tick) =
          ground (arith, run_end x.validate_path r.validate_exec w runs) in
        ran runs (rw eq (judge-Judged _))
    | inr (e, same) ↦ never_ran e same (unfold verdict in ground (arith, same))
  ]

  -- What an enforcement shows that says that the state is the desired one.
  pub record Succeeded (r : ExecConfig) (x : ExecResource) (w : World)
      (end : ((Bool × Option String) × ExecResource) × World) : Type 0 where
    pub runs : Runs x.enforce_path r.enforce_exec
    pub text : String
    pub code : end_of runs w.tick ≡ exited (pos 100) text
    pub bounded :
        (out : String) → end.0.1.enforce_output ≡ some out → len out ≤ max_exec_output_size + 1
    pub whole :
        (out : String)
        → end.0.0.1 ≡ none
        → end.0.1.enforce_output ≡ some out
        → len out ≤ max_exec_output_size
    pub changes_nothing : end.1.disk ≡ w.disk

  judged_100 :
      (end : CommandEnd)
      → verdict (code_of end).0 ≡ correct
      → (t : String) × (end ≡ exited (pos 100) t)
  unfolding verdict
  judged_100 no_error e = absurd (cc)
  judged_100 (not_run t) e = absurd (cc)
  judged_100 (exited (negsuc n) t) e = absurd (ground arith)
  judged_100 (exited (pos n) t) e =
      (t, let same : n ≡ 100 = ground arith in ap (λ m. exited (pos m) t) same)

  conclude_correct :
      (r : ExecConfig) (x : ExecResource) (c : ℤ × Option String) (w : World)
      → (conclude env r x c w).0.0.0 ≡ true
      → let o = exec_output env (output_path r.enforce_exec) w in
        (verdict c.0 ≡ correct)
        × (conclude env r x c w ≡ (((true, o.0.1), record x { enforce_output = o.0.0 }), o.1))
  unfolding conclude
  conclude_correct r x (c, t) w e = go (verdict c) refl
    where
      go :
          (v : Verdict)
          → verdict c ≡ v
          → let o = exec_output env (output_path r.enforce_exec) w in
            (verdict c ≡ correct)
            × (conclude env r x (c, t) w
                ≡ (((true, o.0.1), record x { enforce_output = o.0.0 }), o.1))
      go correct h = (h, rw (h, conclude) refl)
      go _ h = absurd (ground (arith, h))

  -- An enforcement says that the state is the desired one only after its command has exited with the
  -- code 100. Its output is at most the bound where there is no error, and at most one byte more.
  pub enforce_state-Succeeded :
      (r : ExecConfig) (x : ExecResource) (w : World)
      → (enforce_state env r x w).0.0.0 ≡ true
      → Succeeded r x w (enforce_state env r x w)
  unfolding enforce_state
  enforce_state-Succeeded r x w e = elim (runs_or_not x.enforce_path r.enforce_exec w) [
    | inr (t, same) ↦ absurd (unfold conclude verdict in ground (arith, same))
    | inl runs ↦
        let v = record w { tick = w.tick + 1 } in
        let code = code_of (end_of runs w.tick) in
        let eq : enforce_state env r x w ≡ conclude env r x code v =
          ap (λ p. conclude env r x p.0 p.1) (run_end x.enforce_path r.enforce_exec w runs) in
        let (correctly, eq') = conclude_correct r x code v (sym (ap (λ y. y.0.0.0) eq) ∙ e) in
        let (text, ended) = judged_100 (end_of runs w.tick) correctly in
        let k = exec_output-Kept (output_path r.enforce_exec) v in
        rw (eq ∙ eq') (record {
          runs = runs;
          text = text;
          code = ended;
          bounded = k.bounded;
          whole = k.whole;
          changes_nothing = k.unchanged;
        })
  ]
