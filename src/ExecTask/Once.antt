-- ===== src/ExecTask/Once.antt =====
-- What a run of agentendpoint/exec_task.go does how often.
use osconfig.Base.{
  ℕ, suc, ◌+◌, ◌≤◌, ◌≡◌, refl, sym, ap, ◌∙◌, String, ◌<>◌, Bool, true, false, Option, none, some,
  List, [], ◌∷◌, Result, ok, err, panicked, if◌then◌else◌, Option-cases, inl, inr, arith,
}
use osconfig.Base.Int.{ℤ, pos, negsuc}
use osconfig.Base.Actions.{resume}
use osconfig.ExecTask.{
  GcsObject, StepConfig, OutputState, completed, Directive, continue, stop, Call, started_sent,
  complete_sent, downloaded, ran, removed, Env, Task,
}
use osconfig.ExecTask.Steps.{
  get_gcs_object, execute_command, run_interpreter, report_completed_state, execute, removing,
  run_file, run_config, run, run_exec_step,
}

-- How often a log has a completion, and a command.
abbrev pub completions : List Call → ℕ
completions [] = 0
completions (complete_sent o m c ∷ log) = suc (completions log)
completions (_ ∷ log) = completions log

abbrev pub commands : List Call → ℕ
commands [] = 0
commands (ran p a ∷ log) = suc (commands log)
commands (_ ∷ log) = commands log

-- The files that a log has downloaded, and those that it has removed.
abbrev pub downloads : List Call → List String
downloads [] = []
downloads (downloaded p ∷ log) = p ∷ downloads log
downloads (_ ∷ log) = downloads log

abbrev pub removals : List Call → List String
removals [] = []
removals (removed p ∷ log) = p ∷ removals log
removals (_ ∷ log) = removals log

-- Counts of a log, and its files.
record Counts (c m : ℕ) (d r : List String) (s : Task) : Type 0 where
  completed : completions s.log ≡ c
  ran : commands s.log ≤ m
  loaded : downloads s.log ≡ d
  deleted : removals s.log ≡ r

module _ (env : Env) where
  run_interpreter-Counts :
      (c : StepConfig) (path : String) (d : List String) (s : Task)
      → Counts 0 0 d [] s
      → Counts 0 1 d [] (run_interpreter env c path s).1
  unfolding run_interpreter execute_command
  run_interpreter-Counts c path d s h = record {
    completed = ground arith;
    ran = ground arith;
    loaded = ground arith;
    deleted = ground arith;
  }

  report_completed_state-Counts :
      (msg : String) (o : OutputState) (i : ℤ) (m : ℕ) (d : List String) (s : Task)
      → Counts 0 m d [] s
      → Counts 1 m d [] (report_completed_state env msg o i s).1
  unfolding report_completed_state
  report_completed_state-Counts msg o i m d s h = record {
    completed = ground (arith, h.completed);
    ran = ground (arith, h.ran);
    loaded = ground (arith, h.loaded);
    deleted = ground (arith, h.deleted);
  }

  execute-Counts :
      (c : StepConfig) (path : String) (d : List String) (s : Task)
      → Counts 0 0 d [] s
      → Counts 1 1 d [] (execute env c path s).1
  unfolding execute
  execute-Counts c path d s h =
      reported (run_interpreter env c path s).0.1 _ (run_interpreter-Counts c path d s h)
    where
      reported :
          (e : Option String) (i : ℤ) {s' : Task}
          → Counts 0 1 d [] s'
          → Counts 1 1 d []
              (elim e as (λ _. Result String (Unit {0}) × Task) [
                | some text ↦
                    report_completed_state env
                      ("Error running ExecStepTask: " <> text)
                      completed
                      i
                      s'
                | none ↦ report_completed_state env "" completed i s'
              ]).1
      reported none i z = report_completed_state-Counts _ _ _ 1 d _ z
      reported (some text) i z = report_completed_state-Counts _ _ _ 1 d _ z

  -- What a run leaves that went on: one completion, a command at most, and no file.
  abbrev Clean : Task → Type 0
  Clean s = (completions s.log ≡ 1) × (commands s.log ≤ 1) × (removals s.log ≡ downloads s.log)

  Clean-of_Counts : (m : ℕ) (s : Task) → m ≤ 1 → Counts 1 m [] [] s → Clean s
  Clean-of_Counts m s le z = (z.completed, omega (arith, z.ran), z.deleted ∙ sym z.loaded)

  removing-Clean :
      (c : StepConfig) (path : String) (s : Task)
      → Counts 0 0 (path ∷ []) [] s
      → Clean (removing env path (execute env c path) s).1
  unfolding removing
  removing-Clean c path s h =
      let z : Counts 1 1 (path ∷ []) [] (execute env c path s).1 =
        execute-Counts c path (path ∷ []) s h in
      (z.completed, z.ran, ap (λ ps. path ∷ ps) z.deleted ∙ sym z.loaded)

  -- What a download leaves.
  abbrev Loaded : Result String String → Task → Type 0
  Loaded (ok path) s = Counts 0 0 (path ∷ []) [] s
  Loaded (err e) s = Counts 0 0 [] [] s
  Loaded (panicked p) s = ⊥

  get_gcs_object-Loaded :
      (g : GcsObject) (s : Task)
      → Counts 0 0 [] [] s
      → Loaded (get_gcs_object env g s).0 (get_gcs_object env g s).1
  unfolding get_gcs_object
  get_gcs_object-Loaded g s h = elim (Option-cases (env.new_client s.tick)) [
    | inr (e, failed) ↦ rw (failed, get_gcs_object) (ticked h)
    | inl made ↦
        elim (Option-cases (env.fetch_gcs_object s.tick g.bucket g.object g.generation_number)) [
          | inr (e, failed) ↦ rw (made, failed, get_gcs_object) (ticked h)
          | inl fetched ↦
              elim (Option-cases
                (env.write_file s.tick (env.join env.temp_dir (env.base g.object)))) [
                  | inr (e, failed) ↦ rw (made, fetched, failed, get_gcs_object) (ticked h)
                  | inl written ↦
                      rw (made, fetched, written, get_gcs_object)
                        (record {
                          completed = h.completed;
                          ran = h.ran;
                          loaded =
                              ap (λ ps. env.join env.temp_dir (env.base g.object) ∷ ps) h.loaded;
                          deleted = h.deleted;
                        })
                ]
        ]
  ]
    where
      ticked : {t : Task} → Counts 0 0 [] [] t → Counts 0 0 [] [] (record t { tick = t.tick + 1 })
      ticked z = record {
        completed = z.completed;
        ran = z.ran;
        loaded = z.loaded;
        deleted = z.deleted;
      }

  run_file-Clean : (c : StepConfig) (s : Task) → Counts 0 0 [] [] s → Clean (run_file env c s).1
  unfolding run_file
  run_file-Clean c s h = elim (Option-cases c.gcs_object) [
    | inl nothing ↦
        rw (nothing, run_file) (Clean-of_Counts 1 _ (omega arith) (execute-Counts c _ [] s h))
    | inr (g, found) ↦ rw (found, run_file) (loaded _ _ (get_gcs_object-Loaded g s h))
  ]
    where
      loaded :
          (r : Result String String) (s' : Task)
          → Loaded r s'
          → Clean
              (resume
                (λ e.
                  report_completed_state env
                    ("Error downloading GCS object: " <> e)
                    completed
                    (negsuc 0))
                (λ path. removing env path (execute env c path))
                r
                s').1
      loaded (ok path) s' z = removing-Clean c path s' z
      loaded (err e) s' z =
          Clean-of_Counts 0 _ (omega arith) (report_completed_state-Counts _ _ _ 0 [] s' z)
      loaded (panicked p) s' z = absurd z

  run_config-Clean : (s : Task) → Counts 0 0 [] [] s → Clean (run_config env s).1
  unfolding run_config
  run_config-Clean s h =
      chosen (if env.is_windows then s.windows_exec_step_config else s.linux_exec_step_config)
    where
      chosen :
          (o : Option StepConfig)
          → Clean
              (elim o as (λ _. Result String (Unit {0}) × Task) [
                | none ↦ report_completed_state env "" completed (pos 0) s
                | some c ↦ run_file env c s
              ]).1
      chosen none = Clean-of_Counts 0 _ (omega arith) (report_completed_state-Counts _ _ _ 0 [] s h)
      chosen (some c) = run_file-Clean c s h

-- Does the report that is the call number `t` reach the server?
abbrev pub reaches : Env → ℕ → Bool
reaches env t = elim (env.report_progress t) [ ok d ↦ true | _ ↦ false ]

-- A run of an ExecStepTask reports the completion once if its first report reached the server, and else
-- never. It runs one command at most, and the files that it removes are those that it has downloaded.
pub run_exec_step-once :
    (env : Env) (linux windows : Option StepConfig) (n : ℕ)
    → let log = (run_exec_step env linux windows n).1.log in
      (completions log ≡ (if reaches env n then 1 else 0))
      × (commands log ≤ 1)
      × (removals log ≡ downloads log)
unfolding run_exec_step run
run_exec_step-once env linux windows n = answered (env.report_progress n) refl
  where
    sent : Task
    sent = record {
      linux_exec_step_config = linux;
      windows_exec_step_config = windows;
      log = started_sent ∷ [];
      tick = n + 1;
    }

    nothing_yet : Counts 0 0 [] [] sent
    nothing_yet = record { completed = refl; ran = omega arith; loaded = refl; deleted = refl }

    answered :
        (r : Result String Directive)
        → env.report_progress n ≡ r
        → let log = (run_exec_step env linux windows n).1.log in
          (completions log ≡ (if reaches env n then 1 else 0))
          × (commands log ≤ 1)
          × (removals log ≡ downloads log)
    answered (err e) q = rw (q, run_exec_step, run, reaches) (refl, omega arith, refl)
    answered (panicked p) q = rw (q, run_exec_step, run, reaches) (refl, omega arith, refl)
    answered (ok stop) q =
        rw (q, run_exec_step, run, reaches)
          (Clean-of_Counts env 0 _ (omega arith)
            (report_completed_state-Counts env _ _ _ 0 [] sent nothing_yet))
    answered (ok continue) q =
        rw (q, run_exec_step, run, reaches) (run_config-Clean env sent nothing_yet)
