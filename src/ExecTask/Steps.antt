-- ===== src/ExecTask/Steps.antt =====
-- The functions of agentendpoint/exec_task.go.
use osconfig.Base.{
  ℕ, ◌+◌, String, ◌<>◌, Option, none, some, List, [], ◌∷◌, ◌++◌, Result, ok, err, panicked, ◌==◌,
  if◌then◌else◌,
}
use osconfig.Base.Int.{ℤ, pos, negsuc, to_int32}
use osconfig.Base.Actions.{attempt}
use osconfig.ExecTask.{
  interpreter_unspecified, shell, powershell, other, GcsObject, StepConfig, continue, stop,
  OutputState, completed, cancelled, Call, started_sent, complete_sent, downloaded, ran, removed,
  exit_error, other_error, CommandEnd, Env, Task, M,
}

abbrev pub sh : String
sh = "/bin/sh"

abbrev pub win_powershell_args : List String
win_powershell_args = "-NonInteractive" ∷ "-NoProfile" ∷ "-ExecutionPolicy" ∷ "Bypass" ∷ []

abbrev pub err_server_cancel : String
err_server_cancel = "task canceled by server"

abbrev pub err_linux_powershell : String
err_linux_powershell = "interpreter POWERSHELL cannot be used on non-Windows system"

abbrev pub err_win_no_int : String
err_win_no_int =
    "an interpreter value of `SHELL` or `POWERSHELL` must be set for files ran on Windows systems"

abbrev pub logged : Call → Task → Task
logged call s = record s { log = call ∷ s.log; tick = s.tick + 1 }

module _ (env : Env) where
  -- `init`
  abbrev pub win_root : String
  win_root = if env.system_root == "" then "C:\\Windows" else env.system_root

  abbrev pub win_powershell : String
  win_powershell = env.join win_root "System32\\WindowsPowerShell\\v1.0\\PowerShell.exe"

  abbrev pub win_cmd : String
  win_cmd = env.join win_root "System32\\cmd.exe"

  -- `getGCSObject`, with the writer of the package util: the path that the object is written to.
  unfoldable pub get_gcs_object : GcsObject → M String
  get_gcs_object g s =
      let local_path = env.join env.temp_dir (env.base g.object) in
      let s' = record s { tick = s.tick + 1 } in
      elim (env.new_client s.tick) [
        | some e ↦ (err ("error creating gcs client: " <> e), s')
        | none ↦ elim (env.fetch_gcs_object s.tick g.bucket g.object g.generation_number) [
          | some e ↦ (err ("error fetching GCS object: " <> e), s')
          | none ↦ elim (env.write_file s.tick local_path) [
            | some e ↦ (err ("error downloading GCS object: " <> e), s')
            | none ↦ (ok local_path, logged (downloaded local_path) s)
          ]
        ]
      ]

  -- What `executeCommand` makes of the end of a command: a code, and an error or none. That a command
  -- exits with a code is no error.
  abbrev pub command_code : CommandEnd → ℤ × Option String
  command_code end =
      let exit_code : ℤ = elim end.exit_code [ none ↦ pos 0 | some i ↦ to_int32 i ] in
      elim end.error [
        | none ↦ (exit_code, none)
        | some e ↦ elim e [
          | exit_error ↦ (exit_code, none)
          | other_error text ↦ (negsuc 0, some text)
        ]
      ]

  unfoldable pub execute_command : String → List String → Task → (ℤ × Option String) × Task
  execute_command path args s = (command_code (env.run s.tick path args), logged (ran path args) s)

  -- The switch of `run` on the interpreter; the code is -1 where no command is run.
  unfoldable pub run_interpreter : StepConfig → String → Task → (ℤ × Option String) × Task
  unfolding execute_command
  run_interpreter c path s = elim c.interpreter [
    | interpreter_unspecified ↦
        if env.is_windows then ((negsuc 0, some err_win_no_int), s) else execute_command path [] s
    | shell ↦
        if env.is_windows
        then execute_command win_cmd ("/c" ∷ path ∷ []) s
        else execute_command sh (path ∷ []) s
    | powershell ↦
        if env.is_windows
        then execute_command win_powershell (win_powershell_args ++ ("-File" ∷ path ∷ [])) s
        else ((negsuc 0, some err_linux_powershell), s)
    | other i ↦ ((negsuc 0, some ("invalid interpreter " <> env.quote i)), s)
  ]

  unfoldable pub report_completed_state : String → OutputState → ℤ → M (Unit {0})
  report_completed_state msg state code s =
      let s' = logged (complete_sent state msg code) s in
      elim (env.report_complete s.tick) [
        | none ↦ (ok tt, s')
        | some e ↦ (err ("error reporting completed state: " <> e), s')
      ]

  -- The part of `run` from the switch on.
  unfoldable pub execute : StepConfig → String → M (Unit {0})
  execute c path s =
      let ((code, e), s') = run_interpreter c path s in
      elim e [
        | some text ↦
            report_completed_state ("Error running ExecStepTask: " <> text) completed code s'
        | none ↦ report_completed_state "" completed code s'
      ]

  -- The deferred `os.Remove`: its error is logged only.
  unfoldable pub removing : String → M (Unit {0}) → M (Unit {0})
  removing path m s = let (r, s') = m s in (r, logged (removed path) s')

  -- The part of `run` from the choice of the file on.
  unfoldable pub run_file : StepConfig → M (Unit {0})
  run_file c s = elim c.gcs_object [
    | none ↦ execute c c.local_path s
    | some g ↦
        attempt (get_gcs_object g)
          (λ e. report_completed_state ("Error downloading GCS object: " <> e) completed (negsuc 0))
          (λ path. removing path (execute c path)) s
  ]

  -- The part of `run` after the first report.
  unfoldable pub run_config : M (Unit {0})
  run_config s =
      elim (if env.is_windows then s.windows_exec_step_config else s.linux_exec_step_config) [
        | none ↦ report_completed_state "" completed (pos 0) s
        | some c ↦ run_file c s
      ]

  unfoldable pub run : M (Unit {0})
  run s =
      let s' = logged started_sent s in
      elim (env.report_progress s.tick) [
        | err e ↦ (err ("error reporting state STARTED: " <> e), s')
        | panicked p ↦ (panicked p, s')
        | ok stop ↦ report_completed_state err_server_cancel cancelled (pos 0) s'
        | ok continue ↦ run_config s'
      ]

  -- `RunExecStep`
  unfoldable pub run_exec_step :
      Option StepConfig → Option StepConfig → ℕ → Result String (Unit {0}) × Task
  run_exec_step linux windows tick = run (record {
    linux_exec_step_config = linux;
    windows_exec_step_config = windows;
    log = [];
    tick = tick;
  })
