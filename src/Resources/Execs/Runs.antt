-- ===== src/Resources/Execs/Runs.antt =====
-- How an exec resource runs its commands, and what it makes of their exit codes.
use Prim.Native.String.{len, slice}
use osconfig.Base.{
  ◌+◌, String, ◌<>◌, Bool, true, false, not, Option, none, some, List, [], ◌∷◌, ltb, eqb, ◌==◌,
  if◌then◌else◌,
}
use osconfig.Base.Int.{ℤ, pos, negsuc}
use osconfig.Resources.{World, CommandEnd, no_error, exited, not_run, Env, Call, Get, give}
use osconfig.Resources.Disk.{open_file, read, remove_all}
use osconfig.Resources.Download.{open_text}
use osconfig.Resources.Execs.{
  max_exec_output_size, unsupported_interpreter, no_interpreter, shell, powershell, unsupported,
  Exec, ExecConfig, ExecResource, sh, powershell_exe, Method, done,
}

-- The exit code and the error of a command that was started.
abbrev pub code_of : CommandEnd → ℤ × Option String
code_of no_error = (pos 0, none)
code_of (exited code e) = (code, some e)
code_of (not_run e) = (negsuc 0, some e)

-- The codes that the resource reads.
pub data Verdict : Type 0 where
  no_code correct incorrect unexpected : Verdict

unfoldable pub verdict : ℤ → Verdict
verdict (negsuc n) = if eqb n 0 then no_code else unexpected
verdict (pos n) = if eqb n 100 then correct else (if eqb n 101 then incorrect else unexpected)

abbrev pub output_path : Option Exec → String
output_path none = ""
output_path (some exec) = exec.output_file_path

-- `populateOutput`: the output that the report gets, unless it is nil.
unfoldable pub populate_output : ExecResource → Option String
populate_output x = x.enforce_output

module _ (env : Env) where
  -- The command and its arguments, or the error.
  unfoldable pub command : String → Exec → (String × List String) × Option String
  command name exec = elim exec.interpreter [
    | no_interpreter ↦ ((name, exec.args), none)
    | shell ↦ if env.is_windows then ((name, exec.args), none) else ((sh, name ∷ exec.args), none)
    | powershell ↦
        if not env.is_windows
        then (("", []), some "interpreter can only be used on Windows systems")
        else ((powershell_exe, "-File" ∷ (name ∷ exec.args)), none)
    | unsupported i ↦ (("", []), some unsupported_interpreter)
  ]

  -- `run`: the code is zero also where no command is started.
  unfoldable pub run : String → Option Exec → Get ℤ
  unfolding command
  run name none w = give (pos 0) (some "ExecResource Exec cannot be nil") w
  run name (some exec) w = elim (command name exec).1 [
    | some e ↦ give (pos 0) (some e) w
    | none ↦ (
      code_of (env.run w.tick (command name exec).0.0 (command name exec).0.1),
      record w { tick = w.tick + 1 },
    )
  ]

  unfoldable pub check_state : ExecConfig → ExecResource → World → (Bool × Option String) × World
  unfolding run verdict
  check_state r x w =
      let ((code, e), w') = run x.validate_path r.validate_exec w in
      elim (verdict code) [
        | no_code ↦ ((false, e), w')
        | correct ↦ ((true, none), w')
        | incorrect ↦ ((false, none), w')
        | unexpected ↦ ((false, some "unexpected return code from validate"), w')
      ]

  -- `execOutput`: at most the bound is kept, with an error if there is more. A character that the bound
  -- cuts is left out.
  unfoldable pub exec_output : String → World → (Option String × Option String) × World
  exec_output path w =
      if path == ""
      then ((none, none), w)
      else let (o, w') = open_file env path w in
        elim o [
          | some e ↦ ((none, some ("error opening OutputFilePath: " <> open_text e)), w')
          | none ↦
              let (r, w'') = read env path w' in
              elim r.broken [
                | some e ↦ (
                  (
                    some (slice r.text 0 (max_exec_output_size + 1)),
                    some ("error reading from OutputFilePath: " <> e),
                  ),
                  w'',
                )
                | none ↦
                    if ltb max_exec_output_size (len r.text)
                    then (
                      (
                        some (slice r.text 0 max_exec_output_size),
                        some "contents of OutputFilePath greater than 500K",
                      ),
                      w'',
                    )
                    else ((some r.text, none), w'')
              ]
        ]

  -- The switch of `enforceState`.
  unfoldable pub conclude :
      ExecConfig → ExecResource → ℤ × Option String → Method (Bool × Option String)
  unfolding verdict exec_output
  conclude r x (code, e) w = elim (verdict code) [
    | no_code ↦ done (false, e) x w
    | correct ↦
        let ((out, t), w') = exec_output (output_path r.enforce_exec) w in
        done (true, t) (record x { enforce_output = out }) w'
    | incorrect ↦ done (false, some "unexpected return code from enforce") x w
    | unexpected ↦ done (false, some "unexpected return code from enforce") x w
  ]

  unfoldable pub enforce_state : ExecConfig → ExecResource → Method (Bool × Option String)
  unfolding run conclude
  enforce_state r x w = let (end, w') = run x.enforce_path r.enforce_exec w in conclude r x end w'

  unfoldable pub cleanup : ExecResource → Call
  cleanup x = if not (x.temp_dir == "") then remove_all env x.temp_dir else λ w. (none, w)
