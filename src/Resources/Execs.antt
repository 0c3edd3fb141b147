-- ===== src/Resources/Execs.antt =====
-- config/exec_resource.go: the resource that runs commands. The log lines are left out, and the texts of
-- errors do not repeat what a command wrote.
pub mod Runs
pub mod Codes
use Prim.Native.String.{len, slice}
use osconfig.Base.{
  ℕ, zero, ◌+◌, String, ◌<>◌, Bool, true, false, not, Option, none, some, List, [], ◌∷◌, ◌++◌, ltb,
  eqb, ◌==◌, if◌then◌else◌,
}
use osconfig.Base.Int.{ℤ, pos, negsuc}
use osconfig.Resources.{
  World, Stream, CommandEnd, no_error, exited, not_run, Env, Call, Get, on_error, on_get, give,
}
use osconfig.Resources.Atomic.{atomic_write_file_stream}
use osconfig.Resources.Disk.{call, open_file, read, remove_all, make_temp_dir}
use osconfig.Resources.Download.{
  RemoteFile, gcs, remote, local, no_type, local_path, open_text, download_file,
}

abbrev pub max_exec_output_size : ℕ
max_exec_output_size = 512000

pub data Interpreter : Type 0 where
  no_interpreter shell powershell : Interpreter
  unsupported : String → Interpreter

pub data ExecSource : Type 0 where
  script : String → ExecSource
  from_file : RemoteFile → ExecSource
  no_source : ExecSource

-- `OSPolicy_Resource_ExecResource_Exec`
pub record Exec : Type 0 where
  pub source : ExecSource
  pub interpreter : Interpreter
  pub args : List String
  pub output_file_path : String

-- `OSPolicy_Resource_ExecResource`, where nil is `none`.
pub record ExecConfig : Type 0 where
  pub validate_exec : Option Exec
  pub enforce_exec : Option Exec

pub record ExecResource : Type 0 where
  pub validate_path : String
  pub enforce_path : String
  pub temp_dir : String
  pub enforce_output : Option String

abbrev pub new_exec : ExecResource
new_exec = record { validate_path = ""; enforce_path = ""; temp_dir = ""; enforce_output = none }

abbrev pub sh : String
sh = "/bin/sh"

abbrev pub powershell_exe : String
powershell_exe = "C:\\Windows\\System32\\WindowsPowerShell\\v1.0\\PowerShell.exe"

abbrev pub unsupported_interpreter : String
unsupported_interpreter = "unsupported interpreter"

abbrev pub Method : Type 0 → Type 0
Method A = World → (A × ExecResource) × World

abbrev pub done : {A : Type 0} → A → ExecResource → Method A
done a x w = ((a, x), w)

abbrev pub file_perms : Interpreter → ℕ
file_perms no_interpreter = 493
file_perms _ = 420

module _ (env : Env) where
  -- The name and the permissions of a script, by its interpreter.
  unfoldable pub script_name : Interpreter → Option (String × ℕ)
  script_name no_interpreter = some (if env.is_windows then "script.cmd" else "script", 493)
  script_name shell = some (if env.is_windows then "script.cmd" else "script.sh", 420)
  script_name powershell = some ("script.ps1", 420)
  script_name (unsupported i) = none

  -- The name of a file to download, unless it is a local one.
  unfoldable pub file_name : RemoteFile → Option String
  file_name (gcs bucket object generation) =
      if object == "" then none else some (env.url_base object)
  file_name (remote uri sum) = if uri == "" then none else some (env.url_base uri)
  file_name _ = none

  -- The path of a file that was written, or the error.
  unfoldable pub written : String → Get String → Get String
  written name get = on_get get (λ _ e. give "" (some e)) (λ _. give name none)

  -- `download` from the new directory on.
  unfoldable pub download_in : String → ExecSource → Interpreter → Get String
  unfolding script_name file_name written
  download_in tmp (script text) i = elim (script_name i) [
    | none ↦ give "" (some unsupported_interpreter)
    | some (name, perms) ↦
        let stream : Stream = record { text = text; broken = none } in
        let path = env.join tmp name in
        written path (atomic_write_file_stream env stream "" path perms)
  ]
  download_in tmp (from_file f) i =
      if not (local_path f == "") then give (local_path f) none else elim (file_name f) [
        | none ↦ give "" (some "unsupported File")
        | some name ↦
            let path = env.join tmp name in written path (download_file env path (file_perms i) f)
      ]
  download_in tmp no_source i = give "" (some "unrecognized Source type for ExecResource")

  -- `download`; the getters of a nil `Exec` give no source.
  unfoldable pub download : Option Exec → Get String
  unfolding download_in
  download exec =
      on_get (make_temp_dir env) (λ _ e. give "" (some ("failed to create temp dir: " <> e)))
        (λ tmp. elim exec [
          | none ↦ give "" (some "unrecognized Source type for ExecResource")
          | some x ↦ download_in tmp x.source x.interpreter
        ])

  -- `validate` from the second download on; without an enforcement there is none.
  unfoldable pub validate_enforce : Option Exec → ExecResource → Method (Option String)
  unfolding download
  validate_enforce none x = done none x
  validate_enforce (some exec) x =
      on_get (download (some exec)) (λ path e. done (some e) (record x { enforce_path = path }))
        (λ path. done none (record x { enforce_path = path }))

  unfoldable pub validate : ExecConfig → ExecResource → Method (Option String)
  unfolding validate_enforce download
  validate r x =
      on_get (make_temp_dir env) (λ _ e. done (some ("failed to create temp dir: " <> e)) x)
        (λ tmp.
          let x' = record x { temp_dir = tmp } in
          on_get (download r.validate_exec)
            (λ path e. done (some e) (record x' { validate_path = path }))
            (λ path. validate_enforce r.enforce_exec (record x' { validate_path = path })))
