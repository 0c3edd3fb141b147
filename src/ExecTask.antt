-- ===== src/ExecTask.antt =====
-- agentendpoint/exec_task.go: the task that downloads and runs one script or program.
pub mod Steps
pub mod Once
mod Tests
use osconfig.Base.{ℕ, String, Bool, Option, List, Result}
use osconfig.Base.Actions.{Action}
use osconfig.Base.Int.{ℤ}

pub data Interpreter : Type 0 where
  interpreter_unspecified shell powershell : Interpreter
  other : String → Interpreter

pub record GcsObject : Type 0 where
  pub bucket : String
  pub object : String
  pub generation_number : ℤ

-- `ExecStepConfig`
pub record StepConfig : Type 0 where
  pub local_path : String
  pub gcs_object : Option GcsObject
  pub interpreter : Interpreter

pub data Directive : Type 0 where
  continue stop : Directive

pub data OutputState : Type 0 where
  completed cancelled : OutputState

-- The calls that the task makes, the latest first in a log.
pub data Call : Type 0 where
  started_sent : Call
  complete_sent : OutputState → String → ℤ → Call
  downloaded : String → Call
  ran : String → List String → Call
  removed : String → Call

-- The error of a command: that it exited with a code, or another one.
pub data CommandError : Type 0 where
  exit_error : CommandError
  other_error : String → CommandError

-- How a command ends: its exit code, if it has a `ProcessState`, and its error.
pub record CommandEnd : Type 0 where
  pub exit_code : Option ℤ
  pub error : Option CommandError

-- The surroundings: the system, the client, the storage, and the processes.
pub record Env : Type 0 where
  pub is_windows : Bool
  pub system_root : String
  pub temp_dir : String
  pub join : String → String → String
  pub base : String → String
  pub quote : String → String
  pub report_progress : ℕ → Result String Directive
  pub report_complete : ℕ → Option String
  pub new_client : ℕ → Option String
  pub fetch_gcs_object : ℕ → String → String → ℤ → Option String
  pub write_file : ℕ → String → Option String
  pub run : ℕ → String → List String → CommandEnd

-- `execTask`, with the log of its calls and their number.
pub record Task : Type 0 where
  pub linux_exec_step_config : Option StepConfig
  pub windows_exec_step_config : Option StepConfig
  pub log : List Call
  pub tick : ℕ

abbrev pub M : Type 0 → Type 0
M A = Action Task String A
