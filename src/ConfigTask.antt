-- ===== src/ConfigTask.antt =====
-- agentendpoint/config_task.go: the task, its policies, and what it reports.
pub mod Message
pub mod Resources
pub mod Apply
pub mod Run
pub mod Loops
pub mod Present
pub mod Outcome
pub mod Traces
pub mod Mark
mod Tests
use osconfig.Base.{ℕ, String, Bool, Option, List, Result}
use osconfig.Base.Dict.{Dict}
use osconfig.Base.Actions.{Action}
use osconfig.Config.{ResourceType, OsPolicyResource, Backend}

-- `OSPolicy_Resource` and `OSPolicy`, as the server sends them. Any mode but VALIDATION enforces.
pub record ConfigResource : Type 0 where
  pub id : String
  pub resource_type : ResourceType

pub record OsPolicy : Type 0 where
  pub id : String
  pub validation_mode : Bool
  pub resources : List ConfigResource

pub data StepType : Type 0 where
  validation desired_state_check desired_state_enforcement : StepType
  desired_state_check_post_enforcement : StepType

pub data StepOutcome : Type 0 where
  step_succeeded step_failed : StepOutcome

pub record ConfigStep : Type 0 where
  pub type : StepType
  pub outcome : StepOutcome
  pub error_message : List ℕ

pub data ComplianceState : Type 0 where
  unspecified compliant non_compliant unknown : ComplianceState

-- `OSPolicyResourceCompliance`
pub record Compliance : Type 0 where
  pub resource_id : String
  pub config_steps : List ConfigStep
  pub state : ComplianceState
  pub output : Option String

-- `ApplyConfigTaskOutput_OSPolicyResult`
pub record PolicyResult : Type 0 where
  pub policy_id : String
  pub compliances : List Compliance

-- `resource`: the wrapper of the config package and two flags.
pub record Res : Type 0 where
  pub iface : OsPolicyResource
  pub needs_post_check : Bool
  pub validate_or_check_error : Bool

pub data ProgressState : Type 0 where
  started applying_config : ProgressState

pub data OutputState : Type 0 where
  succeeded failed cancelled : OutputState

pub data Error : Type 0 where
  server_cancel : Error
  failure : String → Error

abbrev pub message : Error → String
message server_cancel = "task canceled by server"
message (failure s) = s

pub data Directive : Type 0 where
  continue stop : Directive

-- The calls that the task makes, by policy and resource, the latest first in a log; a cleanup with
-- its error.
pub data Call : Type 0 where
  progress_sent : ProgressState → Call
  complete_sent : OutputState → String → List PolicyResult → Call
  validated checked enforced post_checked : String → String → Call
  cleaned : String → String → Option String → Call

-- The surroundings: the resources, the clock, the client's two report calls, and `fmt.Sprintf` of a
-- step's error message from its prefix, the resource's id and the error; messages are bytes.
pub record Env : Type 0 where
  pub backend : Backend
  pub now : ℕ → ℕ
  pub report_progress : ℕ → Result String Directive
  pub report_complete : ℕ → Option String
  pub step_message : String → String → String → List ℕ

-- `configTask`, with the log of its calls and their number. `policies` is nil until `run` makes it.
pub record Task : Type 0 where
  pub os_policies : List OsPolicy
  pub at_started : Option ℕ
  pub at_applying : Option ℕ
  pub policies : Dict (Dict Res)
  pub results : List PolicyResult
  pub log : List Call
  pub tick : ℕ

abbrev pub M : Type 0 → Type 0
M A = Action Task Error A
