-- ===== src/PatchTask.antt =====
-- agentendpoint/patch_task.go: the task, the calls that it makes, and its loop over the steps.
pub mod Steps
pub mod Triples
pub mod Reboots
pub mod Restored
pub mod Progress
mod Tests
use osconfig.Base.{
  ℕ, zero, suc, ◌+◌, ◌<◌, String, ◌<>◌, Bool, true, false, not, ◌&&◌, Option, none, some, List, [],
  ◌∷◌, Result, ok, err, panicked, ltb, leb, eqb, if◌then◌else◌,
}
use osconfig.TaskState.{File, Disk, SaveFaults, save}

-- `patchStep` is a string; any text but the three constants is `other_step`.
pub data PatchStep : Type 0 where
  pre_patch patching post_patch : PatchStep
  other_step : String → PatchStep

abbrev pub total_reboot_count_limit : ℕ
total_reboot_count_limit = 5

pub data RebootConfig : Type 0 where
  default always never reboot_config_unspecified : RebootConfig

pub data ProgressState : Type 0 where
  started applying_patches rebooting : ProgressState

pub data OutputState : Type 0 where
  succeeded succeeded_reboot_required failed : OutputState

pub data Error : Type 0 where
  server_cancel : Error
  failure : String → Error

-- `err.Error()`
abbrev pub message : Error → String
message server_cancel = "task canceled by server"
message (failure s) = s

-- The last time, in seconds, at which each progress state was reported; a key is absent at `none`.
pub record LastProgress : Type 0 where
  pub at_started : Option ℕ
  pub at_applying : Option ℕ
  pub at_rebooting : Option ℕ

-- `patchTask`, with the fields of its `Task` that the code reads.
pub record PatchTask : Type 0 where
  pub task_id : String
  pub reboot_config : RebootConfig
  pub dry_run : Bool
  pub started_at : ℕ
  pub patch_step : PatchStep
  pub pre_patch_reboot_count : ℕ
  pub post_patch_reboot_count : ℕ
  pub last_progress_state : LastProgress

abbrev pub no_progress : LastProgress
no_progress = record { at_started = none; at_applying = none; at_rebooting = none }

-- `taskState`: what the state file holds. `none` is a nil `PatchTask`.
abbrev pub State : Type 0
State = Option PatchTask

-- The state as it is encoded: `lastProgressState` is not exported, so it is not written.
abbrev pub encoded : PatchTask → PatchTask
encoded r = record r { last_progress_state = no_progress }

pub data Directive : Type 0 where
  continue stop : Directive

-- The calls whose effect is seen from outside, the latest first in a log.
pub data Event : Type 0 where
  progress_sent : ProgressState → Event
  complete_sent : OutputState → String → Event
  updates_run : Event
  reboot_called : Event

-- The agent's surroundings, by the number of the call: the clock, the state file's system calls,
-- the two report calls of the client, the reboot check, `runUpdates` and `rebootSystem`.
pub record Env : Type 0 where
  pub now : ℕ → ℕ
  pub faults : ℕ → SaveFaults
  pub report_progress : ℕ → Result String Directive
  pub report_complete : ℕ → Option String
  pub reboot_required : ℕ → Result String Bool
  pub run_updates : ℕ → Result Error (Unit {0})
  pub reboot_system : ℕ → Option String
  pub quote : String → String

pub record Machine : Type 0 where
  pub task : PatchTask
  pub disk : Disk State
  pub log : List Event
  pub tick : ℕ

-- How a call ends. `halted`: the system is going down, and the call never returns.
pub data Exit (A : Type 0) : Type 0 where
  done : A → Exit A
  fail : Error → Exit A
  panic : String → Exit A
  halted : Exit A

abbrev pub M : Type 0 → Type 0
M A = Machine → Exit A × Machine

abbrev pub pure : {A : Type 0} → A → M A
pure a s = (done a, s)

abbrev pub raise : {A : Type 0} → Error → M A
raise e s = (fail e, s)

abbrev pub resume : {A B : Type 0} → (Error → M B) → (A → M B) → Exit A → M B
resume h k (done a) = k a
resume h k (fail e) = h e
resume h k (panic p) = λ s. (panic p, s)
resume h k halted = λ s. (halted, s)

-- `if err := m(); err != nil { return h(err) }`, and then `k`.
unfoldable pub attempt : {A B : Type 0} → M A → (Error → M B) → (A → M B) → M B
attempt m h k s = let (r, s') = m s in resume h k r s'

infixl 5 ◌>>=◌ ◌>>◌
abbrev pub ◌>>=◌ : {A B : Type 0} → M A → (A → M B) → M B
m >>= k = attempt m raise k

abbrev pub ◌>>◌ : {B : Type 0} → M (Unit {0}) → M B → M B
m >> k = m >>= λ _. k

abbrev pub of_option : Option String → Exit (Unit {0})
of_option none = done tt
of_option (some e) = fail (failure e)

-- Wraps the error of a call, as `fmt.Errorf("prefix%v", err)` does.
abbrev pub wrap : {A : Type 0} → String → M A → M A
wrap prefix m = attempt m (λ e. raise (failure (prefix <> message e))) pure

abbrev pub get_progress : ProgressState → LastProgress → Option ℕ
get_progress started l = l.at_started
get_progress applying_patches l = l.at_applying
get_progress rebooting l = l.at_rebooting

abbrev pub set_progress : ProgressState → ℕ → LastProgress → LastProgress
set_progress started t l = record l { at_started = some t }
set_progress applying_patches t l = record l { at_applying = some t }
set_progress rebooting t l = record l { at_rebooting = some t }

abbrev pub step_name : (String → String) → PatchStep → String
step_name quote pre_patch = quote "PrePatch"
step_name quote patching = quote "Patching"
step_name quote post_patch = quote "PostPatch"
step_name quote (other_step s) = quote s

abbrev pub progress_name : ProgressState → String
progress_name started = "STARTED"
progress_name applying_patches = "APPLYING_PATCHES"
progress_name rebooting = "REBOOTING"

abbrev pub output_name : OutputState → String
output_name succeeded = "SUCCEEDED"
output_name succeeded_reboot_required = "SUCCEEDED_REBOOT_REQUIRED"
output_name failed = "FAILED"

abbrev pub is_always : RebootConfig → Bool
is_always always = true
is_always _ = false

abbrev pub is_never : RebootConfig → Bool
is_never never = true
is_never _ = false
