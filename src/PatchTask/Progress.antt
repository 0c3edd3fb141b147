-- ===== src/PatchTask/Progress.antt =====
-- A run of the patch task ends, and reports its completion once.
mod Calls
pub mod Ends
pub mod Whole
use osconfig.Base.{ℕ, suc, ◌≡◌, String, List, [], ◌∷◌}
use osconfig.PatchTask.{PatchStep, Event, complete_sent, Machine}

-- The calls of `ReportTaskComplete` in a log.
abbrev pub completes : List Event → ℕ
completes [] = 0
completes (complete_sent o m ∷ log) = suc (completes log)
completes (_ ∷ log) = completes log

-- The step that the task is at, and the completions reported.
pub record At (step : PatchStep) (n : ℕ) (s : Machine) : Type 0 where
  pub at_step : s.task.patch_step ≡ step
  pub sent : completes s.log ≡ n
