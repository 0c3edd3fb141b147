-- ===== src/ExecTask/Tests.antt =====
-- Runs of an exec task, and the theorem at concrete data.
use osconfig.Base.{◌≤◌, ◌≡◌, ◌<>◌, Option, false, none, some, ok}
use osconfig.Base.Int.{pos}
use osconfig.ExecTask.{StepConfig, shell, continue, Env, exit_error}
use osconfig.ExecTask.Steps.{run_exec_step}
use osconfig.ExecTask.Once.{completions, commands, downloads, removals, run_exec_step-once}

-- The download works, and the script exits with code 3.
abbrev env : Env
env = record {
  is_windows = false;
  system_root = "";
  temp_dir = "/tmp";
  join = λ a b. (a <> "/") <> b;
  base = λ p. p;
  quote = λ s. s;
  report_progress = λ n. ok continue;
  report_complete = λ n. none;
  new_client = λ n. none;
  fetch_gcs_object = λ n b o g. none;
  write_file = λ n p. none;
  run = λ n p args. record { exit_code = some (pos 3); error = some exit_error };
}

abbrev script : Option StepConfig
script = some (record {
  local_path = "";
  gcs_object = some (record { bucket = "b"; object = "run.sh"; generation_number = pos 1 });
  interpreter = shell;
})

run_exec_step-once_example :
    (completions (run_exec_step env script none 0).1.log ≡ 1)
    × (commands (run_exec_step env script none 0).1.log ≤ 1)
    × (removals (run_exec_step env script none 0).1.log
        ≡ downloads (run_exec_step env script none 0).1.log)
run_exec_step-once_example = run_exec_step-once env script none 0
