-- ===== src/ConfigTask/Tests.antt =====
-- Runs of a config task, and the theorems at concrete data.
use osconfig.Base.{
  ℕ, ◌≡◌, refl, true, false, none, some, List, [], ◌∷◌, All, Zip, length, arith, ok, if◌then◌else◌,
  eqb, String-discrete,
}
use osconfig.Base.Dict.{Dict, lookup}
use osconfig.Config.{Backend, pkg, file, unset}
use osconfig.ConfigTask.{
  OsPolicy, PolicyResult, Res, Call, complete_sent, succeeded, continue, stop, Env, Task,
}
use osconfig.ConfigTask.Message.{truncate_message, truncate_message-length}
use osconfig.ConfigTask.Apply.{new_res, generate_base_results, mark_post_check_required}
use osconfig.ConfigTask.Run.{run_apply_config, apply_policies}
use osconfig.ConfigTask.Outcome.{completions, Justified}
use osconfig.ConfigTask.Outcome.Ends.{panics}
use osconfig.ConfigTask.Outcome.Whole.{
  run_apply_config-completes_once, run_apply_config-panics, run_apply_config-Justified,
}
use osconfig.ConfigTask.Traces.{IsLegal}
use osconfig.ConfigTask.Traces.Whole.{ResultOf, apply_policies-IsLegal}
use osconfig.ConfigTask.Mark.{entry, marked_if, mark_post_check_required_lem}

-- No resource is in its desired state until it is enforced.
abbrev backend : Backend
backend = record {
  validate = λ n. none;
  check_state = λ n. (false, none);
  enforce_state = λ n. (true, none);
  output = λ n. none;
  cleanup = λ n. none;
}

-- The server stops the task at the second report.
abbrev stopping : Env
stopping = record {
  backend = backend;
  now = λ n. n;
  report_progress = λ n. if eqb n 1 then ok stop else ok continue;
  report_complete = λ n. none;
  step_message = λ prefix id text. [];
}

abbrev policies : List OsPolicy
policies =
    record {
      id = "p1";
      validation_mode = false;
      resources =
          record { id = "r1"; resource_type = pkg }
          ∷ record { id = "r2"; resource_type = unset }
          ∷ [];
    }
    ∷ record {
      id = "p2";
      validation_mode = true;
      resources = record { id = "r1"; resource_type = file } ∷ [];
    }
    ∷ []

abbrev task : Task
task = record {
  os_policies = policies;
  at_started = none;
  at_applying = none;
  policies = [];
  results = generate_base_results policies;
  log = [];
  tick = 2;
}

stopping_calm : (t : ℕ) → panics (stopping.report_progress t) ≡ false
stopping_calm t = ground arith

run_apply_config-completes_once_example :
    completions (run_apply_config stopping policies 0).1.log ≡ 1
run_apply_config-completes_once_example =
    run_apply_config-completes_once stopping policies 0 stopping_calm

-- The server's stop makes the run panic.
run_apply_config-panics_example : panics (run_apply_config stopping policies 0).0 ≡ true
run_apply_config-panics_example = run_apply_config-panics stopping policies 0 stopping_calm

run_apply_config-Justified_example :
    All (Justified policies) (run_apply_config stopping policies 5).1.log
run_apply_config-Justified_example = run_apply_config-Justified stopping policies 5 stopping_calm

apply_policies-IsLegal_example :
    (xs : List PolicyResult) × (before : List Call) × ((apply_policies stopping task).1.log
      ≡ complete_sent succeeded "" xs ∷ before)
    × Zip (ResultOf IsLegal) policies xs
apply_policies-IsLegal_example = apply_policies-IsLegal stopping policies task refl refl

abbrev entries : Dict (Dict Res)
entries = ("p1", ("r1", new_res (record { id = "r1"; resource_type = pkg })) ∷ []) ∷ []

mark_post_check_required_lem_example :
    entry "p1" "r1" (mark_post_check_required policies entries)
    ≡ marked_if true (some (new_res (record { id = "r1"; resource_type = pkg })))
unfolding String-discrete lookup
mark_post_check_required_lem_example = mark_post_check_required_lem policies entries "p1" "r1"

truncate_message-length_example :
    (text : List ℕ) × (truncate_message (1 ∷ 2 ∷ 3 ∷ 4 ∷ 5 ∷ 6 ∷ 7 ∷ []) 6 ≡ ok text)
    × (length text ≡ 6)
truncate_message-length_example =
    truncate_message-length (1 ∷ 2 ∷ 3 ∷ 4 ∷ 5 ∷ 6 ∷ 7 ∷ []) 6 (omega arith)
