-- ===== src/PatchTask/Progress/Whole.antt =====
-- A whole run: it ends, with one report of the completion, and clears the state file.
use mathlib.Core.Path.{subst}
use osconfig.Base.{ℕ, zero, suc, ◌≤◌, ◌≡◌, refl, sym, Option, some, arith}
use osconfig.PatchTask.{
  PatchStep, pre_patch, patching, post_patch, other_step, Env, Machine, Exit, done, fail, panic,
  halted,
}
use osconfig.PatchTask.Steps.{
  Control, again, finished, run_step, complete, write_state, report_failed, report_completed_state,
  run_loop, deferred, run,
}
use osconfig.PatchTask.Progress.{completes, At}
use osconfig.PatchTask.Progress.Ends.{Stepped, run_step-Stepped}

-- The completions reported when the loop ends, by how it ends.
abbrev LoopEnd : Exit (Unit {0}) → Machine → Type 0
LoopEnd (done a) s = completes s.log ≡ 1
LoopEnd (fail e) s = completes s.log ≡ 1
LoopEnd (panic p) s = completes s.log ≡ 0
LoopEnd halted s = completes s.log ≡ 0

-- The steps that are left.
abbrev steps_left : PatchStep → ℕ
steps_left pre_patch = 3
steps_left patching = 2
steps_left post_patch = 1
steps_left (other_step t) = 1

abbrev Found : Option (Exit (Unit {0}) × Machine) → Type 0
Found o = (r : Exit (Unit {0})) × (s : Machine) × (o ≡ some (r, s)) × LoopEnd r s

module _ (env : Env) where
  -- What the loop does with the end of a step.
  abbrev turn : ℕ → Exit Control → Machine → Option (Exit (Unit {0}) × Machine)
  turn fuel r s' = elim r [
    | done again ↦ run_loop env fuel s'
    | done finished ↦ some (done tt, s')
    | fail e ↦ some (fail e, s')
    | panic p ↦ some (panic p, s')
    | halted ↦ some (halted, s')
  ]

  turn-Found :
      (fuel : ℕ) (x : PatchStep) (r : Exit Control) (s' : Machine)
      → steps_left x ≤ suc fuel
      → Stepped x r s'
      → ((s : Machine) (y : PatchStep)
          → At y 0 s
          → steps_left y ≤ fuel
          → Found (run_loop env fuel s))
      → Found (turn fuel r s')
  turn-Found fuel pre_patch (done again) s' le h more = more s' patching h (omega arith)
  turn-Found fuel patching (done again) s' le h more = more s' post_patch h (omega arith)
  turn-Found fuel post_patch (done again) s' le h more = absurd h
  turn-Found fuel (other_step t) (done again) s' le h more = absurd h
  turn-Found fuel pre_patch (done finished) s' le h more = (done tt, s', refl, h)
  turn-Found fuel _ (done finished) s' le h more = (done tt, s', refl, h)
  turn-Found fuel pre_patch (fail e) s' le h more = (fail e, s', refl, h)
  turn-Found fuel _ (fail e) s' le h more = (fail e, s', refl, h)
  turn-Found fuel pre_patch (panic p) s' le h more = (panic p, s', refl, h)
  turn-Found fuel _ (panic p) s' le h more = (panic p, s', refl, h)
  turn-Found fuel pre_patch halted s' le h more = (halted, s', refl, h)
  turn-Found fuel _ halted s' le h more = (halted, s', refl, h)

  run_loop-Found :
      (fuel : ℕ) (s : Machine) (x : PatchStep)
      → At x 0 s
      → steps_left x ≤ fuel
      → Found (run_loop env fuel s)
  unfolding run_loop
  run_loop-Found zero s pre_patch a le = absurd (omega arith)
  run_loop-Found zero s patching a le = absurd (omega arith)
  run_loop-Found zero s post_patch a le = absurd (omega arith)
  run_loop-Found zero s (other_step t) a le = absurd (omega arith)
  run_loop-Found (suc fuel) s x a le =
      turn-Found fuel x (run_step env s.task.patch_step s).0 (run_step env s.task.patch_step s).1 le
        (subst (λ y. Stepped x (run_step env y s).0 (run_step env y s).1) (sym a.at_step)
          (run_step-Stepped env x s a))
        (run_loop-Found fuel)

steps_left-le : (x : PatchStep) → steps_left x ≤ 3
steps_left-le pre_patch = omega arith
steps_left-le patching = omega arith
steps_left-le post_patch = omega arith
steps_left-le (other_step t) = omega arith

-- The end of a run: cut off by a reboot it has reported no completion, and in every other case one.
abbrev pub RunEnd : Exit (Unit {0}) → Machine → Type 0
RunEnd (done a) s = completes s.log ≡ 1
RunEnd (fail e) s = completes s.log ≡ 1
RunEnd (panic p) s = ⊥
RunEnd halted s = completes s.log ≡ 0

deferred-RunEnd :
    (env : Env) (r : Exit (Unit {0})) (s : Machine)
    → LoopEnd r s
    → RunEnd (deferred env (r, s)).0 (deferred env (r, s)).1
unfolding deferred complete write_state report_failed report_completed_state
deferred-RunEnd env (done a) s h = h
deferred-RunEnd env (fail e) s h = h
deferred-RunEnd env (panic p) s h = ground arith
deferred-RunEnd env halted s h = h

-- From any step, known or not, and whatever its calls return, a run of the task ends within three
-- rounds of the loop and lets no panic out. If it returns, it has called ReportTaskComplete once,
-- also after a panic; if it ends in a reboot it has not.
pub run-RunEnd :
    (env : Env) (s : Machine)
    → completes s.log ≡ 0
    → (r : Exit (Unit {0})) × (s' : Machine) × (run env 3 s ≡ some (r, s')) × RunEnd r s'
unfolding run
run-RunEnd env s none_sent =
    let (r, s', e, h) =
      run_loop-Found env 3 s s.task.patch_step (record { at_step = refl; sent = none_sent })
        (steps_left-le s.task.patch_step) in
    ((deferred env (r, s')).0, (deferred env (r, s')).1, rw (e, run), deferred-RunEnd env r s' h)
