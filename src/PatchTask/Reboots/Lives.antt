-- ===== src/PatchTask/Reboots/Lives.antt =====
-- All the runs that work on one patch task, across the restarts of the agent.
use osconfig.Base.{
  ℕ, zero, suc, ◌+◌, ◌≤◌, ◌≡◌, refl, sym, ap, ◌⊎◌, String, Bool, true, Option, none, some, [],
  arith,
}
use mathlib.Core.Path.{subst}
use osconfig.TaskState.{File, absent, holds, garbled, load_state}
use osconfig.PatchTask.{
  other_step, pre_patch, RebootConfig, PatchTask, State, no_progress, Env, Machine, Exit, done,
  fail, panic, halted, is_never,
}
use osconfig.PatchTask.Steps.{
  Control, run_step, again, finished, complete, report_failed, set_step, run_loop, deferred, run,
  run_apply_patches,
}
use osconfig.PatchTask.Reboots.{
  reboots, Stored, Safe, report_completed_state-Safe, write_state-Safe, wrap_save-Safe,
}
use osconfig.PatchTask.Reboots.Steps.{run_step-Safe}

-- The task that `RunApplyPatches` makes: a new Go struct has the empty step.
abbrev pub new_task : String → RebootConfig → Bool → PatchTask
new_task task_id reboot_config dry_run = record {
  task_id = task_id;
  reboot_config = reboot_config;
  dry_run = dry_run;
  started_at = 0;
  patch_step = other_step "";
  pre_patch_reboot_count = 0;
  post_patch_reboot_count = 0;
  last_progress_state = no_progress;
}

-- A state file that holds no patch task.
abbrev pub HoldsNoTask : File State → Type 0
HoldsNoTask absent = Unit {0}
HoldsNoTask (garbled text) = Unit {0}
HoldsNoTask (holds none) = Unit {0}
HoldsNoTask (holds (some t)) = ⊥

-- Where the agent stands after a run on the task: the first, or one that a restarted agent begins
-- with what it loads from the state file (`loadTaskFromState`), in surroundings of its own. The agent is
-- restarted only where a run has ended; a crash in the middle of one is not covered.
pub data Life : Machine → Type 0 where
  received :
      (env : Env) (s : Machine) {r : Exit (Unit {0})} {s' : Machine}
      → (task_id : String) (reboot_config : RebootConfig) (dry_run : Bool)
      → s.task ≡ new_task task_id reboot_config dry_run
      → s.log ≡ []
      → HoldsNoTask s.disk.live
      → run_apply_patches env 3 s ≡ some (r, s')
      → Life s'
  resumed :
      (env : Env) (read_old remove : Option String) (s : Machine) {t : PatchTask}
      {r : Exit (Unit {0})} {s' : Machine}
      → Life s
      → s.disk.live ≡ holds (some t)
      → run env 3 (record s { task = t; disk = (load_state none read_old remove s.disk).1 })
        ≡ some (r, s')
      → Life s'

-- What holds of the machine where a run ends, if it ends.
abbrev AtEnd : (Machine → Type 0) → Option (Exit (Unit {0}) × Machine) → Type 0
AtEnd P none = Unit {0}
AtEnd P (some (r, s)) = P s

module _ (env : Env) where
  deferred-Safe : (r : Exit (Unit {0})) (s : Machine) → Safe 0 s → Safe 0 (deferred env (r, s)).1
  unfolding deferred complete report_failed
  deferred-Safe (done a) s h = write_state-Safe env 0 none s h tt
  deferred-Safe (fail e) s h = write_state-Safe env 0 none s h tt
  deferred-Safe (panic p) s h = report_completed_state-Safe env _ _ s h
  deferred-Safe halted s h = h

  run_loop-Safe : (fuel : ℕ) (s : Machine) → Safe 0 s → AtEnd (Safe 0) (run_loop env fuel s)
  unfolding run_loop
  run_loop-Safe zero s h = tt
  run_loop-Safe (suc fuel) s h =
      next (run_step env s.task.patch_step s).0 (run_step env s.task.patch_step s).1
        (run_step-Safe env s.task.patch_step s refl h) (run_loop-Safe fuel)
    where
      next :
          (r : Exit Control) (s' : Machine)
          → Safe 0 s'
          → ((s : Machine) → Safe 0 s → AtEnd (Safe 0) (run_loop env fuel s))
          → AtEnd (Safe 0) (elim r [
            | done again ↦ run_loop env fuel s'
            | done finished ↦ some (done tt, s')
            | fail e ↦ some (fail e, s')
            | panic p ↦ some (panic p, s')
            | halted ↦ some (halted, s')
          ])
      next (done again) s' h' more = more s' h'
      next (done finished) s' h' more = h'
      next (fail e) s' h' more = h'
      next (panic p) s' h' more = h'
      next halted s' h' more = h'

  run-Safe : (fuel : ℕ) (s : Machine) → Safe 0 s → AtEnd (Safe 0) (run env fuel s)
  unfolding run
  run-Safe fuel s h = over (run_loop env fuel s) (run_loop-Safe fuel s h)
    where
      over :
          (o : Option (Exit (Unit {0}) × Machine))
          → AtEnd (Safe 0) o
          → AtEnd (Safe 0) (elim o [ none ↦ none | some end ↦ some (deferred env end) ])
      over none h = tt
      over (some (r, s')) h = deferred-Safe r s' h

loaded-Safe :
    (read_old remove : Option String) (s : Machine) {t : PatchTask}
    → s.disk.live ≡ holds (some t)
    → Safe 0 s
    → Safe 0 (record s { task = t; disk = (load_state none read_old remove s.disk).1 })
unfolding load_state
loaded-Safe read_old remove s {t} e h =
    let same : (load_state none read_old remove s.disk).1.live ≡ s.disk.live = ground arith in
    record {
      task_ok = subst (Stored (reboots s.log + 0)) e h.disk_ok;
      disk_ok = subst (Stored (reboots s.log + 0)) (sym same) h.disk_ok;
    }

Stored-no_task : (n : ℕ) (f : File State) → HoldsNoTask f → Stored n f
Stored-no_task n absent h = tt
Stored-no_task n (garbled text) h = tt
Stored-no_task n (holds none) h = tt
Stored-no_task n (holds (some t)) h = absurd h

first-Safe :
    (env : Env) (s : Machine) (task_id : String) (reboot_config : RebootConfig) (dry_run : Bool)
    → s.task ≡ new_task task_id reboot_config dry_run
    → s.log ≡ []
    → HoldsNoTask s.disk.live
    → Safe 0 (set_step env pre_patch s).1
unfolding set_step
first-Safe env s task_id reboot_config dry_run e l d =
    let pre : s.task.pre_patch_reboot_count ≡ 0 = ap (λ t. t.pre_patch_reboot_count) e in
    let post : s.task.post_patch_reboot_count ≡ 0 = ap (λ t. t.post_patch_reboot_count) e in
    let none_yet : reboots s.log ≡ 0 = ap reboots l in
    wrap_save-Safe env 0 "error saving state: "
      (record s { task = record (s.task) { patch_step = pre_patch } })
      (record {
        task_ok = ground arith;
        disk_ok = Stored-no_task (reboots s.log + 0) s.disk.live d;
      })

Life-Safe : {s : Machine} → Life s → Safe 0 s
unfolding run_apply_patches
Life-Safe (received env s {r} {s'} task_id reboot_config dry_run e l d ran) =
    subst (AtEnd (Safe 0)) ran (
      run-Safe env 3 (set_step env pre_patch s).1
        (first-Safe env s task_id reboot_config dry_run e l d))
Life-Safe (resumed env read_old remove s life e ran) =
    subst (AtEnd (Safe 0)) ran (run-Safe env 3 _ (loaded-Safe read_old remove s e (Life-Safe life)))

-- Over all the runs on one patch task, however calls fail and whenever the agent is restarted
-- between them, the machine is rebooted five times at most, the count of the reboots before the
-- patching is one at most, and the machine is not rebooted at all if the task's reboot config is NEVER or it is a dry run.
pub reboots_bounded :
    {s : Machine}
    → Life s
    → (reboots s.log ≤ 5)
      × (s.task.pre_patch_reboot_count ≤ 1)
      × ((is_never s.task.reboot_config ≡ true) ⊎ (s.task.dry_run ≡ true) → reboots s.log ≡ 0)
reboots_bounded life = let safe = Life-Safe life in ground arith
