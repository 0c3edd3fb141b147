-- ===== src/PatchTask/Reboots/Ask.antt =====
-- The reboot of `rebootIfNeeded`: asked for, counted, saved, and then made.
use osconfig.Base.{
  suc, ◌+◌, ◌<◌, ◌≡◌, refl, sym, ap, ◌∙◌, ◌≢◌, String, Bool, true, false, ◌∷◌, arith,
}
use mathlib.Core.Path.{subst}
use osconfig.TaskState.{save}
use osconfig.PatchTask.{
  pre_patch, ProgressState, rebooting, Env, Machine, Exit, done, fail, panic, halted, is_never,
  attempt, wrap, progress_sent,
}
use osconfig.PatchTask.Triples.{Triple, Keeps, attempt-Triple, attempt-Keeps}
use osconfig.PatchTask.Steps.{
  write_state, save_state, note_progress, report_continuing_state, system_reboot_required,
  reboot_system, count_reboot, reboot_wanted, do_reboot, reboot_allowed, reboot_if_needed,
}
use osconfig.PatchTask.Reboots.{
  reboots, Counted, Stored, Safe, Stored-weaken, save_state-Safe, save_state-Frame,
  report_continuing_state-Safe,
}

module _ (env : Env) where
  -- With a reboot counted in the task and not yet in the file.
  record Counting (s : Machine) : Type 0 where
    task_ok : Counted (reboots s.log + 1) s.task
    disk_ok : Stored (reboots s.log) s.disk.live

  abbrev AfterSave : Exit (Unit {0}) → Machine → Type 0
  AfterSave (done a) s = Safe 1 s
  AfterSave (fail e) s = Safe 0 s
  AfterSave (panic p) s = Safe 0 s
  AfterSave halted s = Safe 0 s

  save_state-AfterSave : Triple Counting (save_state env) AfterSave
  unfolding save_state write_state save
  save_state-AfterSave s c =
      ground (arith, Stored-weaken (reboots s.log) (reboots s.log + 0) s.disk.live)

  Safe-weaken : (s : Machine) → Safe 1 s → Safe 0 s
  Safe-weaken s h = record {
    task_ok = ground arith;
    disk_ok =
        Stored-weaken (reboots s.log + 1) (reboots s.log + 0) s.disk.live (omega arith) h.disk_ok;
  }

  reboot_system-Safe : Triple (Safe 1) (reboot_system env) (λ _ s. Safe 0 s)
  unfolding reboot_system
  reboot_system-Safe s h = ground (
    arith,
    Stored-weaken (reboots s.log + 1) (suc (reboots s.log) + 0) s.disk.live (omega arith) h.disk_ok,
    Stored-weaken (reboots s.log + 1) (reboots s.log + 0) s.disk.live (omega arith) h.disk_ok,
  )

  -- Where a reboot may be asked for.
  pub record Ready (is_pre : Bool) (s : Machine) : Type 0 where
    pub safe : Safe 0 s
    pub first_pre : is_pre ≡ true → s.task.pre_patch_reboot_count ≡ 0
    pub under_way : s.task.patch_step ≢ pre_patch

  -- Where one more reboot can be counted.
  record Room (is_pre : Bool) (s : Machine) : Type 0 where
    ready : Ready is_pre s
    below : s.task.pre_patch_reboot_count + s.task.post_patch_reboot_count < 5

  save_state-Ready : (b : Bool) → Keeps (Ready b) (save_state env)
  save_state-Ready b s r =
      let frame = save_state-Frame env s in
      record {
        safe = save_state-Safe env 0 s r.safe;
        first_pre = λ e. frame.same_pre ∙ r.first_pre e;
        under_way = λ e. r.under_way (sym frame.same_step ∙ e);
      }

  pub wrap_save-Ready : (b : Bool) (text : String) → Keeps (Ready b) (wrap text (save_state env))
  wrap_save-Ready b text =
      attempt-Keeps (Ready b) _ _ _ (save_state-Ready b) (λ e s r. r) (λ a s r. r)

  note_progress-Ready : (b : Bool) (p : ProgressState) → Keeps (Ready b) (note_progress env p)
  unfolding note_progress
  note_progress-Ready b p s r = save_state-Ready b _ (ground arith)

  pub report_continuing_state-Ready :
      (b : Bool) (p : ProgressState) → Keeps (Ready b) (report_continuing_state env p)
  unfolding report_continuing_state
  report_continuing_state-Ready b p s r = ground (
    arith,
    note_progress-Ready b p (record s { log = progress_sent p ∷ s.log; tick = s.tick + 1 }),
  )

  count_reboot-Counting :
      (is_pre : Bool) (s : Machine)
      → Room is_pre s
      → is_never s.task.reboot_config ≡ false
      → s.task.dry_run ≡ false
      → Counting (count_reboot env is_pre s).1
  unfolding count_reboot
  count_reboot-Counting true s r not_never not_dry = ground arith
  count_reboot-Counting false s r not_never not_dry = ground arith

  abbrev AfterCount : Exit (Unit {0}) → Machine → Type 0
  AfterCount (done a) s = Counting s
  AfterCount (fail e) s = Safe 0 s
  AfterCount (panic p) s = Safe 0 s
  AfterCount halted s = Safe 0 s

  count-AfterCount :
      (is_pre : Bool) (s : Machine)
      → Room is_pre s
      → is_never s.task.reboot_config ≡ false
      → s.task.dry_run ≡ false
      → Triple (λ t. t ≡ s) (count_reboot env is_pre) AfterCount
  unfolding count_reboot
  count-AfterCount true s r not_never not_dry t e =
      subst Counting (ap (λ u. (count_reboot env true u).1) (sym e))
        (count_reboot-Counting true s r not_never not_dry)
  count-AfterCount false s r not_never not_dry t e =
      subst Counting (ap (λ u. (count_reboot env false u).1) (sym e))
        (count_reboot-Counting false s r not_never not_dry)

  wrap_save-AfterSave : (text : String) → Triple Counting (wrap text (save_state env)) AfterSave
  wrap_save-AfterSave text =
      attempt-Triple AfterSave AfterSave save_state-AfterSave (λ e t h. h) (λ a t h. h) (λ p t h. h)
        (λ t h. h)

  do_reboot-Safe :
      (is_pre : Bool) (s : Machine)
      → Room is_pre s
      → is_never s.task.reboot_config ≡ false
      → s.task.dry_run ≡ false
      → Safe 0 (do_reboot env is_pre s).1
  unfolding do_reboot
  do_reboot-Safe is_pre s r not_never not_dry =
      attempt-Triple AfterCount (λ _ t. Safe 0 t) (count-AfterCount is_pre s r not_never not_dry)
        (λ e t h. h)
        (λ _.
          attempt-Triple AfterSave (λ _ t. Safe 0 t) (wrap_save-AfterSave "error saving state: ")
            (λ e t h. h)
            (λ _.
              attempt-Triple (λ _ t. Safe 1 t) (λ _ t. Safe 0 t)
                (attempt-Keeps (Safe 1) _ _ _ (report_continuing_state-Safe env 1 rebooting)
                  (λ e t h. h) (λ _ t h. h))
                (λ e t h. Safe-weaken t h) (λ _. reboot_system-Safe) (λ p t h. Safe-weaken t h)
                (λ t h. Safe-weaken t h))
            (λ p t h. h) (λ t h. h))
        (λ p t h. h) (λ t h. h) s refl

  AfterWanted : Bool → Exit Bool → Machine → Type 0
  AfterWanted b (done true) s = Room b s
  AfterWanted b _ s = Ready b s

  reboot_wanted-AfterWanted : (b : Bool) → Triple (Ready b) (reboot_wanted env b) (AfterWanted b)
  unfolding reboot_wanted system_reboot_required attempt AfterWanted
  reboot_wanted-AfterWanted b s r = ground arith

  reboot_allowed-Safe :
      (is_pre reboot : Bool)
      → Triple
          (AfterWanted is_pre (done reboot))
          (reboot_allowed env is_pre reboot)
          (λ _ s. Safe 0 s)
  unfolding reboot_allowed AfterWanted
  reboot_allowed-Safe is_pre false s r = r.safe
  reboot_allowed-Safe is_pre true s r = ground (arith, do_reboot-Safe is_pre s r)

  -- With the checks of `rebootIfNeeded`, a reboot asked for where the task is under way keeps the
  -- account right.
  pub reboot_if_needed-Safe :
      (is_pre : Bool) → Triple (Ready is_pre) (reboot_if_needed env is_pre) (λ _ s. Safe 0 s)
  unfolding reboot_if_needed AfterWanted
  reboot_if_needed-Safe is_pre =
      attempt-Triple (AfterWanted is_pre) (λ _ s. Safe 0 s) (reboot_wanted-AfterWanted is_pre)
        (λ e s r. r.safe) (reboot_allowed-Safe is_pre) (λ p s r. r.safe) (λ s r. r.safe)
