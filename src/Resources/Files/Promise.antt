-- ===== src/Resources/Files/Promise.antt =====
-- A file resource from its validation to the check after its enforcement.
use osconfig.Base.{◌+◌, String, Bool, true, false, Option, none, ◌≡◌, ◌≢◌, refl, sym, some, ap, ◌∙◌}
use osconfig.Base.Dict.{Dict, lookup}
use osconfig.Base.Texts.{is_blank}
use osconfig.Resources.{File, World, Env}
use osconfig.Resources.Disk.Calls.{text_of}
use osconfig.Resources.Files.{
  absent, unrecognized, Source, FileConfig, ManagedFile, new_file, source_path, validate,
  check_state, enforce_state,
}
use osconfig.Resources.Files.Desires.{IsDesired, check_state-Checked}
use osconfig.Resources.Files.Ready.{IsSourced, Named}
use osconfig.Resources.Files.Refines.{Prepared, Enforced, enforce_state-Enforced}
use osconfig.Resources.Files.Validates.{validate-Prepared}

pair_eq : {A B : Type 0} {a a' : A} {b b' : B} → a ≡ a' → b ≡ b' → ◌≡◌ {A = A × B} (a, b) (a', b')
pair_eq p q = cc

module _ (env : Env) where
  -- What an enforcement that says that the file is as desired has promised.
  pub record Promise (r : FileConfig) (w : World)
      (end : ((Bool × Option String) × ManagedFile) × World) : Type 0 where
    pub no_error : end.0.0.1 ≡ none
    pub state : end.0.1.state ≡ r.state
    pub desired : IsDesired env end.0.1.state end.0.1.checksum (lookup r.path end.1.disk)
    pub sourced :
        r.state ≢ absent
        → (t : String) × (text_of (lookup r.path end.1.disk) ≡ some t)
          × IsSourced env w.disk r.source t
    pub found :
        is_blank r.path ≡ false
        → env.fault end.1.tick ≡ none
        → env.fault (end.1.tick + 1) ≡ none
        → (check_state env end.0.1 end.1).0 ≡ (true, none)

  Prepared-later :
      {d : Dict File} {r : FileConfig} {m : ManagedFile} {v u : World}
      → u.disk ≡ v.disk
      → Prepared env d r m v
      → Prepared env d r m u
  Prepared-later {m = m} same p = record {
    path = p.path;
    state = p.state;
    remote = p.remote;
    source = λ n s.
        let x = p.source n s in
        record {
          named = x.named;
          apart = x.apart;
          text = x.text;
          there = ap (λ d. text_of (lookup m.source d)) same ∙ x.there;
          sum = x.sum;
          sourced = x.sourced;
        };
  }

  Enforced-known :
      {d : Dict File} {s : Source} {m : ManagedFile}
      {end : ((Bool × Option String) × ManagedFile) × World}
      → Enforced env d s m end
      → end.0.1.state ≢ unrecognized
  Enforced-known h e = rw e at h.desired

  -- Let a validation return no error, where a local source is not the managed file and is read to its
  -- end, and let the files be the same when the enforcement begins. If the enforcement says that the
  -- file is as desired, then it returns no error, the file is as its desired state says, and a check that
  -- follows finds it so, if the path is not blank and no call of that check fails. Unless the file is to
  -- be absent, its text is the content of the policy, or what a fetch of the policy's file gave, with the
  -- checksum that the policy names, if any, up to the case of letters, or the text that the local file
  -- had when the validation began.
  pub enforce_state-Promise :
      (r : FileConfig) (w u : World)
      → Named env r.path
      → source_path r ≢ r.path
      → env.fault (w.tick + 1) ≡ none
      → (validate env r new_file w).0.0 ≡ none
      → u.disk ≡ (validate env r new_file w).1.disk
      → (enforce_state env r (validate env r new_file w).0.1 u).0.0.0 ≡ true
      → Promise r w (enforce_state env r (validate env r new_file w).0.1 u)
  enforce_state-Promise r w u names apart quiet valid same e =
      let m = (validate env r new_file w).0.1 in
      let ready =
        Prepared-later same (validate-Prepared env w.disk r names w refl apart quiet valid) in
      let h = enforce_state-Enforced env w.disk r m u names ready e in
      let end = enforce_state env r m u in
      let path = h.same_path ∙ ready.path in
      record {
        no_error = h.no_error;
        state = h.same_state ∙ ready.state;
        desired = rw path at h.desired;
        sourced = λ n.
            let (t, there, asked) = h.sourced (λ s. n (sym ready.state ∙ s)) in
            (t, ap (λ p. text_of (lookup p end.1.disk)) (sym ready.path) ∙ there, asked);
        found = λ named q q'.
            let c = check_state-Checked env end.0.1 end.1 (Enforced-known h) (rw path named) q q' in
            pair_eq (c.decides.1 h.desired) c.no_error;
      }
