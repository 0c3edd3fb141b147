-- ===== src/Resources/Files/Refines.antt =====
-- The methods of a file resource reach the desired state that the abstract view names.
use osconfig.Resources.Files.Desires.{IsDesired, Desired}
use osconfig.Resources.Files.Ready.{IsSourced, Named, Ready, download-Downloaded, copy_file_done}
use mathlib.Core.Path.{subst}
use osconfig.Base.{
  Bool-cases, sym, ap, ◌∙◌, inl, inr, String, Bool, true, Option, none, some, ◌≡◌, ◌≢◌, ap, ◌∙◌,
  sym, refl, arith, inl, inr, ◌==◌,
}
use osconfig.Base.Dict.{Dict, lookup}
use osconfig.Resources.Disk.Calls.{text_of, remove_gone}
use osconfig.Resources.{File, File, World, Env}
use osconfig.Resources.Disk.{remove}
use osconfig.Resources.Disk.Calls.{text_of}
use osconfig.Resources.Files.{
  install, install_present, enforce_state, source_path, download, FileConfig, DesiredState, absent,
  present, contents_match_state, unrecognized, Source, FileConfig, ManagedFile, source_path,
  download, enforce_state,
}

module _ (env : Env) where
  -- A file with the text of the source is as desired.
  IsDesired-text :
      (m : ManagedFile) (f : Option File) {t : String}
      → (state : DesiredState) → state ≢ absent
      → state ≢ unrecognized
      → text_of f ≡ some t
      → env.sha256 t ≡ m.checksum
      → IsDesired env state m.checksum f
  IsDesired-text m f absent n u h sum = absurd (n refl)
  IsDesired-text m f present n u h sum = λ e. ground arith
  IsDesired-text m none contents_match_state n u h sum = absurd (cc)
  IsDesired-text m (some f) contents_match_state n u h sum = (f, refl, ground arith)
  IsDesired-text m f unrecognized n u h sum = absurd (u refl)

  -- How an enforcement ends that says that the file is as desired.
  pub record Enforced (d : Dict File) (s : Source) (m : ManagedFile)
      (end : ((Bool × Option String) × ManagedFile) × World) : Type 0 where
    pub no_error : end.0.0.1 ≡ none
    pub same_path : end.0.1.path ≡ m.path
    pub same_state : end.0.1.state ≡ m.state
    pub desired : Desired env end.0.1 end.1
    pub sourced :
        m.state ≢ absent
        → (t : String) × (text_of (lookup m.path end.1.disk) ≡ some t) × IsSourced env d s t

  -- What a validation leaves: a source that is ready, or one that is still to be downloaded.
  pub record Prepared (d : Dict File) (r : FileConfig) (m : ManagedFile) (w : World) : Type 0 where
    pub path : m.path ≡ r.path
    pub state : m.state ≡ r.state
    pub source : m.state ≢ absent → m.source ≢ "" → Ready env d r.source m w
    pub remote : m.state ≢ absent → m.source ≡ "" → source_path r ≡ ""

  -- Once the source is copied, the file is as desired.
  install-Enforced :
      (d : Dict File) (s : Source) (m : ManagedFile) (w : World)
      → m.state ≢ absent
      → m.state ≢ unrecognized
      → Ready env d s m w
      → (install env m w).0.0.0 ≡ true
      → Enforced d s m (install env m w)
  unfolding install
  install-Enforced d s m w n u ready e =
      let copied = copy_file_done env m.path m.source m.permissions w ready.apart ready.there in
      let after = (install env m w).1 in
      let m' = (install env m w).0.1 in
      let same : m' ≡ m = ground arith in
      let f = lookup m.path after.disk in
      let there : text_of f ≡ some ready.text = ground (arith, copied) in
      record {
        no_error = ground arith;
        same_path = ap (λ x. x.path) same;
        same_state = ap (λ x. x.state) same;
        desired =
            subst (λ (x : ManagedFile). Desired env x after) (sym same)
              (IsDesired-text m f m.state n u there ready.sum);
        sourced = λ _. (ready.text, there, ready.sourced);
      }

  install_present-Enforced :
      (d : Dict File) (r : FileConfig) (m : ManagedFile) (w : World)
      → Named env r.path
      → m.state ≢ absent
      → m.state ≢ unrecognized
      → Prepared d r m w
      → (install_present env r m w).0.0.0 ≡ true
      → Enforced d r.source m (install_present env r m w)
  unfolding install_present
  install_present-Enforced dict r m w names n u ready e = elim (Bool-cases (m.source == "")) [
    | inl blank ↦
        let e1 : m.source ≡ "" = ground arith in
        let d =
          download-Downloaded env dict r m w names ready.path (ready.remote n e1) (ground arith) in
        let m' = (download env r m w).0.1 in
        let v = (download env r m w).1 in
        let eq : install_present env r m w ≡ install env m' v = ground arith in
        let f =
          install-Enforced dict r.source m' v (λ x. n (sym d.same_state ∙ x))
            (λ x. u (sym d.same_state ∙ x)) d.ready (sym (ap (λ x. x.0.0.0) eq) ∙ e) in
        rw eq (record {
          no_error = f.no_error;
          same_path = f.same_path ∙ d.same_path;
          same_state = f.same_state ∙ d.same_state;
          desired = f.desired;
          sourced = λ x.
              let (t, there, asked) = f.sourced (λ y. n (sym d.same_state ∙ y)) in
              (
                t,
                ap (λ p. text_of (lookup p (install env m' v).1.disk)) (sym d.same_path) ∙ there,
                asked,
              );
        })
    | inr some_source ↦
        let eq : install_present env r m w ≡ install env m w = ground arith in
        rw eq (
          install-Enforced dict r.source m w n u (ready.source n (ground arith))
            (sym (ap (λ x. x.0.0.0) eq) ∙ e))
  ]

  removed-Enforced :
      (d : Dict File) (r : FileConfig) (m : ManagedFile) (w : World)
      → m.state ≡ absent
      → (enforce_state env r m w).0.0.0 ≡ true
      → Enforced d r.source m (enforce_state env r m w)
  unfolding enforce_state
  removed-Enforced d r m w s e =
      let after = (remove env m.path w).1 in
      let eq : enforce_state env r m w ≡ (((true, none), m), after) = ground arith in
      rw eq (record {
        no_error = refl;
        same_path = refl;
        same_state = refl;
        desired = rw s (ground (arith, remove_gone env m.path w));
        sourced = λ n. absurd (n s);
      })

  -- Where a validation has prepared the source, an enforcement that says that the file is as desired
  -- returns no error, and the file is so.
  pub enforce_state-Enforced :
      (d : Dict File) (r : FileConfig) (m : ManagedFile) (w : World)
      → Named env r.path
      → Prepared d r m w
      → (enforce_state env r m w).0.0.0 ≡ true
      → Enforced d r.source m (enforce_state env r m w)
  unfolding enforce_state
  enforce_state-Enforced dict r m w names ready e = go m.state refl
    where
      go :
          (state : DesiredState)
          → m.state ≡ state
          → Enforced dict r.source m (enforce_state env r m w)
      go absent s = removed-Enforced dict r m w s e
      go present s =
          let eq : enforce_state env r m w ≡ install_present env r m w = ground arith in
          rw eq (
            install_present-Enforced dict r m w names (λ x. cc) (λ x. cc) ready
              (sym (ap (λ x. x.0.0.0) eq) ∙ e))
      go contents_match_state s =
          let eq : enforce_state env r m w ≡ install_present env r m w = ground arith in
          rw eq (
            install_present-Enforced dict r m w names (λ x. cc) (λ x. cc) ready
              (sym (ap (λ x. x.0.0.0) eq) ∙ e))
      go unrecognized s = absurd (ground arith)
