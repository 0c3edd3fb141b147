-- ===== src/Resources/Files/Desires.antt =====
-- What a file resource promises: the abstract state that it manages, and that its methods reach it.
use osconfig.Base.{◌+◌, String, Bool, true, false, Option, none, some, ◌≡◌, ◌≢◌, ◌↔◌, refl, arith}
use osconfig.Base.Dict.{lookup}
use osconfig.Base.Texts.{is_blank}
use osconfig.Resources.{File, World, Env}
use osconfig.Resources.Disk.{exists, open_file, read}
use osconfig.Resources.Download.{contents_match}
use osconfig.Resources.Files.{
  DesiredState, absent, present, contents_match_state, unrecognized, ManagedFile, check_state,
}

module _ (env : Env) where
  -- The desired state of a path, as a fact about the disk.
  abbrev pub IsDesired : DesiredState → String → Option File → Type 0
  IsDesired absent sum f = f ≡ none
  IsDesired present sum f = f ≢ none
  IsDesired contents_match_state sum f =
      (file : File) × (f ≡ some file) × (env.sha256 file.content ≡ sum)
  IsDesired unrecognized sum f = ⊥

  abbrev pub Desired : ManagedFile → World → Type 0
  Desired m w = IsDesired m.state m.checksum (lookup m.path w.disk)

  -- The tests of a check, where none of its calls fails.
  check_found :
      (state : DesiredState) (m : ManagedFile) (w : World) (f : Option File)
      → m.state ≡ state
      → lookup m.path w.disk ≡ f
      → is_blank m.path ≡ false
      → env.fault w.tick ≡ none
      → env.fault (w.tick + 1) ≡ none
      → ((check_state env m w).0.0 ≡ true) ↔ IsDesired state m.checksum f
  unfolding check_state exists contents_match open_file read
  check_found absent m w none s e b q q' = (λ _. refl, λ _. ground arith)
  check_found absent m w (some f) s e b q q' = (λ x. absurd (ground arith), λ x. absurd (cc))
  check_found present m w none s e b q q' = (λ x. absurd (ground arith), λ x. absurd (x refl))
  check_found present m w (some f) s e b q q' = (λ x y. cc, λ x. ground arith)
  check_found contents_match_state m w none s e b q q' =
      (λ x. absurd (ground arith), λ (g, x, y). absurd (cc))
  check_found contents_match_state m w (some f) s e b q q' =
      (λ h. (f, refl, ground (arith)), λ (g, x, y). ground (arith, x, y))
  check_found unrecognized m w f s e b q q' = (λ x. ground arith, λ x. absurd x)

  -- How a check ends whose calls do not fail.
  pub record Checked (m : ManagedFile) (w : World) (end : (Bool × Option String) × World)
      : Type 0 where
    pub decides : (end.0.0 ≡ true) ↔ Desired m w
    pub no_error : end.0.1 ≡ none
    pub changes_nothing : end.1.disk ≡ w.disk

  -- Where the path is not blank, the state is one that the agent knows, and neither call of the system
  -- fails, a check returns no error, changes nothing, and says exactly whether the file is as desired.
  pub check_state-Checked :
      (m : ManagedFile) (w : World)
      → m.state ≢ unrecognized
      → is_blank m.path ≡ false
      → env.fault w.tick ≡ none
      → env.fault (w.tick + 1) ≡ none
      → Checked m w (check_state env m w)
  unfolding check_state exists contents_match open_file read
  check_state-Checked m w k b q q' = record {
    decides = check_found m.state m w (lookup m.path w.disk) refl refl b q q';
    no_error = ground arith;
    changes_nothing = ground arith;
  }
