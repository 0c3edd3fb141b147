-- ===== src/OsPatch/Upgrade/Laws.antt =====
-- What the upgrade functions hand to the package manager, against its description; apt's options.
pub mod Yum
use osconfig.Base.{
  ◌≡◌, refl, String, Bool, true, false, not, ◌&&◌, Option, none, List, [], ◌∷◌, map, foldl, arith,
  Result, ok, err, panicked, of_error, if◌then◌else◌, is_empty, select, All,
}
use osconfig.OsPatch.{Exclude, PkgInfo, has_names}
use osconfig.OsPatch.Filter.{IsMade, wanted, filter_packages_lem}
use osconfig.OsPatch.Upgrade.{
  Run, install_filtered, AptUpgradeType, apt_get_upgrade, AptGetUpgradeOpts, AptGetUpgradeOption,
  apt_get_upgrade_type, apt_get_excludes, apt_get_exclusive_packages, apt_get_dry_run, apt_get_opts,
  run_apt_get_upgrade,
}

-- The run that a user expects. After a failed listing nothing is installed. Otherwise the packages that
-- pass are handed over in one call, whose error is the result; there is no call, and no error, in a dry
-- run or where no package passes, and an error with exclusive packages and excludes together.
abbrev pub expected :
    (PkgInfo → String)
    → (List String → Option String)
    → Option (List String)
    → List Exclude
    → Bool
    → Result String (List PkgInfo)
    → Run
expected name_of install exclusive_packages excludes dryrun (err e) = record {
  result = err e;
  installs = [];
}
expected name_of install exclusive_packages excludes dryrun (panicked s) = record {
  result = panicked s;
  installs = [];
}
expected name_of install exclusive_packages excludes dryrun (ok pkgs) =
    let names = map name_of (select (wanted exclusive_packages excludes) pkgs) in
    let both = has_names exclusive_packages && not (is_empty excludes) in
    let calls = not both && (not dryrun && not (is_empty names)) in
    record {
      result =
          if both
          then err "exclusivePackages and excludes can not both be non 0"
          else if calls
          then of_error (install names)
          else ok tt;
      installs = if calls then names ∷ [] else [];
    }

module _ (name_of : PkgInfo → String) (install : List String → Option String) where
  after_filter :
      (dryrun : Bool) (chosen : List PkgInfo)
      → ◌≡◌ {A = Run}
          (elim chosen [
            | [] ↦ record { result = ok tt; installs = [] }
            | pkg ∷ rest ↦ if dryrun then record { result = ok tt; installs = [] } else record {
              result = of_error (install (map name_of (pkg ∷ rest)));
              installs = map name_of (pkg ∷ rest) ∷ [];
            }
          ])
          (let names = map name_of chosen in
            let calls = not dryrun && not (is_empty names) in
            record {
              result = if calls then of_error (install names) else ok tt;
              installs = if calls then names ∷ [] else [];
            })
  after_filter true [] = refl
  after_filter false [] = refl
  after_filter true (pkg ∷ rest) = refl
  after_filter false (pkg ∷ rest) = refl

  pub install_filtered-eq-expected :
      (exclusive_packages : Option (List String)) (excludes : List Exclude) (dryrun : Bool)
      (updates : Result String (List PkgInfo))
      → All IsMade excludes
      → install_filtered name_of install exclusive_packages excludes dryrun updates
        ≡ expected name_of install exclusive_packages excludes dryrun updates
  unfolding install_filtered
  install_filtered-eq-expected exclusive_packages excludes dryrun (err e) h = refl
  install_filtered-eq-expected exclusive_packages excludes dryrun (panicked s) h = refl
  install_filtered-eq-expected exclusive_packages excludes dryrun (ok pkgs) h = ground (
    arith,
    filter_packages_lem pkgs exclusive_packages excludes h,
    after_filter dryrun (select (wanted exclusive_packages excludes) pkgs),
  )

-- An option by its constructor, of the functions that make options for apt.
pub data AptChoice : Type 0 where
  apt_type : AptUpgradeType → AptChoice
  apt_without : List Exclude → AptChoice
  apt_only : Option (List String) → AptChoice
  apt_dry : Bool → AptChoice

abbrev pub apt_option : AptChoice → AptGetUpgradeOption
apt_option (apt_type t) = apt_get_upgrade_type t
apt_option (apt_without es) = apt_get_excludes es
apt_option (apt_only names) = apt_get_exclusive_packages names
apt_option (apt_dry b) = apt_get_dry_run b

-- The value of the last option of a kind, or the one that holds without it.
abbrev pub last_type : AptUpgradeType → List AptChoice → AptUpgradeType
last_type d [] = d
last_type d (apt_type t ∷ cs) = last_type t cs
last_type d (_ ∷ cs) = last_type d cs

abbrev pub last_without : List Exclude → List AptChoice → List Exclude
last_without d [] = d
last_without d (apt_without es ∷ cs) = last_without es cs
last_without d (_ ∷ cs) = last_without d cs

abbrev pub last_only : Option (List String) → List AptChoice → Option (List String)
last_only d [] = d
last_only d (apt_only names ∷ cs) = last_only names cs
last_only d (_ ∷ cs) = last_only d cs

abbrev pub last_dry : Bool → List AptChoice → Bool
last_dry d [] = d
last_dry d (apt_dry b ∷ cs) = last_dry b cs
last_dry d (_ ∷ cs) = last_dry d cs

apt_folded :
    (cs : List AptChoice) (o : AptGetUpgradeOpts)
    → foldl (λ args opt. opt args) o (map apt_option cs) ≡ record {
      exclusive_packages = last_only o.exclusive_packages cs;
      excludes = last_without o.excludes cs;
      upgrade_type = last_type o.upgrade_type cs;
      dryrun = last_dry o.dryrun cs;
    }
unfolding apt_get_upgrade_type apt_get_excludes apt_get_exclusive_packages apt_get_dry_run
apt_folded [] o = refl
apt_folded (apt_type t ∷ cs) o = apt_folded cs (record o { upgrade_type = t })
apt_folded (apt_without es ∷ cs) o = apt_folded cs (record o { excludes = es })
apt_folded (apt_only names ∷ cs) o = apt_folded cs (record o { exclusive_packages = names })
apt_folded (apt_dry b ∷ cs) o = apt_folded cs (record o { dryrun = b })

-- With options made by their four constructors, of which the last of a kind counts, and well-made
-- excludes, `RunAptGetUpgrade` lists the updates of the chosen upgrade type, and hands to `apt-get` the
-- names of those that pass; nothing in a dry run, where nothing passes, or after an error.
pub run_apt_get_upgrade-eq-expected :
    (updates : AptUpgradeType → Result String (List PkgInfo))
    (install : List String → Option String) (cs : List AptChoice)
    → All IsMade (last_without [] cs)
    → run_apt_get_upgrade updates install (map apt_option cs)
      ≡ expected
          (λ pkg. pkg.name)
          install
          (last_only none cs)
          (last_without [] cs)
          (last_dry false cs)
          (updates (last_type apt_get_upgrade cs))
unfolding run_apt_get_upgrade apt_get_opts
run_apt_get_upgrade-eq-expected updates install cs h =
    rw
      (apt_folded cs (record {
        exclusive_packages = none;
        excludes = [];
        upgrade_type = apt_get_upgrade;
        dryrun = false;
      }))
      (install_filtered-eq-expected (λ pkg. pkg.name) install (last_only none cs)
        (last_without [] cs) (last_dry false cs) (updates (last_type apt_get_upgrade cs)) h)
