-- ===== src/OsPatch/Zypper.antt =====
-- ospatch/zypper_patch.go. The zypper commands of packages/ are the parameters.

pub mod Laws
use osconfig.Base.{
  ◌≡◌, String, Bool, true, false, not, ◌&&◌, Option, none, some, List, [], ◌∷◌, foldl, Result, ok,
  err, panicked, ◌>>=◌, of_error, if◌then◌else◌, is_empty, contains, select,
}
use osconfig.Base.Dict.{Dict, lookup}
use osconfig.OsPatch.{Exclude, PkgInfo, should_package_be_excluded}

-- The field of `packages.ZypperPatch` that the code reads.
pub record ZypperPatch : Type 0 where
  pub name : String

pub record ZypperPatchOpts : Type 0 where
  pub categories : List String
  pub severities : List String
  pub excludes : List Exclude
  pub exclusive_patches : List String
  pub with_optional : Bool
  pub with_update : Bool
  pub dryrun : Bool

abbrev pub ZypperPatchOption : Type 0
ZypperPatchOption = ZypperPatchOpts → ZypperPatchOpts

unfoldable pub zypper_patch_categories : List String → ZypperPatchOption
zypper_patch_categories categories args = record args { categories = categories }

unfoldable pub zypper_patch_severities : List String → ZypperPatchOption
zypper_patch_severities severities args = record args { severities = severities }

unfoldable pub zypper_update_with_optional : Bool → ZypperPatchOption
zypper_update_with_optional with_optional args = record args { with_optional = with_optional }

unfoldable pub zypper_update_with_update : Bool → ZypperPatchOption
zypper_update_with_update with_update args = record args { with_update = with_update }

unfoldable pub zypper_update_with_excludes : List Exclude → ZypperPatchOption
zypper_update_with_excludes excludes args = record args { excludes = excludes }

unfoldable pub zypper_update_with_exclusive_patches : List String → ZypperPatchOption
zypper_update_with_exclusive_patches names args = record args { exclusive_patches = names }

unfoldable pub zypper_update_dryrun : Bool → ZypperPatchOption
zypper_update_dryrun dryrun args = record args { dryrun = dryrun }

unfoldable pub zypper_opts : List ZypperPatchOption → ZypperPatchOpts
zypper_opts opts =
    foldl (λ args opt. opt args)
      (record {
        categories = [];
        severities = [];
        excludes = [];
        exclusive_patches = [];
        with_optional = false;
        with_update = false;
        dryrun = false;
      })
      opts

-- The test `_, ok := pkgToPatchesMap[pkg.Name]; !ok`.
abbrev pub is_unpatched : Dict (List String) → PkgInfo → Bool
is_unpatched pkg_to_patches pkg = elim (lookup pkg.name pkg_to_patches) [
  | none ↦ true
  | some patches ↦ false
]

-- The last loop of `runFilter`.
unfoldable pub drop_excluded : List Exclude → List ZypperPatch → Result String (List ZypperPatch)
drop_excluded excludes [] = ok []
drop_excluded excludes (patch ∷ patches) = do
  excluded ← should_package_be_excluded excludes patch.name
  rest ← drop_excluded excludes patches
  ok (if excluded then rest else patch ∷ rest)

-- `runFilter`; it returns no error.
unfoldable pub run_filter :
    List ZypperPatch
    → List String
    → List Exclude
    → List PkgInfo
    → Dict (List String)
    → Bool
    → Result String (List ZypperPatch × List PkgInfo)
run_filter patches exclusive_patches excludes pkg_updates pkg_to_patches with_update =
    if not (is_empty exclusive_patches)
    then ok (select (λ patch. contains exclusive_patches patch.name) patches, [])
    else do
      let f_pkgs = if with_update then select (is_unpatched pkg_to_patches) pkg_updates else []
      f_patches ← drop_excluded excludes patches
      ok (f_patches, f_pkgs)

-- The commands of packages/zypper.go.
pub record Zypper : Type 0 where
  -- categories, severities, with optional
  pub patches : List String → List String → Bool → Result String (List ZypperPatch)
  pub updates : Result String (List PkgInfo)
  pub packages_in_patch : List ZypperPatch → Result String (Dict (List String))
  pub install : List ZypperPatch → List PkgInfo → Option String

-- What a run returned, and what it handed to each call of `ZypperInstall`.
pub record ZypperRun : Type 0 where
  pub result : Result String (Unit {0})
  pub installs : List (List ZypperPatch × List PkgInfo)

-- What `RunZypperPatch` selects, before it installs.
unfoldable pub zypper_selection :
    Zypper → ZypperPatchOpts → Result String (List ZypperPatch × List PkgInfo)
zypper_selection z o = do
  patches ← z.patches o.categories o.severities o.with_optional
  pkg_updates ← (if o.with_update then z.updates else ok [])
  pkg_to_patches ← (if o.with_update then z.packages_in_patch patches else ok [])
  run_filter patches o.exclusive_patches o.excludes pkg_updates pkg_to_patches o.with_update

-- The rest of `RunZypperPatch`, from `runFilter` on.
unfoldable pub install_selection :
    Zypper → Bool → Result String (List ZypperPatch × List PkgInfo) → ZypperRun
install_selection z dryrun (err e) = record { result = err e; installs = [] }
install_selection z dryrun (panicked s) = record { result = panicked s; installs = [] }
install_selection z dryrun (ok (f_patches, f_pkgs)) =
    if is_empty f_patches && is_empty f_pkgs
    then record { result = ok tt; installs = [] }
    else if dryrun
    then record { result = ok tt; installs = [] }
    else record {
      result = of_error (z.install f_patches f_pkgs);
      installs = (f_patches, f_pkgs) ∷ [];
    }

-- `RunZypperPatch`
unfoldable pub run_zypper_patch : Zypper → List ZypperPatchOption → ZypperRun
run_zypper_patch z opts =
    let z_opts = zypper_opts opts in install_selection z z_opts.dryrun (zypper_selection z z_opts)
