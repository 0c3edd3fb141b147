-- ===== src/OsPatch/Upgrade.antt =====
-- ospatch/apt_upgrade.go, ospatch/yum_update.go and ospatch/googet_update.go. The package managers
-- of packages/ are the parameters `updates` and `install`; log lines are left out.

pub mod Laws
use osconfig.Base.{
  String, ◌<>◌, Bool, true, false, Option, none, some, List, [], ◌∷◌, map, foldl, Result, ok, err,
  panicked, of_error, ◌==◌, if◌then◌else◌,
}
use osconfig.OsPatch.{Exclude, PkgInfo, filter_packages}

-- What one call of a `Run…` function returned, and the names that it handed to each call of the
-- package manager's install command.
pub record Run : Type 0 where
  pub result : Result String (Unit {0})
  pub installs : List (List String)

-- The part that the three functions share, from the list of updates on.
unfoldable pub install_filtered :
    (PkgInfo → String)
    → (List String → Option String)
    → Option (List String)
    → List Exclude
    → Bool
    → Result String (List PkgInfo)
    → Run
install_filtered name_of install exclusive_packages excludes dryrun updates = elim updates [
  | err e ↦ record { result = err e; installs = [] }
  | panicked s ↦ record { result = panicked s; installs = [] }
  | ok pkgs ↦ elim (filter_packages pkgs exclusive_packages excludes) [
    | err e ↦ record { result = err e; installs = [] }
    | panicked s ↦ record { result = panicked s; installs = [] }
    | ok [] ↦ record { result = ok tt; installs = [] }
    | ok (pkg ∷ rest) ↦
        let pkg_names = map name_of (pkg ∷ rest) in
        if dryrun
        then record { result = ok tt; installs = [] }
        else record { result = of_error (install pkg_names); installs = pkg_names ∷ [] }
  ]
]

pub data AptUpgradeType : Type 0 where
  apt_get_upgrade apt_get_dist_upgrade apt_get_full_upgrade : AptUpgradeType

pub record AptGetUpgradeOpts : Type 0 where
  pub exclusive_packages : Option (List String)
  pub excludes : List Exclude
  pub upgrade_type : AptUpgradeType
  pub dryrun : Bool

abbrev pub AptGetUpgradeOption : Type 0
AptGetUpgradeOption = AptGetUpgradeOpts → AptGetUpgradeOpts

unfoldable pub apt_get_upgrade_type : AptUpgradeType → AptGetUpgradeOption
apt_get_upgrade_type upgrade_type args = record args { upgrade_type = upgrade_type }

unfoldable pub apt_get_excludes : List Exclude → AptGetUpgradeOption
apt_get_excludes excludes args = record args { excludes = excludes }

unfoldable pub apt_get_exclusive_packages : Option (List String) → AptGetUpgradeOption
apt_get_exclusive_packages names args = record args { exclusive_packages = names }

unfoldable pub apt_get_dry_run : Bool → AptGetUpgradeOption
apt_get_dry_run dryrun args = record args { dryrun = dryrun }

unfoldable pub apt_get_opts : List AptGetUpgradeOption → AptGetUpgradeOpts
apt_get_opts opts =
    foldl (λ args opt. opt args)
      (record {
        exclusive_packages = none;
        excludes = [];
        upgrade_type = apt_get_upgrade;
        dryrun = false;
      })
      opts

-- `RunAptGetUpgrade`
unfoldable pub run_apt_get_upgrade :
    (AptUpgradeType → Result String (List PkgInfo))
    → (List String → Option String)
    → List AptGetUpgradeOption
    → Run
unfolding apt_get_opts install_filtered
run_apt_get_upgrade updates install opts =
    let apt_opts = apt_get_opts opts in
    install_filtered (λ pkg. pkg.name) install apt_opts.exclusive_packages apt_opts.excludes
      apt_opts.dryrun (updates apt_opts.upgrade_type)

pub record YumUpdateOpts : Type 0 where
  pub exclusive_packages : Option (List String)
  pub excludes : List Exclude
  pub security : Bool
  pub minimal : Bool
  pub dryrun : Bool

abbrev pub YumUpdateOption : Type 0
YumUpdateOption = YumUpdateOpts → YumUpdateOpts

unfoldable pub yum_update_security : Bool → YumUpdateOption
yum_update_security security args = record args { security = security }

unfoldable pub yum_update_minimal : Bool → YumUpdateOption
yum_update_minimal minimal args = record args { minimal = minimal }

unfoldable pub yum_update_excludes : List Exclude → YumUpdateOption
yum_update_excludes excludes args = record args { excludes = excludes }

unfoldable pub yum_exclusive_packages : Option (List String) → YumUpdateOption
yum_exclusive_packages names args = record args { exclusive_packages = names }

unfoldable pub yum_dry_run : Bool → YumUpdateOption
yum_dry_run dryrun args = record args { dryrun = dryrun }

unfoldable pub yum_update_opts : List YumUpdateOption → YumUpdateOpts
yum_update_opts opts =
    foldl (λ args opt. opt args)
      (record {
        exclusive_packages = none;
        excludes = [];
        security = false;
        minimal = false;
        dryrun = false;
      })
      opts

unfoldable pub full_package_name : PkgInfo → String
full_package_name pkg_info =
    if pkg_info.raw_arch == "" then pkg_info.name else (pkg_info.name <> ".") <> pkg_info.raw_arch

-- `RunYumUpdate`; `updates` takes the flags `minimal` and `security`.
unfoldable pub run_yum_update :
    (Bool → Bool → Result String (List PkgInfo))
    → (List String → Option String)
    → List YumUpdateOption
    → Run
unfolding yum_update_opts install_filtered
run_yum_update updates install opts =
    let yum_opts = yum_update_opts opts in
    install_filtered full_package_name install yum_opts.exclusive_packages yum_opts.excludes
      yum_opts.dryrun (updates yum_opts.minimal yum_opts.security)

pub record GoogetUpdateOpts : Type 0 where
  pub exclusive_packages : Option (List String)
  pub excludes : List Exclude
  pub dryrun : Bool

abbrev pub GooGetUpdateOption : Type 0
GooGetUpdateOption = GoogetUpdateOpts → GoogetUpdateOpts

unfoldable pub goo_get_excludes : List Exclude → GooGetUpdateOption
goo_get_excludes excludes args = record args { excludes = excludes }

unfoldable pub goo_get_exclusive_packages : Option (List String) → GooGetUpdateOption
goo_get_exclusive_packages names args = record args { exclusive_packages = names }

unfoldable pub goo_get_dry_run : Bool → GooGetUpdateOption
goo_get_dry_run dryrun args = record args { dryrun = dryrun }

-- `RunGooGetUpdate`
unfoldable pub run_goo_get_update :
    Result String (List PkgInfo) → (List String → Option String) → List GooGetUpdateOption → Run
unfolding install_filtered
run_goo_get_update updates install opts =
    let googet_opts =
      foldl (λ (args : GoogetUpdateOpts) (opt : GooGetUpdateOption). opt args)
        (record { exclusive_packages = none; excludes = []; dryrun = false }) opts in
    install_filtered (λ pkg. pkg.name) install googet_opts.exclusive_packages googet_opts.excludes
      googet_opts.dryrun updates
