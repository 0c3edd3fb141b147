-- ===== src/OsPatch/Tests.antt =====
-- Runs of the filters and of the upgrade functions, and the theorems at concrete data.
use osconfig.Base.{
  ◌≡◌, refl, String, Bool, true, false, not, Option, none, some, List, [], ◌∷◌, Result, ok,
  String-discrete, map, any, select, All,
}
use osconfig.Base.Dict.{Dict}
use osconfig.OsPatch.{
  Exclude, matches_name, PkgInfo, should_package_be_excluded, is_exclusive, filter_loop,
  filter_packages,
}
use osconfig.OsPatch.Filter.{IsMade, hits, wanted, filter_packages_lem}
use osconfig.OsPatch.Upgrade.{
  AptUpgradeType, apt_get_excludes, apt_get_dry_run, run_apt_get_upgrade, yum_exclusive_packages,
  full_package_name, run_yum_update,
}
use osconfig.OsPatch.Upgrade.Laws.{
  AptChoice, apt_without, apt_dry, apt_option, expected, run_apt_get_upgrade-eq-expected,
}
use osconfig.OsPatch.Upgrade.Laws.Yum.{YumChoice, yum_only, yum_option}
use osconfig.OsPatch.Zypper.{
  ZypperPatch, run_filter, Zypper, ZypperPatchOption, zypper_update_with_excludes, zypper_opts,
  run_zypper_patch, install_selection, zypper_selection, drop_excluded,
}
use osconfig.OsPatch.Zypper.Laws.{patched, run_filter_lem, NoneExcluded, run_zypper_patch_sound}

abbrev kernel : PkgInfo
kernel = record { name = "kernel"; raw_arch = "x86_64"; version = "5" }

abbrev vim : PkgInfo
vim = record { name = "vim"; raw_arch = ""; version = "9" }

abbrev no_kernel : List Exclude
no_kernel = record { is_regexp = false; regex = none; strict_string = some "kernel" } ∷ []

-- The option that comes last counts.
abbrev apt_choices : List AptChoice
apt_choices = apt_dry true ∷ apt_without no_kernel ∷ apt_dry false ∷ []

abbrev yum_choices : List YumChoice
yum_choices = yum_only (some ("kernel" ∷ [])) ∷ []

abbrev lists_both : AptUpgradeType → Result String (List PkgInfo)
lists_both t = ok (kernel ∷ vim ∷ [])

abbrev yum_lists_both : Bool → Bool → Result String (List PkgInfo)
yum_lists_both minimal security = ok (kernel ∷ vim ∷ [])

abbrev installs : List String → Option String
installs names = none

no_kernel-IsMade : All IsMade no_kernel
no_kernel-IsMade = (λ e. cc, tt)

apt_run :
    run_apt_get_upgrade lists_both installs (map apt_option apt_choices)
    ≡ record { result = ok tt; installs = ("vim" ∷ []) ∷ [] }
unfolding run_apt_get_upgrade apt_get_excludes apt_get_dry_run filter_packages filter_loop
    should_package_be_excluded matches_name is_exclusive String-discrete
apt_run = refl

yum_run :
    run_yum_update yum_lists_both installs (map yum_option yum_choices)
    ≡ record { result = ok tt; installs = ("kernel.x86_64" ∷ []) ∷ [] }
unfolding run_yum_update yum_exclusive_packages filter_packages filter_loop
    should_package_be_excluded matches_name is_exclusive String-discrete full_package_name
yum_run = refl

-- An empty list of exclusive packages that is not nil lets no package pass.
nil_is_not_empty : filter_packages (kernel ∷ vim ∷ []) (some []) [] ≡ ok []
unfolding filter_packages filter_loop should_package_be_excluded is_exclusive
nil_is_not_empty = refl

filter_packages_lem_example :
    filter_packages (kernel ∷ vim ∷ []) none no_kernel
    ≡ ok (select (wanted none no_kernel) (kernel ∷ vim ∷ []))
filter_packages_lem_example =
    filter_packages_lem (kernel ∷ vim ∷ []) none no_kernel no_kernel-IsMade

run_apt_get_upgrade-eq-expected_example :
    run_apt_get_upgrade lists_both installs (map apt_option apt_choices)
    ≡ expected (λ pkg. pkg.name) installs none no_kernel false (ok (kernel ∷ vim ∷ []))
run_apt_get_upgrade-eq-expected_example =
    run_apt_get_upgrade-eq-expected lists_both installs apt_choices no_kernel-IsMade

abbrev security : ZypperPatch
security = record { name = "SUSE-1" }

abbrev excluded_patch : ZypperPatch
excluded_patch = record { name = "kernel" }

abbrev zypper : Zypper
zypper = record {
  patches = λ c s o. ok (security ∷ excluded_patch ∷ []);
  updates = ok [];
  packages_in_patch = λ ps. ok [];
  install = λ ps pkgs. none;
}

abbrev zypper_options : List ZypperPatchOption
unfolding zypper_update_with_excludes
zypper_options = zypper_update_with_excludes no_kernel ∷ []

zypper_run :
    run_zypper_patch zypper zypper_options
    ≡ record { result = ok tt; installs = (security ∷ [], []) ∷ [] }
unfolding run_zypper_patch install_selection zypper_selection zypper_opts run_filter drop_excluded
    zypper_update_with_excludes should_package_be_excluded matches_name String-discrete
zypper_run = refl

-- The kernel is in a patch.
abbrev kernel_patches : Dict (List String)
kernel_patches = ("kernel", "SUSE-1" ∷ []) ∷ []

run_filter_lem_example :
    run_filter (security ∷ excluded_patch ∷ []) [] no_kernel (kernel ∷ vim ∷ []) kernel_patches true
    ≡ ok (
      select (λ patch. not (any (hits patch.name) no_kernel)) (security ∷ excluded_patch ∷ []),
      select (λ pkg. not (patched kernel_patches pkg)) (kernel ∷ vim ∷ []),
    )
run_filter_lem_example =
    run_filter_lem (security ∷ excluded_patch ∷ []) [] no_kernel (kernel ∷ vim ∷ []) kernel_patches
      true no_kernel-IsMade

run_zypper_patch_sound_example :
    (false ≡ true → (run_zypper_patch zypper zypper_options).installs ≡ [])
    × All (λ call. NoneExcluded no_kernel call.0) (run_zypper_patch zypper zypper_options).installs
unfolding zypper_opts zypper_update_with_excludes
run_zypper_patch_sound_example = run_zypper_patch_sound zypper zypper_options no_kernel-IsMade refl
