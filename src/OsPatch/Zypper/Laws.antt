-- ===== src/OsPatch/Zypper/Laws.antt =====
-- Which patches and packages a zypper run selects and installs.
use osconfig.Base.{
  ◌≡◌, refl, String, Bool, true, false, not, List, [], ◌∷◌, arith, Result, ok, err, panicked, ◌==◌,
  >>=-eq-ok, if◌then◌else◌, is_empty, contains, any, select, select-All, All,
}
use mathlib.Core.Path.{subst}
use osconfig.Base.Dict.{Dict, lookup}
use osconfig.OsPatch.{Exclude, PkgInfo}
use osconfig.OsPatch.Filter.{IsMade, hits, should_package_be_excluded-eq-any}
use osconfig.OsPatch.Zypper.{
  ZypperPatch, is_unpatched, drop_excluded, run_filter, Zypper, ZypperPatchOpts, ZypperPatchOption,
  zypper_opts, zypper_selection, install_selection, run_zypper_patch,
}

drop_excluded-eq-select :
    (excludes : List Exclude) (patches : List ZypperPatch)
    → All IsMade excludes
    → drop_excluded excludes patches
      ≡ ok (select (λ patch. not (any (hits patch.name) excludes)) patches)
unfolding drop_excluded
drop_excluded-eq-select excludes [] h = refl
drop_excluded-eq-select excludes (patch ∷ patches) h =
    rw (should_package_be_excluded-eq-any excludes patch.name h)
      (rw (drop_excluded-eq-select excludes patches h) (ground arith))

-- Is the package one of those that the map has patches for?
abbrev pub patched : Dict (List String) → PkgInfo → Bool
patched pkg_to_patches pkg = any (λ entry. entry.0 == pkg.name) pkg_to_patches

is_unpatched-eq-patched :
    (pkg_to_patches : Dict (List String)) (pkg : PkgInfo)
    → is_unpatched pkg_to_patches pkg ≡ not (patched pkg_to_patches pkg)
unfolding lookup
is_unpatched-eq-patched [] pkg = refl
is_unpatched-eq-patched ((name, patches) ∷ more) pkg =
    ground (arith, is_unpatched-eq-patched more pkg)

select_unpatched :
    (pkg_to_patches : Dict (List String)) (pkgs : List PkgInfo)
    → select (is_unpatched pkg_to_patches) pkgs
      ≡ select (λ pkg. not (patched pkg_to_patches pkg)) pkgs
select_unpatched pkg_to_patches [] = refl
select_unpatched pkg_to_patches (pkg ∷ pkgs) =
    ground (arith, is_unpatched-eq-patched pkg_to_patches pkg, select_unpatched pkg_to_patches pkgs)

-- With well-made excludes the filter never panics. Exclusive patches override all else: the patches
-- that they name are taken, excluded ones too, and no package. Otherwise the patches that no exclude
-- matches are taken, and with updates the packages that belong to no patch.
pub run_filter_lem :
    (patches : List ZypperPatch) (exclusive_patches : List String) (excludes : List Exclude)
    (pkg_updates : List PkgInfo) (pkg_to_patches : Dict (List String)) (with_update : Bool)
    → All IsMade excludes
    → run_filter patches exclusive_patches excludes pkg_updates pkg_to_patches with_update
      ≡ ok (
          if is_empty exclusive_patches
          then (
            select (λ patch. not (any (hits patch.name) excludes)) patches,
            if with_update
                then select (λ pkg. not (patched pkg_to_patches pkg)) pkg_updates
                else [],
          )
          else (select (λ patch. contains exclusive_patches patch.name) patches, []))
unfolding run_filter
run_filter_lem patches [] excludes pkg_updates pkg_to_patches with_update h =
    rw (drop_excluded-eq-select excludes patches h)
      (rw (select_unpatched pkg_to_patches pkg_updates) refl)
run_filter_lem patches (name ∷ names) excludes pkg_updates pkg_to_patches with_update h = refl

-- What a selection must satisfy: no patch of it is excluded.
abbrev pub NoneExcluded : List Exclude → List ZypperPatch → Type 0
NoneExcluded excludes = All (λ patch. not (any (hits patch.name) excludes) ≡ true)

filter_sound :
    (patches : List ZypperPatch) (excludes : List Exclude) (pkg_updates : List PkgInfo)
    (pkg_to_patches : Dict (List String)) (with_update : Bool) {fp : List ZypperPatch}
    {fk : List PkgInfo}
    → All IsMade excludes
    → run_filter patches [] excludes pkg_updates pkg_to_patches with_update ≡ ok (fp, fk)
    → NoneExcluded excludes fp
filter_sound patches excludes pkg_updates pkg_to_patches with_update {fp} {fk} made e =
    let same : select (λ patch. not (any (hits patch.name) excludes)) patches ≡ fp =
      cc (e, run_filter_lem patches [] excludes pkg_updates pkg_to_patches with_update made) in
    subst (NoneExcluded excludes) same
      (select-All (λ patch. not (any (hits patch.name) excludes)) patches)

selection_sound :
    (z : Zypper) (o : ZypperPatchOpts) {fp : List ZypperPatch} {fk : List PkgInfo}
    → All IsMade o.excludes
    → o.exclusive_patches ≡ []
    → zypper_selection z o ≡ ok (fp, fk)
    → NoneExcluded o.excludes fp
unfolding zypper_selection
selection_sound z o {fp} {fk} made none_exclusive e =
    let (patches, e₁, rest₁) =
      >>=-eq-ok (z.patches o.categories o.severities o.with_optional) _ e in
    let (updates, e₂, rest₂) = >>=-eq-ok (if o.with_update then z.updates else ok []) _ rest₁ in
    let (by_package, e₃, rest₃) =
      >>=-eq-ok (if o.with_update then z.packages_in_patch patches else ok []) _ rest₂ in
    filter_sound patches o.excludes updates by_package o.with_update made (
      subst
        (λ names.
          run_filter patches names o.excludes updates by_package o.with_update ≡ ok (fp, fk))
        none_exclusive rest₃)

install_sound :
    (z : Zypper) (excludes : List Exclude) (dryrun : Bool)
    (selection : Result String (List ZypperPatch × List PkgInfo))
    → ((fp : List ZypperPatch) (fk : List PkgInfo)
        → selection ≡ ok (fp, fk)
        → NoneExcluded excludes fp)
    → (dryrun ≡ true → (install_selection z dryrun selection).installs ≡ [])
      × All (λ call. NoneExcluded excludes call.0) (install_selection z dryrun selection).installs
unfolding install_selection
install_sound z excludes dryrun (err e) h = (λ _. refl, tt)
install_sound z excludes dryrun (panicked s) h = (λ _. refl, tt)
install_sound z excludes true (ok ([], [])) h = (λ _. refl, tt)
install_sound z excludes false (ok ([], [])) h = (λ _. refl, tt)
install_sound z excludes true (ok (p ∷ ps, fk)) h = (λ _. refl, tt)
install_sound z excludes false (ok (p ∷ ps, fk)) h = (λ e. cc, (h (p ∷ ps) fk refl, tt))
install_sound z excludes true (ok ([], k ∷ ks)) h = (λ _. refl, tt)
install_sound z excludes false (ok ([], k ∷ ks)) h = (λ e. cc, (tt, tt))

-- With well-made excludes and no exclusive patches, `RunZypperPatch` installs nothing in a dry run,
-- and hands no excluded patch to zypper, in any call.
pub run_zypper_patch_sound :
    (z : Zypper) (opts : List ZypperPatchOption)
    → All IsMade (zypper_opts opts).excludes
    → (zypper_opts opts).exclusive_patches ≡ []
    → ((zypper_opts opts).dryrun ≡ true → (run_zypper_patch z opts).installs ≡ [])
      × All
          (λ call. NoneExcluded (zypper_opts opts).excludes call.0)
          (run_zypper_patch z opts).installs
unfolding run_zypper_patch
run_zypper_patch_sound z opts made none_exclusive =
    let o = zypper_opts opts in
    install_sound z o.excludes o.dryrun (zypper_selection z o)
      λ fp fk e. selection_sound z o made none_exclusive e
