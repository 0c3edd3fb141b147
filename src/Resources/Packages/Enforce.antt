-- ===== src/Resources/Packages/Enforce.antt =====
-- `checkState` and `enforceState` of config/package_resource.go.
pub mod Watched
pub mod Plans
pub mod Fresh
use osconfig.Base.{
  ℕ, ◌+◌, String, Bool, true, false, not, Option, none, some, List, [], ◌∷◌, ok, err, panicked,
  contains, ◌==◌, if◌then◌else◌,
}
use osconfig.Base.Actions.{pure, raise, attempt}
use osconfig.Resources.{Env}
use osconfig.Resources.Download.{RemoteFile, no_type}
use osconfig.Resources.Packages.{
  apt, goo_get, yum, zypper, deb, rpm, msi, apt_package, goo_get_package, yum_package,
  zypper_package, deb_package, rpm_package, msi_package, DesiredState, unspecified, installed,
  removed, PackageConfig, Managed, unset, CacheName, apt_installed, deb_installed, goo_installed,
  yum_installed, zypper_installed, rpm_installed, PackageCache, Act, apt_update, install_apt,
  remove_apt, install_goo_get, remove_goo_get, install_yum, remove_yum, install_zypper,
  remove_zypper, dpkg_install, rpm_install, install_msi, Managers, State, M, ask,
}
use osconfig.Resources.Packages.Cache.{put_cache, populate_installed_cache}
use osconfig.Resources.Packages.Validate.{with_managed, download}

abbrev pub nil_pointer : String
nil_pointer = "invalid memory address or nil pointer dereference"

-- The look-up in a cache, which may be nil.
abbrev pub in_cache : CacheName → String → State → Bool
in_cache cache name s = elim (s.installed cache).cache [
  | none ↦ false
  | some names ↦ contains names name
]

-- The last switch of `checkState`.
unfoldable pub judge_state : DesiredState → Bool → M Bool
judge_state installed there = pure there
judge_state removed there = pure (not there)
judge_state unspecified there = raise "DesiredState field not set or references state"

-- The source, the dependencies and the properties of a package file.
abbrev pub source_of : PackageConfig → RemoteFile
source_of r = elim r.system_package [ deb f b ↦ f | rpm f b ↦ f | msi f ps ↦ f | _ ↦ no_type ]

abbrev pub pull_deps : PackageConfig → Bool
pull_deps r = elim r.system_package [ deb f b ↦ b | rpm f b ↦ b | _ ↦ false ]

abbrev pub properties_of : PackageConfig → List String
properties_of r = elim r.system_package [ msi f ps ↦ ps | _ ↦ [] ]

-- What an enforcement is to do: the cache to reset, and the calls, or a nil function.
pub record Plan : Type 0 where
  pub installed_cache : Option CacheName
  pub action : Option (List Act)

abbrev pub plan_by : CacheName → List Act → List Act → DesiredState → Plan
plan_by cache install remove state = record {
  installed_cache = some cache;
  action = elim state [ installed ↦ some install | removed ↦ some remove | unspecified ↦ none ];
}

abbrev pub one_act : Option CacheName → Act → Plan
one_act cache act = record { installed_cache = cache; action = some (act ∷ []) }

module _ (env : Env) (managers : Managers) where
  -- `checkState`; a managed package that is not set has failed before its switch.
  unfoldable pub check_managed : Managed → M Bool
  unfolding judge_state
  check_managed unset s = judge_state unspecified false s
  check_managed (apt_package name state) s = judge_state state (in_cache apt_installed name s) s
  check_managed (deb_package name path) s = judge_state installed (in_cache deb_installed name s) s
  check_managed (goo_get_package name state) s = judge_state state (in_cache goo_installed name s) s
  check_managed (msi_package name product_code path) s =
      attempt (ask (λ n. managers.msi_installed n product_code)) raise (judge_state installed) s
  check_managed (yum_package name state) s = judge_state state (in_cache yum_installed name s) s
  check_managed (zypper_package name state) s =
      judge_state state (in_cache zypper_installed name s) s
  check_managed (rpm_package name path) s = judge_state installed (in_cache rpm_installed name s) s

  unfoldable pub check_of : Managed → M Bool
  unfolding check_managed
  check_of m = attempt (populate_installed_cache managers m) raise (λ _. check_managed m)

  abbrev pub check_state : M Bool
  check_state s = check_of s.managed s

  -- The file of a package, which is downloaded now if the validation has not done so.
  unfoldable pub pulled : String → RemoteFile → String → (String → Managed) → M String
  pulled name source path managed =
      if not (path == "")
      then pure path
      else attempt (download env managers name source) raise
          (λ path'. attempt (with_managed (managed path')) raise (λ _. pure path'))

  -- The action for an RPM file.
  unfoldable pub rpm_action : Bool → String → M (List Act)
  rpm_action deps path =
      if not deps
      then pure (rpm_install path ∷ [])
      else if managers.yum_exists
      then pure (install_yum (path ∷ []) ∷ [])
      else if managers.zypper_exists
      then pure (install_zypper (path ∷ []) ∷ [])
      else raise
          "cannot install rpm with 'PullDeps' option as neither yum or zypper exist on system"

  -- The first switch of `enforceState`.
  unfoldable pub plan_of : PackageConfig → Managed → M Plan
  unfolding pulled rpm_action
  plan_of r unset = pure (record { installed_cache = none; action = none })
  plan_of r (apt_package name state) = pure (
      plan_by apt_installed (apt_update ∷ install_apt (name ∷ []) ∷ [])
        (remove_apt (name ∷ []) ∷ []) state)
  plan_of r (goo_get_package name state) = pure (
      plan_by goo_installed (install_goo_get (name ∷ []) ∷ []) (remove_goo_get (name ∷ []) ∷ [])
        state)
  plan_of r (yum_package name state) =
      pure
        (plan_by yum_installed (install_yum (name ∷ []) ∷ []) (remove_yum (name ∷ []) ∷ []) state)
  plan_of r (zypper_package name state) = pure (
      plan_by zypper_installed (install_zypper (name ∷ []) ∷ []) (remove_zypper (name ∷ []) ∷ [])
        state)
  plan_of r (deb_package name path) =
      attempt (pulled "pkg.deb" (source_of r) path (deb_package name)) raise (λ path'. pure (
        one_act (some deb_installed)
          (if pull_deps r then install_apt (path' ∷ []) else dpkg_install path')))
  plan_of r (rpm_package name path) =
      attempt (pulled "pkg.rpm" (source_of r) path (rpm_package name)) raise (λ path'.
        attempt (rpm_action (pull_deps r) path') raise
          (λ acts. pure (record { installed_cache = some rpm_installed; action = some acts })))
  plan_of r (msi_package name product_code path) =
      attempt (pulled "pkg.msi" (source_of r) path (msi_package name product_code)) raise
        (λ path'. pure (one_act none (install_msi path' (properties_of r))))

  -- The calls of an action, up to the first error.
  unfoldable pub act_all : List Act → M (Unit {0})
  act_all [] = pure tt
  act_all (a ∷ acts) =
      attempt (λ s. ask (λ n. (tt, managers.act n a)) (record s { acts = a ∷ s.acts })) raise
        (λ _. act_all acts)

  -- The reset of the cache of a plan.
  unfoldable pub reset : Option CacheName → State → State
  reset none s = s
  reset (some cache) s = put_cache cache (record (s.installed cache) { cache = none }) s

  -- `enforceState` behind its switch. The cache of a package that is not set is a nil pointer, and an
  -- action that is not set is a nil function.
  unfoldable pub carry_out : Managed → Plan → M Bool
  unfolding act_all reset
  carry_out unset plan s = (panicked nil_pointer, s)
  carry_out managed plan s = elim plan.action [
    | none ↦ (panicked nil_pointer, reset plan.installed_cache s)
    | some acts ↦
        attempt (act_all acts) (λ _. raise "error acting on the package") (λ _. pure true)
          (reset plan.installed_cache s)
  ]

  unfoldable pub enforce_of : PackageConfig → Managed → M Bool
  unfolding plan_of carry_out
  enforce_of r m = attempt (plan_of r m) raise (carry_out m)

  abbrev pub enforce_state : PackageConfig → M Bool
  enforce_state r s = enforce_of r s.managed s
