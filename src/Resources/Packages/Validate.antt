-- ===== src/Resources/Packages/Validate.antt =====
-- `validateFile`, `download`, `validate` and `cleanup` of config/package_resource.go.
use osconfig.Base.{
  ℕ, String, ◌<>◌, Bool, true, false, not, Option, none, some, ok, err, ◌==◌, if◌then◌else◌,
}
use osconfig.Base.Actions.{pure, raise, attempt}
use osconfig.Resources.{Env}
use osconfig.Resources.Disk.{exists, make_temp_dir, remove_all}
use osconfig.Resources.Download.{RemoteFile, local_path, download_file}
use osconfig.Resources.Packages.{
  apt, goo_get, yum, zypper, deb, rpm, msi, apt_package, goo_get_package, yum_package,
  zypper_package, deb_package, rpm_package, msi_package, DesiredState, installed, no_package,
  PackageConfig, Info, Managed, Managers, M, lift, ask,
}
use osconfig.Resources.Packages.Cache.{
  get_package_info_from_cache, update_package_info_cache, save_package_info_cache,
}

abbrev pub with_managed : Managed → M (Unit {0})
with_managed m s = (ok tt, record s { managed = m })

abbrev pub is_installed : DesiredState → Bool
is_installed installed = true
is_installed _ = false

module _ (env : Env) (managers : Managers) where
  unfoldable pub validate_file : RemoteFile → M (Unit {0})
  validate_file file s =
      let (there, w) = exists env (local_path file) s.world in
      if local_path file == ""
      then pure tt s
      else (if there then ok tt else err "the file does not exist", record s { world = w })

  -- `download`: the new directory is kept also where the download fails.
  unfoldable pub download : String → RemoteFile → M String
  download name file s =
      let fetched : M String =
        attempt (lift (make_temp_dir env)) (λ e. raise ("failed to create temp dir: " <> e))
          (λ tmp v.
            attempt (lift (download_file env (env.join tmp name) 420 file)) raise
              (λ _. pure (env.join tmp name)) (record v { temp_dir = tmp })) in
      if not (local_path file == "") then pure (local_path file) s else fetched s

  -- What a package file holds, and the path that it was downloaded to, if it was.
  unfoldable pub find_info :
      String → (ℕ → String → Info × Option String) → RemoteFile → M (Info × String)
  unfolding download
  find_info name info_of source =
      attempt (get_package_info_from_cache managers source) raise (λ found. elim found [
        | some info ↦ pure (info, "")
        | none ↦
            attempt (download name source) raise
              (λ path. attempt (ask (λ n. info_of n path)) raise (λ info. pure (info, path)))
      ])

  -- A package that is a file: Deb, MSI and RPM.
  unfoldable pub validate_package :
      Bool
      → DesiredState
      → String
      → (ℕ → String → Info × Option String)
      → RemoteFile
      → (Info → String → Managed)
      → M (Unit {0})
  unfolding validate_file find_info
  validate_package there state name info_of source managed =
      if not there
      then raise "cannot manage the package because its manager does not exist"
      else if not (is_installed state)
      then raise "desired state not applicable"
      else attempt (validate_file source) raise (λ _.
        attempt (find_info name info_of source) raise (λ (info, path).
          attempt (update_package_info_cache managers info source) raise
            (λ _. with_managed (managed info path))))

  -- A package by its name: apt, GooGet, yum and zypper.
  unfoldable pub validate_name : Bool → Managed → M (Unit {0})
  validate_name there managed =
      if not there
      then raise "cannot manage the package because its manager does not exist"
      else with_managed managed

  unfoldable pub validate : PackageConfig → M (Unit {0})
  unfolding validate_package validate_name
  validate r = elim r.system_package [
    | apt name ↦ validate_name managers.apt_exists (apt_package name r.desired_state)
    | goo_get name ↦ validate_name managers.goo_get_exists (goo_get_package name r.desired_state)
    | yum name ↦ validate_name managers.yum_exists (yum_package name r.desired_state)
    | zypper name ↦ validate_name managers.zypper_exists (zypper_package name r.desired_state)
    | deb source pull_deps ↦
        validate_package managers.dpkg_exists r.desired_state "pkg.deb" managers.deb_info source
          (λ info path. deb_package info.name path)
    | rpm source pull_deps ↦
        validate_package managers.rpm_exists r.desired_state "pkg.rpm" managers.rpm_info source
          (λ info path. rpm_package info.name path)
    | msi source properties ↦
        validate_package managers.msi_exists r.desired_state "pkg.msi" managers.msi_info source
          (λ info path. msi_package info.name info.version path)
    | no_package ↦ raise "SystemPackage field not set or references unknown package manager"
  ]

  -- `cleanup`: an error of the cache is logged only.
  unfoldable pub cleanup : M (Unit {0})
  cleanup s =
      let s' = (save_package_info_cache managers s).1 in
      let (e, w) = remove_all env s'.temp_dir s'.world in
      if not (s'.temp_dir == "")
      then (elim e [ some t ↦ err t | none ↦ ok tt ], record s' { world = w })
      else pure tt s'
