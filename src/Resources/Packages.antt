-- ===== src/Resources/Packages.antt =====
-- config/package_resource.go: the resource that manages a package, with the caches that all resources
-- share. The package managers of packages/ are the parameter `Managers`.
pub mod Cache
pub mod Validate
pub mod Enforce
mod Tests
use osconfig.Base.{ℕ, ◌+◌, String, Bool, Option, none, some, List, ok, err}
use osconfig.Base.Actions.{Action}
use osconfig.Base.Dict.{Dict}
use osconfig.Resources.{World, Get}
use osconfig.Resources.Download.{RemoteFile}

pub data DesiredState : Type 0 where
  unspecified installed removed : DesiredState

-- `SystemPackage`, by the fields that are read.
pub data SystemPackage : Type 0 where
  apt goo_get yum zypper : String → SystemPackage
  deb rpm : RemoteFile → Bool → SystemPackage
  msi : RemoteFile → List String → SystemPackage
  no_package : SystemPackage

pub record PackageConfig : Type 0 where
  pub system_package : SystemPackage
  pub desired_state : DesiredState

-- The name and the version of a package.
pub record Info : Type 0 where
  pub name : String
  pub version : String

-- `packageInfo`, with the time in nanoseconds.
pub record PackageInfo : Type 0 where
  pub info : Info
  pub last_lookup : ℕ

-- `ManagedPackage`: a validation sets one of its pointers.
pub data Managed : Type 0 where
  unset : Managed
  apt_package goo_get_package yum_package zypper_package : String → DesiredState → Managed
  deb_package rpm_package : String → String → Managed
  msi_package : String → String → String → Managed

-- The variables `aptInstalled` to `rpmInstalled`.
pub data CacheName : Type 0 where
  apt_installed deb_installed goo_installed yum_installed zypper_installed rpm_installed : CacheName

-- The names of the packages that were listed last, or nil, and the time of the listing.
pub record PackageCache : Type 0 where
  pub cache : Option (List String)
  pub refreshed : ℕ

-- The lists of installed packages.
pub data Database : Type 0 where
  deb_packages goo_get_packages rpm_packages : Database

-- The calls of package managers that change the system.
pub data Act : Type 0 where
  apt_update : Act
  install_apt remove_apt install_goo_get remove_goo_get : List String → Act
  install_yum remove_yum install_zypper remove_zypper : List String → Act
  dpkg_install rpm_install : String → Act
  install_msi : String → List String → Act

pub record Managers : Type 0 where
  pub apt_exists : Bool
  pub dpkg_exists : Bool
  pub goo_get_exists : Bool
  pub msi_exists : Bool
  pub yum_exists : Bool
  pub zypper_exists : Bool
  pub rpm_exists : Bool
  pub clock : ℕ → ℕ
  pub listing : Database → ℕ → List Info × Option String
  pub act : ℕ → Act → Option String
  pub deb_info : ℕ → String → Info × Option String
  pub rpm_info : ℕ → String → Info × Option String
  pub msi_info : ℕ → String → Info × Option String
  pub msi_installed : ℕ → String → Bool × Option String
  pub cache_key : RemoteFile → String × Option String
  pub stored_cache : ℕ → Option (Option (Dict PackageInfo))
  pub store_cache : ℕ → Dict PackageInfo → Option String

-- The resource, the caches of the package config, and the calls that changed the system, the latest
-- first.
pub record State : Type 0 where
  pub managed : Managed
  pub temp_dir : String
  pub installed : CacheName → PackageCache
  pub info_store : Option (Dict PackageInfo)
  pub acts : List Act
  pub world : World

abbrev pub M : Type 0 → Type 0
M A = Action State String A

-- A call that may return an error, in the state.
abbrev pub lift : {A : Type 0} → Get A → M A
lift get s =
    let ((a, e), w) = get s.world in
    (elim e [ some t ↦ err t | none ↦ ok a ], record s { world = w })

-- A call of a manager, by the number of the call.
abbrev pub ask : {A : Type 0} → (ℕ → A × Option String) → M A
ask f = lift (λ w. (f w.tick, record w { tick = w.tick + 1 }))
