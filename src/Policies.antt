-- ===== src/Policies.antt =====
-- policies/changes.go: what to install, upgrade and remove.
pub mod Local
pub mod Changes
mod Tests
use osconfig.Base.{String, Bool, true, false, Option, none, some, List, [], ◌∷◌, ◌++◌}
use osconfig.Base.Dict.{Dict, lookup, insert}
use osconfig.OsPatch.{PkgInfo}

-- `agentendpointpb.Package`, by the field that the code reads.
pub record Package : Type 0 where
  pub name : String

-- `changes`
pub record NecessaryChanges : Type 0 where
  pub packages_to_install : List String
  pub packages_to_upgrade : List String
  pub packages_to_remove : List String

-- The loop that makes a map of the names of packages.
unfoldable pub names_of : List PkgInfo → Dict Bool → Dict Bool
names_of [] m = m
names_of (pkg ∷ pkgs) m = names_of pkgs (insert pkg.name true m)

-- The loop over the packages to install.
unfoldable pub missing : Dict Bool → List Package → List String
missing installed [] = []
missing installed (pkg ∷ pkgs) =
    let rest = missing installed pkgs in
    elim (lookup pkg.name installed) [ none ↦ pkg.name ∷ rest | some b ↦ rest ]

-- The loop over the packages to remove.
unfoldable pub present : Dict Bool → List Package → List String
present installed [] = []
present installed (pkg ∷ pkgs) =
    let rest = present installed pkgs in
    elim (lookup pkg.name installed) [ none ↦ rest | some b ↦ pkg.name ∷ rest ]

-- The loop over the packages to update: those to upgrade, and those to install.
unfoldable pub updates : Dict Bool → Dict Bool → List Package → List String × List String
updates upgradable installed [] = ([], [])
updates upgradable installed (pkg ∷ pkgs) =
    let (up, new) = updates upgradable installed pkgs in
    elim (lookup pkg.name upgradable) [
      | some b ↦ (pkg.name ∷ up, new)
      | none ↦ elim (lookup pkg.name installed) [ none ↦ (up, pkg.name ∷ new) | some b ↦ (up, new) ]
    ]

-- `getNecessaryChanges`
unfoldable pub get_necessary_changes :
    List PkgInfo → List PkgInfo → List Package → List Package → List Package → NecessaryChanges
get_necessary_changes installed_pkgs upgradable_pkgs install_pkgs remove_pkgs update_pkgs =
    let installed = names_of installed_pkgs [] in
    let upgradable = names_of upgradable_pkgs [] in
    let (up, new) = updates upgradable installed update_pkgs in
    record {
      packages_to_install = missing installed install_pkgs ++ new;
      packages_to_upgrade = up;
      packages_to_remove = present installed remove_pkgs;
    }
