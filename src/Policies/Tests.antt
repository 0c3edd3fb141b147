-- ===== src/Policies/Tests.antt =====
-- The changes at concrete packages.
use osconfig.Base.{◌≡◌, String-discrete, true, false, List, [], ◌∷◌, contains}
use osconfig.OsPatch.{PkgInfo}
use osconfig.Policies.{Package, get_necessary_changes}
use osconfig.Policies.Changes.{get_necessary_changes_lem}

abbrev pkg : PkgInfo
pkg = record { name = "vim"; raw_arch = "amd64"; version = "1" }

abbrev changes_of_vim : List Package
changes_of_vim = record { name = "vim" } ∷ []

get_necessary_changes_lem_example :
    let changes = get_necessary_changes (pkg ∷ []) [] [] changes_of_vim changes_of_vim in
    (contains changes.packages_to_install "vim" ≡ false)
    × (contains changes.packages_to_upgrade "vim" ≡ false)
    × (contains changes.packages_to_remove "vim" ≡ true)
unfolding String-discrete
get_necessary_changes_lem_example =
    get_necessary_changes_lem (pkg ∷ []) [] [] changes_of_vim changes_of_vim "vim"
