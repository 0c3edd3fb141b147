-- ===== src/Policies/Changes.antt =====
-- The changes of policies/changes.go, by what is installed and what is asked for.
use osconfig.Base.{
  ◌≡◌, refl, ap, String, String-discrete, Bool, true, false, not, ◌&&◌, ◌||◌, none, some, List, [],
  ◌∷◌, ◌++◌, any, contains, ◌==◌, arith,
}
use osconfig.Base.Dict.{Dict, lookup, insert, lookup-insert}
use osconfig.OsPatch.{PkgInfo}
use osconfig.Policies.{Package, names_of, missing, present, updates, get_necessary_changes}

-- Is there a package of this name in the list?
abbrev pub installed_in : List PkgInfo → String → Bool
installed_in pkgs name = any (λ (p : PkgInfo). p.name == name) pkgs

abbrev pub asked_in : List Package → String → Bool
asked_in pkgs name = any (λ (p : Package). p.name == name) pkgs

abbrev in_dict : Dict Bool → String → Bool
in_dict m name = elim (lookup name m) [ none ↦ false | some b ↦ true ]

names_of-in_dict :
    (pkgs : List PkgInfo) (m : Dict Bool) (name : String)
    → in_dict (names_of pkgs m) name ≡ (installed_in pkgs name || in_dict m name)
unfolding names_of
names_of-in_dict [] m name = refl
names_of-in_dict (p ∷ pkgs) m name =
    ground
      (arith, names_of-in_dict pkgs (insert p.name true m) name, lookup-insert p.name name true m)

known :
    (pkgs : List PkgInfo) (name : String) → in_dict (names_of pkgs []) name ≡ installed_in pkgs name
unfolding lookup
known pkgs name = ground (arith, names_of-in_dict pkgs [] name)

contains-append :
    (xs ys : List String) (name : String)
    → contains (xs ++ ys) name ≡ (contains xs name || contains ys name)
contains-append [] ys name = refl
contains-append (x ∷ xs) ys name = ground (arith, contains-append xs ys name)

missing-contains :
    (m : Dict Bool) (pkgs : List Package) (name : String)
    → contains (missing m pkgs) name ≡ (asked_in pkgs name && not (in_dict m name))
unfolding missing
missing-contains m [] name = refl
missing-contains m (p ∷ pkgs) name = elim (String-discrete p.name name) [
  | yes e ↦ ground (arith, ap (λ k. lookup k m) e, missing-contains m pkgs name)
  | no ne ↦ ground (arith, missing-contains m pkgs name)
]

present-contains :
    (m : Dict Bool) (pkgs : List Package) (name : String)
    → contains (present m pkgs) name ≡ (asked_in pkgs name && in_dict m name)
unfolding present
present-contains m [] name = refl
present-contains m (p ∷ pkgs) name = elim (String-discrete p.name name) [
  | yes e ↦ ground (arith, ap (λ k. lookup k m) e, present-contains m pkgs name)
  | no ne ↦ ground (arith, present-contains m pkgs name)
]

updates-contains :
    (u m : Dict Bool) (pkgs : List Package) (name : String)
    → (contains (updates u m pkgs).0 name ≡ (asked_in pkgs name && in_dict u name))
      × (contains (updates u m pkgs).1 name
          ≡ (asked_in pkgs name && not (in_dict u name || in_dict m name)))
unfolding updates
updates-contains u m [] name = (refl, refl)
updates-contains u m (p ∷ pkgs) name = elim (String-discrete p.name name) [
  | yes e ↦
      ground (arith, ap (λ k. lookup k m) e, ap (λ k. lookup k u) e, updates-contains u m pkgs name)
  | no ne ↦ ground (arith, updates-contains u m pkgs name)
]

-- A name is to be installed exactly if it is asked for and not installed, by an installation or, where
-- no upgrade of it is known, by an update. It is to be upgraded exactly if an update asks for it and an
-- upgrade is known, and to be removed exactly if a removal asks for it and it is installed.
pub get_necessary_changes_lem :
    (installed upgradable : List PkgInfo) (install remove update : List Package) (name : String)
    → let changes = get_necessary_changes installed upgradable install remove update in
      (contains changes.packages_to_install name ≡ (
        (asked_in install name && not (installed_in installed name))
        || (asked_in update name
            && not (installed_in upgradable name || installed_in installed name))))
      × (contains changes.packages_to_upgrade name
          ≡ (asked_in update name && installed_in upgradable name))
      × (contains changes.packages_to_remove name
          ≡ (asked_in remove name && installed_in installed name))
unfolding get_necessary_changes
get_necessary_changes_lem installed upgradable install remove update name =
    let m : Dict Bool = names_of installed [] in
    let u : Dict Bool = names_of upgradable [] in
    let (upgrades, news) = updates-contains u m update name in
    (
      rw
          (
            contains-append (missing m install) (updates u m update).1 name,
            missing-contains m install name,
            news,
            known installed name,
            known upgradable name,
            get_necessary_changes,
          )
          refl,
      rw (upgrades, known upgradable name, get_necessary_changes) refl,
      rw (present-contains m remove name, known installed name, get_necessary_changes) refl,
    )
