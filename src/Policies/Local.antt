-- ===== src/Policies/Local.antt =====
-- policies/local.go: the merge of the local config into the policy that was looked up.
pub mod Wins
mod Tests
use osconfig.Base.{
  String, ◌<>◌, Bool, true, false, not, ◌&&◌, ◌||◌, Option, none, some, List, [], ◌∷◌, ◌++◌, ◌≡◌,
  ◌≢◌, refl, arith, ◌==◌, if◌then◌else◌, map,
}

-- `Package` and `SoftwareRecipe`, by the name; the body is the rest of the message. No element of a list
-- is nil: `mergeConfigs` panics at one, which JSON's null gives.
pub record NamedItem : Type 0 where
  pub name : String
  pub body : String

-- `PackageRepository`
pub data PackageRepository : Type 0 where
  yum : String → String → PackageRepository
  zypper : String → String → PackageRepository
  other : String → PackageRepository

-- The `Sourced` messages; an item of the local config has no source.
pub record Sourced (A : Type 0) : Type 0 where
  pub source : String
  pub item : A

pub record EffectiveGuestPolicy : Type 0 where
  pub packages : List (Sourced NamedItem)
  pub package_repositories : List (Sourced PackageRepository)
  pub software_recipes : List (Sourced NamedItem)

pub record LocalConfig : Type 0 where
  pub packages : List NamedItem
  pub package_repositories : List PackageRepository
  pub software_recipes : List NamedItem

-- `getID`
abbrev pub get_id : PackageRepository → String
get_id (yum id body) = "yum-" <> id
get_id (zypper id body) = "zypper-" <> id
get_id (other body) = ""

abbrev pub name_of : NamedItem → String
name_of n = n.name

-- The keys of a map that the loops over the policy fill.
abbrev pub keys : {A : Type 0} → (A → String) → List (Sourced A) → List String
keys key [] = []
keys key (v ∷ vs) = key v.item ∷ keys key vs

abbrev pub member : String → List String → Bool
member q [] = false
member q (k ∷ ks) = k == q || member q ks

-- A loop over the local config: an item that is not skipped goes to the end of the policy's.
unfoldable pub append_missing :
    {A : Type 0} → (A → Bool) → List A → List (Sourced A) → List (Sourced A)
append_missing skip [] out = out
append_missing skip (v ∷ vs) out =
    append_missing skip vs (if skip v then out else out ++ (record { source = ""; item = v } ∷ []))

abbrev pub by_name : List (Sourced NamedItem) → NamedItem → Bool
by_name vs v = member v.name (keys name_of vs)

abbrev pub by_id : List (Sourced PackageRepository) → PackageRepository → Bool
by_id vs v = not (get_id v == "") && member (get_id v) (keys get_id vs)

abbrev pub or_empty : Option EffectiveGuestPolicy → EffectiveGuestPolicy
or_empty (some egp) = egp
or_empty none = record { packages = []; package_repositories = []; software_recipes = [] }

unfoldable pub merge_into : Option LocalConfig → EffectiveGuestPolicy → EffectiveGuestPolicy
merge_into none egp = egp
merge_into (some c) egp = record {
  packages = append_missing (by_name egp.packages) c.packages egp.packages;
  package_repositories =
      append_missing (by_id egp.package_repositories) c.package_repositories
        egp.package_repositories;
  software_recipes =
      append_missing (by_name egp.software_recipes) c.software_recipes egp.software_recipes;
}

-- `mergeConfigs`; a nil pointer is nothing.
unfoldable pub merge_configs :
    Option LocalConfig → Option EffectiveGuestPolicy → EffectiveGuestPolicy
merge_configs local egp = merge_into local (or_empty egp)
