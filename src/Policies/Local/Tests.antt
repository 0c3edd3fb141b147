-- ===== src/Policies/Local/Tests.antt =====
-- One package is in both configs, and one repository is in the local one only.
use osconfig.Base.{String, not, some, List, [], ◌∷◌, ◌++◌, map, ◌≡◌, refl, select}
use osconfig.Policies.Local.{yum, EffectiveGuestPolicy, LocalConfig, merge_configs}
use osconfig.Policies.Local.Wins.{unsourced, names_it, merge_configs_lem}

abbrev policy : EffectiveGuestPolicy
policy = record {
  packages = record { source = "p"; item = record { name = "git"; body = "REMOVED" } } ∷ [];
  package_repositories = [];
  software_recipes = [];
}

abbrev config : LocalConfig
config = record {
  packages =
      record { name = "git"; body = "INSTALLED" }
      ∷ record { name = "nano"; body = "INSTALLED" }
      ∷ [];
  package_repositories = yum "main" "url" ∷ [];
  software_recipes = [];
}

abbrev merged : EffectiveGuestPolicy
merged = merge_configs (some config) (some policy)

-- The package of the policy stays, and the other one and the repository are added.
merge_configs_lem_example :
    (merged.packages
      ≡ policy.packages
        ++ map unsourced (select (λ v. not (names_it policy.packages v)) config.packages))
    × (merged.software_recipes ≡ [])
    × (merged.package_repositories ≡ unsourced (yum "main" "url") ∷ [])
merge_configs_lem_example = merge_configs_lem (some config) (some policy)

adds_nano :
    map unsourced (select (λ v. not (names_it policy.packages v)) config.packages)
    ≡ unsourced (record { name = "nano"; body = "INSTALLED" }) ∷ []
unfolding osconfig.Base.String-discrete
adds_nano = refl
