-- ===== src/Recipes/Tests.antt =====
-- Versions of recipes: "1.2" against "1.10", and the theorems at them.
use osconfig.Base.{ℕ, ◌≤◌, ◌≡◌, ◌↔◌, refl, true, List, [], ◌∷◌, All, length, ok}
use osconfig.Recipes.{
  Recipe, split, parse_digits, parse_magnitude, parse_element, convert_from, convert_version,
  compare,
}
use osconfig.Recipes.Order.{nth, Newer, compare-Newer}
use osconfig.Recipes.Range.{IsInt, convert_version-Numbers}

abbrev recipe : Recipe
recipe = record { name = "r"; version = 1 ∷ 2 ∷ [] }

-- The bytes of "1.10".
abbrev bytes : List ℕ
bytes = 49 ∷ 46 ∷ 49 ∷ 48 ∷ []

converted : convert_version bytes ≡ ok (1 ∷ 10 ∷ [])
unfolding convert_version split convert_from parse_element parse_magnitude parse_digits
converted = refl

compare-Newer_example :
    ((compare recipe bytes).0 ≡ true ↔ Newer (1 ∷ 2 ∷ []) (1 ∷ 10 ∷ []))
    × ((i : ℕ) → nth i (compare recipe bytes).1.version ≡ nth i (1 ∷ 2 ∷ []))
compare-Newer_example = compare-Newer recipe 49 (46 ∷ 49 ∷ 48 ∷ []) (1 ∷ 10 ∷ []) converted

abbrev newer : List ℕ
newer = 1 ∷ 10 ∷ []

convert_version-Numbers_example : All IsInt newer × (length newer ≤ 4)
convert_version-Numbers_example = convert_version-Numbers bytes newer converted
