-- ===== src/Recipes.antt =====
-- policies/recipes/recipe.go: the versions of recipes and their order. Texts are bytes.
pub mod Order
pub mod Database
pub mod Install
pub mod Range
mod Tests
use osconfig.Base.{
  ℕ, zero, suc, ◌+◌, ◌-◌, ◌*◌, String, Bool, true, false, ◌&&◌, ◌||◌, Option, none, some, List, [],
  ◌∷◌, ◌++◌, Result, ok, err, panicked, ◌>>=◌, ltb, leb, eqb, if◌then◌else◌, length, is_empty,
}

-- `Recipe`, by the fields that the order reads; `Version` has no negative numbers.
pub record Recipe : Type 0 where
  pub name : String
  pub version : List ℕ

-- `strings.Split(version, ".")`
unfoldable pub split : List ℕ → List (List ℕ)
split [] = [] ∷ []
split (b ∷ bytes) =
    let rest = split bytes in
    if eqb b 46
    then [] ∷ rest
    else elim rest [ [] ↦ (b ∷ []) ∷ [] | first ∷ others ↦ (b ∷ first) ∷ others ]

-- The digits of `strconv.ParseInt` in base 10, with the value so far.
unfoldable pub parse_digits : ℕ → List ℕ → Option ℕ
parse_digits value [] = some value
parse_digits value (b ∷ bytes) =
    let rest = parse_digits (value * 10 + (b - 48)) bytes in
    if leb 48 b && leb b 57 then rest else none

-- At least one digit, and a value below the bound.
unfoldable pub parse_magnitude : ℕ → List ℕ → Option ℕ
parse_magnitude bound [] = none
parse_magnitude bound (b ∷ bytes) = elim (parse_digits 0 (b ∷ bytes)) [
  | none ↦ none
  | some value ↦ if ltb value bound then some value else none
]

-- `strconv.ParseInt(element, 10, 0)` with the test `val < 0` after it: a minus sign is read, and only
-- zero passes under it.
unfoldable pub parse_element : List ℕ → Option ℕ
parse_element [] = none
parse_element (b ∷ bytes) =
    if eqb b 43
    then parse_magnitude 9223372036854775808 bytes
    else if eqb b 45
    then parse_magnitude 1 bytes
    else parse_magnitude 9223372036854775808 (b ∷ bytes)

abbrev pub invalid_version : String
invalid_version = "invalid Version string"

-- The loop of `convertVersion`, from the element of the index on.
unfoldable pub convert_from : ℕ → List (List ℕ) → Result String (List ℕ)
convert_from idx [] = ok []
convert_from idx (element ∷ elements) =
    let rest = convert_from (suc idx) elements in
    if ltb 3 idx then err invalid_version else elim (parse_element element) [
      | none ↦ err invalid_version
      | some val ↦ (do ret ← rest; ok (val ∷ ret))
    ]

unfoldable pub convert_version : List ℕ → Result String (List ℕ)
convert_version [] = ok (0 ∷ [])
convert_version (b ∷ bytes) = convert_from 0 (split (b ∷ bytes))

-- `setVersion`: the version is written also where there is an error, as nil.
unfoldable pub set_version : List ℕ → Recipe → Option String × Recipe
set_version version r = elim (convert_version version) [
  | ok v ↦ (none, record r { version = v })
  | err e ↦ (some e, record r { version = [] })
  | panicked p ↦ (some p, record r { version = [] })
]

-- The loops that pad with zeros.
unfoldable pub pad : ℕ → List ℕ → List ℕ
pad zero v = v
pad (suc n) v = pad n (v ++ (0 ∷ []))

-- The loop over two versions of one length.
unfoldable pub compare_loop : List ℕ → List ℕ → Bool
compare_loop [] cs = false
compare_loop (r ∷ rs) [] = false
compare_loop (r ∷ rs) (c ∷ cs) = let rest = compare_loop rs cs in if eqb r c then rest else ltb r c

-- `compare`: is the version given newer than the recipe's? The recipe's own version stays padded.
unfoldable pub compare : Recipe → List ℕ → Bool × Recipe
compare r [] = (false, r)
compare r (b ∷ bytes) = elim (convert_version (b ∷ bytes)) [
  | err e ↦ (false, r)
  | panicked p ↦ (false, r)
  | ok c_version ↦
      if ltb (length c_version) (length r.version)
      then (compare_loop r.version (pad (length r.version - length c_version) c_version), r)
      else let padded = pad (length c_version - length r.version) r.version in
        (compare_loop padded c_version, record r { version = padded })
]
