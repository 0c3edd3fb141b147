-- ===== src/Recipes/Range.antt =====
-- Which numbers the versions of policies/recipes/recipe.go have.
use osconfig.Base.{
  ℕ, suc, ◌+◌, ◌≤◌, ◌<◌, ◌≡◌, refl, sym, ◌∙◌, ◌>>=◌, String, false, some, List, [], ◌∷◌, Result, ok,
  >>=-eq-ok, ltb, length, All, Bool-cases, Option-cases, inl, inr, arith,
}
use mathlib.Core.Path.{subst}
use osconfig.Recipes.{parse_magnitude, parse_element, convert_from, convert_version, split}

abbrev pub IsInt : ℕ → Type 0
IsInt v = v < 9223372036854775808

parse_magnitude_bound :
    (bound : ℕ) (bytes : List ℕ) (v : ℕ) → parse_magnitude bound bytes ≡ some v → v < bound
unfolding parse_magnitude
parse_magnitude_bound bound [] v e = absurd (cc)
parse_magnitude_bound bound (b ∷ bytes) v e = ground arith

parse_element-IsInt : (bytes : List ℕ) (v : ℕ) → parse_element bytes ≡ some v → IsInt v
unfolding parse_element
parse_element-IsInt [] v e = absurd (cc)
parse_element-IsInt (b ∷ bytes) v e = ground (
  arith,
  parse_magnitude_bound 9223372036854775808 bytes v,
  parse_magnitude_bound 1 bytes v,
  parse_magnitude_bound 9223372036854775808 (b ∷ bytes) v,
)

-- What a conversion from an index on gives.
abbrev Numbers : ℕ → List ℕ → Type 0
Numbers idx w = All IsInt w × (idx ≤ 4 → idx + length w ≤ 4)

ok-injective : {A : Type 0} {a b : A} → ◌≡◌ {A = Result String A} (ok a) (ok b) → a ≡ b
ok-injective q = cc

-- Where an element converts, the rest does.
convert_from_step :
    (idx : ℕ) (element : List ℕ) (elements : List (List ℕ)) (v : ℕ)
    → ltb 3 idx ≡ false
    → parse_element element ≡ some v
    → convert_from idx (element ∷ elements)
      ≡ (convert_from (suc idx) elements >>= λ ret. ok (v ∷ ret))
unfolding convert_from
convert_from_step idx element elements v early parsed = rw (early, parsed, convert_from) refl

convert_from-Numbers :
    (idx : ℕ) (elements : List (List ℕ)) (w : List ℕ)
    → convert_from idx elements ≡ ok w
    → Numbers idx w
unfolding convert_from
convert_from-Numbers idx [] w e = subst (Numbers idx) (ok-injective e) (tt, λ le. omega (arith, le))
convert_from-Numbers idx (element ∷ elements) w e = elim (Bool-cases (ltb 3 idx)) [
  | inl late ↦ absurd (ground arith)
  | inr early ↦ elim (Option-cases (parse_element element)) [
    | inl bad ↦ absurd (ground arith)
    | inr (v, parsed) ↦
        let (rest, converted, same) =
          >>=-eq-ok (convert_from (suc idx) elements) (λ ret. ok (v ∷ ret))
            (sym (convert_from_step idx element elements v early parsed) ∙ e) in
        let (ints, few) = convert_from-Numbers (suc idx) elements rest converted in
        subst (Numbers idx) (ok-injective same)
          ((parse_element-IsInt element v parsed, ints), λ le. omega (arith, few (ground arith)))
  ]
]

-- A version that converts has four numbers at most, none above the greatest 64-bit integer.
pub convert_version-Numbers :
    (version w : List ℕ) → convert_version version ≡ ok w → All IsInt w × (length w ≤ 4)
unfolding convert_version
convert_version-Numbers [] w e =
    subst (λ w. All IsInt w × (length w ≤ 4)) (ok-injective e) ((omega arith, tt), omega arith)
convert_version-Numbers (b ∷ bytes) w e =
    let (ints, few) = convert_from-Numbers 0 (split (b ∷ bytes)) w e in
    (ints, omega (arith, few (omega arith)))
