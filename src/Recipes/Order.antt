-- ===== src/Recipes/Order.antt =====
-- The comparison of policies/recipes/recipe.go is the order of versions by their first difference.
use osconfig.Base.{
  ℕ, zero, suc, ◌+◌, ◌-◌, ◌<◌, ◌≡◌, ◌↔◌, refl, sym, ◌∙◌, true, List, [], ◌∷◌, ◌++◌, ok, ltb, length,
  length-append, Bool-cases, inl, inr, arith,
}
use mathlib.Core.Path.{subst}
use native.Mathlib.Decide.{ℕ_discrete}
use osconfig.Recipes.{Recipe, convert_version, pad, compare_loop, compare}

-- The number at an index, which is 0 past the end.
abbrev pub nth : ℕ → List ℕ → ℕ
nth i [] = 0
nth zero (v ∷ vs) = v
nth (suc i) (v ∷ vs) = nth i vs

-- The second version is newer: at the first index where they differ it has the greater number.
abbrev pub Newer : List ℕ → List ℕ → Type 0
Newer v w = (i : ℕ) × ((j : ℕ) → j < i → nth j v ≡ nth j w) × (nth i v < nth i w)

nth-snoc : (i : ℕ) (v : List ℕ) → nth i (v ++ (0 ∷ [])) ≡ nth i v
nth-snoc zero [] = refl
nth-snoc (suc i) [] = refl
nth-snoc zero (x ∷ v) = refl
nth-snoc (suc i) (x ∷ v) = nth-snoc i v

nth-pad : (n i : ℕ) (v : List ℕ) → nth i (pad n v) ≡ nth i v
unfolding pad
nth-pad zero i v = refl
nth-pad (suc n) i v = nth-pad n i (v ++ (0 ∷ [])) ∙ nth-snoc i v

length-pad : (n : ℕ) (v : List ℕ) → length (pad n v) ≡ length v + n
unfolding pad
length-pad zero v = omega arith
length-pad (suc n) v = omega (arith, length-pad n (v ++ (0 ∷ [])), length-append v (0 ∷ []))

-- With the same first number the rest decides.
Newer-same : (x : ℕ) (v w : List ℕ) → Newer v w → Newer (x ∷ v) (x ∷ w)
Newer-same x v w (i, before, less) = (suc i, shifted, less)
  where
    shifted : (j : ℕ) → j < suc i → nth j (x ∷ v) ≡ nth j (x ∷ w)
    shifted zero lt = refl
    shifted (suc j) lt = before j (omega arith)

same-Newer : (x : ℕ) (v w : List ℕ) → Newer (x ∷ v) (x ∷ w) → Newer v w
same-Newer x v w (zero, before, less) = absurd (omega arith)
same-Newer x v w (suc i, before, less) = (i, λ j lt. before (suc j) (omega arith), less)

differing-Newer : (x y : ℕ) (v w : List ℕ) → ¬ (x ≡ y) → Newer (x ∷ v) (y ∷ w) → x < y
differing-Newer x y v w ne (zero, before, less) = less
differing-Newer x y v w ne (suc i, before, less) = absurd (ne (before zero (omega arith)))

compare_loop-Newer :
    (v w : List ℕ)
    → length v ≡ length w
    → (compare_loop v w ≡ true → Newer v w) × (Newer v w → compare_loop v w ≡ true)
unfolding compare_loop
compare_loop-Newer [] [] e = (λ h. absurd (cc), λ (i, before, less). absurd (omega arith))
compare_loop-Newer [] (y ∷ w) e = absurd (omega arith)
compare_loop-Newer (x ∷ v) [] e = absurd (omega arith)
compare_loop-Newer (x ∷ v) (y ∷ w) e = elim (ℕ_discrete x y) [
  | yes q ↦
      let (to, from) = compare_loop-Newer v w (omega arith) in
      (
        λ h. subst (λ z. Newer (x ∷ v) (z ∷ w)) q (Newer-same x v w (to (ground arith))),
        λ n. ground (arith, from (same-Newer x v w (subst (λ z. Newer (x ∷ v) (z ∷ w)) (sym q) n))),
      )
  | no ne ↦ (
    λ h. (zero, λ j lt. absurd (omega arith), ground arith),
    λ n. ground (arith, differing-Newer x y v w ne n),
  )
]

-- Padded or not, a version has the same numbers.
Newer-pad :
    (m n : ℕ) (v w : List ℕ)
    → (Newer (pad m v) (pad n w) → Newer v w) × (Newer v w → Newer (pad m v) (pad n w))
Newer-pad m n v w = (
  λ (i, before, less). (
    i,
    λ j lt. sym (nth-pad m j v) ∙ (before j lt ∙ nth-pad n j w),
    omega (arith, nth-pad m i v, nth-pad n i w),
  ),
  λ (i, before, less). (
    i,
    λ j lt. nth-pad m j v ∙ (before j lt ∙ sym (nth-pad n j w)),
    omega (arith, nth-pad m i v, nth-pad n i w),
  ),
)

-- The comparison of two versions that are padded to one length.
padded-Newer :
    (m n : ℕ) (v w : List ℕ)
    → length v + m ≡ length w + n
    → (compare_loop (pad m v) (pad n w) ≡ true) ↔ Newer v w
padded-Newer m n v w e =
    let (to, from) =
      compare_loop-Newer (pad m v) (pad n w) (omega (arith, length-pad m v, length-pad n w)) in
    let (off, on) = Newer-pad m n v w in (λ h. off (to h), λ k. from (on k))

-- A version that converts is newer than the recipe's exactly if, at the first place where the two
-- differ, it has the greater number; missing places count as 0. The recipe's version may be padded by
-- the call, and keeps its numbers.
pub compare-Newer :
    (r : Recipe) (b : ℕ) (bytes w : List ℕ)
    → convert_version (b ∷ bytes) ≡ ok w
    → ((compare r (b ∷ bytes)).0 ≡ true ↔ Newer r.version w)
      × ((i : ℕ) → nth i (compare r (b ∷ bytes)).1.version ≡ nth i r.version)
unfolding compare pad
compare-Newer r b bytes w e = elim (Bool-cases (ltb (length w) (length r.version))) [
  | inl longer ↦
      rw (e, longer, compare)
        (padded-Newer 0 (length r.version - length w) r.version w (ground arith), λ i. refl)
  | inr shorter ↦
      rw (e, shorter, compare)
        (
          padded-Newer (length w - length r.version) 0 r.version w (ground arith),
          λ i. nth-pad (length w - length r.version) i r.version,
        )
]
