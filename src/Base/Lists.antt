-- ===== src/Base/Lists.antt =====
-- Lists measured by native numbers, the Boolean tests of Go's loops over slices, and predicates.
use Prim.Native.Nat.{ℕ, suc, ◌+◌, ◌≤◌}
use Prim.Native.String.{String}
use mathlib.Core.Path.{◌≡◌, refl, ap}
use mathlib.Core.Logic.{◌⊎◌, inl, inr}
use mathlib.Core.Bool.{Bool, true, false, ◌||◌}
use mathlib.Core.List.{List, [], ◌∷◌, ◌++◌}
use native.Mathlib.Omega.{arith}
use osconfig.Base.Tests.{if◌then◌else◌, ◌==◌}

module _ {ℓ} {A : Type ℓ} where
  abbrev pub length : List A → ℕ
  length [] = 0
  length (x ∷ xs) = suc (length xs)

  -- Go's `len(xs) == 0`.
  abbrev pub is_empty : List A → Bool
  is_empty [] = true
  is_empty (x ∷ xs) = false

  -- The loop `for x in xs { if p(x) { out = append(out, x) } }`.
  abbrev pub select : (A → Bool) → List A → List A
  select p [] = []
  select p (x ∷ xs) = let rest = select p xs in if p x then x ∷ rest else rest

  -- The loop `for x in xs { if p(x) { return true } }; return false`.
  abbrev pub any : (A → Bool) → List A → Bool
  any p [] = false
  any p (x ∷ xs) = p x || any p xs

  abbrev pub All {κ} : (A → Type κ) → List A → Type κ
  All P [] = Unit
  All P (x ∷ xs) = P x × All P xs

  pub All-map {κ μ} :
      {P : A → Type κ} {Q : A → Type μ} (xs : List A) → ((x : A) → P x → Q x) → All P xs → All Q xs
  All-map [] f h = tt
  All-map (x ∷ xs) f h = (f x h.0, All-map xs f h.1)

  pub length-append : (xs ys : List A) → length (xs ++ ys) ≡ length xs + length ys
  length-append [] ys = omega arith
  length-append (x ∷ xs) ys = omega (arith, length-append xs ys)

  pub length-select_le : (p : A → Bool) (xs : List A) → length (select p xs) ≤ length xs
  length-select_le p [] = omega arith
  length-select_le p (x ∷ xs) = ground (arith, length-select_le p xs)

  pub select-All : (p : A → Bool) (xs : List A) → All (λ x. p x ≡ true) (select p xs)
  select-All p [] = tt
  select-All p (x ∷ xs) = ground (arith, select-All p xs)

module _ {A : Type 0} where
  abbrev pub Member : A → List A → Type 0
  Member x [] = ⊥
  Member x (y ∷ ys) = (x ≡ y) ⊎ Member x ys

  pub All-Member {κ} : {P : A → Type κ} (xs : List A) → ((x : A) → Member x xs → P x) → All P xs
  All-Member [] f = tt
  All-Member (x ∷ xs) f = (f x (inl refl), All-Member xs (λ y m. f y (inr m)))

  pub any-Member : (p : A → Bool) (x : A) (xs : List A) → Member x xs → p x ≡ true → any p xs ≡ true
  any-Member p x [] m h = absurd m
  any-Member p x (y ∷ ys) (inl e) h = ground (arith, ap p e)
  any-Member p x (y ∷ ys) (inr m) h = ground (arith, any-Member p x ys m h)

-- Two lists of one length, related item by item.
module _ {A B : Type 0} where
  abbrev pub Zip : (A → B → Type 0) → List A → List B → Type 0
  Zip R [] [] = Unit
  Zip R (x ∷ xs) (y ∷ ys) = R x y × Zip R xs ys
  Zip R _ _ = ⊥

  pub Zip-map :
      {R S : A → B → Type 0} (xs : List A) (ys : List B)
      → ((x : A) (y : B) → R x y → S x y)
      → Zip R xs ys
      → Zip S xs ys
  Zip-map [] [] f h = tt
  Zip-map [] (y ∷ ys) f h = absurd h
  Zip-map (x ∷ xs) [] f h = absurd h
  Zip-map (x ∷ xs) (y ∷ ys) f h = (f x y h.0, Zip-map xs ys f h.1)

-- Go's `for _, s := range ss { if s == c { return true } }`.
abbrev pub contains : List String → String → Bool
contains [] c = false
contains (s ∷ ss) c = s == c || contains ss c
