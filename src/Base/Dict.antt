-- ===== src/Base/Dict.antt =====
-- Go maps with string keys, as association lists. A map has no order that the code relies on.
use osconfig.Base.{
  ◌≡◌, ◌≢◌, refl, String, Option, none, some, List, [], ◌∷◌, arith, ◌==◌, if◌then◌else◌,
}

abbrev pub Dict {ℓ} : Type ℓ → Type ℓ
Dict V = List (String × V)

module _ {ℓ} {V : Type ℓ} where
  -- `v, ok := m[key]`
  unfoldable pub lookup : String → Dict V → Option V
  lookup key [] = none
  lookup key ((k, value) ∷ rest) = if k == key then some value else lookup key rest

  -- `m[key] = new`
  unfoldable pub insert : String → V → Dict V → Dict V
  insert key new [] = (key, new) ∷ []
  insert key new ((k, value) ∷ rest) =
      if k == key then (key, new) ∷ rest else (k, value) ∷ insert key new rest

  pub lookup-insert :
      (key asked : String) (new : V) (dict : Dict V)
      → lookup asked (insert key new dict) ≡ (if key == asked then some new else lookup asked dict)
  unfolding insert lookup
  lookup-insert key asked new [] = refl
  lookup-insert key asked new (entry ∷ rest) = ground (arith, lookup-insert key asked new rest)

  -- `delete(m, key)`
  unfoldable pub delete : String → Dict V → Dict V
  delete key [] = []
  delete key ((k, value) ∷ rest) =
      let others = delete key rest in if k == key then others else (k, value) ∷ others

  pub lookup-delete :
      (key asked : String) (dict : Dict V)
      → lookup asked (delete key dict) ≡ (if key == asked then none else lookup asked dict)
  unfolding delete lookup
  lookup-delete key asked [] = ground arith
  lookup-delete key asked (entry ∷ rest) = ground (arith, lookup-delete key asked rest)

  pub lookup-insert_self :
      (key : String) (v : V) (dict : Dict V) → lookup key (insert key v dict) ≡ some v
  lookup-insert_self key v dict = rw lookup-insert (ground arith)

  pub lookup-insert_other :
      {key asked : String} (v : V) (dict : Dict V)
      → asked ≢ key
      → lookup asked (insert key v dict) ≡ lookup asked dict
  lookup-insert_other v dict differs = rw lookup-insert (ground arith)

  pub lookup-delete_self : (key : String) (dict : Dict V) → lookup key (delete key dict) ≡ none
  lookup-delete_self key dict = rw lookup-delete (ground arith)

  pub lookup-delete_other :
      {key asked : String} (dict : Dict V)
      → asked ≢ key
      → lookup asked (delete key dict) ≡ lookup asked dict
  lookup-delete_other dict differs = rw lookup-delete (ground arith)
