-- ===== src/Base/Actions.antt =====
-- A method with state: it returns a value, an error, or panics, and what it wrote stays written.
use osconfig.Base.Results.{Result, ok, err, panicked}

abbrev pub Action : Type 0 → Type 0 → Type 0 → Type 0
Action S E A = S → Result E A × S

module _ {S E : Type 0} where
  abbrev pub pure : {A : Type 0} → A → Action S E A
  pure a s = (ok a, s)

  abbrev pub raise : {A : Type 0} → E → Action S E A
  raise e s = (err e, s)

  abbrev pub resume :
      {A B : Type 0} → (E → Action S E B) → (A → Action S E B) → Result E A → Action S E B
  resume h k (ok a) = k a
  resume h k (err e) = h e
  resume h k (panicked p) = λ s. (panicked p, s)

  -- `if err := m(); err != nil { return h(err) }`, and then `k`.
  abbrev pub attempt :
      {A B : Type 0} → Action S E A → (E → Action S E B) → (A → Action S E B) → Action S E B
  attempt m h k s = let (r, s') = m s in resume h k r s'
