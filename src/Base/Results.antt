-- ===== src/Base/Results.antt =====
-- How a Go call ends: with a value, with an error, or with a panic.
use Prim.Native.String.{String}
use mathlib.Core.Path.{◌≡◌, refl}
use mathlib.Core.Option.{Option, none, some}

pub data Result (E A : Type 0) : Type 0 where
  ok : A → Result E A
  err : E → Result E A
  panicked : String → Result E A

infixl 5 ◌>>=◌ ◌>>◌
abbrev pub ◌>>=◌ : {E A B : Type 0} → Result E A → (A → Result E B) → Result E B
ok a >>= f = f a
err e >>= f = err e
panicked s >>= f = panicked s

abbrev pub ◌>>◌ : {E A B : Type 0} → Result E A → Result E B → Result E B
m >> k = m >>= λ _. k

-- An `error` return: `nil` is `none`.
abbrev pub of_error : {E : Type 0} → Option E → Result E (Unit {0})
of_error none = ok tt
of_error (some e) = err e

-- A successful chain succeeded at each step.
pub >>=-eq-ok :
    {E A B : Type 0} (first : Result E A) (next : A → Result E B) {end : B}
    → (first >>= next) ≡ ok end
    → (x : A) × (first ≡ ok x) × (next x ≡ ok end)
>>=-eq-ok (ok x) next e = (x, refl, e)
>>=-eq-ok (err _) next e = absurd (cc)
>>=-eq-ok (panicked _) next e = absurd (cc)
