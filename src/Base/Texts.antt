-- ===== src/Base/Texts.antt =====
-- The functions of Go's package strings that the code uses on texts, by their characters.
use Prim.Native.Char.{Char, code, len_utf8}
use Prim.Native.Nat.{ℕ, ◌-◌, ◌≤◌, Ordering, compare}
use Prim.Native.String.slice
use Prim.Native.String.len
use native.Mathlib.Omega.{arith}
use Prim.Native.String.{String, ◌++◌, len, slice, fits}
use mathlib.Core.Bool.{Bool, true, ◌&&◌, ◌||◌}
use mathlib.Core.Path.{◌≡◌, refl}
use osconfig.Base.Tests.{leb, eqb, ◌==◌, if◌then◌else◌}

-- `unicode.IsSpace`
abbrev pub is_space : ℕ → Bool
is_space c =
    leb 9 c && leb c 13
    || (eqb c 32
        || (eqb c 133
            || (eqb c 160
                || (eqb c 5760
                    || (leb 8192 c && leb c 8202
                        || (eqb c 8232
                            || (eqb c 8233 || (eqb c 8239 || (eqb c 8287 || eqb c 12288)))))))))

-- `strings.TrimSpace(s) == ""`
abbrev pub is_blank : String → Bool
is_blank String.[] = true
is_blank (String.◌∷◌ c s) = is_space (code c) && is_blank s

-- `strings.HasPrefix(s, prefix)`
abbrev pub has_prefix : String → String → Bool
has_prefix s prefix = slice s 0 (len prefix) == prefix

-- `strings.ReplaceAll(s, "/", "\\")`
abbrev pub backslashed : String → String
backslashed String.[] = String.[]
backslashed (String.◌∷◌ c s) =
    let rest = backslashed s in if eqb (code c) 47 then "\\" ++ rest else String.◌∷◌ c rest

len-fits_le :
    (o : Ordering) (c : Char) (t : String) (b : ℕ)
    → compare (len_utf8 c) b ≡ o
    → len t ≤ b - len_utf8 c
    → len (fits o c t) ≤ b
len-fits_le Ordering.lt c t b h le = rw (len.cons c t) (ground arith)
len-fits_le Ordering.eq c t b h le = rw (len.cons c t) (ground arith)
len-fits_le Ordering.gt c t b h le = rw len.nil (omega arith)

-- A slice from the beginning is no longer than its bound.
pub len-slice_le : (s : String) (b : ℕ) → len (slice s 0 b) ≤ b
len-slice_le String.[] b = rw (slice.nil 0 b) (rw len.nil (omega arith))
len-slice_le (String.◌∷◌ c s) b =
    rw (slice.cons-zero c s b) (len-fits_le _ c _ b refl (len-slice_le s (b - len_utf8 c)))
