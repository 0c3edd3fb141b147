-- ===== src/Base/Int.antt =====
-- The integers over the native numbers, and Go's conversion to `int32`.
use osconfig.Base.{ℕ, ◌-◌, ◌%◌, ◌<◌, ◌≡◌, ltb, if◌then◌else◌, arith}

pub data ℤ : Type 0 where
  pos : ℕ → ℤ
  negsuc : ℕ → ℤ

-- The number below 2 ^ 32 as an `int32`, in two's complement.
abbrev pub signed : ℕ → ℤ
signed m = if ltb m 2147483648 then pos m else negsuc (4294967295 - m)

-- `int32(i)`: the low 32 bits are kept.
abbrev pub to_int32 : ℤ → ℤ
to_int32 (pos n) = signed (n % 4294967296)
to_int32 (negsuc n) = signed (4294967295 - n % 4294967296)

-- Is the integer one of 32 bits?
abbrev pub IsInt32 : ℤ → Type 0
IsInt32 (pos n) = n < 2147483648
IsInt32 (negsuc n) = n < 2147483648

pub to_int32-IsInt32 : (i : ℤ) → IsInt32 (to_int32 i)
to_int32-IsInt32 (pos n) = ground arith
to_int32-IsInt32 (negsuc n) = ground arith

pub to_int32_same : (i : ℤ) → IsInt32 i → to_int32 i ≡ i
to_int32_same (pos n) h = ground arith
to_int32_same (negsuc n) h = ground arith
