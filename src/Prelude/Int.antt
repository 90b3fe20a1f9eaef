-- ===== src/Prelude/Int.antt =====
-- Signed numbers: integers that a caller may give as negative, and Go's int64 durations.
use Prim.Native.Nat.{ℕ, ◌-◌, ◌%◌, ◌^◌, min, max}
use mathlib.Core.Bool.{Bool, true, false}
use wppconnect_server_go.Prelude.Tests.{ltb, if◌then◌else◌}

-- `negsuc n` is -(n + 1).
pub data ℤ : Type 0 where
  pos : ℕ → ℤ
  negsuc : ℕ → ℤ

abbrev pub is_negative : ℤ → Bool
is_negative (pos n) = false
is_negative (negsuc n) = true

abbrev pub pos_part : ℤ → ℕ
pos_part (pos n) = n
pos_part (negsuc n) = 0

-- An int64 from the product of two, which may have passed its range.
abbrev pub wrap64 : ℕ → ℤ
wrap64 x = let m = x % 2 ^ 64 in if ltb m (2 ^ 63) then pos m else negsuc (2 ^ 64 - 1 - m)

abbrev pub at_most : ℕ → ℤ → ℤ
at_most cap (pos x) = pos (min cap x)
at_most cap (negsuc x) = negsuc x

abbrev pub at_least : ℕ → ℤ → ℤ
at_least low (pos x) = pos (max x low)
at_least low (negsuc x) = pos low
