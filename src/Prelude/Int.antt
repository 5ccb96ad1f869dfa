-- ===== src/Prelude/Int.antt =====
-- Signed numbers, as C has them: `negsuc n` is -(n + 1).
use Prim.Native.Nat.{ℕ, zero, suc, ◌-◌, ◌%◌, ◌^◌}
use mathlib.Core.Bool.{Bool, true, false}
use psnet.Prelude.Tests.{ltb, if◌then◌else◌}

pub data ℤ : Type 0 where
  pos : ℕ → ℤ
  negsuc : ℕ → ℤ

abbrev pub negate : ℕ → ℤ
negate n = if ltb 0 n then negsuc (n - 1) else pos 0

-- The value modulo 2 ^ 32.
abbrev pub low32 : ℤ → ℕ
low32 (pos n) = n % 2 ^ 32
low32 (negsuc n) = 2 ^ 32 - 1 - n % 2 ^ 32

-- The conversion of a long to an int.
abbrev pub to_int32 : ℤ → ℤ
to_int32 v = if ltb (low32 v) (2 ^ 31) then pos (low32 v) else negsuc (2 ^ 32 - 1 - low32 v)

abbrev pub is_neg : ℤ → Bool
is_neg (pos n) = false
is_neg (negsuc n) = true

-- One more, and one less.
abbrev pub incremented : ℤ → ℤ
incremented (pos n) = pos (suc n)
incremented (negsuc zero) = pos 0
incremented (negsuc (suc n)) = negsuc n

abbrev pub decremented : ℤ → ℤ
decremented (pos zero) = negsuc 0
decremented (pos (suc n)) = pos n
decremented (negsuc n) = negsuc (suc n)

-- Whether `v` is above `n`.
abbrev pub above : ℤ → ℕ → Bool
above (pos m) n = ltb n m
above (negsuc m) n = false
