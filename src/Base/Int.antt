-- ===== src/Base/Int.antt =====
-- Signed integers over the native numbers, for int64 time stamps, time differences and gauges.
use Prim.Native.Nat.{ℕ, suc, zero, ◌+◌, ◌-◌, ◌<◌, ◌^◌, ◌%◌}
use mathlib.Core.Path.{◌≡◌}
use mathlib.Core.Bool.{Bool}
use native.Mathlib.Omega.{arith}
use mine_net.Base.Tests.{ltb, leb, if◌then◌else◌}

-- `negsuc n` is -(n + 1).
pub data ℤ : Type 0 where
  pos : ℕ → ℤ
  negsuc : ℕ → ℤ

-- a - b, as an integer.
abbrev pub sub_ℕ : ℕ → ℕ → ℤ
sub_ℕ a b = if leb b a then pos (a - b) else negsuc (b - a - 1)

abbrev pub pos_part : ℤ → ℕ
pos_part (pos n) = n
pos_part (negsuc n) = 0

abbrev pub neg_part : ℤ → ℕ
neg_part (pos n) = 0
neg_part (negsuc n) = suc n

abbrev pub ltb_ℤ : ℤ → ℤ → Bool
ltb_ℤ a b = ltb (pos_part a + neg_part b) (pos_part b + neg_part a)

-- A gauge's Inc and Dec.
abbrev pub suc_ℤ : ℤ → ℤ
suc_ℤ (pos n) = pos (suc n)
suc_ℤ (negsuc zero) = pos 0
suc_ℤ (negsuc (suc n)) = negsuc n

abbrev pub pred_ℤ : ℤ → ℤ
pred_ℤ (pos zero) = negsuc 0
pred_ℤ (pos (suc n)) = pos n
pred_ℤ (negsuc n) = negsuc (suc n)

-- `uint64(x)` of an int64, and `int64(u)` of a uint64.
unfoldable pub to_uint64 : ℤ → ℕ
to_uint64 (pos n) = n % 2 ^ 64
to_uint64 (negsuc n) = 2 ^ 64 - 1 - n % 2 ^ 64

unfoldable pub to_int64 : ℕ → ℤ
to_int64 u = if ltb u (2 ^ 63) then pos u else negsuc (2 ^ 64 - 1 - u)

-- `int32` of the 32 bits of a counter.
unfoldable pub to_int32 : ℕ → ℤ
to_int32 u = if ltb u (2 ^ 31) then pos u else negsuc (2 ^ 32 - 1 - u)

-- The values of an int64.
abbrev pub IsInt64 : ℤ → Type 0
IsInt64 (pos n) = n < 2 ^ 63
IsInt64 (negsuc n) = n < 2 ^ 63

pub to_int64-to_uint64 : (x : ℤ) → IsInt64 x → to_int64 (to_uint64 x) ≡ x
unfolding to_int64 to_uint64
to_int64-to_uint64 (pos n) h = ground arith
to_int64-to_uint64 (negsuc n) h = ground arith

pub to_uint64-lt : (x : ℤ) → to_uint64 x < 2 ^ 64
unfolding to_uint64
to_uint64-lt (pos n) = omega arith
to_uint64-lt (negsuc n) = omega arith
