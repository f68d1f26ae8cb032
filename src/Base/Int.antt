-- ===== src/Base/Int.antt =====
-- Signed integers, and the casts between `int32_t` and `uint32_t` (two's complement).
use Prim.Native.Nat.{ℕ, ◌+◌, ◌-◌, ◌^◌, ◌<◌}
use mathlib.Core.Path.{◌≡◌}
use native.Mathlib.Omega.{arith}
use zero_lan_com.Base.Tests.{ltb, if◌then◌else◌}

-- `negsuc n` is -(n + 1).
pub data ℤ : Type 0 where
  pos : ℕ → ℤ
  negsuc : ℕ → ℤ

abbrev pub IsInt32 : ℤ → Type 0
IsInt32 (pos n) = n < 2 ^ 31
IsInt32 (negsuc n) = n < 2 ^ 31

abbrev pub IsU32 : ℕ → Type 0
IsU32 w = w < 2 ^ 32

-- `static_cast<uint32_t>` of an `int32_t`.
unfoldable pub to_u32 : ℤ → ℕ
to_u32 (pos n) = n
to_u32 (negsuc n) = 2 ^ 32 - (n + 1)

-- `static_cast<int32_t>` of a `uint32_t`.
unfoldable pub of_u32 : ℕ → ℤ
of_u32 w = if ltb w (2 ^ 31) then pos w else negsuc (2 ^ 32 - w - 1)

pub of_u32-to_u32 : (z : ℤ) → IsInt32 z → of_u32 (to_u32 z) ≡ z
unfolding of_u32 to_u32
of_u32-to_u32 (pos n) h = ground arith
of_u32-to_u32 (negsuc n) h = ground arith

pub to_u32-of_u32 : (w : ℕ) → IsU32 w → to_u32 (of_u32 w) ≡ w
unfolding of_u32 to_u32
to_u32-of_u32 w h = ground arith

pub to_u32-IsU32 : (z : ℤ) → IsInt32 z → IsU32 (to_u32 z)
unfolding to_u32
to_u32-IsU32 (pos n) h = omega arith
to_u32-IsU32 (negsuc n) h = omega arith

pub of_u32-IsInt32 : (w : ℕ) → IsU32 w → IsInt32 (of_u32 w)
unfolding of_u32
of_u32-IsInt32 w h = ground arith
