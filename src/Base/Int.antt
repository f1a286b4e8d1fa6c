-- ===== src/Base/Int.antt =====
-- C's signed integers: `pos n` is n and `negsuc n` is -(n + 1); conversions between widths.
use Prim.Native.Nat.{ℕ, ◌-◌, ◌%◌, ◌^◌}
use mathlib.Core.Path.{◌≡◌, refl}
use mathlib.Core.Bool.{Bool, true, false}
use net_utils.Base.Tests.{ltb, if◌then◌else◌}

pub data ℤ : Type 0 where
  pos : ℕ → ℤ
  negsuc : ℕ → ℤ

-- `x < 0`
abbrev pub is_neg : ℤ → Bool
is_neg (pos n) = false
is_neg (negsuc n) = true

pub nonneg : (k : ℤ) → is_neg k ≡ false → (n : ℕ) × (k ≡ pos n)
nonneg (pos n) h = (n, refl)
nonneg (negsuc n) h = cc

-- The value kept modulo `2 ^ w`, as an unsigned integer of `w` bits; for `w ≤ 64`.
abbrev pub to_unsigned : ℕ → ℤ → ℕ
to_unsigned w (pos n) = n % 2 ^ w
to_unsigned w (negsuc n) = (2 ^ w - 1) - n % 2 ^ w

-- The 32-bit signed integer with the bits of an unsigned number.
abbrev pub to_int32 : ℕ → ℤ
to_int32 n = let low = n % 2 ^ 32 in if ltb low (2 ^ 31) then pos low else negsuc (2 ^ 32 - 1 - low)
