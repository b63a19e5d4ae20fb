-- ===== src/Base/Int.antt =====
-- Signed numbers, and their two's complement patterns at the widths of C.
use Prim.Native.Nat.{ℕ, suc, ◌-◌, ◌%◌, ◌^◌, ◌<◌}
use mathlib.Core.Path.{◌≡◌}
use native.Mathlib.Omega.{arith}
use deconz_lib.Base.Word.{ltb, if◌then◌else◌}

-- `negsuc n` is -(n + 1).
pub data ℤ : Type 0 where
  pos : ℕ → ℤ
  negsuc : ℕ → ℤ

-- The bits of an integer cast to an unsigned type of `w` bits.
abbrev pub to_bits : ℕ → ℤ → ℕ
to_bits w (pos n) = n % 2 ^ w
to_bits w (negsuc n) = 2 ^ w - 1 - n % 2 ^ w

-- The integer of a signed type of `suc w` bits with these bits.
abbrev pub of_bits : ℕ → ℕ → ℤ
of_bits w n = if ltb n (2 ^ w) then pos n else negsuc (2 ^ suc w - 1 - n)

-- The range of a signed type of `suc w` bits.
abbrev pub InRange : ℕ → ℤ → Type 0
InRange w (pos n) = n < 2 ^ w
InRange w (negsuc n) = n < 2 ^ w

pub of_bits-to_bits_16 : (z : ℤ) → InRange 15 z → of_bits 15 (to_bits 16 z) ≡ z
of_bits-to_bits_16 (pos n) h = ground arith
of_bits-to_bits_16 (negsuc n) h = ground arith

pub of_bits-to_bits_32 : (z : ℤ) → InRange 31 z → of_bits 31 (to_bits 32 z) ≡ z
of_bits-to_bits_32 (pos n) h = ground arith
of_bits-to_bits_32 (negsuc n) h = ground arith

-- A cast to 64 bits and on to 32 is the cast to 32.
pub to_bits-trunc : (z : ℤ) → to_bits 64 z % 2 ^ 32 ≡ to_bits 32 z
to_bits-trunc (pos n) = omega arith
to_bits-trunc (negsuc n) = omega arith
