-- ===== src/Prelude/Int.antt =====
-- Signed integers over the native numbers, and int16 values as bit patterns.
use Prim.Native.Nat.{ℕ, suc, ◌+◌, ◌-◌, ◌≤◌, ◌<◌}
use mathlib.Core.Path.{◌≡◌, ap}
use mathlib.Core.Bool.{Bool, true, false}
use native.Mathlib.Omega.{arith}
use rewind.Prelude.Tests.{ltb, ◌==◌, if◌then◌else◌}

-- `negsuc n` is -(n + 1).
pub data ℤ : Type 0 where
  pos : ℕ → ℤ
  negsuc : ℕ → ℤ

abbrev pub pos_part : ℤ → ℕ
pos_part (pos n) = n
pos_part (negsuc n) = 0

abbrev pub neg_part : ℤ → ℕ
neg_part (pos n) = 0
neg_part (negsuc n) = suc n

infix 50 ◌≤ℤ◌
abbrev pub ◌≤ℤ◌ : ℤ → ℤ → Type 0
a ≤ℤ b = pos_part a + neg_part b ≤ pos_part b + neg_part a

abbrev pub ltb_ℤ : ℤ → ℤ → Bool
ltb_ℤ a b = ltb (pos_part a + neg_part b) (pos_part b + neg_part a)

abbrev pub IsI16 : ℤ → Type 0
IsI16 z = (negsuc 32767 ≤ℤ z) × (z ≤ℤ pos 32767)

-- `uint16(v)` of an int16, and `int16(v)` of a uint16: two's complement.
unfoldable pub u16_of_i16 : ℤ → ℕ
u16_of_i16 (pos n) = n
u16_of_i16 (negsuc n) = 65535 - n

unfoldable pub i16_of_u16 : ℕ → ℤ
i16_of_u16 v = if ltb v 32768 then pos v else negsuc (65535 - v)

pub i16-u16 : (z : ℤ) → IsI16 z → i16_of_u16 (u16_of_i16 z) ≡ z
unfolding i16_of_u16 u16_of_i16
i16-u16 (pos n) h = ground arith
i16-u16 (negsuc n) h = ground arith

pub u16_of_i16-lt : (z : ℤ) → IsI16 z → u16_of_i16 z < 65536
unfolding u16_of_i16
u16_of_i16-lt (pos n) h = omega arith
u16_of_i16-lt (negsuc n) h = omega arith

abbrev pub eqb_ℤ : ℤ → ℤ → Bool
eqb_ℤ (pos a) (pos b) = a == b
eqb_ℤ (pos a) (negsuc b) = false
eqb_ℤ (negsuc a) (pos b) = false
eqb_ℤ (negsuc a) (negsuc b) = a == b

pub eqb_ℤ-sound : (a b : ℤ) → eqb_ℤ a b ≡ true → a ≡ b
eqb_ℤ-sound (pos a) (pos b) h = ap pos (ground arith)
eqb_ℤ-sound (pos a) (negsuc b) h = cc
eqb_ℤ-sound (negsuc a) (pos b) h = cc
eqb_ℤ-sound (negsuc a) (negsuc b) h = ap negsuc (ground arith)
