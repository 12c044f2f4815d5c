-- ===== src/Prelude/Float.antt =====
-- The floating-point arithmetic of the Go language, which has no counterpart here: the two types
-- and the operations that the program uses, as a parameter of the model. Comparisons are the
-- language's, so a NaN compares false.
use Prim.Native.Nat.{ℕ, ◌<◌}
use mathlib.Core.Path.{◌≡◌}
use mathlib.Core.Bool.{Bool, true}
use mathlib.Core.Logic.{◌⊎◌}
use rewind.Prelude.Int.{ℤ, pos, negsuc, ltb_ℤ, ◌≤ℤ◌, IsI16}

pub record Floats : Type 1 where
  pub F32 : Type 0
  pub F64 : Type 0
  -- `float64(v)` of a float32, and of an integer constant.
  pub widen : F32 → F64
  pub int64 : ℤ → F64
  -- `float32(n)` of an integer, and the operations on float32.
  pub int32 : ℤ → F32
  pub add32 : F32 → F32 → F32
  pub sub32 : F32 → F32 → F32
  pub mul32 : F32 → F32 → F32
  pub div32 : F32 → F32 → F32
  pub le32 : F32 → F32 → Bool
  pub lt32 : F32 → F32 → Bool
  -- The operations on float64; `round64` is `math.Round`.
  pub mul64 : F64 → F64 → F64
  pub round64 : F64 → F64
  pub lt64 : F64 → F64 → Bool
  -- `uint16(q)` and `int16(q)` of a float64. What they give out of range differs by platform; the
  -- result is always a value of the type.
  pub to_u16 : F64 → ℕ
  pub to_u16-lt : (q : F64) → to_u16 q < 65536
  pub to_i16 : F64 → ℤ
  pub to_i16-IsI16 : (q : F64) → IsI16 (to_i16 q)

-- The integers that a 16-bit word can stand for, signed or not.
abbrev pub IsSmall : ℤ → Type 0
IsSmall z = (negsuc 65534 ≤ℤ z) × (z ≤ℤ pos 65535)

-- What IEEE 754 promises of these integers: they are held exactly, a division by 16 and a
-- multiplication by 16 only move the exponent, rounding leaves them, the order is theirs, and so is
-- the conversion back.
pub record IsExact (fl : Floats) : Type 0 where
  pub sixteenth :
      (z : ℤ)
      → IsSmall z
      → fl.mul64 (fl.widen (fl.div32 (fl.int32 z) (fl.int32 (pos 16)))) (fl.int64 (pos 16))
        ≡ fl.int64 z
  pub round-int : (z : ℤ) → IsSmall z → fl.round64 (fl.int64 z) ≡ fl.int64 z
  pub lt-int : (y z : ℤ) → IsSmall y → IsSmall z → fl.lt64 (fl.int64 y) (fl.int64 z) ≡ ltb_ℤ y z
  pub to_u16-int : (n : ℕ) → n < 65536 → fl.to_u16 (fl.int64 (pos n)) ≡ n
  pub to_i16-int : (z : ℤ) → IsI16 z → fl.to_i16 (fl.int64 z) ≡ z

-- What the simulation uses beyond this: the builtin `min` and `max`, the conversions to float32, to
-- int and to uint8, the arithmetic of float64, and the package math.
pub record Math (fl : Floats) : Type 0 where
  pub min32 : fl.F32 → fl.F32 → fl.F32
  pub max32 : fl.F32 → fl.F32 → fl.F32
  pub narrow : fl.F64 → fl.F32
  pub to_int : fl.F32 → ℤ
  pub to_u8 : fl.F32 → ℕ
  pub add64 : fl.F64 → fl.F64 → fl.F64
  pub sub64 : fl.F64 → fl.F64 → fl.F64
  pub div64 : fl.F64 → fl.F64 → fl.F64
  pub sqrt : fl.F64 → fl.F64
  pub cos : fl.F64 → fl.F64
  pub sin : fl.F64 → fl.F64
  -- The constants `2 * math.Pi / 65536`, 0.70710678 and `math.MaxFloat32`.
  pub inv_sqrt2 : fl.F32
  pub turn_unit : fl.F64
  pub max_float32 : fl.F32

-- Between -32768 and 32768, so no NaN and no infinity.
pub record IsInRange (fl : Floats) (v : fl.F32) : Type 0 where
  pub lower : fl.le32 (fl.int32 (negsuc 32767)) v ≡ true
  pub upper : fl.le32 v (fl.int32 (pos 32768)) ≡ true

-- What the language and IEEE 754 promise of the order of these numbers: `<=` is a preorder, `min`
-- and `max` give one of their two arguments, which bounds both, and `int(v)`, which cuts the
-- fraction off, keeps the order.
pub record IsOrdered (fl : Floats) (mt : Math fl) : Type 0 where
  pub le_self : (a : fl.F32) → IsInRange fl a → fl.le32 a a ≡ true
  pub le_trans : (a b c : fl.F32) → fl.le32 a b ≡ true → fl.le32 b c ≡ true → fl.le32 a c ≡ true
  pub min_one :
      (a b : fl.F32) → IsInRange fl a → IsInRange fl b → (mt.min32 a b ≡ a) ⊎ (mt.min32 a b ≡ b)
  pub min_left : (a b : fl.F32) → IsInRange fl a → IsInRange fl b → fl.le32 (mt.min32 a b) a ≡ true
  pub min_right : (a b : fl.F32) → IsInRange fl a → IsInRange fl b → fl.le32 (mt.min32 a b) b ≡ true
  pub max_one :
      (a b : fl.F32) → IsInRange fl a → IsInRange fl b → (mt.max32 a b ≡ a) ⊎ (mt.max32 a b ≡ b)
  pub max_left : (a b : fl.F32) → IsInRange fl a → IsInRange fl b → fl.le32 a (mt.max32 a b) ≡ true
  pub max_right : (a b : fl.F32) → IsInRange fl a → IsInRange fl b → fl.le32 b (mt.max32 a b) ≡ true
  pub int_le :
      (a b : fl.F32)
      → IsInRange fl a
      → IsInRange fl b
      → fl.le32 a b ≡ true
      → mt.to_int a ≤ℤ mt.to_int b
