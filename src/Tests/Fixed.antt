-- ===== src/Tests/Fixed.antt =====
-- Numbers in sixteenths, as one value of the floating-point parameter: they show that what is
-- assumed of it can hold.
use rewind.Prelude.{
  refl, ℕ, zero, suc, ◌+◌, ◌-◌, ◌*◌, ◌/◌, ◌%◌, ◌<◌, ◌≡◌, arith, leb, ap, not, true, false,
}
use rewind.Prelude.Int.{◌≤ℤ◌, ℤ, pos, negsuc, pos_part, neg_part, ltb_ℤ, IsI16}
use rewind.Prelude.Float.{Floats, IsExact}

abbrev negate : ℕ → ℤ
negate zero = pos 0
negate (suc n) = negsuc n

abbrev pub scale : (ℕ → ℕ) → ℤ → ℤ
scale f (pos n) = pos (f n)
scale f (negsuc n) = negate (f (suc n))

abbrev pub minus : ℤ → ℤ
minus (pos n) = negate n
minus (negsuc n) = pos (suc n)

abbrev pub plus : ℤ → ℤ → ℤ
plus a b =
    let p = pos_part a + pos_part b in
    let n = neg_part a + neg_part b in
    elim (leb n p) [ true ↦ pos (p - n) | false ↦ negate (n - p) ]

abbrev times : ℤ → ℤ → ℤ
times a (pos m) = scale (λ n. n * m / 16) a
times a (negsuc m) = minus (scale (λ n. n * suc m / 16) a)

abbrev pub over : ℤ → ℤ → ℤ
over a (pos m) = scale (λ n. n * 16 / m) a
over a (negsuc m) = minus (scale (λ n. n * 16 / suc m) a)

abbrev whole_u16 : ℤ → ℕ
whole_u16 (pos n) = n / 16 % 65536
whole_u16 (negsuc n) = (65536 - suc n / 16 % 65536) % 65536

abbrev whole_i16 : ℤ → ℤ
whole_i16 (pos n) = pos (n / 16 % 32768)
whole_i16 (negsuc n) = negate (suc n / 16 % 32769)

pub whole_u16-lt : (z : ℤ) → whole_u16 z < 65536
whole_u16-lt (pos n) = omega arith
whole_u16-lt (negsuc n) = omega arith

negate-IsI16 : (n : ℕ) → n < 32769 → IsI16 (negate n)
negate-IsI16 zero h = omega arith
negate-IsI16 (suc n) h = omega arith

pub whole_i16-IsI16 : (z : ℤ) → IsI16 (whole_i16 z)
whole_i16-IsI16 (pos n) = omega arith
whole_i16-IsI16 (negsuc n) = negate-IsI16 _ (omega arith)

abbrev pub fixed : Floats
fixed = record {
  F32 = ℤ;
  F64 = ℤ;
  widen = λ v. v;
  int64 = scale (λ n. n * 16);
  int32 = scale (λ n. n * 16);
  add32 = plus;
  sub32 = λ a b. plus a (minus b);
  mul32 = times;
  div32 = over;
  le32 = λ a b. not (ltb_ℤ b a);
  lt32 = ltb_ℤ;
  mul64 = times;
  round64 = scale (λ n. (n + 8) / 16 * 16);
  lt64 = ltb_ℤ;
  to_u16 = whole_u16;
  to_u16-lt = whole_u16-lt;
  to_i16 = whole_i16;
  to_i16-IsI16 = whole_i16-IsI16;
}

negate-suc : (n k : ℕ) → n ≡ suc k → negate n ≡ negsuc k
negate-suc n k h = rw h

sixteenth :
    (z : ℤ) → times (over (scale (λ n. n * 16) z) (pos 256)) (pos 256) ≡ scale (λ n. n * 16) z
sixteenth (pos n) = ap pos (omega arith)
sixteenth (negsuc n) = rw (
  negate-suc (suc n * 16) (n * 16 + 15) (omega arith),
  negate-suc (suc (n * 16 + 15) * 16 / 256) n (omega arith),
  negate-suc (suc n * 256 / 16) (n * 16 + 15) (omega arith),
)

round-int : (z : ℤ) → scale (λ n. (n + 8) / 16 * 16) (scale (λ n. n * 16) z) ≡ scale (λ n. n * 16) z
round-int (pos n) = ap pos (omega arith)
round-int (negsuc n) = rw (
  negate-suc (suc n * 16) (n * 16 + 15) (omega arith),
  negate-suc ((suc (n * 16 + 15) + 8) / 16 * 16) (n * 16 + 15) (omega arith),
)

lt-int : (y z : ℤ) → ltb_ℤ (scale (λ n. n * 16) y) (scale (λ n. n * 16) z) ≡ ltb_ℤ y z
lt-int y z = ground arith

to_u16-int : (n : ℕ) → n < 65536 → whole_u16 (pos (n * 16)) ≡ n
to_u16-int n h = omega arith

to_i16-int : (z : ℤ) → IsI16 z → whole_i16 (scale (λ n. n * 16) z) ≡ z
to_i16-int (pos n) h = ap pos (omega arith)
to_i16-int (negsuc n) h = rw (
  negate-suc (suc n * 16) (n * 16 + 15) (omega arith),
  negate-suc (suc (n * 16 + 15) / 16 % 32769) n (omega arith),
)

pub fixed-IsExact : IsExact fixed
fixed-IsExact = record {
  sixteenth = λ z _. sixteenth z;
  round-int = λ z _. round-int z;
  lt-int = λ y z _ _. lt-int y z;
  to_u16-int = to_u16-int;
  to_i16-int = to_i16-int;
}

negate-parts : (n : ℕ) → (pos_part (negate n) ≡ 0) × (neg_part (negate n) ≡ n)
negate-parts zero = (refl, refl)
negate-parts (suc n) = (refl, refl)

pub int_le : (a b : ℤ) → not (ltb_ℤ b a) ≡ true → scale (λ n. n / 16) a ≤ℤ scale (λ n. n / 16) b
int_le (pos m) (pos n) h = ground (arith, h)
int_le (pos m) (negsuc n) h = absurd (ground (arith, h))
int_le (negsuc m) (pos n) h = ground (arith, negate-parts (suc m / 16))
int_le (negsuc m) (negsuc n) h =
    ground (arith, h, negate-parts (suc m / 16), negate-parts (suc n / 16))
