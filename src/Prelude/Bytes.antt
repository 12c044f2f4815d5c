-- ===== src/Prelude/Bytes.antt =====
-- Byte slices as lists of numbers: indexing and slicing with Go's panics, and the little-endian
-- words of encoding/binary.
use rewind.Prelude.{◌∙◌}
use Prim.Native.Nat.{ℕ, zero, suc, ◌+◌, ◌-◌, ◌*◌, ◌/◌, ◌%◌, ◌^◌, ◌≤◌, ◌<◌}
use Prim.Native.Nat.add
use mathlib.Core.Path.{◌≡◌, refl, ap, sym, ◌∙◌}
use native.Mathlib.Nat.{add_assoc, add-zero}
use mathlib.Core.Bool.{true, ◌&&◌}
use mathlib.Core.List.{List, [], ◌∷◌, ◌++◌, append_assoc}
use native.Mathlib.Omega.{arith}
use rewind.Prelude.Tests.{leb, if◌then◌else◌, le→leb}
use rewind.Prelude.Lists.{
  length-take, length-drop, length, take, drop, length-append, take-append, drop-append,
}
use rewind.Prelude.Result.{Result, ok, panic, ◌>>=◌, Returns, ok_returns, >>=-Returns}

-- `b[i]`
unfoldable pub byte_at : {E : Type 0} → List ℕ → ℕ → Result E ℕ
byte_at [] i = panic
byte_at (x ∷ xs) zero = ok x
byte_at (x ∷ xs) (suc i) = byte_at xs i

-- `b[lo:hi]`, refused past the length (Go refuses past the capacity only).
unfoldable pub slice : {E : Type 0} → List ℕ → ℕ → ℕ → Result E (List ℕ)
slice b lo hi = if leb lo hi && leb hi (length b) then ok (take (hi - lo) (drop lo b)) else panic

-- `b[lo:]`
unfoldable pub slice_from : {E : Type 0} → List ℕ → ℕ → Result E (List ℕ)
slice_from b lo = if leb lo (length b) then ok (drop lo b) else panic

-- `binary.LittleEndian.AppendUint16(dst, v)` appends these.
unfoldable pub le16 : ℕ → List ℕ
le16 v = (v % 256) ∷ (v / 256 % 256) ∷ []

unfoldable pub le32 : ℕ → List ℕ
le32 v = (v % 256) ∷ (v / 256 % 256) ∷ (v / 65536 % 256) ∷ (v / 16777216 % 256) ∷ []

abbrev pub word16 : ℕ → ℕ → ℕ
word16 a b = a + b * 256

abbrev pub word32 : ℕ → ℕ → ℕ → ℕ → ℕ
word32 a b c d = a + b * 256 + c * 65536 + d * 16777216

-- `binary.LittleEndian.Uint16(b[i:i+2])`
unfoldable pub u16_at : {E : Type 0} → List ℕ → ℕ → Result E ℕ
u16_at b i = do x ← byte_at b i; y ← byte_at b (i + 1); ok (word16 x y)

-- `binary.LittleEndian.Uint32(b[i:i+4])`
unfoldable pub u32_at : {E : Type 0} → List ℕ → ℕ → Result E ℕ
u32_at b i = do
  x ← byte_at b i
  y ← byte_at b (i + 1)
  z ← byte_at b (i + 2)
  t ← byte_at b (i + 3)
  ok (word32 x y z t)

abbrev pub IsU8 : ℕ → Type 0
IsU8 v = v < 256

abbrev pub IsU16 : ℕ → Type 0
IsU16 v = v < 2 ^ 16

abbrev pub IsU32 : ℕ → Type 0
IsU32 v = v < 2 ^ 32

pub word16-le : (v : ℕ) → IsU16 v → word16 (v % 256) (v / 256 % 256) ≡ v
word16-le v h = omega arith

pub word32-le :
    (v : ℕ) → IsU32 v → word32 (v % 256) (v / 256 % 256) (v / 65536 % 256) (v / 16777216 % 256) ≡ v
word32-le v h = omega arith

pub byte_at-Returns :
    {E : Type 0} (b : List ℕ) (i : ℕ) → i < length b → Returns (byte_at {E = E} b i)
unfolding byte_at
byte_at-Returns [] i h = elim h [ ]
byte_at-Returns (x ∷ xs) zero h = ok_returns x
byte_at-Returns (x ∷ xs) (suc i) h = byte_at-Returns xs i (omega arith)

pub u16_at-Returns :
    {E : Type 0} (b : List ℕ) (i : ℕ) → i + 2 ≤ length b → Returns (u16_at {E = E} b i)
unfolding u16_at
u16_at-Returns b i h =
    >>=-Returns (byte_at-Returns b i (omega arith))
      λ x _. >>=-Returns (byte_at-Returns b (i + 1) (omega arith)) λ y _. ok_returns _

pub u32_at-Returns :
    {E : Type 0} (b : List ℕ) (i : ℕ) → i + 4 ≤ length b → Returns (u32_at {E = E} b i)
unfolding u32_at
u32_at-Returns b i h = >>=-Returns (byte_at-Returns b i (omega arith)) λ x _.
    >>=-Returns (byte_at-Returns b (i + 1) (omega arith)) λ y _.
      >>=-Returns (byte_at-Returns b (i + 2) (omega arith))
        λ z _. >>=-Returns (byte_at-Returns b (i + 3) (omega arith)) λ t _. ok_returns _

pub slice-Returns :
    {E : Type 0} (b : List ℕ) (lo hi : ℕ)
    → lo ≤ hi
    → hi ≤ length b
    → Returns (slice {E = E} b lo hi)
unfolding slice
slice-Returns b lo hi h k = rw (le→leb lo hi h, le→leb hi (length b) k) (ok_returns _)

pub slice_from-Returns :
    {E : Type 0} (b : List ℕ) (lo : ℕ) → lo ≤ length b → Returns (slice_from {E = E} b lo)
unfolding slice_from
slice_from-Returns b lo h = rw (le→leb lo (length b) h) (ok_returns _)

-- Reading behind a known prefix.
pub byte_at-append :
    {E : Type 0} (xs ys : List ℕ) (i : ℕ)
    → byte_at {E = E} (xs ++ ys) (length xs + i) ≡ byte_at ys i
unfolding byte_at
byte_at-append [] ys i = rw add.zero
byte_at-append (x ∷ xs) ys i = rw add.suc (byte_at-append xs ys i)

pub u16_at-append :
    {E : Type 0} (xs ys : List ℕ) (i : ℕ) → u16_at {E = E} (xs ++ ys) (length xs + i) ≡ u16_at ys i
unfolding u16_at
u16_at-append {E} xs ys i = simp (add_assoc, byte_at-append)

pub u32_at-append :
    {E : Type 0} (xs ys : List ℕ) (i : ℕ) → u32_at {E = E} (xs ++ ys) (length xs + i) ≡ u32_at ys i
unfolding u32_at
u32_at-append xs ys i = simp (add_assoc, byte_at-append)

pub slice-append :
    {E : Type 0} (xs ys zs : List ℕ) (lo hi : ℕ)
    → lo ≡ length xs
    → hi ≡ length xs + length ys
    → slice {E = E} (xs ++ (ys ++ zs)) lo hi ≡ ok ys
unfolding slice
slice-append xs ys zs lo hi p q =
    rw (p, q, le→leb (length xs) (length xs + length ys) (omega arith), fits, drop-append, cut)
      (ap ok (take-append ys zs))
  where
    fits : leb (length xs + length ys) (length (xs ++ (ys ++ zs))) ≡ true
    fits = le→leb _ _ (omega (arith, length-append xs (ys ++ zs), length-append ys zs))

    cut : length xs + length ys - length xs ≡ length ys
    cut = omega arith

pub slice_from-append :
    {E : Type 0} (xs ys : List ℕ) (lo : ℕ)
    → lo ≡ length xs
    → slice_from {E = E} (xs ++ ys) lo ≡ ok ys
unfolding slice_from
slice_from-append xs ys lo p = rw (
  p,
  le→leb (length xs) (length (xs ++ ys)) (omega (arith, length-append xs ys)),
  drop-append xs ys,
)

pub length-le16 : (v : ℕ) → length (le16 v) ≡ 2
unfolding le16
length-le16 v = refl

pub length-le32 : (v : ℕ) → length (le32 v) ≡ 4
unfolding le32
length-le32 v = refl

pub u16_at-le16 :
    {E : Type 0} (v : ℕ) (ys : List ℕ) → IsU16 v → u16_at {E = E} (le16 v ++ ys) 0 ≡ ok v
unfolding u16_at le16 byte_at
u16_at-le16 v ys h = rw (word16-le v h)

pub u32_at-le32 :
    {E : Type 0} (v : ℕ) (ys : List ℕ) → IsU32 v → u32_at {E = E} (le32 v ++ ys) 0 ≡ ok v
unfolding u32_at le32 byte_at
u32_at-le32 v ys h = rw (word32-le v h)

-- The byte behind two known parts.
pub byte_at_behind :
    {E : Type 0} (xs ys zs : List ℕ) (z i : ℕ)
    → i ≡ length xs + length ys
    → byte_at {E = E} (xs ++ (ys ++ (z ∷ zs))) i ≡ ok z
unfolding byte_at
byte_at_behind xs ys zs z i p =
    rw (p, ← append_assoc, ← length-append xs ys, ← add-zero (length (xs ++ ys)), byte_at-append)

pub length-slice :
    {E : Type 0} (b : List ℕ) (lo hi : ℕ) {r : List ℕ}
    → slice {E = E} b lo hi ≡ ok r
    → length r ≡ hi - lo
unfolding slice
length-slice b lo hi e = ground (arith, length-take (hi - lo) (drop lo b), length-drop lo b)

-- A word that was written low byte first.
pub word_read :
    {E : Type 0} (v : ℕ)
    → IsU16 v
    → ◌≡◌ {A = Result E ℕ} (ok (word16 (v % 256) (v / 256 % 256))) (ok v)
word_read v h = ap ok (word16-le v h)

-- Reading right behind a known prefix.
pub byte_at_after :
    {E : Type 0} (xs ys : List ℕ) → byte_at {E = E} (xs ++ ys) (length xs) ≡ byte_at ys 0
byte_at_after xs ys = ap (byte_at (xs ++ ys)) (sym (add-zero (length xs))) ∙ byte_at-append xs ys 0

pub u16_at_after :
    {E : Type 0} (xs ys : List ℕ) → u16_at {E = E} (xs ++ ys) (length xs) ≡ u16_at ys 0
u16_at_after xs ys = ap (u16_at (xs ++ ys)) (sym (add-zero (length xs))) ∙ u16_at-append xs ys 0

unfoldable pub le64 : ℕ → List ℕ
le64 v = le32 (v % 2 ^ 32) ++ le32 (v / 2 ^ 32)

-- `binary.LittleEndian.Uint64(b[i:i+8])`
unfoldable pub u64_at : {E : Type 0} → List ℕ → ℕ → Result E ℕ
u64_at b i = do lo ← u32_at b i; hi ← u32_at b (i + 4); ok (lo + hi * 2 ^ 32)

abbrev pub IsU64 : ℕ → Type 0
IsU64 v = v < 2 ^ 64

pub u64_at-Returns :
    {E : Type 0} (b : List ℕ) (i : ℕ) → i + 8 ≤ length b → Returns (u64_at {E = E} b i)
unfolding u64_at
u64_at-Returns b i h =
    >>=-Returns (u32_at-Returns b i (omega arith))
      λ lo _. >>=-Returns (u32_at-Returns b (i + 4) (omega arith)) λ hi _. ok_returns _

pub word64-le : (v : ℕ) → IsU64 v → v % 2 ^ 32 + v / 2 ^ 32 * 2 ^ 32 ≡ v
word64-le v h = omega arith

pub u32_at_after :
    {E : Type 0} (xs ys : List ℕ) → u32_at {E = E} (xs ++ ys) (length xs) ≡ u32_at ys 0
u32_at_after xs ys = ap (u32_at (xs ++ ys)) (sym (add-zero (length xs))) ∙ u32_at-append xs ys 0

pub dword_read :
    {E : Type 0} (v : ℕ)
    → IsU32 v
    → ◌≡◌ {A = Result E ℕ}
        (ok (word32 (v % 256) (v / 256 % 256) (v / 65536 % 256) (v / 16777216 % 256)))
        (ok v)
dword_read v h = ap ok (word32-le v h)
