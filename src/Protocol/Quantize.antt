-- ===== src/Protocol/Quantize.antt =====
-- quantize.go: coordinates and velocities between float32 and 16-bit wire words.
pub mod Exact
use rewind.Prelude.{ℕ, ◌+◌, ◌*◌, ◌<◌, Bool, ◌==◌, if◌then◌else◌, not}
use rewind.Prelude.Int.{ℤ, pos, negsuc, IsI16, u16_of_i16, i16_of_u16}
use rewind.Prelude.Float.{Floats}
use rewind.Protocol.Types.{Entity, field_kind, field_x, field_y, field_vx, field_vy, field_hp}

abbrev pub coord_scale : ℤ
coord_scale = pos 16

module _ (fl : Floats) where
  open fl use {F32, widen, int64, int32, div32, mul64, round64, lt64, to_u16, to_i16}

  unfoldable pub quantize_coord : F32 → ℕ
  quantize_coord v =
      let q = round64 (mul64 (widen v) (int64 coord_scale)) in
      if lt64 q (int64 (pos 0)) then 0 else if lt64 (int64 (pos 65535)) q then 65535 else to_u16 q

  unfoldable pub dequantize_coord : ℕ → F32
  dequantize_coord q = div32 (int32 (pos q)) (int32 coord_scale)

  unfoldable pub quantize_vel : F32 → ℤ
  quantize_vel v =
      let q = round64 (mul64 (widen v) (int64 coord_scale)) in
      if lt64 q (int64 (negsuc 32767))
      then negsuc 32767
      else if lt64 (int64 (pos 32767)) q
      then pos 32767
      else to_i16 q

  unfoldable pub dequantize_vel : ℤ → F32
  dequantize_vel q = div32 (int32 q) (int32 coord_scale)
