-- ===== src/Protocol/Quantize/Exact.antt =====
-- Wire words survive the way through float32 and back.
use rewind.Prelude.{ℕ, ◌<◌, ◌≡◌, arith}
use rewind.Prelude.Int.{ℤ, pos, negsuc, IsI16}
use rewind.Prelude.Float.{Floats, IsExact}
use rewind.Protocol.Quantize.{quantize_coord, dequantize_coord, quantize_vel, dequantize_vel}

module _ (fl : Floats) where
  pub quantize_coord-IsU16 : (v : fl.F32) → quantize_coord fl v < 65536
  unfolding quantize_coord
  quantize_coord-IsU16 v =
      ground (arith, fl.to_u16-lt (fl.round64 (fl.mul64 (fl.widen v) (fl.int64 (pos 16)))))

  pub quantize_vel-IsI16 : (v : fl.F32) → IsI16 (quantize_vel fl v)
  unfolding quantize_vel
  quantize_vel-IsI16 v =
      ground (arith, fl.to_i16-IsI16 (fl.round64 (fl.mul64 (fl.widen v) (fl.int64 (pos 16)))))

  module _ (ex : IsExact fl) where
    pub quantize-dequantize_coord :
        (q : ℕ) → q < 65536 → quantize_coord fl (dequantize_coord fl q) ≡ q
    unfolding quantize_coord dequantize_coord
    quantize-dequantize_coord q h =
        rw
          (
            ex.sixteenth (pos q) (omega arith),
            ex.round-int (pos q) (omega arith),
            ex.lt-int (pos q) (pos 0) (omega arith) (omega arith),
            ex.lt-int (pos 65535) (pos q) (omega arith) (omega arith),
            ex.to_u16-int q h,
          )
          (ground arith)

    pub quantize-dequantize_vel : (z : ℤ) → IsI16 z → quantize_vel fl (dequantize_vel fl z) ≡ z
    unfolding quantize_vel dequantize_vel
    quantize-dequantize_vel z h =
        rw
          (
            ex.sixteenth z (omega arith),
            ex.round-int z (omega arith),
            ex.lt-int z (negsuc 32767) (omega arith) (omega arith),
            ex.lt-int (pos 32767) z (omega arith) (omega arith),
            ex.to_i16-int z h,
          )
          (ground arith)

    -- Every wire word survives the way through float32: quantising the value that a uint16 or an
    -- int16 was turned into gives the word back, where the arithmetic is exact on 16-bit integers.
    pub quantize-dequantize :
        (q : ℕ) (z : ℤ)
        → q < 65536
        → IsI16 z
        → (quantize_coord fl (dequantize_coord fl q) ≡ q)
          × (quantize_vel fl (dequantize_vel fl z) ≡ z)
    quantize-dequantize q z h k = (quantize-dequantize_coord q h, quantize-dequantize_vel z k)
