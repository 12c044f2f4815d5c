-- ===== src/Protocol/Snapshot/Entities.antt =====
-- One entity of a snapshot, written and read back.
use rewind.Prelude.{ℕ, ◌≡◌, List, ◌++◌, length, ◌∙◌}
use rewind.Prelude.Result.{ok, >>=-ok}
use rewind.Prelude.Bytes.{
  le16, byte_at, u16_at, byte_at-append, u16_at-append, u16_at_after, word_read, IsU16,
}
use rewind.Prelude.Int.{i16-u16, u16_of_i16-lt}
use rewind.Prelude.Float.{Floats}
use rewind.Protocol.Types.{Entity}
use rewind.Protocol.Quantize.{quantize_coord, dequantize_coord, quantize_vel, dequantize_vel}
use rewind.Protocol.Quantize.Exact.{quantize_coord-IsU16, quantize_vel-IsI16}
use rewind.Protocol.Snapshot.{full_bytes, read_full}

module _ (fl : Floats) where
  open fl use {F32, int32}

  -- What a coordinate and a velocity are after the way over the wire.
  abbrev pub wire_coord : F32 → F32
  wire_coord v = dequantize_coord fl (quantize_coord fl v)

  abbrev pub wire_vel : F32 → F32
  wire_vel v = dequantize_vel fl (quantize_vel fl v)

  abbrev pub wire_full : Entity F32 → Entity F32
  wire_full e = record e {
    x = wire_coord e.x;
    y = wire_coord e.y;
    vx = wire_vel e.vx;
    vy = wire_vel e.vy;
  }

  pub read_full-at :
      (pre post : List ℕ) (e : Entity F32)
      → IsU16 e.id
      → read_full fl (pre ++ (full_bytes fl e ++ post)) (length pre) ≡ ok (wire_full e)
  unfolding read_full full_bytes le16 byte_at u16_at
  read_full-at pre post e h = >>=-ok _ (u16_at_after pre _ ∙ word_read e.id h) (
      >>=-ok _ (byte_at-append pre _ 2) (
        >>=-ok _ (u16_at-append pre _ 3 ∙ word_read _ (quantize_coord-IsU16 fl e.x)) (
          >>=-ok _ (u16_at-append pre _ 5 ∙ word_read _ (quantize_coord-IsU16 fl e.y)) (
            >>=-ok _
              (u16_at-append pre _ 7 ∙ word_read _ (u16_of_i16-lt _ (quantize_vel-IsI16 fl e.vx)))
              (>>=-ok _
                (u16_at-append pre _ 9 ∙ word_read _ (u16_of_i16-lt _ (quantize_vel-IsI16 fl e.vy)))
                (>>=-ok _ (byte_at-append pre _ 11) (
                  rw (
                    i16-u16 (quantize_vel fl e.vx) (quantize_vel-IsI16 fl e.vx),
                    i16-u16 (quantize_vel fl e.vy) (quantize_vel-IsI16 fl e.vy),
                  ))))))))
