-- ===== src/Protocol/Snapshot/Safety.antt =====
-- The snapshot decoder on any bytes: every index that it uses lies within the slice.
use rewind.Prelude.{
  ℕ, zero, suc, ◌+◌, ◌*◌, ◌≤◌, ◌≡◌, List, Bool, true, false, length, arith, if◌then◌else◌, ◌==◌,
}
use rewind.Prelude.Result.{ok, Returns, ok_returns, >>=-Returns, short-Returns}
use rewind.Prelude.Bytes.{byte_at-Returns, u16_at-Returns, u32_at-Returns, slice_from-Returns}
use rewind.Prelude.Float.{Floats}
use rewind.Protocol.Types.{field_kind, field_x, field_y, field_vx, field_vy, field_hp}
use rewind.Protocol.Snapshot.Mask.{has, delta_field_bytes}
use rewind.Protocol.Snapshot.{
  byte_field, word_field, read_fields, read_full, full_loop, read_known, read_delta, delta_loop,
  removed_loop, decode_removed, decode_full, decode_snapshot,
}

byte_field-Returns :
    (b : Bool) (body : List ℕ) (off : ℕ)
    → off + (if b then 1 else 0) ≤ length body
    → Returns (byte_field b body off)
unfolding byte_field
byte_field-Returns true body off h =
    >>=-Returns (byte_at-Returns body off (omega arith)) λ _ _. ok_returns _
byte_field-Returns false body off h = ok_returns _

byte_field-off :
    (b : Bool) (body : List ℕ) (off : ℕ) {r : ℕ × ℕ}
    → byte_field b body off ≡ ok r
    → r.1 ≡ off + (if b then 1 else 0)
unfolding byte_field
byte_field-off true body off e = ground arith
byte_field-off false body off e = ground arith

removed_loop-Returns :
    (n i : ℕ) (body : List ℕ) → (i + n) * 2 ≤ length body → Returns (removed_loop n i body)
unfolding removed_loop
removed_loop-Returns zero i body h = ok_returns _
removed_loop-Returns (suc n) i body h =
    >>=-Returns (u16_at-Returns body (i * 2) (omega arith))
      λ _ _. >>=-Returns (removed_loop-Returns n (i + 1) body (omega arith)) λ _ _. ok_returns _

decode_removed-Returns : (body : List ℕ) → Returns (decode_removed body)
unfolding decode_removed
decode_removed-Returns body = short-Returns (length body) 1 _ λ h.
    >>=-Returns (byte_at-Returns body 0 h) λ n _.
      >>=-Returns (slice_from-Returns body 1 h) λ rest _.
        short-Returns (length rest) (n * 2) _ λ k. removed_loop-Returns n 0 rest (omega arith)

module _ (fl : Floats) where
  open fl use {F32}

  word_field-Returns :
      (b : Bool) (body : List ℕ) (off : ℕ) (value : ℕ → F32)
      → off + (if b then 2 else 0) ≤ length body
      → Returns (word_field fl b body off value)
  unfolding word_field
  word_field-Returns true body off value h =
      >>=-Returns (u16_at-Returns body off (omega arith)) λ _ _. ok_returns _
  word_field-Returns false body off value h = ok_returns _

  word_field-off :
      (b : Bool) (body : List ℕ) (off : ℕ) (value : ℕ → F32) {r : F32 × ℕ}
      → word_field fl b body off value ≡ ok r
      → r.1 ≡ off + (if b then 2 else 0)
  unfolding word_field
  word_field-off true body off value e = ground arith
  word_field-off false body off value e = ground arith

  read_fields-Returns :
      (id m : ℕ) (body : List ℕ)
      → delta_field_bytes m ≤ length body
      → Returns (read_fields fl id m body)
  unfolding read_fields delta_field_bytes
  read_fields-Returns id m body h =
      >>=-Returns (byte_field-Returns (has m field_kind) body 0 (omega arith)) λ k ke.
        >>=-Returns
          (word_field-Returns (has m field_x) body k.1 _
            (omega (arith, byte_field-off _ body 0 ke)))
          λ x xe.
            >>=-Returns
              (word_field-Returns (has m field_y) body x.1 _
                (omega (arith, byte_field-off _ body 0 ke, word_field-off _ body _ _ xe)))
              λ y ye.
                >>=-Returns
                  (word_field-Returns (has m field_vx) body y.1 _ (
                    omega (
                      arith,
                      byte_field-off _ body 0 ke,
                      word_field-off _ body _ _ xe,
                      word_field-off _ body _ _ ye,
                    )))
                  λ vx vxe.
                    >>=-Returns
                      (word_field-Returns (has m field_vy) body vx.1 _ (
                        omega (
                          arith,
                          byte_field-off _ body 0 ke,
                          word_field-off _ body _ _ xe,
                          word_field-off _ body _ _ ye,
                          word_field-off _ body _ _ vxe,
                        )))
                      λ vy vye.
                        >>=-Returns
                          (byte_field-Returns (has m field_hp) body vy.1 (
                            omega (
                              arith,
                              byte_field-off _ body 0 ke,
                              word_field-off _ body _ _ xe,
                              word_field-off _ body _ _ ye,
                              word_field-off _ body _ _ vxe,
                              word_field-off _ body _ _ vye,
                            )))
                          λ _ _. ok_returns _

  read_full-Returns :
      (body : List ℕ) (off : ℕ) → off + 12 ≤ length body → Returns (read_full fl body off)
  unfolding read_full
  read_full-Returns body off h = >>=-Returns (u16_at-Returns body off (omega arith)) λ _ _.
      >>=-Returns (byte_at-Returns body (off + 2) (omega arith)) λ _ _.
        >>=-Returns (u16_at-Returns body (off + 3) (omega arith)) λ _ _.
          >>=-Returns (u16_at-Returns body (off + 5) (omega arith)) λ _ _.
            >>=-Returns (u16_at-Returns body (off + 7) (omega arith)) λ _ _.
              >>=-Returns (u16_at-Returns body (off + 9) (omega arith)) λ _ _.
                >>=-Returns (byte_at-Returns body (off + 11) (omega arith)) λ _ _. ok_returns _

  full_loop-Returns :
      (n i : ℕ) (body : List ℕ) → (i + n) * 12 ≤ length body → Returns (full_loop fl n i body)
  unfolding full_loop
  full_loop-Returns zero i body h = ok_returns _
  full_loop-Returns (suc n) i body h =
      >>=-Returns (read_full-Returns body (i * 12) (omega arith))
        λ _ _. >>=-Returns (full_loop-Returns n (i + 1) body (omega arith)) λ _ _. ok_returns _

  decode_full-Returns : (n : ℕ) (body : List ℕ) → Returns (decode_full fl n body)
  unfolding decode_full
  decode_full-Returns n body = short-Returns (length body) (n * 12) _ λ h.
      >>=-Returns (full_loop-Returns n 0 body (omega arith))
        λ _ _. >>=-Returns (slice_from-Returns body (n * 12) h) λ _ _. ok_returns _

  read_known-Returns : (id m : ℕ) (body : List ℕ) → Returns (read_known fl id m body)
  unfolding read_known
  read_known-Returns id m body = short-Returns (length body) (delta_field_bytes m) _ λ h.
      >>=-Returns (read_fields-Returns id m body h)
        λ _ _. >>=-Returns (slice_from-Returns body (delta_field_bytes m) h) λ _ _. ok_returns _

  read_delta-Returns : (body : List ℕ) → Returns (read_delta fl body)
  unfolding read_delta
  read_delta-Returns body = short-Returns (length body) 3 _ λ h.
      >>=-Returns (u16_at-Returns body 0 (omega arith)) λ id _.
        >>=-Returns (byte_at-Returns body 2 h) λ mask _.
          >>=-Returns (slice_from-Returns body 3 h) λ fields _. read_known-Returns id _ fields

  delta_loop-Returns : (n : ℕ) (body : List ℕ) → Returns (delta_loop fl n body)
  unfolding delta_loop
  delta_loop-Returns zero body = ok_returns _
  delta_loop-Returns (suc n) body =
      >>=-Returns (read_delta-Returns body)
        λ r _. >>=-Returns (delta_loop-Returns n r.2) λ _ _. ok_returns _

  records-Returns :
      (b : Bool) (n : ℕ) (body : List ℕ)
      → Returns (if b then decode_full fl n body else delta_loop fl n body)
  records-Returns true n body = decode_full-Returns n body
  records-Returns false n body = delta_loop-Returns n body

  pub decode_snapshot-Returns : (body : List ℕ) → Returns (decode_snapshot fl body)
  unfolding decode_snapshot
  decode_snapshot-Returns body = short-Returns (length body) 13 _ λ h.
      >>=-Returns (u32_at-Returns body 0 (omega arith)) λ tick _.
        >>=-Returns (u32_at-Returns body 4 (omega arith)) λ base _.
          >>=-Returns (u32_at-Returns body 8 (omega arith)) λ seq _.
            >>=-Returns (byte_at-Returns body 12 (omega arith)) λ count _.
              >>=-Returns (slice_from-Returns body 13 h) λ rest _.
                >>=-Returns (records-Returns (base == 0) count rest)
                  λ r _. >>=-Returns (decode_removed-Returns r.2) λ _ _. ok_returns _
