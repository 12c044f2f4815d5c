-- ===== src/Protocol/Snapshot/DeltaRecord.antt =====
-- One record of a delta, written and read back.
use rewind.Prelude.{
  ℕ, ◌≡◌, List, ◌++◌, length, ◌∙◌, Bool, ◌∷◌, [], append_assoc, if◌then◌else◌, ap, arith,
  length-append, append-nil, refl, true, false, ◌<◌, le→ltb, ◌%◌, ◌/◌, sym,
}
use rewind.Prelude.Result.{ok, >>=-ok, pass, ◌>>=◌}
use Prim.Native.Nat.{bit_and}
use rewind.Prelude.Bytes.{
  le16, byte_at, u16_at, u16_at_after, IsU16, byte_at_after, u16_at-le16, length-le16,
  slice_from-append, slice_from, word16, word16-le,
}
use rewind.Prelude.Int.{i16-u16, u16_of_i16-lt, pos, u16_of_i16, i16_of_u16}
use native.Mathlib.Nat.{add_assoc}
use rewind.Prelude.Float.{Floats}
use rewind.Protocol.Snapshot.Entities.{wire_coord, wire_vel}
use rewind.Protocol.Types.{Entity}
use rewind.Protocol.Quantize.{quantize_coord, quantize_vel}
use rewind.Protocol.Quantize.Exact.{quantize_coord-IsU16, quantize_vel-IsI16}
use rewind.Protocol.Types.{
  field_kind, field_x, field_y, field_vx, field_vy, field_hp, short_message, Error, field_all,
}
use rewind.Protocol.Snapshot.Mask.{present, has, delta_field_bytes, known-bits}
use rewind.Protocol.Snapshot.{
  byte_field, word_field, read_fields, delta_fields, read_delta, delta_bytes, read_known,
}

length-present : (b : Bool) (v : ℕ) → length (present b (le16 v)) ≡ (if b then 2 else 0)
unfolding le16
length-present true v = refl
length-present false v = refl

length-present_byte : (b : Bool) (v : ℕ) → length (present b (v ∷ [])) ≡ (if b then 1 else 0)
length-present_byte true v = refl
length-present_byte false v = refl

byte_field-at :
    (b : Bool) (pre post : List ℕ) (v : ℕ) (body : List ℕ) (off : ℕ)
    → body ≡ pre ++ (present b (v ∷ []) ++ post)
    → off ≡ length pre
    → byte_field b body off ≡ ok ((if b then v else 0), length (pre ++ present b (v ∷ [])))
unfolding byte_field byte_at
byte_field-at true pre post v body off p q =
    rw (p, q)
      (>>=-ok _ (byte_at_after pre _)
        (ap (λ (o : ℕ). ok (v, o)) (omega (arith, length-append pre (v ∷ [])))))
byte_field-at false pre post v body off p q = rw (q, append-nil)

module _ (fl : Floats) where
  open fl use {F32, int32}

  word_field-at :
      (b : Bool) (pre post : List ℕ) (v : ℕ) (value : ℕ → F32) (body : List ℕ) (off : ℕ)
      → IsU16 v
      → body ≡ pre ++ (present b (le16 v) ++ post)
      → off ≡ length pre
      → word_field fl b body off value
        ≡ ok ((if b then value v else int32 (pos 0)), length (pre ++ present b (le16 v)))
  unfolding word_field
  word_field-at true pre post v value body off h p q =
      rw (p, q)
        (>>=-ok _ (u16_at_after pre _ ∙ u16_at-le16 v post h) (
          ap (λ (o : ℕ). ok (value v, o))
            (omega (arith, length-append pre (le16 v), length-le16 v))))
  word_field-at false pre post v value body off h p q = rw (q, append-nil)

  -- What a delta record carries: a field whose bit is not set reads as zero.
  abbrev pub wire_delta : Entity F32 → ℕ → Entity F32
  wire_delta e m = record {
    id = e.id;
    kind = if has m field_kind then e.kind else 0;
    x = if has m field_x then wire_coord fl e.x else int32 (pos 0);
    y = if has m field_y then wire_coord fl e.y else int32 (pos 0);
    vx = if has m field_vx then wire_vel fl e.vx else int32 (pos 0);
    vy = if has m field_vy then wire_vel fl e.vy else int32 (pos 0);
    hp = if has m field_hp then e.hp else 0;
  }

  vel-IsU16 : (v : F32) → IsU16 (u16_of_i16 (quantize_vel fl v))
  vel-IsU16 v = u16_of_i16-lt _ (quantize_vel-IsI16 fl v)

  vel-back : (v : F32) → i16_of_u16 (u16_of_i16 (quantize_vel fl v)) ≡ quantize_vel fl v
  vel-back v = i16-u16 _ (quantize_vel-IsI16 fl v)

  length-delta_fields :
      (e : Entity F32) (m : ℕ) → length (delta_fields fl e m) ≡ delta_field_bytes m
  unfolding delta_fields delta_field_bytes
  length-delta_fields e m = simp (length-append, length-present, length-present_byte, add_assoc)

  read_fields-at :
      (e : Entity F32) (m : ℕ) (post : List ℕ)
      → read_fields fl e.id m (delta_fields fl e m ++ post) ≡ ok (wire_delta e m)
  unfolding read_fields delta_fields
  read_fields-at e m post =
      >>=-ok _
        (byte_field-at (has m field_kind) [] (x ++ (y ++ (vx ++ (vy ++ (hp ++ post))))) e.kind _ _
          (simp append_assoc) refl)
        (>>=-ok _
          (word_field-at (has m field_x) ([] ++ kind) (y ++ (vx ++ (vy ++ (hp ++ post))))
            (quantize_coord fl e.x) _ _ _ (quantize_coord-IsU16 fl e.x) (simp append_assoc) refl)
          (>>=-ok _
            (word_field-at (has m field_y) (kind ++ x) (vx ++ (vy ++ (hp ++ post)))
              (quantize_coord fl e.y) _ _ _ (quantize_coord-IsU16 fl e.y) (simp append_assoc) refl)
            (>>=-ok _
              (word_field-at (has m field_vx) ((kind ++ x) ++ y) (vy ++ (hp ++ post)) _ _ _ _
                (vel-IsU16 e.vx) (simp append_assoc) refl)
              (>>=-ok _
                (word_field-at (has m field_vy) (((kind ++ x) ++ y) ++ vx) (hp ++ post) _ _ _ _
                  (vel-IsU16 e.vy) (simp append_assoc) refl)
                (>>=-ok _
                  (byte_field-at (has m field_hp) ((((kind ++ x) ++ y) ++ vx) ++ vy) post e.hp _ _
                    (simp append_assoc) refl)
                  (rw (vel-back e.vx, vel-back e.vy)))))))
    where
      kind : List ℕ
      kind = present (has m field_kind) (e.kind ∷ [])

      x : List ℕ
      x = present (has m field_x) (le16 (quantize_coord fl e.x))

      y : List ℕ
      y = present (has m field_y) (le16 (quantize_coord fl e.y))

      vx : List ℕ
      vx = present (has m field_vx) (le16 (u16_of_i16 (quantize_vel fl e.vx)))

      vy : List ℕ
      vy = present (has m field_vy) (le16 (u16_of_i16 (quantize_vel fl e.vy)))

      hp : List ℕ
      hp = present (has m field_hp) (e.hp ∷ [])

  read_known-at :
      (e : Entity F32) (m : ℕ) (post : List ℕ)
      → read_known fl e.id m (delta_fields fl e m ++ post) ≡ ok (wire_delta e m, m, post)
  unfolding read_known
  read_known-at e m post =
      pass _
        (le→ltb _ _
          (omega (arith, length-append (delta_fields fl e m) post, length-delta_fields e m)))
        (>>=-ok _ (read_fields-at e m post) (
          >>=-ok _ (slice_from-append (delta_fields fl e m) post _ (sym (length-delta_fields e m)))
            refl))

  -- A delta record, written with a known mask and read back with the bytes behind it.
  pub read_delta-bytes :
      (e : Entity F32) (m : ℕ) (post : List ℕ)
      → IsU16 e.id
      → m < 64
      → read_delta fl (delta_bytes fl e m ++ post) ≡ ok (wire_delta e m, m, post)
  unfolding read_delta delta_bytes le16 byte_at u16_at
  read_delta-bytes e m post h k =
      pass short_message (le→ltb (length (delta_bytes fl e m ++ post)) 3 (omega arith)) known
    where
      fields : List ℕ
      fields = delta_fields fl e m ++ post

      behind : slice_from {E = Error} (delta_bytes fl e m ++ post) 3 ≡ ok fields
      behind = slice_from-append ((e.id % 256) ∷ (e.id / 256 % 256) ∷ m ∷ []) fields 3 refl

      known :
          (slice_from (delta_bytes fl e m ++ post) 3
            >>= read_known fl (word16 (e.id % 256) (e.id / 256 % 256)) (bit_and m field_all))
          ≡ ok (wire_delta e m, m, post)
      known =
          rw (word16-le e.id h, known-bits m k)
            (>>=-ok (read_known fl e.id m) behind (read_known-at e m post))
