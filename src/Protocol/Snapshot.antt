-- ===== src/Protocol/Snapshot.antt =====
-- codec.go, the snapshot: AppendSnapshot with its two record layouts, and the case of MsgSnapshot in
-- DecodeServer. Masks are tested bit by bit.
pub mod Mask
pub mod Entities
pub mod DeltaRecord
pub mod Loops
pub mod RoundTrip
pub mod Safety
use rewind.Prelude.{
  ℕ, zero, suc, ◌+◌, ◌*◌, List, [], ◌∷◌, ◌++◌, Bool, true, false, not, ◌&&◌, ◌==◌, ltb,
  if◌then◌else◌, length,
}
use rewind.Prelude.Result.{Result, ok, err, ◌>>=◌, ◌>>◌, fail_if}
use rewind.Prelude.Bytes.{byte_at, slice_from, u16_at, u32_at, le16, le32}
use rewind.Prelude.Int.{pos, u16_of_i16, i16_of_u16}
use rewind.Prelude.Float.{Floats}
use rewind.Protocol.Quantize.{quantize_coord, dequantize_coord, quantize_vel, dequantize_vel}
use Prim.Native.Nat.{bit_and}
use rewind.Protocol.Types.{
  Error, field_all, short_message, too_many_entity, malformed, Entity, Snapshot, msg_snapshot,
  max_entities, field_kind, field_x, field_y, field_vx, field_vy, field_hp,
}
use Mask.{has, present, delta_field_bytes}

abbrev pub entity_size : ℕ
entity_size = 12

-- The ids of the entities that left, behind the records.
pub removed_words : List ℕ → List ℕ
removed_words [] = []
removed_words (id ∷ ids) = le16 id ++ removed_words ids

-- One optional byte of a delta record, at an offset that moves past it if it is there.
pub byte_field : Bool → List ℕ → ℕ → Result Error (ℕ × ℕ)
byte_field there body off =
    if there then (byte_at body off >>= λ v. ok (v, off + 1)) else ok (0, off)

pub removed_loop : ℕ → ℕ → List ℕ → Result Error (List ℕ)
removed_loop zero i body = ok []
removed_loop (suc n) i body = do
  id ← u16_at body (i * 2)
  ids ← removed_loop n (i + 1) body
  ok (id ∷ ids)

pub decode_removed : List ℕ → Result Error (List ℕ)
decode_removed body = do
  fail_if (ltb (length body) 1) short_message
  rcount ← byte_at body 0
  rest ← slice_from body 1
  fail_if (ltb (length rest) (rcount * 2)) short_message
  removed_loop rcount 0 rest

module _ (fl : Floats) where
  open fl use {F32, int32}

  pub full_bytes : Entity F32 → List ℕ
  full_bytes e =
      le16 e.id
      ++ (e.kind
          ∷ (le16 (quantize_coord fl e.x)
              ++ (le16 (quantize_coord fl e.y)
                  ++ (le16 (u16_of_i16 (quantize_vel fl e.vx))
                      ++ (le16 (u16_of_i16 (quantize_vel fl e.vy)) ++ (e.hp ∷ []))))))

  -- The fields that the mask names, in their order.
  pub delta_fields : Entity F32 → ℕ → List ℕ
  delta_fields e m =
      present (has m field_kind) (e.kind ∷ [])
      ++ (present (has m field_x) (le16 (quantize_coord fl e.x))
          ++ (present (has m field_y) (le16 (quantize_coord fl e.y))
              ++ (present (has m field_vx) (le16 (u16_of_i16 (quantize_vel fl e.vx)))
                  ++ (present (has m field_vy) (le16 (u16_of_i16 (quantize_vel fl e.vy)))
                      ++ present (has m field_hp) (e.hp ∷ [])))))

  pub delta_bytes : Entity F32 → ℕ → List ℕ
  delta_bytes e m = le16 e.id ++ (m ∷ delta_fields e m)

  pub append_entity_full : List ℕ → Entity F32 → List ℕ
  append_entity_full dst e = dst ++ full_bytes e

  pub append_entity_delta : List ℕ → Entity F32 → ℕ → List ℕ
  append_entity_delta dst e m = dst ++ delta_bytes e m

  pub append_full : List ℕ → List (Entity F32) → List ℕ
  append_full dst [] = dst
  append_full dst (e ∷ es) = append_full (append_entity_full dst e) es

  -- The caller has checked that there are as many masks as entities.
  pub append_delta : List ℕ → List (Entity F32) → List ℕ → List ℕ
  append_delta dst [] ms = dst
  append_delta dst (e ∷ es) [] = dst
  append_delta dst (e ∷ es) (m ∷ ms) = append_delta (append_entity_delta dst e m) es ms

  unfoldable pub append_snapshot : List ℕ → Snapshot F32 → Result Error (List ℕ)
  append_snapshot dst s = do
    fail_if (ltb max_entities (length s.entities)) too_many_entity
    fail_if (ltb max_entities (length s.removed)) too_many_entity
    fail_if (not (s.base_tick == 0) && not (length s.masks == length s.entities)) malformed
    let header =
        dst
        ++ (msg_snapshot
            ∷ (le32 s.tick
                ++ (le32 s.base_tick ++ (le32 s.last_processed_seq ++ (length s.entities ∷ [])))))
    let records =
        if s.base_tick == 0
        then append_full header s.entities
        else append_delta header s.entities s.masks
    ok (records ++ (length s.removed ∷ removed_words s.removed))

  pub read_full : List ℕ → ℕ → Result Error (Entity F32)
  read_full body off = do
    id ← u16_at body off
    kind ← byte_at body (off + 2)
    x ← u16_at body (off + 3)
    y ← u16_at body (off + 5)
    vx ← u16_at body (off + 7)
    vy ← u16_at body (off + 9)
    hp ← byte_at body (off + 11)
    ok (record {
      id = id;
      kind = kind;
      x = dequantize_coord fl x;
      y = dequantize_coord fl y;
      vx = dequantize_vel fl (i16_of_u16 vx);
      vy = dequantize_vel fl (i16_of_u16 vy);
      hp = hp;
    })

  pub full_loop : ℕ → ℕ → List ℕ → Result Error (List (Entity F32))
  full_loop zero i body = ok []
  full_loop (suc n) i body = do
    e ← read_full body (i * entity_size)
    es ← full_loop n (i + 1) body
    ok (e ∷ es)

  -- One optional word; a field that is not there keeps the zero of a new Entity.
  pub word_field : Bool → List ℕ → ℕ → (ℕ → F32) → Result Error (F32 × ℕ)
  word_field there body off value =
      if there then (u16_at body off >>= λ v. ok (value v, off + 2)) else ok (int32 (pos 0), off)

  pub read_fields : ℕ → ℕ → List ℕ → Result Error (Entity F32)
  read_fields id m body = do
    (kind, o1) ← byte_field (has m field_kind) body 0
    (x, o2) ← word_field (has m field_x) body o1 (dequantize_coord fl)
    (y, o3) ← word_field (has m field_y) body o2 (dequantize_coord fl)
    (vx, o4) ← word_field (has m field_vx) body o3 (λ v. dequantize_vel fl (i16_of_u16 v))
    (vy, o5) ← word_field (has m field_vy) body o4 (λ v. dequantize_vel fl (i16_of_u16 v))
    (hp, _) ← byte_field (has m field_hp) body o5
    ok (record { id = id; kind = kind; x = x; y = y; vx = vx; vy = vy; hp = hp })

  -- The fields of a delta record under its known mask, with the bytes behind them.
  pub read_known : ℕ → ℕ → List ℕ → Result Error (Entity F32 × ℕ × List ℕ)
  read_known id m body = do
    fail_if (ltb (length body) (delta_field_bytes m)) short_message
    e ← read_fields id m body
    rest ← slice_from body (delta_field_bytes m)
    ok (e, m, rest)

  -- One record of a delta, with its mask and the bytes behind it.
  pub read_delta : List ℕ → Result Error (Entity F32 × ℕ × List ℕ)
  read_delta body = do
    fail_if (ltb (length body) 3) short_message
    id ← u16_at body 0
    mask ← byte_at body 2
    fields ← slice_from body 3
    read_known id (bit_and mask field_all) fields

  pub delta_loop : ℕ → List ℕ → Result Error (List (Entity F32) × List ℕ × List ℕ)
  delta_loop zero body = ok ([], [], body)
  delta_loop (suc n) body = do
    (e, m, rest) ← read_delta body
    (es, ms, behind) ← delta_loop n rest
    ok (e ∷ es, m ∷ ms, behind)

  -- The entities and masks, with the bytes behind them.
  pub decode_full : ℕ → List ℕ → Result Error (List (Entity F32) × List ℕ × List ℕ)
  decode_full count body = do
    fail_if (ltb (length body) (count * entity_size)) short_message
    es ← full_loop count 0 body
    rest ← slice_from body (count * entity_size)
    ok (es, [], rest)

  -- The case of MsgSnapshot.
  unfoldable pub decode_snapshot : List ℕ → Result Error (Snapshot F32)
  decode_snapshot body = do
    fail_if (ltb (length body) 13) short_message
    tick ← u32_at body 0
    base_tick ← u32_at body 4
    seq ← u32_at body 8
    count ← byte_at body 12
    rest ← slice_from body 13
    (es, ms, behind) ← if base_tick == 0 then decode_full count rest else delta_loop count rest
    removed ← decode_removed behind
    ok (record {
      tick = tick;
      base_tick = base_tick;
      last_processed_seq = seq;
      entities = es;
      masks = ms;
      removed = removed;
    })
