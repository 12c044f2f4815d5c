-- ===== src/Protocol/Snapshot/RoundTrip.antt =====
-- A whole snapshot, full or delta, written by AppendSnapshot and read back.
use rewind.Prelude.{
  ℕ, ◌≤◌, ◌<◌, ◌≡◌, ◌≢◌, List, [], ◌∷◌, ◌++◌, map, All, length, arith, ap, refl, le→ltb, false, not,
  ◌==◌, if◌then◌else◌, Bool-cases, ◌&&◌, inl, inr, append_assoc, length-append, sym,
}
use rewind.Prelude.Result.{ok, >>=-ok, pass}
use rewind.Prelude.Bytes.{le32, byte_at, u32_at, IsU16, IsU32, word32-le, slice_from-append}
use rewind.Prelude.Float.{Floats}
use rewind.Protocol.Types.{Entity, Snapshot, msg_snapshot}
use rewind.Protocol.Snapshot.Entities.{wire_full}
use rewind.Protocol.Snapshot.Loops.{
  fulls, deltas, wire_deltas, append_full-fulls, append_delta-deltas, length-fulls, full_loop-at,
  delta_loop-at, decode_removed-at,
}
use rewind.Protocol.Snapshot.{
  append_full, append_delta, append_snapshot, removed_words, decode_full, delta_loop,
  decode_snapshot,
}

module _ (fl : Floats) where
  open fl use {F32}

  -- The fields are values of their Go types, the lists fit their counters, and a delta has a known
  -- mask for each entity.
  pub record SnapshotIsValid (s : Snapshot F32) : Type 0 where
    pub tick : IsU32 s.tick
    pub base_tick : IsU32 s.base_tick
    pub last_processed_seq : IsU32 s.last_processed_seq
    pub ids : All (λ e. IsU16 e.id) s.entities
    pub removed : All IsU16 s.removed
    pub known_masks : All (λ m. m < 64) s.masks
    pub entities_fit : length s.entities ≤ 255
    pub removed_fit : length s.removed ≤ 255
    pub masks_match : s.base_tick ≢ 0 → length s.masks ≡ length s.entities

  -- What a receiver makes of the snapshot: quantised values, and in a delta only the fields that the
  -- mask names.
  unfoldable pub on_wire : Snapshot F32 → Snapshot F32
  on_wire s = record s {
    entities =
        if s.base_tick == 0
        then map (wire_full fl) s.entities
        else wire_deltas fl s.entities s.masks;
    masks = if s.base_tick == 0 then [] else s.masks;
  }

  records : Snapshot F32 → List ℕ
  records s = if s.base_tick == 0 then fulls fl s.entities else deltas fl s.entities s.masks

  -- What follows the message type.
  pub snapshot_body : Snapshot F32 → List ℕ
  snapshot_body s =
      le32 s.tick
      ++ (le32 s.base_tick
          ++ (le32 s.last_processed_seq
              ++ (length s.entities ∷ (records s ++ (length s.removed ∷ removed_words s.removed)))))

  header : List ℕ → Snapshot F32 → List ℕ
  header dst s =
      dst
      ++ (msg_snapshot
          ∷ (le32 s.tick
              ++ (le32 s.base_tick ++ (le32 s.last_processed_seq ++ (length s.entities ∷ [])))))

  pub append_snapshot-body :
      (dst : List ℕ) (s : Snapshot F32)
      → SnapshotIsValid s
      → append_snapshot fl dst s ≡ ok (dst ++ (msg_snapshot ∷ snapshot_body s))
  unfolding append_snapshot snapshot_body records header
  append_snapshot-body dst s v =
      pass _ (le→ltb _ _ v.entities_fit)
        (pass _ (le→ltb _ _ v.removed_fit) (pass _ matched (ap ok written)))
    where
      matched : (not (s.base_tick == 0) && not (length s.masks == length s.entities)) ≡ false
      matched = ground arith

      written :
          (if s.base_tick == 0
              then append_full fl (header dst s) s.entities
              else append_delta fl (header dst s) s.entities s.masks)
            ++ (length s.removed ∷ removed_words s.removed)
          ≡ dst ++ (msg_snapshot ∷ snapshot_body s)
      written = elim (Bool-cases (s.base_tick == 0)) [
        | inl h ↦ rw (h, append_full-fulls fl (header dst s) s.entities) (simp append_assoc)
        | inr h ↦
            rw (h, append_delta-deltas fl (header dst s) s.entities s.masks) (simp append_assoc)
      ]

  decode_full-at :
      (es : List (Entity F32)) (post : List ℕ)
      → All (λ e. IsU16 e.id) es
      → decode_full fl (length es) (fulls fl es ++ post) ≡ ok (map (wire_full fl) es, [], post)
  unfolding decode_full
  decode_full-at es post v =
      pass _ (le→ltb _ _ (omega (arith, length-append (fulls fl es) post, length-fulls fl es))) (
        >>=-ok _ (full_loop-at fl es [] post 0 _ v refl refl)
          (>>=-ok _ (slice_from-append (fulls fl es) post _ (sym (length-fulls fl es))) refl))

  decode_records :
      (s : Snapshot F32) (post : List ℕ)
      → SnapshotIsValid s
      → (if s.base_tick == 0
          then decode_full fl (length s.entities) (records s ++ post)
          else delta_loop fl (length s.entities) (records s ++ post))
        ≡ ok ((on_wire s).entities, (on_wire s).masks, post)
  unfolding on_wire records
  decode_records s post v = elim (Bool-cases (s.base_tick == 0)) [
    | inl h ↦ rw h (decode_full-at s.entities post v.ids)
    | inr h ↦ rw h (
        delta_loop-at fl s.entities s.masks post v.ids v.known_masks (v.masks_match (ground arith)))
  ]

  pub decode_snapshot-body :
      (s : Snapshot F32) → SnapshotIsValid s → decode_snapshot fl (snapshot_body s) ≡ ok (on_wire s)
  unfolding decode_snapshot snapshot_body le32 byte_at u32_at
  decode_snapshot-body s v =
      rw
        (
          word32-le s.tick v.tick,
          word32-le s.base_tick v.base_tick,
          word32-le s.last_processed_seq v.last_processed_seq,
        )
        (pass _ (le→ltb (length (snapshot_body s)) 13 (omega arith)) (
          >>=-ok _ (slice_from-append start behind 13 refl) (
            >>=-ok _ (decode_records s (length s.removed ∷ removed_words s.removed) v)
              (>>=-ok _ (decode_removed-at s.removed v.removed) (unfold on_wire in refl)))))
    where
      start : List ℕ
      start =
          le32 s.tick
          ++ (le32 s.base_tick ++ (le32 s.last_processed_seq ++ (length s.entities ∷ [])))

      behind : List ℕ
      behind = records s ++ (length s.removed ∷ removed_words s.removed)
