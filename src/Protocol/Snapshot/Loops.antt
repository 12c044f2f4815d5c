-- ===== src/Protocol/Snapshot/Loops.antt =====
-- The loops over the records and the removed ids of a snapshot, written and read back.
use rewind.Prelude.{
  ℕ, suc, ◌+◌, ◌*◌, ◌<◌, ◌≡◌, List, [], ◌∷◌, ◌++◌, map, All, length, arith, sym, ◌∙◌, append_assoc,
  append-nil, refl, length-append, le→ltb,
}
use rewind.Prelude.Result.{ok, >>=-ok, pass}
use rewind.Prelude.Bytes.{
  le16, byte_at, u16_at, IsU16, u16_at_after, u16_at-le16, length-le16, slice_from-append,
}
use rewind.Prelude.Float.{Floats}
use rewind.Protocol.Types.{Error, Entity}
use rewind.Protocol.Snapshot.Entities.{wire_full, read_full-at}
use rewind.Protocol.Snapshot.DeltaRecord.{wire_delta, read_delta-bytes}
use rewind.Protocol.Snapshot.{
  full_bytes, delta_bytes, append_entity_full, append_entity_delta, append_full, append_delta,
  full_loop, delta_loop, removed_words, removed_loop, decode_removed, read_full,
}

pub length-removed_words : (ids : List ℕ) → length (removed_words ids) ≡ length ids * 2
unfolding removed_words
length-removed_words [] = refl
length-removed_words (id ∷ ids) =
    omega
      (arith, length-append (le16 id) (removed_words ids), length-le16 id, length-removed_words ids)

removed_loop-at :
    (ids done post : List ℕ) (i : ℕ) (body : List ℕ)
    → All IsU16 ids
    → body ≡ done ++ (removed_words ids ++ post)
    → i * 2 ≡ length done
    → removed_loop (length ids) i body ≡ ok ids
unfolding removed_loop removed_words
removed_loop-at [] done post i body v p q = refl
removed_loop-at (id ∷ ids) done post i body (h, v) p q = >>=-ok _ here (
    >>=-ok _
      (removed_loop-at ids (done ++ le16 id) post (i + 1) body v (rw p (simp append_assoc))
        (omega (arith, length-append done (le16 id), length-le16 id)))
      refl)
  where
    here : u16_at {E = Error} body (i * 2) ≡ ok id
    here =
        rw (p, q, append_assoc) (u16_at_after done _ ∙ u16_at-le16 id (removed_words ids ++ post) h)

pub decode_removed-at :
    (ids : List ℕ) → All IsU16 ids → decode_removed (length ids ∷ removed_words ids) ≡ ok ids
unfolding decode_removed byte_at
decode_removed-at ids v = pass _ (le→ltb (suc (length (removed_words ids))) 1 (omega arith)) (
    >>=-ok _ (slice_from-append (length ids ∷ []) (removed_words ids) 1 refl) (
      pass _ (le→ltb _ _ (omega (arith, length-removed_words ids)))
        (removed_loop-at ids [] [] 0 _ v (sym (append-nil (removed_words ids))) refl)))

module _ (fl : Floats) where
  open fl use {F32}

  abbrev pub fulls : List (Entity F32) → List ℕ
  fulls [] = []
  fulls (e ∷ es) = full_bytes fl e ++ fulls es

  abbrev pub deltas : List (Entity F32) → List ℕ → List ℕ
  deltas [] ms = []
  deltas (e ∷ es) [] = []
  deltas (e ∷ es) (m ∷ ms) = delta_bytes fl e m ++ deltas es ms

  pub append_full-fulls :
      (dst : List ℕ) (es : List (Entity F32)) → append_full fl dst es ≡ dst ++ fulls es
  unfolding append_full append_entity_full
  append_full-fulls dst [] = sym (append-nil dst)
  append_full-fulls dst (e ∷ es) =
      append_full-fulls (dst ++ full_bytes fl e) es ∙ append_assoc dst _ _

  pub append_delta-deltas :
      (dst : List ℕ) (es : List (Entity F32)) (ms : List ℕ)
      → append_delta fl dst es ms ≡ dst ++ deltas es ms
  unfolding append_delta append_entity_delta
  append_delta-deltas dst [] ms = sym (append-nil dst)
  append_delta-deltas dst (e ∷ es) [] = sym (append-nil dst)
  append_delta-deltas dst (e ∷ es) (m ∷ ms) =
      append_delta-deltas (dst ++ delta_bytes fl e m) es ms ∙ append_assoc dst _ _

  length-full_bytes : (e : Entity F32) → length (full_bytes fl e) ≡ 12
  unfolding full_bytes le16
  length-full_bytes e = refl

  pub length-fulls : (es : List (Entity F32)) → length (fulls es) ≡ length es * 12
  length-fulls [] = refl
  length-fulls (e ∷ es) =
      omega
        (arith, length-append (full_bytes fl e) (fulls es), length-full_bytes e, length-fulls es)

  pub full_loop-at :
      (es : List (Entity F32)) (done post : List ℕ) (i : ℕ) (body : List ℕ)
      → All (λ e. IsU16 e.id) es
      → body ≡ done ++ (fulls es ++ post)
      → i * 12 ≡ length done
      → full_loop fl (length es) i body ≡ ok (map (wire_full fl) es)
  unfolding full_loop
  full_loop-at [] done post i body v p q = refl
  full_loop-at (e ∷ es) done post i body (h, v) p q = >>=-ok _ here (
      >>=-ok _
        (full_loop-at es (done ++ full_bytes fl e) post (i + 1) body v (rw p (simp append_assoc))
          (omega (arith, length-append done (full_bytes fl e), length-full_bytes e)))
        refl)
    where
      here : read_full fl body (i * 12) ≡ ok (wire_full fl e)
      here = rw (p, q, append_assoc) (read_full-at fl done _ e h)

  abbrev pub wire_deltas : List (Entity F32) → List ℕ → List (Entity F32)
  wire_deltas [] ms = []
  wire_deltas (e ∷ es) [] = []
  wire_deltas (e ∷ es) (m ∷ ms) = wire_delta fl e m ∷ wire_deltas es ms

  pub delta_loop-at :
      (es : List (Entity F32)) (ms post : List ℕ)
      → All (λ e. IsU16 e.id) es
      → All (λ m. m < 64) ms
      → length ms ≡ length es
      → delta_loop fl (length es) (deltas es ms ++ post) ≡ ok (wire_deltas es ms, ms, post)
  unfolding delta_loop
  delta_loop-at [] [] post v w q = refl
  delta_loop-at [] (m ∷ ms) post v w q = absurd (omega arith)
  delta_loop-at (e ∷ es) [] post v w q = absurd (omega arith)
  delta_loop-at (e ∷ es) (m ∷ ms) post (h, v) (k, w) q = rw append_assoc (
      >>=-ok _ (read_delta-bytes fl e m (deltas es ms ++ post) h k)
        (>>=-ok _ (delta_loop-at es ms post v w (omega arith)) refl))
