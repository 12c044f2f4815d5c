-- ===== src/Game/Session/View.antt =====
-- sendSnapshotTo against the client that applies what it is sent: the client sees the view.

use rewind.Prelude.{
  ℕ, ◌≡◌, ◌+◌, List, [], map, false, ltb, refl, arith, ap, ◌∙◌, Bool-cases, inl, inr, Option, none,
  some, length, ◌==◌, ◌<◌,
}
use rewind.Prelude.Float.{Floats}
use rewind.Prelude.Result.{Result, ok, ◌>>=◌}
use rewind.Protocol.Types.{Entity, Snapshot}
use rewind.Game.Delta.{diff_entities, Delta}
use rewind.Game.Session.{build_snapshot, shorter, full_snapshot, delta_snapshot}
use rewind.Bot.Reconstruct.{
  Reconstructor, BaseError, find_kept, apply_snapshot, next_set, from_base, sort_by_key, remember,
  put_all, delete_all,
}
use rewind.Bot.Reconstruct.Overlay.{wire, image}
use rewind.Bot.Reconstruct.Merge.{IsDistinct}
use rewind.Bot.Reconstruct.Sorted.{
  IsRising, sort_by_key-IsDistinct, sort_by_key-IsRising, find-sort_by_key,
}
use rewind.Bot.Reconstruct.Unique.{Agree, same_sets}
use rewind.Bot.Reconstruct.Follows.{delta-Agree, full-Agree}
use rewind.Bot.Reconstruct.Window.{IsBounded, remember-IsBounded, remember-keeps}

module _ (fl : Floats) where
  open fl use {F32}

  -- The client has a set under the tick that agrees with this one, as the wire carries it.
  unfoldable pub Knows : Reconstructor F32 → ℕ → List (Entity F32) → Type 0
  Knows rc tick es =
      (kept : List (Entity F32)) × (find_kept tick rc.store ≡ some kept)
      × IsDistinct kept
      × Agree fl kept es

  -- The outcome of a snapshot: what the client returns is the view, and it keeps it for its tick.
  abbrev pub Sees :
      ℕ → List (Entity F32) → Result BaseError (List (Entity F32) × Reconstructor F32) → Type 0
  Sees tick view out =
      (r : List (Entity F32)) × (rc : Reconstructor F32) × (out ≡ ok (r, rc))
      × (map (wire fl) r ≡ map (wire fl) view)
      × Knows rc tick view
      × IsBounded rc

  module _ (rc : Reconstructor F32) (view : List (Entity F32)) (bounded : IsBounded rc)
      (rising : IsRising view) (distinct : IsDistinct view) where
    next-Sees :
        (s : Snapshot F32) (next : List (Entity F32))
        → next_set fl rc s ≡ ok next
        → IsDistinct next
        → Agree fl next view
        → Sees s.tick view (apply_snapshot fl rc s)
    unfolding apply_snapshot Knows
    next-Sees s next h d agree =
        let sorted : List (Entity F32) = sort_by_key next in
        let same : Agree fl sorted view =
          λ id. ap (image fl) (find-sort_by_key id next d) ∙ agree id in
        let seen : map (wire fl) sorted ≡ map (wire fl) view =
          same_sets fl sorted view (sort_by_key-IsRising next d) rising
            (sort_by_key-IsDistinct next d) distinct same in
        let knows : Knows (remember s.tick next rc) s.tick view =
          (next, remember-keeps s.tick next rc bounded, d, agree) in
        (
          sorted,
          remember s.tick next rc,
          ap (λ m. m >>= λ (n : List (Entity F32)). ok (sort_by_key n, remember s.tick n rc)) h,
          seen,
          knows,
          remember-IsBounded s.tick next rc bounded,
        )

    full-Sees :
        (tick last_seq : ℕ)
        → Sees tick view (apply_snapshot fl rc (full_snapshot fl tick last_seq view))
    unfolding next_set delete_all
    full-Sees tick last_seq =
        let (d, agree) = full-Agree fl view distinct in
        next-Sees (full_snapshot fl tick last_seq view) (put_all view []) refl d agree

    delta-Sees :
        (tick last_seq ack : ℕ) (base : List (Entity F32))
        → 0 < ack
        → IsDistinct base
        → Knows rc ack base
        → Sees tick view (
            apply_snapshot fl rc (delta_snapshot fl tick last_seq ack (diff_entities fl base view)))
    unfolding next_set from_base Knows
    delta-Sees tick last_seq ack base newer d (kept, found, n, agree) =
        let (r, done, distinct_r, agree_r) = delta-Agree fl base view kept d distinct n agree in
        let s : Snapshot F32 = delta_snapshot fl tick last_seq ack (diff_entities fl base view) in
        let not_full : (ack == 0) ≡ false = ground (arith, newer) in
        let next : next_set fl rc s ≡ ok r = rw (not_full, found) done in
        next-Sees s r next distinct_r agree_r

    -- Whatever the server has of the client's confirmed tick, a full set or a difference is sent, and
    -- the client that applies it has the view, and keeps it as the base of the next difference. The
    -- set that the server has for the confirmed tick is the one that the client has for it.
    pub build_snapshot-seen :
        (tick last_seq ack : ℕ) (base : Option (List (Entity F32)))
        → ((b : List (Entity F32)) → base ≡ some b → (0 < ack) × IsDistinct b × Knows rc ack b)
        → Sees tick view (apply_snapshot fl rc (build_snapshot fl tick last_seq ack view base))
    unfolding build_snapshot shorter
    build_snapshot-seen tick last_seq ack none h = full-Sees tick last_seq
    build_snapshot-seen tick last_seq ack (some b) h =
        let d : Delta F32 = diff_entities fl b view in
        let (newer, distinct_b, known) = h b refl in
        elim (Bool-cases (ltb (length d.changed + length d.removed) (length view))) [
          | inl less ↦ rw less (delta-Sees tick last_seq ack b newer distinct_b known)
          | inr less ↦ rw less (full-Sees tick last_seq)
        ]
