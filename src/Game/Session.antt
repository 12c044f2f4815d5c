-- ===== src/Game/Session.antt =====
-- The room's side of a session of session.go: the two bounded queues and the counters that mark a slow
-- client, and sendSnapshotTo of room.go, which encodes a view against the set that the client has
-- confirmed. A queue is the list of what waits in the channel, the oldest first. The write pump
-- drains the channels at any time, so what it takes between two steps of the room is an argument.
pub mod Queue
pub mod View
use rewind.Prelude.{
  ℕ, suc, ◌+◌, List, [], ◌∷◌, ◌++◌, Bool, true, false, ◌||◌, ltb, if◌then◌else◌, Option, none, some,
  length, drop,
}
use rewind.Prelude.Float.{Floats}
use rewind.Prelude.Result.{Result, ok, err, panic}
use rewind.Protocol.Types.{Entity, Snapshot, Error}
use rewind.Protocol.Snapshot.{append_snapshot}
use rewind.Game.Delta.{diff_entities, Delta}
use rewind.Game.Baseline.{BaselineRing, new_ring, get, put}

abbrev pub reliable_queue_size : ℕ
reliable_queue_size = 32

pub record Session (F : Type 0) : Type 0 where
  pub reliable : List (List ℕ)
  pub snapshots : List (List ℕ)
  pub backlog : ℕ
  pub dropped : ℕ
  pub kick : Bool
  pub ack_tick : ℕ
  pub baseline : BaselineRing F

-- A send that does not block: the new queue, or none when the channel is full.
unfoldable pub try_send : {A : Type 0} → ℕ → A → List A → Option (List A)
try_send cap x q = if ltb (length q) cap then some (q ++ (x ∷ [])) else none

module _ {F : Type 0} where
  abbrev pub new_session : Session F
  new_session = record {
    reliable = [];
    snapshots = [];
    backlog = 0;
    dropped = 0;
    kick = false;
    ack_tick = 0;
    baseline = new_ring;
  }

  -- The send after the oldest has been dropped.
  unfoldable pub send_again : Option (List (List ℕ)) → Session F → Session F × Bool
  send_again none s = (s, false)
  send_again (some q) s = (record s { snapshots = q }, true)

  -- The pump takes `before` buffers ahead of the receive, and `after` ahead of the second send.
  unfoldable pub drop_oldest : ℕ → ℕ → ℕ → List ℕ → Session F → Session F × Bool
  drop_oldest cap before after bp s =
      let left = drop after (drop 1 (drop before s.snapshots)) in
      send_again (try_send cap bp left)
        (record s { snapshots = left; backlog = suc s.backlog; dropped = suc s.dropped })

  unfoldable pub first_send :
      ℕ → ℕ → ℕ → List ℕ → Session F → Option (List (List ℕ)) → Session F × Bool
  first_send cap before after bp s none = drop_oldest cap before after bp s
  first_send cap before after bp s (some q) = (record s { snapshots = q; backlog = 0 }, true)

  unfoldable pub enqueue_snapshot : ℕ → ℕ → ℕ → List ℕ → Session F → Session F × Bool
  enqueue_snapshot cap before after bp s =
      first_send cap before after bp s (try_send cap bp s.snapshots)

  unfoldable pub keep_or_kick : Option (List (List ℕ)) → Session F → Session F × Bool
  keep_or_kick none s = (record s { kick = true }, false)
  keep_or_kick (some q) s = (record s { reliable = q }, true)

  unfoldable pub enqueue_reliable : List ℕ → Session F → Session F × Bool
  enqueue_reliable msg s = keep_or_kick (try_send reliable_queue_size msg s.reliable) s

  unfoldable pub lagging : ℕ → Session F → Bool
  lagging max_backlog s = s.kick || ltb max_backlog s.backlog

  -- What is new to the session becomes a base only when its snapshot was queued.
  unfoldable pub keep_base : ℕ → List (Entity F) → Session F × Bool → Session F
  keep_base tick view (s, true) = record s { baseline = put tick view s.baseline }
  keep_base tick view (s, false) = s

module _ (fl : Floats) where
  open fl use {F32}

  abbrev pub full_snapshot : ℕ → ℕ → List (Entity F32) → Snapshot F32
  full_snapshot tick last_seq view = record {
    tick = tick;
    base_tick = 0;
    last_processed_seq = last_seq;
    entities = view;
    masks = [];
    removed = [];
  }

  abbrev pub delta_snapshot : ℕ → ℕ → ℕ → Delta F32 → Snapshot F32
  delta_snapshot tick last_seq ack d = record {
    tick = tick;
    base_tick = ack;
    last_processed_seq = last_seq;
    entities = d.changed;
    masks = d.masks;
    removed = d.removed;
  }

  -- A delta where it has fewer records than the view.
  unfoldable pub shorter : ℕ → ℕ → ℕ → List (Entity F32) → Delta F32 → Snapshot F32
  shorter tick last_seq ack view d =
      if ltb (length d.changed + length d.removed) (length view)
      then delta_snapshot tick last_seq ack d
      else full_snapshot tick last_seq view

  unfoldable pub build_snapshot :
      ℕ → ℕ → ℕ → List (Entity F32) → Option (List (Entity F32)) → Snapshot F32
  build_snapshot tick last_seq ack view none = full_snapshot tick last_seq view
  build_snapshot tick last_seq ack view (some base) =
      shorter tick last_seq ack view (diff_entities fl base view)

  unfoldable pub queue_encoded :
      ℕ → ℕ → ℕ → ℕ → List (Entity F32) → Result Error (List ℕ) → Session F32 → Session F32
  queue_encoded cap before after tick view (ok buf) s =
      keep_base tick view (enqueue_snapshot cap before after buf s)
  queue_encoded cap before after tick view (err e) s = s
  queue_encoded cap before after tick view panic s = s

  unfoldable pub send_snapshot_to :
      ℕ → ℕ → ℕ → ℕ → ℕ → List (Entity F32) → Session F32 → Session F32
  send_snapshot_to cap before after tick last_seq view s =
      let snap = build_snapshot tick last_seq s.ack_tick view (get s.ack_tick s.baseline) in
      queue_encoded cap before after tick view (append_snapshot fl [] snap) s
