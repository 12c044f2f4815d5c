-- ===== src/Game/World/Order.antt =====
-- The players stay in ascending order of their ids, whatever joins, leaves or is queued.
use rewind.Prelude.{
  ℕ, ◌<◌, ◌≤◌, ◌≡◌, ◌≢◌, List, [], ◌∷◌, false, ◌==◌, arith, Bool-cases, inl, inr, ltb, sym, none,
  some,
}
use rewind.Prelude.Result.{ok, Ensures, Ensures-ok, >>=-Ensures, ok_ensures}
use rewind.Protocol.Types.{Input}
use rewind.Game.World.{
  World, Player, has_player, insert_player, delete_player, set_player, id_taken, alloc_id,
  add_player, remove_player, enqueue_input, MoveState, new_player, enqueue_at, queue_input,
  find_player, Option, is_stale,
}
use rewind.Game.World.Ids.{IsAllocated, alloc_id-IsAllocated}

module _ {F : Type 0} where
  -- Ids above the bound, each above the one before, within a uint16.
  unfoldable pub IsAscending : ℕ → List (Player F) → Type 0
  IsAscending b [] = Unit
  IsAscending b (p ∷ ps) = (b < p.id) × (p.id < 65536) × IsAscending p.id ps

  pub record IsValid (w : World F) : Type 0 where
    pub order : IsAscending 0 w.players
    pub next_positive : w.next_id ≢ 0
    pub next_fits : w.next_id < 65536

  IsAscending-weaken :
      (a b : ℕ) (ps : List (Player F)) → a ≤ b → IsAscending b ps → IsAscending a ps
  unfolding IsAscending
  IsAscending-weaken a b [] h v = v
  IsAscending-weaken a b (p ∷ ps) h (k, f, v) = (omega arith, f, v)

  insert_player-IsAscending :
      (b : ℕ) (p : Player F) (ps : List (Player F))
      → b < p.id
      → p.id < 65536
      → has_player p.id ps ≡ false
      → IsAscending b ps
      → IsAscending b (insert_player p ps)
  unfolding IsAscending insert_player has_player
  insert_player-IsAscending b p [] h f e v = (h, f, v)
  insert_player-IsAscending b p (q ∷ qs) h f e (k, g, v) = elim (Bool-cases (ltb q.id p.id)) [
    | inl l ↦ rw l (k, g, insert_player-IsAscending q.id p qs (ground arith) f (ground arith) v)
    | inr l ↦ let rest : IsAscending p.id (q ∷ qs) = (ground arith, g, v) in rw l (h, f, rest)
  ]

  delete_player-IsAscending :
      (b id : ℕ) (ps : List (Player F)) → IsAscending b ps → IsAscending b (delete_player id ps)
  unfolding IsAscending delete_player
  delete_player-IsAscending b id [] v = v
  delete_player-IsAscending b id (p ∷ ps) (k, f, v) = elim (Bool-cases (p.id == id)) [
    | inl e ↦ rw e (IsAscending-weaken b p.id ps (omega arith) v)
    | inr e ↦ rw e (k, f, delete_player-IsAscending p.id id ps v)
  ]

  pub set_player-IsAscending :
      (b : ℕ) (p : Player F) (ps : List (Player F))
      → IsAscending b ps
      → IsAscending b (set_player p ps)
  unfolding IsAscending set_player
  set_player-IsAscending b p [] v = v
  set_player-IsAscending b p (q ∷ qs) (k, f, v) = elim (Bool-cases (q.id == p.id)) [
    | inl e ↦
        let same : q.id ≡ p.id = ground (arith, e) in
        rw e (omega arith, omega arith, rw (sym same) v)
    | inr e ↦ rw e (k, f, set_player-IsAscending q.id p qs v)
  ]

  -- What the room's goroutine does to the players between two ticks.
  pub data Step : World F → World F → Type 0 where
    joins :
        {w w' : World F} {p : Player F} (name : List ℕ) (spawn : MoveState F)
        → add_player w name spawn ≡ ok (p, w')
        → Step w w'
    leaves : {w : World F} (id : ℕ) → Step w (remove_player w id)
    sends : {w : World F} (id : ℕ) (i : Input) → Step w (enqueue_input w id i)

  pub data Steps : World F → World F → Type 0 where
    done : {w : World F} → Steps w w
    next : {u v w : World F} → Step u v → Steps v w → Steps u w

  add_player-Ensures :
      (w : World F) (name : List ℕ) (spawn : MoveState F)
      → IsValid w
      → Ensures (λ r. IsValid r.1) (add_player w name spawn)
  unfolding add_player new_player id_taken
  add_player-Ensures w name spawn v = >>=-Ensures (alloc_id w) λ r e.
      let a : IsAllocated w r = alloc_id-IsAllocated w r v.next_fits e in
      ok_ensures _ (record {
        order =
            insert_player-IsAscending 0 _ w.players (ground (arith, a.0.positive)) a.0.fits
              (ground (arith, a.0.free)) v.order;
        next_positive = a.1;
        next_fits = a.2;
      })

  remove_player-IsValid : (w : World F) (id : ℕ) → IsValid w → IsValid (remove_player w id)
  unfolding remove_player
  remove_player-IsValid w id v = elim (Bool-cases (has_player id w.players)) [
    | inl e ↦ rw e (record {
      order = delete_player-IsAscending 0 id w.players v.order;
      next_positive = v.next_positive;
      next_fits = v.next_fits;
    })
    | inr e ↦ rw e v
  ]

  enqueue_at-IsValid :
      (w : World F) (id : ℕ) (i : Input) (o : Option (Player F))
      → IsValid w
      → IsValid (enqueue_at w id i o)
  unfolding enqueue_at queue_input
  enqueue_at-IsValid w id i none v = v
  enqueue_at-IsValid w id i (some p) v = elim (Bool-cases (is_stale p i)) [
    | inl e ↦ rw e v
    | inr e ↦ rw e (record {
      order = set_player-IsAscending 0 (queue_input p i) w.players v.order;
      next_positive = v.next_positive;
      next_fits = v.next_fits;
    })
  ]

  pub Step-IsValid : {v w : World F} → Step v w → IsValid v → IsValid w
  unfolding enqueue_input
  Step-IsValid (joins {w = w} name spawn e) v = Ensures-ok (add_player-Ensures w name spawn v) e
  Step-IsValid (leaves {w = w} id) v = remove_player-IsValid w id v
  Step-IsValid (sends {w = w} id i) v = enqueue_at-IsValid w id i (find_player id w.players) v

  -- Whatever players join, leave or send, in any order: if the players are in strictly ascending
  -- order of ids from 1 to 65535 at first, so that no two share an id, and `nextID` is an id, then so
  -- they are at the end.
  pub Steps-IsValid : {v w : World F} → Steps v w → IsValid v → IsValid w
  Steps-IsValid done v = v
  Steps-IsValid (next s rest) v = Steps-IsValid rest (Step-IsValid s v)
