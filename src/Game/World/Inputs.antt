-- ===== src/Game/World/Inputs.antt =====
-- EnqueueInput: the queue of a player's inputs.

use rewind.Prelude.{
  ℕ, ◌<◌, ◌≤◌, ◌≡◌, List, [], ◌∷◌, ◌++◌, All, false, ◌==◌, arith, Bool-cases, inl, inr, refl, none,
  some,
}
use mathlib.Core.Path.{subst}
use mathlib.Core.Option.{some-injective}
use rewind.Protocol.Types.{Input}
use rewind.Game.World.{
  World, Player, find_player, set_player, queue_input, is_stale, enqueue_at, enqueue_input, Option,
}

-- Strictly rising sequence numbers, the last of which is at most the bound.
unfoldable pub IsRising : List Input → ℕ → Type 0
IsRising [] n = Unit
IsRising (i ∷ is) n = All (λ (j : Input). i.seq < j.seq) is × (i.seq ≤ n) × IsRising is n

All-snoc :
    {A : Type 0} (P : A → Type 0) (xs : List A) (y : A) → All P xs → P y → All P (xs ++ (y ∷ []))
All-snoc P [] y v p = (p, tt)
All-snoc P (x ∷ xs) y (h, v) p = (h, All-snoc P xs y v p)

IsRising-snoc :
    (is : List Input) (i : Input) (n : ℕ)
    → n < i.seq
    → IsRising is n
    → IsRising (is ++ (i ∷ [])) i.seq
unfolding IsRising
IsRising-snoc [] i n h v = (tt, omega arith, tt)
IsRising-snoc (j ∷ js) i n h (a, b, v) =
    (All-snoc _ js i a (omega (arith, h, b)), omega (arith, h, b), IsRising-snoc js i n h v)

module _ {F : Type 0} where
  -- A player's queue: empty at first, then rising up to the number that was queued last.
  pub record QueueIsValid (p : Player F) : Type 0 where
    pub fresh : p.has_queued ≡ false → p.inputs ≡ []
    pub rising : IsRising p.inputs p.last_queued_seq

  queue_input-QueueIsValid :
      (p : Player F) (i : Input)
      → QueueIsValid p
      → is_stale p i ≡ false
      → QueueIsValid (queue_input p i)
  unfolding is_stale queue_input IsRising
  queue_input-QueueIsValid p i v e = elim (Bool-cases p.has_queued) [
    | inl h ↦ record {
      fresh = λ k. absurd (ground (arith, h, k));
      rising = IsRising-snoc p.inputs i p.last_queued_seq (ground (arith, e, h)) v.rising;
    }
    | inr h ↦ record {
      fresh = λ k. absurd (ground (arith, h, k));
      rising = rw (v.fresh h) (tt, omega arith, tt);
    }
  ]

  set_player-All :
      (P : Player F → Type 0) (p : Player F) (ps : List (Player F))
      → P p
      → All P ps
      → All P (set_player p ps)
  unfolding set_player
  set_player-All P p [] h v = v
  set_player-All P p (q ∷ qs) h (k, v) = elim (Bool-cases (q.id == p.id)) [
    | inl e ↦ rw e (h, v)
    | inr e ↦ rw e (k, set_player-All P p qs h v)
  ]

  find_player-All :
      (P : Player F → Type 0) (id : ℕ) (ps : List (Player F)) (p : Player F)
      → All P ps
      → find_player id ps ≡ some p
      → P p
  unfolding find_player
  find_player-All P id [] p v e = absurd (cc)
  find_player-All P id (q ∷ qs) p (h, v) e = elim (Bool-cases (q.id == id)) [
    | inl k ↦ subst P (some-injective q p (rw k at e)) h
    | inr k ↦ find_player-All P id qs p v (rw k at e)
  ]

  enqueue_at-QueueIsValid :
      (w : World F) (id : ℕ) (i : Input) (o : Option (Player F))
      → find_player id w.players ≡ o
      → All QueueIsValid w.players
      → All QueueIsValid (enqueue_at w id i o).players
  unfolding enqueue_at
  enqueue_at-QueueIsValid w id i none e v = v
  enqueue_at-QueueIsValid w id i (some p) e v = elim (Bool-cases (is_stale p i)) [
    | inl k ↦ rw k v
    | inr k ↦ rw k (
        set_player-All QueueIsValid (queue_input p i) w.players
          (queue_input-QueueIsValid p i (find_player-All QueueIsValid id w.players p v e) k) v)
  ]

  -- EnqueueInput keeps every player's queue in strictly rising order of sequence numbers, up to the
  -- one queued last: an input that is repeated or comes late is never queued behind a newer one.
  pub enqueue_input-QueueIsValid :
      (w : World F) (id : ℕ) (i : Input)
      → All QueueIsValid w.players
      → All QueueIsValid (enqueue_input w id i).players
  unfolding enqueue_input
  enqueue_input-QueueIsValid w id i = enqueue_at-QueueIsValid w id i _ refl
