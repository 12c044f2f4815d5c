-- ===== src/Game/Pickups.antt =====
-- pickups.go: the five spots of the arena where an item appears, and what a player gets from one. What
-- the generator would draw for a spot in this tick, `w.rng.IntN(pickupKindCount)`, is an argument.
pub mod Takers
use rewind.Prelude.{
  ℕ, ◌+◌, ◌*◌, ◌%◌, ◌^◌, List, [], ◌∷◌, Bool, true, false, not, ◌&&◌, ◌||◌, ◌==◌, leb, ltb,
  if◌then◌else◌, Option, none, some,
}
use rewind.Prelude.Float.{Floats}
use rewind.Prelude.Int.{pos}
use rewind.Protocol.Types.{Pickup}
use rewind.Game.World.{Player}

abbrev pub pickup_medkit : ℕ
pickup_medkit = 1

abbrev pub pickup_rapid : ℕ
pickup_rapid = 2

abbrev pub pickup_spread : ℕ
pickup_spread = 3

abbrev pub pickup_respawn_ticks : ℕ
pickup_respawn_ticks = 240

abbrev pub medkit_heal : ℕ
medkit_heal = 50

abbrev pub rapid_duration_ticks : ℕ
rapid_duration_ticks = 180

abbrev pub spread_duration_ticks : ℕ
spread_duration_ticks = 180

pub record Spot : Type 0 where
  pub x : ℕ
  pub y : ℕ

abbrev pub pickup_spots : List Spot
pickup_spots =
    record { x = 700; y = 700 }
    ∷ record { x = 3396; y = 700 }
    ∷ record { x = 700; y = 3396 }
    ∷ record { x = 3396; y = 3396 }
    ∷ record { x = 2048; y = 3300 }
    ∷ []

pub record PickupState : Type 0 where
  pub active : Bool
  pub kind : ℕ
  pub ready_at : ℕ

abbrev pub init_pickup : PickupState
init_pickup = record { active = false; kind = 0; ready_at = 0 }

-- The states from the given index on that hold an item.
unfoldable pub append_pickups : ℕ → List PickupState → List Pickup
append_pickups i [] = []
append_pickups i (ps ∷ pss) =
    let rest = append_pickups (i + 1) pss in
    if ps.active then record { spot = i; kind = ps.kind } ∷ rest else rest

module _ (fl : Floats) where
  open fl use {F32, int32, add32, sub32, mul32, le32}

  unfoldable pub apply_pickup : ℕ → Player F32 → ℕ → Player F32
  apply_pickup tick p k =
      if k == pickup_medkit
      then record p { hp = if ltb 100 (p.hp + medkit_heal) then 100 else p.hp + medkit_heal }
      else if k == pickup_rapid
      then record p { rapid_until = (tick + rapid_duration_ticks) % 2 ^ 32 }
      else if k == pickup_spread
      then record p { spread_until = (tick + spread_duration_ticks) % 2 ^ 32 }
      else p

  -- Within PlayerRadius + pickupRadius, which is 34.
  unfoldable pub reaches : Spot → Player F32 → Bool
  reaches s p =
      let dx = sub32 p.move.x (int32 (pos s.x)) in
      let dy = sub32 p.move.y (int32 (pos s.y)) in
      le32 (add32 (mul32 dx dx) (mul32 dy dy)) (int32 (pos 1156))

  abbrev pub takes : Spot → Player F32 → Bool
  takes s p = not p.dead && reaches s p

  unfoldable pub and_then : Player F32 → Option (List (Player F32)) → Option (List (Player F32))
  and_then p none = none
  and_then p (some ps) = some (p ∷ ps)

  -- The loop over the players: the first who takes the item, if any.
  unfoldable pub give : ℕ → Spot → ℕ → List (Player F32) → Option (List (Player F32))
  give tick s k [] = none
  give tick s k (p ∷ ps) =
      let rest = and_then p (give tick s k ps) in
      if takes s p then some (apply_pickup tick p k ∷ ps) else rest

  -- What a spot did: its new state, the players, and whether something changed.
  pub record Turn : Type 0 where
    pub state : PickupState
    pub players : List (Player F32)
    pub dirty : Bool

  unfoldable pub given : ℕ → PickupState → List (Player F32) → Option (List (Player F32)) → Turn
  given tick ps players none = record { state = ps; players = players; dirty = false }
  given tick ps players (some after) = record {
    state = record ps { active = false; ready_at = (tick + pickup_respawn_ticks) % 2 ^ 32 };
    players = after;
    dirty = true;
  }

  unfoldable pub appear : ℕ → ℕ → PickupState → List (Player F32) → Turn
  appear tick draw ps players =
      if leb ps.ready_at tick
      then record {
        state = record ps { active = true; kind = 1 + draw };
        players = players;
        dirty = true;
      }
      else record { state = ps; players = players; dirty = false }

  unfoldable pub step_spot : ℕ → ℕ → Spot → PickupState → List (Player F32) → Turn
  step_spot tick draw s ps players =
      if not ps.active
      then appear tick draw ps players
      else given tick ps players (give tick s ps.kind players)

  pub record Turns : Type 0 where
    pub states : List PickupState
    pub players : List (Player F32)
    pub dirty : Bool

  -- The loop over the spots, with the draws from the index on.
  unfoldable pub step_pickups :
      ℕ → (ℕ → ℕ) → ℕ → List Spot → List PickupState → List (Player F32) → Turns
  step_pickups tick draw i [] pss players = record { states = []; players = players; dirty = false }
  step_pickups tick draw i (s ∷ ss) [] players = record {
    states = [];
    players = players;
    dirty = false;
  }
  step_pickups tick draw i (s ∷ ss) (ps ∷ pss) players =
      let here = step_spot tick (draw i) s ps players in
      let rest = step_pickups tick draw (i + 1) ss pss here.players in
      record {
        states = here.state ∷ rest.states;
        players = rest.players;
        dirty = here.dirty || rest.dirty;
      }
