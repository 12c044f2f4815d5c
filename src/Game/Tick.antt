-- ===== src/Game/Tick.antt =====
-- World.Step of world.go, one tick of a room's simulation, with stepMatch and startMatch of match.go.
-- What the generator draws in the tick is an argument: the points of the respawns, by player, before
-- and at the start of a match, and the kinds of the items, by spot.
pub mod Health
pub mod Whole
use rewind.Prelude.{
  ℕ, suc, ◌+◌, ◌-◌, ◌*◌, ◌/◌, ◌%◌, ◌^◌, List, [], ◌∷◌, Bool, true, false, not, ◌&&◌, ◌||◌, ◌==◌,
  leb, ltb, if◌then◌else◌, Option, none, some,
}
use rewind.Prelude.Float.{Floats, Math}
use rewind.Prelude.Int.{pos}
use rewind.Protocol.Types.{Input}
use rewind.Game.World.{
  World, Player, MoveState, HistPos, MatchPhase, match_active, match_intermission, find_player,
  set_player,
}
use rewind.Game.Match.{end_match, match_duration_ticks}
use rewind.Game.Ctf.{step_ctf, flag_home}
use rewind.Game.Zone.{step_hill, step_domination}
use rewind.Game.Combat.{with_player, respawn, record_history}
use rewind.Game.Combat.Flight.{step_projectiles, ids_of}
use rewind.Game.Combat.Fire.{try_fire}
use rewind.Game.Pickups.{PickupState, pickup_spots, step_pickups}
use rewind.Game.Movement.{has_bit, move_step, spawn_point}

pub record Draws (F : Type 0) : Type 0 where
  pub respawns : ℕ → ℕ → HistPos F
  pub restarts : ℕ → ℕ → HistPos F
  pub kinds : ℕ → ℕ

-- The world with its pickups and the two flags that the room reads after the tick.
pub record Sim (F : Type 0) : Type 0 where
  pub world : World F
  pub pickups : List PickupState
  pub pickups_dirty : Bool
  pub weapons_dirty : Bool

abbrev pub weapon_kind_count : ℕ
weapon_kind_count = 4

-- Bits 5 to 7 of the buttons; 0 keeps the weapon.
abbrev pub weapon_select : Input → ℕ
weapon_select i = i.buttons / 2 ^ 5 % 2 ^ 3

module _ {F : Type 0} where
  unfoldable pub changes_weapon : Player F → Input → Bool
  changes_weapon p i =
      not (weapon_select i == 0)
      && leb (weapon_select i) weapon_kind_count
      && not (p.weapon == weapon_select i)

  abbrev pub drained : Player F → Player F
  drained p = record p { inputs = [] }

  abbrev pub cleared : Player F → Player F
  cleared p = record p {
    kills = 0;
    deaths = 0;
    hill_score = 0;
    dom_score = 0;
    captures = 0;
    streak = 0;
  }

module _ (fl : Floats) (mt : Math fl) where
  open fl use {F32, int32, div32}

  abbrev pub input_dt : F32
  input_dt = div32 (int32 (pos 1)) (int32 (pos 60))

  -- The player after the movement and the choice of a weapon.
  unfoldable pub moved_by : Player F32 → Input → Player F32
  moved_by p i = record p {
    move = move_step fl mt p.move i input_dt;
    last_processed_seq = if ltb p.last_processed_seq i.seq then i.seq else p.last_processed_seq;
    weapon = if changes_weapon p i then weapon_select i else p.weapon;
  }

  unfoldable pub apply_input : World F32 → Input → Option (Player F32) → World F32
  apply_input w i none = w
  apply_input w i (some p) =
      let q = moved_by p i in
      let shot = try_fire fl mt (with_player fl w q) q i in
      if has_bit 4 i.buttons then shot else with_player fl w q

  unfoldable pub armed : Input → Option (Player F32) → Bool
  armed i none = false
  armed i (some p) = changes_weapon p i

  -- The inputs of one player in order, and whether a weapon changed.
  unfoldable pub apply_inputs : ℕ → List Input → World F32 × Bool → World F32 × Bool
  apply_inputs id [] s = s
  apply_inputs id (i ∷ is) (w, dirty) =
      let p = find_player id w.players in apply_inputs id is (apply_input w i p, dirty || armed i p)

  unfoldable pub drain : Option (Player F32) → World F32 → World F32
  drain none w = w
  drain (some p) w = with_player fl w (drained p)

  unfoldable pub run_player : ℕ → Option (Player F32) → World F32 × Bool → World F32 × Bool
  run_player id none s = s
  run_player id (some p) (w, dirty) =
      let after = apply_inputs id p.inputs (w, dirty) in
      if p.dead
      then (with_player fl w (drained p), dirty)
      else (drain (find_player id after.0.players) after.0, after.1)

  unfoldable pub run_players : List ℕ → World F32 × Bool → World F32 × Bool
  run_players [] s = s
  run_players (id ∷ ids) s = run_players ids (run_player id (find_player id s.0.players) s)

  unfoldable pub revive : (ℕ → HistPos F32) → Option (Player F32) → World F32 → World F32
  revive draw none w = w
  revive draw (some p) w =
      if p.dead && leb p.respawn_at w.tick then respawn fl w (spawn_point fl mt draw) p else w

  unfoldable pub revive_all : (ℕ → ℕ → HistPos F32) → List ℕ → World F32 → World F32
  revive_all draw [] w = w
  revive_all draw (id ∷ ids) w = revive_all draw ids (revive (draw id) (find_player id w.players) w)

  unfoldable pub restart : (ℕ → HistPos F32) → Option (Player F32) → World F32 → World F32
  restart draw none w = w
  restart draw (some p) w =
      let q = cleared p in
      if p.dead
      then with_player fl w q
      else respawn fl (with_player fl w q) (spawn_point fl mt draw) q

  unfoldable pub restart_all : (ℕ → ℕ → HistPos F32) → List ℕ → World F32 → World F32
  restart_all draw [] w = w
  restart_all draw (id ∷ ids) w =
      restart_all draw ids (restart (draw id) (find_player id w.players) w)

  unfoldable pub start_match : (ℕ → ℕ → HistPos F32) → World F32 → World F32
  start_match draw w =
      let all = restart_all draw (ids_of fl mt w.players) (record w {
        match_phase = match_active;
        match_at = (w.tick + match_duration_ticks) % 2 ^ 32;
        winner = 0;
      }) in
      record all {
        flag_zero = flag_home fl 0;
        flag_one = flag_home fl 1;
        flags_dirty = if all.ctf_mode then true else all.flags_dirty;
      }

  unfoldable pub next_phase : (ℕ → ℕ → HistPos F32) → MatchPhase → World F32 → World F32
  next_phase draw match_active w = end_match w
  next_phase draw match_intermission w = start_match draw w

  unfoldable pub step_match : (ℕ → ℕ → HistPos F32) → World F32 → World F32
  step_match draw w = if ltb w.tick w.match_at then w else next_phase draw w.match_phase w

  abbrev pub fresh : World F32 → World F32
  fresh w = record w { events = []; flags_dirty = false }

  abbrev pub next_tick : World F32 → World F32
  next_tick w = record w { tick = (w.tick + 1) % 2 ^ 32 }

  -- What follows the pickups.
  unfoldable pub finish : (ℕ → ℕ → HistPos F32) → World F32 → World F32
  finish draw w =
      record_history
        (step_match draw (next_tick (step_ctf fl (step_domination fl (step_hill fl w)))))

  unfoldable pub step : Draws F32 → F32 → Sim F32 → Sim F32
  step d dt s =
      let start : World F32 = fresh s.world in
      let ran = run_players (ids_of fl mt start.players) (start, false) in
      let flown = step_projectiles fl mt dt ran.0 in
      let back = revive_all d.respawns (ids_of fl mt flown.players) flown in
      let turn = step_pickups fl back.tick d.kinds 0 pickup_spots s.pickups back.players in
      record {
        world = finish d.restarts (record back { players = turn.players });
        pickups = turn.states;
        pickups_dirty = turn.dirty;
        weapons_dirty = ran.1;
      }
