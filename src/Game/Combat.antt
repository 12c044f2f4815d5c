-- ===== src/Game/Combat.antt =====
-- combat.go: damage, death and respawn, the history of positions, and what a shot may be rewound by;
-- with the table of weapon.go.
pub mod Hits
pub mod Flight
pub mod Fire
pub mod Covers
pub mod Cells
pub mod Window
pub mod Choice
pub mod Least
pub mod Cap
pub mod Vital
pub mod Same
pub mod Spared
pub mod Kept
pub mod Flights
use rewind.Prelude.{
  ℕ, zero, suc, ◌+◌, ◌-◌, ◌*◌, ◌%◌, ◌^◌, List, [], ◌∷◌, ◌++◌, Bool, true, false, not, ◌&&◌, ◌||◌,
  ◌==◌, leb, if◌then◌else◌, Option, none, some,
}
use rewind.Prelude.Float.{Floats}
use rewind.Prelude.Int.{ℤ, pos, ltb_ℤ}
use rewind.Game.World.{World, Player, MoveState, HistPos, Event, find_player, set_player}
use rewind.Game.Killstreak.{Milestone, record_kill}

abbrev pub respawn_delay_ticks : ℕ
respawn_delay_ticks = 60

abbrev pub history_len : ℕ
history_len = 32

abbrev pub max_rewind_ticks : ℕ
max_rewind_ticks = 10

abbrev pub spawn_invuln_ticks : ℕ
spawn_invuln_ticks = 60

abbrev pub event_hit : ℕ
event_hit = 1

abbrev pub event_death : ℕ
event_death = 2

abbrev pub event_spawn : ℕ
event_spawn = 3

abbrev pub event_killstreak : ℕ
event_killstreak = 4

-- The result is a number of ticks from 0 to max_rewind_ticks, an int32 in Go.
unfoldable pub clamp_rewind : ℤ → ℤ
clamp_rewind d =
    if ltb_ℤ d (pos 0)
    then pos 0
    else if ltb_ℤ (pos max_rewind_ticks) d
    then pos max_rewind_ticks
    else d

module _ {F : Type 0} where
  -- The index is `(w.Tick - uint32(rewind)) & histMask`; a rewind that is not positive reads the
  -- present.
  unfoldable pub target_pos : ℕ → Player F → ℤ → HistPos F
  target_pos tick p (pos zero) = record { x = p.move.x; y = p.move.y }
  target_pos tick p (pos (suc r)) = p.pos_hist ((tick + 2 ^ 32 - suc r) % history_len)
  target_pos tick p (ℤ.negsuc n) = record { x = p.move.x; y = p.move.y }

  unfoldable pub init_history : Player F → Player F
  init_history p = record p { pos_hist = λ _. record { x = p.move.x; y = p.move.y } }

  unfoldable pub record_at : ℕ → Player F → Player F
  record_at slot p = record p {
    pos_hist = λ i. if i == slot then record { x = p.move.x; y = p.move.y } else p.pos_hist i;
  }

  unfoldable pub record_all : ℕ → List (Player F) → List (Player F)
  record_all slot [] = []
  record_all slot (p ∷ ps) = record_at slot p ∷ record_all slot ps

  unfoldable pub record_history : World F → World F
  record_history w = record w { players = record_all (w.tick % history_len) w.players }

module _ (fl : Floats) where
  open fl use {F32, int32}

  abbrev pub combat_event : ℕ → ℕ → ℕ → ℕ → ℕ → ℕ → Event F32
  combat_event kind attacker target damage hp streak = record {
    kind = kind;
    attacker = attacker;
    target = target;
    damage = damage;
    hp = hp;
    x = int32 (pos 0);
    y = int32 (pos 0);
    streak = streak;
  }

  -- A write to one player, and an event after it.
  abbrev pub with_player : World F32 → Player F32 → World F32
  with_player w p = record w { players = set_player p w.players }

  abbrev pub with_event : World F32 → Event F32 → World F32
  with_event w e = record w { events = w.events ++ (e ∷ []) }

  unfoldable pub reward : World F32 → Player F32 × Option Milestone → World F32
  reward w (a, none) = with_player w a
  reward w (a, some m) =
      with_event (with_player w a) (combat_event event_killstreak 0 m.target 0 0 m.streak)

  unfoldable pub credit : World F32 → Option (Player F32) → World F32
  credit w none = w
  credit w (some a) = reward w (record_kill w.tick (record a { kills = (a.kills + 1) % 2 ^ 16 }))

  unfoldable pub fall : ℕ → Player F32 → Player F32
  fall tick v = record v {
    dead = true;
    respawn_at = (tick + respawn_delay_ticks) % 2 ^ 32;
    move = record v.move { vx = int32 (pos 0); vy = int32 (pos 0) };
    deaths = (v.deaths + 1) % 2 ^ 16;
    streak = 0;
  }

  -- From the death of a victim on.
  unfoldable pub kill : World F32 → Player F32 → ℕ → World F32
  kill w v attacker =
      let fallen =
        with_event (with_player w (fall w.tick v)) (combat_event event_death attacker v.id 0 0 0) in
      if attacker == v.id then fallen else credit fallen (find_player attacker fallen.players)

  abbrev pub left_hp : ℕ → ℕ → ℕ
  left_hp hp dmg = if leb hp dmg then 0 else hp - dmg

  -- The victim is given as the map holds it.
  unfoldable pub apply_damage : World F32 → Player F32 → ℕ → ℕ → World F32
  apply_damage w v attacker dmg =
      let hit = record v { hp = left_hp v.hp dmg } in
      let after =
        with_event (with_player w hit) (combat_event event_hit attacker v.id dmg hit.hp 0) in
      if v.hp == 0 then w else if hit.hp == 0 then kill after hit attacker else after

  unfoldable pub reborn : ℕ → MoveState F32 → Player F32 → Player F32
  reborn tick spawn p = init_history (record p {
    move = spawn;
    hp = 100;
    dead = false;
    next_fire_tick = 0;
    rapid_until = 0;
    spread_until = 0;
    invuln_until = (tick + spawn_invuln_ticks) % 2 ^ 32;
  })

  -- The spawn point that was drawn is an argument.
  unfoldable pub respawn : World F32 → MoveState F32 → Player F32 → World F32
  respawn w spawn p = with_event (with_player w (reborn w.tick spawn p)) (record {
    kind = event_spawn;
    attacker = 0;
    target = p.id;
    damage = 0;
    hp = 0;
    x = spawn.x;
    y = spawn.y;
    streak = 0;
  })
