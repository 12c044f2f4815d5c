-- ===== src/Game/World.antt =====
-- world.go: the state of a room's world, its players' ids, joining, leaving and queueing inputs. The
-- Go map `players` and the slice `order` are one list here, the players with ascending ids: `order`
-- holds the ids of the map's keys in that order, and AddPlayer and RemovePlayer change both alike.
-- A draw of a spawn point is an argument. The pickups stand beside the world in Game/Tick, and the
-- grid of hits is built where a tick needs it; the generator and the counters against cheating are
-- left out.
pub mod Ids
pub mod Order
pub mod Inputs
pub mod Teams
use rewind.Prelude.{
  ℕ, zero, suc, ◌+◌, ◌%◌, ◌^◌, List, [], ◌∷◌, ◌++◌, Bool, true, false, not, ◌&&◌, ◌||◌, ◌==◌, ltb,
  leb, if◌then◌else◌, length, Option, none, some,
}
use rewind.Prelude.Int.{ℤ}
use rewind.Prelude.Result.{Result, ok, err, ◌>>=◌, ◌>>◌, fail_if}
use rewind.Protocol.Types.{Input}
use rewind.Game.Replay.{ReplayLog, log_join, log_leave, log_input}

pub data WorldError : Type 0 where
  world_full : WorldError

pub data MatchPhase : Type 0 where
  match_active match_intermission : MatchPhase

abbrev pub weapon_pistol : ℕ
weapon_pistol = 1

-- The six numbers of systems.go.
pub record MoveState (F : Type 0) : Type 0 where
  pub x : F
  pub y : F
  pub vx : F
  pub vy : F
  pub dash_cd : F
  pub dash_t : F

-- A position of combat.go's history.
pub record HistPos (F : Type 0) : Type 0 where
  pub x : F
  pub y : F

pub record Player (F : Type 0) : Type 0 where
  pub id : ℕ
  pub name : List ℕ
  pub account_id : ℤ
  pub move : MoveState F
  pub hp : ℕ
  pub team : ℕ
  pub last_processed_seq : ℕ
  pub inputs : List Input
  pub last_queued_seq : ℕ
  pub has_queued : Bool
  pub dead : Bool
  pub respawn_at : ℕ
  pub next_fire_tick : ℕ
  pub rapid_until : ℕ
  pub spread_until : ℕ
  pub invuln_until : ℕ
  -- The array of historyLen positions, by index.
  pub pos_hist : ℕ → HistPos F
  pub streak : ℕ
  pub weapon : ℕ
  pub kills : ℕ
  pub deaths : ℕ
  pub hill_score : ℕ
  pub dom_score : ℕ
  pub captures : ℕ

pub record Projectile (F : Type 0) : Type 0 where
  pub id : ℕ
  pub owner : ℕ
  pub x : F
  pub y : F
  pub vx : F
  pub vy : F
  pub life : ℤ
  pub rewound : ℤ
  pub team : ℕ
  pub weapon : ℕ

-- The dynamics of one flag of ctf.go.
pub record FlagDynamics (F : Type 0) : Type 0 where
  pub status : ℕ
  pub carrier : ℕ
  pub x : F
  pub y : F
  pub drop_at : ℕ

-- The reliable events of combat.go: hit, death, spawn, killstreak and capture are 1 to 5.
pub record Event (F : Type 0) : Type 0 where
  pub kind : ℕ
  pub attacker : ℕ
  pub target : ℕ
  pub damage : ℕ
  pub hp : ℕ
  pub x : F
  pub y : F
  pub streak : ℕ

pub record World (F : Type 0) : Type 0 where
  pub tick : ℕ
  pub players : List (Player F)
  pub next_id : ℕ
  pub projectiles : List (Projectile F)
  pub match_phase : MatchPhase
  pub match_at : ℕ
  pub winner : ℕ
  pub team_mode : Bool
  pub hill_mode : Bool
  pub dom_mode : Bool
  pub ctf_mode : Bool
  pub flag_zero : FlagDynamics F
  pub flag_one : FlagDynamics F
  pub flags_dirty : Bool
  pub events : List (Event F)
  pub recorder : Option ReplayLog

-- `w.nextID++` with its wrap-around, and the step over 0.
unfoldable pub next_after : ℕ → ℕ
next_after id = if (id + 1) % 2 ^ 16 == 0 then 1 else (id + 1) % 2 ^ 16

unfoldable pub record_with : (ReplayLog → ReplayLog) → Option ReplayLog → Option ReplayLog
record_with f none = none
record_with f (some l) = some (f l)

module _ {F : Type 0} where
  unfoldable pub has_player : ℕ → List (Player F) → Bool
  has_player id [] = false
  has_player id (p ∷ ps) = (p.id == id) || has_player id ps

  unfoldable pub has_projectile : ℕ → List (Projectile F) → Bool
  has_projectile id [] = false
  has_projectile id (q ∷ qs) = (q.id == id) || has_projectile id qs

  unfoldable pub id_taken : World F → ℕ → Bool
  id_taken w id = has_player id w.players || has_projectile id w.projectiles

  abbrev pub is_usable : World F → ℕ → Bool
  is_usable w id = not (id == 0) && not (id_taken w id)

  -- The loop: at most the given number of rounds.
  unfoldable pub scan_ids : World F → ℕ → ℕ → Result WorldError (ℕ × ℕ)
  scan_ids w zero id = err world_full
  scan_ids w (suc n) id =
      let rest = scan_ids w n (next_after id) in
      if is_usable w id then ok (id, next_after id) else rest

  -- The id and the world's new `nextID`; a scan that fails has come round to where it started.
  unfoldable pub alloc_id : World F → Result WorldError (ℕ × ℕ)
  alloc_id w = scan_ids w 65535 w.next_id

  unfoldable pub team_zero : List (Player F) → ℕ
  team_zero [] = 0
  team_zero (p ∷ ps) = if p.team == 0 then suc (team_zero ps) else team_zero ps

  unfoldable pub team_other : List (Player F) → ℕ
  team_other [] = 0
  team_other (p ∷ ps) = if p.team == 0 then team_other ps else suc (team_other ps)

  unfoldable pub smaller_team : World F → ℕ
  smaller_team w = if ltb (team_other w.players) (team_zero w.players) then 1 else 0

  -- BinarySearch and Insert on `order`: before the first player whose id is not smaller.
  unfoldable pub insert_player : Player F → List (Player F) → List (Player F)
  insert_player p [] = p ∷ []
  insert_player p (q ∷ qs) = if ltb q.id p.id then q ∷ insert_player p qs else p ∷ q ∷ qs

  unfoldable pub new_player : ℕ → List ℕ → MoveState F → ℕ → Player F
  new_player id name spawn team = record {
    id = id;
    name = name;
    account_id = ℤ.pos 0;
    move = spawn;
    hp = 100;
    team = team;
    last_processed_seq = 0;
    inputs = [];
    last_queued_seq = 0;
    has_queued = false;
    dead = false;
    respawn_at = 0;
    next_fire_tick = 0;
    rapid_until = 0;
    spread_until = 0;
    invuln_until = 0;
    pos_hist = λ _. record { x = spawn.x; y = spawn.y };
    streak = 0;
    weapon = weapon_pistol;
    kills = 0;
    deaths = 0;
    hill_score = 0;
    dom_score = 0;
    captures = 0;
  }

  unfoldable pub add_player :
      World F → List ℕ → MoveState F → Result WorldError (Player F × World F)
  add_player w name spawn = do
    (id, next) ← alloc_id w
    let p = new_player id name spawn (if w.team_mode then smaller_team w else 0)
    ok (
      p,
      record w {
        next_id = next;
        players = insert_player p w.players;
        recorder = record_with (λ l. log_join l w.tick name) w.recorder;
      },
    )

  unfoldable pub delete_player : ℕ → List (Player F) → List (Player F)
  delete_player id [] = []
  delete_player id (p ∷ ps) = if p.id == id then ps else p ∷ delete_player id ps

  unfoldable pub remove_player : World F → ℕ → World F
  remove_player w id = if not (has_player id w.players) then w else record w {
    players = delete_player id w.players;
    recorder = record_with (λ l. log_leave l w.tick id) w.recorder;
  }

  -- A repeated or late input changes nothing.
  unfoldable pub is_stale : Player F → Input → Bool
  is_stale p i = p.has_queued && leb i.seq p.last_queued_seq

  unfoldable pub queue_input : Player F → Input → Player F
  queue_input p i = record p {
    inputs = p.inputs ++ (i ∷ []);
    last_queued_seq = i.seq;
    has_queued = true;
  }

  unfoldable pub find_player : ℕ → List (Player F) → Option (Player F)
  find_player id [] = none
  find_player id (p ∷ ps) = if p.id == id then some p else find_player id ps

  -- A write through the pointer that the map holds.
  unfoldable pub set_player : Player F → List (Player F) → List (Player F)
  set_player p [] = []
  set_player p (q ∷ qs) = if q.id == p.id then p ∷ qs else q ∷ set_player p qs

  unfoldable pub enqueue_at : World F → ℕ → Input → Option (Player F) → World F
  enqueue_at w id i none = w
  enqueue_at w id i (some p) = if is_stale p i then w else record w {
    players = set_player (queue_input p i) w.players;
    recorder = record_with (λ l. log_input l w.tick id i) w.recorder;
  }

  unfoldable pub enqueue_input : World F → ℕ → Input → World F
  enqueue_input w id i = enqueue_at w id i (find_player id w.players)
