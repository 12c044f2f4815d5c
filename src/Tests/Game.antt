-- ===== src/Tests/Game.antt =====
-- The world's, the match's and the replay log's theorems at concrete values, and some runs.
use rewind.Prelude.{List, ◌+◌, ◌/◌, ℕ, ◌≡◌, ◌≢◌, [], ◌∷◌, All, true, false, refl, arith, some}
use rewind.Prelude.Result.{ok, panic}
use rewind.Protocol.Types.{Input}
use rewind.Protocol.Client.RoundTrip.{InputInRange}
use rewind.Game.Replay.{ReplayLog, joined, left, entered, encode, decode_replay, log_join}
use rewind.Game.Replay.RoundTrip.{
  IsRecorded, decode-encode, LogIsValid, join_recorded, leave_recorded, input_recorded,
}
use rewind.Game.Replay.Safety.{decode_replay-ne-panic}
use rewind.Game.World.{
  FlagDynamics, World, Player, MoveState, match_active, new_player, alloc_id, id_taken, add_player,
  scan_ids, has_player, has_projectile, next_after, smaller_team, enqueue_input, team_zero,
  remove_player, team_other, insert_player, record_with,
}
use rewind.Game.World.Ids.{IsFree, alloc_id-Finds}
use rewind.Game.World.Order.{IsValid, IsAscending, Steps-IsValid, next, joins, leaves, sends, done}
use rewind.Game.World.Inputs.{QueueIsValid, IsRising, enqueue_input-QueueIsValid}
use rewind.Game.Match.{
  leader, board, end_match, score_row, sort_scores, sort_from, sift_up, less_score, reversed,
}
use rewind.Protocol.Types.{MatchScore}
use rewind.Game.Match.Standings.{Lines, Standing, board-Standing}
use mathlib.Core.List.{Permᴰ}
use rewind.Game.Killstreak.Milestones.{milestones, milestones-third, Rewarded, after_kills}
use rewind.Game.Killstreak.{record_kill}
use rewind.Game.Match.Leader.{leader_by-Leads, Leads}
use rewind.Game.Match.Winner.{end_match-first}

abbrev jump : Input
jump = record { seq = 7; buttons = 3; aim = 300; view_tick = 5; ack_tick = 4; actions = 1 }

abbrev session : ReplayLog
session = record {
  seed = 18446744073709551615;
  tick_rate = 30;
  team_mode = true;
  hill_mode = false;
  dom_mode = false;
  ctf_mode = true;
  ticks = 90;
  events = joined 0 (0x61 ∷ []) ∷ entered 3 1 jump ∷ left 80 1 ∷ [];
}

jump-InputInRange : InputInRange jump
jump-InputInRange = omega arith

left-IsRecorded : All IsRecorded (left 80 1 ∷ [])
left-IsRecorded = (leave_recorded 80 1 (omega arith) (omega arith), tt)

entered-IsRecorded : All IsRecorded (entered 3 1 jump ∷ left 80 1 ∷ [])
entered-IsRecorded =
    (input_recorded 3 1 jump (omega arith) (omega arith) jump-InputInRange, left-IsRecorded)

session-IsRecorded : All IsRecorded session.events
session-IsRecorded = (join_recorded 0 (0x61 ∷ []) (omega arith) (omega arith), entered-IsRecorded)

session-IsValid : LogIsValid session
session-IsValid = record {
  seed = omega arith;
  tick_rate = omega arith;
  positive = λ h. omega (arith, h);
  ticks = omega arith;
  count = omega arith;
  events = session-IsRecorded;
}

decode-encode_example : decode_replay (encode session) ≡ ok session
decode-encode_example = decode-encode session session-IsValid

decode_replay-ne-panic_example : decode_replay (0x41 ∷ 0x52 ∷ []) ≢ panic
decode_replay-ne-panic_example = decode_replay-ne-panic (0x41 ∷ 0x52 ∷ [])

abbrev here : MoveState ℕ
here = record { x = 1; y = 2; vx = 0; vy = 0; dash_cd = 0; dash_t = 0 }

abbrev alice : Player ℕ
alice = record (new_player 1 (0x61 ∷ []) here 0) { kills = 2; hill_score = 1 }

abbrev bob : Player ℕ
bob = record (new_player 3 (0x62 ∷ []) here 1) { kills = 5; hill_score = 1 }

abbrev idle_flag : FlagDynamics ℕ
idle_flag = record { status = 0; carrier = 0; x = 0; y = 0; drop_at = 0 }

abbrev two_players : World ℕ
two_players = record {
  tick = 9;
  players = alice ∷ bob ∷ [];
  next_id = 3;
  projectiles = [];
  match_phase = match_active;
  match_at = 5400;
  winner = 0;
  team_mode = false;
  hill_mode = false;
  dom_mode = false;
  ctf_mode = false;
  flag_zero = idle_flag;
  flag_one = idle_flag;
  flags_dirty = false;
  events = [];
  recorder = some session;
}

bob-IsAscending : IsAscending 1 (bob ∷ [])
unfolding IsAscending new_player
bob-IsAscending = (omega arith, omega arith, tt)

two_players-IsAscending : IsAscending 0 two_players.players
unfolding IsAscending new_player
two_players-IsAscending = (omega arith, omega arith, bob-IsAscending)

two_players-IsValid : IsValid two_players
two_players-IsValid = record {
  order = two_players-IsAscending;
  next_positive = λ h. omega (arith, h);
  next_fits = omega arith;
}

four-IsFree : IsFree two_players 4
unfolding id_taken has_player has_projectile new_player
four-IsFree = record { positive = λ h. omega (arith, h); fits = omega arith; free = refl }

alloc_id-Finds_example : (r : ℕ × ℕ) × (alloc_id two_players ≡ ok r)
alloc_id-Finds_example =
    alloc_id-Finds two_players 4 two_players-IsValid.next_positive (omega arith) four-IsFree

leader_by-Leads_example : Leads (λ p. p.kills) two_players.players (leader two_players)
leader_by-Leads_example = leader_by-Leads (λ p. p.kills) two_players two_players-IsValid (λ h. cc)

board_run : board two_players ≡ score_row two_players bob ∷ score_row two_players alice ∷ []
unfolding board sort_scores sort_from sift_up less_score reversed score_row new_player
board_run = refl

end_match-first_example : (end_match two_players).winner ≡ 3
unfolding score_row new_player
end_match-first_example =
    end_match-first two_players (score_row two_players bob) (score_row two_players alice ∷ [])
      two_players-IsValid refl refl refl board_run

abbrev carol : Player ℕ
carol = new_player 4 (0x63 ∷ []) here 0

abbrev three_players : World ℕ
three_players = record two_players {
  team_mode = true;
  next_id = 5;
  players = alice ∷ bob ∷ carol ∷ [];
  recorder = some (log_join session 9 (0x63 ∷ []));
}

abbrev two_teams : World ℕ
two_teams = record two_players { team_mode = true }

add_player_run : add_player two_teams (0x63 ∷ []) here ≡ ok (carol, three_players)
unfolding add_player alloc_id scan_ids id_taken has_player has_projectile next_after new_player
    smaller_team team_zero team_other insert_player record_with
add_player_run = refl

two_teams-IsValid : IsValid two_teams
two_teams-IsValid = record {
  order = two_players-IsAscending;
  next_positive = λ h. omega (arith, h);
  next_fits = omega arith;
}

Steps-IsValid_example : IsValid (enqueue_input (remove_player three_players 1) 4 jump)
Steps-IsValid_example =
    Steps-IsValid
      (next (joins (0x63 ∷ []) here add_player_run) (next (leaves 1) (next (sends 4 jump) done)))
      two_teams-IsValid

bob-QueueIsValid : All QueueIsValid (bob ∷ [])
unfolding new_player IsRising
bob-QueueIsValid = (record { fresh = λ _. refl; rising = tt }, tt)

two_players-QueueIsValid : All QueueIsValid two_players.players
unfolding new_player IsRising
two_players-QueueIsValid = (record { fresh = λ _. refl; rising = tt }, bob-QueueIsValid)

enqueue_input-QueueIsValid_example : All QueueIsValid (enqueue_input two_players 3 jump).players
enqueue_input-QueueIsValid_example =
    enqueue_input-QueueIsValid two_players 3 jump two_players-QueueIsValid

board-Standing_example :
    (rows : List MatchScore) × Lines two_players two_players.players rows
    × Permᴰ (board two_players) rows
    × Standing two_players (board two_players)
board-Standing_example = board-Standing two_players

abbrev on_a_streak : Player ℕ
on_a_streak = record alice { streak = 2 }

abbrev kill_ticks : List ℕ
kill_ticks = 5 ∷ 9 ∷ 9 ∷ 30 ∷ []

milestones-third_example :
    (2 / 3 + milestones kill_ticks on_a_streak ≡ 6 / 3)
    × Rewarded 7 31
        (after_kills kill_ticks on_a_streak)
        (record_kill 31 (after_kills kill_ticks on_a_streak))
milestones-third_example = milestones-third kill_ticks 31 on_a_streak (omega arith)
