-- ===== src/Game/Match.antt =====
-- match.go, with the leaders and winning teams of hill.go, domination.go and ctf.go: who wins a
-- match, its phases, and the scoreboard. The kills of a team are `int` in the source and cannot
-- overflow: a room has at most 65535 players with 16-bit scores.
pub mod Leader
pub mod Board
pub mod Standings
pub mod Winner
use rewind.Prelude.{
  ℕ, zero, suc, ◌+◌, ◌-◌, ◌%◌, ◌^◌, List, [], ◌∷◌, ◌++◌, map, Bool, true, false, not, ◌&&◌, ◌||◌,
  ◌==◌, ltb, if◌then◌else◌,
}
use rewind.Prelude.Int.{ℤ, pos, negsuc, ltb_ℤ}
use rewind.Protocol.Types.{MatchScore}
use rewind.Game.World.{World, Player, MatchPhase, match_active, match_intermission}

abbrev pub match_duration_ticks : ℕ
match_duration_ticks = 5400

abbrev pub intermission_ticks : ℕ
intermission_ticks = 300

abbrev pub main_score : Bool → MatchScore → ℕ
main_score by_objective s = if by_objective then s.hill_score else s.kills

unfoldable pub less_score : Bool → MatchScore → MatchScore → Bool
less_score by_objective a b =
    if main_score by_objective a == main_score by_objective b
    then ltb a.id b.id
    else ltb (main_score by_objective b) (main_score by_objective a)

-- The inner loop: the new line moves up, past each line that it beats. The lines sorted so far
-- are listed from the last one.
unfoldable pub sift_up : Bool → MatchScore → List MatchScore → List MatchScore
sift_up by_objective s [] = s ∷ []
sift_up by_objective s (t ∷ ts) =
    if less_score by_objective s t then t ∷ sift_up by_objective s ts else s ∷ t ∷ ts

unfoldable pub sort_from : Bool → List MatchScore → List MatchScore → List MatchScore
sort_from by_objective done [] = done
sort_from by_objective done (s ∷ rest) = sort_from by_objective (sift_up by_objective s done) rest

unfoldable pub reversed : List MatchScore → List MatchScore → List MatchScore
reversed [] done = done
reversed (s ∷ rest) done = reversed rest (s ∷ done)

unfoldable pub sort_scores : Bool → List MatchScore → List MatchScore
sort_scores by_objective rows = reversed (sort_from by_objective [] rows) []

module _ {F : Type 0} where
  -- The loop of leader, hillLeader and domLeader, which differ in the score they read.
  unfoldable pub leader_from : (Player F → ℕ) → ℕ → ℤ → List (Player F) → ℕ
  leader_from score best best_score [] = best
  leader_from score best best_score (p ∷ ps) =
      if ltb_ℤ best_score (pos (score p))
      then leader_from score p.id (pos (score p)) ps
      else leader_from score best best_score ps

  unfoldable pub leader_by : (Player F → ℕ) → World F → ℕ
  leader_by score w = leader_from score 0 (negsuc 0) w.players

  -- The two sums of winningTeam, hillWinningTeam, domWinningTeam and ctfWinningTeam.
  unfoldable pub team_sum : (Player F → ℕ) → ℕ → List (Player F) → ℕ
  team_sum score team [] = 0
  team_sum score team (p ∷ ps) =
      if p.team % 2 == team then score p + team_sum score team ps else team_sum score team ps

  unfoldable pub winning_team : (Player F → ℕ) → World F → ℕ
  winning_team score w =
      if ltb (team_sum score 0 w.players) (team_sum score 1 w.players) then 1 else 0

  abbrev pub leader : World F → ℕ
  leader = leader_by (λ p. p.kills)

  abbrev pub hill_leader : World F → ℕ
  hill_leader = leader_by (λ p. p.hill_score)

  abbrev pub dom_leader : World F → ℕ
  dom_leader = leader_by (λ p. p.dom_score)

  abbrev pub kills_winning_team : World F → ℕ
  kills_winning_team = winning_team (λ p. p.kills)

  abbrev pub hill_winning_team : World F → ℕ
  hill_winning_team = winning_team (λ p. p.hill_score)

  abbrev pub dom_winning_team : World F → ℕ
  dom_winning_team = winning_team (λ p. p.dom_score)

  abbrev pub ctf_winning_team : World F → ℕ
  ctf_winning_team = winning_team (λ p. p.captures)

  -- The switch of endMatch.
  unfoldable pub match_winner : World F → ℕ
  match_winner w =
      if w.hill_mode && w.team_mode
      then hill_winning_team w
      else if w.hill_mode
      then hill_leader w
      else if w.dom_mode && w.team_mode
      then dom_winning_team w
      else if w.dom_mode
      then dom_leader w
      else if w.ctf_mode
      then ctf_winning_team w
      else if w.team_mode
      then kills_winning_team w
      else leader w

  unfoldable pub end_match : World F → World F
  end_match w = record w {
    match_phase = match_intermission;
    match_at = (w.tick + intermission_ticks) % 2 ^ 32;
    winner = match_winner w;
  }

  -- A line of the scoreboard, with the score of the active objective in `hill_score`.
  unfoldable pub score_row : World F → Player F → MatchScore
  score_row w p = record {
    id = p.id;
    kills = p.kills;
    deaths = p.deaths;
    team = p.team;
    hill_score =
        if w.dom_mode then p.dom_score else if w.ctf_mode then p.captures else p.hill_score;
    name = p.name;
  }

  abbrev pub by_objective : World F → Bool
  by_objective w = w.hill_mode || (w.dom_mode || w.ctf_mode)

  unfoldable pub board : World F → List MatchScore
  board w = sort_scores (by_objective w) (map (score_row w) w.players)

  abbrev pub remaining : World F → ℕ
  remaining w = w.match_at - w.tick
