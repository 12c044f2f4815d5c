-- ===== src/Game/World/Teams.antt =====
-- smallerTeam: the balance of the teams.
use rewind.Prelude.{◌+◌, ◌≤◌, List}
use rewind.Game.World.{World, Player, team_zero, team_other}

module _ {F : Type 0} where
  -- The teams differ by one player at most.
  unfoldable pub IsBalanced : List (Player F) → Type 0
  IsBalanced ps = (team_zero ps ≤ team_other ps + 1) × (team_other ps ≤ team_zero ps + 1)
