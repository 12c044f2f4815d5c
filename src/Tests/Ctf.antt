-- ===== src/Tests/Ctf.antt =====
-- A tick of a flag match and the points of a zone, with the numbers of Tests/Fixed.
use rewind.Prelude.{
  All, map, not, ◌<◌, if◌then◌else◌, ◌%◌, ◌≡◌, [], ◌∷◌, true, false, refl, arith, none, ◌==◌, Bool,
}
use mathlib.Core.Path.{subst}
use mathlib.Core.Option.{some-injective}
use rewind.Prelude.Int.{ltb_ℤ, ℤ, pos}
use rewind.Game.World.{World, Player, FlagDynamics, match_active, new_player, find_player}
use rewind.Game.Ctf.{step_ctf}
use rewind.Game.Ctf.Carriers.{IsHeld, IsRival, step_ctf-IsHeld}
use rewind.Game.Zone.{score_zone, bump_hill}
use rewind.Game.Zone.Teams.{controls, score_zone-controls}
use rewind.Tests.Fixed.{fixed}

-- The carrier of flag 0 is dead; a second player of team 1 stands on the flag of team 0.
abbrev fallen : Player ℤ
fallen =
    record (new_player 1 []
      (record { x = pos 16; y = pos 32; vx = pos 0; vy = pos 0; dash_cd = pos 0; dash_t = pos 0 })
      1) { dead = true }

abbrev runner : Player ℤ
runner =
    new_player 2 []
      (record { x = pos 32; y = pos 32; vx = pos 0; vy = pos 0; dash_cd = pos 0; dash_t = pos 0 }) 1

abbrev carried : FlagDynamics ℤ
carried = record { status = 1; carrier = 1; x = pos 0; y = pos 0; drop_at = 0 }

abbrev at_home : FlagDynamics ℤ
at_home = record { status = 0; carrier = 0; x = pos 57344; y = pos 32768; drop_at = 0 }

abbrev flag_match : World ℤ
flag_match = record {
  tick = 70;
  players = fallen ∷ runner ∷ [];
  next_id = 3;
  projectiles = [];
  match_phase = match_active;
  match_at = 5400;
  winner = 0;
  team_mode = true;
  hill_mode = false;
  dom_mode = false;
  ctf_mode = true;
  flag_zero = carried;
  flag_one = at_home;
  flags_dirty = false;
  events = [];
  recorder = none;
}

fallen-IsRival : IsRival 0 carried flag_match.players
unfolding find_player new_player
fallen-IsRival c p e =
    subst (λ (q : Player ℤ). (q.team % 2 == 0) ≡ false) (some-injective fallen p e) refl

at_home-IsRival : IsRival 1 at_home flag_match.players
at_home-IsRival c = absurd (omega (arith, c))

step_ctf-IsHeld_example :
    IsHeld 0 (step_ctf fixed flag_match).flag_zero (step_ctf fixed flag_match).players
    × IsHeld 1 (step_ctf fixed flag_match).flag_one (step_ctf fixed flag_match).players
step_ctf-IsHeld_example =
    step_ctf-IsHeld fixed flag_match refl refl refl fallen-IsRival at_home-IsRival

abbrev beyond : Player ℤ → Bool
beyond p = ltb_ℤ (pos 1000) p.move.x

abbrev within : Player ℤ → Bool
within p = not (beyond p)

runner-All : All (λ (p : Player ℤ). p.team < 2) (runner ∷ [])
unfolding new_player
runner-All = (omega arith, tt)

players-All : All (λ (p : Player ℤ). p.team < 2) flag_match.players
unfolding new_player
players-All = (omega arith, runner-All)

score_zone-controls_example :
    score_zone beyond within bump_hill true flag_match.players
    ≡ map
        (λ p. if controls beyond within flag_match.players p then bump_hill p else p)
        flag_match.players
score_zone-controls_example =
    score_zone-controls beyond within bump_hill flag_match.players players-All
