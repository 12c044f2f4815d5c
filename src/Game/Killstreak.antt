-- ===== src/Game/Killstreak.antt =====
-- killstreak.go: the reward of a series of kills.
pub mod Milestones
use rewind.Prelude.{ℕ, ◌+◌, ◌%◌, ◌^◌, Bool, ◌==◌, ltb, if◌then◌else◌, Option, none, some}
use rewind.Game.World.{Player}

abbrev pub killstreak_step : ℕ
killstreak_step = 3

abbrev pub killstreak_invuln_ticks : ℕ
killstreak_invuln_ticks = 45

-- Who reached a milestone, and the length of the series.
pub record Milestone : Type 0 where
  pub target : ℕ
  pub streak : ℕ

module _ {F : Type 0} where
  unfoldable pub invulnerable : Player F → ℕ → Bool
  invulnerable p tick = ltb tick p.invuln_until

  -- The attacker afterwards, and the event if there is one.
  unfoldable pub record_kill : ℕ → Player F → Player F × Option Milestone
  record_kill tick p =
      let n = (p.streak + 1) % 2 ^ 16 in
      if n % killstreak_step == 0
      then (
        record p { streak = n; hp = 100; invuln_until = (tick + killstreak_invuln_ticks) % 2 ^ 32 },
        some (record { target = p.id; streak = n }),
      )
      else (record p { streak = n }, none)
