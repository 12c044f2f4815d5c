-- ===== src/Game/Zone.antt =====
-- hill.go and domination.go: the points of a zone of control. The two files hold the same two passes
-- over the players, here once with the two tests of the distance and the counter as arguments.
pub mod Teams
use rewind.Prelude.{
  ℕ, ◌+◌, ◌*◌, ◌%◌, ◌^◌, List, [], ◌∷◌, map, Bool, true, false, not, ◌&&◌, ◌||◌, ◌==◌,
  if◌then◌else◌, zero,
}
use rewind.Prelude.Int.{pos}
use rewind.Prelude.Float.{Floats}
use rewind.Game.World.{World, Player}
use rewind.Game.Ctf.{is_active}

-- `sides`, `anyTeam`, `ffaCount` and `ffaInside`.
pub record Presence : Type 0 where
  pub zero : Bool
  pub one : Bool
  pub any : Bool
  pub count : ℕ
  pub inside : ℕ

abbrev pub nobody : Presence
nobody = record { zero = false; one = false; any = false; count = 0; inside = 0 }

module _ {F : Type 0} where
  unfoldable pub notice : Bool → Player F → Presence → Presence
  notice team_mode p s =
      if team_mode
      then record s {
        zero = s.zero || (p.team % 2 == 0);
        one = s.one || not (p.team % 2 == 0);
        any = true;
      }
      else record s { count = s.count + 1; inside = p.id }

  -- The first pass.
  unfoldable pub look : (Player F → Bool) → Bool → List (Player F) → Presence → Presence
  look far team_mode [] s = s
  look far team_mode (p ∷ ps) s =
      look far team_mode ps (if p.dead || far p then s else notice team_mode p s)

  -- One player in the second pass.
  unfoldable pub award : (Player F → Bool) → (Player F → Player F) → ℕ → Player F → Player F
  award near bump control p =
      if p.dead || not (p.team == control) then p else if near p then bump p else p

  unfoldable pub bump_at : (Player F → Player F) → ℕ → List (Player F) → List (Player F)
  bump_at bump id [] = []
  bump_at bump id (p ∷ ps) = if p.id == id then bump p ∷ ps else p ∷ bump_at bump id ps

  unfoldable pub score_zone :
      (Player F → Bool)
      → (Player F → Bool)
      → (Player F → Player F)
      → Bool
      → List (Player F)
      → List (Player F)
  score_zone far near bump team_mode ps =
      let s = look far team_mode ps nobody in
      if team_mode
      then (if not s.any || (s.zero && s.one)
          then ps
          else map (award near bump (if s.one then 1 else 0)) ps)
      else if s.count == 1
      then bump_at bump s.inside ps
      else ps

  unfoldable pub bump_hill : Player F → Player F
  bump_hill p = record p { hill_score = (p.hill_score + 1) % 2 ^ 16 }

  unfoldable pub bump_dom : Player F → Player F
  bump_dom p = record p { dom_score = (p.dom_score + 1) % 2 ^ 16 }

module _ (fl : Floats) where
  open fl use {F32, int32, add32, sub32, mul32, lt32, le32}

  -- `dx*dx + dy*dy` to the centre of the zone.
  unfoldable pub square_to : F32 → F32 → Player F32 → F32
  square_to x y p =
      let dx = sub32 p.move.x x in let dy = sub32 p.move.y y in add32 (mul32 dx dx) (mul32 dy dy)

  unfoldable pub score_circle :
      ℕ → ℕ → ℕ → (Player F32 → Player F32) → Bool → List (Player F32) → List (Player F32)
  score_circle radius x y bump =
      score_zone
        (λ p. lt32 (int32 (pos (radius * radius))) (square_to (int32 (pos x)) (int32 (pos y)) p))
        (λ p. le32 (square_to (int32 (pos x)) (int32 (pos y)) p) (int32 (pos (radius * radius))))
        bump

  unfoldable pub step_hill : World F32 → World F32
  step_hill w =
      if not w.hill_mode || not (is_active w.match_phase)
      then w
      else record w { players = score_circle 300 2048 2048 bump_hill w.team_mode w.players }

  unfoldable pub step_domination : World F32 → World F32
  step_domination w =
      if not w.dom_mode || not (is_active w.match_phase)
      then w
      else (let a = score_circle 256 1024 1024 bump_dom w.team_mode w.players in
          let b = score_circle 256 3072 1024 bump_dom w.team_mode a in
          record w { players = score_circle 256 2048 3300 bump_dom w.team_mode b })
