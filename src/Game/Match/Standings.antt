-- ===== src/Game/Match/Standings.antt =====
-- MatchState and lessScore: what the lines of the scoreboard say, and the order in which they stand.
use rewind.Prelude.{
  ℕ, ◌≡◌, ◌<◌, ◌≤◌, ◌⊎◌, List, [], ◌∷◌, All, true, false, arith, refl, map, ◌||◌, if◌then◌else◌,
  All-map,
}
use mathlib.Core.List.{Permᴰ}
use rewind.Protocol.Types.{MatchScore}
use rewind.Game.World.{World, Player}
use rewind.Game.Match.{less_score, board, score_row, by_objective}
use rewind.Game.Match.Board.{Ranked, Below, board-sorted}

module _ {F : Type 0} where
  -- The line says who the player is and what he scored. Its last number is the time on the points
  -- of domination in that mode, else the captures in the one of flags, else the time on the hill.
  pub record IsLine (w : World F) (p : Player F) (s : MatchScore) : Type 0 where
    pub id : s.id ≡ p.id
    pub name : s.name ≡ p.name
    pub kills : s.kills ≡ p.kills
    pub deaths : s.deaths ≡ p.deaths
    pub team : s.team ≡ p.team
    pub domination : w.dom_mode ≡ true → s.hill_score ≡ p.dom_score
    pub flags : w.dom_mode ≡ false → w.ctf_mode ≡ true → s.hill_score ≡ p.captures
    pub hill : w.dom_mode ≡ false → w.ctf_mode ≡ false → s.hill_score ≡ p.hill_score

  unfoldable pub Lines : World F → List (Player F) → List MatchScore → Type 0
  Lines w [] [] = Unit
  Lines w [] (s ∷ rows) = ⊥
  Lines w (p ∷ ps) [] = ⊥
  Lines w (p ∷ ps) (s ∷ rows) = IsLine w p s × Lines w ps rows

  -- What a line counts: the score of the objective where the match has one, else the kills.
  abbrev pub points : World F → MatchScore → ℕ
  points w s = if w.hill_mode || w.dom_mode || w.ctf_mode then s.hill_score else s.kills

  -- `s` stands above `t`: it has more points, or as many and no larger id.
  abbrev pub IsAbove : World F → MatchScore → MatchScore → Type 0
  IsAbove w s t = (points w t < points w s) ⊎ ((points w s ≡ points w t) × (s.id ≤ t.id))

  -- Each line stands above all those after it.
  unfoldable pub Standing : World F → List MatchScore → Type 0
  Standing w [] = Unit
  Standing w (s ∷ rest) = All (IsAbove w s) rest × Standing w rest

  score_row-IsLine : (w : World F) (p : Player F) → IsLine w p (score_row w p)
  unfolding score_row
  score_row-IsLine w p = record {
    id = refl;
    name = refl;
    kills = refl;
    deaths = refl;
    team = refl;
    domination = λ d. rw d refl;
    flags = λ d c. rw (d, c) refl;
    hill = λ d c. rw (d, c) refl;
  }

  score_rows-Lines : (w : World F) (ps : List (Player F)) → Lines w ps (map (score_row w) ps)
  unfolding Lines
  score_rows-Lines w [] = tt
  score_rows-Lines w (p ∷ ps) = (score_row-IsLine w p, score_rows-Lines w ps)

  Below-IsAbove : (w : World F) (s t : MatchScore) → Below (by_objective w) t s → IsAbove w s t
  unfolding less_score
  Below-IsAbove w s t h = ground (arith, h)

  Ranked-Standing :
      (w : World F) (rows : List MatchScore) → Ranked (by_objective w) rows → Standing w rows
  unfolding Ranked Standing
  Ranked-Standing w [] v = tt
  Ranked-Standing w (s ∷ rest) (h, v) =
      (All-map (λ t. Below-IsAbove w s t) rest h, Ranked-Standing w rest v)

  -- MatchState lists every player once, by a line with the player's id, name, kills, deaths and
  -- team and the score of the objective: of domination in that mode, else the captures in the mode
  -- of flags, else the score of the hill. Each line has more points than any after it, or as many
  -- and no larger id, where the points are the score of the objective in a match that has one and
  -- the kills in one that has none.
  pub board-Standing :
      (w : World F)
      → (rows : List MatchScore) × Lines w w.players rows
        × Permᴰ (board w) rows
        × Standing w (board w)
  board-Standing w =
      let sorted : Permᴰ (board w) (map (score_row w) w.players)
          × Ranked (by_objective w) (board w) =
        board-sorted w in
      (
        map (score_row w) w.players,
        score_rows-Lines w w.players,
        sorted.0,
        Ranked-Standing w (board w) sorted.1,
      )
