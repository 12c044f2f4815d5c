-- ===== src/Game/Match/Board.antt =====
-- MatchState: the insertion sort ranks the lines, and the first line is the winner.
use rewind.Prelude.{
  map, ◌≡◌, List, [], ◌∷◌, ◌++◌, All, Bool, true, false, arith, Bool-cases, inl, inr, refl, All-map,
  All-pair, All-pure,
}
use mathlib.Core.List.{Permᴰ}
use mathlib.Core.List.Permᴰ
use rewind.Protocol.Types.{MatchScore}
use rewind.Game.World.{World}
use rewind.Game.Match.{
  less_score, sift_up, sort_from, sort_scores, reversed, board, score_row, by_objective,
}

module _ (mode : Bool) where
  -- `s` does not beat `t`.
  abbrev pub Below : MatchScore → MatchScore → Type 0
  Below s t = less_score mode s t ≡ false

  -- Each line is at least as good as those after it.
  unfoldable pub Ranked : List MatchScore → Type 0
  Ranked [] = Unit
  Ranked (s ∷ rest) = All (λ (t : MatchScore). Below t s) rest × Ranked rest

  -- The same of a list that starts with the last line.
  Falling : List MatchScore → Type 0
  Falling [] = Unit
  Falling (s ∷ rest) = All (Below s) rest × Falling rest

  Below-trans : (s t u : MatchScore) → Below s t → Below t u → Below s u
  unfolding less_score
  Below-trans s t u h k = ground (arith, h, k)

  Below-of_beaten : (s t : MatchScore) → less_score mode s t ≡ true → Below t s
  unfolding less_score
  Below-of_beaten s t h = ground (arith, h)

  sift_up-All :
      (P : MatchScore → Type 0) (s : MatchScore) (ts : List MatchScore)
      → P s
      → All P ts
      → All P (sift_up mode s ts)
  unfolding sift_up
  sift_up-All P s [] h v = (h, v)
  sift_up-All P s (t ∷ ts) h (k, v) = elim (Bool-cases (less_score mode s t)) [
    | inl e ↦ rw e (k, sift_up-All P s ts h v)
    | inr e ↦ let rest : All P (t ∷ ts) = (k, v) in rw e (h, rest)
  ]

  sift_up-Falling :
      (s : MatchScore) (ts : List MatchScore) → Falling ts → Falling (sift_up mode s ts)
  unfolding sift_up Falling
  sift_up-Falling s [] v = (tt, tt)
  sift_up-Falling s (t ∷ ts) (k, v) = elim (Bool-cases (less_score mode s t)) [
    | inl e ↦ rw e (sift_up-All (Below t) s ts (Below-of_beaten s t e) k, sift_up-Falling s ts v)
    | inr e ↦
        let first : All (Below s) (t ∷ ts) = (e, All-map (λ u. Below-trans s t u e) ts k) in
        let rest : Falling (t ∷ ts) = (k, v) in rw e (first, rest)
  ]

  sort_from-Falling :
      (done rows : List MatchScore) → Falling done → Falling (sort_from mode done rows)
  unfolding sort_from
  sort_from-Falling done [] v = v
  sort_from-Falling done (s ∷ rest) v =
      sort_from-Falling (sift_up mode s done) rest (sift_up-Falling s done v)

  reversed-Ranked :
      (xs acc : List MatchScore)
      → Falling xs
      → All (λ (x : MatchScore). All (λ (a : MatchScore). Below a x) acc) xs
      → Ranked acc
      → Ranked (reversed xs acc)
  unfolding reversed Falling Ranked
  reversed-Ranked [] acc v h r = r
  reversed-Ranked (x ∷ xs) acc (k, v) (h, hs) r =
      reversed-Ranked xs (x ∷ acc) v
        (All-pair (Below x) (λ (y : MatchScore). All (λ (a : MatchScore). Below a y) acc) xs k hs)
        (h, r)

  sift_up-Perm : (s : MatchScore) (ts : List MatchScore) → Permᴰ (sift_up mode s ts) (s ∷ ts)
  unfolding sift_up
  sift_up-Perm s [] = Permᴰ.refl _
  sift_up-Perm s (t ∷ ts) = elim (Bool-cases (less_score mode s t)) [
    | inl e ↦ rw e (Permᴰ.trans (Permᴰ.cons refl (sift_up-Perm s ts)) (Permᴰ.swap refl refl))
    | inr e ↦ rw e (Permᴰ.refl _)
  ]

  sort_from-Perm : (done rows : List MatchScore) → Permᴰ (sort_from mode done rows) (rows ++ done)
  unfolding sort_from
  sort_from-Perm done [] = Permᴰ.refl _
  sort_from-Perm done (s ∷ rest) =
      Permᴰ.trans (sort_from-Perm (sift_up mode s done) rest)
        (Permᴰ.trans (Permᴰ.append_left rest (sift_up-Perm s done)) (Permᴰ.middle s rest done))

reversed-Perm : (xs acc : List MatchScore) → Permᴰ (reversed xs acc) (xs ++ acc)
unfolding reversed
reversed-Perm [] acc = Permᴰ.refl _
reversed-Perm (x ∷ xs) acc = Permᴰ.trans (reversed-Perm xs (x ∷ acc)) (Permᴰ.middle x xs acc)

sort_scores-Ranked : (mode : Bool) (rows : List MatchScore) → Ranked mode (sort_scores mode rows)
unfolding sort_scores Falling Ranked
sort_scores-Ranked mode rows =
    reversed-Ranked mode _ [] (sort_from-Falling mode [] rows tt) (All-pure (λ _. tt) _) tt

sort_scores-Perm : (mode : Bool) (rows : List MatchScore) → Permᴰ (sort_scores mode rows) rows
unfolding sort_scores
sort_scores-Perm mode rows = Permᴰ.trans (reversed-Perm (sort_from mode [] rows) []) (
    Permᴰ.trans (Permᴰ.append-nil _)
      (Permᴰ.trans (sort_from-Perm mode [] rows) (Permᴰ.append-nil rows)))

module _ {F : Type 0} where
  -- The board holds the lines of the players, none of which beats one that stands above it.
  pub board-sorted :
      (w : World F)
      → Permᴰ (board w) (map (score_row w) w.players) × Ranked (by_objective w) (board w)
  unfolding board
  board-sorted w = (
    sort_scores-Perm (by_objective w) (map (score_row w) w.players),
    sort_scores-Ranked (by_objective w) (map (score_row w) w.players),
  )
