-- ===== src/Game/Match/Winner.antt =====
-- endMatch and MatchState agree: who wins a match without teams stands at the top of the board.
use rewind.Prelude.{
  ℕ, ◌≡◌, List, [], ◌∷◌, map, All, Bool, false, arith, sym, refl, ◌∙◌, ap, ◌&&◌, inl, inr,
  Bool-cases,
}
use mathlib.Core.Path.{subst}
use mathlib.Core.List.{Memᴰ, Permᴰ}
use mathlib.Core.List.Memᴰ
use mathlib.Core.List.Permᴰ
use rewind.Protocol.Types.{MatchScore}
use rewind.Game.World.{World, Player}
use rewind.Game.World.Order.{IsValid}
use rewind.Game.Match.{
  less_score, main_score, board, by_objective, score_row, leader_by, match_winner, end_match,
}
use rewind.Game.Match.Leader.{leader_by-Leads, Leads, Behind}
use rewind.Game.Match.Board.{Ranked, Below, board-sorted}

module _ {A : Type 0} where
  perm_member : {a : A} {xs ys : List A} → Permᴰ xs ys → Memᴰ a xs → Memᴰ a ys
  perm_member Permᴰ.nil m = m
  perm_member (Permᴰ.cons e d) (Memᴰ.head k) = Memᴰ.head (k ∙ e)
  perm_member (Permᴰ.cons e d) (Memᴰ.tail m) = Memᴰ.tail (perm_member d m)
  perm_member (Permᴰ.swap e k) (Memᴰ.head h) = Memᴰ.tail (Memᴰ.head (h ∙ e))
  perm_member (Permᴰ.swap e k) (Memᴰ.tail (Memᴰ.head h)) = Memᴰ.head (h ∙ k)
  perm_member (Permᴰ.swap e k) (Memᴰ.tail (Memᴰ.tail m)) = Memᴰ.tail (Memᴰ.tail m)
  perm_member (Permᴰ.trans c d) m = perm_member d (perm_member c m)

  All-at : (P : A → Type 0) {a : A} (xs : List A) → All P xs → Memᴰ a xs → P a
  All-at P [] v m = absurd (Memᴰ.not-nil m)
  All-at P (x ∷ xs) (h, v) (Memᴰ.head e) = subst P (sym e) h
  All-at P (x ∷ xs) (h, v) (Memᴰ.tail m) = All-at P xs v m

Below-self : (mode : Bool) (s : MatchScore) → Below mode s s
unfolding less_score
Below-self mode s = ground arith

Below-member :
    (mode : Bool) (s t : MatchScore) (rest : List MatchScore)
    → Ranked mode (s ∷ rest)
    → Memᴰ t (s ∷ rest)
    → Below mode t s
unfolding Ranked
Below-member mode s t rest (h, _) (Memᴰ.head e) =
    subst (λ (u : MatchScore). Below mode u s) (sym e) (Below-self mode s)
Below-member mode s t rest (h, _) (Memᴰ.tail m) =
    All-at (λ (u : MatchScore). Below mode u s) rest h m

module _ {F : Type 0} where
  -- The score by which MatchState ranks a player.
  abbrev pub ranked_score : World F → Player F → ℕ
  ranked_score w p = main_score (by_objective w) (score_row w p)

  first_id :
      (w : World F) (p q : Player F)
      → Below (by_objective w) (score_row w p) (score_row w q)
      → Behind (ranked_score w) p q
      → q.id ≡ p.id
  unfolding less_score score_row
  first_id w p q h b = ground (arith, h, b)

  -- The line at the top of the board is the leader's.
  board-first :
      (w : World F) (s : MatchScore) (rest : List MatchScore)
      → IsValid w
      → board w ≡ s ∷ rest
      → s.id ≡ leader_by (ranked_score w) w
  unfolding score_row leader_by
  board-first w s rest v e =
      let r : Permᴰ (board w) (map (score_row w) w.players) × Ranked (by_objective w) (board w) =
        board-sorted w in
      let top : Memᴰ s (map (score_row w) w.players) = perm_member r.0 (rw e (Memᴰ.head refl)) in
      let p : (p : Player F) × Memᴰ p w.players × (score_row w p ≡ s) =
        Memᴰ.of_map (score_row w) w.players top in
      let l : Leads (ranked_score w) w.players (leader_by (ranked_score w) w) =
        leader_by-Leads (ranked_score w) w v (λ k. Memᴰ.not-nil (subst (Memᴰ p.0) k p.1)) in
      let row : Memᴰ (score_row w l.player) (board w) =
        perm_member (Permᴰ.symm r.0) (Memᴰ.map (score_row w) l.member) in
      let below : Below (by_objective w) (score_row w l.player) s =
        Below-member (by_objective w) s (score_row w l.player) rest
          (subst (Ranked (by_objective w)) e r.1) (subst (Memᴰ (score_row w l.player)) e row) in
      ap (λ (t : MatchScore). t.id) (sym p.2)
      ∙ first_id w l.player p.0
          (subst (Below (by_objective w) (score_row w l.player)) (sym p.2) below)
          (All-at (Behind (ranked_score w) l.player) w.players l.all_behind p.1)
      ∙ l.same

  ranked-winner :
      (w : World F)
      → w.team_mode ≡ false
      → w.ctf_mode ≡ false
      → (w.hill_mode && w.dom_mode) ≡ false
      → match_winner w ≡ leader_by (ranked_score w) w
  unfolding match_winner score_row
  ranked-winner w t c h = elim (Bool-cases w.hill_mode) [
    | inl e ↦ elim (Bool-cases w.dom_mode) [
      | inl k ↦ absurd (ground (arith, h, e, k))
      | inr k ↦ rw (t, c, e, k) refl
    ]
    | inr e ↦ elim (Bool-cases w.dom_mode) [
      | inl k ↦ rw (t, c, e, k) refl
      | inr k ↦ rw (t, c, e, k) refl
    ]
  ]

  -- In a match without teams, with at most one of the hill and the domination objective, the player
  -- whom endMatch declares the winner is the one whom MatchState puts at the top of the board, if the
  -- ids of the players ascend.
  pub end_match-first :
      (w : World F) (s : MatchScore) (rest : List MatchScore)
      → IsValid w
      → w.team_mode ≡ false
      → w.ctf_mode ≡ false
      → (w.hill_mode && w.dom_mode) ≡ false
      → board w ≡ s ∷ rest
      → (end_match w).winner ≡ s.id
  unfolding end_match
  end_match-first w s rest v t c h e = ranked-winner w t c h ∙ sym (board-first w s rest v e)
