-- ===== src/Game/Match/Leader.antt =====
-- leader, hillLeader and domLeader: the loop finds the highest score, and among those the smallest
-- id.
use rewind.Prelude.{
  ℕ, ◌+◌, ◌<◌, ◌≤◌, ◌≡◌, ◌≢◌, List, [], ◌∷◌, All, true, false, arith, Bool-cases, inl, inr, ltb,
  refl, lt→ltb,
}
use mathlib.Core.List.{Memᴰ}
use rewind.Prelude.Int.{pos, negsuc}
use rewind.Game.World.{World, Player}
use rewind.Game.World.Order.{IsAscending, IsValid}
use rewind.Game.Match.{leader_from, leader_by}

module _ {F : Type 0} (score : Player F → ℕ) where
  -- `q` does not come before `p`.
  abbrev pub Behind : Player F → Player F → Type 0
  Behind p q = (score q ≤ score p) × (score q ≡ score p → p.id ≤ q.id)

  pub record Leads (ps : List (Player F)) (id : ℕ) : Type 0 where
    pub player : Player F
    pub member : Memᴰ player ps
    pub same : player.id ≡ id
    pub all_behind : All (Behind player) ps

  Behind-self : (p : Player F) → Behind p p
  Behind-self p = (omega arith, λ _. omega arith)

  leader_from-Leads :
      (p : Player F) (b : ℕ) (ps : List (Player F))
      → p.id ≤ b
      → IsAscending b ps
      → Leads (p ∷ ps) (leader_from score p.id (pos (score p)) ps)
  unfolding leader_from IsAscending
  leader_from-Leads p b [] h v = record {
    player = p;
    member = Memᴰ.head refl;
    same = refl;
    all_behind = (Behind-self p, tt);
  }
  leader_from-Leads p b (q ∷ qs) h (k, _, v) = elim (Bool-cases (ltb (score p + 0) (score q + 0))) [
    | inl e ↦ rw e (climb e (leader_from-Leads q q.id qs (omega arith) v))
    | inr e ↦ rw e (keep e k h (leader_from-Leads p q.id qs (omega arith) v))
  ]
    where
      beaten : {r : Player F} → ltb (score p + 0) (score q + 0) ≡ true → Behind r q → Behind r p
      beaten e b = (ground (arith, e, b), λ x. ground (arith, e, b, x))

      later :
          {r : Player F}
          → ltb (score p + 0) (score q + 0) ≡ false
          → p.id < q.id
          → Behind r p
          → Behind r q
      later e k b = (ground (arith, e, b), λ x. omega (arith, k, b.1 (ground (arith, e, b, x))))

      climb :
          {n : ℕ} → ltb (score p + 0) (score q + 0) ≡ true → Leads (q ∷ qs) n → Leads (p ∷ q ∷ qs) n
      climb e r = record {
        player = r.player;
        member = Memᴰ.tail r.member;
        same = r.same;
        all_behind = (beaten e r.all_behind.0, r.all_behind);
      }

      keep :
          {n : ℕ}
          → ltb (score p + 0) (score q + 0) ≡ false
          → b < q.id
          → p.id ≤ b
          → Leads (p ∷ qs) n
          → Leads (p ∷ q ∷ qs) n
      keep e k h r =
          let rest : All (Behind r.player) (q ∷ qs) =
            (later e (omega (arith, k, h)) r.all_behind.0, r.all_behind.1) in
          record {
            player = r.player;
            member = elim r.member [
              | Memᴰ.head m ↦ Memᴰ.head m
              | Memᴰ.tail m ↦ Memᴰ.tail (Memᴰ.tail m)
            ];
            same = r.same;
            all_behind = (r.all_behind.0, rest);
          }

  players-Leads :
      (ps : List (Player F))
      → IsAscending 0 ps
      → ps ≢ []
      → Leads ps (leader_from score 0 (negsuc 0) ps)
  unfolding leader_from IsAscending
  players-Leads [] v h = absurd (h refl)
  players-Leads (p ∷ ps) (_, _, v) h =
      rw (lt→ltb 0 (score p + 1) (omega arith)) (leader_from-Leads p p.id ps (omega arith) v)

  -- In a world with a player and with ascending ids, the leader is a player whom nobody beats: the score of each is at most
  -- the leader's, and those who have the same score have an id that is not smaller.
  pub leader_by-Leads :
      (w : World F) → IsValid w → w.players ≢ [] → Leads w.players (leader_by score w)
  unfolding leader_by
  leader_by-Leads w v h = players-Leads w.players v.order h
