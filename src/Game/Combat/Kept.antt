-- ===== src/Game/Combat/Kept.antt =====
-- What damage leaves as it was when the grid was built: the tick, the order of the
-- players, where they are and were, and that nobody comes back to life.
use rewind.Prelude.{
  ℕ, ◌≡◌, ◌+◌, ◌%◌, ◌^◌, List, [], ◌∷◌, All, All-map, false, ◌==◌, Option, some, none, refl, arith,
  Bool-cases, inl, inr, ◌<◌,
}
use rewind.Prelude.Float.{Floats}
use rewind.Game.World.{World, Player, Event, find_player}
use rewind.Game.World.Order.{IsAscending, set_player-IsAscending}
use rewind.Game.Killstreak.{record_kill, killstreak_step}
use rewind.Game.Combat.{
  apply_damage, kill, fall, credit, reward, left_hp, with_player, with_event, combat_event,
  event_hit, event_death,
}
use rewind.Game.Combat.Vital.{set_player-All, find_player-All}

module _ {F : Type 0} where
  -- The player was there at the start, alive if he is alive now, at the place where he is, and with
  -- the history that he has.
  pub record IsKept (start : World F) (p : Player F) : Type 0 where
    pub was : Player F
    pub found : find_player p.id start.players ≡ some was
    pub alive : p.dead ≡ false → was.dead ≡ false
    pub same_x : was.move.x ≡ p.move.x
    pub same_y : was.move.y ≡ p.move.y
    pub same_hist : was.pos_hist ≡ p.pos_hist

  pub record Stays (start w : World F) : Type 0 where
    pub tick : start.tick ≡ w.tick
    pub ascend : IsAscending 0 w.players
    pub kept : All (IsKept start) w.players

  -- Where the ids ascend, a player is found by his id.
  found_by_id :
      (b : ℕ) (ps : List (Player F))
      → IsAscending b ps
      → All (λ (p : Player F). (b < p.id) × (find_player p.id ps ≡ some p)) ps
  unfolding IsAscending find_player
  found_by_id b [] a = tt
  found_by_id b (q ∷ qs) (l, _, a) =
      let here : find_player q.id (q ∷ qs) ≡ some q = ground arith in
      let later : All (λ (p : Player F). (b < p.id) × (find_player p.id (q ∷ qs) ≡ some p)) qs =
        All-map (λ p h. (omega (arith, l, h.0), ground (arith, h))) qs (found_by_id q.id qs a) in
      ((l, here), later)

  pub start-Stays : (start : World F) → IsAscending 0 start.players → Stays start start
  start-Stays start a = record {
    tick = refl;
    ascend = a;
    kept =
        All-map
          (λ p h. record {
            was = p;
            found = h.1;
            alive = λ d. d;
            same_x = refl;
            same_y = refl;
            same_hist = refl;
          })
          start.players (found_by_id 0 start.players a);
  }

  hit-IsKept :
      (start : World F) (p : Player F) (hp : ℕ)
      → IsKept start p
      → IsKept start (record p { hp = hp })
  hit-IsKept start p hp k = record {
    was = k.was;
    found = k.found;
    alive = k.alive;
    same_x = k.same_x;
    same_y = k.same_y;
    same_hist = k.same_hist;
  }

module _ (fl : Floats) (start : World fl.F32) where
  open fl use {F32}

  fall-IsKept : (tick : ℕ) (p : Player F32) → IsKept start p → IsKept start (fall fl tick p)
  unfolding fall
  fall-IsKept tick p k = record {
    was = k.was;
    found = k.found;
    alive = λ d. absurd (ground (arith, d));
    same_x = k.same_x;
    same_y = k.same_y;
    same_hist = k.same_hist;
  }

  -- A kill that counts, with the hit points, the shield and the length of the series after it.
  credited-IsKept :
      (a : Player F32) (kills streak hp shield : ℕ)
      → IsKept start a
      → IsKept start (record a { kills = kills; streak = streak; hp = hp; invuln_until = shield })
  credited-IsKept a kills streak hp shield k = record {
    was = k.was;
    found = k.found;
    alive = k.alive;
    same_x = k.same_x;
    same_y = k.same_y;
    same_hist = k.same_hist;
  }

  with_player-Stays :
      (w : World F32) (p : Player F32)
      → Stays start w
      → IsKept start p
      → Stays start (with_player fl w p)
  with_player-Stays w p s k = record {
    tick = s.tick;
    ascend = set_player-IsAscending 0 p w.players s.ascend;
    kept = set_player-All (IsKept start) p w.players k s.kept;
  }

  with_event-Stays :
      (w : World F32) (e : Event F32) → Stays start w → Stays start (with_event fl w e)
  with_event-Stays w e s = record { tick = s.tick; ascend = s.ascend; kept = s.kept }

  pub found-IsKept :
      (id : ℕ) (w : World F32) (p : Player F32)
      → Stays start w
      → find_player id w.players ≡ some p
      → IsKept start p
  found-IsKept id w p s h = find_player-All (IsKept start) id w.players p s.kept h

  credit-Stays :
      (w : World F32) (o : Option (Player F32))
      → ((a : Player F32) → o ≡ some a → IsKept start a)
      → Stays start w
      → Stays start (credit fl w o)
  unfolding credit reward record_kill
  credit-Stays w none k s = s
  credit-Stays w (some a) k s = elim (Bool-cases ((a.streak + 1) % 2 ^ 16 % killstreak_step == 0)) [
    | inl e ↦
        rw e
          (with_event-Stays _ _ (with_player-Stays w _ s (credited-IsKept a _ _ 100 _ (k a refl))))
    | inr e ↦ rw e (with_player-Stays w _ s (credited-IsKept a _ _ a.hp a.invuln_until (k a refl)))
  ]

  kill-Stays :
      (w : World F32) (v : Player F32) (attacker : ℕ)
      → IsKept start v
      → Stays start w
      → Stays start (kill fl w v attacker)
  unfolding kill
  kill-Stays w v attacker k s =
      let fallen : World F32 =
        with_event fl (with_player fl w (fall fl w.tick v))
          (combat_event fl event_death attacker v.id 0 0 0) in
      let first : Stays start fallen =
        with_event-Stays _ _ (with_player-Stays w (fall fl w.tick v) s (fall-IsKept w.tick v k)) in
      elim (Bool-cases (attacker == v.id)) [
        | inl e ↦ rw e first
        | inr e ↦ rw e (
            credit-Stays fallen (find_player attacker fallen.players)
              (λ a h. found-IsKept attacker fallen a first h) first)
      ]

  pub apply_damage-Stays :
      (w : World F32) (v : Player F32) (attacker dmg : ℕ)
      → IsKept start v
      → Stays start w
      → Stays start (apply_damage fl w v attacker dmg)
  unfolding apply_damage
  apply_damage-Stays w v attacker dmg k s =
      let hit : Player F32 = record v { hp = left_hp fl v.hp dmg } in
      let hurt_one : IsKept start hit = hit-IsKept start v (left_hp fl v.hp dmg) k in
      let after : World F32 =
        with_event fl (with_player fl w hit)
          (combat_event fl event_hit attacker v.id dmg hit.hp 0) in
      let first : Stays start after = with_event-Stays _ _ (with_player-Stays w hit s hurt_one) in
      elim (Bool-cases (v.hp == 0)) [
        | inl e ↦ rw e s
        | inr e ↦ elim (Bool-cases (left_hp fl v.hp dmg == 0)) [
          | inl z ↦ rw (e, z) (kill-Stays after hit attacker hurt_one first)
          | inr z ↦ rw (e, z) first
        ]
      ]
