-- ===== src/Game/Combat/Same.antt =====
-- What damage leaves as it was: every player but the victim and the attacker.
use rewind.Prelude.{
  ℕ, ◌≡◌, ◌+◌, ◌%◌, ◌^◌, List, [], ◌∷◌, ◌==◌, ◌≢◌, Option, none, some, refl, arith, ap, sym, ◌∙◌,
  Bool-cases, inl, inr,
}
use mathlib.Core.Option.{some-injective}
use rewind.Prelude.Float.{Floats}
use rewind.Game.World.{World, Player, find_player, set_player}
use rewind.Game.Killstreak.{record_kill, killstreak_step}
use rewind.Game.Combat.{
  apply_damage, kill, fall, credit, reward, left_hp, with_player, with_event, combat_event,
  event_hit, event_death,
}

module _ {F : Type 0} where
  find-set_player :
      (id : ℕ) (p : Player F) (ps : List (Player F))
      → p.id ≢ id
      → find_player id (set_player p ps) ≡ find_player id ps
  unfolding find_player set_player
  find-set_player id p [] h = refl
  find-set_player id p (q ∷ ps) h = ground (arith, h, find-set_player id p ps h)

  pub find_player-id :
      (id : ℕ) (ps : List (Player F)) (p : Player F) → find_player id ps ≡ some p → p.id ≡ id
  unfolding find_player
  find_player-id id [] p h = absurd (cc)
  find_player-id id (q ∷ ps) p h = elim (Bool-cases (q.id == id)) [
    | inl e ↦
        let same : q ≡ p = some-injective _ _ (rw e at h) in
        sym (ap (λ (x : Player F). x.id) same) ∙ ground (arith, e)
    | inr e ↦ find_player-id id ps p (rw e at h)
  ]

module _ (fl : Floats) where
  open fl use {F32}

  -- The rest of the world that a hit depends on.
  pub record Same (id : ℕ) (w u : World F32) : Type 0 where
    pub there : find_player id u.players ≡ find_player id w.players
    pub tick : u.tick ≡ w.tick
    pub team_mode : u.team_mode ≡ w.team_mode

  pub Same-refl : (id : ℕ) (w : World F32) → Same id w w
  Same-refl id w = record { there = refl; tick = refl; team_mode = refl }

  pub Same-trans : (id : ℕ) (w u v : World F32) → Same id w u → Same id u v → Same id w v
  Same-trans id w u v h k = record {
    there = k.there ∙ h.there;
    tick = k.tick ∙ h.tick;
    team_mode = k.team_mode ∙ h.team_mode;
  }

  with_player-Same :
      (id : ℕ) (w : World F32) (p : Player F32) → p.id ≢ id → Same id w (with_player fl w p)
  with_player-Same id w p h = record {
    there = find-set_player id p w.players h;
    tick = refl;
    team_mode = refl;
  }

  credit-Same :
      (id : ℕ) (w : World F32) (o : Option (Player F32))
      → ((a : Player F32) → o ≡ some a → a.id ≢ id)
      → Same id w (credit fl w o)
  unfolding credit reward record_kill
  credit-Same id w none h = Same-refl id w
  credit-Same id w (some a) h =
      let other : a.id ≢ id = h a refl in
      elim (Bool-cases ((a.streak + 1) % 2 ^ 16 % killstreak_step == 0)) [
        | inl e ↦
            rw e (record {
              there = find-set_player id _ w.players other;
              tick = refl;
              team_mode = refl;
            })
        | inr e ↦ rw e (with_player-Same id w _ other)
      ]

  kill-Same :
      (id : ℕ) (w : World F32) (v : Player F32) (attacker : ℕ)
      → v.id ≢ id
      → attacker ≢ id
      → Same id w (kill fl w v attacker)
  unfolding kill fall
  kill-Same id w v attacker h k =
      let fallen : World F32 =
        with_event fl (with_player fl w (fall fl w.tick v))
          (combat_event fl event_death attacker v.id 0 0 0) in
      let first : Same id w fallen = record {
        there = find-set_player id (fall fl w.tick v) w.players h;
        tick = refl;
        team_mode = refl;
      } in
      elim (Bool-cases (attacker == v.id)) [
        | inl e ↦ rw e first
        | inr e ↦ rw e (
            Same-trans id w fallen _ first (
              credit-Same id fallen (find_player attacker fallen.players)
                (λ a found same. k (sym (find_player-id attacker fallen.players a found) ∙ same))))
      ]

  -- Damage changes the victim and the attacker, and nobody else.
  pub apply_damage-Same :
      (id : ℕ) (w : World F32) (v : Player F32) (attacker dmg : ℕ)
      → v.id ≢ id
      → attacker ≢ id
      → Same id w (apply_damage fl w v attacker dmg)
  unfolding apply_damage
  apply_damage-Same id w v attacker dmg h k =
      let hit : Player F32 = record v { hp = left_hp fl v.hp dmg } in
      let after : World F32 =
        with_event fl (with_player fl w hit)
          (combat_event fl event_hit attacker v.id dmg hit.hp 0) in
      let first : Same id w after = record {
        there = find-set_player id hit w.players h;
        tick = refl;
        team_mode = refl;
      } in
      elim (Bool-cases (v.hp == 0)) [
        | inl e ↦ rw e (Same-refl id w)
        | inr e ↦ elim (Bool-cases (left_hp fl v.hp dmg == 0)) [
          | inl z ↦ rw (e, z) (Same-trans id w after _ first (kill-Same id after hit attacker h k))
          | inr z ↦ rw (e, z) first
        ]
      ]
