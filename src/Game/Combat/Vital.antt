-- ===== src/Game/Combat/Vital.antt =====
-- The living have hit points, from 1 to 100: damage, explosions and the rewards of kills keep it.
use rewind.Prelude.{
  either-holds, ℕ, ◌≡◌, ◌≤◌, ◌<◌, ◌+◌, ◌%◌, ◌^◌, List, [], ◌∷◌, All, Bool, true, false, ◌||◌, ◌==◌,
  if◌then◌else◌, Option, none, some, refl, arith, ap, sym, Bool-cases, inl, inr,
}
use mathlib.Core.Option.{some-injective}
use mathlib.Core.Path.{subst}
use rewind.Prelude.Float.{Floats, Math}
use rewind.Game.World.{World, Player, Projectile, HistPos, find_player, set_player}
use rewind.Game.Killstreak.{record_kill, killstreak_step}
use rewind.Game.Combat.{
  apply_damage, kill, fall, credit, reward, left_hp, with_player, with_event, combat_event,
  event_hit, target_pos,
}
use rewind.Game.Combat.Hits.{Grid, hit_grid, find_hit, is_spared}
use rewind.Game.Combat.Flight.{
  WeaponSpec, weapon_spec_of, splash, splash_at, explode, explode_all, ids_of, impact, hurt,
  step_projectile, step_all, step_projectiles, num, is_some,
}
use rewind.Game.Combat.Spared.{find_hit-IsPicked}

module _ {F : Type 0} where
  abbrev pub IsVital : Player F → Type 0
  IsVital p = (p.hp ≤ 100) × (p.dead ≡ false → 0 < p.hp)

  abbrev pub AreVital : World F → Type 0
  AreVital w = All IsVital w.players

  pub set_player-All :
      (P : Player F → Type 0) (p : Player F) (ps : List (Player F))
      → P p
      → All P ps
      → All P (set_player p ps)
  unfolding set_player
  set_player-All P p [] h v = v
  set_player-All P p (q ∷ ps) h (k, v) = elim (Bool-cases (q.id == p.id)) [
    | inl e ↦ rw e (h, v)
    | inr e ↦ rw e (k, set_player-All P p ps h v)
  ]

  -- Of two writes to one player the last counts.
  set_player-twice :
      (p q : Player F) (ps : List (Player F))
      → p.id ≡ q.id
      → set_player q (set_player p ps) ≡ set_player q ps
  unfolding set_player
  set_player-twice p q [] h = refl
  set_player-twice p q (x ∷ ps) h = elim (Bool-cases (x.id == p.id)) [
    | inl e ↦
        let here : (p.id == q.id) ≡ true = ground (arith, h) in
        let there : (x.id == q.id) ≡ true = ground (arith, h, e) in rw (e, here, there) refl
    | inr e ↦
        let there : (x.id == q.id) ≡ false = ground (arith, h, e) in
        rw (e, there) (ap (◌∷◌ x) (set_player-twice p q ps h))
  ]

  pub find_player-All :
      (P : Player F → Type 0) (id : ℕ) (ps : List (Player F)) (p : Player F)
      → All P ps
      → find_player id ps ≡ some p
      → P p
  unfolding find_player
  find_player-All P id [] p v h = absurd (cc)
  find_player-All P id (q ∷ ps) p (k, v) h = elim (Bool-cases (q.id == id)) [
    | inl e ↦ subst P (some-injective _ _ (rw e at h)) k
    | inr e ↦ find_player-All P id ps p v (rw e at h)
  ]

module _ (fl : Floats) where
  open fl use {F32}

  credit-AreVital :
      (w : World F32) (o : Option (Player F32))
      → AreVital w
      → ((a : Player F32) → o ≡ some a → IsVital a)
      → AreVital (credit fl w o)
  unfolding credit reward record_kill
  credit-AreVital w none h k = h
  credit-AreVital w (some a) h k =
      elim (Bool-cases ((a.streak + 1) % 2 ^ 16 % killstreak_step == 0)) [
        | inl e ↦ rw e (set_player-All IsVital _ w.players (omega arith, λ _. omega arith) h)
        | inr e ↦ rw e (set_player-All IsVital _ w.players (k a refl) h)
      ]

  kill-AreVital :
      (w : World F32) (v : Player F32) (attacker : ℕ)
      → v.hp ≡ 0
      → All IsVital (set_player (fall fl w.tick v) w.players)
      → AreVital (kill fl w v attacker)
  unfolding kill
  kill-AreVital w v attacker h k = elim (Bool-cases (attacker == v.id)) [
    | inl e ↦ rw e k
    | inr e ↦ rw e (
        credit-AreVital _ (find_player attacker (set_player (fall fl w.tick v) w.players)) k
          (λ a found. find_player-All IsVital attacker _ a k found))
  ]

  pub apply_damage-AreVital :
      (w : World F32) (v : Player F32) (attacker dmg : ℕ)
      → IsVital v
      → AreVital w
      → AreVital (apply_damage fl w v attacker dmg)
  unfolding apply_damage fall
  apply_damage-AreVital w v attacker dmg (full, _) h =
      let hit : Player F32 = record v { hp = left_hp fl v.hp dmg } in
      let after : World F32 =
        with_event fl (with_player fl w hit)
          (combat_event fl event_hit attacker v.id dmg hit.hp 0) in
      elim (Bool-cases (v.hp == 0)) [
        | inl e ↦ rw e h
        | inr e ↦ elim (Bool-cases (left_hp fl v.hp dmg == 0)) [
          | inl z ↦
              let none_left : left_hp fl v.hp dmg ≡ 0 = ground (arith, z) in
              let dead : IsVital (fall fl w.tick hit) =
                (omega (arith, none_left), λ alive. absurd (ground (arith, alive))) in
              let fallen : All IsVital
                  (set_player (fall fl w.tick hit) (set_player hit w.players)) =
                subst (All IsVital) (sym (set_player-twice hit (fall fl w.tick hit) w.players refl))
                  (set_player-All IsVital (fall fl w.tick hit) w.players dead h) in
              rw (e, z) (kill-AreVital after hit attacker none_left fallen)
          | inr z ↦
              let some_left : 0 < left_hp fl v.hp dmg = ground (arith, z) in
              let less : left_hp fl v.hp dmg ≤ 100 = ground (arith, full) in
              rw (e, z) (set_player-All IsVital hit w.players (less, λ _. some_left) h)
        ]
      ]

module _ (fl : Floats) (mt : Math fl) where
  open fl use {F32}

  splash-AreVital :
      (c : HistPos F32) (pr : Projectile F32) (spec : WeaponSpec F32) (w : World F32)
      (o : Option (Player F32))
      → ((p : Player F32) → o ≡ some p → IsVital p)
      → AreVital w
      → AreVital (splash fl mt c pr spec w o)
  unfolding splash
  splash-AreVital c pr spec w none k h = h
  splash-AreVital c pr spec w (some p) k h =
      let dmg : ℕ = splash_at fl mt (target_pos w.tick p pr.rewound) c spec in
      elim (Bool-cases (is_spared fl mt w pr p || dmg == 0)) [
        | inl e ↦ rw e h
        | inr e ↦ rw e (apply_damage-AreVital fl w p pr.owner dmg (k p refl) h)
      ]

  explode_all-AreVital :
      (c : HistPos F32) (pr : Projectile F32) (spec : WeaponSpec F32) (ids : List ℕ) (w : World F32)
      → AreVital w
      → AreVital (explode_all fl mt c pr spec ids w)
  unfolding explode_all
  explode_all-AreVital c pr spec [] w h = h
  explode_all-AreVital c pr spec (n ∷ ids) w h =
      let one : AreVital (splash fl mt c pr spec w (find_player n w.players)) =
        splash-AreVital c pr spec w (find_player n w.players)
          (λ p found. find_player-All IsVital n w.players p h found) h in
      explode_all-AreVital c pr spec ids
        (if n == pr.owner then w else splash fl mt c pr spec w (find_player n w.players))
        (either-holds AreVital (n == pr.owner) w
          (splash fl mt c pr spec w (find_player n w.players)) h one)

  hurt-AreVital :
      (owner damage : ℕ) (w : World F32) (o : Option (Player F32))
      → ((p : Player F32) → o ≡ some p → IsVital p)
      → AreVital w
      → AreVital (hurt fl mt owner damage w o)
  unfolding hurt
  hurt-AreVital owner damage w none k h = h
  hurt-AreVital owner damage w (some v) k h = apply_damage-AreVital fl w v owner damage (k v refl) h

  impact-AreVital :
      (pr : Projectile F32) (e : HistPos F32) (wall : Bool) (o : Option (Player F32))
      (w : World F32)
      → ((p : Player F32) → o ≡ some p → IsVital p)
      → AreVital w
      → AreVital (impact fl mt pr e wall o w)
  unfolding impact explode
  impact-AreVital pr e wall o w k h =
      let spec : WeaponSpec F32 = weapon_spec_of fl mt pr.weapon in
      elim (Bool-cases (fl.lt32 (num fl mt 0) spec.splash_radius)) [
        | inl s ↦ elim (Bool-cases (is_some fl mt o || wall)) [
          | inl b ↦ rw (s, b) (explode_all-AreVital e pr spec (ids_of fl mt w.players) w h)
          | inr b ↦ rw (s, b) h
        ]
        | inr s ↦ rw s (hurt-AreVital pr.owner spec.damage w o k h)
      ]

  step_projectile-AreVital :
      (g : Grid) (dt : F32) (w : World F32) (pr : Projectile F32)
      → AreVital w
      → AreVital (step_projectile fl mt g dt w pr).0
  unfolding step_projectile
  step_projectile-AreVital g dt w pr h =
      impact-AreVital _ _ _ (find_hit fl mt g w _ _ _) w
        (λ v hit.
          find_player-All IsVital v.id w.players v h (find_hit-IsPicked fl mt g w _ _ _ v hit).1)
        h

  step_all-AreVital :
      (g : Grid) (dt : F32) (w : World F32) (prs : List (Projectile F32))
      → AreVital w
      → AreVital (step_all fl mt g dt w prs).0
  unfolding step_all
  step_all-AreVital g dt w [] h = h
  step_all-AreVital g dt w (pr ∷ prs) h =
      step_all-AreVital g dt (step_projectile fl mt g dt w pr).0 prs
        (step_projectile-AreVital g dt w pr h)

  -- After the projectiles of a tick have flown, whatever they hit, every player has at most 100 hit
  -- points, and every living one has some, if so it was before.
  pub step_projectiles-AreVital :
      (dt : F32) (w : World F32) → AreVital w → AreVital (step_projectiles fl mt dt w)
  unfolding step_projectiles
  step_projectiles-AreVital dt w h = step_all-AreVital (hit_grid fl mt w) dt w w.projectiles h
