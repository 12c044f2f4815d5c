-- ===== src/Game/Combat/Spared.antt =====
-- Whom a projectile leaves alone: the dead, those who are shielded, and the team of who shot it.
use rewind.Prelude.{
  ℕ, ◌≡◌, List, [], ◌∷◌, Bool, true, false, ◌||◌, ◌==◌, ◌≢◌, Option, none, some, refl, arith, ap,
  sym, ◌∙◌, Bool-cases, inl, inr,
}
use mathlib.Core.Option.{some-injective}
use rewind.Prelude.Float.{Floats, Math}
use rewind.Game.World.{World, Player, Projectile, HistPos, find_player}
use rewind.Game.Combat.{target_pos, ℤ}
use rewind.Game.Combat.Hits.{Grid, is_spared, is_struck, is_beaten, judge, pick_victim, find_hit}
use rewind.Game.Combat.Flight.{
  WeaponSpec, weapon_spec_of, splash, splash_at, explode, explode_all, ids_of, impact, hurt,
  step_projectile, one_less, num, is_some, or_else, moved, segment_wall_hit,
}
use rewind.Game.Combat.Same.{Same, Same-refl, Same-trans, apply_damage-Same, find_player-id}

module _ {F : Type 0} (owner : ℕ) (struck : Player F → Bool) (ps : List (Player F)) where
  -- A choice is a player of the world whom the projectile strikes.
  abbrev pub IsPicked : Option (Player F) → Type 0
  IsPicked o = (v : Player F) → o ≡ some v → (struck v ≡ true) × (find_player v.id ps ≡ some v)

  judge-IsPicked :
      (n : ℕ) (o best : Option (Player F))
      → find_player n ps ≡ o
      → IsPicked best
      → IsPicked (judge struck o best)
  unfolding judge
  judge-IsPicked n none best h k v = k v
  judge-IsPicked n (some p) best h k v = elim (Bool-cases (struck p)) [
    | inl e ↦ rw e (λ same.
        let it : p ≡ v = some-injective _ _ same in
        let found : find_player p.id ps ≡ some p =
          ap (λ i. find_player i ps) (find_player-id n ps p h) ∙ h in
        (
          ap struck (sym it) ∙ e,
          ap (λ (x : Player F). find_player x.id ps) (sym it) ∙ found ∙ same,
        ))
    | inr e ↦ rw e (k v)
  ]

  pub pick_victim-IsPicked :
      (ids : List ℕ) (best : Option (Player F))
      → IsPicked best
      → IsPicked (pick_victim owner struck ps ids best)
  unfolding pick_victim
  pick_victim-IsPicked [] best h = h
  pick_victim-IsPicked (id ∷ ids) best h =
      let next : IsPicked (judge struck (find_player id ps) best) =
        judge-IsPicked id (find_player id ps) best refl h in
      elim (Bool-cases (id == owner)) [
        | inl e ↦ rw e (pick_victim-IsPicked ids best h)
        | inr e ↦ elim (Bool-cases (is_beaten id best)) [
          | inl b ↦ rw (e, b) (pick_victim-IsPicked ids best h)
          | inr b ↦
              rw (e, b) (pick_victim-IsPicked ids (judge struck (find_player id ps) best) next)
        ]
      ]

module _ (fl : Floats) (mt : Math fl) where
  open fl use {F32}

  pub find_hit-IsPicked :
      (g : Grid) (w : World F32) (pr : Projectile F32) (nx ny : F32)
      → IsPicked pr.owner (is_struck fl mt w pr nx ny) w.players (find_hit fl mt g w pr nx ny)
  unfolding find_hit
  find_hit-IsPicked g w pr nx ny =
      pick_victim-IsPicked pr.owner (is_struck fl mt w pr nx ny) w.players _ none
        (λ v h. absurd (cc))

  module _ (id : ℕ) (q : Player F32) (pr : Projectile F32) (other : id ≢ pr.owner) where
    -- The player who stands under the id is out of the projectile's reach.
    abbrev pub IsSafe : World F32 → Type 0
    IsSafe w = (find_player id w.players ≡ some q) × (is_spared fl mt w pr q ≡ true)

    is_spared-Same :
        (w u : World F32) → Same fl id w u → is_spared fl mt u pr q ≡ is_spared fl mt w pr q
    unfolding is_spared
    is_spared-Same w u s = rw (s.tick, s.team_mode) refl

    Same-IsSafe : (w u : World F32) → Same fl id w u → IsSafe w → IsSafe u
    Same-IsSafe w u s (found, spared) = (s.there ∙ found, is_spared-Same w u s ∙ spared)

    -- A player under the id is this one.
    is_this :
        (w : World F32) (p : Player F32)
        → IsSafe w
        → find_player p.id w.players ≡ some p
        → p.id ≡ id
        → is_spared fl mt w pr p ≡ true
    is_this w p (found, spared) here same =
        let it : some q ≡ some p =
          sym found ∙ ap (λ i. find_player i w.players) (sym same) ∙ here in
        ap (is_spared fl mt w pr) (sym (some-injective _ _ it)) ∙ spared

    splash-Same :
        (c : HistPos F32) (spec : WeaponSpec F32) (w : World F32) (n : ℕ) (o : Option (Player F32))
        → find_player n w.players ≡ o
        → IsSafe w
        → Same fl id w (splash fl mt c pr spec w o)
    unfolding splash
    splash-Same c spec w n none f h = Same-refl fl id w
    splash-Same c spec w n (some p) f h =
        let dmg : ℕ = splash_at fl mt (target_pos w.tick p pr.rewound) c spec in
        let here : find_player p.id w.players ≡ some p =
          ap (λ i. find_player i w.players) (find_player-id n w.players p f) ∙ f in
        elim (Bool-cases (is_spared fl mt w pr p || dmg == 0)) [
          | inl e ↦ rw e (Same-refl fl id w)
          | inr e ↦
              let apart : p.id ≢ id = λ same. ground (arith, e, is_this w p h here same) in
              rw e (apply_damage-Same fl id w p pr.owner dmg apart (λ o. other (sym o)))
        ]

    explode_all-Same :
        (c : HistPos F32) (spec : WeaponSpec F32) (ids : List ℕ) (w : World F32)
        → IsSafe w
        → Same fl id w (explode_all fl mt c pr spec ids w)
    unfolding explode_all
    explode_all-Same c spec [] w h = Same-refl fl id w
    explode_all-Same c spec (n ∷ ids) w h =
        let one : World F32 = splash fl mt c pr spec w (find_player n w.players) in
        let first : Same fl id w one = splash-Same c spec w n (find_player n w.players) refl h in
        elim (Bool-cases (n == pr.owner)) [
          | inl e ↦ rw e (explode_all-Same c spec ids w h)
          | inr e ↦ rw e (
              Same-trans fl id w one _ first
                (explode_all-Same c spec ids one (Same-IsSafe w one first h)))
        ]

    hurt-Same :
        (damage : ℕ) (w : World F32) (o : Option (Player F32))
        → IsSafe w
        → ((v : Player F32)
            → o ≡ some v
            → (is_spared fl mt w pr v ≡ false) × (find_player v.id w.players ≡ some v))
        → Same fl id w (hurt fl mt pr.owner damage w o)
    unfolding hurt
    hurt-Same damage w none h k = Same-refl fl id w
    hurt-Same damage w (some v) h k =
        let (reached, here) = k v refl in
        let apart : v.id ≢ id = λ same. ground (arith, reached, is_this w v h here same) in
        apply_damage-Same fl id w v pr.owner damage apart (λ o. other (sym o))

    impact-Same :
        (e : HistPos F32) (wall : Bool) (w : World F32) (o : Option (Player F32))
        → IsSafe w
        → ((v : Player F32)
            → o ≡ some v
            → (is_spared fl mt w pr v ≡ false) × (find_player v.id w.players ≡ some v))
        → Same fl id w (impact fl mt pr e wall o w)
    unfolding impact explode
    impact-Same e wall w o h k =
        let spec : WeaponSpec F32 = weapon_spec_of fl mt pr.weapon in
        elim (Bool-cases (fl.lt32 (num fl mt 0) spec.splash_radius)) [
          | inl s ↦ elim (Bool-cases (is_some fl mt o || wall)) [
            | inl b ↦ rw (s, b) (explode_all-Same e spec (ids_of fl mt w.players) w h)
            | inr b ↦ rw (s, b) (Same-refl fl id w)
          ]
          | inr s ↦ rw s (hurt-Same spec.damage w o h k)
        ]

  spared-life :
      (w : World F32) (pr : Projectile F32) (l : ℤ) (q : Player F32)
      → is_spared fl mt w (record pr { life = l }) q ≡ is_spared fl mt w pr q
  unfolding is_spared
  spared-life w pr l q = refl

  -- A projectile changes nothing of a player who is dead, shielded, or of the shooter's team in a team
  -- mode: neither a direct hit nor an explosion does. The player is not the one who shot it.
  pub step_projectile-spares :
      (g : Grid) (dt : F32) (w : World F32) (pr : Projectile F32) (id : ℕ) (q : Player F32)
      → id ≢ pr.owner
      → find_player id w.players ≡ some q
      → is_spared fl mt w pr q ≡ true
      → find_player id (step_projectile fl mt g dt w pr).0.players ≡ some q
  unfolding step_projectile is_struck
  step_projectile-spares g dt w old id q other found spared =
      let pr : Projectile F32 = record old { life = one_less fl mt old.life } in
      let n : HistPos F32 = moved fl mt dt pr in
      let wall : Option (HistPos F32) = segment_wall_hit fl mt pr.x pr.y n.x n.y in
      let e : HistPos F32 = or_else fl mt n wall in
      let reached : (v : Player F32)
          → find_hit fl mt g w pr e.x e.y ≡ some v
          → (is_spared fl mt w pr v ≡ false) × (find_player v.id w.players ≡ some v) =
        λ v h.
          let (struck, here) = find_hit-IsPicked g w pr e.x e.y v h in
          (ground (arith, struck), here) in
      let safe : IsSafe id q pr other w =
        (found, spared-life w old (one_less fl mt old.life) q ∙ spared) in
      (impact-Same id q pr other e (is_some fl mt wall) w (find_hit fl mt g w pr e.x e.y) safe
        reached).there
      ∙ found
