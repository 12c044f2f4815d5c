-- ===== src/Game/Combat/Flights.antt =====
-- What the flight of projectiles leaves as it was when the grid was built.
use rewind.Prelude.{
  either-holds, ℕ, ◌≡◌, List, [], ◌∷◌, Bool, ◌||◌, ◌==◌, if◌then◌else◌, Option, some, none, refl,
  Bool-cases, inl, inr,
}
use rewind.Prelude.Float.{Floats, Math}
use rewind.Game.World.{World, Player, Projectile, HistPos, find_player}
use rewind.Game.Combat.{target_pos}
use rewind.Game.Combat.Hits.{Grid, find_hit, is_spared}
use rewind.Game.Combat.Flight.{
  WeaponSpec, weapon_spec_of, splash, splash_at, explode, explode_all, ids_of, impact, hurt,
  step_projectile, step_all, num, is_some,
}
use rewind.Game.Combat.Spared.{find_hit-IsPicked}
use rewind.Game.Combat.Kept.{IsKept, Stays, found-IsKept, apply_damage-Stays}

module _ (fl : Floats) (mt : Math fl) (start : World fl.F32) where
  open fl use {F32}

  splash-Stays :
      (c : HistPos F32) (pr : Projectile F32) (spec : WeaponSpec F32) (w : World F32)
      (o : Option (Player F32))
      → ((p : Player F32) → o ≡ some p → IsKept start p)
      → Stays start w
      → Stays start (splash fl mt c pr spec w o)
  unfolding splash
  splash-Stays c pr spec w none k s = s
  splash-Stays c pr spec w (some p) k s =
      let dmg : ℕ = splash_at fl mt (target_pos w.tick p pr.rewound) c spec in
      elim (Bool-cases (is_spared fl mt w pr p || dmg == 0)) [
        | inl e ↦ rw e s
        | inr e ↦ rw e (apply_damage-Stays fl start w p pr.owner dmg (k p refl) s)
      ]

  explode_all-Stays :
      (c : HistPos F32) (pr : Projectile F32) (spec : WeaponSpec F32) (ids : List ℕ) (w : World F32)
      → Stays start w
      → Stays start (explode_all fl mt c pr spec ids w)
  unfolding explode_all
  explode_all-Stays c pr spec [] w s = s
  explode_all-Stays c pr spec (n ∷ ids) w s =
      let after : World F32 = splash fl mt c pr spec w (find_player n w.players) in
      explode_all-Stays c pr spec ids (if n == pr.owner then w else after) (
        either-holds (Stays start) (n == pr.owner) w after s (
          splash-Stays c pr spec w (find_player n w.players)
            (λ p h. found-IsKept fl start n w p s h) s))

  hurt-Stays :
      (owner damage : ℕ) (w : World F32) (o : Option (Player F32))
      → ((p : Player F32) → o ≡ some p → IsKept start p)
      → Stays start w
      → Stays start (hurt fl mt owner damage w o)
  unfolding hurt
  hurt-Stays owner damage w none k s = s
  hurt-Stays owner damage w (some v) k s = apply_damage-Stays fl start w v owner damage (k v refl) s

  impact-Stays :
      (pr : Projectile F32) (e : HistPos F32) (wall : Bool) (o : Option (Player F32))
      (w : World F32)
      → ((p : Player F32) → o ≡ some p → IsKept start p)
      → Stays start w
      → Stays start (impact fl mt pr e wall o w)
  unfolding impact explode
  impact-Stays pr e wall o w k s =
      let spec : WeaponSpec F32 = weapon_spec_of fl mt pr.weapon in
      elim (Bool-cases (fl.lt32 (num fl mt 0) spec.splash_radius)) [
        | inl l ↦ elim (Bool-cases (is_some fl mt o || wall)) [
          | inl b ↦ rw (l, b) (explode_all-Stays e pr spec (ids_of fl mt w.players) w s)
          | inr b ↦ rw (l, b) s
        ]
        | inr l ↦ rw l (hurt-Stays pr.owner spec.damage w o k s)
      ]

  step_projectile-Stays :
      (g : Grid) (dt : F32) (w : World F32) (pr : Projectile F32)
      → Stays start w
      → Stays start (step_projectile fl mt g dt w pr).0
  unfolding step_projectile
  step_projectile-Stays g dt w pr s =
      impact-Stays _ _ _ (find_hit fl mt g w _ _ _) w
        (λ v hit. found-IsKept fl start v.id w v s (find_hit-IsPicked fl mt g w _ _ _ v hit).1) s

  pub step_all-Stays :
      (g : Grid) (dt : F32) (w : World F32) (prs : List (Projectile F32))
      → Stays start w
      → Stays start (step_all fl mt g dt w prs).0
  unfolding step_all
  step_all-Stays g dt w [] s = s
  step_all-Stays g dt w (pr ∷ prs) s =
      step_all-Stays g dt (step_projectile fl mt g dt w pr).0 prs
        (step_projectile-Stays g dt w pr s)
