-- ===== src/Game/Combat/Flight.antt =====
-- combat.go: the flight of the projectiles and their explosions; with the weapons of weapon.go and
-- segmentWallHit of walls.go.
use rewind.Prelude.{
  ℕ, zero, suc, List, [], ◌∷◌, Bool, true, false, not, ◌&&◌, ◌||◌, ◌==◌, if◌then◌else◌, Option,
  none, some, ◌^◌, ◌-◌,
}
use rewind.Prelude.Float.{Floats, Math}
use rewind.Prelude.Int.{pos, negsuc}
use rewind.Game.World.{World, Player, Projectile, HistPos, find_player}
use rewind.Game.Combat.{target_pos, apply_damage, ℤ, ltb_ℤ}
use rewind.Game.Combat.Hits.{is_spared, Grid, hit_grid, find_hit}

abbrev pub max_projectiles : ℕ
max_projectiles = 128

abbrev pub projectile_life_ticks : ℕ
projectile_life_ticks = 60

pub record WeaponSpec (F : Type 0) : Type 0 where
  pub pellets : ℕ
  pub spread_rad : F
  pub damage : ℕ
  pub cooldown : ℕ
  pub speed : F
  pub splash_radius : F
  pub splash_damage : ℕ

-- A box of walls.go.
pub record Wall : Type 0 where
  pub min_x : ℕ
  pub min_y : ℕ
  pub max_x : ℕ
  pub max_y : ℕ

abbrev pub walls : List Wall
walls =
    record { min_x = 1500; min_y = 1500; max_x = 1620; max_y = 1900 }
    ∷ record { min_x = 2200; min_y = 1400; max_x = 2320; max_y = 2000 }
    ∷ record { min_x = 1600; min_y = 2300; max_x = 2400; max_y = 2420 }
    ∷ record { min_x = 2600; min_y = 1900; max_x = 3100; max_y = 2020 }
    ∷ []

module _ (fl : Floats) (mt : Math fl) where
  open fl use {F32, F64, int32, int64, widen, add32, sub32, mul32, div32, le32, lt32, mul64}
  open mt use {narrow, to_u8, add64, sub64, div64, sqrt, cos, sin, max_float32}

  abbrev pub num : ℕ → F32
  num n = int32 (pos n)

  abbrev pub plain_weapon : ℕ → ℕ → ℕ → WeaponSpec F32
  plain_weapon damage cooldown speed = record {
    pellets = 1;
    spread_rad = num 0;
    damage = damage;
    cooldown = cooldown;
    speed = num speed;
    splash_radius = num 0;
    splash_damage = 0;
  }

  -- The pistol, also for 0 and for a kind out of the table; shotgun, sniper and rocket.
  unfoldable pub weapon_spec_of : ℕ → WeaponSpec F32
  weapon_spec_of (suc (suc zero)) = record (plain_weapon 11 18 620) {
    pellets = 5;
    spread_rad = div32 (num 16) (num 100);
  }
  weapon_spec_of (suc (suc (suc zero))) = plain_weapon 80 33 1500
  weapon_spec_of (suc (suc (suc (suc zero)))) = record (plain_weapon 0 39 480) {
    splash_radius = num 130;
    splash_damage = 65;
  }
  weapon_spec_of k = plain_weapon 25 9 700

  -- The slabs: where a line enters an axis, and whether it can.
  pub record Span : Type 0 where
    pub lo : F32
    pub hi : F32

  unfoldable pub narrow_span : F32 → F32 → Span → Span
  narrow_span t1 t2 s = record {
    lo = if lt32 s.lo t1 then t1 else s.lo;
    hi = if lt32 t2 s.hi then t2 else s.hi;
  }

  -- `d != 0` on floats: neither below nor above.
  unfoldable pub slab : F32 → F32 → F32 → F32 → Span → Option Span
  slab a d lo hi s =
      let t1 = div32 (sub32 lo a) d in
      let t2 = div32 (sub32 hi a) d in
      if not (le32 d (num 0) && le32 (num 0) d)
      then if lt32 t2 t1 then some (narrow_span t2 t1 s) else some (narrow_span t1 t2 s)
      else if lt32 a lo || lt32 hi a
      then none
      else some s

  unfoldable pub entry : Option Span → Option F32
  entry none = none
  entry (some s) = if lt32 s.hi s.lo then none else some s.lo

  unfoldable pub then_slab : F32 → F32 → F32 → F32 → Option Span → Option Span
  then_slab a d lo hi none = none
  then_slab a d lo hi (some s) = slab a d lo hi s

  unfoldable pub seg_aabb_entry : F32 → F32 → F32 → F32 → F32 → F32 → F32 → F32 → Option F32
  seg_aabb_entry ax ay dx dy min_x min_y max_x max_y =
      entry
        (then_slab ay dy min_y max_y (slab ax dx min_x max_x (record { lo = num 0; hi = num 1 })))

  unfoldable pub earlier : Option F32 → F32 × Bool → F32 × Bool
  earlier none best = best
  earlier (some t) best = if lt32 t best.0 then (t, true) else best

  -- The loop over the walls, each grown by ProjectileRadius.
  unfoldable pub first_wall : F32 → F32 → F32 → F32 → List Wall → F32 × Bool → F32 × Bool
  first_wall ax ay dx dy [] best = best
  first_wall ax ay dx dy (wl ∷ wls) best = first_wall ax ay dx dy wls (
      earlier
        (seg_aabb_entry ax ay dx dy (sub32 (num wl.min_x) (num 4)) (sub32 (num wl.min_y) (num 4))
          (add32 (num wl.max_x) (num 4)) (add32 (num wl.max_y) (num 4)))
        best)

  -- Where the segment enters the first wall.
  unfoldable pub segment_wall_hit : F32 → F32 → F32 → F32 → Option (HistPos F32)
  segment_wall_hit ax ay bx by =
      let dx = sub32 bx ax in
      let dy = sub32 by ay in
      let best = first_wall ax ay dx dy walls (max_float32, false) in
      if best.1
      then some (record { x = add32 ax (mul32 dx best.0); y = add32 ay (mul32 dy best.0) })
      else none

  unfoldable pub out_of_bounds : F32 → F32 → Bool
  out_of_bounds x y = lt32 x (num 0) || lt32 y (num 0) || lt32 (num 4096) x || lt32 (num 4096) y

  -- What is left of the splash at this place, or 0 out of its radius.
  unfoldable pub splash_at : HistPos F32 → HistPos F32 → WeaponSpec F32 → ℕ
  splash_at at c spec =
      let dx = sub32 at.x c.x in
      let dy = sub32 at.y c.y in
      let d2 = add32 (mul32 dx dx) (mul32 dy dy) in
      let d = narrow (sqrt (widen d2)) in
      if lt32 (mul32 spec.splash_radius spec.splash_radius) d2
      then 0
      else to_u8 (mul32 (num spec.splash_damage) (sub32 (num 1) (div32 d spec.splash_radius)))

  unfoldable pub splash :
      HistPos F32 → Projectile F32 → WeaponSpec F32 → World F32 → Option (Player F32) → World F32
  splash c pr spec w none = w
  splash c pr spec w (some p) =
      let dmg = splash_at (target_pos w.tick p pr.rewound) c spec in
      if is_spared fl mt w pr p || dmg == 0 then w else apply_damage fl w p pr.owner dmg

  -- The loop over `order`.
  unfoldable pub explode_all :
      HistPos F32 → Projectile F32 → WeaponSpec F32 → List ℕ → World F32 → World F32
  explode_all c pr spec [] w = w
  explode_all c pr spec (id ∷ ids) w =
      explode_all c pr spec ids
        (if id == pr.owner then w else splash c pr spec w (find_player id w.players))

  unfoldable pub ids_of : List (Player F32) → List ℕ
  ids_of [] = []
  ids_of (p ∷ ps) = p.id ∷ ids_of ps

  unfoldable pub explode : HistPos F32 → Projectile F32 → WeaponSpec F32 → World F32 → World F32
  explode c pr spec w = explode_all c pr spec (ids_of w.players) w

  unfoldable pub hurt : ℕ → ℕ → World F32 → Option (Player F32) → World F32
  hurt owner damage w none = w
  hurt owner damage w (some v) = apply_damage fl w v owner damage

  -- `pr.life--` on an int32.
  unfoldable pub one_less : ℤ → ℤ
  one_less (pos zero) = negsuc 0
  one_less (pos (suc n)) = pos n
  one_less (negsuc n) = if n == 2 ^ 31 - 1 then pos (2 ^ 31 - 1) else negsuc (suc n)

  unfoldable pub is_some : {A : Type 0} → Option A → Bool
  is_some none = false
  is_some (some a) = true

  unfoldable pub or_else : {A : Type 0} → A → Option A → A
  or_else a none = a
  or_else a (some b) = b

  abbrev pub moved : F32 → Projectile F32 → HistPos F32
  moved dt pr = record { x = add32 pr.x (mul32 pr.vx dt); y = add32 pr.y (mul32 pr.vy dt) }

  -- What the projectile meets on its way: a player and a wall, if any, and the place.
  unfoldable pub impact :
      Projectile F32 → HistPos F32 → Bool → Option (Player F32) → World F32 → World F32
  impact pr e wall victim w =
      let spec = weapon_spec_of pr.weapon in
      if lt32 (num 0) spec.splash_radius
      then if is_some victim || wall then explode e pr spec w else w
      else hurt pr.owner spec.damage w victim

  unfoldable pub step_projectile :
      Grid → F32 → World F32 → Projectile F32 → World F32 × Option (Projectile F32)
  step_projectile g dt w old =
      let pr = record old { life = one_less old.life } in
      let n = moved dt pr in
      let wall = segment_wall_hit pr.x pr.y n.x n.y in
      let e = or_else n wall in
      let victim = find_hit fl mt g w pr e.x e.y in
      (
        impact pr e (is_some wall) victim w,
        if is_some victim || is_some wall || ltb_ℤ pr.life (pos 1) || out_of_bounds n.x n.y
            then none
            else some (record pr { x = n.x; y = n.y }),
      )

  unfoldable pub keep : Option (Projectile F32) → List (Projectile F32) → List (Projectile F32)
  keep none prs = prs
  keep (some pr) prs = pr ∷ prs

  -- The loop, with the world afterwards and the projectiles that are kept.
  unfoldable pub step_all :
      Grid → F32 → World F32 → List (Projectile F32) → World F32 × List (Projectile F32)
  step_all g dt w [] = (w, [])
  step_all g dt w (pr ∷ prs) =
      let here = step_projectile g dt w pr in
      let rest = step_all g dt here.0 prs in (rest.0, keep here.1 rest.1)

  unfoldable pub step_projectiles : F32 → World F32 → World F32
  step_projectiles dt w =
      let out = step_all (hit_grid fl mt w) dt w w.projectiles in
      record out.0 { projectiles = out.1 }
