-- ===== src/Game/Combat/Fire.antt =====
-- combat.go: tryFire and spawnProjectile. The counters of the checks against cheating are left out.
use rewind.Prelude.{
  ℕ, zero, suc, ◌+◌, ◌-◌, ◌%◌, ◌/◌, ◌^◌, [], ◌∷◌, ◌++◌, Bool, ◌&&◌, ◌||◌, ◌==◌, leb, ltb,
  if◌then◌else◌, length,
}
use rewind.Prelude.Float.{Floats, Math}
use rewind.Prelude.Int.{ℤ, pos, negsuc}
use rewind.Prelude.Result.{Result, ok, err, panic}
use rewind.Protocol.Types.{Input}
use rewind.Game.World.{World, WorldError, Player, Projectile, alloc_id}
use rewind.Game.Combat.{clamp_rewind, with_player}
use rewind.Game.Combat.Flight.{weapon_spec_of, max_projectiles, projectile_life_ticks}

abbrev pub spread_count : ℕ
spread_count = 3

-- `int32(a) - int32(b)` of two uint32.
unfoldable pub i32_difference : ℕ → ℕ → ℤ
i32_difference a b =
    let d = (a + 2 ^ 32 - b) % 2 ^ 32 in if ltb d (2 ^ 31) then pos d else negsuc (2 ^ 32 - 1 - d)

module _ (fl : Floats) (mt : Math fl) where
  open fl use {F32, F64, int32, int64, widen, add32, mul32, div32, mul64}
  open mt use {narrow, add64, sub64, div64, cos, sin, turn_unit}

  unfoldable pub new_projectile : ℕ → Player F32 → F64 → ℤ → Projectile F32
  new_projectile id p ang rewound =
      let spec = weapon_spec_of fl mt p.weapon in
      let dx = narrow (cos ang) in
      let dy = narrow (sin ang) in
      record {
        id = id;
        owner = p.id;
        x = add32 p.move.x (mul32 dx (int32 (pos 21)));
        y = add32 p.move.y (mul32 dy (int32 (pos 21)));
        vx = mul32 dx spec.speed;
        vy = mul32 dy spec.speed;
        life = pos projectile_life_ticks;
        rewound = rewound;
        team = p.team;
        weapon = p.weapon;
      }

  unfoldable pub spawned : World F32 → Player F32 → F64 → ℤ → Result WorldError (ℕ × ℕ) → World F32
  spawned w p ang rewound (ok (id, next)) = record w {
    next_id = next;
    projectiles = w.projectiles ++ (new_projectile id p ang rewound ∷ []);
  }
  spawned w p ang rewound (err e) = w
  spawned w p ang rewound panic = w

  unfoldable pub spawn_projectile : World F32 → Player F32 → F64 → ℤ → World F32
  spawn_projectile w p ang rewound =
      if leb max_projectiles (length w.projectiles) then w else spawned w p ang rewound (alloc_id w)

  unfoldable pub shot_rewind : ℕ → Input → ℤ
  shot_rewind tick i =
      if i.view_tick == 0 then pos 0 else clamp_rewind (i32_difference tick i.view_tick)

  unfoldable pub fire_cooldown : ℕ → Player F32 → ℕ
  fire_cooldown tick p =
      let cd = (weapon_spec_of fl mt p.weapon).cooldown in
      if ltb tick p.rapid_until then if ltb (cd / 3) 1 then 1 else cd / 3 else cd

  unfoldable pub is_fanned : ℕ → Player F32 → Bool
  is_fanned tick p = ltb tick p.spread_until && (weapon_spec_of fl mt p.weapon).pellets == 1

  unfoldable pub aim_radians : Input → F32
  aim_radians i = narrow (mul64 (int64 (pos i.aim)) turn_unit)

  -- The loop: so many pellets from the k-th on.
  unfoldable pub spawn_fan : ℕ → ℕ → F64 → F64 → ℤ → Player F32 → World F32 → World F32
  spawn_fan zero k start step rewound p w = w
  spawn_fan (suc n) k start step rewound p w =
      spawn_fan n (suc k) start step rewound p
        (spawn_projectile w p (add64 start (mul64 step (int64 (pos k)))) rewound)

  unfoldable pub shoot : ℕ → F64 → Input → World F32 → Player F32 → World F32
  shoot pellets step i w p =
      let ang = widen (aim_radians i) in
      let start = sub64 ang (div64 (mul64 step (int64 (pos (pellets - 1)))) (int64 (pos 2))) in
      if leb pellets 1
      then spawn_projectile w p ang (shot_rewind w.tick i)
      else spawn_fan pellets 0 start step (shot_rewind w.tick i) p w

  abbrev pub fired : ℕ → Player F32 → Player F32
  fired tick p = record p {
    next_fire_tick = (tick + fire_cooldown tick p) % 2 ^ 32;
    invuln_until = 0;
  }

  -- The player is given as the map holds it.
  unfoldable pub try_fire : World F32 → Player F32 → Input → World F32
  try_fire w p i =
      let spec = weapon_spec_of fl mt p.weapon in
      let q = fired w.tick p in
      let after =
        if is_fanned w.tick p
        then shoot spread_count (widen (div32 (int32 (pos 14)) (int32 (pos 100)))) i
            (with_player fl w q) q
        else shoot spec.pellets (widen spec.spread_rad) i (with_player fl w q) q in
      if ltb w.tick p.next_fire_tick || leb max_projectiles (length w.projectiles) then w else after
