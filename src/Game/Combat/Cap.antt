-- ===== src/Game/Combat/Cap.antt =====
-- The limit on the number of projectiles that a shot respects.
use rewind.Prelude.{
  ℕ, zero, suc, ◌≤◌, ◌<◌, [], ◌∷◌, ◌||◌, leb, ltb, arith, Bool-cases, inl, inr, length,
  length-append,
}
use rewind.Prelude.Float.{Floats, Math}
use rewind.Prelude.Int.{ℤ}
use rewind.Prelude.Result.{Result, ok, err, panic}
use rewind.Protocol.Types.{Input}
use rewind.Game.World.{World, WorldError, Player, alloc_id}
use rewind.Game.Combat.Flight.{max_projectiles}
use rewind.Game.Combat.Fire.{
  spawned, spawn_projectile, spawn_fan, shoot, try_fire, new_projectile, spread_count, is_fanned,
}

module _ {F : Type 0} where
  abbrev pub IsCapped : World F → Type 0
  IsCapped w = length w.projectiles ≤ max_projectiles

module _ (fl : Floats) (mt : Math fl) where
  open fl use {F32, F64}

  spawned-IsCapped :
      (w : World F32) (p : Player F32) (ang : F64) (r : ℤ) (m : Result WorldError (ℕ × ℕ))
      → length w.projectiles < max_projectiles
      → IsCapped (spawned fl mt w p ang r m)
  unfolding spawned
  spawned-IsCapped w p ang r (ok (id, next)) h =
      omega (arith, length-append w.projectiles (new_projectile fl mt id p ang r ∷ []), h)
  spawned-IsCapped w p ang r (err e) h = omega (arith, h)
  spawned-IsCapped w p ang r panic h = omega (arith, h)

  spawn_projectile-IsCapped :
      (w : World F32) (p : Player F32) (ang : F64) (r : ℤ)
      → IsCapped w
      → IsCapped (spawn_projectile fl mt w p ang r)
  unfolding spawn_projectile
  spawn_projectile-IsCapped w p ang r h =
      elim (Bool-cases (leb max_projectiles (length w.projectiles))) [
        | inl e ↦ rw e h
        | inr e ↦ rw e (spawned-IsCapped w p ang r (alloc_id w) (ground (arith, e)))
      ]

  spawn_fan-IsCapped :
      (n k : ℕ) (start step : F64) (r : ℤ) (p : Player F32) (w : World F32)
      → IsCapped w
      → IsCapped (spawn_fan fl mt n k start step r p w)
  unfolding spawn_fan
  spawn_fan-IsCapped zero k start step r p w h = h
  spawn_fan-IsCapped (suc n) k start step r p w h =
      spawn_fan-IsCapped n (suc k) start step r p _ (spawn_projectile-IsCapped w p _ r h)

  shoot-IsCapped :
      (pellets : ℕ) (step : F64) (i : Input) (w : World F32) (p : Player F32)
      → IsCapped w
      → IsCapped (shoot fl mt pellets step i w p)
  unfolding shoot
  shoot-IsCapped pellets step i w p h = elim (Bool-cases (leb pellets 1)) [
    | inl e ↦ rw e (spawn_projectile-IsCapped w p _ _ h)
    | inr e ↦ rw e (spawn_fan-IsCapped pellets 0 _ step _ p w h)
  ]

  -- However many pellets a shot has, tryFire leaves at most maxProjectiles in flight, if there were no
  -- more before.
  pub try_fire-IsCapped :
      (w : World F32) (p : Player F32) (i : Input) → IsCapped w → IsCapped (try_fire fl mt w p i)
  unfolding try_fire
  try_fire-IsCapped w p i h =
      elim (Bool-cases
        (ltb w.tick p.next_fire_tick || leb max_projectiles (length w.projectiles))) [
          | inl e ↦ rw e h
          | inr e ↦ elim (Bool-cases (is_fanned fl mt w.tick p)) [
            | inl s ↦ rw (e, s) (shoot-IsCapped spread_count _ i _ _ h)
            | inr s ↦ rw (e, s) (shoot-IsCapped _ _ i _ _ h)
          ]
        ]
