-- ===== src/Game/Tick/Health.antt =====
-- Hit points over the inputs, shots and respawns of a tick: the living have some, and nobody has more
-- than 100.
use rewind.Prelude.{
  ℕ, zero, suc, ◌≡◌, List, [], ◌∷◌, Bool, ◌&&◌, ◌||◌, leb, ltb, Option, none, some, refl, arith,
  either-holds, length,
}
use rewind.Prelude.Float.{Floats, Math}
use rewind.Prelude.Int.{ℤ}
use rewind.Prelude.Result.{Result, ok, err, panic}
use rewind.Protocol.Types.{Input}
use rewind.Game.World.{World, WorldError, Player, MoveState, HistPos, find_player, alloc_id}
use rewind.Game.Combat.{with_player, respawn, reborn, init_history}
use rewind.Game.Combat.Flight.{max_projectiles}
use rewind.Game.Combat.Fire.{
  spawned, spawn_projectile, spawn_fan, shoot, try_fire, fired, is_fanned,
}
use rewind.Game.Combat.Vital.{IsVital, AreVital, set_player-All, find_player-All}
use rewind.Game.Tick.{
  moved_by, apply_input, apply_inputs, drain, drained, run_player, run_players, revive, revive_all,
  restart, restart_all, cleared, step,
}

module _ (fl : Floats) (mt : Math fl) where
  open fl use {F32, F64}

  spawned-AreVital :
      (w : World F32) (p : Player F32) (ang : F64) (r : ℤ) (m : Result WorldError (ℕ × ℕ))
      → AreVital w
      → AreVital (spawned fl mt w p ang r m)
  unfolding spawned
  spawned-AreVital w p ang r (ok (id, next)) h = h
  spawned-AreVital w p ang r (err e) h = h
  spawned-AreVital w p ang r panic h = h

  spawn_projectile-AreVital :
      (w : World F32) (p : Player F32) (ang : F64) (r : ℤ)
      → AreVital w
      → AreVital (spawn_projectile fl mt w p ang r)
  unfolding spawn_projectile
  spawn_projectile-AreVital w p ang r h =
      either-holds AreVital (leb max_projectiles (length w.projectiles)) w
        (spawned fl mt w p ang r (alloc_id w)) h (spawned-AreVital w p ang r (alloc_id w) h)

  spawn_fan-AreVital :
      (n k : ℕ) (start step : F64) (r : ℤ) (p : Player F32) (w : World F32)
      → AreVital w
      → AreVital (spawn_fan fl mt n k start step r p w)
  unfolding spawn_fan
  spawn_fan-AreVital zero k start step r p w h = h
  spawn_fan-AreVital (suc n) k start step r p w h =
      spawn_fan-AreVital n (suc k) start step r p _ (spawn_projectile-AreVital w p _ r h)

  shoot-AreVital :
      (pellets : ℕ) (step : F64) (i : Input) (w : World F32) (p : Player F32)
      → AreVital w
      → AreVital (shoot fl mt pellets step i w p)
  unfolding shoot
  shoot-AreVital pellets step i w p h =
      either-holds AreVital (leb pellets 1) _ _ (spawn_projectile-AreVital w p _ _ h)
        (spawn_fan-AreVital pellets 0 _ step _ p w h)

  try_fire-AreVital :
      (w : World F32) (p : Player F32) (i : Input)
      → IsVital p
      → AreVital w
      → AreVital (try_fire fl mt w p i)
  unfolding try_fire
  try_fire-AreVital w p i v h =
      let q : Player F32 = fired fl mt w.tick p in
      let after : AreVital (with_player fl w q) = set_player-All IsVital q w.players v h in
      either-holds AreVital
        (ltb w.tick p.next_fire_tick || leb max_projectiles (length w.projectiles)) w _ h
        (either-holds AreVital (is_fanned fl mt w.tick p) _ _ (shoot-AreVital _ _ i _ q after)
          (shoot-AreVital _ _ i _ q after))

  -- A player that was looked up is vital.
  abbrev Found : Option (Player F32) → Type 0
  Found o = (p : Player F32) → o ≡ some p → IsVital p

  found : (id : ℕ) (w : World F32) → AreVital w → Found (find_player id w.players)
  found id w h p e = find_player-All IsVital id w.players p h e

  apply_input-AreVital :
      (w : World F32) (i : Input) (o : Option (Player F32))
      → Found o
      → AreVital w
      → AreVital (apply_input fl mt w i o)
  unfolding apply_input moved_by
  apply_input-AreVital w i none f h = h
  apply_input-AreVital w i (some p) f h =
      let q : Player F32 = moved_by fl mt p i in
      let moved : AreVital (with_player fl w q) = set_player-All IsVital q w.players (f p refl) h in
      either-holds AreVital _ (try_fire fl mt (with_player fl w q) q i) (with_player fl w q)
        (try_fire-AreVital (with_player fl w q) q i (f p refl) moved) moved

  apply_inputs-AreVital :
      (id : ℕ) (is : List Input) (w : World F32) (dirty : Bool)
      → AreVital w
      → AreVital (apply_inputs fl mt id is (w, dirty)).0
  unfolding apply_inputs
  apply_inputs-AreVital id [] w dirty h = h
  apply_inputs-AreVital id (i ∷ is) w dirty h =
      apply_inputs-AreVital id is _ _
        (apply_input-AreVital w i (find_player id w.players) (found id w h) h)

  drain-AreVital :
      (o : Option (Player F32)) (w : World F32) → Found o → AreVital w → AreVital (drain fl mt o w)
  unfolding drain
  drain-AreVital none w f h = h
  drain-AreVital (some p) w f h = set_player-All IsVital (drained p) w.players (f p refl) h

  run_player-AreVital :
      (id : ℕ) (o : Option (Player F32)) (w : World F32) (dirty : Bool)
      → Found o
      → AreVital w
      → AreVital (run_player fl mt id o (w, dirty)).0
  unfolding run_player
  run_player-AreVital id none w dirty f h = h
  run_player-AreVital id (some p) w dirty f h =
      let after : World F32 × Bool = apply_inputs fl mt id p.inputs (w, dirty) in
      let ran : AreVital after.0 = apply_inputs-AreVital id p.inputs w dirty h in
      either-holds (λ (s : World F32 × Bool). AreVital s.0) p.dead
        (with_player fl w (drained p), dirty)
        (drain fl mt (find_player id after.0.players) after.0, after.1)
        (set_player-All IsVital (drained p) w.players (f p refl) h)
        (drain-AreVital (find_player id after.0.players) after.0 (found id after.0 ran) ran)

  pub run_players-AreVital :
      (ids : List ℕ) (w : World F32) (dirty : Bool)
      → AreVital w
      → AreVital (run_players fl mt ids (w, dirty)).0
  unfolding run_players
  run_players-AreVital [] w dirty h = h
  run_players-AreVital (id ∷ ids) w dirty h =
      run_players-AreVital ids _ _
        (run_player-AreVital id (find_player id w.players) w dirty (found id w h) h)

  respawn-AreVital :
      (w : World F32) (spawn : MoveState F32) (p : Player F32)
      → AreVital w
      → AreVital (respawn fl w spawn p)
  unfolding respawn reborn init_history
  respawn-AreVital w spawn p h =
      set_player-All IsVital (reborn fl w.tick spawn p) w.players (omega arith, λ _. omega arith) h

  revive-AreVital :
      (draw : ℕ → HistPos F32) (o : Option (Player F32)) (w : World F32)
      → AreVital w
      → AreVital (revive fl mt draw o w)
  unfolding revive
  revive-AreVital draw none w h = h
  revive-AreVital draw (some p) w h =
      either-holds AreVital (p.dead && leb p.respawn_at w.tick) _ w (respawn-AreVital w _ p h) h

  pub revive_all-AreVital :
      (draw : ℕ → ℕ → HistPos F32) (ids : List ℕ) (w : World F32)
      → AreVital w
      → AreVital (revive_all fl mt draw ids w)
  unfolding revive_all
  revive_all-AreVital draw [] w h = h
  revive_all-AreVital draw (id ∷ ids) w h =
      revive_all-AreVital draw ids _ (revive-AreVital (draw id) (find_player id w.players) w h)

  restart-AreVital :
      (draw : ℕ → HistPos F32) (o : Option (Player F32)) (w : World F32)
      → Found o
      → AreVital w
      → AreVital (restart fl mt draw o w)
  unfolding restart
  restart-AreVital draw none w f h = h
  restart-AreVital draw (some p) w f h =
      let wiped : AreVital (with_player fl w (cleared p)) =
        set_player-All IsVital (cleared p) w.players (f p refl) h in
      either-holds AreVital p.dead (with_player fl w (cleared p)) _ wiped
        (respawn-AreVital (with_player fl w (cleared p)) _ (cleared p) wiped)

  pub restart_all-AreVital :
      (draw : ℕ → ℕ → HistPos F32) (ids : List ℕ) (w : World F32)
      → AreVital w
      → AreVital (restart_all fl mt draw ids w)
  unfolding restart_all
  restart_all-AreVital draw [] w h = h
  restart_all-AreVital draw (id ∷ ids) w h =
      restart_all-AreVital draw ids _
        (restart-AreVital (draw id) (find_player id w.players) w (found id w h) h)
