-- ===== src/Game/Movement.antt =====
-- systems.go: the step of movement that the server and the client share; with the walls that push a
-- player out, and the choice of a spawn point of world.go. The points that the generator draws are an
-- argument, by the number of the try.
use rewind.Prelude.{
  ℕ, zero, suc, ◌/◌, ◌%◌, ◌^◌, List, [], ◌∷◌, Bool, false, not, ◌&&◌, ◌||◌, ◌==◌, if◌then◌else◌,
}
use rewind.Prelude.Float.{Floats, Math}
use rewind.Prelude.Int.{pos}
use rewind.Protocol.Types.{Input}
use rewind.Game.World.{MoveState, HistPos}
use rewind.Game.Combat.Hits.{clamp}
use rewind.Game.Combat.Flight.{Wall, walls}

abbrev pub spawn_tries : ℕ
spawn_tries = 16

-- `b&(1<<n) != 0`
abbrev pub has_bit : ℕ → ℕ → Bool
has_bit n b = b / 2 ^ n % 2 == 1

module _ (fl : Floats) (mt : Math fl) where
  open fl use {F32, int32, widen, add32, sub32, mul32, div32, le32, lt32}
  open mt use {narrow, sqrt, inv_sqrt2}

  abbrev pub unit : ℕ → F32
  unit n = int32 (pos n)

  abbrev pub is_equal : F32 → F32 → Bool
  is_equal a b = le32 a b && le32 b a

  -- A timer that runs down to 0.
  unfoldable pub run_down : F32 → F32 → F32
  run_down t dt =
      let left = sub32 t dt in
      if lt32 (unit 0) t then if lt32 left (unit 0) then unit 0 else left else t

  unfoldable pub axis : Bool → Bool → F32
  axis back forth =
      let d = if back then sub32 (unit 0) (unit 1) else unit 0 in
      if forth then add32 d (unit 1) else d

  -- The least of the four depths decides by which side a centre inside a wall leaves it.
  unfoldable pub push_out : F32 → F32 → F32 → Wall → HistPos F32
  push_out cx cy r wl =
      let left = sub32 cx (unit wl.min_x) in
      let right = sub32 (unit wl.max_x) cx in
      let top = sub32 cy (unit wl.min_y) in
      let bottom = sub32 (unit wl.max_y) cy in
      let m1 = if lt32 right left then right else left in
      let m2 = if lt32 top m1 then top else m1 in
      let m = if lt32 bottom m2 then bottom else m2 in
      if is_equal m left
      then record { x = sub32 (unit wl.min_x) r; y = cy }
      else if is_equal m right
      then record { x = add32 (unit wl.max_x) r; y = cy }
      else if is_equal m top
      then record { x = cx; y = sub32 (unit wl.min_y) r }
      else record { x = cx; y = add32 (unit wl.max_y) r }

  -- From the centre to the nearest point of the box.
  abbrev pub gap_x : F32 → Wall → F32
  gap_x cx wl = sub32 cx (clamp fl mt cx (unit wl.min_x) (unit wl.max_x))

  abbrev pub gap_y : F32 → Wall → F32
  gap_y cy wl = sub32 cy (clamp fl mt cy (unit wl.min_y) (unit wl.max_y))

  abbrev pub square_sum : F32 → F32 → F32
  square_sum dx dy = add32 (mul32 dx dx) (mul32 dy dy)

  unfoldable pub resolve_wall : F32 → HistPos F32 → Wall → HistPos F32
  resolve_wall r c wl =
      let dx = gap_x c.x wl in
      let dy = gap_y c.y wl in
      let d2 = square_sum dx dy in
      let d = narrow (sqrt (widen d2)) in
      let push = sub32 r d in
      if le32 (mul32 r r) d2
      then c
      else if lt32 (unit 0) d2
      then record {
        x = add32 c.x (mul32 (div32 dx d) push);
        y = add32 c.y (mul32 (div32 dy d) push);
      }
      else push_out c.x c.y r wl

  unfoldable pub resolve_walls : F32 → List Wall → HistPos F32 → HistPos F32
  resolve_walls r [] c = c
  resolve_walls r (wl ∷ wls) c = resolve_walls r wls (resolve_wall r c wl)

  unfoldable pub inside_any_wall : F32 → HistPos F32 → List Wall → Bool
  inside_any_wall r c [] = false
  inside_any_wall r c (wl ∷ wls) =
      lt32 (square_sum (gap_x c.x wl) (gap_y c.y wl)) (mul32 r r) || inside_any_wall r c wls

  abbrev pub standing : HistPos F32 → MoveState F32
  standing c = record {
    x = c.x;
    y = c.y;
    vx = unit 0;
    vy = unit 0;
    dash_cd = unit 0;
    dash_t = unit 0;
  }

  -- The tries that are left, the number of this one, and the last point that was drawn. A point is the
  -- margin and two draws from 0 to 1 times the span.
  unfoldable pub try_spawn : ℕ → ℕ → (ℕ → HistPos F32) → HistPos F32 → MoveState F32
  try_spawn zero k draw last = standing (resolve_walls (unit 16) walls last)
  try_spawn (suc n) k draw last =
      let c : HistPos F32 = record {
        x = add32 (unit 128) (mul32 (draw k).x (unit 3840));
        y = add32 (unit 128) (mul32 (draw k).y (unit 3840));
      } in
      let rest = try_spawn n (suc k) draw c in
      if inside_any_wall (unit 64) c walls then rest else standing c

  unfoldable pub spawn_point : (ℕ → HistPos F32) → MoveState F32
  spawn_point draw = try_spawn spawn_tries 0 draw (record { x = unit 0; y = unit 0 })

  -- A dash starts with an action, a direction and no pause left.
  unfoldable pub starts_dash : Input → F32 → F32 → F32 → Bool
  starts_dash i cd dx dy =
      has_bit 0 i.actions && le32 cd (unit 0) && not (is_equal dx (unit 0) && is_equal dy (unit 0))

  unfoldable pub move_step : MoveState F32 → Input → F32 → MoveState F32
  move_step s i dt =
      let cd = run_down s.dash_cd dt in
      let t = run_down s.dash_t dt in
      let ax = axis (has_bit 1 i.buttons) (has_bit 3 i.buttons) in
      let ay = axis (has_bit 0 i.buttons) (has_bit 2 i.buttons) in
      let diagonal = not (is_equal ax (unit 0)) && not (is_equal ay (unit 0)) in
      let dx = if diagonal then mul32 ax inv_sqrt2 else ax in
      let dy = if diagonal then mul32 ay inv_sqrt2 else ay in
      let dash = starts_dash i cd dx dy in
      let t' = if dash then div32 (unit 18) (unit 100) else t in
      let cd' = if dash then div32 (unit 25) (unit 10) else cd in
      let speed =
        if lt32 (unit 0) t' then mul32 (unit 300) (div32 (unit 26) (unit 10)) else unit 300 in
      let vx = mul32 dx speed in
      let vy = mul32 dy speed in
      let c = resolve_walls (unit 16) walls (record {
        x = clamp fl mt (add32 s.x (mul32 vx dt)) (unit 16) (unit 4080);
        y = clamp fl mt (add32 s.y (mul32 vy dt)) (unit 16) (unit 4080);
      }) in
      record { x = c.x; y = c.y; vx = vx; vy = vy; dash_cd = cd'; dash_t = t' }
