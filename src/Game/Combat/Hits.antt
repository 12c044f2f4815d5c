-- ===== src/Game/Combat/Hits.antt =====
-- combat.go: the grid of the living players, and whom a projectile hits; with cellCoord of grid.go.
-- The buckets of the grid are a function of the cell.
use rewind.Prelude.{
  ℕ, zero, suc, ◌+◌, ◌-◌, ◌*◌, ◌%◌, ◌/◌, ◌^◌, List, [], ◌∷◌, ◌++◌, Bool, false, not, ◌&&◌, ◌||◌,
  ◌==◌, leb, if◌then◌else◌, Option, none, some,
}
use rewind.Prelude.Float.{Floats, Math}
use rewind.Prelude.Int.{ℤ, pos, negsuc}
use rewind.Game.World.{World, Player, Projectile, HistPos, find_player}
use rewind.Game.Killstreak.{invulnerable}
use rewind.Game.Combat.{target_pos, history_len, max_rewind_ticks}

abbrev pub aoi_cols : ℕ
aoi_cols = 16

abbrev pub aoi_cell_size : ℕ
aoi_cell_size = 256

-- `for c := x0; c <= x1; c++`: the first number is how many rounds there are.
unfoldable pub count_up : ℕ → ℕ → List ℕ
count_up zero c = []
count_up (suc n) c = c ∷ count_up n (suc c)

abbrev pub range : ℕ → ℕ → List ℕ
range x0 x1 = count_up (suc x1 - x0) x0

unfoldable pub row_cells : ℕ → List ℕ → List ℕ
row_cells row [] = []
row_cells row (cx ∷ cxs) = (row + cx) ∷ row_cells row cxs

-- The cells of a box, row by row.
unfoldable pub box_cells : List ℕ → List ℕ → List ℕ
box_cells [] cxs = []
box_cells (cy ∷ cys) cxs = row_cells (cy * aoi_cols) cxs ++ box_cells cys cxs

abbrev pub Grid : Type 0
Grid = ℕ → List ℕ

unfoldable pub add_to_cell : ℕ → ℕ → Grid → Grid
add_to_cell id cell g = λ c. if c == cell then g c ++ (id ∷ []) else g c

unfoldable pub add_to_cells : ℕ → List ℕ → Grid → Grid
add_to_cells id [] g = g
add_to_cells id (c ∷ cs) g = add_to_cells id cs (add_to_cell id c g)

unfoldable pub query_cells : Grid → List ℕ → List ℕ
query_cells g [] = []
query_cells g (c ∷ cs) = g c ++ query_cells g cs

-- `int(v)/aoiCellSize`, which Go rounds to 0, held within the columns.
unfoldable pub cell_of : ℤ → ℕ
cell_of (negsuc n) = 0
cell_of (pos n) = if leb aoi_cols (n / aoi_cell_size) then aoi_cols - 1 else n / aoi_cell_size

pub record Box (F : Type 0) : Type 0 where
  pub min_x : F
  pub min_y : F
  pub max_x : F
  pub max_y : F

module _ {F : Type 0} where
  unfoldable pub is_beaten : ℕ → Option (Player F) → Bool
  is_beaten id none = false
  is_beaten id (some best) = leb best.id id

  unfoldable pub judge :
      (Player F → Bool) → Option (Player F) → Option (Player F) → Option (Player F)
  judge struck none best = best
  judge struck (some p) best = if struck p then some p else best

  -- The loop over the candidates.
  unfoldable pub pick_victim :
      ℕ → (Player F → Bool) → List (Player F) → List ℕ → Option (Player F) → Option (Player F)
  pick_victim owner struck ps [] best = best
  pick_victim owner struck ps (id ∷ ids) best = pick_victim owner struck ps ids (
      if id == owner
      then best
      else if is_beaten id best
      then best
      else judge struck (find_player id ps) best)

module _ (fl : Floats) (mt : Math fl) where
  open fl use {F32, int32, add32, sub32, mul32, div32, le32, lt32}
  open mt use {min32, max32, to_int}

  unfoldable pub clamp : F32 → F32 → F32 → F32
  clamp v lo hi = if lt32 v lo then lo else if lt32 hi v then hi else v

  abbrev pub cell_coord : F32 → ℕ
  cell_coord v = cell_of (to_int v)

  unfoldable pub grow_box : HistPos F32 → Box F32 → Box F32
  grow_box h b = record {
    min_x = min32 b.min_x h.x;
    min_y = min32 b.min_y h.y;
    max_x = max32 b.max_x h.x;
    max_y = max32 b.max_y h.y;
  }

  -- The rounds r = 1, 2, ... that are left.
  unfoldable pub rewind_loop : ℕ → ℕ → ℕ → Player F32 → Box F32 → Box F32
  rewind_loop zero r tick p b = b
  rewind_loop (suc n) r tick p b =
      rewind_loop n (suc r) tick p (grow_box (p.pos_hist ((tick + 2 ^ 32 - r) % history_len)) b)

  unfoldable pub rewind_aabb : ℕ → Player F32 → Box F32
  rewind_aabb tick p =
      rewind_loop max_rewind_ticks 1 tick p
        (record { min_x = p.move.x; min_y = p.move.y; max_x = p.move.x; max_y = p.move.y })

  unfoldable pub cells_in : Box F32 → List ℕ
  cells_in b =
      box_cells (range (cell_coord b.min_y) (cell_coord b.max_y))
        (range (cell_coord b.min_x) (cell_coord b.max_x))

  unfoldable pub build_grid : ℕ → List (Player F32) → Grid → Grid
  build_grid tick [] g = g
  build_grid tick (p ∷ ps) g =
      build_grid tick ps (if p.dead then g else add_to_cells p.id (cells_in (rewind_aabb tick p)) g)

  abbrev pub hit_grid : World F32 → Grid
  hit_grid w = build_grid w.tick w.players (λ _. [])

  abbrev pub query : Grid → Box F32 → List ℕ
  query g b = query_cells g (cells_in b)

  -- PlayerRadius + ProjectileRadius.
  abbrev pub hit_radius : F32
  hit_radius = int32 (pos 20)

  unfoldable pub along : F32 → F32 → F32 → F32 → F32
  along num seg2 lo hi = if lt32 (int32 (pos 0)) seg2 then clamp (div32 num seg2) lo hi else lo

  unfoldable pub segment_circle_hit : F32 → F32 → F32 → F32 → F32 → F32 → F32 → Bool
  segment_circle_hit ax ay bx by cx cy r =
      let dx = sub32 bx ax in
      let dy = sub32 by ay in
      let seg2 = add32 (mul32 dx dx) (mul32 dy dy) in
      let t =
        along (add32 (mul32 (sub32 cx ax) dx) (mul32 (sub32 cy ay) dy)) seg2 (int32 (pos 0))
          (int32 (pos 1)) in
      let ddx = sub32 (add32 ax (mul32 t dx)) cx in
      let ddy = sub32 (add32 ay (mul32 t dy)) cy in
      le32 (add32 (mul32 ddx ddx) (mul32 ddy ddy)) (mul32 r r)

  unfoldable pub hit_box : Projectile F32 → F32 → F32 → Box F32
  hit_box pr nx ny = record {
    min_x = sub32 (min32 pr.x nx) hit_radius;
    min_y = sub32 (min32 pr.y ny) hit_radius;
    max_x = add32 (max32 pr.x nx) hit_radius;
    max_y = add32 (max32 pr.y ny) hit_radius;
  }

  -- Whom nothing of this projectile hurts, apart from its owner.
  unfoldable pub is_spared : World F32 → Projectile F32 → Player F32 → Bool
  is_spared w pr p = p.dead || invulnerable p w.tick || w.team_mode && p.team == pr.team

  unfoldable pub is_struck : World F32 → Projectile F32 → F32 → F32 → Player F32 → Bool
  is_struck w pr nx ny p =
      let at = target_pos w.tick p pr.rewound in
      not (is_spared w pr p) && segment_circle_hit pr.x pr.y nx ny at.x at.y hit_radius

  -- The candidates come from the grid of the tick's start.
  unfoldable pub find_hit : Grid → World F32 → Projectile F32 → F32 → F32 → Option (Player F32)
  find_hit g w pr nx ny =
      pick_victim pr.owner (is_struck w pr nx ny) w.players (query g (hit_box pr nx ny)) none
