-- ===== src/Game/Combat/Cells.antt =====
-- The boxes of combat.go and the cells that they fill: whatever lies in a box has its cell among the
-- cells of the box.
use rewind.Prelude.{
  ℕ, zero, suc, ◌≡◌, ◌+◌, ◌-◌, ◌*◌, ◌≤◌, List, [], ◌∷◌, true, ◌&&◌, ◌==◌, arith, ◌∙◌, leb, ltb, inl,
  inr, Bool-cases,
}
use rewind.Prelude.Int.{ℤ, pos, negsuc, ◌≤ℤ◌}
use rewind.Prelude.Members.{has_nat, has_nat-append}
use rewind.Prelude.Float.{Floats, Math, IsInRange, IsOrdered}
use rewind.Game.World.{Player, HistPos}
use rewind.Game.Combat.Hits.{
  Box, count_up, range, row_cells, box_cells, cell_of, cell_coord, cells_in, aoi_cols,
}

has-count_up : (c n s : ℕ) → has_nat c (count_up n s) ≡ (leb s c && ltb c (s + n))
unfolding count_up has_nat
has-count_up c zero s = ground arith
has-count_up c (suc n) s = ground (arith, has-count_up c n (suc s))

has-row_cells :
    (row cx : ℕ) (cxs : List ℕ)
    → has_nat cx cxs ≡ true
    → has_nat (row + cx) (row_cells row cxs) ≡ true
unfolding row_cells has_nat
has-row_cells row cx [] h = absurd (ground (arith, h))
has-row_cells row cx (x ∷ xs) h = ground (arith, h, has-row_cells row cx xs)

has-box_cells :
    (cx cy : ℕ) (cys cxs : List ℕ)
    → has_nat cy cys ≡ true
    → has_nat cx cxs ≡ true
    → has_nat (cy * aoi_cols + cx) (box_cells cys cxs) ≡ true
unfolding box_cells has_nat
has-box_cells cx cy [] cxs h k = absurd (ground (arith, h))
has-box_cells cx cy (y ∷ ys) cxs h k =
    has_nat-append (cy * aoi_cols + cx) (row_cells (y * aoi_cols) cxs) (box_cells ys cxs)
    ∙ elim (Bool-cases (y == cy)) [
      | inl e ↦
          let same : y ≡ cy = ground (arith, e) in
          let here : has_nat (cy * aoi_cols + cx) (row_cells (y * aoi_cols) cxs) ≡ true =
            rw same (has-row_cells (cy * aoi_cols) cx cxs k) in
          ground (arith, here)
      | inr e ↦
          let later = has-box_cells cx cy ys cxs (ground (arith, h, e)) k in ground (arith, later)
    ]

cell_of-le : (a b : ℤ) → a ≤ℤ b → cell_of a ≤ cell_of b
unfolding cell_of
cell_of-le (pos m) (pos n) h = ground (arith, h)
cell_of-le (pos m) (negsuc n) h = absurd (omega (arith, h))
cell_of-le (negsuc m) (pos n) h = omega arith
cell_of-le (negsuc m) (negsuc n) h = omega arith

module _ (fl : Floats) where
  open fl use {F32, le32}

  -- A place whose coordinates are in range.
  pub record IsPlace (h : HistPos F32) : Type 0 where
    pub x : IsInRange fl h.x
    pub y : IsInRange fl h.y

  pub record IsBox (b : Box F32) : Type 0 where
    pub min_x : IsInRange fl b.min_x
    pub min_y : IsInRange fl b.min_y
    pub max_x : IsInRange fl b.max_x
    pub max_y : IsInRange fl b.max_y

  -- The place lies in the box.
  pub record Holds (b : Box F32) (h : HistPos F32) : Type 0 where
    pub left : le32 b.min_x h.x ≡ true
    pub right : le32 h.x b.max_x ≡ true
    pub top : le32 b.min_y h.y ≡ true
    pub bottom : le32 h.y b.max_y ≡ true

  -- Where the player stands and stood.
  pub record ArePlaces (p : Player F32) : Type 0 where
    pub here : IsPlace (record { x = p.move.x; y = p.move.y })
    pub before : (i : ℕ) → IsPlace (p.pos_hist i)

module _ (fl : Floats) (mt : Math fl) where
  open fl use {F32}
  open mt use {to_int}

  abbrev pub cell_at : HistPos F32 → ℕ
  cell_at h = cell_coord fl mt h.y * aoi_cols + cell_coord fl mt h.x

  has-range : (a b c : ℕ) → a ≤ c → c ≤ b → has_nat c (range a b) ≡ true
  has-range a b c h k = has-count_up c (suc b - a) a ∙ ground (arith, h, k)

  -- What lies in a box has its cell among the cells of the box.
  pub cells_in-has :
      (ord : IsOrdered fl mt) (b : Box F32) (h : HistPos F32)
      → IsBox fl b
      → IsPlace fl h
      → Holds fl b h
      → has_nat (cell_at h) (cells_in fl mt b) ≡ true
  unfolding cells_in
  cells_in-has ord b h q p v =
      has-box_cells (cell_coord fl mt h.x) (cell_coord fl mt h.y) _ _
        (has-range _ _ _
          (cell_of-le (to_int b.min_y) (to_int h.y) (ord.int_le b.min_y h.y q.min_y p.y v.top))
          (cell_of-le (to_int h.y) (to_int b.max_y) (ord.int_le h.y b.max_y p.y q.max_y v.bottom)))
        (has-range _ _ _
          (cell_of-le (to_int b.min_x) (to_int h.x) (ord.int_le b.min_x h.x q.min_x p.x v.left))
          (cell_of-le (to_int h.x) (to_int b.max_x) (ord.int_le h.x b.max_x p.x q.max_x v.right)))
