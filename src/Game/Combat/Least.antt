-- ===== src/Game/Combat/Least.antt =====
-- Whom a projectile hits: the struck player with the smallest id, as a search over all players finds.
use rewind.Prelude.{
  ℕ, zero, suc, ◌+◌, ◌-◌, ◌%◌, ◌^◌, ◌≡◌, [], true, arith, ap, ◌∙◌, refl, All, All-pair, All-map,
}
use mathlib.Core.Path.{subst}
use rewind.Prelude.Int.{ℤ, pos, negsuc, ◌≤ℤ◌}
use rewind.Prelude.Members.{has_nat}
use rewind.Prelude.Float.{Floats, Math, IsInRange, IsOrdered}
use rewind.Game.World.{Player, HistPos, World, Projectile}
use rewind.Game.World.Order.{IsAscending}
use rewind.Game.Combat.{history_len, target_pos, List}
use rewind.Game.Combat.Covers.{build_grid-has, query_cells-has}
use rewind.Game.Combat.Cells.{IsPlace, IsBox, Holds, ArePlaces, cell_at, cells_in-has}
use rewind.Game.Combat.Window.{rewind_aabb-IsBox, rewind_aabb-Holds, target_pos-IsPlace}
use rewind.Game.Combat.Kept.{IsKept, Stays, start-Stays}
use rewind.Game.Combat.Flights.{step_all-Stays}
use rewind.Game.Combat.Flight.{step_all}
use rewind.Game.Combat.Vital.{find_player-All}
use rewind.Game.Combat.Hits.{
  Box, cells_in, rewind_aabb, find_hit, query, is_struck, is_spared, hit_grid, hit_box,
  segment_circle_hit,
}
use rewind.Game.Combat.Choice.{first_struck, pick_victim-first}

module _ (fl : Floats) (mt : Math fl) where
  open fl use {F32, int32, add32, sub32, le32}
  open mt use {min32, max32}

  -- How far to the left of two numbers a circle reaches that touches what is between them, and how
  -- far to the right: by the radii of a player and of a projectile, 16 and 4.
  abbrev pub low : F32 → F32 → F32
  low a b = sub32 (min32 a b) (int32 (pos 20))

  abbrev pub high : F32 → F32 → F32
  high a b = add32 (max32 a b) (int32 (pos 20))

  -- The place is at most the two radii off the segment, on each axis.
  pub record IsWithin (pr : Projectile F32) (nx ny : F32) (h : HistPos F32) : Type 0 where
    pub left : le32 (low pr.x nx) h.x ≡ true
    pub right : le32 h.x (high pr.x nx) ≡ true
    pub top : le32 (low pr.y ny) h.y ≡ true
    pub bottom : le32 h.y (high pr.y ny) ≡ true

  -- The segment and what is near it are in range.
  pub record IsSegment (pr : Projectile F32) (nx ny : F32) : Type 0 where
    pub low_x : IsInRange fl (low pr.x nx)
    pub high_x : IsInRange fl (high pr.x nx)
    pub low_y : IsInRange fl (low pr.y ny)
    pub high_y : IsInRange fl (high pr.y ny)

  -- Segment and circle only meet where they are near.
  abbrev pub NearIfHit : World F32 → Projectile F32 → F32 → F32 → Player F32 → Type 0
  NearIfHit w pr nx ny p =
      let at : HistPos F32 = target_pos w.tick p pr.rewound in
      segment_circle_hit fl mt pr.x pr.y nx ny at.x at.y (int32 (pos 20)) ≡ true
      → IsWithin pr nx ny at

  hit_box-IsBox :
      (pr : Projectile F32) (nx ny : F32) → IsSegment pr nx ny → IsBox fl (hit_box fl mt pr nx ny)
  unfolding hit_box
  hit_box-IsBox pr nx ny s = record {
    min_x = s.low_x;
    min_y = s.low_y;
    max_x = s.high_x;
    max_y = s.high_y;
  }

  hit_box-Holds :
      (pr : Projectile F32) (nx ny : F32) (h : HistPos F32)
      → IsWithin pr nx ny h
      → Holds fl (hit_box fl mt pr nx ny) h
  unfolding hit_box
  hit_box-Holds pr nx ny h v = record {
    left = v.left;
    right = v.right;
    top = v.top;
    bottom = v.bottom;
  }

  target_pos-kept :
      (tick : ℕ) (p q : Player F32) (r : ℤ)
      → q.move.x ≡ p.move.x
      → q.move.y ≡ p.move.y
      → q.pos_hist ≡ p.pos_hist
      → target_pos tick q r ≡ target_pos tick p r
  unfolding target_pos
  target_pos-kept tick p q (pos zero) h k e = rw (h, k) refl
  target_pos-kept tick p q (pos (suc n)) h k e =
      ap (λ (f : ℕ → HistPos F32). f ((tick + 2 ^ 32 - suc n) % history_len)) e
  target_pos-kept tick p q (negsuc n) h k e = rw (h, k) refl

  -- Who is struck stands in a cell of the grid that the box of the segment touches.
  struck-query :
      (ord : IsOrdered fl mt) (start w : World F32) (pr : Projectile F32) (nx ny : F32)
      (p : Player F32) (k : IsKept start p)
      → start.tick ≡ w.tick
      → pr.rewound ≤ℤ pos 10
      → IsSegment pr nx ny
      → ArePlaces fl k.was
      → NearIfHit w pr nx ny p
      → is_struck fl mt w pr nx ny p ≡ true
      → has_nat p.id (query fl mt (hit_grid fl mt start) (hit_box fl mt pr nx ny)) ≡ true
  unfolding is_struck is_spared
  struck-query ord start w pr nx ny p k t r s a near h =
      let at : HistPos F32 = target_pos w.tick p pr.rewound in
      let aabb : Box F32 = rewind_aabb fl mt start.tick k.was in
      let same : target_pos start.tick k.was pr.rewound ≡ at =
        target_pos-kept start.tick p k.was pr.rewound k.same_x k.same_y k.same_hist
        ∙ ap (λ (n : ℕ). target_pos n p pr.rewound) t in
      let window : Holds fl aabb at =
        subst (Holds fl aabb) same (rewind_aabb-Holds fl mt ord start.tick k.was a pr.rewound r) in
      let place : IsPlace fl at =
        subst (IsPlace fl) same (target_pos-IsPlace fl mt ord start.tick k.was a pr.rewound) in
      let inside : has_nat (cell_at fl mt at) (cells_in fl mt aabb) ≡ true =
        cells_in-has fl mt ord aabb at (rewind_aabb-IsBox fl mt ord start.tick k.was a) place
          window in
      let crossed : has_nat (cell_at fl mt at) (cells_in fl mt (hit_box fl mt pr nx ny)) ≡ true =
        cells_in-has fl mt ord (hit_box fl mt pr nx ny) at (hit_box-IsBox pr nx ny s) place
          (hit_box-Holds pr nx ny at (near (ground (arith, h)))) in
      query_cells-has fl mt p.id (cell_at fl mt at) (hit_grid fl mt start)
        (cells_in fl mt (hit_box fl mt pr nx ny)) crossed
        (build_grid-has fl mt start.tick (cell_at fl mt at) start.players (λ _. []) p.id k.was
          k.found (k.alive (ground (arith, h))) inside)

  -- The world in the middle of stepProjectiles: after `prs` have flown, over the grid of its start.
  abbrev pub after_flights : World F32 → F32 → List (Projectile F32) → World F32
  after_flights start dt prs = (step_all fl mt (hit_grid fl mt start) dt start prs).0

  -- The broad phase loses no hit: whatever projectiles have flown and hit since the grid was built,
  -- findHit, over its candidates, gives the first player in the order of ids whom a search over all
  -- players finds struck. The ids ascend; the shot is rewound by at most 10 ticks; the coordinates
  -- of the players at the start, in their history too, and of the segment are between -32768 and
  -- 32768; and the test of the segment against a player's circle never succeeds for a place that is
  -- further off the segment, on one axis, than the two radii.
  pub find_hit-first :
      (ord : IsOrdered fl mt) (start : World F32) (dt : F32) (prs : List (Projectile F32))
      (pr : Projectile F32) (nx ny : F32)
      → IsAscending 0 start.players
      → All (ArePlaces fl) start.players
      → pr.rewound ≤ℤ pos 10
      → IsSegment pr nx ny
      → All (NearIfHit (after_flights start dt prs) pr nx ny) (after_flights start dt prs).players
      → find_hit fl mt (hit_grid fl mt start) (after_flights start dt prs) pr nx ny
        ≡ first_struck pr.owner
            (is_struck fl mt (after_flights start dt prs) pr nx ny)
            (after_flights start dt prs).players
  unfolding find_hit
  find_hit-first ord start dt prs pr nx ny asc places r s near =
      let w : World F32 = after_flights start dt prs in
      let v : Stays start w =
        step_all-Stays fl mt start (hit_grid fl mt start) dt start prs (start-Stays start asc) in
      pick_victim-first pr.owner (is_struck fl mt w pr nx ny) 0 w.players
        (query fl mt (hit_grid fl mt start) (hit_box fl mt pr nx ny)) v.ascend
        (All-map
          (λ p k h.
            struck-query ord start w pr nx ny p k.0 v.tick r s
              (find_player-All (ArePlaces fl) p.id start.players k.0.was places k.0.found) k.1
              (ground (arith, h)))
          w.players (All-pair (IsKept start) (NearIfHit w pr nx ny) w.players v.kept near))
