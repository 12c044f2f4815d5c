-- ===== src/Game/Combat/Window.antt =====
-- rewindAABB goes round all the places to which a shot may be rewound.

use rewind.Prelude.{
  ℕ, zero, suc, ◌≡◌, ◌+◌, ◌-◌, ◌≤◌, ◌<◌, ◌%◌, ◌^◌, ◌==◌, arith, sym, inl, inr, Bool-cases,
}
use mathlib.Core.Path.{subst}
use rewind.Prelude.Int.{ℤ, pos, negsuc, ◌≤ℤ◌}
use rewind.Prelude.Float.{Floats, Math, IsInRange, IsOrdered}
use rewind.Game.World.{Player, HistPos}
use rewind.Game.Combat.{history_len, target_pos}
use rewind.Game.Combat.Hits.{Box, grow_box, rewind_loop, rewind_aabb}
use rewind.Game.Combat.Cells.{IsPlace, IsBox, Holds, ArePlaces}

module _ (fl : Floats) (mt : Math fl) (ord : IsOrdered fl mt) where
  open fl use {F32, le32}
  open mt use {min32, max32, to_int}

  min32-IsInRange : (a b : F32) → IsInRange fl a → IsInRange fl b → IsInRange fl (min32 a b)
  min32-IsInRange a b h k = elim (ord.min_one a b h k) [
    | inl e ↦ subst (IsInRange fl) (sym e) h
    | inr e ↦ subst (IsInRange fl) (sym e) k
  ]

  max32-IsInRange : (a b : F32) → IsInRange fl a → IsInRange fl b → IsInRange fl (max32 a b)
  max32-IsInRange a b h k = elim (ord.max_one a b h k) [
    | inl e ↦ subst (IsInRange fl) (sym e) h
    | inr e ↦ subst (IsInRange fl) (sym e) k
  ]

  grow_box-IsBox :
      (h : HistPos F32) (b : Box F32) → IsPlace fl h → IsBox fl b → IsBox fl (grow_box fl mt h b)
  unfolding grow_box
  grow_box-IsBox h b p q = record {
    min_x = min32-IsInRange b.min_x h.x q.min_x p.x;
    min_y = min32-IsInRange b.min_y h.y q.min_y p.y;
    max_x = max32-IsInRange b.max_x h.x q.max_x p.x;
    max_y = max32-IsInRange b.max_y h.y q.max_y p.y;
  }

  grow_box-Holds_new :
      (h : HistPos F32) (b : Box F32) → IsPlace fl h → IsBox fl b → Holds fl (grow_box fl mt h b) h
  unfolding grow_box
  grow_box-Holds_new h b p q = record {
    left = ord.min_right b.min_x h.x q.min_x p.x;
    right = ord.max_right b.max_x h.x q.max_x p.x;
    top = ord.min_right b.min_y h.y q.min_y p.y;
    bottom = ord.max_right b.max_y h.y q.max_y p.y;
  }

  grow_box-Holds_old :
      (h g : HistPos F32) (b : Box F32)
      → IsPlace fl h
      → IsBox fl b
      → Holds fl b g
      → Holds fl (grow_box fl mt h b) g
  unfolding grow_box
  grow_box-Holds_old h g b p q v = record {
    left = ord.le_trans _ b.min_x g.x (ord.min_left b.min_x h.x q.min_x p.x) v.left;
    right = ord.le_trans g.x b.max_x _ v.right (ord.max_left b.max_x h.x q.max_x p.x);
    top = ord.le_trans _ b.min_y g.y (ord.min_left b.min_y h.y q.min_y p.y) v.top;
    bottom = ord.le_trans g.y b.max_y _ v.bottom (ord.max_left b.max_y h.y q.max_y p.y);
  }

  module _ (tick : ℕ) (p : Player F32) (ok : ArePlaces fl p) where
    abbrev past : ℕ → HistPos F32
    past r = p.pos_hist ((tick + 2 ^ 32 - r) % history_len)

    rewind_loop-IsBox :
        (n r : ℕ) (b : Box F32) → IsBox fl b → IsBox fl (rewind_loop fl mt n r tick p b)
    unfolding rewind_loop
    rewind_loop-IsBox zero r b q = q
    rewind_loop-IsBox (suc n) r b q =
        rewind_loop-IsBox n (suc r) (grow_box fl mt (past r) b)
          (grow_box-IsBox (past r) b (ok.before _) q)

    rewind_loop-Holds_old :
        (n r : ℕ) (b : Box F32) (g : HistPos F32)
        → IsBox fl b
        → Holds fl b g
        → Holds fl (rewind_loop fl mt n r tick p b) g
    unfolding rewind_loop
    rewind_loop-Holds_old zero r b g q v = v
    rewind_loop-Holds_old (suc n) r b g q v =
        rewind_loop-Holds_old n (suc r) (grow_box fl mt (past r) b) g
          (grow_box-IsBox (past r) b (ok.before _) q)
          (grow_box-Holds_old (past r) g b (ok.before _) q v)

    rewind_loop-Holds_window :
        (n r k : ℕ) (b : Box F32)
        → IsBox fl b
        → r ≤ k
        → k < r + n
        → Holds fl (rewind_loop fl mt n r tick p b) (past k)
    unfolding rewind_loop
    rewind_loop-Holds_window zero r k b q h l = absurd (omega (arith, h, l))
    rewind_loop-Holds_window (suc n) r k b q h l =
        let grown : IsBox fl (grow_box fl mt (past r) b) =
          grow_box-IsBox (past r) b (ok.before _) q in
        elim (Bool-cases (r == k)) [
          | inl e ↦
              let same : r ≡ k = ground (arith, e) in
              rewind_loop-Holds_old n (suc r) (grow_box fl mt (past r) b) (past k) grown (
                subst (λ (j : ℕ). Holds fl (grow_box fl mt (past r) b) (past j)) same
                  (grow_box-Holds_new (past r) b (ok.before _) q))
          | inr e ↦
              rewind_loop-Holds_window n (suc r) k (grow_box fl mt (past r) b) grown
                (ground (arith, h, e)) (omega (arith, l))
        ]

    abbrev stands : HistPos F32
    stands = record { x = p.move.x; y = p.move.y }

    abbrev standing : Box F32
    standing = record { min_x = stands.x; min_y = stands.y; max_x = stands.x; max_y = stands.y }

    standing-IsBox : IsBox fl standing
    standing-IsBox = record {
      min_x = ok.here.x;
      min_y = ok.here.y;
      max_x = ok.here.x;
      max_y = ok.here.y;
    }

    standing-Holds : Holds fl standing stands
    standing-Holds = record {
      left = ord.le_self stands.x ok.here.x;
      right = ord.le_self stands.x ok.here.x;
      top = ord.le_self stands.y ok.here.y;
      bottom = ord.le_self stands.y ok.here.y;
    }

    pub rewind_aabb-IsBox : IsBox fl (rewind_aabb fl mt tick p)
    unfolding rewind_aabb
    rewind_aabb-IsBox = rewind_loop-IsBox 10 1 standing standing-IsBox

    pub target_pos-IsPlace : (r : ℤ) → IsPlace fl (target_pos tick p r)
    unfolding target_pos
    target_pos-IsPlace (pos zero) = ok.here
    target_pos-IsPlace (pos (suc r)) = ok.before _
    target_pos-IsPlace (negsuc n) = ok.here

    -- Each place to which a shot may be rewound lies in the box that is filled into the grid.
    pub rewind_aabb-Holds :
        (r : ℤ) → r ≤ℤ pos 10 → Holds fl (rewind_aabb fl mt tick p) (target_pos tick p r)
    unfolding rewind_aabb target_pos
    rewind_aabb-Holds (pos zero) h =
        rewind_loop-Holds_old 10 1 standing stands standing-IsBox standing-Holds
    rewind_aabb-Holds (pos (suc r)) h =
        rewind_loop-Holds_window 10 1 (suc r) standing standing-IsBox (omega arith)
          (omega (arith, h))
    rewind_aabb-Holds (negsuc n) h =
        rewind_loop-Holds_old 10 1 standing stands standing-IsBox standing-Holds
