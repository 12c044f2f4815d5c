-- ===== src/Tests/Broad.antt =====
-- The broad phase of the fight of Tests/Combat, and the laws of order for the numbers of Tests/Fixed.
use rewind.Prelude.{ℕ, sym, ◌≡◌, ◌≤◌, [], ◌∷◌, All, true, false, refl, arith}
use rewind.Prelude.Float.{IsInRange, IsOrdered}
use rewind.Prelude.Int.{ℤ, pos, negsuc, ltb_ℤ}
use rewind.Game.World.{World, Player, find_player, new_player, set_player}
use rewind.Game.Combat.{target_pos, apply_damage, combat_event, event_hit}
use rewind.Game.Combat.Hits.{
  hit_grid, find_hit, is_struck, is_spared, segment_circle_hit, along, clamp, pick_victim,
  build_grid, cells_in, rewind_aabb, rewind_loop, grow_box, box_cells, row_cells, count_up, cell_of,
  add_to_cells, add_to_cell, query_cells, hit_box, judge, is_beaten,
}
use rewind.Game.Combat.Cells.{IsPlace, ArePlaces}
use rewind.Game.Combat.Choice.{first_struck}
use rewind.Game.Combat.Least.{IsWithin, IsSegment, NearIfHit, after_flights, find_hit-first}
use rewind.Game.Combat.Flight.{
  step_all, step_projectile, impact, hurt, segment_wall_hit, first_wall, seg_aabb_entry, entry,
  then_slab, slab, narrow_span, earlier, is_some, or_else, one_less, weapon_spec_of,
}
use rewind.Game.Killstreak.{invulnerable}
use mathlib.Core.Path.{subst}
use rewind.Tests.Fixed.{fixed, int_le}
use rewind.Tests.Combat.{fixed_math, at_x, corpse, fight, bullet, fight-IsAscending}

fixed-IsOrdered : IsOrdered fixed fixed_math
fixed-IsOrdered = record {
  le_self = λ a _. ground arith;
  le_trans = λ a b c h k. ground (arith, h, k);
  min_one = λ a b _ _. ground arith;
  min_left = λ a b _ _. ground arith;
  min_right = λ a b _ _. ground arith;
  max_one = λ a b _ _. ground arith;
  max_left = λ a b _ _. ground arith;
  max_right = λ a b _ _. ground arith;
  int_le = λ a b _ _ h. int_le a b h;
}

is_inside :
    (v : ℤ) → ltb_ℤ v (negsuc 524287) ≡ false → ltb_ℤ (pos 524288) v ≡ false → IsInRange fixed v
is_inside v h k = record { lower = ground (arith, h); upper = ground (arith, k) }

bullet-IsSegment : IsSegment fixed fixed_math bullet (pos 2036) (pos 1600)
bullet-IsSegment = record {
  low_x = is_inside _ refl refl;
  high_x = is_inside _ refl refl;
  low_y = is_inside _ refl refl;
  high_y = is_inside _ refl refl;
}

on_line : (x : ℕ) → x ≤ 524288 → IsPlace fixed (record { x = pos x; y = pos 1600 })
on_line x h = record {
  x = is_inside (pos x) (ground arith) (ground (arith, h));
  y = is_inside _ refl refl;
}

at_x-ArePlaces : (id x : ℕ) → x ≤ 524288 → ArePlaces fixed (at_x id x)
unfolding new_player
at_x-ArePlaces id x h = record { here = on_line x h; before = λ _. on_line x h }

fight-ArePlaces : All (ArePlaces fixed) fight.players
unfolding new_player
fight-ArePlaces =
    let third : ArePlaces fixed corpse = record {
      here = on_line 2400 (omega arith);
      before = λ _. on_line 2400 (omega arith);
    } in
    let last : All (ArePlaces fixed) (corpse ∷ []) = (third, tt) in
    let rest : All (ArePlaces fixed) (at_x 2 2000 ∷ corpse ∷ []) =
      (at_x-ArePlaces 2 2000 (omega arith), last) in
    (at_x-ArePlaces 1 1600 (omega arith), rest)

missed :
    (x : ℕ)
    → segment_circle_hit fixed fixed_math
        (pos 1936)
        (pos 1600)
        (pos 2036)
        (pos 1600)
        (pos x)
        (pos 1600)
        (pos 320)
      ≡ false
    → segment_circle_hit fixed fixed_math
        (pos 1936)
        (pos 1600)
        (pos 2036)
        (pos 1600)
        (pos x)
        (pos 1600)
        (pos 320)
      ≡ true
    → IsWithin fixed fixed_math bullet (pos 2036) (pos 1600) (record { x = pos x; y = pos 1600 })
missed x h k = absurd (ground (arith, h, k))

abbrev fight_after : World ℤ
fight_after = after_flights fixed fixed_math fight (pos 1) (bullet ∷ [])

-- The first bullet hits the second player.
abbrev wounded : Player ℤ
wounded = record (at_x 2 2000) { hp = 75 }

abbrev fight_wounded : World ℤ
fight_wounded = record fight {
  players = at_x 1 1600 ∷ wounded ∷ corpse ∷ [];
  events = combat_event fixed event_hit 1 2 25 75 0 ∷ [];
}

after_run : fight_after ≡ fight_wounded
unfolding step_all step_projectile find_hit pick_victim new_player build_grid cells_in rewind_aabb
    rewind_loop grow_box box_cells row_cells count_up cell_of add_to_cells add_to_cell query_cells
    hit_box is_struck is_spared segment_circle_hit along clamp target_pos judge is_beaten
    find_player impact hurt apply_damage segment_wall_hit first_wall seg_aabb_entry entry then_slab
    slab narrow_span earlier is_some or_else one_less weapon_spec_of set_player invulnerable
after_run = refl

abbrev Near : Player ℤ → Type 0
Near = NearIfHit fixed fixed_math fight_wounded bullet (pos 2036) (pos 1600)

-- For the next one, the first and the last stand too far off, and the second in the way.
fight_wounded-Near : All Near fight_wounded.players
unfolding target_pos segment_circle_hit along clamp new_player
fight_wounded-Near =
    let last : All Near (corpse ∷ []) = (missed 2400 refl, tt) in
    let second : Near wounded =
      λ _. record { left = refl; right = refl; top = refl; bottom = refl } in
    let rest : All Near (wounded ∷ corpse ∷ []) = (second, last) in (missed 1600 refl, rest)

find_hit-first_example :
    find_hit fixed fixed_math
      (hit_grid fixed fixed_math fight)
      fight_after
      bullet
      (pos 2036)
      (pos 1600)
    ≡ first_struck 1
        (is_struck fixed fixed_math fight_after bullet (pos 2036) (pos 1600))
        fight_after.players
find_hit-first_example =
    find_hit-first fixed fixed_math fixed-IsOrdered fight (pos 1) (bullet ∷ []) bullet (pos 2036)
      (pos 1600) fight-IsAscending fight-ArePlaces (omega arith) bullet-IsSegment
      (subst
        (λ (w : World ℤ). All (NearIfHit fixed fixed_math w bullet (pos 2036) (pos 1600)) w.players)
        (sym after_run) fight_wounded-Near)
