-- ===== src/Game/Combat/Covers.antt =====
-- The grid of combat.go: whoever lives stands in each cell of the box that was filled, and a query gives
-- all that stand in its cells.
use rewind.Prelude.{
  ℕ, ◌≡◌, List, [], ◌∷◌, true, false, ◌&&◌, ◌||◌, ◌==◌, if◌then◌else◌, some, arith, ap, ◌∙◌,
  Bool-cases, inl, inr, either-holds, else-holds,
}
use mathlib.Core.Option.{some-injective}
use rewind.Prelude.Members.{has_nat, has_nat-append}
use rewind.Prelude.Float.{Floats, Math}
use rewind.Game.World.{Player, find_player}
use rewind.Game.Combat.Hits.{
  Grid, add_to_cell, add_to_cells, query_cells, cells_in, rewind_aabb, build_grid,
}

module _ (fl : Floats) (mt : Math fl) where
  open fl use {F32}

  has-add_to_cells :
      (n id c : ℕ) (cs : List ℕ) (g : Grid)
      → has_nat n (add_to_cells id cs g c) ≡ (id == n && has_nat c cs || has_nat n (g c))
  unfolding add_to_cells add_to_cell has_nat
  has-add_to_cells n id c [] g = ground arith
  has-add_to_cells n id c (d ∷ cs) g =
      let rest = has-add_to_cells n id c cs (add_to_cell id d g) in
      elim (Bool-cases (c == d)) [
        | inl e ↦ rw e at rest ∙ ground (arith, e, has_nat-append n (g c) (id ∷ []))
        | inr e ↦ rw e at rest ∙ ground (arith, e)
      ]

  build_grid-keeps :
      (tick n c : ℕ) (ps : List (Player F32)) (g : Grid)
      → has_nat n (g c) ≡ true
      → has_nat n (build_grid fl mt tick ps g c) ≡ true
  unfolding build_grid
  build_grid-keeps tick n c [] g h = h
  build_grid-keeps tick n c (p ∷ ps) g h =
      let cells : List ℕ = cells_in fl mt (rewind_aabb fl mt tick p) in
      build_grid-keeps tick n c ps (if p.dead then g else add_to_cells p.id cells g) (
        either-holds (λ (x : Grid). has_nat n (x c) ≡ true) p.dead g (add_to_cells p.id cells g) h
          (has-add_to_cells n p.id c cells g ∙ ground (arith, h)))

  pub build_grid-has :
      (tick c : ℕ) (ps : List (Player F32)) (g : Grid) (id : ℕ) (p : Player F32)
      → find_player id ps ≡ some p
      → p.dead ≡ false
      → has_nat c (cells_in fl mt (rewind_aabb fl mt tick p)) ≡ true
      → has_nat id (build_grid fl mt tick ps g c) ≡ true
  unfolding build_grid find_player
  build_grid-has tick c [] g id p f d h = absurd (cc)
  build_grid-has tick c (q ∷ ps) g id p f d h = elim (Bool-cases (q.id == id)) [
    | inl e ↦
        let same : q ≡ p = some-injective _ _ (rw e at f) in
        let alive : q.dead ≡ false = ap (λ (x : Player F32). x.dead) same ∙ d in
        let cells : List ℕ = cells_in fl mt (rewind_aabb fl mt tick q) in
        let inside : has_nat c cells ≡ true =
          ap (λ (x : Player F32). has_nat c (cells_in fl mt (rewind_aabb fl mt tick x))) same ∙ h in
        build_grid-keeps tick id c ps (if q.dead then g else add_to_cells q.id cells g) (
          else-holds (λ (x : Grid). has_nat id (x c) ≡ true) q.dead g (add_to_cells q.id cells g)
            alive (has-add_to_cells id q.id c cells g ∙ ground (arith, e, inside)))
    | inr e ↦ build_grid-has tick c ps _ id p (rw e at f) d h
  ]

  pub query_cells-has :
      (n c : ℕ) (g : Grid) (cs : List ℕ)
      → has_nat c cs ≡ true
      → has_nat n (g c) ≡ true
      → has_nat n (query_cells g cs) ≡ true
  unfolding query_cells has_nat
  query_cells-has n c g [] h k = absurd (ground (arith, h))
  query_cells-has n c g (d ∷ cs) h k = elim (Bool-cases (d == c)) [
    | inl e ↦
        let same : d ≡ c = ground (arith, e) in
        has_nat-append n (g d) (query_cells g cs) ∙ rw same (ground (arith, k))
    | inr e ↦
        let rest = query_cells-has n c g cs (ground (arith, h, e)) k in
        has_nat-append n (g d) (query_cells g cs) ∙ ground (arith, rest)
  ]
