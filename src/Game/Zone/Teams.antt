-- ===== src/Game/Zone/Teams.antt =====
-- Who gets the points of a zone in a team mode.
use rewind.Prelude.{
  ℕ, ◌-◌, ◌<◌, ◌%◌, ◌≡◌, List, [], ◌∷◌, map, All, Bool, true, false, not, ◌&&◌, ◌||◌, ◌==◌, arith,
  Bool-cases, inl, inr, refl, if◌then◌else◌, suc, zero, All-map, ◌∙◌,
}
use mathlib.Core.Path.{ap₂, ap}
use rewind.Game.World.{Player}
use rewind.Game.Zone.{Presence, nobody, notice, look, award, score_zone}

module _ {F : Type 0} (far : Player F → Bool) where
  -- A living player of the team is in the zone.
  unfoldable pub has_side : ℕ → List (Player F) → Bool
  has_side t [] = false
  has_side t (p ∷ ps) = (not (p.dead || far p) && p.team % 2 == t) || has_side t ps

  -- What the first pass finds, starting from `s`.
  abbrev Finds : List (Player F) → Presence → Presence → Type 0
  Finds ps s r =
      (r.zero ≡ (s.zero || has_side 0 ps))
      × (r.one ≡ (s.one || has_side 1 ps))
      × (r.any ≡ (s.any || (has_side 0 ps || has_side 1 ps)))

  look-Finds : (ps : List (Player F)) (s : Presence) → Finds ps s (look far true ps s)
  unfolding look notice has_side
  look-Finds [] s = (ground arith, ground arith, ground arith)
  look-Finds (p ∷ ps) s = elim (Bool-cases (p.dead || far p)) [
    | inl e ↦ simp e (look-Finds ps s)
    | inr e ↦
        let r : Finds ps (notice true p s) (look far true ps (notice true p s)) =
          look-Finds ps (notice true p s) in
        simp e (ground (arith, r), ground (arith, r), ground (arith, r))
  ]

  -- What the source says of a zone: living, inside, with a team mate inside and no opponent.
  abbrev pub controls : (Player F → Bool) → List (Player F) → Player F → Bool
  controls near ps p =
      not p.dead && (near p && (has_side p.team ps && not (has_side (1 - p.team) ps)))

  award_control :
      (near : Player F → Bool) (bump : Player F → Player F) (n : ℕ) (p : Player F)
      → award near bump n p ≡ (if not p.dead && (near p && (p.team == n)) then bump p else p)
  unfolding award
  award_control near bump n p = elim (Bool-cases p.dead) [
    | inl d ↦ simp d refl
    | inr d ↦ elim (Bool-cases (p.team == n)) [
      | inl t ↦
          simp (d, t) (elim (Bool-cases (near p)) [ inl k ↦ simp k refl | inr k ↦ simp k refl ])
      | inr t ↦
          simp (d, t) (elim (Bool-cases (near p)) [ inl k ↦ simp k refl | inr k ↦ simp k refl ])
    ]
  ]

  -- With one team only in the zone, its players are those without an opponent there.
  same_control :
      (ps : List (Player F)) (t : ℕ)
      → t < 2
      → (has_side 0 ps && has_side 1 ps) ≡ false
      → (has_side 0 ps || has_side 1 ps) ≡ true
      → (t == (if has_side 1 ps then 1 else 0)) ≡ (has_side t ps && not (has_side (1 - t) ps))
  same_control ps zero h k l = ground (arith, k, l)
  same_control ps (suc zero) h k l = ground (arith, k, l)
  same_control ps (suc (suc t)) h k l = absurd (omega (arith, h))

  contested :
      (ps : List (Player F)) (t : ℕ)
      → t < 2
      → (not (has_side 0 ps || has_side 1 ps) || (has_side 0 ps && has_side 1 ps)) ≡ true
      → (has_side t ps && not (has_side (1 - t) ps)) ≡ false
  contested ps zero h k = ground (arith, k)
  contested ps (suc zero) h k = ground (arith, k)
  contested ps (suc (suc t)) h k = absurd (omega (arith, h))

  module _ (near : Player F → Bool) (bump : Player F → Player F) (ps : List (Player F)) where
    scored : Player F → Player F
    scored p = if controls near ps p then bump p else p

    scored-none :
        (not (has_side 0 ps || has_side 1 ps) || (has_side 0 ps && has_side 1 ps)) ≡ true
        → (p : Player F) → p.team < 2
        → p ≡ scored p
    unfolding scored
    scored-none e p h = elim (Bool-cases (controls near ps p)) [
      | inl k ↦ absurd (ground (arith, k, contested ps p.team h e))
      | inr k ↦ simp k refl
    ]

    scored-award :
        (not (has_side 0 ps || has_side 1 ps) || (has_side 0 ps && has_side 1 ps)) ≡ false
        → (p : Player F) → p.team < 2
        → award near bump (if has_side 1 ps then 1 else 0) p ≡ scored p
    unfolding scored
    scored-award e p h =
        award_control near bump _ p
        ∙ ap (λ (c : Bool). if not p.dead && (near p && c) then bump p else p)
            (same_control ps p.team h (ground (arith, e)) (ground (arith, e)))

  map_same :
      (f g : Player F → Player F) (ps : List (Player F))
      → All (λ (p : Player F). f p ≡ g p) ps
      → map f ps ≡ map g ps
  map_same f g [] v = refl
  map_same f g (p ∷ ps) (h, v) = ap₂ (◌∷◌) h (map_same f g ps v)

  map_none :
      (g : Player F → Player F) (ps : List (Player F))
      → All (λ (p : Player F). p ≡ g p) ps
      → ps ≡ map g ps
  map_none g [] v = refl
  map_none g (p ∷ ps) (h, v) = ap₂ (◌∷◌) h (map_none g ps v)

  -- In a team mode, with teams 0 and 1, a zone gives its point to exactly those players who live,
  -- stand in it, and have a living player of their team in it and none of the other: nobody scores
  -- in an empty or a contested zone.
  pub score_zone-controls :
      (near : Player F → Bool) (bump : Player F → Player F) (ps : List (Player F))
      → All (λ (p : Player F). p.team < 2) ps
      → score_zone far near bump true ps ≡ map (λ p. if controls near ps p then bump p else p) ps
  unfolding score_zone scored
  score_zone-controls near bump ps v =
      let r : Finds ps nobody (look far true ps nobody) = look-Finds ps nobody in
      rw (r.0, r.1, r.2)
        (elim (Bool-cases
          (not (has_side 0 ps || has_side 1 ps) || (has_side 0 ps && has_side 1 ps))) [
            | inl e ↦ rw e (
                map_none (scored near bump ps) ps (
                  All-map {P = λ (p : Player F). p.team < 2}
                    {Q = λ (p : Player F). p ≡ scored near bump ps p} (scored-none near bump ps e)
                    ps v))
            | inr e ↦ rw e (
                map_same (award near bump (if has_side 1 ps then 1 else 0)) (scored near bump ps) ps
                  (All-map {P = λ (p : Player F). p.team < 2}
                    {Q = λ (p : Player F).
                      award near bump (if has_side 1 ps then 1 else 0) p ≡ scored near bump ps p}
                    (scored-award near bump ps e) ps v))
          ])
