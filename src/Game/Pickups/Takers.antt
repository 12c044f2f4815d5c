-- ===== src/Game/Pickups/Takers.antt =====
-- What the items do to the players: hit points stay within bounds, and the dead get nothing.
use rewind.Prelude.{
  ℕ, ◌≡◌, ◌+◌, List, [], ◌∷◌, All, true, false, not, ◌==◌, leb, Option, none, some, refl, arith, ap,
  sym, ◌∙◌, Bool-cases, inl, inr, either-holds, if-holds,
}
use mathlib.Core.Option.{some-injective}
use rewind.Prelude.Float.{Floats}
use rewind.Game.World.{Player, find_player}
use rewind.Game.Combat.Vital.{IsVital}
use rewind.Game.Pickups.{
  Spot, PickupState, Turn, apply_pickup, takes, give, and_then, given, appear, step_spot,
  step_pickups, pickup_medkit, pickup_rapid, pickup_spread,
}

true-false : ¬ (true ≡ false)
true-false h = absurd (cc)

module _ (fl : Floats) where
  open fl use {F32}

  -- From one list of players to the next, the vital stay vital and the dead stay as they are.
  pub record Fair (ps qs : List (Player F32)) : Type 0 where
    pub vital : All IsVital ps → All IsVital qs
    pub dead :
        (id : ℕ) (d : Player F32)
        → d.dead ≡ true
        → find_player id ps ≡ some d
        → find_player id qs ≡ some d

  Fair-refl : (ps : List (Player F32)) → Fair ps ps
  Fair-refl ps = record { vital = λ v. v; dead = λ id d k h. h }

  Fair-trans : (ps qs rs : List (Player F32)) → Fair ps qs → Fair qs rs → Fair ps rs
  Fair-trans ps qs rs f g = record {
    vital = λ v. g.vital (f.vital v);
    dead = λ id d k h. g.dead id d k (f.dead id d k h);
  }

  -- What an item makes of a player.
  abbrev Improves : Player F32 → Player F32 → Type 0
  Improves p q = (q.id ≡ p.id) × (IsVital p → IsVital q)

  apply_pickup-Improves :
      (tick : ℕ) (p : Player F32) (k : ℕ) → Improves p (apply_pickup fl tick p k)
  unfolding apply_pickup
  apply_pickup-Improves tick p k =
      let same : Improves p p = (refl, λ v. v) in
      either-holds (Improves p) (k == pickup_medkit) _ _
        (refl, λ v. (ground (arith, v.0), λ alive. ground (arith, v.1 alive)))
        (either-holds (Improves p) (k == pickup_rapid) _ _ same
          (either-holds (Improves p) (k == pickup_spread) _ _ same same))

  head-Fair :
      (p q : Player F32) (ps : List (Player F32))
      → p.dead ≡ false
      → Improves p q
      → Fair (p ∷ ps) (q ∷ ps)
  unfolding find_player
  head-Fair p q ps alive (same, keeps) = record {
    vital = λ v. (keeps v.0, v.1);
    dead = λ id d k h. elim (Bool-cases (p.id == id)) [
      | inl e ↦
          let it : p ≡ d = some-injective _ _ (rw e at h) in
          absurd (true-false (sym k ∙ ap (λ (x : Player F32). x.dead) (sym it) ∙ alive))
      | inr e ↦
          let other : (q.id == id) ≡ false = ground (arith, e, same) in
          let rest : find_player id ps ≡ some d = rw e at h in rw other rest
    ];
  }

  tail-Fair : (p : Player F32) (ps qs : List (Player F32)) → Fair ps qs → Fair (p ∷ ps) (p ∷ qs)
  unfolding find_player
  tail-Fair p ps qs f = record {
    vital = λ v. (v.0, f.vital v.1);
    dead = λ id d k h. elim (Bool-cases (p.id == id)) [
      | inl e ↦ rw e (rw e at h)
      | inr e ↦ rw e (f.dead id d k (rw e at h))
    ];
  }

  -- The players after the item was given, if it was.
  unfoldable IsGiven : List (Player F32) → Option (List (Player F32)) → Type 0
  IsGiven ps none = Unit
  IsGiven ps (some qs) = Fair ps qs

  and_then-IsGiven :
      (p : Player F32) (ps : List (Player F32)) (o : Option (List (Player F32)))
      → IsGiven ps o
      → IsGiven (p ∷ ps) (and_then fl p o)
  unfolding IsGiven and_then
  and_then-IsGiven p ps none h = tt
  and_then-IsGiven p ps (some qs) h = tail-Fair p ps qs h

  give-IsGiven :
      (tick : ℕ) (s : Spot) (k : ℕ) (ps : List (Player F32)) → IsGiven ps (give fl tick s k ps)
  unfolding IsGiven give
  give-IsGiven tick s k [] = tt
  give-IsGiven tick s k (p ∷ ps) =
      if-holds (IsGiven (p ∷ ps)) (takes fl s p) (some (apply_pickup fl tick p k ∷ ps))
        (and_then fl p (give fl tick s k ps))
        (λ e.
          head-Fair p (apply_pickup fl tick p k) ps (ground (arith, e))
            (apply_pickup-Improves tick p k))
        (λ e. and_then-IsGiven p ps (give fl tick s k ps) (give-IsGiven tick s k ps))

  given-Fair :
      (tick : ℕ) (ps : PickupState) (players : List (Player F32)) (o : Option (List (Player F32)))
      → IsGiven players o
      → Fair players (given fl tick ps players o).players
  unfolding IsGiven given
  given-Fair tick ps players none h = Fair-refl players
  given-Fair tick ps players (some qs) h = h

  step_spot-Fair :
      (tick draw : ℕ) (s : Spot) (ps : PickupState) (players : List (Player F32))
      → Fair players (step_spot fl tick draw s ps players).players
  unfolding step_spot appear
  step_spot-Fair tick draw s ps players =
      let fair : Turn fl → Type 0 = λ (t : Turn fl). Fair players t.players in
      either-holds fair (not ps.active) (appear fl tick draw ps players)
        (given fl tick ps players (give fl tick s ps.kind players))
        (either-holds fair (leb ps.ready_at tick) _ _ (Fair-refl players) (Fair-refl players))
        (given-Fair tick ps players (give fl tick s ps.kind players)
          (give-IsGiven tick s ps.kind players))

  -- Whatever appears and whoever takes it: after the spots of a tick the players have at most 100 hit
  -- points and the living have some, if so it was before, and the dead are as they were.
  pub step_pickups-Fair :
      (tick : ℕ) (draw : ℕ → ℕ) (i : ℕ) (ss : List Spot) (pss : List PickupState)
      (players : List (Player F32))
      → Fair players (step_pickups fl tick draw i ss pss players).players
  unfolding step_pickups
  step_pickups-Fair tick draw i [] pss players = Fair-refl players
  step_pickups-Fair tick draw i (s ∷ ss) [] players = Fair-refl players
  step_pickups-Fair tick draw i (s ∷ ss) (ps ∷ pss) players =
      let here : List (Player F32) = (step_spot fl tick (draw i) s ps players).players in
      Fair-trans players here _ (step_spot-Fair tick (draw i) s ps players)
        (step_pickups-Fair tick draw (i + 1) ss pss here)
