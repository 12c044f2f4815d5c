-- ===== src/Game/Ctf/Carriers.antt =====
-- stepCTF: who may carry a flag.
use rewind.Prelude.{
  ℕ, ◌%◌, ◌≡◌, List, [], ◌∷◌, All, All-map, Bool, true, false, not, ◌&&◌, ◌||◌, ◌==◌, arith,
  Bool-cases, inl, inr, Option, none, some, refl, if◌then◌else◌, ◌∙◌,
}
use mathlib.Core.Option.{some-injective}
use mathlib.Core.Path.{ap₂}
use rewind.Prelude.Float.{Floats}
use rewind.Game.World.{World, Player, FlagDynamics, match_active, find_player}
use rewind.Game.Ctf.{
  flag_carried, flag_home, check_carrier, check_flag, touch_flag, touch_all, FlagWorld, capture,
  capture_step, capture_all, count_capture, touched, step_ctf, is_active, flag_dropped, scores,
  is_far, grab2, flag_at_base, base_x, base_y,
}

module _ {F : Type 0} where
  -- A living player of the other team has the id.
  unfoldable pub can_carry : ℕ → ℕ → List (Player F) → Bool
  can_carry i id [] = false
  can_carry i id (p ∷ ps) =
      (p.id == id && (not p.dead && not (p.team % 2 == i))) || can_carry i id ps

  -- If the flag of the team `i` is carried, then by a living player of the other team.
  abbrev pub IsHeld : ℕ → FlagDynamics F → List (Player F) → Type 0
  IsHeld i f ps = f.status ≡ flag_carried → can_carry i f.carrier ps ≡ true

  -- If the carrier of the flag is still in the world, it is of the other team.
  abbrev pub IsRival : ℕ → FlagDynamics F → List (Player F) → Type 0
  IsRival i f ps =
      f.status ≡ flag_carried
      → (p : Player F) → find_player f.carrier ps ≡ some p
      → (p.team % 2 == i) ≡ false

  find_player-can_carry :
      (i id : ℕ) (ps : List (Player F)) (p : Player F)
      → find_player id ps ≡ some p
      → p.dead ≡ false
      → (p.team % 2 == i) ≡ false
      → can_carry i id ps ≡ true
  unfolding find_player can_carry
  find_player-can_carry i id [] p e d t = absurd (cc)
  find_player-can_carry i id (q ∷ qs) p e d t = elim (Bool-cases (q.id == id)) [
    | inl k ↦
        let same : q ≡ p = some-injective q p (rw k at e) in
        let dead : q.dead ≡ false = rw same d in
        let team : (q.team % 2 == i) ≡ false = rw same t in ground (arith, k, dead, team)
    | inr k ↦
        let rest : can_carry i id qs ≡ true = find_player-can_carry i id qs p (rw k at e) d t in
        ground (arith, k, rest)
  ]

  -- Each living player of the other team is found among them.
  abbrev Finds : ℕ → List (Player F) → Player F → Type 0
  Finds i ps q = q.dead ≡ false → (q.team % 2 == i) ≡ false → can_carry i q.id ps ≡ true

  all_found : (i : ℕ) (ps : List (Player F)) → All (Finds i ps) ps
  unfolding can_carry
  all_found i [] = tt
  all_found i (p ∷ ps) =
      (λ d t. ground (arith, d, t), All-map (λ q h d t. ground (arith, h d t)) ps (all_found i ps))

module _ (fl : Floats) where
  open fl use {F32}

  either-IsHeld :
      (b : Bool) (ps : List (Player F32)) (i : ℕ) (f g : FlagDynamics F32 × Bool)
      → (b ≡ true → IsHeld i f.0 ps)
      → (b ≡ false → IsHeld i g.0 ps)
      → IsHeld i (if b then f else g).0 ps
  either-IsHeld true ps i f g h k = h refl
  either-IsHeld false ps i f g h k = k refl

  check_carrier-IsHeld :
      (tick i : ℕ) (ps : List (Player F32)) (f : FlagDynamics F32) (o : Option (Player F32))
      → find_player f.carrier ps ≡ o
      → f.status ≡ flag_carried
      → IsRival i f ps
      → IsHeld i (check_carrier fl tick i f o).0 ps
  unfolding check_carrier flag_home
  check_carrier-IsHeld tick i ps f none e c r = λ k. absurd (omega (arith, k))
  check_carrier-IsHeld tick i ps f (some p) e c r =
      either-IsHeld p.dead ps i _ _ (λ _ k. absurd (omega (arith, k)))
        (λ d _. find_player-can_carry i f.carrier ps p e d (r c p e))

  check_flag-IsHeld :
      (w : World F32) (i : ℕ) (f : FlagDynamics F32)
      → IsRival i f w.players
      → IsHeld i (check_flag fl w i f).0 w.players
  unfolding check_flag flag_home
  check_flag-IsHeld w i f r =
      either-IsHeld (f.status == flag_carried) w.players i _ _
        (λ c. check_carrier-IsHeld w.tick i w.players f _ refl (ground (arith, c)) r)
        (λ c k. absurd (ground (arith, c, k)))

  touch_flag-IsHeld :
      (ps : List (Player F32)) (p : Player F32) (i : ℕ) (f : FlagDynamics F32 × Bool)
      → Finds i ps p
      → p.dead ≡ false
      → IsHeld i f.0 ps
      → IsHeld i (touch_flag fl p i f).0 ps
  unfolding touch_flag flag_home
  touch_flag-IsHeld ps p i (f, dirty) n d h =
      either-IsHeld (f.status == flag_carried) ps i (f, dirty) _ (λ _. h)
        (λ _.
          either-IsHeld
            (is_far fl (grab2 fl) p.move.x p.move.y
              (if f.status == flag_at_base then base_x fl i else f.x)
              (if f.status == flag_at_base then base_y fl i else f.y))
            ps i (f, dirty) _ (λ _. h)
            (λ _.
              either-IsHeld (p.team % 2 == i) ps i
                (if f.status == flag_dropped then (flag_home fl i, true) else (f, dirty))
                (
                  record f { status = flag_carried; carrier = p.id; x = p.move.x; y = p.move.y },
                  true,
                )
                (λ _. returned) (λ t _. n d t)))
    where
      returned :
          IsHeld i
            (if◌then◌else◌ {A = FlagDynamics F32 × Bool}
              (f.status == flag_dropped)
              (flag_home fl i, true)
              (f, dirty)).0
            ps
      returned =
          either-IsHeld (f.status == flag_dropped) ps i (flag_home fl i, true) (f, dirty)
            (λ _ k. absurd (omega (arith, k))) (λ _. h)

  touch_all-IsHeld :
      (ps qs : List (Player F32)) (i : ℕ) (f : FlagDynamics F32 × Bool)
      → All (Finds i ps) qs
      → IsHeld i f.0 ps
      → IsHeld i (touch_all fl qs i f).0 ps
  unfolding touch_all
  touch_all-IsHeld ps [] i f v h = h
  touch_all-IsHeld ps (q ∷ qs) i f (n, v) h = touch_all-IsHeld ps qs i _ v (
      either-IsHeld q.dead ps i f (touch_flag fl q i f) (λ _. h)
        (λ d. touch_flag-IsHeld ps q i f n d h))

  may_carry : ℕ → ℕ → Player F32 → Bool
  may_carry i id p = p.id == id && (not p.dead && not (p.team % 2 == i))

  capture_step-may_carry :
      (i id : ℕ) (p : Player F32) (s : FlagWorld fl)
      → may_carry i id (capture_step fl p s).0 ≡ may_carry i id p
  unfolding capture_step count_capture may_carry
  capture_step-may_carry i id p s = elim (Bool-cases (scores fl p s)) [
    | inl e ↦ rw e refl
    | inr e ↦ rw e refl
  ]

  capture_all-can_carry :
      (i id : ℕ) (ps : List (Player F32)) (s : FlagWorld fl)
      → can_carry i id (capture_all fl ps s).0 ≡ can_carry i id ps
  unfolding capture_all can_carry may_carry
  capture_all-can_carry i id [] s = refl
  capture_all-can_carry i id (p ∷ ps) s =
      ap₂ (◌||◌) (capture_step-may_carry i id p s)
        (capture_all-can_carry i id ps (capture_step fl p s).1)

  AreHeld : FlagWorld fl → List (Player F32) → Type 0
  AreHeld s ps = IsHeld 0 s.zero ps × IsHeld 1 s.one ps

  capture-AreHeld :
      (p : Player F32) (qs : List (Player F32)) (s : FlagWorld fl)
      → AreHeld s qs
      → AreHeld (capture fl p s) qs
  unfolding capture flag_home AreHeld
  capture-AreHeld p qs s h = elim (Bool-cases (p.team % 2 == 0)) [
    | inl e ↦ rw e (h.0, λ k. absurd (omega (arith, k)))
    | inr e ↦ rw e (λ k. absurd (omega (arith, k)), h.1)
  ]

  capture_step-AreHeld :
      (p : Player F32) (qs : List (Player F32)) (s : FlagWorld fl)
      → AreHeld s qs
      → AreHeld (capture_step fl p s).1 qs
  unfolding capture_step
  capture_step-AreHeld p qs s h = elim (Bool-cases (scores fl p s)) [
    | inl e ↦ rw e (capture-AreHeld p qs s h)
    | inr e ↦ rw e h
  ]

  capture_all-AreHeld :
      (ps qs : List (Player F32)) (s : FlagWorld fl)
      → AreHeld s qs
      → AreHeld (capture_all fl ps s).1 qs
  unfolding capture_all
  capture_all-AreHeld [] qs s h = h
  capture_all-AreHeld (p ∷ ps) qs s h =
      capture_all-AreHeld ps qs (capture_step fl p s).1 (capture_step-AreHeld p qs s h)

  touched-AreHeld :
      (w : World F32)
      → IsRival 0 w.flag_zero w.players
      → IsRival 1 w.flag_one w.players
      → AreHeld (touched fl w) w.players
  unfolding touched AreHeld
  touched-AreHeld w r q = (
    touch_all-IsHeld w.players w.players 0 _ (all_found 0 w.players)
        (check_flag-IsHeld w 0 w.flag_zero r),
    touch_all-IsHeld w.players w.players 1 _ (all_found 1 w.players)
        (check_flag-IsHeld w 1 w.flag_one q),
  )

  -- After stepCTF in an active match of the mode, a flag is carried only by a living player of the
  -- other team who is in the world: dead and absent carriers have lost it. The carriers that are
  -- still in the world have to be of the other team before.
  pub step_ctf-IsHeld :
      (w : World F32)
      → w.ctf_mode ≡ true
      → w.team_mode ≡ true
      → w.match_phase ≡ match_active
      → IsRival 0 w.flag_zero w.players
      → IsRival 1 w.flag_one w.players
      → IsHeld 0 (step_ctf fl w).flag_zero (step_ctf fl w).players
        × IsHeld 1 (step_ctf fl w).flag_one (step_ctf fl w).players
  unfolding step_ctf is_active AreHeld
  step_ctf-IsHeld w c t m r q =
      let h : AreHeld (capture_all fl w.players (touched fl w)).1 w.players =
        capture_all-AreHeld w.players w.players (touched fl w) (touched-AreHeld w r q) in
      let on : (not w.ctf_mode || (not w.team_mode || not (is_active w.match_phase))) ≡ false =
        rw (c, t, m) refl in
      rw on (
        λ k. capture_all-can_carry 0 _ w.players (touched fl w) ∙ h.0 k,
        λ k. capture_all-can_carry 1 _ w.players (touched fl w) ∙ h.1 k,
      )
