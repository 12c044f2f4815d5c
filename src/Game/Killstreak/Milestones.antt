-- ===== src/Game/Killstreak/Milestones.antt =====
-- How many milestones a series of kills has.
use rewind.Prelude.{
  ℕ, ◌+◌, ◌/◌, ◌%◌, ◌^◌, ◌<◌, ◌≡◌, ◌≢◌, ◌==◌, List, [], ◌∷◌, Bool-cases, inl, inr, arith, Option,
  none, some, length, if◌then◌else◌, refl,
}
use mathlib.Core.Path.{subst}
use rewind.Game.World.{Player}
use rewind.Game.Killstreak.{record_kill, Milestone}

abbrev count : Option Milestone → ℕ
count none = 0
count (some m) = 1

module _ {F : Type 0} where
  -- The milestones of kills at the given ticks, with no death between them.
  unfoldable pub milestones : List ℕ → Player F → ℕ
  milestones [] p = 0
  milestones (t ∷ ts) p = let r = record_kill t p in count r.1 + milestones ts r.0

  -- The player after these kills.
  unfoldable pub after_kills : List ℕ → Player F → Player F
  after_kills [] p = p
  after_kills (t ∷ ts) p = after_kills ts (record_kill t p).0

  -- The n-th kill of a series, at the given tick, is rewarded or not: full hit points, a shield of 45
  -- ticks and an event with the player and the length of the series, or nothing of these.
  abbrev pub Rewarded : ℕ → ℕ → Player F → Player F × Option Milestone → Type 0
  Rewarded n tick before out =
      (out.0.streak ≡ n)
      × (n % 3 ≡ 0
          → (out.0.hp ≡ 100)
            × (out.0.invuln_until ≡ (tick + 45) % 2 ^ 32)
            × (out.1 ≡ some (record { target = before.id; streak = n })))
      × (n % 3 ≢ 0
          → (out.0.hp ≡ before.hp) × (out.0.invuln_until ≡ before.invuln_until) × (out.1 ≡ none))

  record_kill-Rewarded :
      (t : ℕ) (p : Player F) → Rewarded ((p.streak + 1) % 2 ^ 16) t p (record_kill t p)
  unfolding record_kill
  record_kill-Rewarded t p = elim (Bool-cases ((p.streak + 1) % 2 ^ 16 % 3 == 0)) [
    | inl e ↦ rw e (refl, λ _. (refl, refl, refl), λ k. absurd (ground (arith, e, k)))
    | inr e ↦ rw e (refl, λ k. absurd (ground (arith, e, k)), λ _. (refl, refl, refl))
  ]

  record_kill-streak :
      (t : ℕ) (p : Player F)
      → ((record_kill t p).0.streak ≡ (p.streak + 1) % 2 ^ 16)
        × (count (record_kill t p).1 ≡ (if (p.streak + 1) % 2 ^ 16 % 3 == 0 then 1 else 0))
  unfolding record_kill
  record_kill-streak t p = elim (Bool-cases ((p.streak + 1) % 2 ^ 16 % 3 == 0)) [
    | inl e ↦ rw e (refl, refl)
    | inr e ↦ rw e (refl, refl)
  ]

  milestones-count :
      (ts : List ℕ) (p : Player F)
      → p.streak + length ts < 65536
      → p.streak / 3 + milestones ts p ≡ (p.streak + length ts) / 3
  unfolding milestones
  milestones-count [] p h = omega arith
  milestones-count (t ∷ ts) p h =
      let s : ((record_kill t p).0.streak ≡ (p.streak + 1) % 2 ^ 16)
          × (count (record_kill t p).1 ≡ (if (p.streak + 1) % 2 ^ 16 % 3 == 0 then 1 else 0)) =
        record_kill-streak t p in
      let k : (p.streak + 1) % 2 ^ 16 ≡ p.streak + 1 = omega (arith, h) in
      let r : (record_kill t p).0.streak / 3 + milestones ts (record_kill t p).0
          ≡ ((record_kill t p).0.streak + length ts) / 3 =
        milestones-count ts (record_kill t p).0 (omega (arith, h, s.0, k)) in
      ground (arith, h, s, k, r)

  after_kills-streak :
      (ts : List ℕ) (p : Player F)
      → p.streak + length ts < 65536
      → (after_kills ts p).streak ≡ p.streak + length ts
  unfolding after_kills
  after_kills-streak [] p h = omega arith
  after_kills-streak (t ∷ ts) p h =
      let s : (record_kill t p).0.streak ≡ (p.streak + 1) % 2 ^ 16 = (record_kill-streak t p).0 in
      let rest : (after_kills ts (record_kill t p).0).streak
          ≡ (record_kill t p).0.streak + length ts =
        after_kills-streak ts (record_kill t p).0 (omega (arith, h, s)) in
      omega (arith, h, s, rest)

  -- A player who kills without dying is rewarded at every third kill of the series, and at no other:
  -- after any kills at any ticks, the next one gives full hit points, a shield of 45 ticks from then
  -- and an event with the length of the series, if that is a multiple of 3, and otherwise leaves the
  -- hit points and the shield and gives no event; and the events before it are a third of the kills,
  -- rounded down, counted from the series so far. The 16-bit counter of the series does not overflow.
  pub milestones-third :
      (ts : List ℕ) (t : ℕ) (p : Player F)
      → p.streak + length ts + 1 < 65536
      → (p.streak / 3 + milestones ts p ≡ (p.streak + length ts) / 3)
        × Rewarded
            (p.streak + length ts + 1)
            t
            (after_kills ts p)
            (record_kill t (after_kills ts p))
  milestones-third ts t p h =
      let q : Player F = after_kills ts p in
      let s : q.streak ≡ p.streak + length ts = after_kills-streak ts p (omega (arith, h)) in
      let n : (q.streak + 1) % 2 ^ 16 ≡ p.streak + length ts + 1 = omega (arith, h, s) in
      (
        milestones-count ts p (omega (arith, h)),
        subst (λ k. Rewarded k t q (record_kill t q)) n (record_kill-Rewarded t q),
      )
