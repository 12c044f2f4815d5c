-- ===== src/Game/Baseline/Latest.antt =====
-- What the ring gives back, against the list of all that was put into it.
use rewind.Prelude.{
  ℕ, ◌≡◌, ◌<◌, ◌+◌, ◌%◌, List, [], ◌∷◌, All, true, false, ◌==◌, ◌≢◌, refl, arith, ap, sym, ◌∙◌,
  Bool-cases, inl, inr, if◌then◌else◌, Option, none, some,
}
use mathlib.Core.Path.{subst}
use mathlib.Core.Option.{some-injective}
use rewind.Protocol.Types.{Entity}
use rewind.Game.Baseline.{BaselineRing, new_ring, put, get, overwrite, baseline_ring_len}

overwrite-some :
    {A : Type 0} (old : Option (List A)) (xs ys : List A) → overwrite old xs ≡ some ys → xs ≡ ys
unfolding overwrite
overwrite-some none [] ys h = absurd (cc)
overwrite-some none (x ∷ xs) ys h = some-injective _ _ h
overwrite-some (some o) xs ys h = some-injective _ _ h

overwrite-filled :
    {A : Type 0} (old : Option (List A)) (x : A) (xs : List A)
    → overwrite old (x ∷ xs) ≡ some (x ∷ xs)
unfolding overwrite
overwrite-filled none x xs = refl
overwrite-filled (some o) x xs = refl

-- A set that was sent, with its tick.
pub record Sent (F : Type 0) : Type 0 where
  pub tick : ℕ
  pub ents : List (Entity F)

none-some : {A : Type 0} {a : A} → ¬ (none ≡ some a)
none-some h = absurd (cc)

module _ {F : Type 0} where
  -- The ring after all that was sent, the newest first.
  unfoldable pub ring_of : List (Sent F) → BaselineRing F
  ring_of [] = new_ring
  ring_of (s ∷ ss) = put s.tick s.ents (ring_of ss)

  -- The newest set of this tick.
  unfoldable pub find_sent : ℕ → List (Sent F) → Option (List (Entity F))
  find_sent tick [] = none
  find_sent tick (s ∷ ss) = if s.tick == tick then some s.ents else find_sent tick ss

  -- Ticks only rise.
  unfoldable pub IsFalling : List (Sent F) → Type 0
  IsFalling [] = Unit
  IsFalling (s ∷ ss) = All (λ (u : Sent F). u.tick < s.tick) ss × IsFalling ss

  get-put :
      (t tick : ℕ) (es : List (Entity F)) (b : BaselineRing F)
      → get t (put tick es b) ≡ (
          if t % 16 == tick % 16
          then if tick == t then overwrite (b.slots (tick % 16)).ents es else none
          else get t b)
  unfolding get put
  get-put t tick es b = elim (Bool-cases (t % 16 == tick % 16)) [
    | inl h ↦ rw h refl
    | inr h ↦ rw h refl
  ]

  get-new : (t : ℕ) → get t (new_ring {F = F}) ≡ none
  unfolding get
  get-new t = refl

  -- What the ring gives back for a tick is the set that was last sent with this tick.
  pub get-sent :
      (t : ℕ) (es : List (Entity F)) (ss : List (Sent F))
      → get t (ring_of ss) ≡ some es
      → find_sent t ss ≡ some es
  unfolding ring_of find_sent
  get-sent t es [] h = absurd (none-some (sym (get-new t) ∙ h))
  get-sent t es (s ∷ ss) h =
      let now : _ = sym (get-put t s.tick s.ents (ring_of ss)) ∙ h in
      elim (Bool-cases (t % 16 == s.tick % 16)) [
        | inl slot ↦ elim (Bool-cases (s.tick == t)) [
          | inl same ↦ rw same (
              ap some (
                overwrite-some ((ring_of ss).slots (s.tick % 16)).ents s.ents es
                  (rw (slot, same) at now)))
          | inr other ↦ absurd (none-some (rw (slot, other) at now))
        ]
        | inr slot ↦
            let other : (s.tick == t) ≡ false = ground (arith, slot) in
            rw other (get-sent t es ss (rw slot at now))
      ]

  found-before :
      (P : ℕ → Type 0) (t : ℕ) (es : List (Entity F)) (ss : List (Sent F))
      → All (λ (u : Sent F). P u.tick) ss
      → find_sent t ss ≡ some es
      → P t
  unfolding find_sent
  found-before P t es [] v h = absurd (none-some h)
  found-before P t es (s ∷ ss) (k, v) h = elim (Bool-cases (s.tick == t)) [
    | inl same ↦ let here : s.tick ≡ t = ground (arith, same) in subst P here k
    | inr other ↦ found-before P t es ss v (rw other at h)
  ]

  -- A set that was sent is given back while the ticks that were sent since are less than the length
  -- of the ring ahead of it. The set has an entity in it, and ticks only rise.
  pub get-recent :
      (t : ℕ) (e : Entity F) (es : List (Entity F)) (ss : List (Sent F))
      → IsFalling ss
      → All (λ (u : Sent F). u.tick < t + baseline_ring_len) ss
      → find_sent t ss ≡ some (e ∷ es)
      → get t (ring_of ss) ≡ some (e ∷ es)
  unfolding ring_of find_sent IsFalling
  get-recent t e es [] f v h = absurd (none-some h)
  get-recent t e es (s ∷ ss) (b, f) (k, v) h =
      get-put t s.tick s.ents (ring_of ss) ∙ (elim (Bool-cases (s.tick == t)) [
        | inl same ↦
            let slot : (t % 16 == s.tick % 16) ≡ true = ground (arith, same) in
            let here : s.ents ≡ e ∷ es = some-injective _ _ (rw same at h) in
            rw (slot, same, here) (overwrite-filled _ e es)
        | inr other ↦
            let older : find_sent t ss ≡ some (e ∷ es) = rw other at h in
            let newer : t < s.tick = found-before (λ n. n < s.tick) t (e ∷ es) ss b older in
            let apart : t % 16 ≢ s.tick % 16 = omega (arith, newer, k) in
            let slot : (t % 16 == s.tick % 16) ≡ false = ground (arith, apart) in
            rw slot (get-recent t e es ss f v older)
      ])
