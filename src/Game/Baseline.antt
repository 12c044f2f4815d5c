-- ===== src/Game/Baseline.antt =====
-- The ring of delta.go: the sets that a client was last sent, each in the slot of its tick modulo the
-- length.
pub mod Latest
use rewind.Prelude.{
  ℕ, ◌%◌, List, [], ◌∷◌, Bool, true, false, ◌&&◌, ◌==◌, if◌then◌else◌, Option, none, some,
}
use rewind.Protocol.Types.{Entity}

abbrev pub baseline_ring_len : ℕ
baseline_ring_len = 16

-- One slot; its slice is nil until something was appended to it.
pub record SentSnap (F : Type 0) : Type 0 where
  pub tick : ℕ
  pub ents : Option (List (Entity F))
  pub used : Bool

-- The array, by index.
pub record BaselineRing (F : Type 0) : Type 0 where
  pub slots : ℕ → SentSnap F

-- `append(s[:0], xs...)`, which leaves a nil slice nil when nothing is appended.
unfoldable pub overwrite : {A : Type 0} → Option (List A) → List A → Option (List A)
overwrite none [] = none
overwrite none (x ∷ xs) = some (x ∷ xs)
overwrite (some old) xs = some xs

module _ {F : Type 0} where
  abbrev pub new_ring : BaselineRing F
  new_ring = record { slots = λ _. record { tick = 0; ents = none; used = false } }

  unfoldable pub put : ℕ → List (Entity F) → BaselineRing F → BaselineRing F
  put tick es b =
      let at = tick % baseline_ring_len in
      record {
        slots = λ i.
            if i == at
            then record { tick = tick; ents = overwrite (b.slots at).ents es; used = true }
            else b.slots i;
      }

  unfoldable pub get : ℕ → BaselineRing F → Option (List (Entity F))
  get tick b =
      let s = b.slots (tick % baseline_ring_len) in
      if s.used && s.tick == tick then s.ents else none
