-- ===== src/Bot/Reconstruct/Merge.antt =====
-- The difference of two sets, read at one id: what the changes make of it, and a rule for proofs by the
-- outcomes of a comparison.
use rewind.Prelude.{
  ℕ, ◌≡◌, ◌<◌, List, [], ◌∷◌, map, Bool, false, ◌||◌, ◌==◌, ltb, refl, arith, ap, Bool-cases, inl,
  inr, Option, none, some, if◌then◌else◌, true, ◌∙◌,
}
use rewind.Prelude.Members.{has_nat}
use rewind.Prelude.Float.{Floats}
use rewind.Protocol.Types.{Entity, field_all}
use rewind.Game.Delta.{diff_entities, entity_field_mask, entity_key, Delta, gone, send}
use rewind.Bot.Reconstruct.{overlay, or_zero, find_entity}
use rewind.Bot.Reconstruct.Overlay.{wire, image, overlay-cong}

module _ {F : Type 0} where
  unfoldable pub has_id : ℕ → List (Entity F) → Bool
  has_id id [] = false
  has_id id (e ∷ es) = e.id == id || has_id id es

  -- No two entities have the same id, and each id is a uint16.
  unfoldable pub IsDistinct : List (Entity F) → Type 0
  IsDistinct [] = Unit
  IsDistinct (e ∷ es) = (has_id e.id es ≡ false) × (e.id < 65536) × IsDistinct es

  pub find_entity-none :
      (id : ℕ) (es : List (Entity F)) → has_id id es ≡ false → find_entity id es ≡ none
  unfolding find_entity has_id
  find_entity-none id [] h = refl
  find_entity-none id (e ∷ es) h = ground (arith, h, find_entity-none id es)

module _ (fl : Floats) where
  open fl use {F32}

  abbrev pub change_at : ℕ → Entity F32 → ℕ → Option (Entity F32) → Option (Entity F32)
  change_at id e m cur = if e.id == id then some (overlay fl (or_zero fl cur) e m) else cur

  -- What stands under the id after the changes.
  unfoldable pub changed_at :
      ℕ → Option (Entity F32) → List (Entity F32) → List ℕ → Option (Entity F32)
  changed_at id cur [] ms = cur
  changed_at id cur (e ∷ es) [] = cur
  changed_at id cur (e ∷ es) (m ∷ ms) = changed_at id (change_at id e m cur) es ms

  module _ (id : ℕ) (e : Entity F32) (m : ℕ) (cur : Option (Entity F32)) (es : List (Entity F32))
      (ms : List ℕ) where
    pub changed_at-hit :
        (e.id == id) ≡ true
        → changed_at id cur (e ∷ es) (m ∷ ms)
          ≡ changed_at id (some (overlay fl (or_zero fl cur) e m)) es ms
    unfolding changed_at
    changed_at-hit h = ap (λ (o : Option (Entity F32)). changed_at id o es ms) (rw h refl)

    pub changed_at-miss :
        (e.id == id) ≡ false → changed_at id cur (e ∷ es) (m ∷ ms) ≡ changed_at id cur es ms
    unfolding changed_at
    changed_at-miss h = ap (λ (o : Option (Entity F32)). changed_at id o es ms) (rw h refl)

  or_zero-cong :
      (a b : Option (Entity F32))
      → image fl a ≡ image fl b
      → wire fl (or_zero fl a) ≡ wire fl (or_zero fl b)
  unfolding image or_zero
  or_zero-cong none none h = refl
  or_zero-cong none (some b) h = absurd (cc)
  or_zero-cong (some a) none h = absurd (cc)
  or_zero-cong (some a) (some b) h = cc

  change_at-cong :
      (id : ℕ) (e : Entity F32) (m : ℕ) (a b : Option (Entity F32))
      → image fl a ≡ image fl b
      → image fl (change_at id e m a) ≡ image fl (change_at id e m b)
  unfolding image
  change_at-cong id e m a b h = elim (Bool-cases (e.id == id)) [
    | inl k ↦
        rw k (ap some (overlay-cong fl (or_zero fl a) (or_zero fl b) e m (or_zero-cong a b h)))
    | inr k ↦ rw k h
  ]

  pub changed_at-cong :
      (id : ℕ) (es : List (Entity F32)) (ms : List ℕ) (a b : Option (Entity F32))
      → image fl a ≡ image fl b
      → image fl (changed_at id a es ms) ≡ image fl (changed_at id b es ms)
  unfolding changed_at
  changed_at-cong id [] ms a b h = h
  changed_at-cong id (e ∷ es) [] a b h = h
  changed_at-cong id (e ∷ es) (m ∷ ms) a b h =
      changed_at-cong id es ms (change_at id e m a) (change_at id e m b)
        (change_at-cong id e m a b h)

  -- The three outcomes of a comparison, as one rule for what holds of the difference.
  pub diff-induction :
      (P : List (Entity F32) → List (Entity F32) → Delta F32 → Type 0)
      → ((view : List (Entity F32)) → P [] view (diff_entities fl [] view))
      → ((b : Entity F32) (bs vs : List (Entity F32))
          → P bs vs (diff_entities fl bs vs)
          → P (b ∷ bs) vs (gone b (diff_entities fl bs vs)))
      → ((bs : List (Entity F32)) (v : Entity F32) (vs : List (Entity F32))
          → P bs vs (diff_entities fl bs vs)
          → P bs (v ∷ vs) (send v field_all (diff_entities fl bs vs)))
      → ((b : Entity F32) (bs : List (Entity F32)) (v : Entity F32) (vs : List (Entity F32))
          → entity_key b ≡ entity_key v
          → P bs vs (diff_entities fl bs vs)
          → P (b ∷ bs) (v ∷ vs) (
              if entity_field_mask fl b v == 0
              then diff_entities fl bs vs
              else send v (entity_field_mask fl b v) (diff_entities fl bs vs)))
      → (base view : List (Entity F32)) → P base view (diff_entities fl base view)
  unfolding diff_entities
  diff-induction P start lost new same [] view = start view
  diff-induction P start lost new same (b ∷ bs) [] =
      lost b bs [] (diff-induction P start lost new same bs [])
  diff-induction P start lost new same (b ∷ bs) (v ∷ vs) =
      let without : P (b ∷ bs) (v ∷ vs) (gone b (diff_entities fl bs (v ∷ vs))) =
        lost b bs (v ∷ vs) (diff-induction P start lost new same bs (v ∷ vs)) in
      let with_new : P (b ∷ bs) (v ∷ vs) (send v field_all (diff_entities fl (b ∷ bs) vs)) =
        new (b ∷ bs) v vs (diff-induction P start lost new same (b ∷ bs) vs) in
      let rest : P bs vs (diff_entities fl bs vs) = diff-induction P start lost new same bs vs in
      elim (Bool-cases (ltb (entity_key b) (entity_key v))) [
        | inl h ↦ rw h without
        | inr h ↦ elim (Bool-cases (ltb (entity_key v) (entity_key b))) [
          | inl k ↦ rw (h, k) with_new
          | inr k ↦ rw (h, k) (same b bs v vs (ground (arith, h, k)) rest)
        ]
      ]

  -- What the difference says of an id that stands on one side only.
  abbrev pub SaysNothing : ℕ → List (Entity F32) → List (Entity F32) → Delta F32 → Type 0
  SaysNothing id base view d =
      (has_id id base ≡ false → has_nat id d.removed ≡ false)
      × (has_id id view ≡ false
          → (cur : Option (Entity F32)) → changed_at id cur d.changed d.masks ≡ cur)

  pub unchanged-all :
      (id : ℕ) (view : List (Entity F32)) (cur : Option (Entity F32))
      → has_id id view ≡ false
      → changed_at id cur view (map (λ _. field_all) view) ≡ cur
  unfolding changed_at has_id
  unchanged-all id [] cur h = refl
  unchanged-all id (v ∷ vs) cur h =
      let k : (v.id == id) ≡ false = ground (arith, h) in
      rw k (unchanged-all id vs cur (ground (arith, h)))

  pub diff_entities-SaysNothing :
      (id : ℕ) (base view : List (Entity F32))
      → SaysNothing id base view (diff_entities fl base view)
  unfolding diff_entities changed_at has_id has_nat
  diff_entities-SaysNothing id =
      diff-induction (SaysNothing id) (λ view. (λ _. refl, λ h cur. unchanged-all id view cur h))
        (λ b bs vs r. (λ h. ground (arith, h, r.0), r.1))
        (λ bs v vs r. (
          r.0,
          λ h cur.
              let k : (v.id == id) ≡ false = ground (arith, h) in
              changed_at-miss id v field_all cur (diff_entities fl bs vs).changed
                (diff_entities fl bs vs).masks k
              ∙ r.1 (ground (arith, h)) cur,
        ))
        (λ b bs v vs e r. elim (Bool-cases (entity_field_mask fl b v == 0)) [
          | inl z ↦ rw z (λ h. r.0 (ground (arith, h)), λ h cur. r.1 (ground (arith, h)) cur)
          | inr z ↦ rw z (
            λ h. r.0 (ground (arith, h)),
            λ h cur.
                let k : (v.id == id) ≡ false = ground (arith, h) in
                changed_at-miss id v (entity_field_mask fl b v) cur (diff_entities fl bs vs).changed
                  (diff_entities fl bs vs).masks k
                ∙ r.1 (ground (arith, h)) cur,
          )
        ])
