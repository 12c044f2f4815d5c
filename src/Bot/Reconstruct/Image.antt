-- ===== src/Bot/Reconstruct/Image.antt =====
-- A client that has the base, and applies the difference, has the view at every id.
use rewind.Prelude.{
  ℕ, ◌≡◌, List, [], ◌∷◌, map, true, false, ◌==◌, ap, ◌∙◌, Bool-cases, inl, inr, Option, none, some,
  if◌then◌else◌, arith, refl,
}
use rewind.Prelude.Members.{has_nat}
use rewind.Prelude.Float.{Floats}
use rewind.Protocol.Types.{Entity, field_all}
use rewind.Game.Delta.{diff_entities, entity_field_mask, entity_key, Delta, gone, send}
use rewind.Bot.Reconstruct.{overlay, or_zero, find_entity}
use rewind.Bot.Reconstruct.Overlay.{image, overlay-all, mask-zero, overlay-mask}
use rewind.Bot.Reconstruct.Merge.{
  IsDistinct, find_entity-none, changed_at, changed_at-hit, changed_at-miss, diff-induction,
  SaysNothing, unchanged-all, diff_entities-SaysNothing,
}

module _ (fl : Floats) where
  open fl use {F32}

  -- What stands under the id before the changes.
  abbrev kept_at : ℕ → List (Entity F32) → Delta F32 → Option (Entity F32)
  kept_at id base d = if has_nat id d.removed then none else find_entity id base

  abbrev Follows : ℕ → List (Entity F32) → List (Entity F32) → Delta F32 → Type 0
  Follows id base view d =
      IsDistinct base
      → IsDistinct view
      → image fl (changed_at fl id (kept_at id base d) d.changed d.masks)
        ≡ image fl (find_entity id view)

  start-Follows :
      (id : ℕ) (view : List (Entity F32))
      → IsDistinct view
      → image fl (changed_at fl id none view (map (λ _. field_all) view))
        ≡ image fl (find_entity id view)
  unfolding changed_at find_entity image IsDistinct
  start-Follows id [] h = refl
  start-Follows id (v ∷ vs) (n, _, h) = elim (Bool-cases (v.id == id)) [
    | inl k ↦
        let same : v.id ≡ id = ground (arith, k) in
        rw
          (
            k,
            unchanged-all fl id vs (some (overlay fl (or_zero fl none) v field_all)) (rw same at n),
          )
          (ap some (overlay-all fl _ v))
    | inr k ↦ rw k (start-Follows id vs h)
  ]

  lost-Follows :
      (id : ℕ) (b : Entity F32) (bs vs : List (Entity F32))
      → Follows id bs vs (diff_entities fl bs vs)
      → Follows id (b ∷ bs) vs (gone b (diff_entities fl bs vs))
  unfolding has_nat find_entity IsDistinct
  lost-Follows id b bs vs r (n, _, h) k = elim (Bool-cases (b.id == id)) [
    | inl e ↦
        let same : b.id ≡ id = ground (arith, e) in
        let none_left : kept_at id bs (diff_entities fl bs vs) ≡ none =
          rw (find_entity-none id bs (rw same at n)) (ground arith) in
        rw e (rw none_left at (r h k))
    | inr e ↦ rw e (r h k)
  ]

  new-Follows :
      (id : ℕ) (bs : List (Entity F32)) (v : Entity F32) (vs : List (Entity F32))
      → Follows id bs vs (diff_entities fl bs vs)
      → Follows id bs (v ∷ vs) (send v field_all (diff_entities fl bs vs))
  unfolding changed_at find_entity image IsDistinct
  new-Follows id bs v vs r h (n, _, k) =
      let d : Delta F32 = diff_entities fl bs vs in
      let cur : Option (Entity F32) = kept_at id bs d in
      elim (Bool-cases (v.id == id)) [
        | inl e ↦
            let same : v.id ≡ id = ground (arith, e) in
            rw e (
              ap (image fl) (
                changed_at-hit fl id v field_all cur d.changed d.masks e
                ∙ (diff_entities-SaysNothing fl id bs vs).1 (rw same at n)
                    (some (overlay fl (or_zero fl cur) v field_all)))
              ∙ ap some (overlay-all fl (or_zero fl cur) v))
        | inr e ↦
            rw e (ap (image fl) (changed_at-miss fl id v field_all cur d.changed d.masks e) ∙ r h k)
      ]

  same-Follows :
      (id : ℕ) (b : Entity F32) (bs : List (Entity F32)) (v : Entity F32) (vs : List (Entity F32))
      → entity_key b ≡ entity_key v
      → Follows id bs vs (diff_entities fl bs vs)
      → Follows id (b ∷ bs) (v ∷ vs) (
          if entity_field_mask fl b v == 0
          then diff_entities fl bs vs
          else send v (entity_field_mask fl b v) (diff_entities fl bs vs))
  unfolding changed_at find_entity image IsDistinct or_zero
  same-Follows id b bs v vs key r (n, f, h) (m, g, k) =
      let d : Delta F32 = diff_entities fl bs vs in
      let mask : ℕ = entity_field_mask fl b v in
      let ids : b.id ≡ v.id = omega (arith, key, f, g) in
      elim (Bool-cases (v.id == id)) [
        | inl e ↦
            let here : v.id ≡ id = ground (arith, e) in
            let old : (b.id == id) ≡ true = ground (arith, e, ids) in
            let nothing : SaysNothing fl id bs vs d = diff_entities-SaysNothing fl id bs vs in
            let left : has_nat id d.removed ≡ false = nothing.0 (rw (ids ∙ here) at n) in
            elim (Bool-cases (mask == 0)) [
              | inl z ↦
                  rw (z, left, old, e)
                    (ap (image fl) (nothing.1 (rw here at m) (some b))
                      ∙ ap some (mask-zero fl b v ids z))
              | inr z ↦
                  rw (z, left, old, e)
                    (ap (image fl) (
                        changed_at-hit fl id v mask (some b) d.changed d.masks e
                        ∙ nothing.1 (rw here at m) (some (overlay fl b v mask)))
                      ∙ ap some (overlay-mask fl b v ids))
            ]
        | inr e ↦
            let old : (b.id == id) ≡ false = ground (arith, e, ids) in
            elim (Bool-cases (mask == 0)) [
              | inl z ↦ rw (z, old, e) (r h k)
              | inr z ↦
                  rw (z, old, e)
                    (ap (image fl)
                        (changed_at-miss fl id v mask (kept_at id bs d) d.changed d.masks e)
                      ∙ r h k)
            ]
      ]

  -- A client that has the base, and applies the difference, has the view at every id, as the wire
  -- carries it.
  pub diff_entities-Follows :
      (id : ℕ) (base view : List (Entity F32)) → Follows id base view (diff_entities fl base view)
  unfolding diff_entities has_nat find_entity
  diff_entities-Follows id =
      diff-induction fl (Follows id) (λ view h k. start-Follows id view k) (lost-Follows id)
        (new-Follows id) (same-Follows id)
