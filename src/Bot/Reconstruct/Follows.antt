-- ===== src/Bot/Reconstruct/Follows.antt =====
-- A client that applies the difference to the base that it shares with the server has the view.
use rewind.Prelude.{
  ℕ, ◌≡◌, List, [], ◌∷◌, All, false, ◌||◌, ◌==◌, refl, arith, ap, sym, ◌∙◌, Bool-cases, inl, inr,
  none, some, if◌then◌else◌, length, suc, length-map,
}
use rewind.Prelude.Members.{has_nat}
use rewind.Prelude.Float.{Floats}
use rewind.Prelude.Result.{ok}
use rewind.Protocol.Types.{Entity, field_all}
use rewind.Game.Delta.{diff_entities, Delta, entity_field_mask}
use rewind.Bot.Reconstruct.{find_entity, put_entity, put_all, apply_changes, delete_all}
use rewind.Bot.Reconstruct.Overlay.{image}
use rewind.Bot.Reconstruct.Image.{diff_entities-Follows}
use rewind.Bot.Reconstruct.Merge.{
  has_id, IsDistinct, changed_at-cong, find_entity-none, diff-induction,
}
use rewind.Bot.Reconstruct.Sorted.{
  find-put_entity, put_entity-IsDistinct, delete_all-IsDistinct, find-delete_all,
}
use rewind.Bot.Reconstruct.Unique.{Agree}
use rewind.Bot.Reconstruct.Apply.{FitsId, apply_changes-at}

module _ {F : Type 0} where
  fits-all : (es : List (Entity F)) → IsDistinct es → All FitsId es
  unfolding IsDistinct
  fits-all [] h = tt
  fits-all (e ∷ es) (_, f, h) = (f, fits-all es h)

  -- A full snapshot puts each of its entities under its id.
  put_all-at :
      (es next : List (Entity F))
      → IsDistinct es
      → IsDistinct next
      → IsDistinct (put_all es next)
        × ((id : ℕ)
            → find_entity id (put_all es next)
              ≡ (if has_id id es then find_entity id es else find_entity id next))
  unfolding put_all IsDistinct has_id find_entity
  put_all-at [] next h k = (k, λ id. refl)
  put_all-at (e ∷ es) next (n, f, h) k =
      let (d, rest) = put_all-at es (put_entity e next) h (put_entity-IsDistinct e next f k) in
      let at_ids : (id : ℕ)
          → find_entity id (put_all es (put_entity e next)) ≡ (
              if e.id == id || has_id id es
              then if e.id == id then some e else find_entity id es
              else find_entity id next) =
        λ id. elim (Bool-cases (e.id == id)) [
          | inl s ↦
              let same : e.id ≡ id = ground (arith, s) in
              let last : has_id id es ≡ false = rw same at n in
              rest id ∙ rw (last, find-put_entity id e next, s) refl
          | inr s ↦ rest id ∙ rw (find-put_entity id e next, s) refl
        ] in
      (d, at_ids)

  abbrev FitsDelta : List (Entity F) → Delta F → Type 0
  FitsDelta view d = (length d.changed ≡ length d.masks) × (All FitsId view → All FitsId d.changed)

module _ (fl : Floats) where
  open fl use {F32}

  diff_entities-FitsDelta :
      (base view : List (Entity F32)) → FitsDelta view (diff_entities fl base view)
  unfolding diff_entities
  diff_entities-FitsDelta =
      diff-induction fl (λ base view d. FitsDelta view d)
        (λ view. (sym (length-map (λ _. field_all) view), λ f. f)) (λ b bs vs r. r)
        (λ bs v vs r. (ap suc r.0, λ f. (f.0, r.1 f.1)))
        (λ b bs v vs k r. elim (Bool-cases (entity_field_mask fl b v == 0)) [
          | inl z ↦ rw z (r.0, λ f. r.1 f.1)
          | inr z ↦ rw z (ap suc r.0, λ f. (f.0, r.1 f.1))
        ])

  deleted :
      (id : ℕ) (gone_ids : List ℕ) (kept base : List (Entity F32))
      → IsDistinct kept
      → image fl (find_entity id kept) ≡ image fl (find_entity id base)
      → image fl (find_entity id (delete_all gone_ids kept))
        ≡ image fl (if has_nat id gone_ids then none else find_entity id base)
  deleted id gone_ids kept base n h =
      ap (image fl) (find-delete_all id gone_ids kept n)
      ∙ (elim (Bool-cases (has_nat id gone_ids)) [ inl k ↦ rw k refl | inr k ↦ rw k h ])

  -- The base that a client has is the one that the server kept, as the wire carries it.
  pub delta-Agree :
      (base view kept : List (Entity F32))
      → IsDistinct base
      → IsDistinct view
      → IsDistinct kept
      → Agree fl kept base
      → (r : List (Entity F32)) × (apply_changes fl
            (diff_entities fl base view).changed
            (diff_entities fl base view).masks
            (delete_all (diff_entities fl base view).removed kept)
          ≡ ok r)
        × IsDistinct r
        × Agree fl r view
  delta-Agree base view kept h k n agree =
      let d : Delta F32 = diff_entities fl base view in
      let (lengths, fits) = diff_entities-FitsDelta base view in
      let (r, done, distinct, ids) =
        apply_changes-at fl d.changed d.masks (delete_all d.removed kept) lengths
          (fits (fits-all view k)) (delete_all-IsDistinct d.removed kept n) in
      let ends : Agree fl r view = λ id.
        ap (image fl) (ids id)
        ∙ changed_at-cong fl id d.changed d.masks (find_entity id (delete_all d.removed kept))
            (if has_nat id d.removed then none else find_entity id base)
            (deleted id d.removed kept base n (agree id))
        ∙ diff_entities-Follows fl id base view h k in
      (r, done, distinct, ends)

  -- A full snapshot has the view, whatever was kept before.
  pub full-Agree :
      (view : List (Entity F32))
      → IsDistinct view
      → IsDistinct (put_all view []) × Agree fl (put_all view []) view
  unfolding find_entity IsDistinct
  full-Agree view h =
      let (d, ids) = put_all-at view [] h tt in
      let same : Agree fl (put_all view []) view = λ id.
        ap (image fl) (ids id) ∙ (elim (Bool-cases (has_id id view)) [
          | inl k ↦ rw k refl
          | inr k ↦ rw (k, find_entity-none id view k) refl
        ]) in
      (d, same)
