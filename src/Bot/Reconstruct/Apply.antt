-- ===== src/Bot/Reconstruct/Apply.antt =====
-- What a client has after it has applied the changes of a snapshot.
use rewind.Prelude.{
  ℕ, ◌≡◌, ◌<◌, List, [], ◌∷◌, All, ◌==◌, refl, arith, ap, ◌∙◌, Bool-cases, inl, inr, Option, length,
}
use rewind.Prelude.Float.{Floats}
use rewind.Prelude.Result.{ok}
use rewind.Protocol.Types.{Entity}
use rewind.Bot.Reconstruct.{overlay, or_zero, find_entity, put_entity, apply_changes}
use rewind.Bot.Reconstruct.Merge.{IsDistinct, changed_at, change_at}
use rewind.Bot.Reconstruct.Sorted.{find-put_entity, put_entity-IsDistinct}

abbrev pub FitsId : {F : Type 0} → Entity F → Type 0
FitsId e = e.id < 65536

module _ (fl : Floats) where
  open fl use {F32}

  -- The changes succeed, and leave at each id what they make of what stood there.
  abbrev pub Applied : List (Entity F32) → List ℕ → List (Entity F32) → Type 0
  Applied es ms next =
      (r : List (Entity F32)) × (apply_changes fl es ms next ≡ ok r)
      × IsDistinct r
      × ((id : ℕ) → find_entity id r ≡ changed_at fl id (find_entity id next) es ms)

  put-change_at :
      (id : ℕ) (e : Entity F32) (m : ℕ) (next : List (Entity F32))
      → find_entity id (put_entity (overlay fl (or_zero fl (find_entity e.id next)) e m) next)
        ≡ change_at fl id e m (find_entity id next)
  unfolding overlay
  put-change_at id e m next =
      find-put_entity id (overlay fl (or_zero fl (find_entity e.id next)) e m) next
      ∙ (elim (Bool-cases (e.id == id)) [
        | inl k ↦ let same : e.id ≡ id = ground (arith, k) in rw (k, same) refl
        | inr k ↦ rw k refl
      ])

  pub apply_changes-at :
      (es : List (Entity F32)) (ms : List ℕ) (next : List (Entity F32))
      → length es ≡ length ms
      → All FitsId es
      → IsDistinct next
      → Applied es ms next
  unfolding apply_changes changed_at overlay
  apply_changes-at [] ms next h f d = (next, refl, d, λ id. refl)
  apply_changes-at (e ∷ es) [] next h f d = absurd (ground (arith, h))
  apply_changes-at (e ∷ es) (m ∷ ms) next h (f, fs) d =
      let now : List (Entity F32) =
        put_entity (overlay fl (or_zero fl (find_entity e.id next)) e m) next in
      let (r, done, distinct, ids) =
        apply_changes-at es ms now (ground (arith, h)) fs (put_entity-IsDistinct _ next f d) in
      let at_ids : (id : ℕ)
          → find_entity id r ≡ changed_at fl id (change_at fl id e m (find_entity id next)) es ms =
        λ id.
          ids id
          ∙ ap (λ (o : Option (Entity F32)). changed_at fl id o es ms)
              (put-change_at id e m next) in
      (r, done, distinct, at_ids)
