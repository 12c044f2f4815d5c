-- ===== src/Bot/Reconstruct/Unique.antt =====
-- Two sets in order of their keys that agree at every id are the same, as the wire carries them.
use rewind.Prelude.{
  ℕ, ◌≡◌, ◌≤◌, ◌+◌, ◌*◌, ◌^◌, List, [], ◌∷◌, map, All, true, false, ◌==◌, refl, arith, ap, sym, ◌∙◌,
  Bool-cases, inl, inr, none, some, All-map,
}
use mathlib.Core.Path.{ap₂, subst}
use mathlib.Core.Option.{some-injective}
use rewind.Prelude.Float.{Floats}
use rewind.Protocol.Types.{Entity}
use rewind.Game.Delta.{entity_key}
use rewind.Bot.Reconstruct.{find_entity}
use rewind.Bot.Reconstruct.Overlay.{wire, image, WireEntity}
use rewind.Bot.Reconstruct.Merge.{IsDistinct, find_entity-none}
use rewind.Bot.Reconstruct.Sorted.{IsRising}

abbrev wire_key : WireEntity → ℕ
wire_key w = w.kind * 2 ^ 16 + w.id

module _ {F : Type 0} where
  find-head : (e : Entity F) (es : List (Entity F)) → find_entity e.id (e ∷ es) ≡ some e
  unfolding find_entity
  find-head e es = let self : (e.id == e.id) ≡ true = ground arith in rw self refl

module _ (fl : Floats) where
  open fl use {F32}

  found-All :
      (P : ℕ → Type 0) (id : ℕ) (es : List (Entity F32)) (w : WireEntity)
      → All (λ (e : Entity F32). P (entity_key e)) es
      → image fl (find_entity id es) ≡ some w
      → P (wire_key w)
  unfolding find_entity image wire
  found-All P id [] w h k = absurd (cc)
  found-All P id (e ∷ es) w (h, hs) k = elim (Bool-cases (e.id == id)) [
    | inl s ↦
        let hit : image fl (find_entity id (e ∷ es)) ≡ some (wire fl e) = rw s refl in
        let same : wire fl e ≡ w = some-injective _ _ (sym hit ∙ k) in
        subst (λ (x : WireEntity). P (wire_key x)) same h
    | inr s ↦
        let miss : image fl (find_entity id es) ≡ some w = rw s at k in found-All P id es w hs miss
  ]

  -- The first entity has the least key.
  first-least :
      (y : Entity F32) (ys : List (Entity F32)) (id : ℕ) (w : WireEntity)
      → IsRising (y ∷ ys)
      → image fl (find_entity id (y ∷ ys)) ≡ some w
      → entity_key y ≤ wire_key w
  unfolding IsRising
  first-least y ys id w (h, _) k =
      found-All (λ n. entity_key y ≤ n) id (y ∷ ys) w
        (omega arith, All-map (λ x l. omega (arith, l)) ys h) k

  -- The same at every id, as the wire carries it.
  abbrev pub Agree : List (Entity F32) → List (Entity F32) → Type 0
  Agree a b = (id : ℕ) → image fl (find_entity id a) ≡ image fl (find_entity id b)

  tails-Agree :
      (x : Entity F32) (xs : List (Entity F32)) (y : Entity F32) (ys : List (Entity F32))
      → IsDistinct (x ∷ xs)
      → IsDistinct (y ∷ ys)
      → x.id ≡ y.id
      → Agree (x ∷ xs) (y ∷ ys)
      → Agree xs ys
  unfolding IsDistinct find_entity
  tails-Agree x xs y ys (n, _, _) (m, _, _) ids h id = elim (Bool-cases (x.id == id)) [
    | inl k ↦
        let here : x.id ≡ id = ground (arith, k) in
        let there : y.id ≡ id = ground (arith, k, ids) in
        rw (find_entity-none id xs (rw here at n), find_entity-none id ys (rw there at m)) refl
    | inr k ↦
        let other : (y.id == id) ≡ false = ground (arith, k, ids) in
        let at_id : _ = h id in rw (k, other) at at_id
  ]

  head-image :
      (e : Entity F32) (es : List (Entity F32))
      → image fl (find_entity e.id (e ∷ es)) ≡ some (wire fl e)
  unfolding image
  head-image e es = ap (image fl) (find-head e es)

  nothing-here : (y : Entity F32) (ys : List (Entity F32)) → ¬ Agree [] (y ∷ ys)
  unfolding find_entity image
  nothing-here y ys h = let got : none ≡ some (wire fl y) = h y.id ∙ head-image y ys in absurd (cc)

  pub same_sets :
      (a b : List (Entity F32))
      → IsRising a
      → IsRising b
      → IsDistinct a
      → IsDistinct b
      → Agree a b
      → map (wire fl) a ≡ map (wire fl) b
  unfolding IsRising IsDistinct wire
  same_sets [] [] _ _ _ _ h = refl
  same_sets [] (y ∷ ys) _ _ _ _ h = absurd (nothing-here y ys h)
  same_sets (x ∷ xs) [] _ _ _ _ h = absurd (nothing-here x xs (λ id. sym (h id)))
  same_sets (x ∷ xs) (y ∷ ys) r s d e h =
      let there : image fl (find_entity x.id (y ∷ ys)) ≡ some (wire fl x) =
        sym (h x.id) ∙ head-image x xs in
      let here : image fl (find_entity y.id (x ∷ xs)) ≡ some (wire fl y) =
        h y.id ∙ head-image y ys in
      let up : entity_key y ≤ entity_key x = first-least y ys x.id (wire fl x) s there in
      let down : entity_key x ≤ entity_key y = first-least x xs y.id (wire fl y) r here in
      let ids : x.id ≡ y.id = omega (arith, up, down, d.1, e.1) in
      let first : wire fl x ≡ wire fl y =
        some-injective _ _
          (sym (head-image x xs) ∙ ap (λ k. image fl (find_entity k (x ∷ xs))) ids ∙ here) in
      ap₂ (λ v vs. v ∷ vs) first (same_sets xs ys r.1 s.1 d.2 e.2 (tails-Agree x xs y ys d e ids h))
