-- ===== src/Bot/Reconstruct/Sorted.antt =====
-- The sets of a client as maps from ids: what stands under an id after each change, and why two
-- sets in order of their keys that agree at every id are the same.
use rewind.Prelude.{
  ℕ, ◌≡◌, ◌<◌, List, [], ◌∷◌, All, false, ◌||◌, ◌==◌, ltb, refl, arith, ◌∙◌, Bool-cases, inl, inr,
  none, some, if◌then◌else◌, ◌≢◌, ltb→le, All-map,
}
use rewind.Prelude.Members.{has_nat}
use rewind.Protocol.Types.{Entity}
use rewind.Game.Delta.{entity_key}
use rewind.Bot.Reconstruct.{
  find_entity, put_entity, delete_entity, delete_all, insert_by_key, sort_by_key,
}
use rewind.Bot.Reconstruct.Merge.{has_id, IsDistinct, find_entity-none}

module _ {F : Type 0} where
  pub find-put_entity :
      (id : ℕ) (e : Entity F) (es : List (Entity F))
      → find_entity id (put_entity e es) ≡ (if e.id == id then some e else find_entity id es)
  unfolding find_entity put_entity
  find-put_entity id e [] = refl
  find-put_entity id e (x ∷ xs) = ground (arith, find-put_entity id e xs)

  has_id-put_entity :
      (id : ℕ) (e : Entity F) (es : List (Entity F))
      → has_id id (put_entity e es) ≡ (e.id == id || has_id id es)
  unfolding has_id put_entity
  has_id-put_entity id e [] = refl
  has_id-put_entity id e (x ∷ xs) = ground (arith, has_id-put_entity id e xs)

  pub put_entity-IsDistinct :
      (e : Entity F) (es : List (Entity F))
      → e.id < 65536
      → IsDistinct es
      → IsDistinct (put_entity e es)
  unfolding put_entity IsDistinct has_id
  put_entity-IsDistinct e [] f h = (refl, f, tt)
  put_entity-IsDistinct e (x ∷ xs) f (n, g, h) = elim (Bool-cases (x.id == e.id)) [
    | inl k ↦ let same : x.id ≡ e.id = ground (arith, k) in rw k (rw same at n, f, h)
    | inr k ↦
        let other : (e.id == x.id) ≡ false = ground (arith, k) in
        rw k (has_id-put_entity x.id e xs ∙ rw (other, n) refl, g, put_entity-IsDistinct e xs f h)
  ]

  has_id-delete_entity :
      (id gone : ℕ) (es : List (Entity F))
      → has_id id es ≡ false
      → has_id id (delete_entity gone es) ≡ false
  unfolding has_id delete_entity
  has_id-delete_entity id gone [] h = refl
  has_id-delete_entity id gone (x ∷ xs) h = ground (arith, h, has_id-delete_entity id gone xs)

  delete_entity-IsDistinct :
      (id : ℕ) (es : List (Entity F)) → IsDistinct es → IsDistinct (delete_entity id es)
  unfolding delete_entity IsDistinct
  delete_entity-IsDistinct id [] h = h
  delete_entity-IsDistinct id (x ∷ xs) (n, f, h) = elim (Bool-cases (x.id == id)) [
    | inl e ↦ rw e h
    | inr e ↦ rw e (has_id-delete_entity x.id id xs n, f, delete_entity-IsDistinct id xs h)
  ]

  find-delete_entity :
      (id gone : ℕ) (es : List (Entity F))
      → IsDistinct es
      → find_entity id (delete_entity gone es) ≡ (if gone == id then none else find_entity id es)
  unfolding find_entity delete_entity IsDistinct
  find-delete_entity id gone [] h = ground arith
  find-delete_entity id gone (x ∷ xs) (n, f, h) = elim (Bool-cases (x.id == gone)) [
    | inl k ↦
        let same : x.id ≡ gone = ground (arith, k) in
        elim (Bool-cases (gone == id)) [
          | inl e ↦
              let here : x.id ≡ id = ground (arith, same, e) in
              rw (k, e) (find_entity-none id xs (rw here at n))
          | inr e ↦
              let other : (x.id == id) ≡ false = ground (arith, same, e) in rw (k, e, other) refl
        ]
    | inr k ↦ let rest = find-delete_entity id gone xs h in ground (arith, k, rest)
  ]

  pub delete_all-IsDistinct :
      (ids : List ℕ) (es : List (Entity F)) → IsDistinct es → IsDistinct (delete_all ids es)
  unfolding delete_all
  delete_all-IsDistinct [] es h = h
  delete_all-IsDistinct (id ∷ ids) es h =
      delete_all-IsDistinct ids (delete_entity id es) (delete_entity-IsDistinct id es h)

  pub find-delete_all :
      (id : ℕ) (ids : List ℕ) (es : List (Entity F))
      → IsDistinct es
      → find_entity id (delete_all ids es) ≡ (if has_nat id ids then none else find_entity id es)
  unfolding delete_all has_nat
  find-delete_all id [] es h = refl
  find-delete_all id (gone ∷ ids) es h = ground (
    arith,
    find-delete_all id ids (delete_entity gone es) (delete_entity-IsDistinct gone es h),
    find-delete_entity id gone es h,
  )

  -- Keys that rise.
  unfoldable pub IsRising : List (Entity F) → Type 0
  IsRising [] = Unit
  IsRising (e ∷ es) = All (λ (x : Entity F). entity_key e < entity_key x) es × IsRising es

  has_id-insert_by_key :
      (id : ℕ) (e : Entity F) (es : List (Entity F))
      → has_id id (insert_by_key e es) ≡ (e.id == id || has_id id es)
  unfolding has_id insert_by_key
  has_id-insert_by_key id e [] = refl
  has_id-insert_by_key id e (x ∷ xs) = ground (arith, has_id-insert_by_key id e xs)

  insert_by_key-IsDistinct :
      (e : Entity F) (es : List (Entity F))
      → has_id e.id es ≡ false
      → e.id < 65536
      → IsDistinct es
      → IsDistinct (insert_by_key e es)
  unfolding IsDistinct insert_by_key has_id
  insert_by_key-IsDistinct e [] m f h = (refl, f, tt)
  insert_by_key-IsDistinct e (x ∷ xs) m f (n, g, h) =
      elim (Bool-cases (ltb (entity_key x) (entity_key e))) [
        | inl k ↦ rw k (
          has_id-insert_by_key x.id e xs ∙ ground (arith, m, n),
          g,
          insert_by_key-IsDistinct e xs (ground (arith, m)) f h,
        )
        | inr k ↦ let rest : IsDistinct (x ∷ xs) = (n, g, h) in rw k (m, f, rest)
      ]

  find-insert_by_key :
      (id : ℕ) (e : Entity F) (es : List (Entity F))
      → has_id e.id es ≡ false
      → find_entity id (insert_by_key e es) ≡ (if e.id == id then some e else find_entity id es)
  unfolding find_entity insert_by_key has_id
  find-insert_by_key id e [] m = refl
  find-insert_by_key id e (x ∷ xs) m =
      ground (arith, m, find-insert_by_key id e xs (ground (arith, m)))

  insert_by_key-All :
      (P : Entity F → Type 0) (e : Entity F) (es : List (Entity F))
      → P e
      → All P es
      → All P (insert_by_key e es)
  unfolding insert_by_key
  insert_by_key-All P e [] h v = (h, tt)
  insert_by_key-All P e (x ∷ xs) h (k, v) = elim (Bool-cases (ltb (entity_key x) (entity_key e))) [
    | inl l ↦ rw l (k, insert_by_key-All P e xs h v)
    | inr l ↦ let rest : All P (x ∷ xs) = (k, v) in rw l (h, rest)
  ]

  insert_by_key-IsRising :
      (e : Entity F) (es : List (Entity F))
      → has_id e.id es ≡ false
      → e.id < 65536
      → IsDistinct es
      → IsRising es
      → IsRising (insert_by_key e es)
  unfolding IsRising IsDistinct insert_by_key has_id
  insert_by_key-IsRising e [] m f d v = (tt, tt)
  insert_by_key-IsRising e (x ∷ xs) m f (n, g, d) (b, v) =
      elim (Bool-cases (ltb (entity_key x) (entity_key e))) [
        | inl k ↦ rw k (
          insert_by_key-All _ e xs (ground (arith, k)) b,
          insert_by_key-IsRising e xs (ground (arith, m)) f d v,
        )
        | inr k ↦
            let other : x.id ≢ e.id = λ same. ground (arith, m, same) in
            let first : entity_key e < entity_key x = omega (arith, ltb→le _ _ k, other, f, g) in
            let below : All (λ (y : Entity F). entity_key e < entity_key y) (x ∷ xs) =
              (first, All-map (λ y l. omega (arith, first, l)) xs b) in
            let rest : IsRising (x ∷ xs) = (b, v) in rw k (below, rest)
      ]

  has_id-sort_by_key : (id : ℕ) (es : List (Entity F)) → has_id id (sort_by_key es) ≡ has_id id es
  unfolding sort_by_key has_id
  has_id-sort_by_key id [] = refl
  has_id-sort_by_key id (e ∷ es) =
      has_id-insert_by_key id e (sort_by_key es) ∙ rw (has_id-sort_by_key id es) refl

  pub sort_by_key-IsDistinct : (es : List (Entity F)) → IsDistinct es → IsDistinct (sort_by_key es)
  unfolding sort_by_key IsDistinct
  sort_by_key-IsDistinct [] h = h
  sort_by_key-IsDistinct (e ∷ es) (n, f, h) =
      insert_by_key-IsDistinct e (sort_by_key es) (has_id-sort_by_key e.id es ∙ n) f
        (sort_by_key-IsDistinct es h)

  pub sort_by_key-IsRising : (es : List (Entity F)) → IsDistinct es → IsRising (sort_by_key es)
  unfolding sort_by_key IsDistinct IsRising
  sort_by_key-IsRising [] h = tt
  sort_by_key-IsRising (e ∷ es) (n, f, h) =
      insert_by_key-IsRising e (sort_by_key es) (has_id-sort_by_key e.id es ∙ n) f
        (sort_by_key-IsDistinct es h) (sort_by_key-IsRising es h)

  -- Sorting changes the order only.
  pub find-sort_by_key :
      (id : ℕ) (es : List (Entity F))
      → IsDistinct es
      → find_entity id (sort_by_key es) ≡ find_entity id es
  unfolding sort_by_key IsDistinct find_entity
  find-sort_by_key id [] h = refl
  find-sort_by_key id (e ∷ es) (n, f, h) =
      find-insert_by_key id e (sort_by_key es) (has_id-sort_by_key e.id es ∙ n)
      ∙ rw (find-sort_by_key id es h) refl
