-- ===== src/Bot/Reconstruct/Window.antt =====
-- The window of ticks that a client keeps: at most recon_keep, and always the newest.
use rewind.Prelude.{
  ℕ, ◌≡◌, ◌≤◌, ◌+◌, ◌-◌, suc, zero, List, [], ◌∷◌, ◌++◌, All, All-map, true, false, ◌||◌, ◌==◌, ◌≢◌,
  refl, arith, ap, sym, ◌∙◌, Bool-cases, inl, inr, if◌then◌else◌, some, length, length-append,
  All-pair,
}
use mathlib.Core.Path.{subst}
use rewind.Protocol.Types.{Entity}
use rewind.Bot.Reconstruct.{
  Kept, Reconstructor, new_reconstructor, find_kept, put_kept, delete_kept, is_kept, evict,
  evict_first, remember, recon_keep,
}

unfoldable pub NoRepeat : List ℕ → Type 0
NoRepeat [] = Unit
NoRepeat (t ∷ ts) = All (λ u. t ≢ u) ts × NoRepeat ts

All-append : (P : ℕ → Type 0) (xs : List ℕ) (y : ℕ) → All P xs → P y → All P (xs ++ (y ∷ []))
All-append P [] y v h = (h, tt)
All-append P (x ∷ xs) y (k, v) h = (k, All-append P xs y v h)

append-NoRepeat :
    (ts : List ℕ) (t : ℕ) → NoRepeat ts → All (λ u. u ≢ t) ts → NoRepeat (ts ++ (t ∷ []))
unfolding NoRepeat
append-NoRepeat [] t h v = (tt, tt)
append-NoRepeat (u ∷ us) t (k, h) (d, v) =
    (All-append (λ x. u ≢ x) us t k d, append-NoRepeat us t h v)

module _ {F : Type 0} where
  find-put_kept :
      (k : Kept F) (ks : List (Kept F)) → find_kept k.tick (put_kept k ks) ≡ some k.entities
  unfolding find_kept put_kept
  find-put_kept k [] = let self : (k.tick == k.tick) ≡ true = ground arith in rw self refl
  find-put_kept k (x ∷ xs) = elim (Bool-cases (x.tick == k.tick)) [
    | inl h ↦ let self : (k.tick == k.tick) ≡ true = ground arith in rw (h, self) refl
    | inr h ↦ rw (h, h) (find-put_kept k xs)
  ]

  find-delete_kept :
      (t gone : ℕ) (ks : List (Kept F))
      → gone ≢ t
      → find_kept t (delete_kept gone ks) ≡ find_kept t ks
  unfolding find_kept delete_kept
  find-delete_kept t gone [] h = refl
  find-delete_kept t gone (x ∷ xs) h = ground (arith, h, find-delete_kept t gone xs h)

  is_kept-put_kept :
      (t : ℕ) (k : Kept F) (ks : List (Kept F))
      → is_kept t (put_kept k ks) ≡ (k.tick == t || is_kept t ks)
  unfolding is_kept put_kept
  is_kept-put_kept t k [] = refl
  is_kept-put_kept t k (x ∷ xs) = ground (arith, is_kept-put_kept t k xs)

  is_kept-delete_kept :
      (t gone : ℕ) (ks : List (Kept F)) → gone ≢ t → is_kept t (delete_kept gone ks) ≡ is_kept t ks
  unfolding is_kept delete_kept
  is_kept-delete_kept t gone [] h = refl
  is_kept-delete_kept t gone (x ∷ xs) h = ground (arith, h, is_kept-delete_kept t gone xs h)

  length-put_kept :
      (k : Kept F) (ks : List (Kept F))
      → length (put_kept k ks) ≡ (if is_kept k.tick ks then length ks else suc (length ks))
  unfolding is_kept put_kept
  length-put_kept k [] = refl
  length-put_kept k (x ∷ xs) = ground (arith, length-put_kept k xs)

  length-delete_kept :
      (t : ℕ) (ks : List (Kept F))
      → is_kept t ks ≡ true
      → suc (length (delete_kept t ks)) ≡ length ks
  unfolding is_kept delete_kept
  length-delete_kept t [] h = absurd (ground (arith, h))
  length-delete_kept t (x ∷ xs) h = ground (arith, h, length-delete_kept t xs)

  -- The order lists the ticks that are kept, each once, and there are at most so many.
  pub record Within (n : ℕ) (rc : Reconstructor F) : Type 0 where
    pub few : length rc.order ≤ n
    pub same_size : length rc.store ≡ length rc.order
    pub distinct : NoRepeat rc.order
    pub all_kept : All (λ t. is_kept t rc.store ≡ true) rc.order

  abbrev pub IsBounded : Reconstructor F → Type 0
  IsBounded rc = Within recon_keep rc

  pub new-IsBounded : IsBounded (new_reconstructor {F = F})
  unfolding NoRepeat
  new-IsBounded = record { few = omega arith; same_size = refl; distinct = tt; all_kept = tt }

  kept-differs :
      (tick : ℕ) (store : List (Kept F)) (order : List ℕ)
      → is_kept tick store ≡ false
      → All (λ t. is_kept t store ≡ true) order
      → All (λ t. t ≢ tick) order
  kept-differs tick store order h v =
      All-map (λ t k same. absurd (ground (arith, subst (λ u. is_kept u store ≡ true) same k, h)))
        order v

  evict_first-Within :
      (t : ℕ) (order : List ℕ) (store : List (Kept F)) (n : ℕ)
      → Within (suc n) (record { store = store; order = t ∷ order })
      → Within n (record { store = delete_kept t store; order = order })
  unfolding NoRepeat
  evict_first-Within t order store n v =
      let still : (u : ℕ)
          → (t ≢ u) × (is_kept u store ≡ true)
          → is_kept u (delete_kept t store) ≡ true =
        λ u h. is_kept-delete_kept u t store h.0 ∙ h.1 in
      record {
        few = omega (arith, v.few);
        same_size = omega (arith, v.same_size, length-delete_kept t store v.all_kept.0);
        distinct = v.distinct.1;
        all_kept = All-map still order (
            All-pair (λ (u : ℕ). t ≢ u) (λ (u : ℕ). is_kept u store ≡ true) order v.distinct.0
              v.all_kept.1);
      }

  evict_by-Within :
      (n : ℕ) (order : List ℕ) (store : List (Kept F))
      → Within (suc recon_keep) (record { store = store; order = order })
      → length order ≤ recon_keep + n
      → n ≤ 1
      → IsBounded (evict n (record { store = store; order = order }))
  unfolding evict evict_first
  evict_by-Within zero order store v h k = record {
    few = omega (arith, h);
    same_size = v.same_size;
    distinct = v.distinct;
    all_kept = v.all_kept;
  }
  evict_by-Within (suc zero) [] store v h k = record {
    few = omega arith;
    same_size = v.same_size;
    distinct = v.distinct;
    all_kept = v.all_kept;
  }
  evict_by-Within (suc zero) (t ∷ order) store v h k = evict_first-Within t order store recon_keep v
  evict_by-Within (suc (suc n)) order store v h k = absurd (omega (arith, k))

  abbrev new_order : ℕ → Reconstructor F → List ℕ
  new_order tick rc = if is_kept tick rc.store then rc.order else rc.order ++ (tick ∷ [])

  module _ (tick : ℕ) (es : List (Entity F)) (rc : Reconstructor F) where
    abbrev new_kept : Kept F
    new_kept = record { tick = tick; entities = es }

    put_kept-keeps :
        (t : ℕ) → is_kept t rc.store ≡ true → is_kept t (put_kept new_kept rc.store) ≡ true
    put_kept-keeps t h = is_kept-put_kept t new_kept rc.store ∙ ground (arith, h)

    remember-Within :
        IsBounded rc
        → Within
            (suc recon_keep)
            (record { store = put_kept new_kept rc.store; order = new_order tick rc })
    unfolding NoRepeat
    remember-Within v = elim (Bool-cases (is_kept tick rc.store)) [
      | inl seen ↦ rw seen (record {
        few = omega (arith, v.few);
        same_size = length-put_kept new_kept rc.store ∙ rw seen v.same_size;
        distinct = v.distinct;
        all_kept = All-map put_kept-keeps rc.order v.all_kept;
      })
      | inr new ↦
          let size : length (rc.order ++ (tick ∷ [])) ≡ suc (length rc.order) =
            omega (arith, length-append rc.order (tick ∷ [])) in
          let self : is_kept tick (put_kept new_kept rc.store) ≡ true =
            is_kept-put_kept tick new_kept rc.store ∙ ground arith in
          rw new (record {
            few = omega (arith, v.few, size);
            same_size = length-put_kept new_kept rc.store ∙ rw new (ap suc v.same_size ∙ sym size);
            distinct =
                append-NoRepeat rc.order tick v.distinct
                  (kept-differs tick rc.store rc.order new v.all_kept);
            all_kept =
                All-append (λ t. is_kept t (put_kept new_kept rc.store) ≡ true) rc.order tick
                  (All-map put_kept-keeps rc.order v.all_kept) self;
          })
    ]

  -- A client keeps at most recon_keep sets, however many snapshots it applies.
  pub remember-IsBounded :
      (tick : ℕ) (es : List (Entity F)) (rc : Reconstructor F)
      → IsBounded rc
      → IsBounded (remember tick es rc)
  unfolding remember
  remember-IsBounded tick es rc v =
      let w : Within (suc recon_keep)
          (record { store = put_kept (new_kept tick es rc) rc.store; order = new_order tick rc }) =
        remember-Within tick es rc v in
      evict_by-Within (length (new_order tick rc) - recon_keep) (new_order tick rc)
        (put_kept (new_kept tick es rc) rc.store) w (omega arith) (omega (arith, w.few))

  evict_by-find :
      (n tick : ℕ) (order : List ℕ) (store : List (Kept F))
      → n ≤ length order
      → All (λ t. t ≢ tick) order
      → n ≤ 1
      → find_kept tick (evict n (record { store = store; order = order ++ (tick ∷ []) })).store
        ≡ find_kept tick store
  unfolding evict evict_first
  evict_by-find zero tick order store few differs h = refl
  evict_by-find (suc zero) tick [] store few differs h = absurd (omega (arith, few))
  evict_by-find (suc zero) tick (t ∷ order) store few (d, ds) h = find-delete_kept tick t store d
  evict_by-find (suc (suc n)) tick order store few differs h = absurd (omega (arith, h))

  -- The set that was just put together is there for the next delta.
  pub remember-keeps :
      (tick : ℕ) (es : List (Entity F)) (rc : Reconstructor F)
      → IsBounded rc
      → find_kept tick (remember tick es rc).store ≡ some es
  unfolding remember evict
  remember-keeps tick es rc v =
      let store : List (Kept F) = put_kept (new_kept tick es rc) rc.store in
      let found : find_kept tick store ≡ some es = find-put_kept (new_kept tick es rc) rc.store in
      elim (Bool-cases (is_kept tick rc.store)) [
        | inl seen ↦
            let none_left : length rc.order - recon_keep ≡ 0 = omega (arith, v.few) in
            rw (seen, none_left) found
        | inr new ↦
            let size : length (rc.order ++ (tick ∷ [])) ≡ suc (length rc.order) =
              omega (arith, length-append rc.order (tick ∷ [])) in
            let surplus : ℕ = length (rc.order ++ (tick ∷ [])) - recon_keep in
            rw new (
              evict_by-find surplus tick rc.order store (omega (arith, size, v.few))
                (kept-differs tick rc.store rc.order new v.all_kept) (omega (arith, size, v.few))
              ∙ found)
      ]
