-- ===== src/Ratelimit/Conns/Keys.antt =====
-- ConnLimiter's map of counters: what it says of each key after a write and after a removal.
use rewind.Prelude.{
  ℕ, ◌≡◌, List, [], ◌∷◌, All, true, arith, refl, sym, ap, ◌∙◌, Bool-cases, inl, inr, if◌then◌else◌,
}
use rewind.Ratelimit.Conns.{same_key, count_of, set_count, delete_count}

pub same_key_self : (k : List ℕ) → same_key k k ≡ true
unfolding same_key
same_key_self [] = refl
same_key_self (x ∷ xs) = ground (arith, same_key_self xs)

pub same_key_equal : (j k : List ℕ) → same_key j k ≡ true → j ≡ k
unfolding same_key
same_key_equal [] [] h = refl
same_key_equal [] (y ∷ ys) h = absurd (ground (arith, h))
same_key_equal (x ∷ xs) [] h = absurd (ground (arith, h))
same_key_equal (x ∷ xs) (y ∷ ys) h =
    let tail : xs ≡ ys = same_key_equal xs ys (ground (arith, h)) in
    let head : x ≡ y = ground (arith, h) in rw (head, tail) refl

-- Two keys that are the same as a third are the same.
pub same_key_join :
    (i j k : List ℕ) → same_key i k ≡ true → same_key j k ≡ true → same_key i j ≡ true
same_key_join i j k h m =
    ap (λ (x : List ℕ). same_key x j) (same_key_equal i k h ∙ sym (same_key_equal j k m))
    ∙ same_key_self j

-- Each key of the map stands in one entry.
unfoldable pub IsDistinct : List (List ℕ × ℕ) → Type 0
IsDistinct [] = Unit
IsDistinct (e ∷ es) = (count_of e.0 es ≡ 0) × IsDistinct es

pub count_of-set_count :
    (key k : List ℕ) (n : ℕ) (es : List (List ℕ × ℕ))
    → count_of key (set_count k n es) ≡ (if same_key k key then n else count_of key es)
unfolding count_of set_count
count_of-set_count key k n [] = refl
count_of-set_count key k n (e ∷ es) = elim (Bool-cases (same_key e.0 k)) [
  | inl s ↦
      let same : same_key e.0 key ≡ same_key k key =
        ap (λ (x : List ℕ). same_key x key) (same_key_equal e.0 k s) in
      ground (arith, s, same)
  | inr s ↦ ground (arith, s, same_key_join e.0 k key, count_of-set_count key k n es)
]

pub set_count-IsDistinct :
    (k : List ℕ) (n : ℕ) (es : List (List ℕ × ℕ)) → IsDistinct es → IsDistinct (set_count k n es)
unfolding set_count IsDistinct count_of
set_count-IsDistinct k n [] v = (refl, tt)
set_count-IsDistinct k n (e ∷ es) (h, v) = elim (Bool-cases (same_key e.0 k)) [
  | inl s ↦ rw s (h, v)
  | inr s ↦
      let fresh : count_of e.0 (set_count k n es) ≡ 0 =
        ground (
          arith,
          h,
          s,
          count_of-set_count e.0 k n es,
          same_key_join e.0 k e.0 (same_key_self e.0),
        ) in
      rw s (fresh, set_count-IsDistinct k n es v)
]

pub count_of-delete_count :
    (key k : List ℕ) (es : List (List ℕ × ℕ))
    → IsDistinct es
    → count_of key (delete_count k es) ≡ (if same_key k key then 0 else count_of key es)
unfolding count_of delete_count IsDistinct
count_of-delete_count key k [] v = ground arith
count_of-delete_count key k (e ∷ es) (h, v) = elim (Bool-cases (same_key e.0 k)) [
  | inl s ↦
      let same : same_key e.0 key ≡ same_key k key =
        ap (λ (x : List ℕ). same_key x key) (same_key_equal e.0 k s) in
      let gone : same_key e.0 key ≡ true → count_of key es ≡ 0 =
        λ m. ap (λ (x : List ℕ). count_of x es) (sym (same_key_equal e.0 key m)) ∙ h in
      ground (arith, s, same, gone)
  | inr s ↦ ground (arith, s, same_key_join e.0 k key, count_of-delete_count key k es v)
]

pub delete_count-IsDistinct :
    (k : List ℕ) (es : List (List ℕ × ℕ)) → IsDistinct es → IsDistinct (delete_count k es)
unfolding delete_count IsDistinct
delete_count-IsDistinct k [] v = tt
delete_count-IsDistinct k (e ∷ es) (h, v) = elim (Bool-cases (same_key e.0 k)) [
  | inl s ↦ rw s v
  | inr s ↦
      let fresh : count_of e.0 (delete_count k es) ≡ 0 =
        ground (arith, h, count_of-delete_count e.0 k es v) in
      rw s (fresh, delete_count-IsDistinct k es v)
]

module _ (P : List ℕ × ℕ → Type 0) where
  pub set_count-All :
      (key : List ℕ) (n : ℕ) (es : List (List ℕ × ℕ))
      → ((k : List ℕ) → P (k, n))
      → All P es
      → All P (set_count key n es)
  unfolding set_count
  set_count-All key n [] h v = (h key, tt)
  set_count-All key n (e ∷ es) h (k, v) = elim (Bool-cases (same_key e.0 key)) [
    | inl s ↦ rw s (h e.0, v)
    | inr s ↦ rw s (k, set_count-All key n es h v)
  ]

  pub delete_count-All :
      (key : List ℕ) (es : List (List ℕ × ℕ)) → All P es → All P (delete_count key es)
  unfolding delete_count
  delete_count-All key [] v = v
  delete_count-All key (e ∷ es) (k, v) = elim (Bool-cases (same_key e.0 key)) [
    | inl s ↦ rw s v
    | inr s ↦ rw s (k, delete_count-All key es v)
  ]
