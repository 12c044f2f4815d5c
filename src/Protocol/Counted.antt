-- ===== src/Protocol/Counted.antt =====
-- `for i := range count` over records of one size: the loop that DecodeServer writes out for each
-- table of fixed-size records.
use rewind.Prelude.{
  ℕ, zero, suc, ◌+◌, ◌*◌, ◌≤◌, ◌≡◌, List, [], ◌∷◌, ◌++◌, map, All, length, length-append, arith,
  append_assoc, refl,
}
use rewind.Prelude.Result.{Result, ok, ◌>>=◌, >>=-ok, Returns, ok_returns, >>=-Returns}
use rewind.Protocol.Types.{Error}

module _ {A : Type 0} where
  -- `size` is the size of a record, and `read body off` reads the one at `off`.
  pub counted_loop : ℕ → (List ℕ → ℕ → Result Error A) → ℕ → ℕ → List ℕ → Result Error (List A)
  counted_loop size read zero i body = ok []
  counted_loop size read (suc n) i body = do
    a ← read body (i * size)
    rest ← counted_loop size read n (i + 1) body
    ok (a ∷ rest)

  -- The records one after the other.
  pub written : (A → List ℕ) → List A → List ℕ
  written write [] = []
  written write (a ∷ rest) = write a ++ written write rest

  module _ (size : ℕ) (read : List ℕ → ℕ → Result Error A) where
    pub counted_loop-Returns :
        ((body : List ℕ) (off : ℕ) → off + size ≤ length body → Returns (read body off))
        → (n i : ℕ) (body : List ℕ) → (i + n) * size ≤ length body
        → Returns (counted_loop size read n i body)
    unfolding counted_loop
    counted_loop-Returns one zero i body h = ok_returns _
    counted_loop-Returns one (suc n) i body h =
        >>=-Returns (one body (i * size) (omega arith)) λ _ _.
          >>=-Returns (counted_loop-Returns one n (i + 1) body (omega arith)) λ _ _. ok_returns _

    module _ {ℓ} (write : A → List ℕ) (seen : A → A) (P : A → Type ℓ)
        (sized : (a : A) → length (write a) ≡ size)
        (one : (pre post : List ℕ) (a : A)
          → P a
          → read (pre ++ (write a ++ post)) (length pre) ≡ ok (seen a)) where
      pub length-written : (items : List A) → length (written write items) ≡ length items * size
      unfolding written
      length-written [] = omega arith
      length-written (a ∷ rest) =
          omega (arith, length-append (write a) (written write rest), sized a, length-written rest)

      counted_loop-from :
          (items : List A) (done post : List ℕ) (i : ℕ) (body : List ℕ)
          → All P items
          → body ≡ done ++ (written write items ++ post)
          → i * size ≡ length done
          → counted_loop size read (length items) i body ≡ ok (map seen items)
      unfolding counted_loop written
      counted_loop-from [] done post i body v p q = refl
      counted_loop-from (a ∷ rest) done post i body (h, v) p q = >>=-ok _ here (
          >>=-ok _
            (counted_loop-from rest (done ++ write a) post (i + 1) body v (rw p (simp append_assoc))
              (omega (arith, length-append done (write a), sized a)))
            refl)
        where
          here : read body (i * size) ≡ ok (seen a)
          here = rw (p, q, append_assoc) (one done _ a h)

      -- The loop reads back the records that were written one after the other.
      pub counted_loop-written :
          (items : List A) (post : List ℕ)
          → All P items
          → counted_loop size read (length items) 0 (written write items ++ post)
            ≡ ok (map seen items)
      counted_loop-written items post v = counted_loop-from items [] post 0 _ v refl (omega arith)
