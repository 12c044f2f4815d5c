-- ===== src/Prelude/Table.antt =====
-- Facts about every number below a small bound, by evaluation.
use rewind.Prelude.{ℕ, zero, suc, ◌<◌, ◌≡◌, Bool, true, ◌&&◌, ◌==◌, arith}

-- The two functions give the same at 0, …, n - 1.
unfoldable pub agree : ℕ → (ℕ → ℕ) → (ℕ → ℕ) → Bool
agree zero f g = true
agree (suc n) f g = (f n == g n) && agree n f g

pub by_table : (n : ℕ) (f g : ℕ → ℕ) → agree n f g ≡ true → (i : ℕ) → i < n → f i ≡ g i
unfolding agree
by_table zero f g h i k = absurd (omega arith)
by_table (suc n) f g h i k = ground (arith, by_table n f g (ground arith) i)
