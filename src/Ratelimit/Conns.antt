-- ===== src/Ratelimit/Conns.antt =====
-- conns.go: ConnLimiter, the number of slots that each key holds. Its mutex makes every call one
-- step; the map is a list of its entries; a nil limiter, which lets everything pass, is left out.
pub mod Keys
pub mod Bounds
use rewind.Prelude.{
  ℕ, ◌+◌, ◌-◌, List, [], ◌∷◌, Bool, true, false, ◌&&◌, ◌==◌, ltb, leb, if◌then◌else◌, Option, none,
  some,
}

-- Equality of strings.
unfoldable pub same_key : List ℕ → List ℕ → Bool
same_key [] [] = true
same_key [] (y ∷ ys) = false
same_key (x ∷ xs) [] = false
same_key (x ∷ xs) (y ∷ ys) = (x == y) && same_key xs ys

pub record ConnLimiter : Type 0 where
  pub max : ℕ
  pub count : List (List ℕ × ℕ)

-- The limiter of a positive number of slots.
unfoldable pub new_conn_limiter : ℕ → Option ConnLimiter
new_conn_limiter max = if max == 0 then none else some (record { max = max; count = [] })

-- `c.count[key]`: 0 where the key is missing.
unfoldable pub count_of : List ℕ → List (List ℕ × ℕ) → ℕ
count_of key [] = 0
count_of key (e ∷ es) = if same_key e.0 key then e.1 else count_of key es

unfoldable pub set_count : List ℕ → ℕ → List (List ℕ × ℕ) → List (List ℕ × ℕ)
set_count key n [] = (key, n) ∷ []
set_count key n (e ∷ es) = if same_key e.0 key then (e.0, n) ∷ es else e ∷ set_count key n es

unfoldable pub delete_count : List ℕ → List (List ℕ × ℕ) → List (List ℕ × ℕ)
delete_count key [] = []
delete_count key (e ∷ es) = if same_key e.0 key then es else e ∷ delete_count key es

unfoldable pub acquire : ConnLimiter → List ℕ → Bool × ConnLimiter
acquire c key =
    if leb c.max (count_of key c.count)
    then (false, c)
    else (true, record c { count = set_count key (count_of key c.count + 1) c.count })

unfoldable pub release : ConnLimiter → List ℕ → ConnLimiter
release c key =
    if ltb 1 (count_of key c.count)
    then record c { count = set_count key (count_of key c.count - 1) c.count }
    else record c { count = delete_count key c.count }
