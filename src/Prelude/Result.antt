-- ===== src/Prelude/Result.antt =====
-- Go's pair of a value and an error, with a third case for a panic: an index out of range.
use Prim.Native.Nat.{ℕ, ◌≤◌}
use mathlib.Core.Path.{◌≡◌, refl, subst}
use mathlib.Core.Logic.{◌≢◌}
use mathlib.Core.Bool.{Bool, true, false}
use rewind.Prelude.Tests.{ltb, ltb→le}

pub data Result (E : Type 0) (A : Type 0) : Type 0 where
  ok : A → Result E A
  err : E → Result E A
  panic : Result E A

infixl 5 ◌>>=◌ ◌>>◌
abbrev pub ◌>>=◌ : {E A B : Type 0} → Result E A → (A → Result E B) → Result E B
ok a >>= f = f a
err e >>= f = err e
panic >>= f = panic

abbrev pub ◌>>◌ : {E B : Type 0} → Result E (Unit {0}) → Result E B → Result E B
m >> k = m >>= λ _. k

-- `if bad { return err }`
abbrev pub fail_if : {E : Type 0} → Bool → E → Result E (Unit {0})
fail_if true e = err e
fail_if false e = ok tt

-- The call returns, with a value or with an error.
pub data Returns {E A : Type 0} : Result E A → Type 0 where
  ok_returns : (a : A) → Returns (ok a)
  err_returns : (e : E) → Returns (err e)

pub >>=-Returns :
    {E A B : Type 0} {m : Result E A} {f : A → Result E B}
    → Returns m
    → ((a : A) → m ≡ ok a → Returns (f a))
    → Returns (m >>= f)
>>=-Returns (ok_returns a) h = h a refl
>>=-Returns (err_returns e) h = err_returns e

pub fail_if-Returns :
    {E B : Type 0} (b : Bool) (e : E) {k : Result E B}
    → (b ≡ false → Returns k)
    → Returns (fail_if b e >> k)
fail_if-Returns true e h = err_returns e
fail_if-Returns false e h = h refl

-- Behind a length check the body is long enough.
pub short-Returns :
    {E B : Type 0} (n k : ℕ) (e : E) {r : Result E B}
    → (k ≤ n → Returns r)
    → Returns (fail_if (ltb n k) e >> r)
short-Returns n k e h = fail_if-Returns (ltb n k) e λ long. h (ltb→le n k long)

-- The equations of a run that succeeds, one for each step.
pub >>=-ok :
    {E A B : Type 0} {m : Result E A} (f : A → Result E B) {a : A} {r : Result E B}
    → m ≡ ok a
    → f a ≡ r
    → (m >>= f) ≡ r
>>=-ok f p q = rw p q

pub pass :
    {E B : Type 0} {b : Bool} (e : E) {k r : Result E B}
    → b ≡ false
    → k ≡ r
    → (fail_if b e >> k) ≡ r
pass e p q = rw p q

pub Returns-ne-panic : {E A : Type 0} {r : Result E A} → Returns r → r ≢ panic
Returns-ne-panic (ok_returns a) h = cc
Returns-ne-panic (err_returns e) h = cc

ok-injective : {E A : Type 0} {a b : A} → ◌≡◌ {A = Result E A} (ok a) (ok b) → a ≡ b
ok-injective h = cc

-- A value that the call returns has the property.
pub data Ensures {E A : Type 0} (P : A → Type 0) : Result E A → Type 0 where
  ok_ensures : (a : A) → P a → Ensures P (ok a)
  err_ensures : (e : E) → Ensures P (err e)
  panic_ensures : Ensures P panic

pub >>=-Ensures :
    {E A B : Type 0} {P : B → Type 0} (m : Result E A) {f : A → Result E B}
    → ((a : A) → m ≡ ok a → Ensures P (f a))
    → Ensures P (m >>= f)
>>=-Ensures (ok a) h = h a refl
>>=-Ensures (err e) h = err_ensures e
>>=-Ensures panic h = panic_ensures

pub fail_if-Ensures :
    {E B : Type 0} {P : B → Type 0} (b : Bool) (e : E) {k : Result E B}
    → (b ≡ false → Ensures P k)
    → Ensures P (fail_if b e >> k)
fail_if-Ensures true e h = err_ensures e
fail_if-Ensures false e h = h refl

pub Ensures-ok :
    {E A : Type 0} {P : A → Type 0} {r : Result E A} {a : A} → Ensures P r → r ≡ ok a → P a
Ensures-ok {P = P} (ok_ensures a p) h = subst P (ok-injective h) p
Ensures-ok (err_ensures e) h = absurd (cc)
Ensures-ok panic_ensures h = absurd (cc)
