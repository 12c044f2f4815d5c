-- ===== src/Ratelimit/Conns/Bounds.antt =====
-- ConnLimiter under any calls: the slots that were granted and not yet given back are counted apart
-- from the map, and compared with what the map counts and with what Acquire answers.
use rewind.Prelude.{
  ◌-◌, leb, ltb, true, some, refl, ◌==◌, ◌<◌, ◌≤◌, ℕ, suc, ◌≡◌, ◌+◌, List, [], ◌∷◌, All, arith,
  Bool-cases, inl, inr, if◌then◌else◌, ap, sym,
}
use rewind.Ratelimit.Conns.{
  acquire, release, new_conn_limiter, delete_count, same_key, ConnLimiter, count_of, set_count,
}
use mathlib.Core.Path.{subst}
use mathlib.Core.Option.{some-injective}
use rewind.Ratelimit.Conns.Keys.{
  count_of-delete_count, delete_count-IsDistinct, delete_count-All, IsDistinct, same_key_join,
  same_key_equal, count_of-set_count, set_count-IsDistinct, set_count-All,
}

-- The limiter, and the key of each slot that is held.
pub record Slots : Type 0 where
  pub limiter : ConnLimiter
  pub holders : List (List ℕ)

-- How many slots `key` holds.
unfoldable pub held : List ℕ → List (List ℕ) → ℕ
held key [] = 0
held key (k ∷ ks) = if same_key k key then suc (held key ks) else held key ks

-- The holders without one slot of `key`.
unfoldable pub give_back : List ℕ → List (List ℕ) → List (List ℕ)
give_back key [] = []
give_back key (k ∷ ks) = if same_key k key then ks else k ∷ give_back key ks

pub data Call : Type 0 where
  acquires releases : List ℕ → Call

-- A call that is granted takes a slot. Release is called for a slot that is held, as its callers
-- promise: where the key holds none, there is no call.
unfoldable pub call : Call → Slots → Slots
call (acquires key) s =
    if (acquire s.limiter key).0
    then record { limiter = (acquire s.limiter key).1; holders = key ∷ s.holders }
    else record { limiter = (acquire s.limiter key).1; holders = s.holders }
call (releases key) s =
    if held key s.holders == 0
    then s
    else record { limiter = release s.limiter key; holders = give_back key s.holders }

unfoldable pub calls : List Call → Slots → Slots
calls [] s = s
calls (x ∷ xs) s = calls xs (call x s)

held-give_back :
    (key k : List ℕ) (ks : List (List ℕ))
    → held key (give_back k ks) ≡ (if same_key k key then held key ks - 1 else held key ks)
unfolding held give_back
held-give_back key k [] = ground arith
held-give_back key k (x ∷ xs) = elim (Bool-cases (same_key x k)) [
  | inl s ↦
      let same : same_key x key ≡ same_key k key =
        ap (λ (y : List ℕ). same_key y key) (same_key_equal x k s) in
      ground (arith, s, same)
  | inr s ↦ ground (arith, s, same_key_join x k key, held-give_back key k xs)
]

-- Keys that are the same hold the same slots.
held_same : (j k : List ℕ) (ks : List (List ℕ)) → same_key k j ≡ true → held j ks ≡ held k ks
held_same j k ks h = ap (λ (x : List ℕ). held x ks) (sym (same_key_equal k j h))

-- The map agrees with the holders, within the maximum.
record Agrees (max : ℕ) (s : Slots) : Type 0 where
  same : s.limiter.max ≡ max
  counted : (key : List ℕ) → count_of key s.limiter.count ≡ held key s.holders
  few : (key : List ℕ) → held key s.holders ≤ max
  used : All (λ (e : List ℕ × ℕ). 1 ≤ e.1) s.limiter.count
  distinct : IsDistinct s.limiter.count

module _ (max : ℕ) where
  granted-Agrees :
      (s : Slots) (key : List ℕ)
      → Agrees max s
      → held key s.holders < max
      → Agrees max (record {
        limiter = record s.limiter {
          count = set_count key (count_of key s.limiter.count + 1) s.limiter.count;
        };
        holders = key ∷ s.holders;
      })
  unfolding held
  granted-Agrees s key v h = record {
    same = v.same;
    counted = λ k. ground (
      arith,
      v.counted k,
      v.counted key,
      held_same k key s.holders,
      count_of-set_count k key (count_of key s.limiter.count + 1) s.limiter.count,
    );
    few = λ k. ground (arith, h, v.few k, held_same k key s.holders);
    used =
        set_count-All _ key (count_of key s.limiter.count + 1) s.limiter.count (λ _. omega arith)
          v.used;
    distinct =
        set_count-IsDistinct key (count_of key s.limiter.count + 1) s.limiter.count v.distinct;
  }

  counted_down-Agrees :
      (s : Slots) (key : List ℕ)
      → Agrees max s
      → 1 < count_of key s.limiter.count
      → Agrees max (record {
        limiter = record s.limiter {
          count = set_count key (count_of key s.limiter.count - 1) s.limiter.count;
        };
        holders = give_back key s.holders;
      })
  counted_down-Agrees s key v h = record {
    same = v.same;
    counted = λ k. ground (
      arith,
      v.counted k,
      v.counted key,
      held_same k key s.holders,
      held-give_back k key s.holders,
      count_of-set_count k key (count_of key s.limiter.count - 1) s.limiter.count,
    );
    few = λ k. ground (arith, v.few k, held-give_back k key s.holders);
    used =
        set_count-All _ key (count_of key s.limiter.count - 1) s.limiter.count
          (λ _. omega (arith, h)) v.used;
    distinct =
        set_count-IsDistinct key (count_of key s.limiter.count - 1) s.limiter.count v.distinct;
  }

  deleted-Agrees :
      (s : Slots) (key : List ℕ)
      → Agrees max s
      → count_of key s.limiter.count ≤ 1
      → Agrees max (record {
        limiter = record s.limiter { count = delete_count key s.limiter.count };
        holders = give_back key s.holders;
      })
  deleted-Agrees s key v h = record {
    same = v.same;
    counted = λ k. ground (
      arith,
      h,
      v.counted k,
      v.counted key,
      held_same k key s.holders,
      held-give_back k key s.holders,
      count_of-delete_count k key s.limiter.count v.distinct,
    );
    few = λ k. ground (arith, v.few k, held-give_back k key s.holders);
    used = delete_count-All _ key s.limiter.count v.used;
    distinct = delete_count-IsDistinct key s.limiter.count v.distinct;
  }

  call-Agrees : (x : Call) (s : Slots) → Agrees max s → Agrees max (call x s)
  unfolding call acquire release
  call-Agrees (acquires key) s v =
      elim (Bool-cases (leb s.limiter.max (count_of key s.limiter.count))) [
        | inl e ↦ rw e v
        | inr e ↦ rw e (granted-Agrees s key v (ground (arith, e, v.same, v.counted key)))
      ]
  call-Agrees (releases key) s v = elim (Bool-cases (held key s.holders == 0)) [
    | inl n ↦ rw n v
    | inr n ↦ elim (Bool-cases (ltb 1 (count_of key s.limiter.count))) [
      | inl e ↦ rw (n, e) (counted_down-Agrees s key v (ground (arith, e)))
      | inr e ↦ rw (n, e) (deleted-Agrees s key v (ground (arith, e)))
    ]
  ]

  calls-Agrees : (xs : List Call) (s : Slots) → Agrees max s → Agrees max (calls xs s)
  unfolding calls
  calls-Agrees [] s v = v
  calls-Agrees (x ∷ xs) s v = calls-Agrees xs (call x s) (call-Agrees x s v)

new_conn_limiter-Agrees :
    (max : ℕ) (c : ConnLimiter)
    → new_conn_limiter max ≡ some c
    → Agrees max (record { limiter = c; holders = [] })
unfolding new_conn_limiter count_of held IsDistinct
new_conn_limiter-Agrees max c h = elim (Bool-cases (max == 0)) [
  | inl e ↦ absurd (ground (arith, h, e))
  | inr e ↦
      let made : record { max = max; count = [] } ≡ c = some-injective _ _ (ground (arith, h, e)) in
      subst (λ (d : ConnLimiter). Agrees max (record { limiter = d; holders = [] })) made
        (record {
          same = refl;
          counted = λ _. refl;
          few = λ _. omega arith;
          used = tt;
          distinct = tt;
        })
]

-- What a limiter of `max` slots for each key promises, given who holds them.
pub record IsBounded (max : ℕ) (s : Slots) : Type 0 where
  pub few : (key : List ℕ) → held key s.holders ≤ max
  pub granted : (key : List ℕ) → (acquire s.limiter key).0 ≡ ltb (held key s.holders) max
  pub exact : (key : List ℕ) → count_of key s.limiter.count ≡ held key s.holders
  pub used : All (λ (e : List ℕ × ℕ). 1 ≤ e.1) s.limiter.count

-- Whatever calls of Acquire and Release come in whatever order on a new limiter of `max` slots,
-- where Release is called only for a key that holds a slot: of the slots that Acquire granted and
-- Release has not given back no key holds more than `max`, the next Acquire of a key is granted
-- exactly where it holds fewer, the map counts exactly these slots, and it keeps no key without a
-- slot.
pub calls-IsBounded :
    (max : ℕ) (c : ConnLimiter) (xs : List Call)
    → new_conn_limiter max ≡ some c
    → IsBounded max (calls xs (record { limiter = c; holders = [] }))
unfolding acquire
calls-IsBounded max c xs h =
    let s : Slots = calls xs (record { limiter = c; holders = [] }) in
    let v : Agrees max s = calls-Agrees max xs _ (new_conn_limiter-Agrees max c h) in
    record {
      few = v.few;
      granted = λ key. ground (arith, v.same, v.counted key);
      exact = v.counted;
      used = v.used;
    }
