-- ===== src/Tests/Ratelimit.antt =====
-- Two slots for one address.
use rewind.Prelude.{◌≡◌, [], ◌∷◌, List, refl, false, some}
use rewind.Ratelimit.Conns.{
  ConnLimiter, acquire, count_of, set_count, delete_count, same_key, new_conn_limiter, release,
}
use rewind.Ratelimit.Conns.Bounds.{
  IsBounded, Slots, Call, acquires, releases, calls, calls-IsBounded, call, held, give_back,
}

abbrev two_slots : ConnLimiter
two_slots = record { max = 2; count = [] }

abbrev no_holders : Slots
no_holders = record { limiter = two_slots; holders = [] }

abbrev visits : List Call
visits =
    acquires (49 ∷ [])
    ∷ acquires (49 ∷ [])
    ∷ acquires (49 ∷ [])
    ∷ acquires (50 ∷ [])
    ∷ releases (50 ∷ [])
    ∷ releases (49 ∷ [])
    ∷ acquires (49 ∷ [])
    ∷ []

two_slots_run : new_conn_limiter 2 ≡ some two_slots
unfolding new_conn_limiter
two_slots_run = refl

calls-IsBounded_example : IsBounded 2 (calls visits no_holders)
calls-IsBounded_example = calls-IsBounded 2 two_slots visits two_slots_run

held_by_visits : (calls visits no_holders).holders ≡ (49 ∷ []) ∷ (49 ∷ []) ∷ []
unfolding calls call acquire release count_of set_count delete_count same_key held give_back
held_by_visits = refl

third_acquire :
    (acquire (calls (acquires (49 ∷ []) ∷ acquires (49 ∷ []) ∷ []) no_holders).limiter (49 ∷ [])).0
    ≡ false
unfolding calls call acquire count_of set_count same_key
third_acquire = refl
