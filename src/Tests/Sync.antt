-- ===== src/Tests/Sync.antt =====
-- A difference that is sent and applied, the ring of what was sent, and the queues of a session, with
-- the numbers of Tests/Fixed.
use rewind.Prelude.{ℕ, ◌≡◌, ◌<◌, List, [], ◌∷◌, All, refl, arith, true, false, some, length, ◌≤◌}
use mathlib.Core.Path.{subst}
use mathlib.Core.Option.{some-injective}
use rewind.Prelude.Int.{ℤ, pos}
use rewind.Protocol.Types.{Entity}
use rewind.Game.Delta.{entity_key}
use rewind.Game.Baseline.{get, put, overwrite}
use rewind.Game.Baseline.Latest.{Sent, ring_of, find_sent, IsFalling, get-sent, get-recent}
use rewind.Game.Session.{Session, new_session, enqueue_snapshot, lagging, build_snapshot}
use rewind.Game.Session.Queue.{enqueue_snapshot-bounded, send_all, stalled-lagging}
use rewind.Game.Session.View.{Sees, Knows, build_snapshot-seen}
use rewind.Bot.Reconstruct.{
  Reconstructor, apply_snapshot, new_reconstructor, remember, find_kept, evict, is_kept, put_kept,
}
use rewind.Bot.Reconstruct.Merge.{IsDistinct, has_id}
use rewind.Bot.Reconstruct.Sorted.{IsRising}
use rewind.Bot.Reconstruct.Window.{IsBounded, new-IsBounded, remember-IsBounded}
use rewind.Tests.Fixed.{fixed}

abbrev soldier : ℕ → ℕ → ℕ → Entity ℤ
soldier id x hp = record {
  id = id;
  kind = 0;
  x = pos x;
  y = pos 160;
  vx = pos 0;
  vy = pos 0;
  hp = hp;
}

abbrev old_base : List (Entity ℤ)
old_base = soldier 1 160 100 ∷ soldier 2 320 90 ∷ soldier 3 480 100 ∷ []

-- Player 1 moves, and player 3 is hit.
abbrev new_view : List (Entity ℤ)
new_view = soldier 1 176 100 ∷ soldier 2 320 90 ∷ soldier 3 480 70 ∷ []

abbrev client : Reconstructor ℤ
client = remember 7 old_base new_reconstructor

client-IsBounded : IsBounded client
client-IsBounded = remember-IsBounded 7 old_base new_reconstructor new-IsBounded

more-IsDistinct :
    (e : Entity ℤ) (es : List (Entity ℤ))
    → has_id e.id es ≡ false
    → e.id < 65536
    → IsDistinct es
    → IsDistinct (e ∷ es)
unfolding IsDistinct
more-IsDistinct e es n f h = (n, f, h)

three-IsDistinct :
    (x y z hp kp lp : ℕ) → IsDistinct (soldier 1 x hp ∷ soldier 2 y kp ∷ soldier 3 z lp ∷ [])
unfolding IsDistinct has_id
three-IsDistinct x y z hp kp lp =
    more-IsDistinct (soldier 1 x hp) (soldier 2 y kp ∷ soldier 3 z lp ∷ []) refl (omega arith) (
      more-IsDistinct (soldier 2 y kp) (soldier 3 z lp ∷ []) refl (omega arith)
        (more-IsDistinct (soldier 3 z lp) [] refl (omega arith) tt))

old_base-IsDistinct : IsDistinct old_base
old_base-IsDistinct = three-IsDistinct 160 320 480 100 90 100

new_view-IsDistinct : IsDistinct new_view
new_view-IsDistinct = three-IsDistinct 176 320 480 100 90 70

new_view-IsRising : IsRising new_view
unfolding IsRising
new_view-IsRising =
    let last : IsRising (soldier 3 480 70 ∷ []) = (tt, tt) in
    let rest : IsRising (soldier 2 320 90 ∷ soldier 3 480 70 ∷ []) = ((omega arith, tt), last) in
    let third : All (λ (e : Entity ℤ). 1 < entity_key e) (soldier 3 480 70 ∷ []) =
      (omega arith, tt) in
    ((omega arith, third), rest)

client-Knows : Knows fixed client 7 old_base
unfolding Knows find_kept remember evict is_kept put_kept
client-Knows = (old_base, refl, old_base-IsDistinct, λ id. refl)

client_known :
    (b : List (Entity ℤ)) → some old_base ≡ some b → (0 < 7) × IsDistinct b × Knows fixed client 7 b
client_known b h =
    subst (λ (c : List (Entity ℤ)). (0 < 7) × IsDistinct c × Knows fixed client 7 c)
      (some-injective old_base b h) (omega arith, old_base-IsDistinct, client-Knows)

build_snapshot-seen_example :
    Sees fixed 8 new_view
      (apply_snapshot fixed client (build_snapshot fixed 8 40 7 new_view (some old_base)))
build_snapshot-seen_example =
    build_snapshot-seen fixed client new_view client-IsBounded new_view-IsRising new_view-IsDistinct
      8 40 7 (some old_base) client_known

abbrev history : List (Sent ℤ)
history = record { tick = 8; ents = new_view } ∷ record { tick = 7; ents = old_base } ∷ []

history-IsFalling : IsFalling history
unfolding IsFalling
history-IsFalling =
    let last : IsFalling (record { tick = 7; ents = old_base } ∷ []) = (tt, tt) in
    ((omega arith, tt), last)

get-sent_example : find_sent 7 history ≡ some old_base
unfolding get ring_of find_sent put overwrite
get-sent_example = get-sent 7 old_base history refl

history_near : All (λ (s : Sent ℤ). s.tick < 23) history
history_near =
    let last : All (λ (s : Sent ℤ). s.tick < 23) (record { tick = 7; ents = old_base } ∷ []) =
      (omega arith, tt) in
    (omega arith, last)

get-recent_example : get 7 (ring_of history) ≡ some old_base
unfolding find_sent
get-recent_example =
    get-recent 7 (soldier 1 160 100) (soldier 2 320 90 ∷ soldier 3 480 100 ∷ []) history
      history-IsFalling history_near refl

remember-IsBounded_example : IsBounded (remember 8 new_view client)
remember-IsBounded_example = remember-IsBounded 8 new_view client client-IsBounded

abbrev waiting : Session ℤ
waiting = record new_session { snapshots = (1 ∷ []) ∷ (2 ∷ []) ∷ [] }

enqueue_snapshot-bounded_example :
    ((enqueue_snapshot 2 0 1 (3 ∷ []) waiting).1 ≡ true)
    × (length (enqueue_snapshot 2 0 1 (3 ∷ []) waiting).0.snapshots ≤ 2)
    × ((enqueue_snapshot 2 0 1 (3 ∷ []) waiting).0.snapshots ≡ (3 ∷ []) ∷ [])
enqueue_snapshot-bounded_example =
    enqueue_snapshot-bounded 2 0 1 (3 ∷ []) waiting (omega arith) (omega arith)

stalled-lagging_example :
    lagging 1 (send_all 2 ((1 ∷ []) ∷ (2 ∷ []) ∷ (3 ∷ []) ∷ (4 ∷ []) ∷ []) (new_session {F = ℤ}))
    ≡ true
stalled-lagging_example =
    stalled-lagging ℤ 2 1 ((1 ∷ []) ∷ (2 ∷ []) ∷ (3 ∷ []) ∷ (4 ∷ []) ∷ []) (omega arith)
