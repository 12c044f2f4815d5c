-- ===== src/Hub/Rooms.antt =====
-- The rooms of a hub over time: their number is bounded and no two have the same name.
use rewind.Prelude.{
  ℕ, suc, ◌≡◌, ◌≤◌, ◌<◌, List, [], ◌∷◌, ◌++◌, All, either-holds, if-holds, true, false, Option,
  none, some, refl, arith, ap, Bool-cases, inl, inr, length, length-append, sym, if◌then◌else◌, ◌∙◌,
}
use mathlib.Core.List.{Memᴰ}
use rewind.Prelude.Int.{ℤ, pos, ltb_ℤ, ◌≤ℤ◌}
use rewind.Prelude.Result.{Result, ok, err, panic}
use rewind.Hub.{
  Hub, HubConfig, HubError, Room, with_defaults, new_hub, free_room, start_room, room_or_new,
  assign, shutdown,
}

-- Players come and go: the rooms stay.
unfoldable pub recount : (ℕ → ℕ) → List Room → List Room
recount f [] = []
recount f (r ∷ rs) = record r { players = f r.number } ∷ recount f rs

unfoldable pub after_assign : Hub → Result HubError (Room × Hub) → Hub
after_assign h (ok (r, u)) = u
after_assign h (err e) = h
after_assign h panic = h

pub data Steps : Hub → Hub → Type 0 where
  done : {h : Hub} → Steps h h
  assigned : {h u : Hub} → Steps (after_assign h (assign h)) u → Steps h u
  shut : {h u : Hub} → Steps (shutdown h) u → Steps h u
  counted : {h u : Hub} (f : ℕ → ℕ) → Steps (record h { rooms = recount f h.rooms }) u → Steps h u

-- Numbers rise, from above the first bound up to the second.
unfoldable pub IsRising : ℕ → ℕ → List Room → Type 0
IsRising low high [] = low ≤ high
IsRising low high (r ∷ rs) = (low < r.number) × IsRising r.number high rs

-- The limit for a configuration, as the comment on MaxRooms has it.
abbrev pub room_limit : HubConfig → ℤ
room_limit c = if ltb_ℤ (pos 0) c.max_rooms then c.max_rooms else pos 16

-- A hub that allows `limit` rooms, has no more, and whose numbers rise.
pub record IsOrderly (limit : ℤ) (h : Hub) : Type 0 where
  pub allowed : h.cfg.max_rooms ≡ limit
  pub few : pos (length h.rooms) ≤ℤ limit
  pub rising : IsRising 0 h.next_id h.rooms

recount-IsRising :
    (f : ℕ → ℕ) (low high : ℕ) (rs : List Room)
    → IsRising low high rs
    → IsRising low high (recount f rs)
unfolding recount IsRising
recount-IsRising f low high [] h = h
recount-IsRising f low high (r ∷ rs) (l, h) = (l, recount-IsRising f r.number high rs h)

length-recount : (f : ℕ → ℕ) (rs : List Room) → length (recount f rs) ≡ length rs
unfolding recount
length-recount f [] = refl
length-recount f (r ∷ rs) = ap suc (length-recount f rs)

append-IsRising :
    (low high : ℕ) (rs : List Room) (r : Room)
    → r.number ≡ suc high
    → IsRising low high rs
    → IsRising low (suc high) (rs ++ (r ∷ []))
unfolding IsRising
append-IsRising low high [] r e h = (omega (arith, e, h), omega (arith, e))
append-IsRising low high (q ∷ rs) r e (l, h) = (l, append-IsRising q.number high rs r e h)

room_or_new-IsOrderly :
    (limit : ℤ) (h : Hub) (o : Option Room)
    → IsOrderly limit h
    → IsOrderly limit (after_assign h (room_or_new h o))
unfolding room_or_new after_assign start_room
room_or_new-IsOrderly limit h (some r) v = v
room_or_new-IsOrderly limit h none v =
    elim (Bool-cases (ltb_ℤ (pos (length h.rooms)) h.cfg.max_rooms)) [
      | inl e ↦
          let new : Room = record { number = suc h.next_id; players = 0 } in
          let size : length (h.rooms ++ (new ∷ [])) ≡ suc (length h.rooms) =
            omega (arith, length-append h.rooms (new ∷ [])) in
          let room : ltb_ℤ (pos (length h.rooms)) limit ≡ true =
            sym (ap (λ m. ltb_ℤ (pos (length h.rooms)) m) v.allowed) ∙ e in
          rw e (record {
            allowed = v.allowed;
            few = rw size (ground (arith, room));
            rising = append-IsRising 0 h.next_id h.rooms new refl v.rising;
          })
      | inr e ↦ rw e v
    ]

assign-IsOrderly :
    (limit : ℤ) (h : Hub) → IsOrderly limit h → IsOrderly limit (after_assign h (assign h))
unfolding assign after_assign
assign-IsOrderly limit h v =
    either-holds (λ (m : Result HubError (Room × Hub)). IsOrderly limit (after_assign h m)) h.closed
      (err HubError.room_closed) (room_or_new h (free_room h.cfg.max_players h.rooms)) v
      (room_or_new-IsOrderly limit h (free_room h.cfg.max_players h.rooms) v)

Steps-keep : (limit : ℤ) (h u : Hub) → Steps h u → IsOrderly limit h → IsOrderly limit u
unfolding shutdown
Steps-keep limit h u done v = v
Steps-keep limit h u (assigned s) v =
    Steps-keep limit (after_assign h (assign h)) u s (assign-IsOrderly limit h v)
Steps-keep limit h u (shut s) v =
    Steps-keep limit (shutdown h) u s
      (record { allowed = v.allowed; few = v.few; rising = v.rising })
Steps-keep limit h u (counted f s) v =
    Steps-keep limit (record h { rooms = recount f h.rooms }) u s
      (record {
        allowed = v.allowed;
        few = rw (length-recount f h.rooms) v.few;
        rising = recount-IsRising f 0 h.next_id h.rooms v.rising;
      })

new_hub-IsOrderly : (c : HubConfig) → IsOrderly (room_limit c) (new_hub c)
unfolding new_hub with_defaults IsRising
new_hub-IsOrderly c = elim (Bool-cases (ltb_ℤ (pos 0) c.max_rooms)) [
  | inl e ↦ rw e (record { allowed = refl; few = ground (arith, e); rising = omega arith })
  | inr e ↦ rw e (record { allowed = refl; few = omega arith; rising = omega arith })
]

-- From a new hub on, whatever is assigned, however the players of the rooms come and go, and whenever
-- it is shut down: the hub allows as many rooms as MaxRooms of the configuration that it was made
-- with, or 16 where that is not positive, it never has more, and the numbers in their names rise, so
-- that no two rooms share a name.
pub Steps-IsOrderly : (c : HubConfig) (h : Hub) → Steps (new_hub c) h → IsOrderly (room_limit c) h
Steps-IsOrderly c h s = Steps-keep (room_limit c) (new_hub c) h s (new_hub-IsOrderly c)

abbrev pub HasPlace : Hub → Room → Type 0
HasPlace h r = ltb_ℤ (pos r.players) h.cfg.max_players ≡ true

-- What a call of Assign tells of the hub.
unfoldable pub Outcome : Hub → Result HubError (Room × Hub) → Type 0
Outcome h (ok (r, u)) = (h.closed ≡ false) × HasPlace h r × Memᴰ r u.rooms
Outcome h (err HubError.room_closed) = h.closed ≡ true
Outcome h (err HubError.all_full) =
    All (λ (r : Room). ¬ HasPlace h r) h.rooms × (h.cfg.max_rooms ≤ℤ pos (length h.rooms))
Outcome h panic = ⊥

-- A search for a room: one of the rooms with a place, or none has one.
unfoldable Search : ℤ → List Room → Option Room → Type 0
Search most rs none = All (λ (r : Room). ¬ (ltb_ℤ (pos r.players) most ≡ true)) rs
Search most rs (some r) = (ltb_ℤ (pos r.players) most ≡ true) × Memᴰ r rs

further :
    (most : ℤ) (q : Room) (rs : List Room) (o : Option Room)
    → ltb_ℤ (pos q.players) most ≡ false
    → Search most rs o
    → Search most (q ∷ rs) o
unfolding Search
further most q rs none h s = (λ k. absurd (ground (arith, h, k)), s)
further most q rs (some r) h (place, m) = (place, Memᴰ.tail m)

free_room-Search : (most : ℤ) (rs : List Room) → Search most rs (free_room most rs)
unfolding free_room Search
free_room-Search most [] = tt
free_room-Search most (q ∷ rs) = elim (Bool-cases (ltb_ℤ (pos q.players) most)) [
  | inl e ↦ rw e (e, Memᴰ.head refl)
  | inr e ↦ rw e (further most q rs (free_room most rs) e (free_room-Search most rs))
]

mem-last : {A : Type 0} (xs : List A) (x : A) → Memᴰ x (xs ++ (x ∷ []))
mem-last [] x = Memᴰ.head refl
mem-last (y ∷ xs) x = Memᴰ.tail (mem-last xs x)

room_or_new-Outcome :
    (h : Hub) (o : Option Room)
    → h.closed ≡ false
    → ltb_ℤ (pos 0) h.cfg.max_players ≡ true
    → Search h.cfg.max_players h.rooms o
    → Outcome h (room_or_new h o)
unfolding room_or_new start_room Outcome Search
room_or_new-Outcome h (some r) open_hub pos_max (place, m) = (open_hub, place, m)
room_or_new-Outcome h none open_hub pos_max full =
    elim (Bool-cases (ltb_ℤ (pos (length h.rooms)) h.cfg.max_rooms)) [
      | inl e ↦
          rw e
            (open_hub, pos_max, mem-last h.rooms (record { number = suc h.next_id; players = 0 }))
      | inr e ↦ rw e (full, ground (arith, e))
    ]

-- Assign gives a room of the open hub that has a place, refuses because the hub is closed, or refuses
-- because every room is full and there are as many as MaxRooms. A room has a place for one player at
-- least.
pub assign-Outcome : (h : Hub) → ltb_ℤ (pos 0) h.cfg.max_players ≡ true → Outcome h (assign h)
unfolding assign Outcome
assign-Outcome h pos_max =
    if-holds (Outcome h) h.closed (err HubError.room_closed)
      (room_or_new h (free_room h.cfg.max_players h.rooms)) (λ e. e)
      (λ e.
        room_or_new-Outcome h (free_room h.cfg.max_players h.rooms) e pos_max
          (free_room-Search h.cfg.max_players h.rooms))
