-- ===== src/Hub.antt =====
-- internal/hub/hub.go: the rooms of the server and the assignment of a player to one. A call under the
-- mutex is one step. Of a room the hub sees its number, from which its name is made, and how many
-- players it has, which changes at any time. The goroutines of the rooms and the waiting for them are
-- left out.
pub mod Rooms
use rewind.Prelude.{
  ℕ, suc, ◌+◌, List, [], ◌∷◌, ◌++◌, Bool, true, false, ltb, leb, if◌then◌else◌, Option, none, some,
  length,
}
use rewind.Prelude.Int.{ℤ, pos, negsuc, ltb_ℤ}
use rewind.Prelude.Result.{Result, ok, err}

pub data HubError : Type 0 where
  room_closed all_full : HubError

-- What is used of the configuration; MaxPlayers is the room's.
pub record HubConfig : Type 0 where
  pub max_players : ℤ
  pub max_rooms : ℤ

unfoldable pub with_defaults : HubConfig → HubConfig
with_defaults c = if ltb_ℤ (pos 0) c.max_rooms then c else record c { max_rooms = pos 16 }

pub record Room : Type 0 where
  pub number : ℕ
  pub players : ℕ

pub record Hub : Type 0 where
  pub cfg : HubConfig
  pub rooms : List Room
  pub next_id : ℕ
  pub closed : Bool

unfoldable pub new_hub : HubConfig → Hub
new_hub c = record { cfg = with_defaults c; rooms = []; next_id = 0; closed = false }

unfoldable pub free_room : ℤ → List Room → Option Room
free_room most [] = none
free_room most (r ∷ rs) = if ltb_ℤ (pos r.players) most then some r else free_room most rs

unfoldable pub start_room : Hub → Room × Hub
start_room h =
    let r : Room = record { number = suc h.next_id; players = 0 } in
    (r, record h { rooms = h.rooms ++ (r ∷ []); next_id = suc h.next_id })

unfoldable pub room_or_new : Hub → Option Room → Result HubError (Room × Hub)
room_or_new h (some r) = ok (r, h)
room_or_new h none =
    if ltb_ℤ (pos (length h.rooms)) h.cfg.max_rooms then ok (start_room h) else err all_full

unfoldable pub assign : Hub → Result HubError (Room × Hub)
assign h = if h.closed then err room_closed else room_or_new h (free_room h.cfg.max_players h.rooms)

unfoldable pub shutdown : Hub → Hub
shutdown h = record h { closed = true }
