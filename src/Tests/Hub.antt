-- ===== src/Tests/Hub.antt =====
-- A hub with two rooms at most, for one player each.
use rewind.Prelude.{refl, false, [], ◌∷◌}
use rewind.Prelude.Int.{pos}
use rewind.Hub.{Hub, HubConfig, new_hub, assign, shutdown}
use rewind.Hub.Rooms.{
  recount, done, assigned, shut, counted, after_assign, IsOrderly, Outcome, Steps-IsOrderly,
  assign-Outcome,
}

abbrev small : HubConfig
small = record { max_players = pos 1; max_rooms = pos 2 }

-- A room is made and filled, a second is made, and the hub is closed.
abbrev first : Hub
first = after_assign (new_hub small) (assign (new_hub small))

abbrev filled : Hub
filled = record first { rooms = recount (λ _. 1) first.rooms }

abbrev second : Hub
second = after_assign filled (assign filled)

Steps-IsOrderly_example : IsOrderly (pos 2) (shutdown second)
Steps-IsOrderly_example = Steps-IsOrderly small (shutdown second) (
    assigned {h = new_hub small}
      (counted {h = first} (λ _. 1) (assigned {h = filled} (shut {h = second} done))))

abbrev lobby : Hub
lobby = record {
  cfg = small;
  rooms = record { number = 1; players = 1 } ∷ record { number = 2; players = 0 } ∷ [];
  next_id = 2;
  closed = false;
}

assign-Outcome_example : Outcome lobby (assign lobby)
assign-Outcome_example = assign-Outcome lobby refl
