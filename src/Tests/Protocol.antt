-- ===== src/Tests/Protocol.antt =====
-- The codec's theorems at concrete messages, and some runs.
use rewind.Prelude.{◌≡◌, ◌≢◌, [], ◌∷◌, map, true, false, refl, arith, take}
use rewind.Prelude.Result.{ok, panic, ◌>>=◌}
use rewind.Prelude.Bytes.{byte_at, slice, slice_from, u16_at}
use rewind.Prelude.Utf8.{utf8_valid}
use rewind.Prelude.Int.{ℤ, pos, negsuc}
use rewind.Protocol.Types.{
  Input, Join, Entity, Snapshot, MatchState, PickupState, WeaponState, FlagState, msg_input,
  msg_join, msg_snapshot, msg_match_state, msg_pickup_state, msg_weapon_state, msg_flag_state,
  msg_capture, zero_input, zero_join,
}
use rewind.Protocol.Quantize.{quantize_coord, dequantize_coord, quantize_vel, dequantize_vel}
use rewind.Protocol.Quantize.Exact.{quantize-dequantize}
use rewind.Protocol.Snapshot.Mask.{has}
use rewind.Protocol.Client.{
  decode_body, decode_join, decode_token, optional_byte, ClientMessage, append_input, append_join,
  decode_client, JoinIsValid,
}
use rewind.Protocol.Client.Safety.{decode_client-ne-panic, decode_client-JoinIsValid}
use rewind.Protocol.Client.RoundTrip.{
  decode-append_input, decode_client_old_input, decode-append_join,
}
use rewind.Protocol.Snapshot.{append_snapshot}
use rewind.Protocol.Snapshot.RoundTrip.{on_wire}
use rewind.Protocol.Scores.{append_match_state}
use rewind.Protocol.Events.{append_capture}
use rewind.Protocol.Tables.{append_pickup_state, append_weapon_state, append_flag_state}
use rewind.Protocol.Tables.RoundTrip.{wire_flag}
use rewind.Protocol.Server.{ServerMessage, decode_server}
use rewind.Protocol.Server.Safety.{decode_server-ne-panic}
use rewind.Protocol.Server.RoundTrip.{
  decode-append_snapshot, decode-append_match_state, decode-append_flag_state,
  decode-append_weapon_state, decode-append_pickup_state, decode-append_events,
}
use rewind.Tests.Fixed.{fixed, fixed-IsExact}

abbrev shot : Input
shot = record { seq = 70000; buttons = 17; aim = 40000; view_tick = 99; ack_tick = 98; actions = 1 }

abbrev newcomer : Join
newcomer = record { name = 0xD0 ∷ 0x96 ∷ []; token = 0x74 ∷ 0x6b ∷ []; spectator = true }

newcomer-IsValid : JoinIsValid newcomer
unfolding utf8_valid
newcomer-IsValid = record {
  name_fits = omega arith;
  token_fits = omega arith;
  name_utf8 = refl;
  token_utf8 = refl;
}

decode-append_input_example :
    (append_input [] shot >>= decode_client)
    ≡ ok (record { type = msg_input; join = zero_join; input = shot })
decode-append_input_example = decode-append_input shot (omega arith)

decode_client_old_input_example :
    (append_input [] shot >>= λ bytes. decode_client (take 16 bytes))
    ≡ ok (record { type = msg_input; join = zero_join; input = record shot { actions = 0 } })
decode_client_old_input_example = decode_client_old_input shot (omega arith)

decode-append_join_example :
    (append_join [] newcomer >>= decode_client)
    ≡ ok (record { type = msg_join; join = newcomer; input = zero_input })
decode-append_join_example = decode-append_join newcomer newcomer-IsValid

decode_client-ne-panic_example : decode_client (2 ∷ 9 ∷ 65 ∷ []) ≢ panic
decode_client-ne-panic_example = decode_client-ne-panic (2 ∷ 9 ∷ 65 ∷ [])

abbrev watcher : ClientMessage
watcher = record {
  type = 2;
  join = record { name = 65 ∷ []; token = []; spectator = false };
  input = zero_input;
}

decode_client-JoinIsValid_example : JoinIsValid watcher.join
unfolding decode_client decode_body decode_join decode_token optional_byte byte_at slice_from slice
    u16_at utf8_valid
decode_client-JoinIsValid_example = decode_client-JoinIsValid (2 ∷ 1 ∷ 65 ∷ 0 ∷ 0 ∷ []) watcher refl

quantize-dequantize_example :
    (quantize_coord fixed (dequantize_coord fixed 33000) ≡ 33000)
    × (quantize_vel fixed (dequantize_vel fixed (negsuc 4999)) ≡ negsuc 4999)
quantize-dequantize_example =
    quantize-dequantize fixed fixed-IsExact 33000 (negsuc 4999) (omega arith) (omega arith)

abbrev fighter : Entity ℤ
fighter = record {
  id = 7;
  kind = 1;
  x = pos 1600;
  y = pos 333;
  vx = negsuc 15;
  vy = pos 0;
  hp = 80;
}

abbrev delta : Snapshot ℤ
delta = record {
  tick = 500;
  base_tick = 498;
  last_processed_seq = 41;
  entities = fighter ∷ record fighter { id = 9 } ∷ [];
  masks = 34 ∷ 63 ∷ [];
  removed = 12 ∷ 300 ∷ [];
}

abbrev blank : ServerMessage ℤ
blank = record {
  type = 0;
  snapshot = record {
    tick = 0;
    base_tick = 0;
    last_processed_seq = 0;
    entities = [];
    masks = [];
    removed = [];
  };
  join_ack = record { your_id = 0; tick = 0 };
  spawn = record { id = 0; x = pos 0; y = pos 0 };
  death = record { victim = 0; killer = 0 };
  hit = record { attacker = 0; victim = 0; damage = 0; victim_hp = 0 };
  match_state = record {
    phase = 0;
    remaining = 0;
    winner = 0;
    team_mode = false;
    hill_mode = false;
    dom_mode = false;
    ctf_mode = false;
    scores = [];
  };
  pickup_state = record { active = [] };
  killstreak = record { id = 0; streak = 0 };
  weapon_state = record { weapons = [] };
  flag_state = record { flags = [] };
  capture = record { player = 0; team = 0 };
}

decode-append_snapshot_example :
    (append_snapshot fixed [] delta >>= λ bytes. decode_server fixed bytes blank)
    ≡ ok (record blank { type = msg_snapshot; snapshot = on_wire fixed delta })
decode-append_snapshot_example = decode-append_snapshot fixed blank delta (record {
  tick = omega arith;
  base_tick = omega arith;
  last_processed_seq = omega arith;
  ids = omega arith;
  removed = omega arith;
  known_masks = omega arith;
  entities_fit = omega arith;
  removed_fit = omega arith;
  masks_match = λ _. refl;
})

-- The second entity is sent whole, the first with its x and hp only.
delta_seen :
    (on_wire fixed delta).entities
    ≡ record { id = 7; kind = 0; x = pos 1600; y = pos 0; vx = pos 0; vy = pos 0; hp = 80 }
      ∷ record fighter { id = 9 }
      ∷ []
unfolding on_wire quantize_coord dequantize_coord quantize_vel dequantize_vel has
delta_seen = refl

decode_server-ne-panic_example : decode_server fixed (16 ∷ 1 ∷ []) blank ≢ panic
decode_server-ne-panic_example = decode_server-ne-panic fixed (16 ∷ 1 ∷ []) blank

abbrev board : MatchState
board = record {
  phase = 1;
  remaining = 120;
  winner = 7;
  team_mode = true;
  hill_mode = false;
  dom_mode = false;
  ctf_mode = true;
  scores =
      record { id = 7; name = 65 ∷ 66 ∷ []; kills = 3; deaths = 1; team = 1; hill_score = 2 } ∷ [];
}

decode-append_match_state_example :
    (append_match_state [] board >>= λ bytes. decode_server fixed bytes blank)
    ≡ ok (record blank { type = msg_match_state; match_state = board })
unfolding utf8_valid
decode-append_match_state_example = decode-append_match_state fixed blank board (record {
  remaining = omega arith;
  winner = omega arith;
  scores_fit = omega arith;
  scores = (
    record {
      id = omega arith;
      kills = omega arith;
      deaths = omega arith;
      hill_score = omega arith;
      name_fits = omega arith;
      name_utf8 = refl;
    },
    tt,
  );
})

abbrev taken : FlagState ℤ
taken = record {
  flags = record { team = 0; status = 1; carrier = 7; x = pos 1600; y = pos 16 } ∷ [];
}

decode-append_flag_state_example :
    (append_flag_state fixed [] taken >>= λ bytes. decode_server fixed bytes blank)
    ≡ ok (record blank {
      type = msg_flag_state;
      flag_state = record { flags = map (wire_flag fixed) taken.flags };
    })
decode-append_flag_state_example =
    decode-append_flag_state fixed blank taken (omega arith) (omega arith)

abbrev armed : WeaponState
armed = record { weapons = record { id = 7; weapon = 2 } ∷ record { id = 300; weapon = 0 } ∷ [] }

decode-append_weapon_state_example :
    (append_weapon_state [] armed >>= λ bytes. decode_server fixed bytes blank)
    ≡ ok (record blank { type = msg_weapon_state; weapon_state = armed })
decode-append_weapon_state_example =
    decode-append_weapon_state fixed blank armed (omega arith) (omega arith)

abbrev medkit : PickupState
medkit = record { active = record { spot = 3; kind = 1 } ∷ [] }

decode-append_pickup_state_example :
    (append_pickup_state [] medkit >>= λ bytes. decode_server fixed bytes blank)
    ≡ ok (record blank { type = msg_pickup_state; pickup_state = medkit })
decode-append_pickup_state_example = decode-append_pickup_state fixed blank medkit (omega arith)

decode-append_events_example :
    (append_capture [] (record { player = 7; team = 1 }) >>= λ bytes.
    decode_server fixed bytes blank)
    ≡ ok (record blank { type = msg_capture; capture = record { player = 7; team = 1 } })
decode-append_events_example =
    (decode-append_events fixed blank (record { your_id = 7; tick = 90 })
      (record { victim = 7; killer = 9 })
      (record { attacker = 9; victim = 7; damage = 25; victim_hp = 0 })
      (record { id = 9; streak = 3 }) (record { player = 7; team = 1 })
      (record { id = 7; x = pos 160; y = pos 16 }) (omega arith) (omega arith) (omega arith)
      (omega arith) (omega arith) (omega arith)).4
