-- ===== src/Protocol/Server.antt =====
-- codec.go, DecodeServer: the dispatch on the message type. `out` is the message that the caller
-- passes; the result is what it holds when there is no error (on an error it is not used).
pub mod Safety
pub mod RoundTrip
use rewind.Prelude.{ℕ, List, [], ◌∷◌, ◌==◌, if◌then◌else◌, length, false}
use rewind.Prelude.Result.{Result, ok, err, ◌>>=◌, ◌>>◌, fail_if}
use rewind.Prelude.Bytes.{byte_at, slice_from}
use rewind.Prelude.Float.{Floats}
use rewind.Prelude.Int.{pos}
use rewind.Protocol.Types.{
  Error, empty_message, unknown_type, Snapshot, JoinAck, Spawn, Death, Hit, MatchState, PickupState,
  Killstreak, WeaponState, FlagState, Capture, msg_snapshot, msg_join_ack, msg_spawn, msg_death,
  msg_hit, msg_match_state, msg_pickup_state, msg_killstreak, msg_weapon_state, msg_flag_state,
  msg_capture,
}
use rewind.Protocol.Snapshot.{decode_snapshot}
use rewind.Protocol.Events.{
  read_join_ack, read_spawn, read_death, read_hit, read_killstreak, read_capture,
}
use rewind.Protocol.Tables.{read_pickup_state, read_weapon_state, read_flag_state}
use rewind.Protocol.Scores.{read_match_state}

pub record ServerMessage (F : Type 0) : Type 0 where
  pub type : ℕ
  pub snapshot : Snapshot F
  pub join_ack : JoinAck
  pub spawn : Spawn F
  pub death : Death
  pub hit : Hit
  pub match_state : MatchState
  pub pickup_state : PickupState
  pub killstreak : Killstreak
  pub weapon_state : WeaponState
  pub flag_state : FlagState F
  pub capture : Capture

module _ (fl : Floats) where
  open fl use {F32}

  pub decode_message : ℕ → List ℕ → ServerMessage F32 → Result Error (ServerMessage F32)
  decode_message type body out =
      if type == msg_snapshot
      then (decode_snapshot fl body >>= λ v. ok (record out { type = type; snapshot = v }))
      else if type == msg_join_ack
      then (read_join_ack body >>= λ v. ok (record out { type = type; join_ack = v }))
      else if type == msg_spawn
      then (read_spawn fl body >>= λ v. ok (record out { type = type; spawn = v }))
      else if type == msg_death
      then (read_death body >>= λ v. ok (record out { type = type; death = v }))
      else if type == msg_hit
      then (read_hit body >>= λ v. ok (record out { type = type; hit = v }))
      else if type == msg_match_state
      then (read_match_state body >>= λ v. ok (record out { type = type; match_state = v }))
      else if type == msg_pickup_state
      then (read_pickup_state body >>= λ v. ok (record out { type = type; pickup_state = v }))
      else if type == msg_killstreak
      then (read_killstreak body >>= λ v. ok (record out { type = type; killstreak = v }))
      else if type == msg_weapon_state
      then (read_weapon_state body >>= λ v. ok (record out { type = type; weapon_state = v }))
      else if type == msg_flag_state
      then (read_flag_state fl body >>= λ v. ok (record out { type = type; flag_state = v }))
      else if type == msg_capture
      then (read_capture body >>= λ v. ok (record out { type = type; capture = v }))
      else err unknown_type

  unfoldable pub decode_server : List ℕ → ServerMessage F32 → Result Error (ServerMessage F32)
  decode_server bytes out = do
    fail_if (length bytes == 0) empty_message
    type ← byte_at bytes 0
    body ← slice_from bytes 1
    decode_message type body out
