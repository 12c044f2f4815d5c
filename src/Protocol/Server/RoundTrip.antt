-- ===== src/Protocol/Server/RoundTrip.antt =====
-- What the encoders wrote for a server message, DecodeServer reads back.
use rewind.Prelude.{
  ℕ, suc, ◌≡◌, ◌≤◌, List, [], ◌∷◌, map, All, length, arith, le→ltb, le→leb, ◌∙◌, refl, ◌==◌, false,
}
use rewind.Prelude.Result.{ok, ◌>>=◌, >>=-ok, pass}
use rewind.Prelude.Bytes.{IsU16, IsU32, byte_at, slice_from}
use rewind.Prelude.Float.{Floats}
use rewind.Protocol.Types.{
  Snapshot, JoinAck, Spawn, Death, Hit, MatchState, PickupState, Killstreak, WeaponState, FlagState,
  Capture, msg_snapshot, msg_join_ack, msg_spawn, msg_death, msg_hit, msg_match_state,
  msg_pickup_state, msg_killstreak, msg_weapon_state, msg_flag_state, msg_capture,
}
use rewind.Protocol.Snapshot.{append_snapshot}
use rewind.Protocol.Snapshot.RoundTrip.{
  SnapshotIsValid, on_wire, append_snapshot-body, decode_snapshot-body,
}
use rewind.Protocol.Events.{
  append_join_ack, append_spawn, append_death, append_hit, append_killstreak, append_capture,
}
use rewind.Protocol.Events.RoundTrip.{
  join_ack-read, spawn-read, death-read, hit-read, killstreak-read, capture-read, wire_spawn,
}
use rewind.Protocol.Tables.{
  append_table, append_pickup_state, append_weapon_state, append_flag_state,
}
use rewind.Protocol.Tables.RoundTrip.{
  pickup_state-read, weapon_state-read, flag_state-read, wire_flag,
}
use rewind.Protocol.Scores.{append_match_state}
use rewind.Protocol.Scores.RoundTrip.{MatchIsValid, append_match_state-body, match_state-read}
use rewind.Protocol.Server.{ServerMessage, decode_message, decode_server}

module _ (fl : Floats) (out : ServerMessage fl.F32) where
  decode_server-cons :
      (t : ℕ) (b : List ℕ) → decode_server fl (t ∷ b) out ≡ decode_message fl t b out
  unfolding decode_server byte_at slice_from
  decode_server-cons t b = pass _ nonempty (rw (le→leb 1 (suc (length b)) (omega arith)))
    where
      nonempty : (suc (length b) == 0) ≡ false
      nonempty = ground arith

  -- A valid snapshot, full or delta, comes back with its values quantised; a delta with the fields
  -- that its masks name.
  pub decode-append_snapshot :
      (s : Snapshot fl.F32)
      → SnapshotIsValid fl s
      → (append_snapshot fl [] s >>= λ bytes. decode_server fl bytes out)
        ≡ ok (record out { type = msg_snapshot; snapshot = on_wire fl s })
  unfolding decode_message
  decode-append_snapshot s v =
      >>=-ok _ (append_snapshot-body fl [] s v)
        (decode_server-cons _ _ ∙ >>=-ok _ (decode_snapshot-body fl s v) refl)

  -- A match state with fitting names comes back unchanged, flags and table rows included.
  pub decode-append_match_state :
      (m : MatchState)
      → MatchIsValid m
      → (append_match_state [] m >>= λ bytes. decode_server fl bytes out)
        ≡ ok (record out { type = msg_match_state; match_state = m })
  unfolding decode_message
  decode-append_match_state m v =
      >>=-ok _ (append_match_state-body [] m v)
        (decode_server-cons _ _ ∙ >>=-ok _ (match_state-read m v) refl)

  -- A table of at most 255 flags, with carriers of 16 bits, comes back with the positions quantised.
  pub decode-append_flag_state :
      (f : FlagState fl.F32)
      → length f.flags ≤ 255
      → All (λ g. IsU16 g.carrier) f.flags
      → (append_flag_state fl [] f >>= λ bytes. decode_server fl bytes out)
        ≡ ok (record out {
          type = msg_flag_state;
          flag_state = record { flags = map (wire_flag fl) f.flags };
        })
  unfolding decode_message append_flag_state append_table
  decode-append_flag_state f h v =
      >>=-ok _ (pass _ (le→ltb _ _ h) refl)
        (decode_server-cons _ _ ∙ >>=-ok _ (flag_state-read fl f v) refl)

  -- A table of at most 255 weapons, with ids of 16 bits, comes back unchanged.
  pub decode-append_weapon_state :
      (w : WeaponState)
      → length w.weapons ≤ 255
      → All (λ i. IsU16 i.id) w.weapons
      → (append_weapon_state [] w >>= λ bytes. decode_server fl bytes out)
        ≡ ok (record out { type = msg_weapon_state; weapon_state = w })
  unfolding decode_message append_weapon_state append_table
  decode-append_weapon_state w h v =
      >>=-ok _ (pass _ (le→ltb _ _ h) refl)
        (decode_server-cons _ _ ∙ >>=-ok _ (weapon_state-read w v) refl)

  -- A table of at most 255 pickups comes back unchanged.
  pub decode-append_pickup_state :
      (p : PickupState)
      → length p.active ≤ 255
      → (append_pickup_state [] p >>= λ bytes. decode_server fl bytes out)
        ≡ ok (record out { type = msg_pickup_state; pickup_state = p })
  unfolding decode_message append_pickup_state append_table
  decode-append_pickup_state p h =
      >>=-ok _ (pass _ (le→ltb _ _ h) refl)
        (decode_server-cons _ _ ∙ >>=-ok _ (pickup_state-read p) refl)

  -- The messages of fixed size come back: JoinAck, Death, Hit, Killstreak and Capture unchanged, Spawn
  -- with its position quantised.
  pub decode-append_events :
      (a : JoinAck) (d : Death) (h : Hit) (k : Killstreak) (c : Capture) (s : Spawn fl.F32)
      → IsU16 a.your_id × IsU32 a.tick
      → IsU16 d.victim × IsU16 d.killer
      → IsU16 h.attacker × IsU16 h.victim
      → IsU16 k.id × IsU16 k.streak
      → IsU16 c.player
      → IsU16 s.id
      → ((append_join_ack [] a >>= λ bytes. decode_server fl bytes out)
          ≡ ok (record out { type = msg_join_ack; join_ack = a }))
        × ((append_death [] d >>= λ bytes. decode_server fl bytes out)
            ≡ ok (record out { type = msg_death; death = d }))
        × ((append_hit [] h >>= λ bytes. decode_server fl bytes out)
            ≡ ok (record out { type = msg_hit; hit = h }))
        × ((append_killstreak [] k >>= λ bytes. decode_server fl bytes out)
            ≡ ok (record out { type = msg_killstreak; killstreak = k }))
        × ((append_capture [] c >>= λ bytes. decode_server fl bytes out)
            ≡ ok (record out { type = msg_capture; capture = c }))
        × ((append_spawn fl [] s >>= λ bytes. decode_server fl bytes out)
            ≡ ok (record out { type = msg_spawn; spawn = wire_spawn fl s }))
  unfolding decode_message append_join_ack append_death append_hit append_killstreak append_capture
      append_spawn
  decode-append_events a d h k c s va vd vh vk vc vs = (
    decode_server-cons _ _ ∙ >>=-ok _ (join_ack-read a va.0 va.1) refl,
    decode_server-cons _ _ ∙ >>=-ok _ (death-read d vd.0 vd.1) refl,
    decode_server-cons _ _ ∙ >>=-ok _ (hit-read h vh.0 vh.1) refl,
    decode_server-cons _ _ ∙ >>=-ok _ (killstreak-read k vk.0 vk.1) refl,
    decode_server-cons _ _ ∙ >>=-ok _ (capture-read c vc) refl,
    decode_server-cons _ _ ∙ >>=-ok _ (spawn-read fl s vs) refl,
  )
