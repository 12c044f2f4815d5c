-- ===== src/Protocol/Events/RoundTrip.antt =====
-- The messages of fixed size, written and read back.
use rewind.Prelude.Result.{ok}
use rewind.Prelude.{◌≡◌, [], ◌++◌, ◌∷◌}
use rewind.Prelude.Bytes.{IsU16, IsU32, le16, le32, byte_at, u16_at, u32_at, word16-le, word32-le}
use rewind.Prelude.Float.{Floats}
use rewind.Protocol.Types.{JoinAck, Spawn, Death, Hit, Killstreak, Capture}
use rewind.Protocol.Snapshot.Entities.{wire_coord}
use rewind.Protocol.Quantize.{quantize_coord}
use rewind.Protocol.Quantize.Exact.{quantize_coord-IsU16}
use rewind.Protocol.Events.{
  read_join_ack, read_death, read_hit, read_killstreak, read_capture, read_spawn,
}

pub join_ack-read :
    (a : JoinAck)
    → IsU16 a.your_id
    → IsU32 a.tick
    → read_join_ack (le16 a.your_id ++ le32 a.tick) ≡ ok a
unfolding read_join_ack byte_at u16_at u32_at le16 le32
join_ack-read a h k = rw (word16-le a.your_id h, word32-le a.tick k)

pub death-read :
    (d : Death)
    → IsU16 d.victim
    → IsU16 d.killer
    → read_death (le16 d.victim ++ le16 d.killer) ≡ ok d
unfolding read_death byte_at u16_at le16
death-read d h k = rw (word16-le d.victim h, word16-le d.killer k)

pub hit-read :
    (h : Hit)
    → IsU16 h.attacker
    → IsU16 h.victim
    → read_hit (le16 h.attacker ++ (le16 h.victim ++ (h.damage ∷ h.victim_hp ∷ []))) ≡ ok h
unfolding read_hit byte_at u16_at le16
hit-read h p q = rw (word16-le h.attacker p, word16-le h.victim q)

pub killstreak-read :
    (k : Killstreak)
    → IsU16 k.id
    → IsU16 k.streak
    → read_killstreak (le16 k.id ++ le16 k.streak) ≡ ok k
unfolding read_killstreak byte_at u16_at le16
killstreak-read k p q = rw (word16-le k.id p, word16-le k.streak q)

pub capture-read :
    (c : Capture) → IsU16 c.player → read_capture (le16 c.player ++ (c.team ∷ [])) ≡ ok c
unfolding read_capture byte_at u16_at le16
capture-read c p = rw (word16-le c.player p)

module _ (fl : Floats) where
  open fl use {F32}

  pub wire_spawn : Spawn F32 → Spawn F32
  wire_spawn s = record s { x = wire_coord fl s.x; y = wire_coord fl s.y }

  pub spawn-read :
      (s : Spawn F32)
      → IsU16 s.id
      → read_spawn fl (le16 s.id ++ (le16 (quantize_coord fl s.x) ++ le16 (quantize_coord fl s.y)))
        ≡ ok (wire_spawn s)
  unfolding read_spawn byte_at u16_at le16 wire_spawn
  spawn-read s h = rw (
    word16-le s.id h,
    word16-le _ (quantize_coord-IsU16 fl s.x),
    word16-le _ (quantize_coord-IsU16 fl s.y),
  )
