-- ===== src/Protocol/Events.antt =====
-- codec.go, the messages of fixed size from the server: JoinAck, Spawn, Death, Hit, Killstreak and
-- Capture. An encoder never fails; `read_x` is the case of the message in DecodeServer.
pub mod RoundTrip
use rewind.Prelude.{ℕ, List, [], ◌∷◌, ◌++◌, ltb, length}
use rewind.Prelude.Result.{Result, ok, ◌>>=◌, ◌>>◌, fail_if}
use rewind.Prelude.Bytes.{byte_at, u16_at, u32_at, le16, le32}
use rewind.Prelude.Float.{Floats}
use rewind.Protocol.Quantize.{quantize_coord, dequantize_coord}
use rewind.Protocol.Types.{
  Error, short_message, JoinAck, Spawn, Death, Hit, Killstreak, Capture, msg_join_ack, msg_spawn,
  msg_death, msg_hit, msg_killstreak, msg_capture,
}

unfoldable pub append_join_ack : List ℕ → JoinAck → Result Error (List ℕ)
append_join_ack dst a = ok (dst ++ (msg_join_ack ∷ (le16 a.your_id ++ le32 a.tick)))

unfoldable pub append_death : List ℕ → Death → Result Error (List ℕ)
append_death dst d = ok (dst ++ (msg_death ∷ (le16 d.victim ++ le16 d.killer)))

unfoldable pub append_hit : List ℕ → Hit → Result Error (List ℕ)
append_hit dst h =
    ok (dst ++ (msg_hit ∷ (le16 h.attacker ++ (le16 h.victim ++ (h.damage ∷ h.victim_hp ∷ [])))))

unfoldable pub append_killstreak : List ℕ → Killstreak → Result Error (List ℕ)
append_killstreak dst k = ok (dst ++ (msg_killstreak ∷ (le16 k.id ++ le16 k.streak)))

unfoldable pub append_capture : List ℕ → Capture → Result Error (List ℕ)
append_capture dst c = ok (dst ++ (msg_capture ∷ (le16 c.player ++ (c.team ∷ []))))

unfoldable pub read_join_ack : List ℕ → Result Error JoinAck
read_join_ack body = do
  fail_if (ltb (length body) 6) short_message
  your_id ← u16_at body 0
  tick ← u32_at body 2
  ok (record { your_id = your_id; tick = tick })

unfoldable pub read_death : List ℕ → Result Error Death
read_death body = do
  fail_if (ltb (length body) 4) short_message
  victim ← u16_at body 0
  killer ← u16_at body 2
  ok (record { victim = victim; killer = killer })

unfoldable pub read_hit : List ℕ → Result Error Hit
read_hit body = do
  fail_if (ltb (length body) 6) short_message
  attacker ← u16_at body 0
  victim ← u16_at body 2
  damage ← byte_at body 4
  victim_hp ← byte_at body 5
  ok (record { attacker = attacker; victim = victim; damage = damage; victim_hp = victim_hp })

unfoldable pub read_killstreak : List ℕ → Result Error Killstreak
read_killstreak body = do
  fail_if (ltb (length body) 4) short_message
  id ← u16_at body 0
  streak ← u16_at body 2
  ok (record { id = id; streak = streak })

unfoldable pub read_capture : List ℕ → Result Error Capture
read_capture body = do
  fail_if (ltb (length body) 3) short_message
  player ← u16_at body 0
  team ← byte_at body 2
  ok (record { player = player; team = team })

module _ (fl : Floats) where
  open fl use {F32}

  unfoldable pub append_spawn : List ℕ → Spawn F32 → Result Error (List ℕ)
  append_spawn dst s = ok (
      dst
      ++ (msg_spawn
          ∷ (le16 s.id ++ (le16 (quantize_coord fl s.x) ++ le16 (quantize_coord fl s.y)))))

  unfoldable pub read_spawn : List ℕ → Result Error (Spawn F32)
  read_spawn body = do
    fail_if (ltb (length body) 6) short_message
    id ← u16_at body 0
    x ← u16_at body 2
    y ← u16_at body 4
    ok (record { id = id; x = dequantize_coord fl x; y = dequantize_coord fl y })
