-- ===== src/Protocol/Tables.antt =====
-- codec.go, the tables from the server: PickupState, WeaponState and FlagState, a counter and so many
-- records of one size.
pub mod RoundTrip
use rewind.Prelude.{ℕ, ◌+◌, ◌*◌, List, [], ◌∷◌, ◌++◌, ltb, length}
use rewind.Prelude.Result.{Result, ok, ◌>>=◌, ◌>>◌, fail_if}
use rewind.Prelude.Bytes.{byte_at, slice_from, u16_at, le16}
use rewind.Prelude.Float.{Floats}
use rewind.Protocol.Counted.{counted_loop, written}
use rewind.Protocol.Quantize.{quantize_coord, dequantize_coord}
use rewind.Protocol.Types.{
  Error, short_message, too_many_entity, max_entities, Pickup, PickupState, WeaponInfo, WeaponState,
  FlagInfo, FlagState, msg_pickup_state, msg_weapon_state, msg_flag_state,
}

-- The counter, the check that the body holds so many records, and the loop over them.
pub read_table : {A : Type 0} → ℕ → (List ℕ → ℕ → Result Error A) → List ℕ → Result Error (List A)
read_table size read body = do
  fail_if (ltb (length body) 1) short_message
  count ← byte_at body 0
  rest ← slice_from body 1
  fail_if (ltb (length rest) (count * size)) short_message
  counted_loop size read count 0 rest

-- The type, the counter and the records.
unfoldable pub append_table :
    {A : Type 0} → ℕ → (A → List ℕ) → List ℕ → List A → Result Error (List ℕ)
append_table type write dst items = do
  fail_if (ltb max_entities (length items)) too_many_entity
  ok (dst ++ (type ∷ length items ∷ written write items))

pub pickup_bytes : Pickup → List ℕ
pickup_bytes p = p.spot ∷ p.kind ∷ []

unfoldable pub append_pickup_state : List ℕ → PickupState → Result Error (List ℕ)
append_pickup_state dst p = append_table msg_pickup_state pickup_bytes dst p.active

pub read_pickup : List ℕ → ℕ → Result Error Pickup
read_pickup body off = do
  spot ← byte_at body off
  kind ← byte_at body (off + 1)
  ok (record { spot = spot; kind = kind })

pub read_pickup_state : List ℕ → Result Error PickupState
read_pickup_state body = do active ← read_table 2 read_pickup body; ok (record { active = active })

pub weapon_bytes : WeaponInfo → List ℕ
weapon_bytes w = le16 w.id ++ (w.weapon ∷ [])

unfoldable pub append_weapon_state : List ℕ → WeaponState → Result Error (List ℕ)
append_weapon_state dst w = append_table msg_weapon_state weapon_bytes dst w.weapons

pub read_weapon : List ℕ → ℕ → Result Error WeaponInfo
read_weapon body off = do
  id ← u16_at body off
  weapon ← byte_at body (off + 2)
  ok (record { id = id; weapon = weapon })

pub read_weapon_state : List ℕ → Result Error WeaponState
read_weapon_state body = do
  weapons ← read_table 3 read_weapon body
  ok (record { weapons = weapons })

module _ (fl : Floats) where
  open fl use {F32}

  pub flag_bytes : FlagInfo F32 → List ℕ
  flag_bytes f =
      f.team
      ∷ f.status
      ∷ (le16 f.carrier ++ (le16 (quantize_coord fl f.x) ++ le16 (quantize_coord fl f.y)))

  unfoldable pub append_flag_state : List ℕ → FlagState F32 → Result Error (List ℕ)
  append_flag_state dst f = append_table msg_flag_state flag_bytes dst f.flags

  pub read_flag : List ℕ → ℕ → Result Error (FlagInfo F32)
  read_flag body off = do
    team ← byte_at body off
    status ← byte_at body (off + 1)
    carrier ← u16_at body (off + 2)
    x ← u16_at body (off + 4)
    y ← u16_at body (off + 6)
    ok (record {
      team = team;
      status = status;
      carrier = carrier;
      x = dequantize_coord fl x;
      y = dequantize_coord fl y;
    })

  pub read_flag_state : List ℕ → Result Error (FlagState F32)
  read_flag_state body = do flags ← read_table 8 read_flag body; ok (record { flags = flags })
