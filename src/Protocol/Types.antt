-- ===== src/Protocol/Types.antt =====
-- protocol.go: message types, limits, errors and message records. A string is the list of its
-- bytes; a record that carries float32 fields takes their type as a parameter.
use rewind.Prelude.{ℕ, List, [], Bool, false}

-- MsgType.
abbrev pub msg_input : ℕ
msg_input = 0x01

abbrev pub msg_join : ℕ
msg_join = 0x02

abbrev pub msg_snapshot : ℕ
msg_snapshot = 0x10

abbrev pub msg_join_ack : ℕ
msg_join_ack = 0x11

abbrev pub msg_spawn : ℕ
msg_spawn = 0x12

abbrev pub msg_death : ℕ
msg_death = 0x13

abbrev pub msg_hit : ℕ
msg_hit = 0x14

abbrev pub msg_match_state : ℕ
msg_match_state = 0x15

abbrev pub msg_pickup_state : ℕ
msg_pickup_state = 0x16

abbrev pub msg_killstreak : ℕ
msg_killstreak = 0x17

abbrev pub msg_weapon_state : ℕ
msg_weapon_state = 0x18

abbrev pub msg_flag_state : ℕ
msg_flag_state = 0x19

abbrev pub msg_capture : ℕ
msg_capture = 0x1a

abbrev pub max_name_len : ℕ
max_name_len = 16

abbrev pub max_token_len : ℕ
max_token_len = 512

abbrev pub max_entities : ℕ
max_entities = 255

pub data Error : Type 0 where
  empty_message short_message unknown_type name_too_long token_too_long : Error
  too_many_entity malformed : Error

-- The bits of a field mask, in the order of the fields on the wire.
abbrev pub field_kind : ℕ
field_kind = 1

abbrev pub field_x : ℕ
field_x = 2

abbrev pub field_y : ℕ
field_y = 4

abbrev pub field_vx : ℕ
field_vx = 8

abbrev pub field_vy : ℕ
field_vy = 16

abbrev pub field_hp : ℕ
field_hp = 32

abbrev pub field_all : ℕ
field_all = 63

abbrev pub match_flag_team_mode : ℕ
match_flag_team_mode = 1

abbrev pub match_flag_hill_mode : ℕ
match_flag_hill_mode = 2

abbrev pub match_flag_dom_mode : ℕ
match_flag_dom_mode = 4

abbrev pub match_flag_ctf_mode : ℕ
match_flag_ctf_mode = 8

pub record Input : Type 0 where
  pub seq : ℕ
  pub buttons : ℕ
  pub aim : ℕ
  pub view_tick : ℕ
  pub ack_tick : ℕ
  pub actions : ℕ

pub record Join : Type 0 where
  pub name : List ℕ
  pub token : List ℕ
  pub spectator : Bool

pub record Entity (F : Type 0) : Type 0 where
  pub id : ℕ
  pub kind : ℕ
  pub x : F
  pub y : F
  pub vx : F
  pub vy : F
  pub hp : ℕ

pub record Snapshot (F : Type 0) : Type 0 where
  pub tick : ℕ
  pub base_tick : ℕ
  pub last_processed_seq : ℕ
  pub entities : List (Entity F)
  pub masks : List ℕ
  pub removed : List ℕ

pub record JoinAck : Type 0 where
  pub your_id : ℕ
  pub tick : ℕ

pub record Spawn (F : Type 0) : Type 0 where
  pub id : ℕ
  pub x : F
  pub y : F

pub record Death : Type 0 where
  pub victim : ℕ
  pub killer : ℕ

pub record Hit : Type 0 where
  pub attacker : ℕ
  pub victim : ℕ
  pub damage : ℕ
  pub victim_hp : ℕ

pub record MatchScore : Type 0 where
  pub id : ℕ
  pub name : List ℕ
  pub kills : ℕ
  pub deaths : ℕ
  pub team : ℕ
  pub hill_score : ℕ

pub record MatchState : Type 0 where
  pub phase : ℕ
  pub remaining : ℕ
  pub winner : ℕ
  pub team_mode : Bool
  pub hill_mode : Bool
  pub dom_mode : Bool
  pub ctf_mode : Bool
  pub scores : List MatchScore

pub record Pickup : Type 0 where
  pub spot : ℕ
  pub kind : ℕ

pub record PickupState : Type 0 where
  pub active : List Pickup

pub record Killstreak : Type 0 where
  pub id : ℕ
  pub streak : ℕ

pub record WeaponInfo : Type 0 where
  pub id : ℕ
  pub weapon : ℕ

pub record WeaponState : Type 0 where
  pub weapons : List WeaponInfo

pub record FlagInfo (F : Type 0) : Type 0 where
  pub team : ℕ
  pub status : ℕ
  pub carrier : ℕ
  pub x : F
  pub y : F

pub record FlagState (F : Type 0) : Type 0 where
  pub flags : List (FlagInfo F)

pub record Capture : Type 0 where
  pub player : ℕ
  pub team : ℕ

abbrev pub zero_input : Input
zero_input = record { seq = 0; buttons = 0; aim = 0; view_tick = 0; ack_tick = 0; actions = 0 }

abbrev pub zero_join : Join
zero_join = record { name = []; token = []; spectator = false }
