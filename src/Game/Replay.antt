-- ===== src/Game/Replay.antt =====
-- replay.go: the log of a session, its recorders, Encode and DecodeReplay. An int64 seed is its bit
-- pattern; `int(uint32)` never wraps on the 64-bit platforms that the server is built for.
pub mod Safety
pub mod RoundTrip
use rewind.Prelude.{
  ◌%◌, ◌^◌, ℕ, zero, suc, ◌+◌, ◌-◌, List, [], ◌∷◌, ◌++◌, Bool, true, false, not, ◌&&◌, ◌||◌, ◌==◌,
  ltb, leb, if◌then◌else◌, length,
}
use rewind.Prelude.Result.{Result, ok, err, ◌>>=◌, ◌>>◌, fail_if}
use rewind.Prelude.Bytes.{byte_at, slice, slice_from, u16_at, u32_at, u64_at, le16, le32, le64}
use rewind.Protocol.Types.{Input, zero_input, max_name_len}

-- "ARPL"
abbrev pub replay_magic : List ℕ
replay_magic = 0x41 ∷ 0x52 ∷ 0x50 ∷ 0x4C ∷ []

abbrev pub replay_version : ℕ
replay_version = 6

pub data ReplayError : Type 0 where
  bad_magic bad_version short_log bad_kind long_name bad_tick_rate : ReplayError

abbrev pub replay_join : ℕ
replay_join = 1

abbrev pub replay_leave : ℕ
replay_leave = 2

abbrev pub replay_input : ℕ
replay_input = 3

pub record ReplayEvent : Type 0 where
  pub tick : ℕ
  pub kind : ℕ
  pub id : ℕ
  pub name : List ℕ
  pub input : Input

pub record ReplayLog : Type 0 where
  pub seed : ℕ
  pub tick_rate : ℕ
  pub team_mode : Bool
  pub hill_mode : Bool
  pub dom_mode : Bool
  pub ctf_mode : Bool
  pub ticks : ℕ
  pub events : List ReplayEvent

record_event : ReplayLog → ReplayEvent → ReplayLog
record_event l e = record l { events = l.events ++ (e ∷ []) }

abbrev pub joined : ℕ → List ℕ → ReplayEvent
joined tick name = record {
  tick = tick;
  kind = replay_join;
  id = 0;
  name = name;
  input = zero_input;
}

abbrev pub left : ℕ → ℕ → ReplayEvent
left tick id = record { tick = tick; kind = replay_leave; id = id; name = []; input = zero_input }

abbrev pub entered : ℕ → ℕ → Input → ReplayEvent
entered tick id i = record { tick = tick; kind = replay_input; id = id; name = []; input = i }

-- The methods join, leave and input.
unfoldable pub log_join : ReplayLog → ℕ → List ℕ → ReplayLog
unfolding record_event
log_join l tick name = record_event l (joined tick name)

unfoldable pub log_leave : ReplayLog → ℕ → ℕ → ReplayLog
unfolding record_event
log_leave l tick id = record_event l (left tick id)

unfoldable pub log_input : ReplayLog → ℕ → ℕ → Input → ReplayLog
unfolding record_event
log_input l tick id i = record_event l (entered tick id i)

abbrev pub mode_byte : Bool → ℕ
mode_byte true = 1
mode_byte false = 0

pub input_bytes : Input → List ℕ
input_bytes i =
    le32 i.seq
    ++ (i.buttons ∷ (le16 i.aim ++ (le32 i.view_tick ++ (le32 i.ack_tick ++ (i.actions ∷ [])))))

-- The switch on the kind in Encode.
pub event_tail : ReplayEvent → List ℕ
event_tail e =
    if e.kind == replay_join
    then length e.name % 2 ^ 8 ∷ e.name
    else if e.kind == replay_leave
    then le16 e.id
    else if e.kind == replay_input
    then le16 e.id ++ input_bytes e.input
    else []

pub event_bytes : ReplayEvent → List ℕ
event_bytes e = le32 e.tick ++ (e.kind ∷ event_tail e)

pub events_bytes : List ReplayEvent → List ℕ
events_bytes [] = []
events_bytes (e ∷ es) = event_bytes e ++ events_bytes es

unfoldable pub encode : ReplayLog → List ℕ
encode l =
    replay_magic
    ++ (replay_version
        ∷ (le64 l.seed
            ++ (le32 l.tick_rate
                ++ (le32 l.ticks
                    ++ (mode_byte l.team_mode
                        ∷ mode_byte l.hill_mode
                        ∷ mode_byte l.dom_mode
                        ∷ mode_byte l.ctf_mode
                        ∷ (le32 (length l.events) ++ events_bytes l.events))))))

-- The closure `need`.
abbrev pub lacks : List ℕ → ℕ → ℕ → Bool
lacks body off n = ltb (length body) (off + n)

pub read_join : ℕ → List ℕ → ℕ → Result ReplayError (ReplayEvent × ℕ)
read_join tick body off = do
  fail_if (lacks body off 1) short_log
  n ← byte_at body off
  fail_if (ltb max_name_len n) long_name
  fail_if (lacks body (off + 1) n) short_log
  name ← slice body (off + 1) (off + 1 + n)
  ok (joined tick name, off + 1 + n)

pub read_leave : ℕ → List ℕ → ℕ → Result ReplayError (ReplayEvent × ℕ)
read_leave tick body off = do
  fail_if (lacks body off 2) short_log
  id ← u16_at body off
  ok (left tick id, off + 2)

-- Logs before version 3 hold no actions byte.
abbrev pub input_len : ℕ → ℕ
input_len ver = if ltb ver 3 then 17 else 18

pub actions_at : ℕ → List ℕ → ℕ → Result ReplayError ℕ
actions_at ver body i = if ltb ver 3 then ok 0 else byte_at body i

pub read_input : ℕ → ℕ → List ℕ → ℕ → Result ReplayError (ReplayEvent × ℕ)
read_input ver tick body off = do
  fail_if (lacks body off (input_len ver)) short_log
  id ← u16_at body off
  seq ← u32_at body (off + 2)
  buttons ← byte_at body (off + 6)
  aim ← u16_at body (off + 7)
  view_tick ← u32_at body (off + 9)
  ack_tick ← u32_at body (off + 13)
  actions ← actions_at ver body (off + 17)
  ok (
    entered tick id (record {
      seq = seq;
      buttons = buttons;
      aim = aim;
      view_tick = view_tick;
      ack_tick = ack_tick;
      actions = actions;
    }),
    off + input_len ver,
  )

pub read_kind : ℕ → ℕ → ℕ → List ℕ → ℕ → Result ReplayError (ReplayEvent × ℕ)
read_kind ver kind tick body off =
    if kind == replay_join
    then read_join tick body off
    else if kind == replay_leave
    then read_leave tick body off
    else if kind == replay_input
    then read_input ver tick body off
    else err bad_kind

-- One round of the loop: the event at `off` and the offset behind it.
pub read_event : ℕ → List ℕ → ℕ → Result ReplayError (ReplayEvent × ℕ)
read_event ver body off = do
  fail_if (lacks body off 5) short_log
  tick ← u32_at body off
  kind ← byte_at body (off + 4)
  read_kind ver kind tick body (off + 5)

pub read_events : ℕ → ℕ → List ℕ → ℕ → Result ReplayError (List ReplayEvent)
read_events ver zero body off = ok []
read_events ver (suc n) body off = do
  (e, off') ← read_event ver body off
  es ← read_events ver n body off'
  ok (e ∷ es)

-- A mode byte that the header has from version `since` on, with the length of a header that has it.
pub mode_at : ℕ → ℕ → ℕ → ℕ → List ℕ → Result ReplayError Bool
mode_at since len i ver bytes =
    if ltb ver since
    then ok false
    else (fail_if (ltb (length bytes) len) short_log
        >> (byte_at bytes i >>= λ b. ok (not (b == 0))))

abbrev pub header_len : ℕ → ℕ
header_len ver =
    if ltb ver 2
    then 25
    else if ltb ver 4
    then 26
    else if ltb ver 5
    then 27
    else if ltb ver 6
    then 28
    else 29

unfoldable pub decode_replay : List ℕ → Result ReplayError ReplayLog
decode_replay bytes = do
  fail_if (ltb (length bytes) 25) short_log
  a ← byte_at bytes 0
  b ← byte_at bytes 1
  c ← byte_at bytes 2
  d ← byte_at bytes 3
  fail_if (not (a == 0x41 && (b == 0x52 && (c == 0x50 && d == 0x4C)))) bad_magic
  ver ← byte_at bytes 4
  fail_if (ltb ver 1 || ltb replay_version ver) bad_version
  seed ← u64_at bytes 5
  tick_rate ← u32_at bytes 13
  ticks ← u32_at bytes 17
  fail_if (tick_rate == 0) bad_tick_rate
  team ← mode_at 2 26 21 ver bytes
  hill ← mode_at 4 27 22 ver bytes
  dom ← mode_at 5 28 23 ver bytes
  ctf ← mode_at 6 29 24 ver bytes
  count ← u32_at bytes (header_len ver - 4)
  body ← slice_from bytes (header_len ver)
  events ← read_events ver count body 0
  ok (record {
    seed = seed;
    tick_rate = tick_rate;
    team_mode = team;
    hill_mode = hill;
    dom_mode = dom;
    ctf_mode = ctf;
    ticks = ticks;
    events = events;
  })
