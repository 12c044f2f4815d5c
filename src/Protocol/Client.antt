-- ===== src/Protocol/Client.antt =====
-- codec.go, the messages from a client: AppendInput, AppendJoin and DecodeClient. The successive
-- appends to `dst` are written as one.
pub mod Safety
pub mod RoundTrip
use rewind.Prelude.{
  ℕ, ◌+◌, List, [], ◌∷◌, ◌++◌, Bool, true, false, not, ◌&&◌, ◌==◌, ltb, if◌then◌else◌, length, ◌≤◌,
  ◌≡◌,
}
use rewind.Prelude.Result.{Result, ok, err, ◌>>=◌, ◌>>◌, fail_if}
use rewind.Prelude.Bytes.{byte_at, slice, slice_from, u16_at, u32_at, le16, le32}
use rewind.Prelude.Utf8.{utf8_valid}
use rewind.Protocol.Types.{
  Error, empty_message, short_message, unknown_type, name_too_long, token_too_long, malformed,
  Input, Join, msg_input, msg_join, max_name_len, max_token_len, zero_input, zero_join,
}

pub record ClientMessage : Type 0 where
  pub type : ℕ
  pub join : Join
  pub input : Input

unfoldable pub append_input : List ℕ → Input → Result Error (List ℕ)
append_input dst i = ok (
    dst
    ++ (msg_input
        ∷ (le32 i.seq
            ++ (i.buttons
                ∷ (le16 i.aim ++ (le32 i.view_tick ++ (le32 i.ack_tick ++ (i.actions ∷ []))))))))

abbrev pub spectator_byte : Bool → ℕ
spectator_byte true = 1
spectator_byte false = 0

unfoldable pub append_join : List ℕ → Join → Result Error (List ℕ)
append_join dst j = do
  fail_if (ltb max_name_len (length j.name)) name_too_long
  fail_if (ltb max_token_len (length j.token)) token_too_long
  ok (
      dst
      ++ (msg_join
          ∷ (length j.name
              ∷ (j.name
                  ++ (le16 (length j.token) ++ (j.token ++ (spectator_byte j.spectator ∷ [])))))))

-- A byte that may be missing at the end of a message: 0 then.
unfoldable pub optional_byte : List ℕ → ℕ → Result Error ℕ
optional_byte b i = if ltb i (length b) then byte_at b i else ok 0

-- The case of MsgInput. The actions byte is optional.
unfoldable pub decode_input : List ℕ → Result Error Input
decode_input body = do
  fail_if (ltb (length body) 15) short_message
  seq ← u32_at body 0
  buttons ← byte_at body 4
  aim ← u16_at body 5
  view_tick ← u32_at body 7
  ack_tick ← u32_at body 11
  actions ← optional_byte body 15
  ok (record {
    seq = seq;
    buttons = buttons;
    aim = aim;
    view_tick = view_tick;
    ack_tick = ack_tick;
    actions = actions;
  })

-- The token of MsgJoin, in `rest`, and the optional spectator byte behind it.
unfoldable pub decode_token : List ℕ → List ℕ → Result Error Join
decode_token name rest = do
  fail_if (ltb (length rest) 2) short_message
  tn ← u16_at rest 0
  fail_if (ltb max_token_len tn) token_too_long
  fail_if (ltb (length rest) (2 + tn)) short_message
  token ← slice rest 2 (2 + tn)
  fail_if (not (utf8_valid token)) malformed
  flag ← optional_byte rest (2 + tn)
  ok (record { name = name; token = token; spectator = not (flag == 0) })

-- The case of MsgJoin.
unfoldable pub decode_join : List ℕ → Result Error Join
decode_join body = do
  fail_if (ltb (length body) 1) short_message
  n ← byte_at body 0
  fail_if (ltb max_name_len n) name_too_long
  fail_if (ltb (length body) (1 + n)) short_message
  name ← slice body 1 (1 + n)
  fail_if (not (utf8_valid name)) malformed
  rest ← slice_from body (1 + n)
  decode_token name rest

unfoldable pub decode_body : ℕ → List ℕ → Result Error ClientMessage
decode_body type body =
    if type == msg_input
    then (decode_input body >>= λ i. ok (record { type = type; join = zero_join; input = i }))
    else if type == msg_join
    then (decode_join body >>= λ j. ok (record { type = type; join = j; input = zero_input }))
    else err unknown_type

unfoldable pub decode_client : List ℕ → Result Error ClientMessage
decode_client bytes = do
  fail_if (length bytes == 0) empty_message
  type ← byte_at bytes 0
  body ← slice_from bytes 1
  decode_body type body

-- The strings that a join may carry.
pub record JoinIsValid (j : Join) : Type 0 where
  pub name_fits : length j.name ≤ 16
  pub token_fits : length j.token ≤ 512
  pub name_utf8 : utf8_valid j.name ≡ true
  pub token_utf8 : utf8_valid j.token ≡ true
