-- ===== src/Protocol/Client/RoundTrip.antt =====
-- What the encoders wrote for a client message, DecodeClient reads back.
use rewind.Prelude.{
  ℕ, ◌+◌, ◌≤◌, ◌<◌, ◌≡◌, List, [], ◌∷◌, ◌++◌, Bool, true, false, length, length-append, not, ◌==◌,
  arith, refl, le→ltb, lt→ltb, ap, le→leb, ◌∙◌, take, suc,
}
use rewind.Prelude.Result.{ok, ◌>>=◌, >>=-ok, pass}
use rewind.Prelude.Bytes.{
  IsU8, IsU16, IsU32, le16, le32, u16_at, u32_at, byte_at, slice_from, word16-le, word32-le,
  length-le16, u16_at-le16, slice-append, byte_at_behind, slice_from-append,
}
use rewind.Prelude.Utf8.{accepted, utf8_valid}
use rewind.Protocol.Types.{Error, Input, Join, msg_input, msg_join, zero_join, zero_input}
use rewind.Protocol.Client.{
  append_input, append_join, spectator_byte, decode_input, decode_token, decode_join, decode_body,
  decode_client, optional_byte, JoinIsValid,
}

-- The fields are values of their Go types.
pub record InputInRange (i : Input) : Type 0 where
  pub seq : IsU32 i.seq
  pub buttons : IsU8 i.buttons
  pub aim : IsU16 i.aim
  pub view_tick : IsU32 i.view_tick
  pub ack_tick : IsU32 i.ack_tick
  pub actions : IsU8 i.actions

-- DecodeClient reads back every field of the input that AppendInput wrote, if each is a value of its
-- Go type.
pub decode-append_input :
    (i : Input)
    → InputInRange i
    → (append_input [] i >>= decode_client)
      ≡ ok (record { type = msg_input; join = zero_join; input = i })
unfolding append_input decode_client decode_body decode_input optional_byte byte_at slice_from
    u16_at u32_at le16 le32
decode-append_input i r = rw (
  word32-le i.seq r.seq,
  word32-le i.view_tick r.view_tick,
  word32-le i.ack_tick r.ack_tick,
  word16-le i.aim r.aim,
)

spectator-byte : (b : Bool) → not (spectator_byte b == 0) ≡ b
spectator-byte true = refl
spectator-byte false = refl

present :
    (b : List ℕ) (i : ℕ) {z : ℕ}
    → i < length b
    → byte_at {E = Error} b i ≡ ok z
    → optional_byte b i ≡ ok z
unfolding optional_byte
present b i h e = rw (lt→ltb i (length b) h) e

decode_token_lem :
    (name token : List ℕ) (s : Bool)
    → length token ≤ 512
    → utf8_valid token ≡ true
    → decode_token name (le16 (length token) ++ (token ++ (spectator_byte s ∷ [])))
      ≡ ok (record { name = name; token = token; spectator = s })
unfolding decode_token
decode_token_lem name token s fits valid = pass _ (le→ltb _ _ (omega (arith, size))) (
    >>=-ok _ (u16_at-le16 (length token) _ (omega arith)) (
      pass _ (le→ltb _ _ fits) (
        pass _ (le→ltb _ _ (omega (arith, size))) (
          >>=-ok _
            (slice-append (le16 (length token)) token _ 2 _ (rw length-le16) (rw length-le16))
            (pass _ (accepted _ valid) (
              >>=-ok _ last (
                ap (λ (b : Bool). ok (record { name = name; token = token; spectator = b }))
                  (spectator-byte s))))))))
  where
    rest : List ℕ
    rest = le16 (length token) ++ (token ++ (spectator_byte s ∷ []))

    size : length rest ≡ 3 + length token
    size = omega (
      arith,
      length-append (le16 (length token)) (token ++ (spectator_byte s ∷ [])),
      length-append {0} token (spectator_byte s ∷ []),
      length-le16 (length token),
    )

    last : optional_byte rest (2 + length token) ≡ ok (spectator_byte s)
    last =
        present rest _ (omega (arith, size))
          (byte_at_behind (le16 (length token)) token [] _ _ (rw length-le16))

decode_join_lem :
    (j : Join)
    → JoinIsValid j
    → decode_join (
        length j.name
        ∷ (j.name ++ (le16 (length j.token) ++ (j.token ++ (spectator_byte j.spectator ∷ [])))))
      ≡ ok j
unfolding decode_join byte_at
decode_join_lem j v = pass _ (le→ltb _ _ (omega arith)) (
    pass _ (le→ltb _ _ v.name_fits) (
      pass _ (le→ltb _ _ (omega (arith, length-append j.name rest))) (
        >>=-ok _ (slice-append (length j.name ∷ []) j.name rest 1 _ refl refl) (
          pass _ (accepted _ v.name_utf8) (
            >>=-ok _ (slice_from-append (length j.name ∷ j.name) rest _ (omega arith))
              (decode_token_lem j.name j.token j.spectator v.token_fits v.token_utf8))))))
  where
    rest : List ℕ
    rest = le16 (length j.token) ++ (j.token ++ (spectator_byte j.spectator ∷ []))

decode_client-cons : (t : ℕ) (b : List ℕ) → decode_client (t ∷ b) ≡ decode_body t b
unfolding decode_client byte_at slice_from
decode_client-cons t b = pass _ nonempty (rw (le→leb 1 (suc (length b)) (omega arith)))
  where
    nonempty : (suc (length b) == 0) ≡ false
    nonempty = ground arith

-- DecodeClient reads back the name, the token and the spectator flag that AppendJoin wrote, if the
-- strings are UTF-8 within the limits.
pub decode-append_join :
    (j : Join)
    → JoinIsValid j
    → (append_join [] j >>= decode_client)
      ≡ ok (record { type = msg_join; join = j; input = zero_input })
unfolding append_join decode_body
decode-append_join j v =
    >>=-ok _ (pass _ (le→ltb _ _ v.name_fits) (pass _ (le→ltb _ _ v.token_fits) refl))
      (decode_client-cons _ _ ∙ >>=-ok _ (decode_join_lem j v) refl)

-- A message without the optional last byte, as older clients send it, decodes with no actions.
pub decode_client_old_input :
    (i : Input)
    → InputInRange i
    → (append_input [] i >>= λ bytes. decode_client (take 16 bytes))
      ≡ ok (record { type = msg_input; join = zero_join; input = record i { actions = 0 } })
unfolding append_input decode_client decode_body decode_input optional_byte byte_at slice_from
    u16_at u32_at le16 le32
decode_client_old_input i r = rw (
  word32-le i.seq r.seq,
  word32-le i.view_tick r.view_tick,
  word32-le i.ack_tick r.ack_tick,
  word16-le i.aim r.aim,
)
