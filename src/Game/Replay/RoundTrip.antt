-- ===== src/Game/Replay/RoundTrip.antt =====
-- A log, written by Encode and read back by DecodeReplay.
use rewind.Prelude.{
  ℕ, ◌+◌, ◌≤◌, ◌≡◌, List, [], ◌∷◌, ◌++◌, All, length, length-append, arith, ap, sym, ◌∙◌,
  append_assoc, refl, le→ltb, Bool, true, false, not, ◌==◌, ◌≢◌, ◌%◌, ◌^◌, ◌/◌, take,
}
use mathlib.Core.Path.{ap₂}
use rewind.Prelude.Result.{ok, >>=-ok, pass, ◌>>◌}
use rewind.Prelude.Bytes.{
  dword_read, length-le16, slice, IsU16, IsU32, IsU64, le16, le32, le64, byte_at, u16_at, u32_at,
  u64_at, word32-le, word64-le, word_read, byte_at-append, u16_at-append, u32_at-append,
  slice_from-append, slice-append, byte_at_after, u16_at_after, u16_at-le16, u32_at_after,
}
use rewind.Protocol.Types.{Input}
use rewind.Protocol.Client.RoundTrip.{InputInRange}
use rewind.Game.Replay.{
  ReplayEvent, ReplayLog, joined, left, entered, mode_byte, input_bytes, event_tail, event_bytes,
  events_bytes, encode, read_join, read_leave, read_input, actions_at, read_kind, read_event,
  read_events, mode_at, decode_replay, fail_if, ltb, short_log,
}

-- What the recorders write, with values of their Go types and names as a Join may carry them.
pub data IsRecorded : ReplayEvent → Type 0 where
  join_recorded :
      (tick : ℕ) (name : List ℕ) → IsU32 tick → length name ≤ 16 → IsRecorded (joined tick name)
  leave_recorded : (tick id : ℕ) → IsU32 tick → IsU16 id → IsRecorded (left tick id)
  input_recorded :
      (tick id : ℕ) (i : Input)
      → IsU32 tick
      → IsU16 id
      → InputInRange i
      → IsRecorded (entered tick id i)

read_join-at :
    (tick : ℕ) (pre post name : List ℕ)
    → length name ≤ 16
    → read_join tick (pre ++ ((length name ∷ name) ++ post)) (length pre)
      ≡ ok (joined tick name, length pre + 1 + length name)
unfolding read_join byte_at
read_join-at tick pre post name h = pass _ (le→ltb _ _ (omega (arith, size))) (
    >>=-ok _ (byte_at_after pre _) (
      pass _ (le→ltb _ _ h) (
        pass _ (le→ltb _ _ (omega (arith, size))) (
          >>=-ok _
            (ap (λ (b : List ℕ). slice b (length pre + 1) (length pre + 1 + length name))
                (sym (append_assoc pre (length name ∷ []) (name ++ post)))
              ∙ slice-append (pre ++ (length name ∷ [])) name post _ _ (omega (arith, one))
                  (omega (arith, one)))
            refl))))
  where
    size :
        length (pre ++ ((length name ∷ name) ++ post)) ≡ length pre + 1 + length name + length post
    size = omega (arith, length-append pre ((length name ∷ name) ++ post), length-append name post)

    one : length (pre ++ (length name ∷ [])) ≡ length pre + 1
    one = length-append pre (length name ∷ [])

read_leave-at :
    (tick id : ℕ) (pre post : List ℕ)
    → IsU16 id
    → read_leave tick (pre ++ (le16 id ++ post)) (length pre) ≡ ok (left tick id, length pre + 2)
unfolding read_leave
read_leave-at tick id pre post h =
    pass _
      (le→ltb _ _ (
        omega (
          arith,
          length-append pre (le16 id ++ post),
          length-append (le16 id) post,
          length-le16 id,
        )))
      (>>=-ok _ (u16_at_after pre _ ∙ u16_at-le16 id post h) refl)

read_input-at :
    (tick id : ℕ) (i : Input) (pre post : List ℕ)
    → IsU16 id
    → InputInRange i
    → read_input 6 tick (pre ++ ((le16 id ++ input_bytes i) ++ post)) (length pre)
      ≡ ok (entered tick id i, length pre + 18)
unfolding read_input actions_at input_bytes le16 le32 byte_at u16_at u32_at
read_input-at tick id i pre post h r =
    pass _ (le→ltb _ _ (omega (arith, length-append pre ((le16 id ++ input_bytes i) ++ post)))) (
      >>=-ok _ (u16_at_after pre _ ∙ word_read id h) (
        >>=-ok _ (u32_at-append pre _ 2 ∙ dword_read i.seq r.seq) (
          >>=-ok _ (byte_at-append pre _ 6) (
            >>=-ok _ (u16_at-append pre _ 7 ∙ word_read i.aim r.aim) (
              >>=-ok _ (u32_at-append pre _ 9 ∙ dword_read i.view_tick r.view_tick) (
                >>=-ok _ (u32_at-append pre _ 13 ∙ dword_read i.ack_tick r.ack_tick)
                  (>>=-ok _ (byte_at-append pre _ 17) refl)))))))

-- The time stamp and the kind, then the rest of the event behind them.
read_event_head :
    (pre tail post : List ℕ) (tick kind : ℕ)
    → IsU32 tick
    → read_event 6 (pre ++ ((le32 tick ++ (kind ∷ tail)) ++ post)) (length pre)
      ≡ read_kind 6 kind tick
          ((pre ++ (le32 tick ++ (kind ∷ []))) ++ (tail ++ post))
          (length (pre ++ (le32 tick ++ (kind ∷ []))))
unfolding read_event le32 byte_at u32_at
read_event_head pre tail post tick kind h =
    pass _ (le→ltb _ _ (omega (arith, length-append pre ((le32 tick ++ (kind ∷ tail)) ++ post)))) (
      >>=-ok _ (u32_at_after pre _ ∙ dword_read tick h) (
        >>=-ok _ (byte_at-append pre _ 4)
          (ap₂ (read_kind 6 kind tick) (sym (append_assoc pre _ _)) (sym (length-append pre _)))))

event_size :
    (pre tail : List ℕ) (tick kind : ℕ)
    → length (pre ++ (le32 tick ++ (kind ∷ tail)))
      ≡ length (pre ++ (le32 tick ++ (kind ∷ []))) + length tail
unfolding le32
event_size pre tail tick kind = omega (
  arith,
  length-append pre (le32 tick ++ (kind ∷ tail)),
  length-append pre (le32 tick ++ (kind ∷ [])),
)

length-input_bytes : (i : Input) → length (input_bytes i) ≡ 16
unfolding input_bytes le16 le32
length-input_bytes i = refl

one_byte : (name : List ℕ) → length name ≤ 16 → length name % 2 ^ 8 ≡ length name
one_byte name h = omega arith

read_event-at :
    (pre post : List ℕ) (e : ReplayEvent)
    → IsRecorded e
    → read_event 6 (pre ++ (event_bytes e ++ post)) (length pre)
      ≡ ok (e, length (pre ++ event_bytes e))
unfolding event_bytes event_tail read_kind
read_event-at pre post _ (join_recorded tick name h k) = rw (one_byte name k) (
    read_event_head pre (length name ∷ name) post tick 1 h
    ∙ read_join-at tick (pre ++ (le32 tick ++ (1 ∷ []))) post name k
    ∙ ap (λ (o : ℕ). ok (joined tick name, o))
        (omega (arith, event_size pre (length name ∷ name) tick 1)))
read_event-at pre post _ (leave_recorded tick id h k) =
    read_event_head pre (le16 id) post tick 2 h
    ∙ read_leave-at tick id (pre ++ (le32 tick ++ (2 ∷ []))) post k
    ∙ ap (λ (o : ℕ). ok (left tick id, o))
        (omega (arith, event_size pre (le16 id) tick 2, length-le16 id))
read_event-at pre post _ (input_recorded tick id i h k r) =
    read_event_head pre (le16 id ++ input_bytes i) post tick 3 h
    ∙ read_input-at tick id i (pre ++ (le32 tick ++ (3 ∷ []))) post k r
    ∙ ap (λ (o : ℕ). ok (entered tick id i, o))
        (omega (
          arith,
          event_size pre (le16 id ++ input_bytes i) tick 3,
          length-append (le16 id) (input_bytes i),
          length-le16 id,
          length-input_bytes i,
        ))

read_events-at :
    (es : List ReplayEvent) (pre : List ℕ) (off : ℕ) (body : List ℕ)
    → All IsRecorded es
    → body ≡ pre ++ events_bytes es
    → off ≡ length pre
    → read_events 6 (length es) body off ≡ ok es
unfolding read_events events_bytes
read_events-at [] pre off body v p q = refl
read_events-at (e ∷ es) pre off body (h, v) p q = >>=-ok _ here (
    >>=-ok _
      (read_events-at es (pre ++ event_bytes e) _ body v (rw p (sym (append_assoc pre _ _))) refl)
      refl)
  where
    here : read_event 6 body off ≡ ok (e, length (pre ++ event_bytes e))
    here = rw (p, q) (read_event-at pre (events_bytes es) e h)

mode-byte : (b : Bool) → not (mode_byte b == 0) ≡ b
mode-byte true = refl
mode-byte false = refl

pub record LogIsValid (l : ReplayLog) : Type 0 where
  pub seed : IsU64 l.seed
  pub tick_rate : IsU32 l.tick_rate
  pub positive : l.tick_rate ≢ 0
  pub ticks : IsU32 l.ticks
  pub count : IsU32 (length l.events)
  pub events : All IsRecorded l.events

-- DecodeReplay reads back the whole log that Encode wrote, its four modes and every recorded event
-- included, if the tick rate is positive, the numbers fit their words and the names a Join.
pub decode-encode : (l : ReplayLog) → LogIsValid l → decode_replay (encode l) ≡ ok l
unfolding decode_replay encode mode_at le16 le32 le64 byte_at u16_at u32_at u64_at
decode-encode l v = pass _ (le→ltb (length (encode l)) 25 (omega arith)) (
    rw
      (
        word32-le (l.seed % 2 ^ 32) (omega arith),
        word32-le (l.seed / 2 ^ 32) (omega (arith, v.seed)),
        word32-le l.tick_rate v.tick_rate,
        word32-le l.ticks v.ticks,
      )
      (pass _ positive (
        >>=-ok _ (mode 26 (omega arith) l.team_mode) (
          >>=-ok _ (mode 27 (omega arith) l.hill_mode) (
            >>=-ok _ (mode 28 (omega arith) l.dom_mode) (
              >>=-ok _ (mode 29 (omega arith) l.ctf_mode) (
                rw (word32-le (length l.events) v.count, word64-le l.seed v.seed)
                  (>>=-ok _ (slice_from-append (take 29 (encode l)) (events_bytes l.events) 29 refl)
                    (>>=-ok _ (read_events-at l.events [] 0 _ v.events refl refl) refl)))))))))
  where
    positive : (l.tick_rate == 0) ≡ false
    positive = ground (arith, v.positive)

    mode :
        (n : ℕ)
        → n ≤ length (encode l)
        → (b : Bool)
        → (fail_if (ltb (length (encode l)) n) short_log >> ok (not (mode_byte b == 0))) ≡ ok b
    mode n h b = pass _ (le→ltb (length (encode l)) n h) (ap ok (mode-byte b))
