-- ===== src/Game/Replay/Safety.antt =====
-- DecodeReplay on any bytes.
use rewind.Prelude.{
  ℕ, zero, suc, ◌+◌, ◌-◌, ◌≤◌, ◌≡◌, ◌≢◌, List, Bool, true, false, ◌==◌, ◌||◌, ltb, if◌then◌else◌,
  length, arith, Bool-cases, inl, inr, ◌&&◌,
}
use rewind.Prelude.Result.{
  Result, ok, panic, Returns, ok_returns, err_returns, >>=-Returns, fail_if-Returns, short-Returns,
  Returns-ne-panic,
}
use rewind.Prelude.Bytes.{
  byte_at-Returns, u16_at-Returns, u32_at-Returns, u64_at-Returns, slice-Returns,
  slice_from-Returns,
}
use rewind.Game.Replay.{
  ReplayError, read_join, read_leave, read_input, actions_at, read_kind, read_event, read_events,
  mode_at, header_len, input_len, decode_replay, not, bad_magic, bad_version, bad_tick_rate,
}

read_join-Returns : (tick : ℕ) (b : List ℕ) (off : ℕ) → Returns (read_join tick b off)
unfolding read_join
read_join-Returns tick b off = short-Returns (length b) (off + 1) _ λ h.
    >>=-Returns (byte_at-Returns b off (omega arith)) λ n _. fail_if-Returns (ltb 16 n) _ λ _.
      short-Returns (length b) (off + 1 + n) _ λ k.
        >>=-Returns (slice-Returns b (off + 1) (off + 1 + n) (omega arith) k) λ _ _. ok_returns _

read_leave-Returns : (tick : ℕ) (b : List ℕ) (off : ℕ) → Returns (read_leave tick b off)
unfolding read_leave
read_leave-Returns tick b off =
    short-Returns (length b) (off + 2) _
      λ h. >>=-Returns (u16_at-Returns b off h) λ _ _. ok_returns _

actions_at-Returns :
    (ver : ℕ) (b : List ℕ) (off : ℕ)
    → off + input_len ver ≤ length b
    → Returns (actions_at ver b (off + 17))
unfolding actions_at
actions_at-Returns ver b off h = elim (Bool-cases (ltb ver 3)) [
  | inl e ↦ rw e (ok_returns _)
  | inr e ↦ rw e (byte_at-Returns b (off + 17) (ground arith))
]

read_input-Returns : (ver tick : ℕ) (b : List ℕ) (off : ℕ) → Returns (read_input ver tick b off)
unfolding read_input
read_input-Returns ver tick b off = short-Returns (length b) (off + input_len ver) _ λ h.
    let k : off + 17 ≤ length b = ground arith in
    >>=-Returns (u16_at-Returns b off (omega arith)) λ _ _.
      >>=-Returns (u32_at-Returns b (off + 2) (omega arith)) λ _ _.
        >>=-Returns (byte_at-Returns b (off + 6) (omega arith)) λ _ _.
          >>=-Returns (u16_at-Returns b (off + 7) (omega arith)) λ _ _.
            >>=-Returns (u32_at-Returns b (off + 9) (omega arith)) λ _ _.
              >>=-Returns (u32_at-Returns b (off + 13) (omega arith))
                λ _ _. >>=-Returns (actions_at-Returns ver b off h) λ _ _. ok_returns _

choice-Returns :
    {A : Type 0} (b : Bool) {p q : Result ReplayError A}
    → Returns p
    → Returns q
    → Returns (if b then p else q)
choice-Returns true p q = p
choice-Returns false p q = q

read_event-Returns : (ver : ℕ) (b : List ℕ) (off : ℕ) → Returns (read_event ver b off)
unfolding read_event read_kind
read_event-Returns ver b off = short-Returns (length b) (off + 5) _ λ h.
    >>=-Returns (u32_at-Returns b off (omega arith)) λ tick _.
      >>=-Returns (byte_at-Returns b (off + 4) (omega arith)) λ kind _.
        choice-Returns _ (read_join-Returns tick b (off + 5)) (
          choice-Returns _ (read_leave-Returns tick b (off + 5))
            (choice-Returns _ (read_input-Returns ver tick b (off + 5)) (err_returns _)))

read_events-Returns : (ver n : ℕ) (b : List ℕ) (off : ℕ) → Returns (read_events ver n b off)
unfolding read_events
read_events-Returns ver zero b off = ok_returns _
read_events-Returns ver (suc n) b off =
    >>=-Returns (read_event-Returns ver b off)
      λ r _. >>=-Returns (read_events-Returns ver n b r.1) λ _ _. ok_returns _

mode_at-Returns :
    (since len i ver : ℕ) (b : List ℕ) → i + 1 ≤ len → Returns (mode_at since len i ver b)
unfolding mode_at
mode_at-Returns since len i ver b h = choice-Returns (ltb ver since) (ok_returns _) (
    short-Returns (length b) len _
      λ k. >>=-Returns (byte_at-Returns b i (omega arith)) λ _ _. ok_returns _)

-- A mode that was read shows that the header is there.
mode_at-long :
    (since len i ver : ℕ) (b : List ℕ) {m : Bool}
    → mode_at since len i ver b ≡ ok m
    → ltb ver since ≡ false
    → len ≤ length b
unfolding mode_at
mode_at-long since len i ver b e h = ground arith

-- DecodeReplay never panics: on every sequence of bytes it returns a log or an error.
pub decode_replay-ne-panic : (bytes : List ℕ) → decode_replay bytes ≢ panic
unfolding decode_replay
decode_replay-ne-panic bytes = Returns-ne-panic (
    short-Returns (length bytes) 25 _ λ h.
      >>=-Returns (byte_at-Returns bytes 0 (omega arith)) λ a _.
        >>=-Returns (byte_at-Returns bytes 1 (omega arith)) λ b _.
          >>=-Returns (byte_at-Returns bytes 2 (omega arith)) λ c _.
            >>=-Returns (byte_at-Returns bytes 3 (omega arith)) λ d _.
              fail_if-Returns (not (a == 0x41 && (b == 0x52 && (c == 0x50 && d == 0x4C)))) bad_magic
                λ _. >>=-Returns (byte_at-Returns bytes 4 (omega arith)) λ ver _.
                  fail_if-Returns (ltb ver 1 || ltb 6 ver) bad_version λ _.
                    >>=-Returns (u64_at-Returns bytes 5 (omega arith)) λ _ _.
                      >>=-Returns (u32_at-Returns bytes 13 (omega arith)) λ rate _.
                        >>=-Returns (u32_at-Returns bytes 17 (omega arith)) λ _ _.
                          fail_if-Returns (rate == 0) bad_tick_rate λ _.
                            >>=-Returns (mode_at-Returns 2 26 21 ver bytes (omega arith)) λ _ m2.
                              >>=-Returns (mode_at-Returns 4 27 22 ver bytes (omega arith)) λ _ m4.
                                >>=-Returns (mode_at-Returns 5 28 23 ver bytes (omega arith))
                                  λ _ m5.
                                    >>=-Returns (mode_at-Returns 6 29 24 ver bytes (omega arith))
                                      λ _ m6.
                                        let long : header_len ver ≤ length bytes = ground (
                                          arith,
                                          mode_at-long 2 26 21 ver bytes m2,
                                          mode_at-long 4 27 22 ver bytes m4,
                                          mode_at-long 5 28 23 ver bytes m5,
                                          mode_at-long 6 29 24 ver bytes m6,
                                        ) in
                                        >>=-Returns
                                          (u32_at-Returns bytes (header_len ver - 4) (ground arith))
                                          λ count _.
                                            >>=-Returns
                                              (slice_from-Returns bytes (header_len ver) long)
                                              λ body _.
                                                >>=-Returns (read_events-Returns ver count body 0)
                                                  λ _ _. ok_returns _)
