-- ===== src/Protocol/Server/Safety.antt =====
-- DecodeServer on any bytes.
use rewind.Prelude.{ℕ, ◌≤◌, ◌≢◌, List, Bool, true, false, ◌==◌, if◌then◌else◌, length, arith}
use rewind.Prelude.Result.{
  Result, ok, panic, ◌>>=◌, Returns, ok_returns, err_returns, >>=-Returns, fail_if-Returns,
  short-Returns, Returns-ne-panic,
}
use rewind.Prelude.Bytes.{
  byte_at-Returns, u16_at-Returns, u32_at-Returns, slice_from-Returns, u16_at,
}
use rewind.Prelude.Float.{Floats}
use rewind.Protocol.Types.{Error}
use rewind.Protocol.Snapshot.Safety.{decode_snapshot-Returns}
use rewind.Protocol.Events.{
  read_join_ack, read_spawn, read_death, read_hit, read_killstreak, read_capture,
}
use rewind.Protocol.Tables.RoundTrip.{
  pickup_state-Returns, weapon_state-Returns, flag_state-Returns,
}
use rewind.Protocol.Scores.RoundTrip.{match_state-Returns}
use rewind.Protocol.Server.{ServerMessage, decode_message, decode_server}

-- Two words at the start of a body.
words-Returns :
    {A : Type 0} (body : List ℕ) (f : ℕ → ℕ → Result Error A)
    → 4 ≤ length body
    → ((a b : ℕ) → Returns (f a b))
    → Returns (u16_at body 0 >>= λ a. u16_at body 2 >>= λ b. f a b)
words-Returns body f h k =
    >>=-Returns (u16_at-Returns body 0 (omega arith))
      λ a _. >>=-Returns (u16_at-Returns body 2 (omega arith)) λ b _. k a b

join_ack-Returns : (body : List ℕ) → Returns (read_join_ack body)
unfolding read_join_ack
join_ack-Returns body = short-Returns (length body) 6 _ λ h.
    >>=-Returns (u16_at-Returns body 0 (omega arith))
      λ _ _. >>=-Returns (u32_at-Returns body 2 (omega arith)) λ _ _. ok_returns _

death-Returns : (body : List ℕ) → Returns (read_death body)
unfolding read_death
death-Returns body = short-Returns (length body) 4 _ λ h. words-Returns body _ h λ _ _. ok_returns _

killstreak-Returns : (body : List ℕ) → Returns (read_killstreak body)
unfolding read_killstreak
killstreak-Returns body =
    short-Returns (length body) 4 _ λ h. words-Returns body _ h λ _ _. ok_returns _

hit-Returns : (body : List ℕ) → Returns (read_hit body)
unfolding read_hit
hit-Returns body = short-Returns (length body) 6 _ λ h. words-Returns body _ (omega arith) λ _ _.
    >>=-Returns (byte_at-Returns body 4 (omega arith))
      λ _ _. >>=-Returns (byte_at-Returns body 5 (omega arith)) λ _ _. ok_returns _

capture-Returns : (body : List ℕ) → Returns (read_capture body)
unfolding read_capture
capture-Returns body = short-Returns (length body) 3 _ λ h.
    >>=-Returns (u16_at-Returns body 0 (omega arith))
      λ _ _. >>=-Returns (byte_at-Returns body 2 (omega arith)) λ _ _. ok_returns _

-- One case of the dispatch.
case-Returns :
    {A B : Type 0} (b : Bool) (k : A → B) {r : Result Error A} {rest : Result Error B}
    → Returns r
    → Returns rest
    → Returns (if b then (r >>= λ v. ok (k v)) else rest)
case-Returns true k p q = >>=-Returns p λ _ _. ok_returns _
case-Returns false k p q = q

module _ (fl : Floats) where
  open fl use {F32}

  spawn-Returns : (body : List ℕ) → Returns (read_spawn fl body)
  unfolding read_spawn
  spawn-Returns body = short-Returns (length body) 6 _ λ h.
      words-Returns body _ (omega arith)
        λ _ _. >>=-Returns (u16_at-Returns body 4 (omega arith)) λ _ _. ok_returns _

  decode_message-Returns :
      (type : ℕ) (body : List ℕ) (out : ServerMessage F32)
      → Returns (decode_message fl type body out)
  unfolding decode_message
  decode_message-Returns type body out = case-Returns _ _ (decode_snapshot-Returns fl body) (
      case-Returns _ _ (join_ack-Returns body) (
        case-Returns _ _ (spawn-Returns body) (
          case-Returns _ _ (death-Returns body) (
            case-Returns _ _ (hit-Returns body) (
              case-Returns _ _ (match_state-Returns body) (
                case-Returns _ _ (pickup_state-Returns body) (
                  case-Returns _ _ (killstreak-Returns body) (
                    case-Returns _ _ (weapon_state-Returns body) (
                      case-Returns _ _ (flag_state-Returns fl body)
                        (case-Returns _ _ (capture-Returns body) (err_returns _)))))))))))

  -- DecodeServer never panics: on every sequence of bytes it returns a message or an error.
  pub decode_server-ne-panic :
      (bytes : List ℕ) (out : ServerMessage F32) → decode_server fl bytes out ≢ panic
  unfolding decode_server
  decode_server-ne-panic bytes out = Returns-ne-panic (
      fail_if-Returns (length bytes == 0) _ λ some.
        >>=-Returns (byte_at-Returns bytes 0 (ground arith)) λ type _.
          >>=-Returns (slice_from-Returns bytes 1 (ground arith))
            λ body _. decode_message-Returns type body out)
