-- ===== src/Protocol/Scores.antt =====
-- codec.go, MatchState: AppendMatchState and its case in DecodeServer. A score carries a name, so
-- its records differ in size.
pub mod Flags
pub mod RoundTrip
use rewind.Prelude.{ℕ, zero, suc, ◌+◌, List, [], ◌∷◌, ◌++◌, ltb, length, not}
use rewind.Prelude.Result.{Result, ok, ◌>>=◌, ◌>>◌, fail_if}
use rewind.Prelude.Bytes.{byte_at, slice, slice_from, u16_at, u32_at, le16, le32}
use rewind.Prelude.Utf8.{utf8_valid}
use rewind.Protocol.Types.{
  Error, short_message, too_many_entity, name_too_long, malformed, max_entities, max_name_len,
  MatchScore, MatchState, msg_match_state, match_flag_team_mode, match_flag_hill_mode,
  match_flag_dom_mode, match_flag_ctf_mode,
}
use Flags.{has_flag, match_flags}

pub score_bytes : MatchScore → List ℕ
score_bytes s =
    le16 s.id
    ++ (le16 s.kills
        ++ (le16 s.deaths ++ (s.team ∷ (le16 s.hill_score ++ (length s.name ∷ s.name)))))

pub append_scores : List ℕ → List MatchScore → Result Error (List ℕ)
append_scores dst [] = ok dst
append_scores dst (s ∷ rest) = do
  fail_if (ltb max_name_len (length s.name)) name_too_long
  append_scores (dst ++ score_bytes s) rest

unfoldable pub append_match_state : List ℕ → MatchState → Result Error (List ℕ)
append_match_state dst m = do
  fail_if (ltb max_entities (length m.scores)) too_many_entity
  append_scores
      (dst
        ++ (msg_match_state
            ∷ m.phase
            ∷ (le32 m.remaining
                ++ (le16 m.winner
                    ++ (match_flags m.team_mode m.hill_mode m.dom_mode m.ctf_mode
                        ∷ length m.scores
                        ∷ [])))))
      m.scores

-- One row with the bytes behind it.
pub read_score : List ℕ → Result Error (MatchScore × List ℕ)
read_score body = do
  fail_if (ltb (length body) 10) short_message
  id ← u16_at body 0
  kills ← u16_at body 2
  deaths ← u16_at body 4
  team ← byte_at body 6
  hill_score ← u16_at body 7
  n ← byte_at body 9
  fail_if (ltb max_name_len n) name_too_long
  fail_if (ltb (length body) (10 + n)) short_message
  name ← slice body 10 (10 + n)
  fail_if (not (utf8_valid name)) malformed
  rest ← slice_from body (10 + n)
  ok (
    record {
      id = id;
      name = name;
      kills = kills;
      deaths = deaths;
      team = team;
      hill_score = hill_score;
    },
    rest,
  )

pub read_scores : ℕ → List ℕ → Result Error (List MatchScore)
read_scores zero body = ok []
read_scores (suc n) body = do
  (s, rest) ← read_score body
  scores ← read_scores n rest
  ok (s ∷ scores)

unfoldable pub read_match_state : List ℕ → Result Error MatchState
read_match_state body = do
  fail_if (ltb (length body) 9) short_message
  phase ← byte_at body 0
  remaining ← u32_at body 1
  winner ← u16_at body 5
  flags ← byte_at body 7
  count ← byte_at body 8
  rest ← slice_from body 9
  scores ← read_scores count rest
  ok (record {
    phase = phase;
    remaining = remaining;
    winner = winner;
    team_mode = has_flag flags match_flag_team_mode;
    hill_mode = has_flag flags match_flag_hill_mode;
    dom_mode = has_flag flags match_flag_dom_mode;
    ctf_mode = has_flag flags match_flag_ctf_mode;
    scores = scores;
  })
