-- ===== src/Protocol/Scores/RoundTrip.antt =====
-- A MatchState, written and read back, and its decoder on any bytes.
use rewind.Prelude.{
  ℕ, zero, suc, ◌+◌, ◌≤◌, ◌≡◌, List, [], ◌∷◌, ◌++◌, All, length, length-append, arith, le→ltb,
  append-nil, append_assoc, ◌∙◌, refl, not, ltb, true,
}
use rewind.Prelude.Result.{
  ok, >>=-ok, pass, Returns, ok_returns, >>=-Returns, short-Returns, fail_if-Returns,
}
use rewind.Prelude.Bytes.{
  IsU16, IsU32, le16, le32, byte_at, u16_at, u32_at, slice_from-append, slice-append, word16-le,
  word32-le, byte_at-Returns, u16_at-Returns, u32_at-Returns, slice_from-Returns, slice-Returns,
}
use rewind.Prelude.Utf8.{utf8_valid, accepted}
use rewind.Protocol.Types.{MatchScore, MatchState, msg_match_state}
use rewind.Protocol.Scores.Flags.{has_flag-match_flags, match_flags}
use rewind.Protocol.Scores.{
  score_bytes, append_scores, append_match_state, read_score, read_scores, read_match_state,
}

pub record ScoreIsValid (s : MatchScore) : Type 0 where
  pub id : IsU16 s.id
  pub kills : IsU16 s.kills
  pub deaths : IsU16 s.deaths
  pub hill_score : IsU16 s.hill_score
  pub name_fits : length s.name ≤ 16
  pub name_utf8 : utf8_valid s.name ≡ true

pub record MatchIsValid (m : MatchState) : Type 0 where
  pub remaining : IsU32 m.remaining
  pub winner : IsU16 m.winner
  pub scores_fit : length m.scores ≤ 255
  pub scores : All ScoreIsValid m.scores

read_score-at :
    (s : MatchScore) (post : List ℕ)
    → ScoreIsValid s
    → read_score (score_bytes s ++ post) ≡ ok (s, post)
unfolding read_score score_bytes le16 byte_at u16_at
read_score-at s post v =
    rw
      (
        word16-le s.id v.id,
        word16-le s.kills v.kills,
        word16-le s.deaths v.deaths,
        word16-le s.hill_score v.hill_score,
      )
      (pass _ (le→ltb (length (score_bytes s ++ post)) 10 (omega arith)) (
        pass _ (le→ltb _ _ v.name_fits) (
          pass _
            (le→ltb (length (score_bytes s ++ post)) (10 + length s.name)
              (omega (arith, length-append s.name post)))
            (>>=-ok _ (slice-append fixed s.name post 10 _ refl refl) (
              pass _ (accepted _ v.name_utf8)
                (>>=-ok _ (slice_from-append (fixed ++ s.name) post _ (omega arith)) refl))))))
  where
    fixed : List ℕ
    fixed =
        le16 s.id
        ++ (le16 s.kills
            ++ (le16 s.deaths ++ (s.team ∷ (le16 s.hill_score ++ (length s.name ∷ [])))))

abbrev pub rows : List MatchScore → List ℕ
rows [] = []
rows (s ∷ rest) = score_bytes s ++ rows rest

append_scores-rows :
    (dst : List ℕ) (scores : List MatchScore)
    → All ScoreIsValid scores
    → append_scores dst scores ≡ ok (dst ++ rows scores)
unfolding append_scores
append_scores-rows dst [] v = rw append-nil
append_scores-rows dst (s ∷ rest) (h, v) =
    pass _ (le→ltb _ _ h.name_fits)
      (append_scores-rows (dst ++ score_bytes s) rest v ∙ rw append_assoc)

read_scores-rows :
    (scores : List MatchScore)
    → All ScoreIsValid scores
    → read_scores (length scores) (rows scores) ≡ ok scores
unfolding read_scores
read_scores-rows [] v = refl
read_scores-rows (s ∷ rest) (h, v) =
    >>=-ok _ (read_score-at s (rows rest) h) (>>=-ok _ (read_scores-rows rest v) refl)

-- What follows the message type.
pub match_state_body : MatchState → List ℕ
match_state_body m =
    m.phase
    ∷ (le32 m.remaining
        ++ (le16 m.winner
            ++ (match_flags m.team_mode m.hill_mode m.dom_mode m.ctf_mode
                ∷ length m.scores
                ∷ rows m.scores)))

pub append_match_state-body :
    (dst : List ℕ) (m : MatchState)
    → MatchIsValid m
    → append_match_state dst m ≡ ok (dst ++ (msg_match_state ∷ match_state_body m))
unfolding append_match_state match_state_body
append_match_state-body dst m v =
    pass _ (le→ltb _ _ v.scores_fit) (append_scores-rows _ m.scores v.scores ∙ simp append_assoc)

pub match_state-read :
    (m : MatchState) → MatchIsValid m → read_match_state (match_state_body m) ≡ ok m
unfolding read_match_state match_state_body le16 le32 byte_at u16_at u32_at
match_state-read m v =
    let modes = has_flag-match_flags m.team_mode m.hill_mode m.dom_mode m.ctf_mode in
    rw (word32-le m.remaining v.remaining, word16-le m.winner v.winner)
      (pass _ (le→ltb (length (match_state_body m)) 9 (omega arith)) (
        >>=-ok _ (slice_from-append fixed (rows m.scores) 9 refl) (
          >>=-ok _ (read_scores-rows m.scores v.scores) (rw (modes.0, modes.1, modes.2, modes.3)))))
  where
    fixed : List ℕ
    fixed =
        m.phase
        ∷ (le32 m.remaining
            ++ (le16 m.winner
                ++ (match_flags m.team_mode m.hill_mode m.dom_mode m.ctf_mode
                    ∷ length m.scores
                    ∷ [])))

read_score-Returns : (body : List ℕ) → Returns (read_score body)
unfolding read_score
read_score-Returns body = short-Returns (length body) 10 _ λ h.
    >>=-Returns (u16_at-Returns body 0 (omega arith)) λ _ _.
      >>=-Returns (u16_at-Returns body 2 (omega arith)) λ _ _.
        >>=-Returns (u16_at-Returns body 4 (omega arith)) λ _ _.
          >>=-Returns (byte_at-Returns body 6 (omega arith)) λ _ _.
            >>=-Returns (u16_at-Returns body 7 (omega arith)) λ _ _.
              >>=-Returns (byte_at-Returns body 9 (omega arith)) λ n _.
                fail_if-Returns (ltb 16 n) _ λ _. short-Returns (length body) (10 + n) _ λ fits.
                  >>=-Returns (slice-Returns body 10 (10 + n) (omega arith) fits) λ name _.
                    fail_if-Returns (not (utf8_valid name)) _
                      λ _. >>=-Returns (slice_from-Returns body (10 + n) fits) λ _ _. ok_returns _

read_scores-Returns : (n : ℕ) (body : List ℕ) → Returns (read_scores n body)
unfolding read_scores
read_scores-Returns zero body = ok_returns _
read_scores-Returns (suc n) body =
    >>=-Returns (read_score-Returns body)
      λ r _. >>=-Returns (read_scores-Returns n r.1) λ _ _. ok_returns _

pub match_state-Returns : (body : List ℕ) → Returns (read_match_state body)
unfolding read_match_state
match_state-Returns body = short-Returns (length body) 9 _ λ h.
    >>=-Returns (byte_at-Returns body 0 (omega arith)) λ _ _.
      >>=-Returns (u32_at-Returns body 1 (omega arith)) λ _ _.
        >>=-Returns (u16_at-Returns body 5 (omega arith)) λ _ _.
          >>=-Returns (byte_at-Returns body 7 (omega arith)) λ _ _.
            >>=-Returns (byte_at-Returns body 8 (omega arith)) λ n _.
              >>=-Returns (slice_from-Returns body 9 h)
                λ rest _. >>=-Returns (read_scores-Returns n rest) λ _ _. ok_returns _
