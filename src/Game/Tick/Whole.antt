-- ===== src/Game/Tick/Whole.antt =====
-- Hit points over a whole tick of World.Step.
use rewind.Prelude.{
  ℕ, List, [], ◌∷◌, map, All, Bool, false, not, ◌||◌, ◌==◌, ltb, if◌then◌else◌, either-holds,
}
use rewind.Prelude.Float.{Floats, Math}
use rewind.Game.World.{World, Player, HistPos, MatchPhase, match_active, match_intermission}
use rewind.Game.Match.{end_match}
use rewind.Game.Ctf.{
  step_ctf, capture_all, capture_step, count_capture, scores, FlagWorld, touched, is_active,
}
use rewind.Game.Zone.{
  step_hill, step_domination, score_zone, score_circle, award, bump_at, bump_hill, bump_dom,
}
use rewind.Game.Combat.{record_history, record_all, record_at}
use rewind.Game.Combat.Flight.{step_projectiles, ids_of}
use rewind.Game.Combat.Vital.{IsVital, AreVital, step_projectiles-AreVital}
use rewind.Game.Pickups.{pickup_spots}
use rewind.Game.Pickups.Takers.{step_pickups-Fair}
use rewind.Game.Tick.{
  Draws, Sim, run_players, revive_all, start_match, next_phase, step_match, fresh, next_tick,
  finish, step,
}
use rewind.Game.Tick.Health.{run_players-AreVital, revive_all-AreVital, restart_all-AreVital}

module _ {F : Type 0} where
  -- A point changes nothing of the hit points.
  abbrev Harmless : (Player F → Player F) → Type 0
  Harmless bump = (p : Player F) → IsVital p → IsVital (bump p)

  award-all :
      (near : Player F → Bool) (bump : Player F → Player F) (control : ℕ) (ps : List (Player F))
      → Harmless bump
      → All IsVital ps
      → All IsVital (map (award near bump control) ps)
  unfolding award
  award-all near bump control [] h v = tt
  award-all near bump control (p ∷ ps) h (k, v) = (
    either-holds IsVital (p.dead || not (p.team == control)) p (if near p then bump p else p) k
        (either-holds IsVital (near p) (bump p) p (h p k) k),
    award-all near bump control ps h v,
  )

  bump_at-all :
      (bump : Player F → Player F) (id : ℕ) (ps : List (Player F))
      → Harmless bump
      → All IsVital ps
      → All IsVital (bump_at bump id ps)
  unfolding bump_at
  bump_at-all bump id [] h v = tt
  bump_at-all bump id (p ∷ ps) h (k, v) =
      either-holds (All IsVital) (p.id == id) (bump p ∷ ps) (p ∷ bump_at bump id ps) (h p k, v)
        (k, bump_at-all bump id ps h v)

  score_zone-all :
      (far near : Player F → Bool) (bump : Player F → Player F) (team_mode : Bool)
      (ps : List (Player F))
      → Harmless bump
      → All IsVital ps
      → All IsVital (score_zone far near bump team_mode ps)
  unfolding score_zone
  score_zone-all far near bump team_mode ps h v =
      either-holds (All IsVital) team_mode _ _
        (either-holds (All IsVital) _ ps _ v (award-all near bump _ ps h v))
        (either-holds (All IsVital) _ (bump_at bump _ ps) ps (bump_at-all bump _ ps h v) v)

  record_all-all :
      (slot : ℕ) (ps : List (Player F)) → All IsVital ps → All IsVital (record_all slot ps)
  unfolding record_all record_at
  record_all-all slot [] v = tt
  record_all-all slot (p ∷ ps) (k, v) = (k, record_all-all slot ps v)

module _ (fl : Floats) (mt : Math fl) where
  open fl use {F32}

  step_hill-AreVital : (w : World F32) → AreVital w → AreVital (step_hill fl w)
  unfolding step_hill score_circle bump_hill
  step_hill-AreVital w h =
      either-holds AreVital (not w.hill_mode || not (is_active w.match_phase)) w _ h
        (score_zone-all _ _ bump_hill w.team_mode w.players (λ p v. v) h)

  step_domination-AreVital : (w : World F32) → AreVital w → AreVital (step_domination fl w)
  unfolding step_domination score_circle bump_dom
  step_domination-AreVital w h =
      let harmless : (p : Player F32) → IsVital p → IsVital (bump_dom p) = λ p v. v in
      either-holds AreVital (not w.dom_mode || not (is_active w.match_phase)) w _ h (
        score_zone-all _ _ bump_dom w.team_mode _ harmless (
          score_zone-all _ _ bump_dom w.team_mode _ harmless
            (score_zone-all _ _ bump_dom w.team_mode w.players harmless h)))

  capture_step-IsVital :
      (p : Player F32) (s : FlagWorld fl) → IsVital p → IsVital (capture_step fl p s).0
  unfolding capture_step count_capture
  capture_step-IsVital p s v =
      either-holds (λ (r : Player F32 × FlagWorld fl). IsVital r.0) (scores fl p s) _ (p, s) v v

  capture_all-all :
      (ps : List (Player F32)) (s : FlagWorld fl)
      → All IsVital ps
      → All IsVital (capture_all fl ps s).0
  unfolding capture_all
  capture_all-all [] s v = tt
  capture_all-all (p ∷ ps) s (k, v) =
      (capture_step-IsVital p s k, capture_all-all ps (capture_step fl p s).1 v)

  step_ctf-AreVital : (w : World F32) → AreVital w → AreVital (step_ctf fl w)
  unfolding step_ctf
  step_ctf-AreVital w h =
      either-holds AreVital (not w.ctf_mode || (not w.team_mode || not (is_active w.match_phase))) w
        _ h (capture_all-all w.players (touched fl w) h)

  next_phase-AreVital :
      (draw : ℕ → ℕ → HistPos F32) (m : MatchPhase) (w : World F32)
      → AreVital w
      → AreVital (next_phase fl mt draw m w)
  unfolding next_phase end_match start_match
  next_phase-AreVital draw match_active w h = h
  next_phase-AreVital draw match_intermission w h = restart_all-AreVital fl mt draw _ _ h

  finish-AreVital :
      (draw : ℕ → ℕ → HistPos F32) (w : World F32) → AreVital w → AreVital (finish fl mt draw w)
  unfolding finish record_history step_match
  finish-AreVital draw w h =
      let u : World F32 = next_tick fl mt (step_ctf fl (step_domination fl (step_hill fl w))) in
      let scored : AreVital u =
        step_ctf-AreVital (step_domination fl (step_hill fl w))
          (step_domination-AreVital (step_hill fl w) (step_hill-AreVital w h)) in
      record_all-all _ _ (
        either-holds AreVital (ltb u.tick u.match_at) u (next_phase fl mt draw u.match_phase u)
          scored (next_phase-AreVital draw u.match_phase u scored))

  -- One tick of World.Step, whatever the players send, hit, pick up and score, and whether a match ends
  -- or starts in it: every player has at most 100 hit points and every living one has some, if so it
  -- was before.
  pub step-AreVital :
      (d : Draws F32) (dt : F32) (s : Sim F32)
      → AreVital s.world
      → AreVital (step fl mt d dt s).world
  unfolding step
  step-AreVital d dt s h =
      let start : World F32 = fresh fl mt s.world in
      let ran : World F32 = (run_players fl mt (ids_of fl mt start.players) (start, false)).0 in
      let flown : World F32 = step_projectiles fl mt dt ran in
      let back : World F32 = revive_all fl mt d.respawns (ids_of fl mt flown.players) flown in
      let alive : AreVital back =
        revive_all-AreVital fl mt d.respawns (ids_of fl mt flown.players) flown (
          step_projectiles-AreVital fl mt dt ran
            (run_players-AreVital fl mt (ids_of fl mt start.players) start false h)) in
      finish-AreVital d.restarts _
        ((step_pickups-Fair fl back.tick d.kinds 0 pickup_spots s.pickups back.players).vital alive)
