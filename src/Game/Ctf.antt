-- ===== src/Game/Ctf.antt =====
-- ctf.go: the state machine of the two flags. The flag of team 0 and the flag of team 1 are two
-- fields of the world; a write through `f` or through a player is a new record.
pub mod Carriers
use rewind.Prelude.{
  ℕ, ◌+◌, ◌-◌, ◌%◌, ◌^◌, List, [], ◌∷◌, ◌++◌, Bool, true, false, not, ◌&&◌, ◌||◌, ◌==◌, ltb, leb,
  if◌then◌else◌, Option, none, some, zero,
}
use rewind.Prelude.Int.{pos}
use rewind.Prelude.Float.{Floats}
use rewind.Protocol.Types.{FlagInfo}
use rewind.Game.World.{
  World, Player, FlagDynamics, Event, MatchPhase, match_active, match_intermission, find_player,
}

abbrev pub flag_at_base : ℕ
flag_at_base = 0

abbrev pub flag_carried : ℕ
flag_carried = 1

abbrev pub flag_dropped : ℕ
flag_dropped = 2

abbrev pub flag_return_ticks : ℕ
flag_return_ticks = 600

abbrev pub event_capture : ℕ
event_capture = 5

unfoldable pub is_active : MatchPhase → Bool
is_active match_active = true
is_active match_intermission = false

module _ (fl : Floats) where
  open fl use {F32, int32, add32, sub32, mul32, lt32}

  -- flagBases
  unfoldable pub base_x : ℕ → F32
  base_x team = if team == 0 then int32 (pos 512) else int32 (pos 3584)

  unfoldable pub base_y : ℕ → F32
  base_y team = int32 (pos 2048)

  unfoldable pub flag_home : ℕ → FlagDynamics F32
  flag_home i = record {
    status = flag_at_base;
    carrier = 0;
    x = base_x i;
    y = base_y i;
    drop_at = 0;
  }

  -- `dx*dx+dy*dy > r2`
  unfoldable pub is_far : F32 → F32 → F32 → F32 → F32 → Bool
  is_far r2 ax ay bx by =
      let dx = sub32 ax bx in let dy = sub32 ay by in lt32 r2 (add32 (mul32 dx dx) (mul32 dy dy))

  -- grab2 and cap2: the squares of the player's radius with flagGrabRadius and flagBaseRadius.
  abbrev pub grab2 : F32
  grab2 = int32 (pos 1936)

  abbrev pub cap2 : F32
  cap2 = int32 (pos 6400)

  -- A flag with the mark of a change. Step 0 of stepCTF for the flag `i`.
  unfoldable pub check_carrier :
      ℕ → ℕ → FlagDynamics F32 → Option (Player F32) → FlagDynamics F32 × Bool
  check_carrier tick i f none = (flag_home i, true)
  check_carrier tick i f (some p) =
      if p.dead
      then (
        record {
          status = flag_dropped;
          carrier = 0;
          x = p.move.x;
          y = p.move.y;
          drop_at = (tick + flag_return_ticks) % 2 ^ 32;
        },
        true,
      )
      else (record f { x = p.move.x; y = p.move.y }, false)

  unfoldable pub check_flag : World F32 → ℕ → FlagDynamics F32 → FlagDynamics F32 × Bool
  check_flag w i f =
      if f.status == flag_carried
      then check_carrier w.tick i f (find_player f.carrier w.players)
      else if f.status == flag_dropped
      then (if leb f.drop_at w.tick then (flag_home i, true) else (f, false))
      else (f, false)

  -- Step 1: the player touches the flag `i`.
  unfoldable pub touch_flag : Player F32 → ℕ → FlagDynamics F32 × Bool → FlagDynamics F32 × Bool
  touch_flag p i (f, dirty) =
      if f.status == flag_carried
      then (f, dirty)
      else if is_far grab2 p.move.x p.move.y (if f.status == flag_at_base then base_x i else f.x)
          (if f.status == flag_at_base then base_y i else f.y)
      then (f, dirty)
      else if p.team % 2 == i
      then (if f.status == flag_dropped then (flag_home i, true) else (f, dirty))
      else (record f { status = flag_carried; carrier = p.id; x = p.move.x; y = p.move.y }, true)

  -- The loop over the players; the inner loop over the two flags never lets one flag read the other.
  unfoldable pub touch_all :
      List (Player F32) → ℕ → FlagDynamics F32 × Bool → FlagDynamics F32 × Bool
  touch_all [] i f = f
  touch_all (p ∷ ps) i f = touch_all ps i (if p.dead then f else touch_flag p i f)

  -- Step 2: the two flags, the mark of a change and the events, as the loop changes them.
  pub record FlagWorld : Type 0 where
    pub zero : FlagDynamics F32
    pub one : FlagDynamics F32
    pub dirty : Bool
    pub events : List (Event F32)

  unfoldable pub flag_of : ℕ → FlagWorld → FlagDynamics F32
  flag_of team s = if team == 0 then s.zero else s.one

  unfoldable pub scores : Player F32 → FlagWorld → Bool
  scores p s =
      let t = p.team % 2 in
      let enemy = flag_of (1 - t) s in
      not p.dead
      && ((enemy.status == flag_carried && (enemy.carrier == p.id))
          && ((flag_of t s).status == flag_at_base
              && not (is_far cap2 p.move.x p.move.y (base_x t) (base_y t))))

  abbrev pub capture_event : ℕ → Event F32
  capture_event id = record {
    kind = event_capture;
    attacker = 0;
    target = id;
    damage = 0;
    hp = 0;
    x = int32 (pos 0);
    y = int32 (pos 0);
    streak = 0;
  }

  unfoldable pub capture : Player F32 → FlagWorld → FlagWorld
  capture p s =
      let t = p.team % 2 in
      record {
        zero = if t == 0 then s.zero else flag_home 0;
        one = if t == 0 then flag_home 1 else s.one;
        dirty = true;
        events = s.events ++ (capture_event p.id ∷ []);
      }

  unfoldable pub count_capture : Player F32 → Player F32
  count_capture p = record p { captures = (p.captures + 1) % 2 ^ 16 }

  unfoldable pub capture_step : Player F32 → FlagWorld → Player F32 × FlagWorld
  capture_step p s = if scores p s then (count_capture p, capture p s) else (p, s)

  unfoldable pub capture_all : List (Player F32) → FlagWorld → List (Player F32) × FlagWorld
  capture_all [] s = ([], s)
  capture_all (p ∷ ps) s =
      let here = capture_step p s in let rest = capture_all ps here.1 in (here.0 ∷ rest.0, rest.1)

  -- The flags after the steps 0 and 1.
  unfoldable pub touched : World F32 → FlagWorld
  touched w =
      let zero = touch_all w.players 0 (check_flag w 0 w.flag_zero) in
      let one = touch_all w.players 1 (check_flag w 1 w.flag_one) in
      record {
        zero = zero.0;
        one = one.0;
        dirty = w.flags_dirty || (zero.1 || one.1);
        events = w.events;
      }

  unfoldable pub step_ctf : World F32 → World F32
  step_ctf w =
      if not w.ctf_mode || (not w.team_mode || not (is_active w.match_phase))
      then w
      else (let r = capture_all w.players (touched w) in
          record w {
            players = r.0;
            flag_zero = r.1.zero;
            flag_one = r.1.one;
            flags_dirty = r.1.dirty;
            events = r.1.events;
          })

  unfoldable pub append_flags : World F32 → List (FlagInfo F32)
  append_flags w =
      let info : ℕ → FlagDynamics F32 → FlagInfo F32 =
        λ i f. record { team = i; status = f.status; carrier = f.carrier; x = f.x; y = f.y } in
      info 0 w.flag_zero ∷ info 1 w.flag_one ∷ []
