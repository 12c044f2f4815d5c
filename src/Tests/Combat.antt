-- ===== src/Tests/Combat.antt =====
-- A tick of a fight, with the numbers of Tests/Fixed: three players on a line, and a shot along it.
use rewind.Prelude.{
  ℕ, zero, suc, ◌≡◌, ◌*◌, ◌/◌, ◌%◌, [], ◌∷◌, All, true, false, leb, if◌then◌else◌, none, some, refl,
  arith, List,
}
use rewind.Prelude.Float.{Math}
use rewind.Prelude.Int.{ℤ, pos, negsuc, ltb_ℤ}
use rewind.Protocol.Types.{Input}
use rewind.Game.World.{
  World, Player, Projectile, FlagDynamics, match_active, new_player, find_player,
}
use rewind.Game.World.Order.{IsAscending}
use rewind.Game.Combat.Hits.{hit_grid, is_spared}
use rewind.Game.Combat.Flight.{step_projectile}
use rewind.Game.Combat.Fire.{try_fire}
use rewind.Game.Combat.Spared.{step_projectile-spares}
use rewind.Game.Combat.Vital.{IsVital, AreVital}
use rewind.Game.Combat.Cap.{IsCapped, try_fire-IsCapped}
use rewind.Game.Pickups.{PickupState, init_pickup, pickup_spots, step_pickups}
use rewind.Game.Pickups.Takers.{Fair, step_pickups-Fair}
use rewind.Game.Tick.{Sim, Draws, step}
use rewind.Game.Tick.Whole.{step-AreVital}
use rewind.Tests.Fixed.{fixed, plus, minus, over, scale}

abbrev root : ℕ → ℕ → ℕ → ℕ
root zero k n = k
root (suc f) k n = let more = root f (suc k) n in if leb (suc k * suc k) n then more else k

abbrev square_root : ℤ → ℤ
square_root (pos n) = pos (root 4096 0 (n * 16))
square_root (negsuc n) = negsuc n

abbrev byte_of : ℤ → ℕ
byte_of (pos n) = n / 16 % 256
byte_of (negsuc n) = 0

-- Every angle is taken for 0, so each shot goes to the right.
abbrev pub fixed_math : Math fixed
fixed_math = record {
  min32 = λ a b. if ltb_ℤ a b then a else b;
  max32 = λ a b. if ltb_ℤ a b then b else a;
  narrow = λ v. v;
  to_int = scale (λ n. n / 16);
  to_u8 = byte_of;
  add64 = plus;
  sub64 = λ a b. plus a (minus b);
  div64 = over;
  sqrt = square_root;
  cos = λ _. pos 16;
  sin = λ _. pos 0;
  inv_sqrt2 = pos 11;
  turn_unit = pos 0;
  max_float32 = pos 1000000;
}

abbrev pub at_x : ℕ → ℕ → Player ℤ
at_x id x =
    new_player id []
      (record { x = pos x; y = pos 1600; vx = pos 0; vy = pos 0; dash_cd = pos 0; dash_t = pos 0 })
      0

abbrev pub corpse : Player ℤ
corpse = record (at_x 3 2400) { hp = 0; dead = true; respawn_at = 100 }

abbrev at_home : FlagDynamics ℤ
at_home = record { status = 0; carrier = 0; x = pos 0; y = pos 0; drop_at = 0 }

abbrev pub fight : World ℤ
fight = record {
  tick = 50;
  players = at_x 1 1600 ∷ at_x 2 2000 ∷ corpse ∷ [];
  next_id = 5;
  projectiles = [];
  match_phase = match_active;
  match_at = 5400;
  winner = 0;
  team_mode = false;
  hill_mode = false;
  dom_mode = false;
  ctf_mode = false;
  flag_zero = at_home;
  flag_one = at_home;
  flags_dirty = false;
  events = [];
  recorder = none;
}

abbrev pub bullet : Projectile ℤ
bullet = record {
  id = 4;
  owner = 1;
  x = pos 1936;
  y = pos 1600;
  vx = pos 11200;
  vy = pos 0;
  life = pos 60;
  rewound = pos 0;
  team = 0;
  weapon = 1;
}

pub fight-IsAscending : IsAscending 0 fight.players
unfolding IsAscending new_player
fight-IsAscending =
    let third : IsAscending 2 (corpse ∷ []) = (omega arith, omega arith, tt) in
    let second : IsAscending 1 (at_x 2 2000 ∷ corpse ∷ []) = (omega arith, omega arith, third) in
    (omega arith, omega arith, second)

corpse-is_spared : is_spared fixed fixed_math fight bullet corpse ≡ true
unfolding is_spared new_player
corpse-is_spared = refl

step_projectile-spares_example :
    find_player 3
      (step_projectile fixed fixed_math
        (hit_grid fixed fixed_math fight)
        (pos 1)
        fight
        bullet).0.players
    ≡ some corpse
unfolding find_player new_player
step_projectile-spares_example =
    step_projectile-spares fixed fixed_math (hit_grid fixed fixed_math fight) (pos 1) fight bullet 3
      corpse (λ e. absurd (omega (arith, e))) refl corpse-is_spared

fight-AreVital : AreVital fight
unfolding new_player
fight-AreVital =
    let living : (id x : ℕ) → IsVital (at_x id x) = λ id x. (omega arith, λ _. omega arith) in
    let fallen : IsVital corpse = (omega arith, λ h. absurd (ground (arith, h))) in
    let last : All IsVital (corpse ∷ []) = (fallen, tt) in
    let rest : All IsVital (at_x 2 2000 ∷ corpse ∷ []) = (living 2 2000, last) in
    (living 1 1600, rest)

abbrev shooter_and_bullet : World ℤ
shooter_and_bullet = record fight { projectiles = bullet ∷ []; match_at = 51 }

abbrev sim : Sim ℤ
sim = record {
  world = shooter_and_bullet;
  pickups = init_pickup ∷ [];
  pickups_dirty = false;
  weapons_dirty = false;
}

abbrev draws : Draws ℤ
draws = record {
  respawns = λ id k. record { x = pos 8; y = pos 8 };
  restarts = λ id k. record { x = pos 4; y = pos 4 };
  kinds = λ i. 2;
}

step-AreVital_example : AreVital (step fixed fixed_math draws (pos 1) sim).world
step-AreVital_example = step-AreVital fixed fixed_math draws (pos 1) sim fight-AreVital

abbrev trigger : Input
trigger = record { seq = 7; buttons = 16; aim = 0; view_tick = 48; ack_tick = 48; actions = 0 }

try_fire-IsCapped_example : IsCapped (try_fire fixed fixed_math fight (at_x 1 1600) trigger)
try_fire-IsCapped_example =
    try_fire-IsCapped fixed fixed_math fight (at_x 1 1600) trigger (omega arith)

-- A hurt player on the first spot, with an item on each.
abbrev hurt_taker : Player ℤ
hurt_taker =
    record (new_player 5 []
      (record {
        x = pos 11200;
        y = pos 11200;
        vx = pos 0;
        vy = pos 0;
        dash_cd = pos 0;
        dash_t = pos 0;
      })
      0) { hp = 70 }

abbrev stocked : PickupState
stocked = record { active = true; kind = 1; ready_at = 0 }

abbrev spots_of_fight : List PickupState
spots_of_fight = stocked ∷ init_pickup ∷ stocked ∷ init_pickup ∷ stocked ∷ []

step_pickups-Fair_example :
    Fair fixed
      (corpse ∷ hurt_taker ∷ [])
      (step_pickups fixed 50
        (λ _. 2)
        0
        pickup_spots
        spots_of_fight
        (corpse ∷ hurt_taker ∷ [])).players
step_pickups-Fair_example =
    step_pickups-Fair fixed 50 (λ _. 2) 0 pickup_spots spots_of_fight (corpse ∷ hurt_taker ∷ [])
