-- ===== src/Game/Entities.antt =====
-- world.go and weapon.go: what a world shows to the network, AppendEntities and AppendWeapons.
use rewind.Prelude.{ℕ, List, [], ◌∷◌, ◌++◌, if◌then◌else◌}
use rewind.Protocol.Types.{Entity, WeaponInfo}
use rewind.Game.World.{World, Player, Projectile}

abbrev pub kind_player : ℕ
kind_player = 1

abbrev pub kind_projectile : ℕ
kind_projectile = 2

module _ {F : Type 0} where
  -- The living players, in the order of their ids.
  unfoldable pub append_players : List (Player F) → List (Entity F)
  append_players [] = []
  append_players (p ∷ ps) =
      let rest = append_players ps in
      if p.dead
      then rest
      else record {
        id = p.id;
        kind = kind_player;
        x = p.move.x;
        y = p.move.y;
        vx = p.move.vx;
        vy = p.move.vy;
        hp = p.hp;
      }
        ∷ rest

  unfoldable pub append_projectiles : List (Projectile F) → List (Entity F)
  append_projectiles [] = []
  append_projectiles (q ∷ qs) =
      record { id = q.id; kind = kind_projectile; x = q.x; y = q.y; vx = q.vx; vy = q.vy; hp = 1 }
      ∷ append_projectiles qs

  unfoldable pub append_entities : World F → List (Entity F)
  append_entities w = append_players w.players ++ append_projectiles w.projectiles

  unfoldable pub weapons_of : List (Player F) → List WeaponInfo
  weapons_of [] = []
  weapons_of (p ∷ ps) = record { id = p.id; weapon = p.weapon } ∷ weapons_of ps

  unfoldable pub append_weapons : World F → List WeaponInfo
  append_weapons w = weapons_of w.players
