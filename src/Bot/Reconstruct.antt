-- ===== src/Bot/Reconstruct.antt =====
-- reconstruct.go: a client puts the full set of entities together from full snapshots and deltas.
-- The map from ids to entities is a list of entities, since each stands under its own id; a write to
-- a new id stands at the end. The order in which Go ranges over it does not reach the result, which
-- is sorted.
pub mod Overlay
pub mod Merge
pub mod Image
pub mod Sorted
pub mod Unique
pub mod Apply
pub mod Follows
pub mod Window
use rewind.Prelude.{
  ℕ, zero, suc, ◌+◌, List, [], ◌∷◌, ◌++◌, Bool, true, false, not, ◌&&◌, ◌||◌, ◌==◌, ltb,
  if◌then◌else◌, Option, none, some, length, drop, ◌-◌,
}
use rewind.Prelude.Float.{Floats}
use rewind.Prelude.Int.{pos}
use rewind.Prelude.Result.{Result, ok, err, panic, ◌>>=◌}
use rewind.Protocol.Types.{
  Entity, Snapshot, field_kind, field_x, field_y, field_vx, field_vy, field_hp,
}
use rewind.Protocol.Snapshot.Mask.{has}
use rewind.Game.Delta.{entity_key}

abbrev pub recon_keep : ℕ
recon_keep = 32

pub data BaseError : Type 0 where
  unknown_base : BaseError

module _ {F : Type 0} where
  unfoldable pub find_entity : ℕ → List (Entity F) → Option (Entity F)
  find_entity id [] = none
  find_entity id (e ∷ es) = if e.id == id then some e else find_entity id es

  unfoldable pub put_entity : Entity F → List (Entity F) → List (Entity F)
  put_entity e [] = e ∷ []
  put_entity e (x ∷ xs) = if x.id == e.id then e ∷ xs else x ∷ put_entity e xs

  unfoldable pub delete_entity : ℕ → List (Entity F) → List (Entity F)
  delete_entity id [] = []
  delete_entity id (x ∷ xs) = if x.id == id then xs else x ∷ delete_entity id xs

  unfoldable pub delete_all : List ℕ → List (Entity F) → List (Entity F)
  delete_all [] es = es
  delete_all (id ∷ ids) es = delete_all ids (delete_entity id es)

  unfoldable pub put_all : List (Entity F) → List (Entity F) → List (Entity F)
  put_all [] es = es
  put_all (e ∷ changed) es = put_all changed (put_entity e es)

  -- SortFunc by the key. The ids differ, so no two keys are equal.
  unfoldable pub insert_by_key : Entity F → List (Entity F) → List (Entity F)
  insert_by_key e [] = e ∷ []
  insert_by_key e (x ∷ xs) =
      if ltb (entity_key x) (entity_key e) then x ∷ insert_by_key e xs else e ∷ x ∷ xs

  unfoldable pub sort_by_key : List (Entity F) → List (Entity F)
  sort_by_key [] = []
  sort_by_key (e ∷ es) = insert_by_key e (sort_by_key es)

-- One set that was put together, under its tick.
pub record Kept (F : Type 0) : Type 0 where
  pub tick : ℕ
  pub entities : List (Entity F)

pub record Reconstructor (F : Type 0) : Type 0 where
  pub store : List (Kept F)
  pub order : List ℕ

module _ {F : Type 0} where
  abbrev pub new_reconstructor : Reconstructor F
  new_reconstructor = record { store = []; order = [] }

  unfoldable pub find_kept : ℕ → List (Kept F) → Option (List (Entity F))
  find_kept tick [] = none
  find_kept tick (k ∷ ks) = if k.tick == tick then some k.entities else find_kept tick ks

  unfoldable pub put_kept : Kept F → List (Kept F) → List (Kept F)
  put_kept k [] = k ∷ []
  put_kept k (x ∷ xs) = if x.tick == k.tick then k ∷ xs else x ∷ put_kept k xs

  unfoldable pub delete_kept : ℕ → List (Kept F) → List (Kept F)
  delete_kept tick [] = []
  delete_kept tick (x ∷ xs) = if x.tick == tick then xs else x ∷ delete_kept tick xs

  unfoldable pub is_kept : ℕ → List (Kept F) → Bool
  is_kept tick [] = false
  is_kept tick (k ∷ ks) = k.tick == tick || is_kept tick ks

  unfoldable pub evict_first : List ℕ → Reconstructor F → Reconstructor F
  evict_first [] rc = rc
  evict_first (t ∷ ts) rc = record { store = delete_kept t rc.store; order = ts }

  -- `for len(rc.order) > reconKeep`: the first number is how many ticks are too many.
  unfoldable pub evict : ℕ → Reconstructor F → Reconstructor F
  evict zero rc = rc
  evict (suc n) rc = evict n (evict_first rc.order rc)

  unfoldable pub remember : ℕ → List (Entity F) → Reconstructor F → Reconstructor F
  remember tick es rc =
      let order = if is_kept tick rc.store then rc.order else rc.order ++ (tick ∷ []) in
      evict (length order - recon_keep) (record {
        store = put_kept (record { tick = tick; entities = es }) rc.store;
        order = order;
      })

module _ (fl : Floats) where
  open fl use {F32, int32}

  -- The zero record, which Go gives for a missing key.
  abbrev pub no_entity : Entity F32
  no_entity = record {
    id = 0;
    kind = 0;
    x = int32 (pos 0);
    y = int32 (pos 0);
    vx = int32 (pos 0);
    vy = int32 (pos 0);
    hp = 0;
  }

  unfoldable pub or_zero : Option (Entity F32) → Entity F32
  or_zero none = no_entity
  or_zero (some e) = e

  -- The marked fields of a delta record over what the client has.
  unfoldable pub overlay : Entity F32 → Entity F32 → ℕ → Entity F32
  overlay cur e m = record {
    id = e.id;
    kind = if has m field_kind then e.kind else cur.kind;
    x = if has m field_x then e.x else cur.x;
    y = if has m field_y then e.y else cur.y;
    vx = if has m field_vx then e.vx else cur.vx;
    vy = if has m field_vy then e.vy else cur.vy;
    hp = if has m field_hp then e.hp else cur.hp;
  }

  unfoldable pub apply_changes :
      List (Entity F32) → List ℕ → List (Entity F32) → Result BaseError (List (Entity F32))
  apply_changes [] ms next = ok next
  apply_changes (e ∷ es) [] next = panic
  apply_changes (e ∷ es) (m ∷ ms) next =
      apply_changes es ms (put_entity (overlay (or_zero (find_entity e.id next)) e m) next)

  unfoldable pub from_base :
      Snapshot F32 → Option (List (Entity F32)) → Result BaseError (List (Entity F32))
  from_base s none = err unknown_base
  from_base s (some base) = apply_changes s.entities s.masks (delete_all s.removed base)

  unfoldable pub next_set : Reconstructor F32 → Snapshot F32 → Result BaseError (List (Entity F32))
  next_set rc s =
      if s.base_tick == 0
      then ok (put_all s.entities (delete_all s.removed []))
      else from_base s (find_kept s.base_tick rc.store)

  -- The entities in order of their keys, and the new state.
  unfoldable pub apply_snapshot :
      Reconstructor F32 → Snapshot F32 → Result BaseError (List (Entity F32) × Reconstructor F32)
  apply_snapshot rc s = next_set rc s >>= λ next. ok (sort_by_key next, remember s.tick next rc)
