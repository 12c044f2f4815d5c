-- ===== src/Game/Delta.antt =====
-- delta.go: the difference between two sets of entities, and the ring of the sets that a client was
-- sent; and EntityFieldMask of protocol/quantize.go, which compares two entities as they are sent.
pub mod Mask
use Prim.Native.Nat.{bit_or}
use rewind.Prelude.{
  ℕ, ◌+◌, ◌*◌, ◌%◌, ◌^◌, List, [], ◌∷◌, map, Bool, true, false, not, ◌&&◌, ◌==◌, ltb, if◌then◌else◌,
}
use rewind.Prelude.Float.{Floats}
use rewind.Prelude.Int.{eqb_ℤ}
use rewind.Protocol.Types.{
  Entity, field_kind, field_x, field_y, field_vx, field_vy, field_hp, field_all,
}
use rewind.Protocol.Quantize.{quantize_coord, quantize_vel}

-- `if b { m |= bit }`
unfoldable pub add_field : Bool → ℕ → ℕ → ℕ
add_field b bit m = if b then bit_or m bit else m

unfoldable pub mask_of : Bool → Bool → Bool → Bool → Bool → Bool → ℕ
unfolding add_field
mask_of kind x y vx vy hp = add_field hp field_hp (
    add_field vy field_vy (
      add_field vx field_vx
        (add_field y field_y (add_field x field_x (add_field kind field_kind 0)))))

-- What diffEntities appends to its three slices.
pub record Delta (F : Type 0) : Type 0 where
  pub changed : List (Entity F)
  pub masks : List ℕ
  pub removed : List ℕ

module _ {F : Type 0} where
  -- `uint32(e.Kind)<<16 | uint32(e.ID)`: the id is a uint16, so the bits do not meet.
  abbrev pub entity_key : Entity F → ℕ
  entity_key e = e.kind * 2 ^ 16 + e.id

  abbrev pub gone : Entity F → Delta F → Delta F
  gone b d = record d { removed = b.id ∷ d.removed }

  abbrev pub send : Entity F → ℕ → Delta F → Delta F
  send v m d = record d { changed = v ∷ d.changed; masks = m ∷ d.masks }

module _ (fl : Floats) where
  open fl use {F32}

  unfoldable pub entity_field_mask : Entity F32 → Entity F32 → ℕ
  entity_field_mask base cur =
      mask_of (not (base.kind == cur.kind))
        (not (quantize_coord fl base.x == quantize_coord fl cur.x))
        (not (quantize_coord fl base.y == quantize_coord fl cur.y))
        (not (eqb_ℤ (quantize_vel fl base.vx) (quantize_vel fl cur.vx)))
        (not (eqb_ℤ (quantize_vel fl base.vy) (quantize_vel fl cur.vy))) (not (base.hp == cur.hp))

  -- The two pointers, and the two loops for what remains on either side.
  unfoldable pub diff_entities : List (Entity F32) → List (Entity F32) → Delta F32
  diff_entities [] view = record { changed = view; masks = map (λ _. field_all) view; removed = [] }
  diff_entities (b ∷ bs) [] = gone b (diff_entities bs [])
  diff_entities (b ∷ bs) (v ∷ vs) =
      let without = gone b (diff_entities bs (v ∷ vs)) in
      let with_new = send v field_all (diff_entities (b ∷ bs) vs) in
      let both = diff_entities bs vs in
      if ltb (entity_key b) (entity_key v)
      then without
      else if ltb (entity_key v) (entity_key b)
      then with_new
      else if entity_field_mask b v == 0
      then both
      else send v (entity_field_mask b v) both
