-- ===== src/Protocol/Snapshot/Mask.antt =====
-- codec.go: field masks of a delta record, and deltaFieldBytes.
use Prim.Native.Nat.{bit_and}
use rewind.Prelude.{ℕ, ◌+◌, Bool, not, ◌==◌, if◌then◌else◌, List, [], refl, ◌<◌, ◌≡◌}
use rewind.Prelude.Table.{agree, by_table}
use rewind.Protocol.Types.{field_kind, field_x, field_y, field_vx, field_vy, field_hp, field_all}

-- `m&bit != 0`
unfoldable pub has : ℕ → ℕ → Bool
has m bit = not (bit_and m bit == 0)

-- Bytes that belong to a field only if its bit is set.
abbrev pub present : Bool → List ℕ → List ℕ
present b xs = if b then xs else []

unfoldable pub delta_field_bytes : ℕ → ℕ
delta_field_bytes m =
    (if has m field_kind then 1 else 0)
    + (if has m field_x then 2 else 0)
    + (if has m field_y then 2 else 0)
    + (if has m field_vx then 2 else 0)
    + (if has m field_vy then 2 else 0)
    + (if has m field_hp then 1 else 0)

-- A mask with known bits only.
pub known-bits : (m : ℕ) → m < 64 → bit_and m field_all ≡ m
unfolding agree
known-bits = by_table 64 _ _ refl
