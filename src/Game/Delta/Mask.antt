-- ===== src/Game/Delta/Mask.antt =====
-- EntityFieldMask sets exactly the bits of the fields that differ as they are sent.
use rewind.Prelude.{ℕ, ◌≡◌, Bool, true, false, not, ◌&&◌, refl, arith}
use rewind.Protocol.Types.{field_kind, field_x, field_y, field_vx, field_vy, field_hp}
use rewind.Protocol.Snapshot.Mask.{has}
use rewind.Game.Delta.{mask_of}

same_bool : Bool → Bool → Bool
same_bool true b = b
same_bool false b = not b

both : (Bool → Bool) → Bool
both f = f true && f false

both_sound : (f : Bool → Bool) (b : Bool) → both f ≡ true → f b ≡ true
unfolding both
both_sound f true h = ground arith
both_sound f false h = ground arith

-- The mask has the six bits that it was made of.
reads : ℕ → Bool → Bool → Bool → Bool → Bool → Bool → Bool
reads m a b c d e f =
    same_bool (has m field_kind) a
    && (same_bool (has m field_x) b
        && (same_bool (has m field_y) c
            && (same_bool (has m field_vx) d
                && (same_bool (has m field_vy) e && same_bool (has m field_hp) f))))

every_mask :
    both (λ a. both (λ b.
      both (λ c. both (λ d. both (λ e. both (λ f. reads (mask_of a b c d e f) a b c d e f))))))
    ≡ true
unfolding both reads same_bool has mask_of
every_mask = refl

same_bool-eq : (a b : Bool) → same_bool a b ≡ true → a ≡ b
unfolding same_bool
same_bool-eq true b h = ground arith
same_bool-eq false b h = ground arith

module _ (a b c d e f : Bool) where
  mask_of-reads : reads (mask_of a b c d e f) a b c d e f ≡ true
  mask_of-reads = both_sound _ f (
      both_sound _ e (both_sound _ d (both_sound _ c (both_sound _ b (both_sound _ a every_mask)))))

  pub has-mask_of :
      (has (mask_of a b c d e f) field_kind ≡ a)
      × (has (mask_of a b c d e f) field_x ≡ b)
      × (has (mask_of a b c d e f) field_y ≡ c)
      × (has (mask_of a b c d e f) field_vx ≡ d)
      × (has (mask_of a b c d e f) field_vy ≡ e)
      × (has (mask_of a b c d e f) field_hp ≡ f)
  unfolding reads
  has-mask_of =
      let r : reads (mask_of a b c d e f) a b c d e f ≡ true = mask_of-reads in
      (
        same_bool-eq _ _ (ground arith),
        same_bool-eq _ _ (ground arith),
        same_bool-eq _ _ (ground arith),
        same_bool-eq _ _ (ground arith),
        same_bool-eq _ _ (ground arith),
        same_bool-eq _ _ (ground arith),
      )
