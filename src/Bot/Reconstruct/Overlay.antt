-- ===== src/Bot/Reconstruct/Overlay.antt =====
-- An entity as the wire carries it, and what a delta record makes of an older one.
use rewind.Prelude.{
  ℕ, ◌≡◌, Bool, true, false, not, ◌==◌, refl, arith, ap, Option, none, some, if◌then◌else◌,
}
use mathlib.Core.Path.{subst}
use rewind.Prelude.Float.{Floats}
use rewind.Prelude.Int.{ℤ, eqb_ℤ, eqb_ℤ-sound}
use rewind.Protocol.Types.{
  Entity, field_kind, field_x, field_y, field_vx, field_vy, field_hp, field_all,
}
use rewind.Protocol.Quantize.{quantize_coord, quantize_vel}
use rewind.Protocol.Snapshot.Mask.{has}
use rewind.Game.Delta.{entity_field_mask}
use rewind.Game.Delta.Mask.{has-mask_of}
use rewind.Bot.Reconstruct.{overlay}

pub record WireEntity : Type 0 where
  pub id : ℕ
  pub kind : ℕ
  pub x : ℕ
  pub y : ℕ
  pub vx : ℤ
  pub vy : ℤ
  pub hp : ℕ

wire_ext :
    (a b : WireEntity)
    → a.id ≡ b.id
    → a.kind ≡ b.kind
    → a.x ≡ b.x
    → a.y ≡ b.y
    → a.vx ≡ b.vx
    → a.vy ≡ b.vy
    → a.hp ≡ b.hp
    → a ≡ b
wire_ext a b id kind x y vx vy hp =
    λ i. record { id = id i; kind = kind i; x = x i; y = y i; vx = vx i; vy = vy i; hp = hp i }

-- A field that is sent where it changed.
chosen :
    {A B : Type 0} (f : A → B) (b : Bool) (old new : A)
    → (b ≡ false → f old ≡ f new)
    → f (if b then new else old) ≡ f new
chosen f true old new h = refl
chosen f false old new h = h refl

chosen-cong :
    {A B : Type 0} (f : A → B) (b : Bool) (old old' new : A)
    → f old ≡ f old'
    → f (if b then new else old) ≡ f (if b then new else old')
chosen-cong f true old old' new h = refl
chosen-cong f false old old' new h = h

same_nat : (m : Bool) (a b : ℕ) → m ≡ not (a == b) → m ≡ false → a ≡ b
same_nat m a b h k = ground (arith, h, k)

same_int : (m : Bool) (a b : ℤ) → m ≡ not (eqb_ℤ a b) → m ≡ false → a ≡ b
same_int m a b h k = eqb_ℤ-sound a b (ground (arith, h, k))

module _ (fl : Floats) where
  open fl use {F32}

  unfoldable pub wire : Entity F32 → WireEntity
  wire e = record {
    id = e.id;
    kind = e.kind;
    x = quantize_coord fl e.x;
    y = quantize_coord fl e.y;
    vx = quantize_vel fl e.vx;
    vy = quantize_vel fl e.vy;
    hp = e.hp;
  }

  unfoldable pub image : Option (Entity F32) → Option WireEntity
  image none = none
  image (some e) = some (wire e)

  pub overlay-all : (cur e : Entity F32) → wire (overlay fl cur e field_all) ≡ wire e
  unfolding overlay has wire
  overlay-all cur e = refl

  pub overlay-cong :
      (a b e : Entity F32) (m : ℕ)
      → wire a ≡ wire b
      → wire (overlay fl a e m) ≡ wire (overlay fl b e m)
  unfolding overlay wire
  overlay-cong a b e m h =
      wire_ext _ _ refl
        (chosen-cong (λ k. k) (has m field_kind) a.kind b.kind e.kind
          (ap (λ (w : WireEntity). w.kind) h))
        (chosen-cong (quantize_coord fl) (has m field_x) a.x b.x e.x
          (ap (λ (w : WireEntity). w.x) h))
        (chosen-cong (quantize_coord fl) (has m field_y) a.y b.y e.y
          (ap (λ (w : WireEntity). w.y) h))
        (chosen-cong (quantize_vel fl) (has m field_vx) a.vx b.vx e.vx
          (ap (λ (w : WireEntity). w.vx) h))
        (chosen-cong (quantize_vel fl) (has m field_vy) a.vy b.vy e.vy
          (ap (λ (w : WireEntity). w.vy) h))
        (chosen-cong (λ k. k) (has m field_hp) a.hp b.hp e.hp (ap (λ (w : WireEntity). w.hp) h))

  module _ (base cur : Entity F32) (same_id : base.id ≡ cur.id) where
    -- The bit of each field is off only where the field is the same.
    abbrev SameUnless : ℕ → Type 0
    SameUnless m =
        (has m field_kind ≡ false → base.kind ≡ cur.kind)
        × (has m field_x ≡ false → quantize_coord fl base.x ≡ quantize_coord fl cur.x)
        × (has m field_y ≡ false → quantize_coord fl base.y ≡ quantize_coord fl cur.y)
        × (has m field_vx ≡ false → quantize_vel fl base.vx ≡ quantize_vel fl cur.vx)
        × (has m field_vy ≡ false → quantize_vel fl base.vy ≡ quantize_vel fl cur.vy)
        × (has m field_hp ≡ false → base.hp ≡ cur.hp)

    mask-SameUnless : SameUnless (entity_field_mask fl base cur)
    unfolding entity_field_mask
    mask-SameUnless =
        let r =
          has-mask_of (not (base.kind == cur.kind))
            (not (quantize_coord fl base.x == quantize_coord fl cur.x))
            (not (quantize_coord fl base.y == quantize_coord fl cur.y))
            (not (eqb_ℤ (quantize_vel fl base.vx) (quantize_vel fl cur.vx)))
            (not (eqb_ℤ (quantize_vel fl base.vy) (quantize_vel fl cur.vy)))
            (not (base.hp == cur.hp)) in
        (
          same_nat _ _ _ r.0,
          same_nat _ _ _ r.1,
          same_nat _ _ _ r.2,
          same_int _ _ _ r.3,
          same_int _ _ _ r.4,
          same_nat _ _ _ r.5,
        )

    pub overlay-mask : wire (overlay fl base cur (entity_field_mask fl base cur)) ≡ wire cur
    unfolding overlay wire
    overlay-mask =
        let s : SameUnless (entity_field_mask fl base cur) = mask-SameUnless in
        wire_ext _ _ refl (chosen (λ k. k) _ base.kind cur.kind s.0)
          (chosen (quantize_coord fl) _ base.x cur.x s.1)
          (chosen (quantize_coord fl) _ base.y cur.y s.2)
          (chosen (quantize_vel fl) _ base.vx cur.vx s.3)
          (chosen (quantize_vel fl) _ base.vy cur.vy s.4) (chosen (λ k. k) _ base.hp cur.hp s.5)

    pub mask-zero : (entity_field_mask fl base cur == 0) ≡ true → wire base ≡ wire cur
    unfolding wire has
    mask-zero h =
        let z : entity_field_mask fl base cur ≡ 0 = ground (arith, h) in
        let s : SameUnless 0 = subst SameUnless z mask-SameUnless in
        wire_ext _ _ same_id (s.0 refl) (s.1 refl) (s.2 refl) (s.3 refl) (s.4 refl) (s.5 refl)
