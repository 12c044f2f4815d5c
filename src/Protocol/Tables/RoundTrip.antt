-- ===== src/Protocol/Tables/RoundTrip.antt =====
-- The tables, written and read back, and their decoders on any bytes.
use rewind.Prelude.{
  ℕ, ◌+◌, ◌*◌, ◌≤◌, ◌≡◌, List, [], ◌∷◌, ◌++◌, map, All, length, arith, le→ltb, append-nil, ◌∙◌, ap,
  refl, sym,
}
use rewind.Prelude.Result.{
  Result, ok, >>=-ok, pass, Returns, ok_returns, >>=-Returns, short-Returns,
}
use rewind.Prelude.Bytes.{
  IsU16, le16, byte_at, u16_at, slice_from-append, byte_at-append, u16_at-append, byte_at_after,
  u16_at_after, word_read, byte_at-Returns, u16_at-Returns, slice_from-Returns,
}
use rewind.Prelude.Float.{Floats}
use rewind.Protocol.Types.{Error, Pickup, PickupState, WeaponInfo, WeaponState, FlagInfo, FlagState}
use rewind.Protocol.Snapshot.Entities.{wire_coord}
use rewind.Protocol.Quantize.Exact.{quantize_coord-IsU16}
use rewind.Protocol.Counted.{
  counted_loop, written, counted_loop-Returns, counted_loop-written, length-written,
}
use rewind.Protocol.Tables.{
  read_table, read_pickup, pickup_bytes, read_weapon, weapon_bytes, read_flag, flag_bytes,
  read_pickup_state, read_weapon_state, read_flag_state,
}

read_table-Returns :
    {A : Type 0} (size : ℕ) (read : List ℕ → ℕ → Result Error A)
    → ((body : List ℕ) (off : ℕ) → off + size ≤ length body → Returns (read body off))
    → (body : List ℕ) → Returns (read_table size read body)
unfolding read_table
read_table-Returns size read one body = short-Returns (length body) 1 _ λ h.
    >>=-Returns (byte_at-Returns body 0 h) λ n _.
      >>=-Returns (slice_from-Returns body 1 h) λ rest _.
        short-Returns (length rest) (n * size) _
          λ k. counted_loop-Returns size read one n 0 rest (omega arith)

module _ {ℓ} {A : Type 0} (size : ℕ) (read : List ℕ → ℕ → Result Error A) (write : A → List ℕ)
    (seen : A → A) (P : A → Type ℓ) (sized : (a : A) → length (write a) ≡ size)
    (one : (pre post : List ℕ) (a : A)
      → P a
      → read (pre ++ (write a ++ post)) (length pre) ≡ ok (seen a)) where
  -- A table is read back record by record.
  read_table-written :
      (items : List A)
      → All P items
      → read_table size read (length items ∷ written write items) ≡ ok (map seen items)
  unfolding read_table byte_at
  read_table-written items v =
      pass _ (le→ltb (length (length items ∷ written write items)) 1 (omega arith)) (
        >>=-ok _ (slice_from-append (length items ∷ []) (written write items) 1 refl) (
          pass _ (le→ltb _ _ (omega (arith, length-written size read write seen P sized one items)))
            (ap (counted_loop size read (length items) 0) (sym (append-nil _))
              ∙ counted_loop-written size read write seen P sized one items [] v)))

map_id : {A : Type 0} (xs : List A) → map (λ x. x) xs ≡ xs
map_id [] = refl
map_id (x ∷ xs) = ap (◌∷◌ x) (map_id xs)

read_pickup-at :
    (pre post : List ℕ) (p : Pickup)
    → Unit {0}
    → read_pickup (pre ++ (pickup_bytes p ++ post)) (length pre) ≡ ok p
unfolding read_pickup pickup_bytes byte_at
read_pickup-at pre post p _ =
    >>=-ok _ (byte_at_after pre _) (>>=-ok _ (byte_at-append pre _ 1) refl)

read_weapon-at :
    (pre post : List ℕ) (w : WeaponInfo)
    → IsU16 w.id
    → read_weapon (pre ++ (weapon_bytes w ++ post)) (length pre) ≡ ok w
unfolding read_weapon weapon_bytes le16 byte_at u16_at
read_weapon-at pre post w h =
    >>=-ok _ (u16_at_after pre _ ∙ word_read w.id h) (>>=-ok _ (byte_at-append pre _ 2) refl)

read_pickup-Returns :
    (body : List ℕ) (off : ℕ) → off + 2 ≤ length body → Returns (read_pickup body off)
unfolding read_pickup
read_pickup-Returns body off h =
    >>=-Returns (byte_at-Returns body off (omega arith))
      λ _ _. >>=-Returns (byte_at-Returns body (off + 1) (omega arith)) λ _ _. ok_returns _

read_weapon-Returns :
    (body : List ℕ) (off : ℕ) → off + 3 ≤ length body → Returns (read_weapon body off)
unfolding read_weapon
read_weapon-Returns body off h =
    >>=-Returns (u16_at-Returns body off (omega arith))
      λ _ _. >>=-Returns (byte_at-Returns body (off + 2) (omega arith)) λ _ _. ok_returns _

pub pickup_state-Returns : (body : List ℕ) → Returns (read_pickup_state body)
unfolding read_pickup_state
pickup_state-Returns body =
    >>=-Returns (read_table-Returns 2 read_pickup read_pickup-Returns body) λ _ _. ok_returns _

pub weapon_state-Returns : (body : List ℕ) → Returns (read_weapon_state body)
unfolding read_weapon_state
weapon_state-Returns body =
    >>=-Returns (read_table-Returns 3 read_weapon read_weapon-Returns body) λ _ _. ok_returns _

always : (items : List Pickup) → All (λ _. Unit {0}) items
always [] = tt
always (p ∷ rest) = (tt, always rest)

pub pickup_state-read :
    (p : PickupState) → read_pickup_state (length p.active ∷ written pickup_bytes p.active) ≡ ok p
unfolding read_pickup_state
pickup_state-read p =
    >>=-ok _
      (read_table-written 2 read_pickup pickup_bytes (λ p. p) (λ _. Unit {0})
        (λ p. unfold pickup_bytes in refl) read_pickup-at p.active (always p.active))
      (rw (map_id p.active))

pub weapon_state-read :
    (w : WeaponState)
    → All (λ w. IsU16 w.id) w.weapons
    → read_weapon_state (length w.weapons ∷ written weapon_bytes w.weapons) ≡ ok w
unfolding read_weapon_state
weapon_state-read w v =
    >>=-ok _
      (read_table-written 3 read_weapon weapon_bytes (λ p. p) (λ w. IsU16 w.id)
        (λ p. unfold weapon_bytes le16 in refl) read_weapon-at w.weapons v)
      (rw (map_id w.weapons))

module _ (fl : Floats) where
  open fl use {F32}

  pub wire_flag : FlagInfo F32 → FlagInfo F32
  wire_flag f = record f { x = wire_coord fl f.x; y = wire_coord fl f.y }

  read_flag-at :
      (pre post : List ℕ) (f : FlagInfo F32)
      → IsU16 f.carrier
      → read_flag fl (pre ++ (flag_bytes fl f ++ post)) (length pre) ≡ ok (wire_flag f)
  unfolding read_flag flag_bytes wire_flag le16 byte_at u16_at
  read_flag-at pre post f h = >>=-ok _ (byte_at_after pre _) (
      >>=-ok _ (byte_at-append pre _ 1) (
        >>=-ok _ (u16_at-append pre _ 2 ∙ word_read f.carrier h) (
          >>=-ok _ (u16_at-append pre _ 4 ∙ word_read _ (quantize_coord-IsU16 fl f.x))
            (>>=-ok _ (u16_at-append pre _ 6 ∙ word_read _ (quantize_coord-IsU16 fl f.y)) refl))))

  read_flag-Returns :
      (body : List ℕ) (off : ℕ) → off + 8 ≤ length body → Returns (read_flag fl body off)
  unfolding read_flag
  read_flag-Returns body off h = >>=-Returns (byte_at-Returns body off (omega arith)) λ _ _.
      >>=-Returns (byte_at-Returns body (off + 1) (omega arith)) λ _ _.
        >>=-Returns (u16_at-Returns body (off + 2) (omega arith)) λ _ _.
          >>=-Returns (u16_at-Returns body (off + 4) (omega arith))
            λ _ _. >>=-Returns (u16_at-Returns body (off + 6) (omega arith)) λ _ _. ok_returns _

  pub flag_state-Returns : (body : List ℕ) → Returns (read_flag_state fl body)
  unfolding read_flag_state
  flag_state-Returns body =
      >>=-Returns (read_table-Returns 8 (read_flag fl) read_flag-Returns body) λ _ _. ok_returns _

  pub flag_state-read :
      (f : FlagState F32)
      → All (λ f. IsU16 f.carrier) f.flags
      → read_flag_state fl (length f.flags ∷ written (flag_bytes fl) f.flags)
        ≡ ok (record { flags = map wire_flag f.flags })
  unfolding read_flag_state
  flag_state-read f v =
      >>=-ok _
        (read_table-written 8 (read_flag fl) (flag_bytes fl) wire_flag (λ f. IsU16 f.carrier)
          (λ p. unfold flag_bytes le16 in refl) read_flag-at f.flags v)
        refl
