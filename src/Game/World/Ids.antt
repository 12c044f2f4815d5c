-- ===== src/Game/World/Ids.antt =====
-- allocID: the id it gives is free, and it fails only in a world without a free id.
use rewind.Prelude.{
  ℕ, zero, suc, ◌+◌, ◌-◌, ◌%◌, ◌<◌, ◌≡◌, ◌≢◌, false, arith, Bool-cases, inl, inr, refl, ap,
}
use rewind.Prelude.Result.{ok, Ensures, Ensures-ok, err_ensures, ok_ensures}
use rewind.Game.World.{World, world_full, id_taken, next_after, scan_ids, alloc_id, is_usable}

pub next_after-positive : (id : ℕ) → id < 65536 → (next_after id ≢ 0) × (next_after id < 65536)
unfolding next_after
next_after-positive id h = (λ e. ground (arith, e), ground arith)

-- How far the scan is from an id.
distance : ℕ → ℕ → ℕ
distance id t = (t + 65535 - id) % 65535

distance-next :
    (id t : ℕ)
    → id ≢ 0
    → id < 65536
    → t ≢ 0
    → t < 65536
    → id ≢ t
    → suc (distance (next_after id) t) ≡ distance id t
unfolding next_after distance
distance-next id t p q r s u = ground arith

module _ {F : Type 0} where
  -- An id that a player may get.
  pub record IsFree (w : World F) (id : ℕ) : Type 0 where
    pub positive : id ≢ 0
    pub fits : id < 65536
    pub free : id_taken w id ≡ false

  -- The id that a scan gives, and where the next scan starts.
  abbrev pub IsAllocated : World F → ℕ × ℕ → Type 0
  IsAllocated w r = IsFree w r.0 × (r.1 ≢ 0) × (r.1 < 65536)

  scan_ids-Ensures :
      (w : World F) (n id : ℕ) → id < 65536 → Ensures (IsAllocated w) (scan_ids w n id)
  unfolding scan_ids
  scan_ids-Ensures w zero id h = err_ensures world_full
  scan_ids-Ensures w (suc n) id h =
      let next : (next_after id ≢ 0) × (next_after id < 65536) = next_after-positive id h in
      elim (Bool-cases (is_usable w id)) [
        | inl e ↦ rw e (
            ok_ensures (id, next_after id)
              (
                record { positive = λ z. ground (arith, e, z); fits = h; free = ground (arith, e) },
                next.0,
                next.1,
              ))
        | inr e ↦ rw e (scan_ids-Ensures w n (next_after id) next.1)
      ]

  scan_ids-Finds :
      (w : World F) (n id t : ℕ)
      → id ≢ 0
      → id < 65536
      → IsFree w t
      → distance id t < n
      → (r : ℕ × ℕ) × (scan_ids w n id ≡ ok r)
  unfolding scan_ids distance
  scan_ids-Finds w zero id t p q f d = absurd (omega (arith, d))
  scan_ids-Finds w (suc n) id t p q f d =
      let next : (next_after id ≢ 0) × (next_after id < 65536) = next_after-positive id q in
      elim (Bool-cases (is_usable w id)) [
        | inl e ↦ ((id, next_after id), rw e refl)
        | inr e ↦
            let other : id ≢ t = λ k. ground (arith, e, f.free, ap (id_taken w) k, p) in
            let r : (r : ℕ × ℕ) × (scan_ids w n (next_after id) ≡ ok r) =
              scan_ids-Finds w n (next_after id) t next.0 next.1 f
                (omega (arith, distance-next id t p q f.positive f.fits other, d)) in
            (r.0, rw e r.1)
      ]

  pub alloc_id-IsAllocated :
      (w : World F) (r : ℕ × ℕ) → w.next_id < 65536 → alloc_id w ≡ ok r → IsAllocated w r
  unfolding alloc_id
  alloc_id-IsAllocated w r h e = Ensures-ok (scan_ids-Ensures w 65535 w.next_id h) e

  -- allocID succeeds in every world where some id is free, if `nextID` is a uint16 other than 0: its
  -- 65535 rounds are enough to come to each id.
  pub alloc_id-Finds :
      (w : World F) (t : ℕ)
      → w.next_id ≢ 0
      → w.next_id < 65536
      → IsFree w t
      → (r : ℕ × ℕ) × (alloc_id w ≡ ok r)
  unfolding alloc_id distance
  alloc_id-Finds w t p q f = scan_ids-Finds w 65535 w.next_id t p q f (omega arith)
