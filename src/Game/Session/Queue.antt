-- ===== src/Game/Session/Queue.antt =====
-- The queues of a session: bounded, in order, with the newest snapshot kept; and when a client that
-- takes nothing is dropped.
use rewind.Prelude.{
  ℕ, suc, ◌≡◌, ◌≤◌, ◌<◌, ◌+◌, ◌-◌, List, [], ◌∷◌, ◌++◌, true, false, ltb, ltb→le, refl, arith, ap,
  sym, ◌∙◌, Bool-cases, inl, inr, if◌then◌else◌, length, length-append, length-drop, drop,
  append_assoc,
}
use mathlib.Core.List.{append_assoc, append-nil}
use mathlib.Core.Path.{ap₂, subst}
use rewind.Game.Session.{
  Session, new_session, try_send, send_again, drop_oldest, first_send, enqueue_snapshot, lagging,
}

shifted :
    {A : Type 0} (b : A) (bs q : List A)
    → 0 < length q
    → drop (length bs) ((drop 1 q ++ (b ∷ [])) ++ bs) ≡ drop (suc (length bs)) (q ++ (b ∷ bs))
shifted b bs [] h = absurd (omega (arith, h))
shifted b bs (x ∷ q) h = ap (drop (length bs)) (append_assoc q (b ∷ []) bs)

module _ {F : Type 0} where
  -- Whatever the write pump takes meanwhile, a snapshot is queued last, behind a part of what waited
  -- that the room dropped nothing else from than one buffer, and the queue stays within its bound.
  pub enqueue_snapshot-bounded :
      (cap before after : ℕ) (bp : List ℕ) (s : Session F)
      → 0 < cap
      → length s.snapshots ≤ cap
      → ((enqueue_snapshot cap before after bp s).1 ≡ true)
        × (length (enqueue_snapshot cap before after bp s).0.snapshots ≤ cap)
        × ((enqueue_snapshot cap before after bp s).0.snapshots ≡ (
            if ltb (length s.snapshots) cap
            then s.snapshots ++ (bp ∷ [])
            else drop after (drop 1 (drop before s.snapshots)) ++ (bp ∷ [])))
  unfolding enqueue_snapshot first_send drop_oldest send_again try_send
  enqueue_snapshot-bounded cap before after bp s h k =
      elim (Bool-cases (ltb (length s.snapshots) cap)) [
        | inl room ↦
            let less : length s.snapshots < cap = ground (arith, room) in
            let fits : length (s.snapshots ++ (bp ∷ [])) ≤ cap =
              omega (arith, length-append s.snapshots (bp ∷ []), less) in
            rw room (refl, fits, refl)
        | inr full ↦
            let left : List (List ℕ) = drop after (drop 1 (drop before s.snapshots)) in
            let size : length left < cap = omega (
              arith,
              length-drop after (drop 1 (drop before s.snapshots)),
              length-drop 1 (drop before s.snapshots),
              length-drop before s.snapshots,
              h,
              k,
            ) in
            let again : ltb (length left) cap ≡ true = ground (arith, size) in
            let fits : length (left ++ (bp ∷ [])) ≤ cap =
              omega (arith, length-append left (bp ∷ []), size) in
            rw (full, again) (refl, fits, refl)
      ]

  -- Snapshots to a client that takes none of them.
  unfoldable pub send_all : ℕ → List (List ℕ) → Session F → Session F
  send_all cap [] s = s
  send_all cap (b ∷ bs) s = send_all cap bs (enqueue_snapshot cap 0 0 b s).0

  abbrev with_room : List ℕ → Session F → Session F
  with_room b s = record s { snapshots = s.snapshots ++ (b ∷ []); backlog = 0 }

  abbrev with_drop : List ℕ → Session F → Session F
  with_drop b s = record s {
    snapshots = drop 1 s.snapshots ++ (b ∷ []);
    backlog = suc s.backlog;
    dropped = suc s.dropped;
  }

  enqueue-room :
      (cap : ℕ) (b : List ℕ) (s : Session F)
      → length s.snapshots < cap
      → (enqueue_snapshot cap 0 0 b s).0 ≡ with_room b s
  unfolding enqueue_snapshot first_send try_send
  enqueue-room cap b s h =
      let room : ltb (length s.snapshots) cap ≡ true = ground (arith, h) in rw room refl

  enqueue-full :
      (cap : ℕ) (b : List ℕ) (s : Session F)
      → 0 < cap
      → length s.snapshots ≡ cap
      → (enqueue_snapshot cap 0 0 b s).0 ≡ with_drop b s
  unfolding enqueue_snapshot first_send drop_oldest send_again try_send
  enqueue-full cap b s p h =
      let full : ltb (length s.snapshots) cap ≡ false = ground (arith, h) in
      let again : ltb (length (drop 1 s.snapshots)) cap ≡ true =
        ground (arith, length-drop 1 s.snapshots, h, p) in
      rw (full, again) refl

  send_all-full :
      (cap : ℕ) (bs : List (List ℕ)) (s : Session F)
      → 0 < cap
      → length s.snapshots ≡ cap
      → ((send_all cap bs s).snapshots ≡ drop (length bs) (s.snapshots ++ bs))
        × ((send_all cap bs s).backlog ≡ s.backlog + length bs)
        × ((send_all cap bs s).kick ≡ s.kick)
  unfolding send_all
  send_all-full cap [] s p h = (sym (append-nil s.snapshots), omega arith, refl)
  send_all-full cap (b ∷ bs) s p h =
      let now : Session F = with_drop b s in
      let size : length now.snapshots ≡ cap =
        omega
          (arith, length-append (drop 1 s.snapshots) (b ∷ []), length-drop 1 s.snapshots, h, p) in
      let (kept, late, same) = send_all-full cap bs now p size in
      let step : send_all cap bs now ≡ send_all cap (b ∷ bs) s =
        ap (send_all cap bs) (sym (enqueue-full cap b s p h)) in
      subst
        (λ (u : Session F).
          (u.snapshots ≡ drop (suc (length bs)) (s.snapshots ++ (b ∷ bs)))
          × (u.backlog ≡ s.backlog + suc (length bs))
          × (u.kick ≡ s.kick))
        step (kept ∙ shifted b bs s.snapshots (omega (arith, p, h)), omega (arith, late), same)

  -- A client that takes nothing has the newest snapshots that fit, in order, and its backlog counts
  -- those that did not.
  send_all-newest :
      (cap : ℕ) (bs : List (List ℕ)) (s : Session F)
      → 0 < cap
      → length s.snapshots ≤ cap
      → s.backlog ≡ 0
      → ((send_all cap bs s).snapshots
          ≡ drop (length s.snapshots + length bs - cap) (s.snapshots ++ bs))
        × ((send_all cap bs s).backlog ≡ length s.snapshots + length bs - cap)
        × ((send_all cap bs s).kick ≡ s.kick)
  unfolding send_all
  send_all-newest cap [] s p h k =
      let none_lost : length s.snapshots + 0 - cap ≡ 0 = omega (arith, h) in
      rw none_lost (sym (append-nil s.snapshots), k, refl)
  send_all-newest cap (b ∷ bs) s p h k = elim (Bool-cases (ltb (length s.snapshots) cap)) [
    | inl room ↦
        let less : length s.snapshots < cap = ground (arith, room) in
        let size : length (s.snapshots ++ (b ∷ [])) ≡ suc (length s.snapshots) =
          omega (arith, length-append s.snapshots (b ∷ [])) in
        let (kept, late, same) =
          send_all-newest cap bs (with_room b s) p (omega (arith, size, less)) refl in
        let count : length (s.snapshots ++ (b ∷ [])) + length bs - cap
            ≡ length s.snapshots + suc (length bs) - cap =
          omega (arith, size) in
        let step : send_all cap bs (with_room b s) ≡ send_all cap (b ∷ bs) s =
          ap (send_all cap bs) (sym (enqueue-room cap b s less)) in
        subst
          (λ (u : Session F).
            (u.snapshots
              ≡ drop (length s.snapshots + suc (length bs) - cap) (s.snapshots ++ (b ∷ bs)))
            × (u.backlog ≡ length s.snapshots + suc (length bs) - cap)
            × (u.kick ≡ s.kick))
          step
          (
            kept ∙ ap₂ (λ n q. drop n q) count (append_assoc s.snapshots (b ∷ []) bs),
            late ∙ count,
            same,
          )
    | inr full ↦
        let exact : length s.snapshots ≡ cap = omega (arith, h, ltb→le _ _ full) in
        let (kept, late, same) = send_all-full cap (b ∷ bs) s p exact in
        let count : suc (length bs) ≡ length s.snapshots + suc (length bs) - cap =
          omega (arith, exact) in
        (
          kept ∙ ap (λ n. drop n (s.snapshots ++ (b ∷ bs))) count,
          omega (arith, late, k, count),
          same,
        )
  ]

-- A client that takes nothing from the start is dropped exactly when it was sent more than what fits
-- and the largest backlog.
pub stalled-lagging :
    (F : Type 0) (cap max_backlog : ℕ) (bs : List (List ℕ))
    → 0 < cap
    → lagging max_backlog (send_all cap bs (new_session {F = F}))
      ≡ ltb (cap + max_backlog) (length bs)
unfolding lagging
stalled-lagging F cap max_backlog bs p =
    let (_, late, same) = send_all-newest {F = F} cap bs new_session p (omega arith) refl in
    rw (same, late) (ground arith)
